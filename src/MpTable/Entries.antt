-- ===== src/MpTable/Entries.antt =====
-- The entries of the MP configuration table as a list, and what the walks make of it.
use deodeok_os.Base.{
  ℕ, zero, suc, ◌+◌, ◌%◌, ◌≡◌, ◌<◌, Bool, true, false, ◌==◌, ◌&&◌, ◌||◌, if◌then◌else◌, Option,
  none, some, List, [], ◌∷◌, arith, refl, ap, ◌∙◌,
}
use deodeok_os.Memory.{Memory, mem_cmp}
use deodeok_os.MpTable.{
  MpConfigurationManager, entry_count, analyse_entry, analyse_entries, find_assignment, find_ioapic,
  ioapic_of, find_ioapic_entry_for_isa,
}

-- A processor's entry has 20 bytes, the others have 8.
abbrev pub next_entry : Memory → ℕ → ℕ
next_entry m e = if m e == 0 then e + 20 else e + 8

-- The addresses of `n` entries from `e` on.
unfoldable pub entries : (n : ℕ) → Memory → (e : ℕ) → List ℕ
entries zero m e = []
entries (suc n) m e = e ∷ entries n m (next_entry m e)

-- Their types are the five of the specification.
abbrev pub KnownTypes : Memory → List ℕ → Type 0
KnownTypes m [] = Unit
KnownTypes m (e ∷ l) = (m e < 5) × KnownTypes m l

unfoldable pub first_that : (ℕ → Bool) → List ℕ → Option ℕ
first_that p [] = none
first_that p (e ∷ l) = if p e then some e else first_that p l

unfoldable pub count_that : (ℕ → Bool) → List ℕ → ℕ
count_that p [] = 0
count_that p (e ∷ l) = if p e then count_that p l + 1 else count_that p l

abbrev pub is_enabled_processor : Memory → ℕ → Bool
is_enabled_processor m e = m e == 0 && m (e + 3) % 2 == 1

abbrev pub is_assignment : Memory → (bus : ℕ) → ℕ → Bool
is_assignment m bus e = m e == 3 && m (e + 4) == bus

abbrev pub is_ioapic : Memory → (ioapic_id : ℕ) → ℕ → Bool
is_ioapic m ioapic_id e = m e == 2 && m (e + 1) == ioapic_id

abbrev pub or_null : Option ℕ → ℕ
or_null none = 0
or_null (some e) = e

-- The rounds of the two loops, with the entry's type `t`, whether it fits, and the results of the
-- rounds behind a processor's entry, another entry and an unknown one.
assignment_round :
    (t : ℕ) (fits : Bool) (e : ℕ) (p o s : Option ℕ)
    → t < 5
    → (if t == 0
        then p
        else if t == 3
        then (if fits then some e else o)
        else if t == 1 || t == 2 || t == 4
        then o
        else s)
      ≡ (if t == 3 && fits then some e else if t == 0 then p else o)
assignment_round t fits e p o s lt = ground arith

ioapic_round :
    (t : ℕ) (fits : Bool) (e p o s : ℕ)
    → t < 5
    → (if t == 0
        then p
        else if t == 2
        then (if fits then e else o)
        else if t == 1 || t == 3 || t == 4
        then o
        else s)
      ≡ (if t == 2 && fits then e else if t == 0 then p else o)
ioapic_round t fits e p o s lt = ground arith

if_apply :
    {A : Type 0} (f : ℕ → A) (b : Bool) (x y : ℕ)
    → (if b then f x else f y) ≡ f (if b then x else y)
if_apply f true x y = refl
if_apply f false x y = refl

or_null_if :
    (b : Bool) (e : ℕ) (r : Option ℕ)
    → (if b then e else or_null r) ≡ or_null (if b then some e else r)
or_null_if true e r = refl
or_null_if false e r = refl

find_assignment-first_that :
    (n : ℕ) (m : Memory) (bus e : ℕ)
    → KnownTypes m (entries n m e)
    → find_assignment n m bus e ≡ first_that (is_assignment m bus) (entries n m e)
unfolding find_assignment first_that entries
find_assignment-first_that zero m bus e known = refl
find_assignment-first_that (suc n) m bus e known =
    let rest = find_assignment n m bus in
    let hit = λ (r : Option ℕ). if is_assignment m bus e then some e else r in
    assignment_round (m e) (m (e + 4) == bus) e (rest (e + 20)) (rest (e + 8)) (rest e) known.0
    ∙ ap hit (
        if_apply rest (m e == 0) (e + 20) (e + 8)
        ∙ find_assignment-first_that n m bus (next_entry m e) known.1)

find_ioapic-first_that :
    (n : ℕ) (m : Memory) (ioapic_id e : ℕ)
    → KnownTypes m (entries n m e)
    → find_ioapic n m ioapic_id e ≡ or_null (first_that (is_ioapic m ioapic_id) (entries n m e))
unfolding find_ioapic first_that entries
find_ioapic-first_that zero m ioapic_id e known = refl
find_ioapic-first_that (suc n) m ioapic_id e known =
    let rest = find_ioapic n m ioapic_id in
    let hit = λ (r : ℕ). if is_ioapic m ioapic_id e then e else r in
    ioapic_round (m e) (m (e + 1) == ioapic_id) e (rest (e + 20)) (rest (e + 8)) (rest e) known.0
    ∙ ap hit (
        if_apply rest (m e == 0) (e + 20) (e + 8)
        ∙ find_ioapic-first_that n m ioapic_id (next_entry m e) known.1)
    ∙ or_null_if (is_ioapic m ioapic_id e) e
        (first_that (is_ioapic m ioapic_id) (entries n m (next_entry m e)))

-- The I/O APIC that the first interrupt assignment of the ISA bus names.
abbrev pub named_ioapic : Memory → List ℕ → Option ℕ → Option ℕ
named_ioapic m l none = none
named_ioapic m l (some a) = first_that (is_ioapic m (m (a + 6))) l

ioapic_of-named :
    (m : Memory) (manager : MpConfigurationManager) (a : Option ℕ)
    → KnownTypes m (entries (entry_count m manager) m manager.base_entry_start_address)
    → ioapic_of m manager a
      ≡ or_null
          (named_ioapic m (entries (entry_count m manager) m manager.base_entry_start_address) a)
ioapic_of-named m manager none known = refl
ioapic_of-named m manager (some a) known =
    find_ioapic-first_that (entry_count m manager) m (m (a + 6)) manager.base_entry_start_address
      known

-- With entries of the five known types only, kFindIOAPICEntryForISA returns the first I/O APIC entry
-- with the ID that the first interrupt assignment of the ISA bus has as its destination, and NULL if
-- there is no such assignment or no such I/O APIC.
pub find_ioapic_entry_for_isa-named :
    (m : Memory) (manager : MpConfigurationManager)
    → KnownTypes m (entries (entry_count m manager) m manager.base_entry_start_address)
    → find_ioapic_entry_for_isa m manager
      ≡ or_null (
          named_ioapic m (entries (entry_count m manager) m manager.base_entry_start_address) (
            first_that
              (is_assignment m manager.isa_bus_id)
              (entries (entry_count m manager) m manager.base_entry_start_address)))
unfolding find_ioapic_entry_for_isa
find_ioapic_entry_for_isa-named m manager known =
    ap (ioapic_of m manager) (
      find_assignment-first_that (entry_count m manager) m manager.isa_bus_id
        manager.base_entry_start_address known)
    ∙ ioapic_of-named m manager
        (first_that (is_assignment m manager.isa_bus_id)
          (entries (entry_count m manager) m manager.base_entry_start_address))
        known

add_one : (b : Bool) (c k : ℕ) → c + (if b then 1 else 0) + k ≡ c + (if b then k + 1 else k)
add_one true c k = omega arith
add_one false c k = omega arith

abbrev analysed : (b c : Bool) (x y z : MpConfigurationManager × ℕ) → MpConfigurationManager × ℕ
analysed b c x y z = if b then x else if c then y else z

-- A round of the loop of kAnalysisMPConfigurationTable: where the next entry is, and the count.
analyse_next :
    (b c : Bool) (x y z : MpConfigurationManager) (p q : ℕ)
    → (analysed b c (x, p) (y, q) (z, q)).1 ≡ (if b then p else q)
analyse_next true c x y z p q = refl
analyse_next false true x y z p q = refl
analyse_next false false x y z p q = refl

analyse_count :
    (b c enabled isa : Bool) (manager : MpConfigurationManager) (i p q : ℕ)
    → (analysed b c
        (
          (if enabled
              then record manager { processor_count = manager.processor_count + 1 }
              else manager),
          p,
        )
        ((if isa then record manager { isa_bus_id = i } else manager), q)
        (manager, q)).0.processor_count
      ≡ manager.processor_count + (if b && enabled then 1 else 0)
analyse_count true c true isa manager i p q = refl
analyse_count true c false isa manager i p q = omega arith
analyse_count false true enabled true manager i p q = omega arith
analyse_count false true enabled false manager i p q = omega arith
analyse_count false false enabled isa manager i p q = omega arith

-- The loop of kAnalysisMPConfigurationTable adds the number of the enabled processors' entries to the
-- processor count, whatever else the table holds.
pub analyse_entries-count :
    (n : ℕ) (m : Memory) (isa_string e : ℕ) (manager : MpConfigurationManager)
    → (analyse_entries n m isa_string e manager).processor_count
      ≡ manager.processor_count + count_that (is_enabled_processor m) (entries n m e)
unfolding analyse_entries analyse_entry count_that entries
analyse_entries-count zero m isa_string e manager = omega arith
analyse_entries-count (suc n) m isa_string e manager =
    let r = analyse_entry m isa_string e manager in
    let enabled = is_enabled_processor m in
    let next : r.1 ≡ next_entry m e = analyse_next (m e == 0) (m e == 1) _ _ _ (e + 20) (e + 8) in
    let count : r.0.processor_count ≡ manager.processor_count + (if enabled e then 1 else 0) =
      analyse_count (m e == 0) (m e == 1) (m (e + 3) % 2 == 1) (mem_cmp m (e + 2) isa_string 3 == 0)
        manager (m (e + 1)) (e + 20) (e + 8) in
    analyse_entries-count n m isa_string r.1 r.0
    ∙ ap (λ x. r.0.processor_count + count_that enabled (entries n m x)) next
    ∙ ap (λ c. c + count_that enabled (entries n m (next_entry m e))) count
    ∙ add_one (enabled e) manager.processor_count
        (count_that enabled (entries n m (next_entry m e)))
