-- ===== src/MpTable/Locate.antt =====
-- Where kFindMPFloatingPointerAddress finds the floating pointer.
use deodeok_os.Base.{
  ℕ, zero, suc, ◌+◌, ◌-◌, ◌*◌, ◌<◌, ◌≤◌, Bool, ◌==◌, if◌then◌else◌, Option, none, some, arith, sym,
  subst, Bool-cases, inl, inr, ==→eq, ==→ne,
}
use deodeok_os.Memory.{Memory, load_bytes, mem_cmp}
use deodeok_os.Memory.Words.{IsByteMemory}
use deodeok_os.Memory.Compare.{SameBytes, mem_cmp_iff}
use deodeok_os.MpTable.{
  find_signature, or_else, ebda_address, system_base_memory, base_memory_rounds,
  find_mp_floating_pointer_address,
}

-- The BIOS data area has the segment of the extended BIOS data area at 0x40E and the size of the base
-- memory in KB at 0x413, as little-endian words.
abbrev pub ebda_start : Memory → ℕ
ebda_start m = (m 0x40E + 256 * m 0x40F) * 16

abbrev pub base_memory_end : Memory → ℕ
base_memory_end m = (m 0x413 + 256 * m 0x414) * 1024

-- An address of the extended BIOS data area's first KB and the byte behind it, of the base memory's
-- last KB and the byte behind it, and of the ROM, in this order.
abbrev pub InEbda : Memory → ℕ → Type 0
InEbda m x = (ebda_start m ≤ x) × (x ≤ ebda_start m + 1024)

abbrev pub InBaseMemory : Memory → ℕ → Type 0
InBaseMemory m x =
    (0 < base_memory_end m) × (base_memory_end m ≤ x + 1024) × (x ≤ base_memory_end m)

abbrev pub InRom : ℕ → Type 0
InRom x = (0xF_0000 ≤ x) × (x < 0xF_FFFF)

-- No address of the area has the string.
pub record Absent (m : Memory) (mp_string : ℕ) (area : ℕ → Type 0) : Type 0 where
  pub not_at : (x : ℕ) → area x → ¬ (SameBytes 4 m x mp_string)

-- `x` is the first address of the area that has it.
pub record First (m : Memory) (mp_string : ℕ) (area : ℕ → Type 0) (x : ℕ) : Type 0 where
  pub in_area : area x
  pub signature : SameBytes 4 m x mp_string
  pub none_before : (y : ℕ) → area y → y < x → ¬ (SameBytes 4 m y mp_string)

-- The extended BIOS data area is searched first, the end of the base memory next and the ROM last.
pub data Location (m : Memory) (mp_string : ℕ) : Option ℕ → Type 0 where
  in_ebda : {x : ℕ} → First m mp_string (InEbda m) x → Location m mp_string (some x)
  in_base_memory :
      {x : ℕ}
      → Absent m mp_string (InEbda m)
      → First m mp_string (InBaseMemory m) x
      → Location m mp_string (some x)
  in_rom :
      {x : ℕ}
      → Absent m mp_string (InEbda m)
      → Absent m mp_string (InBaseMemory m)
      → First m mp_string InRom x
      → Location m mp_string (some x)
  nowhere :
      Absent m mp_string (InEbda m)
      → Absent m mp_string (InBaseMemory m)
      → Absent m mp_string InRom
      → Location m mp_string none

-- The `n` addresses from `a` on.
abbrev Rounds : (a n : ℕ) → ℕ → Type 0
Rounds a n x = (a ≤ x) × (x < a + n)

module _ (m : Memory) (mp_string : ℕ) (bytes : IsByteMemory m) where
  abbrev FirstOrAbsent : (area : ℕ → Type 0) → Option ℕ → Type 0
  FirstOrAbsent area none = Absent m mp_string area
  FirstOrAbsent area (some x) = First m mp_string area x

  -- The rounds are those of the area.
  same_area :
      (area area' : ℕ → Type 0) (r : Option ℕ)
      → ((x : ℕ) → area x → area' x)
      → ((x : ℕ) → area' x → area x)
      → FirstOrAbsent area r
      → FirstOrAbsent area' r
  same_area area area' none to from h = record { not_at = λ x i. h.not_at x (from x i) }
  same_area area area' (some x) to from h = record {
    in_area = to x h.in_area;
    signature = h.signature;
    none_before = λ y i lt. h.none_before y (from y i) lt;
  }

  later :
      (a n : ℕ) (r : Option ℕ)
      → ¬ (SameBytes 4 m a mp_string)
      → FirstOrAbsent (Rounds (a + 1) n) r
      → FirstOrAbsent (Rounds a (suc n)) r
  later a n none not_here h = record {
    not_at = λ x i. elim (Bool-cases (x == a)) [
      | inl y ↦ subst (λ b. ¬ (SameBytes 4 m b mp_string)) (sym (==→eq x a y)) not_here
      | inr k ↦ h.not_at x (omega (arith, ==→ne x a k, i.0), omega (arith, i.1))
    ];
  }
  later a n (some x) not_here h = record {
    in_area = (omega (arith, h.in_area.0), omega (arith, h.in_area.1));
    signature = h.signature;
    none_before = λ y i lt. elim (Bool-cases (y == a)) [
      | inl e ↦ subst (λ b. ¬ (SameBytes 4 m b mp_string)) (sym (==→eq y a e)) not_here
      | inr k ↦ h.none_before y (omega (arith, ==→ne y a k, i.0), omega (arith, i.1)) lt
    ];
  }

  find_signature-First : (n a : ℕ) → FirstOrAbsent (Rounds a n) (find_signature n m a mp_string)
  unfolding find_signature
  find_signature-First zero a = record { not_at = λ x i s. absurd (omega (arith, i.0, i.1)) }
  find_signature-First (suc n) a =
      let state = λ (b : Bool).
        FirstOrAbsent (Rounds a (suc n))
          (if b then some a else find_signature n m (a + 1) mp_string) in
      let same = mem_cmp_iff m a mp_string 4 bytes (omega arith) in
      elim (Bool-cases (mem_cmp m a mp_string 4 == 0)) [
        | inl y ↦ subst state (sym y) (record {
          in_area = (omega arith, omega arith);
          signature = same.0 (==→eq (mem_cmp m a mp_string 4) 0 y);
          none_before = λ y i lt s. absurd (omega (arith, i.0));
        })
        | inr k ↦
            let differs : ¬ (SameBytes 4 m a mp_string) =
              λ s. ==→ne (mem_cmp m a mp_string 4) 0 k (same.1 s) in
            subst state (sym k) (
              later a n (find_signature n m (a + 1) mp_string) differs
                (find_signature-First n (a + 1)))
      ]

  located :
      (r s t : Option ℕ)
      → FirstOrAbsent (InEbda m) r
      → FirstOrAbsent (InBaseMemory m) s
      → FirstOrAbsent InRom t
      → Location m mp_string (or_else r (or_else s t))
  located (some x) s t h k l = in_ebda h
  located none (some x) t h k l = in_base_memory h k
  located none none (some x) h k l = in_rom h k l
  located none none none h k l = nowhere h k l

  ebda_found : FirstOrAbsent (InEbda m) (find_signature 1025 m (ebda_address m) mp_string)
  unfolding ebda_address load_bytes
  ebda_found =
      same_area (Rounds (ebda_address m) 1025) (InEbda m) _
        (λ x i. (omega (arith, i.0), omega (arith, i.1)))
        (λ x i. (omega (arith, i.0), omega (arith, i.1)))
        (find_signature-First 1025 (ebda_address m))

  base_memory_found :
      FirstOrAbsent
        (InBaseMemory m)
        (find_signature (base_memory_rounds m) m (system_base_memory m - 1024) mp_string)
  unfolding base_memory_rounds system_base_memory load_bytes
  base_memory_found =
      same_area (Rounds (system_base_memory m - 1024) (base_memory_rounds m)) (InBaseMemory m) _
        (λ x i. (ground (arith, i.0, i.1), ground (arith, i.0, i.1), ground (arith, i.0, i.1)))
        (λ x i. (omega (arith, i.1), ground (arith, i.0, i.2)))
        (find_signature-First (base_memory_rounds m) (system_base_memory m - 1024))

  rom_found : FirstOrAbsent InRom (find_signature 0xFFFF m 0x0F0000 mp_string)
  rom_found =
      same_area (Rounds 0x0F0000 0xFFFF) InRom _ (λ x i. (i.0, omega (arith, i.1)))
        (λ x i. (i.0, omega (arith, i.1))) (find_signature-First 0xFFFF 0x0F0000)

  -- kFindMPFloatingPointerAddress returns the first address with the string "_MP_" of the extended BIOS
  -- data area's first KB, else of the base memory's last KB, else of the ROM, where the BIOS data area
  -- says where the two areas are; it returns FALSE only if none of the addresses has it.
  pub find_mp_floating_pointer_address-Location :
      Location m mp_string (find_mp_floating_pointer_address m mp_string)
  unfolding find_mp_floating_pointer_address
  find_mp_floating_pointer_address-Location =
      located (find_signature 1025 m (ebda_address m) mp_string)
        (find_signature (base_memory_rounds m) m (system_base_memory m - 1024) mp_string)
        (find_signature 0xFFFF m 0x0F0000 mp_string) ebda_found base_memory_found rom_found
