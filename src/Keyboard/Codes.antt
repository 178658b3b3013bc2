-- ===== src/Keyboard/Codes.antt =====
-- What a list of scan codes does to the keyboard manager, against a description by counting.
use deodeok_os.Base.{
  ℕ, zero, suc, ◌<◌, ◌≡◌, refl, Bool, true, false, ◌||◌, ◌==◌, if◌then◌else◌, List, [], ◌∷◌, arith,
  ap, ◌∙◌, sym, Bool-cases, inl, inr,
}
use deodeok_os.Keyboard.Table.{KeyMappingEntry}
use deodeok_os.Keyboard.State.{
  KeyboardManager, convert_code, update_combination_key_status, run_codes, xor,
}

abbrev pub AreBytes : List ℕ → Type 0
AreBytes [] = Unit
AreBytes (c ∷ l) = (c < 256) × AreBytes l

-- The codes that are no prefix and not part of a pause sequence, where `n` codes of one are left.
unfoldable pub plain_codes : ℕ → List ℕ → List ℕ
plain_codes n [] = []
plain_codes (suc n) (c ∷ l) = plain_codes n l
plain_codes zero (c ∷ l) = elim (c == 0xE1) [
  | true ↦ plain_codes 2 l
  | false ↦ elim (c == 0xE0) [ true ↦ plain_codes 0 l | false ↦ c ∷ plain_codes 0 l ]
]

-- Whether the code stands in the list an odd number of times, and whether it does at all.
unfoldable pub odd_times : ℕ → List ℕ → Bool
odd_times x [] = false
odd_times x (c ∷ l) = xor (c == x) (odd_times x l)

unfoldable pub occurs : ℕ → List ℕ → Bool
occurs x [] = false
occurs x (c ∷ l) = (c == x) || occurs x l

-- The last shift key that was pressed or released, of either side.
unfoldable pub last_shift : Bool → List ℕ → Bool
last_shift b [] = b
last_shift b (c ∷ l) =
    last_shift
      (if (c == 0x2A) || (c == 0x36) then true else if (c == 0xAA) || (c == 0xB6) then false else b)
      l

pub record Follows (k k' : KeyboardManager) (l : List ℕ) : Type 0 where
  pub caps : k'.caps_lock_on ≡ xor k.caps_lock_on (odd_times 0x3A l)
  pub num : k'.num_lock_on ≡ xor k.num_lock_on (odd_times 0x45 l)
  pub scroll : k'.scroll_lock_on ≡ (k.scroll_lock_on || occurs 0x46 l)
  pub shift : k'.shift_down ≡ last_shift k.shift_down l

xor_assoc : (a b c : Bool) → xor (xor a b) c ≡ xor a (xor b c)
xor_assoc true true true = refl
xor_assoc true true false = refl
xor_assoc true false c = refl
xor_assoc false b c = refl

or_assoc : (a b c : Bool) → ((a || b) || c) ≡ (a || (b || c))
or_assoc true b c = refl
or_assoc false b c = refl

module _ (beyond : ℕ → KeyMappingEntry) where
  step_skip :
      (k : KeyboardManager) (c n : ℕ)
      → k.skip_count_for_pause ≡ suc n
      → (convert_code beyond k c).manager ≡ record k { skip_count_for_pause = n }
  unfolding convert_code
  step_skip k c n e = ground arith

module _ (k : KeyboardManager) (c : ℕ) (h : c < 256) where
  abbrev status : KeyboardManager
  status = (update_combination_key_status k c).0

  status_caps : status.caps_lock_on ≡ xor k.caps_lock_on (odd_times 0x3A (c ∷ []))
  unfolding update_combination_key_status odd_times
  status_caps = ground arith

  status_num : status.num_lock_on ≡ xor k.num_lock_on (odd_times 0x45 (c ∷ []))
  unfolding update_combination_key_status odd_times
  status_num = ground arith

  status_scroll : status.scroll_lock_on ≡ (k.scroll_lock_on || occurs 0x46 (c ∷ []))
  unfolding update_combination_key_status occurs
  status_scroll = ground arith

  status_shift : status.shift_down ≡ last_shift k.shift_down (c ∷ [])
  unfolding update_combination_key_status last_shift
  status_shift = ground arith

  status_skip : status.skip_count_for_pause ≡ k.skip_count_for_pause
  unfolding update_combination_key_status
  status_skip = ground arith

-- A step that keeps the locks and the shift follows no code at all.
abbrev SameLocks : KeyboardManager → KeyboardManager → Type 0
SameLocks k k' =
    (k'.caps_lock_on ≡ k.caps_lock_on)
    × (k'.num_lock_on ≡ k.num_lock_on)
    × (k'.scroll_lock_on ≡ k.scroll_lock_on)
    × (k'.shift_down ≡ k.shift_down)

Follows-same :
    {k k' k'' : KeyboardManager} (l : List ℕ) → SameLocks k k' → Follows k' k'' l → Follows k k'' l
Follows-same l s f = record {
  caps = f.caps ∙ ap (λ b. xor b (odd_times 0x3A l)) s.0;
  num = f.num ∙ ap (λ b. xor b (odd_times 0x45 l)) s.1;
  scroll = f.scroll ∙ ap (λ b. b || occurs 0x46 l) s.2;
  shift = f.shift ∙ ap (λ b. last_shift b l) s.3;
}

xor-false : (a : Bool) → xor a false ≡ a
xor-false true = refl
xor-false false = refl

or-false : (a : Bool) → (a || false) ≡ a
or-false true = refl
or-false false = refl

Follows-cons :
    {k k' k'' : KeyboardManager} (c : ℕ) (l : List ℕ)
    → Follows k k' (c ∷ [])
    → Follows k' k'' l
    → Follows k k'' (c ∷ l)
unfolding odd_times occurs last_shift
Follows-cons {k} c l f g = record {
  caps =
      g.caps
      ∙ ap (λ b. xor b (odd_times 0x3A l)) f.caps
      ∙ xor_assoc k.caps_lock_on _ _
      ∙ rw xor-false;
  num =
      g.num ∙ ap (λ b. xor b (odd_times 0x45 l)) f.num ∙ xor_assoc k.num_lock_on _ _ ∙ rw xor-false;
  scroll =
      g.scroll
      ∙ ap (λ b. b || occurs 0x46 l) f.scroll
      ∙ or_assoc k.scroll_lock_on _ _
      ∙ rw or-false;
  shift = g.shift ∙ ap (λ b. last_shift b l) f.shift;
}

Follows-nil : (k : KeyboardManager) → Follows k k []
unfolding odd_times occurs last_shift
Follows-nil k = record {
  caps = sym (xor-false _);
  num = sym (xor-false _);
  scroll = sym (or-false _);
  shift = refl;
}

plain_pause : (c : ℕ) (l : List ℕ) → (c == 0xE1) ≡ true → plain_codes 0 (c ∷ l) ≡ plain_codes 2 l
unfolding plain_codes
plain_pause c l e = rw (e, plain_codes) refl

plain_extended :
    (c : ℕ) (l : List ℕ)
    → (c == 0xE1) ≡ false
    → (c == 0xE0) ≡ true
    → plain_codes 0 (c ∷ l) ≡ plain_codes 0 l
unfolding plain_codes
plain_extended c l n e = rw (n, e, plain_codes) refl

plain_plain :
    (c : ℕ) (l : List ℕ)
    → (c == 0xE1) ≡ false
    → (c == 0xE0) ≡ false
    → plain_codes 0 (c ∷ l) ≡ c ∷ plain_codes 0 l
unfolding plain_codes
plain_plain c l n e = rw (n, e, plain_codes) refl

module _ (beyond : ℕ → KeyMappingEntry) where
  abbrev after : KeyboardManager → ℕ → KeyboardManager
  after k c = (convert_code beyond k c).manager

  step_pause :
      (k : KeyboardManager) (c : ℕ)
      → k.skip_count_for_pause ≡ 0
      → (c == 0xE1) ≡ true
      → SameLocks k (after k c) × ((after k c).skip_count_for_pause ≡ 2)
  unfolding convert_code
  step_pause k c z e = ground arith

  step_extended :
      (k : KeyboardManager) (c : ℕ)
      → k.skip_count_for_pause ≡ 0
      → (c == 0xE1) ≡ false
      → (c == 0xE0) ≡ true
      → SameLocks k (after k c) × ((after k c).skip_count_for_pause ≡ 0)
  unfolding convert_code
  step_extended k c z n e = ground arith

  step_plain :
      (k : KeyboardManager) (c : ℕ)
      → k.skip_count_for_pause ≡ 0
      → (c == 0xE1) ≡ false
      → (c == 0xE0) ≡ false
      → after k c ≡ (update_combination_key_status (record k { extended_code_in = false }) c).0
  unfolding convert_code
  step_plain k c z n e = ground arith

  step-Follows :
      (k : KeyboardManager) (c : ℕ)
      → c < 256
      → k.skip_count_for_pause ≡ 0
      → (c == 0xE1) ≡ false
      → (c == 0xE0) ≡ false
      → Follows k (after k c) (c ∷ []) × ((after k c).skip_count_for_pause ≡ 0)
  step-Follows k c h z n e =
      let k' : KeyboardManager = record k { extended_code_in = false } in
      let p = step_plain k c z n e in
      (
        record {
          caps = ap (λ (t : KeyboardManager). t.caps_lock_on) p ∙ status_caps k' c h;
          num = ap (λ (t : KeyboardManager). t.num_lock_on) p ∙ status_num k' c h;
          scroll = ap (λ (t : KeyboardManager). t.scroll_lock_on) p ∙ status_scroll k' c h;
          shift = ap (λ (t : KeyboardManager). t.shift_down) p ∙ status_shift k' c h;
        },
        ap (λ (t : KeyboardManager). t.skip_count_for_pause) p ∙ status_skip k' c h ∙ z,
      )

  Follows-from :
      (l : List ℕ) (k : KeyboardManager) (n : ℕ)
      → k.skip_count_for_pause ≡ n
      → AreBytes l
      → Follows k (run_codes beyond k l) (plain_codes n l)
  unfolding run_codes plain_codes
  Follows-from [] k n e h = Follows-nil k
  Follows-from (c ∷ l) k (suc n) e h =
      Follows-same (plain_codes n l) (rw (step_skip beyond k c n e) (refl, refl, refl, refl))
        (Follows-from l (after k c) n (rw (step_skip beyond k c n e)) h.1)
  Follows-from (c ∷ l) k zero e h = elim (Bool-cases (c == 0xE1)) [
    | inl p ↦ rw (plain_pause c l p) (
        Follows-same (plain_codes 2 l) (step_pause k c e p).0
          (Follows-from l (after k c) 2 (step_pause k c e p).1 h.1))
    | inr p ↦ elim (Bool-cases (c == 0xE0)) [
      | inl x ↦ rw (plain_extended c l p x) (
          Follows-same (plain_codes 0 l) (step_extended k c e p x).0
            (Follows-from l (after k c) 0 (step_extended k c e p x).1 h.1))
      | inr x ↦ rw (plain_plain c l p x) (
          Follows-cons c (plain_codes 0 l) (step-Follows k c h.0 e p x).0
            (Follows-from l (after k c) 0 (step-Follows k c h.0 e p x).1 h.1))
    ]
  ]

  -- After any scan codes the caps lock and the num lock are on if their key was pressed an odd
  -- number of times and they were off before, or an even number and they were on; the scroll lock is
  -- on if it was or its key was pressed; the shift is down if the last shift code was a press, or was
  -- down and there was none. The codes of a pause sequence and the prefix of the extended keys do not
  -- count.
  pub run_codes-Follows :
      (k : KeyboardManager) (l : List ℕ)
      → AreBytes l
      → Follows k (run_codes beyond k l) (plain_codes k.skip_count_for_pause l)
  run_codes-Follows k l h = Follows-from l k k.skip_count_for_pause refl h
