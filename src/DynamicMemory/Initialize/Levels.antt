-- ===== src/DynamicMemory/Initialize/Levels.antt =====
-- The bitmaps that kInitializeDynamicMemory writes.
use deodeok_os.Base.{
  ℕ, zero, suc, ◌+◌, ◌-◌, ◌/◌, ◌%◌, ◌^◌, ◌<◌, ◌≤◌, ◌≡◌, ◌==◌, ◌&&◌, arith, Bool-cases, inl, inr, ap,
  ◌∙◌, sym, subst, ltb,
}
use native.Mathlib.Nat.{one-le-pow, lt-div-mul-add, div-eq_of_lt}
use native.Mathlib.Decide.{ℕ_discrete}
use deodeok_os.Memory.Words.{IsByteMemory}
use deodeok_os.DynamicMemory.{DynamicMemory, flag}
use deodeok_os.DynamicMemory.Bits.{test-set, test-zero, set-lt}
use deodeok_os.DynamicMemory.Bitmap.{bit, free_count, IsCounted}
use deodeok_os.DynamicMemory.Cover.{cover, half_range}
use deodeok_os.DynamicMemory.Initialize.{count_levels, initial_level}

-- The last block of an odd level, and no other, is free.
pub flag-initial : (n o : ℕ) → flag (initial_level n).bitmap o ≡ ((n % 2 == 1) && (o + 1 == n))
unfolding initial_level flag
flag-initial n o = elim (Bool-cases (n % 8 == 0)) [
  | inl even ↦ rw even (ground (arith, test-zero (o % 8)))
  | inr some_left ↦ rw some_left (elim (Bool-cases (n % 8 % 2 == 1)) [
    | inl odd ↦ rw odd (
        ground
          (arith, test-set 0 (n % 8 - 1) (omega arith) (omega arith) (o % 8), test-zero (o % 8)))
    | inr even ↦ rw even (ground (arith, test-zero (o % 8)))
  ])
]

initial-IsByteMemory : (n : ℕ) → IsByteMemory (initial_level n).bitmap
unfolding initial_level
initial-IsByteMemory n a = ground (arith, set-lt 0 (n % 8 - 1))

free_count-initial :
    (n m : ℕ) → free_count m (initial_level n).bitmap ≡ bit ((n % 2 == 1) && ltb (n - 1) m)
unfolding free_count
free_count-initial n zero = ground arith
free_count-initial n (suc m) = ground (arith, free_count-initial n m, flag-initial n m)

count-initial : (n : ℕ) → (initial_level n).exist_bit_count ≡ bit (n % 2 == 1)
unfolding initial_level
count-initial n = ground arith

pub initial-IsCounted : (n : ℕ) → IsCounted n (initial_level n)
initial-IsCounted n = record {
  bytes = initial-IsByteMemory n;
  counted = ground (arith, count-initial n, free_count-initial n n);
}

-- The pool is cut into its odd blocks: each unit lies in one of them.
pub cover-initial :
    (n : ℕ) (d : DynamicMemory) (c u : ℕ)
    → ((k : ℕ) → d.bitmap_of_level k ≡ initial_level (c / 2 ^ k))
    → cover n d u + bit (ltb (u / 2 ^ n) (c / 2 ^ n)) ≡ bit (ltb u c)
unfolding cover
cover-initial zero d c u e = ground arith
cover-initial (suc n) d c u e =
    let f : flag (d.bitmap_of_level n).bitmap (u / 2 ^ n)
        ≡ ((c / 2 ^ n % 2 == 1) && (u / 2 ^ n + 1 == c / 2 ^ n)) =
      ap (λ l. flag l.bitmap (u / 2 ^ n)) (e n) ∙ flag-initial (c / 2 ^ n) (u / 2 ^ n) in
    ground (arith, cover-initial n d c u e, half_range c n, half_range u n, f)

-- The halving ends, and then there is no block left.
pub count_levels-done :
    (r c i : ℕ) → c < 2 ^ (i + r) → (c < 2 ^ count_levels r c i) × (count_levels r c i ≤ i + r)
unfolding count_levels
count_levels-done zero c i h = (subst (λ k. c < 2 ^ k) (omega arith) h, omega arith)
count_levels-done (suc r) c i h = elim (Bool-cases (ltb 0 (c / 2 ^ i))) [
  | inl more ↦
      let rest = count_levels-done r c (i + 1) (subst (λ k. c < 2 ^ k) (omega arith) h) in
      rw more (rest.0, omega (arith, rest.1))
  | inr none_left ↦
      rw none_left
        (ground (arith, lt-div-mul-add {a = c} (one-le-pow i 2 (omega arith))), omega arith)
]

pub count_levels-le : (r c k i : ℕ) → c < 2 ^ k → i ≤ k → count_levels r c i ≤ k
unfolding count_levels
count_levels-le zero c k i h le = le
count_levels-le (suc r) c k i h le = elim (Bool-cases (ltb 0 (c / 2 ^ i))) [
  | inl more ↦ rw more (elim (ℕ_discrete i k) [
    | yes e ↦ absurd (ground (arith, div-eq_of_lt (subst (λ j. c < 2 ^ j) (sym e) h)))
    | no ne ↦ count_levels-le r c k (i + 1) h (omega arith)
  ])
  | inr none_left ↦ rw none_left le
]
