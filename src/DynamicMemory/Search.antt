-- ===== src/DynamicMemory/Search.antt =====
-- kFindFreeBlockInBitmap finds the first free block of a level, and finds one if there is one.
use deodeok_os.Base.{
  ℕ, zero, suc, ◌+◌, ◌-◌, ◌/◌, ◌%◌, ◌^◌, ◌<◌, ◌≤◌, ◌≡◌, ◌≢◌, Bool, true, false, ◌==◌, ◌&&◌, ltb,
  arith, Bool-cases, inl, inr, ==→eq, ==→ne, Option, none, some, ap, ◌∙◌, sym, ltb→lt, ltb→le,
}
use mathlib.Core.Bool.{false≢true}
use native.Mathlib.Decide.{dec_lt}
use deodeok_os.Memory.{Memory, load_bytes}
use deodeok_os.Memory.Words.{load_bytes-zero}
use deodeok_os.DynamicMemory.{DynamicMemory, flag, find_loop, find_free_block_in_bitmap}
use deodeok_os.DynamicMemory.Bits.{test-zero, &&_right}
use deodeok_os.DynamicMemory.Bitmap.{free_count, IsCounted}

flag_of_zero : (m : Memory) (o : ℕ) → m (o / 8) ≡ 0 → flag m o ≡ false
unfolding flag
flag_of_zero m o e = rw e (test-zero (o % 8) (omega arith))

-- A QWORD of zeros at a multiple of 8 holds 64 blocks that are not free.
word_clear :
    (m : Memory) (i o : ℕ)
    → i % 8 ≡ 0
    → load_bytes 8 m (i / 8) ≡ 0
    → i ≤ o
    → o < i + 64
    → flag m o ≡ false
word_clear m i o e z lo hi =
    flag_of_zero m o
      (ap m (omega arith) ∙ load_bytes-zero 8 m (i / 8) z (o / 8 - i / 8) (omega arith))

-- The first free block from `i` on, below `n`, or none.
unfoldable pub IsFirst : Memory → (n i : ℕ) → Option ℕ → Type 0
IsFirst m n i none = (o : ℕ) → i ≤ o → o < n → flag m o ≡ false
IsFirst m n i (some o) =
    (i ≤ o) × (o < n) × (flag m o ≡ true) × ((p : ℕ) → i ≤ p → p < o → flag m p ≡ false)

-- Going on behind blocks that are not free.
IsFirst-step :
    (m : Memory) (n i j : ℕ) (r : Option ℕ)
    → i ≤ j
    → ((p : ℕ) → i ≤ p → p < j → flag m p ≡ false)
    → IsFirst m n j r
    → IsFirst m n i r
unfolding IsFirst
IsFirst-step m n i j none le clear f =
    λ o lo hi. elim (dec_lt o j) [ yes l ↦ clear o lo l | no g ↦ f o (omega arith) hi ]
IsFirst-step m n i j (some o) le clear f = (
  omega (arith, f.0),
  f.1,
  f.2,
  λ p lo hi. elim (dec_lt p j) [ yes l ↦ clear p lo l | no g ↦ f.3 p (omega arith) hi ],
)

-- The loop looks at a QWORD only where it starts a byte, or where it is not 0.
abbrev skips : Memory → ℕ → ℕ → Bool
skips m n i = ltb 0 ((n - i) / 64) && (load_bytes 8 m (i / 8) == 0)

abbrev Aligned : Memory → ℕ → ℕ → Type 0
Aligned m n i = (i % 8 ≢ 0) → skips m n i ≡ false

Aligned-next : (m : Memory) (n i : ℕ) → skips m n i ≡ false → Aligned m n (i + 1)
Aligned-next m n i e ne = let same : (i + 1) / 8 ≡ i / 8 = omega arith in rw same (ground arith)

Aligned-of_skip : (m : Memory) (n i : ℕ) → Aligned m n i → skips m n i ≡ true → i % 8 ≡ 0
Aligned-of_skip m n i al skip = elim (Bool-cases (i % 8 == 0)) [
  | inl z ↦ ==→eq _ _ z
  | inr nz ↦ absurd (false≢true (sym (al (==→ne _ _ nz)) ∙ skip))
]

find_loop-IsFirst :
    (k : ℕ) (m : Memory) (n i : ℕ) → Aligned m n i → n < i + k → IsFirst m n i (find_loop k m n i)
unfolding find_loop IsFirst
find_loop-IsFirst zero m n i al fuel = λ o lo hi. absurd (omega arith)
find_loop-IsFirst (suc k) m n i al fuel = elim (Bool-cases (ltb i n)) [
  | inl lt ↦ rw lt (elim (Bool-cases (skips m n i)) [
    | inl skip ↦ rw skip (
        IsFirst-step m n i (i + 64) (find_loop k m n (i + 64)) (omega arith)
          (λ p lo hi.
            word_clear m i p (Aligned-of_skip m n i al skip) (==→eq _ _ (&&_right _ _ skip)) lo hi)
          (find_loop-IsFirst k m n (i + 64)
            (λ ne. absurd (ne (omega (arith, Aligned-of_skip m n i al skip)))) (omega arith)))
    | inr stay ↦ rw stay (elim (Bool-cases (flag m i)) [
      | inl free ↦ rw free (omega arith, ltb→lt _ _ lt, free, λ p lo hi. absurd (omega arith))
      | inr used ↦ rw used (
          IsFirst-step m n i (i + 1) (find_loop k m n (i + 1)) (omega arith)
            (λ p lo hi. ap (flag m) (omega arith) ∙ used)
            (find_loop-IsFirst k m n (i + 1) (Aligned-next m n i stay) (omega arith)))
    ])
  ])
  | inr ge ↦ rw ge (λ o lo hi. absurd (omega (arith, ltb→le i n ge)))
]

-- A level's count is 0 only if no block of it is free.
free_count-zero : (n : ℕ) (m : Memory) → free_count n m ≡ 0 → (o : ℕ) → o < n → flag m o ≡ false
unfolding free_count
free_count-zero zero m e o lt = absurd (omega arith)
free_count-zero (suc n) m e o lt = elim (dec_lt o n) [
  | yes l ↦ free_count-zero n m (omega (arith, e)) o l
  | no g ↦
      let last : flag m n ≡ false = ground arith in
      let at : o ≡ n = omega arith in ap (flag m) at ∙ last
]

-- kFindFreeBlockInBitmap returns the first free block of the level, and -1 only if none is free.
pub find_free-IsFirst :
    (d : DynamicMemory) (level : ℕ)
    → IsCounted (d.block_count_of_smallest_block / 2 ^ level) (d.bitmap_of_level level)
    → IsFirst
        (d.bitmap_of_level level).bitmap
        (d.block_count_of_smallest_block / 2 ^ level)
        0
        (find_free_block_in_bitmap d level)
unfolding find_free_block_in_bitmap IsFirst
find_free-IsFirst d level c =
    let l = d.bitmap_of_level level in
    let n = d.block_count_of_smallest_block / 2 ^ level in
    elim (Bool-cases (l.exist_bit_count == 0)) [
      | inl z ↦ rw z (λ o lo hi. free_count-zero n l.bitmap (sym c.counted ∙ ==→eq _ _ z) o hi)
      | inr nz ↦
          rw nz
            (find_loop-IsFirst (n + 1) l.bitmap n 0 (λ ne. absurd (ne (omega arith))) (omega arith))
    ]
