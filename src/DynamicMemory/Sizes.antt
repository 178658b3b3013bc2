-- ===== src/DynamicMemory/Sizes.antt =====
-- kGetBuddyBlockSize and kGetBlockListIndexOfMatchSize: the smallest block that holds a size.
use deodeok_os.Base.{
  ℕ, zero, suc, ◌+◌, ◌*◌, ◌^◌, ◌<◌, ◌≤◌, ◌≡◌, arith, refl, Bool-cases, inl, inr, subst, Option,
  none, some, leb,
}
use native.Mathlib.Nat.{pow-le-pow_right, pow-suc, one-le-pow}
use native.Mathlib.Decide.{dec_lt}
use deodeok_os.DynamicMemory.{
  DynamicMemory, block_size, match_level, get_block_list_index_of_match_size,
}

-- Up to level 20 the `int` shift does not overflow.
pub block_size-small : (i : ℕ) → i < 21 → block_size i ≡ 1024 * 2 ^ i
unfolding block_size
block_size-small i h =
    let bound : 2 ^ i ≤ 2 ^ 20 = pow-le-pow_right (omega arith) {i = i} {j = 20} (omega arith) in
    ground arith

-- Level 21 would be a negative `int`: as a QWORD it is the size of no block.
pub block_size-overflow : block_size 21 ≡ 0xffff_ffff_8000_0000
unfolding block_size
block_size-overflow = refl

pub two_pow_mono : (i j : ℕ) → i < j → 2 * 2 ^ i ≤ 2 ^ j
two_pow_mono i j h =
    let step : 2 ^ suc i ≤ 2 ^ j = pow-le-pow_right (omega arith) {i = suc i} {j = j} h in
    omega (arith, step, pow-suc 2 i)

-- The level that was found is the lowest one from `i` on whose blocks hold the size.
unfoldable pub IsMatch : (r i size : ℕ) → Option ℕ → Type 0
IsMatch r i size none = (k : ℕ) → i ≤ k → k < i + r → 1024 * 2 ^ k < size
IsMatch r i size (some l) =
    (i ≤ l) × (l < i + r) × (size ≤ 1024 * 2 ^ l) × ((k : ℕ) → i ≤ k → k < l → 1024 * 2 ^ k < size)

IsMatch-step :
    (r i size : ℕ) (m : Option ℕ)
    → 1024 * 2 ^ i < size
    → IsMatch r (i + 1) size m
    → IsMatch (suc r) i size m
unfolding IsMatch
IsMatch-step r i size none big f = λ k lo hi. elim (dec_lt i k) [
  | yes l ↦ f k (omega arith) (omega arith)
  | no g ↦ subst (λ j. 1024 * 2 ^ j < size) (omega arith) big
]
IsMatch-step r i size (some l) big f = (
  omega (arith, f.0),
  omega (arith, f.1),
  f.2,
  λ k lo hi. elim (dec_lt i k) [
    | yes lt ↦ f.3 k (omega arith) hi
    | no g ↦ subst (λ j. 1024 * 2 ^ j < size) (omega arith) big
  ],
)

pub match_level-IsMatch : (r i size : ℕ) → i + r ≤ 21 → IsMatch r i size (match_level r i size)
unfolding match_level IsMatch
match_level-IsMatch zero i size h = λ k lo hi. absurd (omega arith)
match_level-IsMatch (suc r) i size h = elim (Bool-cases (leb size (block_size i))) [
  | inl fits ↦ rw fits (
    omega arith,
    omega arith,
    ground (arith, block_size-small i),
    λ k lo hi. absurd (omega arith),
  )
  | inr more ↦ rw more (
      IsMatch-step r i size (match_level r (i + 1) size) (ground (arith, block_size-small i))
        (match_level-IsMatch r (i + 1) size (omega arith)))
]

-- The level of a block's own size.
pub match_level_self :
    (r i l : ℕ) → i + r ≤ 21 → i ≤ l → l < i + r → match_level r i (1024 * 2 ^ l) ≡ some l
unfolding match_level
match_level_self zero i l h lo hi = absurd (omega arith)
match_level_self (suc r) i l h lo hi = elim (dec_lt i l) [
  | yes lt ↦ ground (
    arith,
    match_level_self r (i + 1) l,
    two_pow_mono i l lt,
    block_size-small i,
    one-le-pow i 2 (omega arith),
  )
  | no g ↦ let at : l ≡ i = omega arith in rw at (ground (arith, block_size-small i))
]

module _ (d : DynamicMemory) (few : d.max_level_count ≤ 21) where
  pub index_self :
      (l : ℕ) → l < d.max_level_count → get_block_list_index_of_match_size d (1024 * 2 ^ l) ≡ some l
  unfolding get_block_list_index_of_match_size
  index_self l h = match_level_self d.max_level_count 0 l (omega arith) (omega arith) (omega arith)
