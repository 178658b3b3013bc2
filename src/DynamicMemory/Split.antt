-- ===== src/DynamicMemory/Split.antt =====
-- Taking a block: kAllocationBuddyBlock finds a free block and splits it.
use deodeok_os.Base.{
  ℕ, zero, suc, ◌+◌, ◌*◌, ◌/◌, ◌^◌, ◌<◌, ◌≡◌, true, false, arith, eq→==, ap, ◌∙◌, sym, subst,
}
use native.Mathlib.Numerals.{sub-one}
use deodeok_os.DynamicMemory.{DynamicMemory, flag, set_flag_in_bitmap, split_blocks}
use deodeok_os.DynamicMemory.Bitmap.{bit}
use deodeok_os.DynamicMemory.Cover.{
  inside, cover, IsTidy, inside-halves, half_range, cover-set, set-IsTidy, flag_of_cover,
  first_unit, flag-set_in, SamePool, SamePool-refl, SamePool-trans, set-SamePool,
}

-- No free block holds a unit of block `o` of level `k`.
abbrev pub Hole : (n : ℕ) → DynamicMemory → (k o : ℕ) → Type 0
Hole n d k o = (u : ℕ) → inside u k o ≡ true → cover n d u ≡ 0

-- One round of the splitting loop.
abbrev split_once : DynamicMemory → (k o : ℕ) → DynamicMemory
split_once d k o = set_flag_in_bitmap (set_flag_in_bitmap d k (o * 2) false) k (o * 2 + 1) true

module _ (n k o : ℕ) {d : DynamicMemory} (t : IsTidy d) (lt : k < n)
    (fits : o < d.block_count_of_smallest_block / 2 ^ suc k) (hole : Hole n d (suc k) o) where
  left_in : o * 2 < d.block_count_of_smallest_block / 2 ^ k
  left_in = omega (arith, half_range d.block_count_of_smallest_block k)

  right_in : o * 2 + 1 < d.block_count_of_smallest_block / 2 ^ k
  right_in = omega (arith, half_range d.block_count_of_smallest_block k)

  -- Neither half was free by itself.
  half_clear : (p : ℕ) → p / 2 ≡ o → flag (d.bitmap_of_level k).bitmap p ≡ false
  half_clear p e = flag_of_cover n d k p lt (
      hole (p * 2 ^ k)
        (eq→== _ _ (half_range (p * 2 ^ k) k ∙ ap (λ x. x / 2) (first_unit k p) ∙ e)))

  left-IsTidy : IsTidy (set_flag_in_bitmap d k (o * 2) false)
  left-IsTidy = set-IsTidy k (o * 2) false t left_in

  split_once-IsTidy : IsTidy (split_once d k o)
  unfolding set_flag_in_bitmap
  split_once-IsTidy = set-IsTidy k (o * 2 + 1) true left-IsTidy right_in

  -- The right half becomes free.
  cover-split_once :
      (u : ℕ) → cover n (split_once d k o) u ≡ cover n d u + bit (inside u k (o * 2 + 1))
  cover-split_once u = ground (
    arith,
    cover-set d k (o * 2) false n u (t.counted k).bytes lt,
    cover-set (set_flag_in_bitmap d k (o * 2) false) k (o * 2 + 1) true n u
        (left-IsTidy.counted k).bytes lt,
    flag-set_in d k (o * 2) false k (o * 2 + 1) t,
    half_clear (o * 2) (omega arith),
    half_clear (o * 2 + 1) (omega arith),
  )

  -- The left half is the hole that is left.
  split_once-Hole : Hole n (split_once d k o) k (o * 2)
  split_once-Hole u e = ground (arith, cover-split_once u, hole u, inside-halves u k o)

-- The result of splitting block `o` of level `i` down to level `l`.
pub record SplitTo (n l i o : ℕ) (d : DynamicMemory) (result : ℕ × DynamicMemory) : Type 0 where
  pub offset : result.0 < d.block_count_of_smallest_block / 2 ^ l
  pub tidy : IsTidy result.1
  pub same : SamePool d result.1
  pub cover_eq :
      (u : ℕ) → cover n result.1 u + bit (inside u l result.0) ≡ cover n d u + bit (inside u i o)

-- One round before the others.
split_more :
    (n l k o : ℕ) (d : DynamicMemory) (result : ℕ × DynamicMemory)
    → IsTidy d
    → k < n
    → o < d.block_count_of_smallest_block / 2 ^ suc k
    → Hole n d (suc k) o
    → SplitTo n l k (o * 2) (split_once d k o) result
    → SplitTo n l (suc k) o d result
unfolding set_flag_in_bitmap
split_more n l k o d result t lt fits hole rest = record {
  offset = rest.offset;
  tidy = rest.tidy;
  same =
      SamePool-trans (SamePool-trans (set-SamePool d k (o * 2) false) (set-SamePool _ k _ true))
        rest.same;
  cover_eq = λ u.
      omega (arith, rest.cover_eq u, cover-split_once n k o t lt fits hole u, inside-halves u k o);
}

pub split_blocks-SplitTo :
    (n l r i o : ℕ) (d : DynamicMemory)
    → i ≡ l + r
    → IsTidy d
    → i < n
    → o < d.block_count_of_smallest_block / 2 ^ i
    → Hole n d i o
    → SplitTo n l i o d (split_blocks r d i o)
unfolding split_blocks set_flag_in_bitmap
split_blocks-SplitTo n l zero i o d e t lt fits hole =
    let same : i ≡ l = omega (arith, e) in
    record {
      offset = subst (λ j. o < d.block_count_of_smallest_block / 2 ^ j) same fits;
      tidy = t;
      same = SamePool-refl d;
      cover_eq = λ u. ap (λ j. cover n d u + bit (inside u j o)) (sym same);
    }
split_blocks-SplitTo n l (suc r) zero o d e t lt fits hole = absurd (omega (arith, e))
split_blocks-SplitTo n l (suc r) (suc k) o d e t lt fits hole =
    let below : k < n = omega arith in
    rw sub-one (
      split_more n l k o d _ t below fits hole (
        split_blocks-SplitTo n l r k (o * 2) (split_once d k o) (omega (arith, e))
          (split_once-IsTidy n k o t below fits hole) below (left_in n k o t below fits hole)
          (split_once-Hole n k o t below fits hole)))
