-- ===== src/DynamicMemory/Pool.antt =====
-- The pool's invariant, and what taking a block does to the free memory.
use deodeok_os.Base.{
  ℕ, zero, suc, ◌+◌, ◌-◌, ◌/◌, ◌^◌, ◌<◌, ◌≤◌, ◌≡◌, true, false, arith, Bool-cases, inl, inr, ◌∙◌,
  subst, Option, none, some,
}
use native.Mathlib.Decide.{dec_lt}
use deodeok_os.DynamicMemory.{
  DynamicMemory, flag, set_flag_in_bitmap, find_free_block_in_bitmap, search_levels, split_blocks,
  take_block,
}
use deodeok_os.DynamicMemory.Bitmap.{bit}
use deodeok_os.DynamicMemory.Search.{IsFirst, find_free-IsFirst}
use deodeok_os.DynamicMemory.Cover.{
  inside, cover, IsTidy, cover-set, set-IsTidy, SamePool, SamePool-trans, set-SamePool,
}
use deodeok_os.DynamicMemory.Split.{Hole, split_blocks-SplitTo}

-- The bitmaps agree with the counters, no unit of memory is free in two blocks, and the levels go up
-- to a single block.
pub record IsPool (d : DynamicMemory) : Type 0 where
  pub tidy : IsTidy d
  pub once : (u : ℕ) → cover d.max_level_count d u ≤ 1
  pub tall : d.block_count_of_smallest_block < 2 ^ d.max_level_count

-- No block of level `i` or above is free.
abbrev pub NoneFree : DynamicMemory → ℕ → Type 0
NoneFree d i =
    (k o : ℕ) → i ≤ k → k < d.max_level_count → flag (d.bitmap_of_level k).bitmap o ≡ false

unfoldable pub IsFound : DynamicMemory → ℕ → Option (ℕ × ℕ) → Type 0
IsFound d i none = NoneFree d i
IsFound d i (some (k, o)) =
    (i ≤ k)
    × (k < d.max_level_count)
    × (o < d.block_count_of_smallest_block / 2 ^ k)
    × (flag (d.bitmap_of_level k).bitmap o ≡ true)

-- Behind the pool's end no flag is set.
level_clear :
    (d : DynamicMemory) (i o : ℕ)
    → IsTidy d
    → IsFirst (d.bitmap_of_level i).bitmap (d.block_count_of_smallest_block / 2 ^ i) 0 none
    → flag (d.bitmap_of_level i).bitmap o ≡ false
unfolding IsFirst
level_clear d i o t first = elim (Bool-cases (flag (d.bitmap_of_level i).bitmap o)) [
  | inl f ↦ first o (omega arith) (t.range i o f)
  | inr f ↦ f
]

IsFound-step :
    (d : DynamicMemory) (i : ℕ) (r : Option ℕ) (rest : Option (ℕ × ℕ))
    → IsTidy d
    → i < d.max_level_count
    → IsFirst (d.bitmap_of_level i).bitmap (d.block_count_of_smallest_block / 2 ^ i) 0 r
    → IsFound d (i + 1) rest
    → IsFound d i (elim r [ some o ↦ some (i, o) | none ↦ rest ])
unfolding IsFound IsFirst
IsFound-step d i (some o) rest t lt first f = (omega arith, lt, first.1, first.2)
IsFound-step d i none none t lt first f = λ k o le below. elim (dec_lt i k) [
  | yes l ↦ f k o (omega arith) below
  | no g ↦
      subst (λ j. flag (d.bitmap_of_level j).bitmap o ≡ false) (omega arith)
        (level_clear d i o t first)
]
IsFound-step d i none (some (k, o)) t lt first f = (omega (arith, f.0), f.1, f.2, f.3)

search_levels-IsFound :
    (r : ℕ) (d : DynamicMemory) (i : ℕ)
    → IsTidy d
    → i + r ≡ d.max_level_count
    → IsFound d i (search_levels r d i)
unfolding search_levels IsFound
search_levels-IsFound zero d i t e = λ k o le below. absurd (omega (arith, e))
search_levels-IsFound (suc r) d i t e =
    IsFound-step d i (find_free_block_in_bitmap d i) (search_levels r d (i + 1)) t
      (omega (arith, e)) (find_free-IsFirst d i (t.counted i))
      (search_levels-IsFound r d (i + 1) t (omega (arith, e)))

-- Block `offset` of level `l` has been taken: it lies in the pool, each of its units was free and is
-- not any more, and no other unit changes.
pub record TakenBlock (d : DynamicMemory) (l offset : ℕ) (d' : DynamicMemory) : Type 0 where
  pub in_pool : offset < d.block_count_of_smallest_block / 2 ^ l
  pub pool : IsPool d'
  pub same : SamePool d d'
  pub units :
      (u : ℕ) → cover d.max_level_count d' u + bit (inside u l offset) ≡ cover d.max_level_count d u

-- Nothing is taken only if no block of the level or above is free.
unfoldable pub IsTaken : DynamicMemory → ℕ → Option (ℕ × DynamicMemory) → Type 0
IsTaken d l none = NoneFree d l
IsTaken d l (some (offset, d')) = TakenBlock d l offset d'

module _ (d : DynamicMemory) (p : IsPool d) (k o : ℕ) (below : k < d.max_level_count)
    (fits : o < d.block_count_of_smallest_block / 2 ^ k)
    (free : flag (d.bitmap_of_level k).bitmap o ≡ true) where
  -- The block that was found is marked as used.
  abbrev marked : DynamicMemory
  marked = set_flag_in_bitmap d k o false

  cover-marked :
      (u : ℕ) → cover d.max_level_count marked u + bit (inside u k o) ≡ cover d.max_level_count d u
  cover-marked u =
      ground (arith, cover-set d k o false d.max_level_count u (p.tidy.counted k).bytes below)

  marked-Hole : Hole d.max_level_count marked k o
  marked-Hole u e = ground (arith, cover-marked u, p.once u)

  found-TakenBlock :
      (l : ℕ)
      → l ≤ k
      → let (offset, d') = split_blocks (k - l) marked k o in TakenBlock d l offset d'
  unfolding set_flag_in_bitmap
  found-TakenBlock l le =
      let s =
        split_blocks-SplitTo d.max_level_count l (k - l) k o marked (omega arith)
          (set-IsTidy k o false p.tidy fits) below fits marked-Hole in
      let kept = SamePool-trans (set-SamePool d k o false) s.same in
      record {
        in_pool = s.offset;
        same = kept;
        units = λ u. s.cover_eq u ∙ cover-marked u;
        pool = record {
          tidy = s.tidy;
          once = λ u. rw kept.levels (omega (arith, s.cover_eq u, cover-marked u, p.once u));
          tall = rw (kept.levels, kept.blocks) p.tall;
        };
      }

-- kAllocationBuddyBlock takes a block whose units are all free, and fails only if no block of the
-- level or above is free.
pub take_block-IsTaken :
    (d : DynamicMemory) (l : ℕ) → IsPool d → l ≤ d.max_level_count → IsTaken d l (take_block d l)
unfolding take_block IsTaken IsFound
take_block-IsTaken d l p le =
    go (search_levels (d.max_level_count - l) d l)
      (search_levels-IsFound (d.max_level_count - l) d l p.tidy (omega arith))
  where
    go :
        (r : Option (ℕ × ℕ))
        → IsFound d l r
        → IsTaken d l (elim r [
          | none ↦ none
          | some (i, offset) ↦
              some (split_blocks (i - l) (set_flag_in_bitmap d i offset false) i offset)
        ])
    go none f = f
    go (some (i, offset)) f = found-TakenBlock d p i offset f.1 f.2 f.3 l f.0
