-- ===== src/DynamicMemory/Merge.antt =====
-- Giving a block back: kFreeBuddyBlock marks it and joins it with its buddy while that is free too.
use deodeok_os.Base.{
  ℕ, zero, suc, ◌+◌, ◌-◌, ◌*◌, ◌/◌, ◌^◌, ◌<◌, ◌≤◌, ◌≡◌, ◌≢◌, true, false, arith, Bool-cases, inl,
  inr, eq→==, ap, ◌∙◌, subst,
}
use native.Mathlib.Numerals.{add-one}
use native.Mathlib.Nat.{div-eq_of_lt}
use deodeok_os.DynamicMemory.{
  DynamicMemory, flag, set_flag_in_bitmap, get_flag_in_bitmap, merge_blocks, free_buddy_block,
  buddy,
}
use deodeok_os.DynamicMemory.Bitmap.{bit}
use deodeok_os.DynamicMemory.Cover.{
  inside, cover, IsTidy, inside-halves, half_range, cover-set, set-IsTidy, flag_of_cover,
  first_unit, flag-set_in, SamePool, SamePool-trans, set-SamePool,
}
use deodeok_os.DynamicMemory.Split.{Hole}
use deodeok_os.DynamicMemory.Pool.{IsPool, TakenBlock}

-- Block `o` of level `i` is free again: each of its units counts once more, and no other unit
-- changes.
record GivenBack (n i o : ℕ) (d d' : DynamicMemory) : Type 0 where
  tidy : IsTidy d'
  same : SamePool d d'
  units : (u : ℕ) → cover n d' u ≡ cover n d u + bit (inside u i o)

module _ (n i o : ℕ) {d : DynamicMemory} (t : IsTidy d) (lt : i < n)
    (fits : o < d.block_count_of_smallest_block / 2 ^ i) (hole : Hole n d i o)
    (once : (u : ℕ) → cover n d u ≤ 1) where
  abbrev given : DynamicMemory
  given = set_flag_in_bitmap d i o true

  -- Both buddies are taken out again for the block of the next level.
  abbrev joined : DynamicMemory
  joined = set_flag_in_bitmap (set_flag_in_bitmap given i (buddy o) false) i o false

  clear : flag (d.bitmap_of_level i).bitmap o ≡ false
  clear = flag_of_cover n d i o lt (hole (o * 2 ^ i) (eq→== _ _ (first_unit i o)))

  given-IsTidy : IsTidy given
  given-IsTidy = set-IsTidy i o true t fits

  cover-given : (u : ℕ) → cover n given u ≡ cover n d u + bit (inside u i o)
  cover-given u = ground (arith, cover-set d i o true n u (t.counted i).bytes lt, clear)

  stop-GivenBack : GivenBack n i o d given
  stop-GivenBack = record {
    tidy = given-IsTidy;
    same = set-SamePool d i o true;
    units = cover-given;
  }

  buddy_ne : buddy o ≢ o
  buddy_ne = ground arith

  module _ (free : flag (given.bitmap_of_level i).bitmap (buddy o) ≡ true) where
    buddy_free : flag (d.bitmap_of_level i).bitmap (buddy o) ≡ true
    buddy_free = ground (arith, flag-set_in d i o true i (buddy o) t, buddy_ne)

    buddy_fits : buddy o < d.block_count_of_smallest_block / 2 ^ i
    buddy_fits = t.range i (buddy o) buddy_free

    buddy_given_fits : buddy o < given.block_count_of_smallest_block / 2 ^ i
    unfolding set_flag_in_bitmap
    buddy_given_fits = buddy_fits

    joined-IsTidy : IsTidy joined
    unfolding set_flag_in_bitmap
    joined-IsTidy =
        set-IsTidy i o false (set-IsTidy i (buddy o) false given-IsTidy buddy_given_fits) fits

    joined-SamePool : SamePool d joined
    joined-SamePool =
        SamePool-trans (set-SamePool d i o true)
          (SamePool-trans (set-SamePool given i (buddy o) false) (set-SamePool _ i o false))

    parent_fits : o / 2 < d.block_count_of_smallest_block / 2 ^ suc i
    parent_fits = ground (arith, half_range d.block_count_of_smallest_block i, buddy_fits)

    parent_joined_fits : o / 2 < joined.block_count_of_smallest_block / 2 ^ suc i
    unfolding set_flag_in_bitmap
    parent_joined_fits = parent_fits

    cover-joined : (u : ℕ) → cover n joined u + bit (inside u i (buddy o)) ≡ cover n d u
    cover-joined u = ground (
      arith,
      cover-set given i (buddy o) false n u (given-IsTidy.counted i).bytes lt,
      cover-set (set_flag_in_bitmap given i (buddy o) false) i o false n u
          ((set-IsTidy i (buddy o) false given-IsTidy buddy_given_fits).counted i).bytes lt,
      flag-set_in given i (buddy o) false i o given-IsTidy,
      flag-set_in d i o true i o t,
      cover-given u,
      buddy_ne,
    )

    parent_inside :
        (u : ℕ) → bit (inside u (suc i) (o / 2)) ≡ bit (inside u i o) + bit (inside u i (buddy o))
    parent_inside u = ground (arith, inside-halves u i (o / 2))

    joined-Hole : Hole n joined (suc i) (o / 2)
    joined-Hole u e = ground (arith, cover-joined u, parent_inside u, hole u, once u)

    joined_once : (u : ℕ) → cover n joined u ≤ 1
    joined_once u = omega (arith, cover-joined u, once u)

    -- Giving back the joined block gives back the block.
    up-GivenBack :
        {d' : DynamicMemory} → GivenBack n (i + 1) (o / 2) joined d' → GivenBack n i o d d'
    up-GivenBack g = record {
      tidy = g.tidy;
      same = SamePool-trans joined-SamePool g.same;
      units = λ u. omega (arith, rw (add-one i) at (g.units u), cover-joined u, parent_inside u);
    }

-- kFreeBuddyBlock gives the block back, and the pool's invariant holds again.
pub record FreedBlock (d : DynamicMemory) (l offset : ℕ) (d' : DynamicMemory) : Type 0 where
  pub pool : IsPool d'
  pub same : SamePool d d'
  pub units :
      (u : ℕ) → cover d.max_level_count d' u ≡ cover d.max_level_count d u + bit (inside u l offset)

merge_blocks-GivenBack :
    (r n i o : ℕ) (d : DynamicMemory)
    → i + r ≡ n
    → IsTidy d
    → o < d.block_count_of_smallest_block / 2 ^ i
    → d.block_count_of_smallest_block < 2 ^ n
    → Hole n d i o
    → ((u : ℕ) → cover n d u ≤ 1)
    → GivenBack n i o d (merge_blocks r d i o)
unfolding merge_blocks get_flag_in_bitmap
merge_blocks-GivenBack zero n i o d e t fits tall hole once =
    let top : i ≡ n = omega (arith, e) in
    absurd (
      omega (
        arith,
        subst (λ j. o < d.block_count_of_smallest_block / 2 ^ j) top fits,
        div-eq_of_lt tall,
      ))
merge_blocks-GivenBack (suc r) n i o d e t fits tall hole once =
    let below : i < n = omega (arith, e) in
    elim (Bool-cases
      (flag ((given n i o t below fits hole once).bitmap_of_level i).bitmap (buddy o))) [
        | inl free ↦ rw free (
            up-GivenBack n i o t below fits hole once free (
              merge_blocks-GivenBack r n (i + 1) (o / 2) (joined n i o t below fits hole once)
                (omega (arith, e)) (joined-IsTidy n i o t below fits hole once free)
                (rw (add-one i) (parent_joined_fits n i o t below fits hole once free))
                (rw (joined-SamePool n i o t below fits hole once free).blocks tall)
                (rw (add-one i) (joined-Hole n i o t below fits hole once free))
                (joined_once n i o t below fits hole once free)))
        | inr used ↦ rw used (stop-GivenBack n i o t below fits hole once)
      ]

-- Giving back a block of the pool that was not free adds its units to the free memory, whatever
-- blocks it is joined with, and changes no other unit.
pub free_buddy_block-FreedBlock :
    (d : DynamicMemory) (l offset : ℕ)
    → IsPool d
    → l < d.max_level_count
    → offset < d.block_count_of_smallest_block / 2 ^ l
    → Hole d.max_level_count d l offset
    → FreedBlock d l offset (free_buddy_block d l offset)
unfolding free_buddy_block
free_buddy_block-FreedBlock d l offset p lt fits hole =
    let n = d.max_level_count in
    let g =
      merge_blocks-GivenBack (n - l) n l offset d (omega arith) p.tidy fits p.tall hole p.once in
    record {
      pool = record {
        tidy = g.tidy;
        once = λ u. rw g.same.levels (ground (arith, g.units u, hole u, p.once u));
        tall = rw (g.same.levels, g.same.blocks) p.tall;
      };
      same = g.same;
      units = g.units;
    }

-- A block that was taken can be given back.
pub TakenBlock-Hole :
    {d : DynamicMemory} {l offset : ℕ} {d' : DynamicMemory}
    → IsPool d
    → TakenBlock d l offset d'
    → Hole d'.max_level_count d' l offset
TakenBlock-Hole {d} {l} {offset} {d'} p b u e =
    ap (λ n. cover n d' u) b.same.levels ∙ ground (arith, b.units u, p.once u)
