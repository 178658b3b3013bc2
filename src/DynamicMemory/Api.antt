-- ===== src/DynamicMemory/Api.antt =====
-- What kAllocateMemory promises, and the block that it records.
use deodeok_os.Base.{
  ℕ, suc, ◌+◌, ◌*◌, ◌/◌, ◌^◌, ◌<◌, ◌≤◌, ◌≡◌, ◌⊎◌, arith, refl, ap, ◌∙◌, sym, subst, Option, none,
  some,
}
use native.Mathlib.Nat.{pow-le-pow_right, one-le-pow, le-div_iff_mul-le}
use deodeok_os.DynamicMemory.{
  DynamicMemory, get_buddy_block_size, allocation_buddy_block, take_block, level_or, record_block,
  match_level,
}
use deodeok_os.DynamicMemory.Bitmap.{bit}
use deodeok_os.DynamicMemory.Cover.{inside, cover, SamePool, cover-bitmaps}
use deodeok_os.DynamicMemory.Sizes.{block_size-small, index_self}
use deodeok_os.DynamicMemory.Pool.{IsPool, NoneFree, TakenBlock}

-- A pool as kInitializeDynamicMemory leaves it, with less than 2 GB of blocks below 3 GB.
pub record IsReady (d : DynamicMemory) : Type 0 where
  pub pool : IsPool d
  pub few : d.max_level_count ≤ 21
  pub room : d.start_address + 1024 * d.block_count_of_smallest_block ≤ d.end_address
  pub low : d.end_address < 2 ^ 32
  pub start_pos : 0 < d.start_address
  pub used : d.start_address + d.used_size ≤ d.end_address

-- The block that kAllocateMemory returned for `size` bytes.
pub record Allocated (d : DynamicMemory) (size address : ℕ) (d' : DynamicMemory) : Type 0 where
  pub level : ℕ
  pub offset : ℕ
  pub level_in : level < d.max_level_count
  pub holds : size ≤ 1024 * 2 ^ level
  pub smallest : (k : ℕ) → k < level → 1024 * 2 ^ k < size
  pub in_pool : offset < d.block_count_of_smallest_block / 2 ^ level
  pub at : address ≡ d.start_address + 1024 * 2 ^ level * offset
  pub units :
      (u : ℕ)
      → cover d.max_level_count d' u + bit (inside u level offset) ≡ cover d.max_level_count d u
  pub recorded : d'.allocated_block_list_index (2 ^ level * offset) ≡ level
  pub counted : d'.used_size ≡ d.used_size + 1024 * 2 ^ level
  pub start : d'.start_address ≡ d.start_address
  pub levels : d'.max_level_count ≡ d.max_level_count
  pub blocks : d'.block_count_of_smallest_block ≡ d.block_count_of_smallest_block
  pub end : d'.end_address ≡ d.end_address
  pub ready : IsReady d'

-- Why there is no block: the size is above every level's, or with the smallest level that holds it
-- the pool's end would be passed, or no block of that level or above is free.
abbrev pub Refused : DynamicMemory → ℕ → Type 0
Refused d size =
    ((k : ℕ) → k < d.max_level_count → 1024 * 2 ^ k < size)
    ⊎ ((l : ℕ) × (l < d.max_level_count)
        × (size ≤ 1024 * 2 ^ l)
        × ((k : ℕ) → k < l → 1024 * 2 ^ k < size)
        × ((d.end_address < d.start_address + d.used_size + 1024 * 2 ^ l) ⊎ NoneFree d l))

unfoldable pub IsAllocation : DynamicMemory → ℕ → Option (ℕ × DynamicMemory) → Type 0
IsAllocation d size none = Refused d size
IsAllocation d size (some (address, d')) = Allocated d size address d'

-- A block of the pool ends where the pool does, at most.
pub block_in : (c l o : ℕ) → o < c / 2 ^ l → 2 ^ l * o + 2 ^ l ≤ c
block_in c l o h =
    omega (arith, (le-div_iff_mul-le {x = suc o} {y = c} (one-le-pow l 2 (omega arith))).0 h)

-- The invariant of the bitmaps is a matter of the bitmaps.
pub IsPool-bitmaps :
    (d d' : DynamicMemory)
    → d'.bitmap_of_level ≡ d.bitmap_of_level
    → d'.max_level_count ≡ d.max_level_count
    → d'.block_count_of_smallest_block ≡ d.block_count_of_smallest_block
    → IsPool d
    → IsPool d'
IsPool-bitmaps d d' e levels blocks p = record {
  tidy = record {
    counted = rw (e, blocks) p.tidy.counted;
    range = rw (e, blocks) p.tidy.range;
    small = rw blocks p.tidy.small;
  };
  once = λ u.
      subst (λ n. cover n d' u ≤ 1) (sym levels)
        (subst (λ x. x ≤ 1) (sym (cover-bitmaps d.max_level_count d d' u e)) (p.once u));
  tall = rw (levels, blocks) p.tall;
}

module _ (d : DynamicMemory) (size : ℕ) (r : IsReady d) where
  pub size_of_match :
      (l : ℕ)
      → match_level d.max_level_count 0 size ≡ some l
      → l < d.max_level_count
      → get_buddy_block_size d size ≡ 1024 * 2 ^ l
  unfolding get_buddy_block_size
  size_of_match l e lt = rw (e, get_buddy_block_size) (block_size-small l (omega (arith, r.few)))

  pub size_of_none : match_level d.max_level_count 0 size ≡ none → get_buddy_block_size d size ≡ 0
  unfolding get_buddy_block_size
  size_of_none e = rw (e, get_buddy_block_size)

  pub buddy_of_size :
      (l : ℕ) → l < d.max_level_count → allocation_buddy_block d (1024 * 2 ^ l) ≡ take_block d l
  unfolding allocation_buddy_block
  buddy_of_size l lt = rw (index_self d r.few l lt, allocation_buddy_block)

  -- The level's size, and that it is no more than a gigabyte.
  pub size_small : (l : ℕ) → l < d.max_level_count → 1024 * 2 ^ l ≤ 2 ^ 30
  size_small l lt =
      omega (
        arith,
        r.few,
        pow-le-pow_right {n = 2} (omega arith) {i = l} {j = 20} (omega (arith, r.few)),
      )

  -- The block of a level that was taken, recorded.
  module _ (l : ℕ) (lt : l < d.max_level_count) (holds : size ≤ 1024 * 2 ^ l)
      (smallest : (k : ℕ) → k < l → 1024 * 2 ^ k < size)
      (room : d.start_address + d.used_size + 1024 * 2 ^ l ≤ d.end_address) where
    pub level_or_self : (d' : DynamicMemory) → SamePool d d' → level_or d' (1024 * 2 ^ l) ≡ l
    unfolding level_or
    level_or_self d' same =
        rw (index_self d' (rw same.levels r.few) l (rw same.levels lt), level_or)

    module _ (offset : ℕ) (d' : DynamicMemory) (b : TakenBlock d l offset d') where
      -- The block lies below the pool's end.
      pub block_low : 1024 * (2 ^ l * offset) + d.start_address < 2 ^ 32
      block_low =
          omega (arith, block_in d.block_count_of_smallest_block l offset b.in_pool, r.room, r.low)

      abbrev written : DynamicMemory
      written = (record_block d' (1024 * 2 ^ l) l offset).1

      written-IsReady : IsReady written
      unfolding record_block
      written-IsReady = record {
        pool = IsPool-bitmaps d' _ refl refl refl b.pool;
        few = rw b.same.levels r.few;
        room = rw (b.same.start, b.same.end, b.same.blocks) r.room;
        low = rw b.same.end r.low;
        start_pos = rw b.same.start r.start_pos;
        used = omega (arith, b.same.start, b.same.end, b.same.used, room, r.low);
      }

      pub recorded-Allocated :
          let (address, d2) = record_block d' (1024 * 2 ^ l) l offset in Allocated d size address d2
      unfolding record_block
      recorded-Allocated = record {
        level = l;
        offset = offset;
        level_in = lt;
        holds = holds;
        smallest = smallest;
        in_pool = b.in_pool;
        at = omega (arith, block_low, b.same.start);
        units = λ u.
            ap (λ x. x + bit (inside u l offset)) (cover-bitmaps d.max_level_count d' _ u refl)
            ∙ b.units u;
        recorded = ground (arith, block_low, r.few);
        counted = omega (arith, b.same.used, b.same.end, room, r.low);
        start = b.same.start;
        levels = b.same.levels;
        blocks = b.same.blocks;
        end = b.same.end;
        ready = written-IsReady;
      }
