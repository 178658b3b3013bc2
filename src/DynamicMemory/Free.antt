-- ===== src/DynamicMemory/Free.antt =====
-- kFreeMemory, after kAllocateMemory.
use deodeok_os.Base.{
  ℕ, ◌+◌, ◌-◌, ◌*◌, ◌/◌, ◌%◌, ◌^◌, ◌<◌, ◌≡◌, ◌≢◌, true, arith, refl, ne→==, ap, ◌∙◌, subst, some,
}
use native.Mathlib.Nat.{one-le-pow, mul-div_cancel}
use deodeok_os.Base.Cells.{update}
use deodeok_os.DynamicMemory.{
  DynamicMemory, block_size, free_buddy_block, allocate_memory, free_memory,
}
use deodeok_os.DynamicMemory.Bitmap.{bit}
use deodeok_os.DynamicMemory.Cover.{inside, cover, cover-bitmaps}
use deodeok_os.DynamicMemory.Sizes.{block_size-small}
use deodeok_os.DynamicMemory.Pool.{IsPool}
use deodeok_os.DynamicMemory.Split.{Hole}
use deodeok_os.DynamicMemory.Merge.{FreedBlock, free_buddy_block-FreedBlock}
use deodeok_os.DynamicMemory.Allocate.{allocate_memory-IsAllocation}
use deodeok_os.DynamicMemory.Api.{IsReady, Allocated, IsAllocation, IsPool-bitmaps, block_in}

-- Every unit of memory is as free as before, and so much memory is used.
pub record Restored (d d' : DynamicMemory) : Type 0 where
  pub units : (u : ℕ) → cover d.max_level_count d' u ≡ cover d.max_level_count d u
  pub counted : d'.used_size ≡ d.used_size
  pub ready : IsReady d'

module _ (d : DynamicMemory) (size address : ℕ) (d1 : DynamicMemory) (r : IsReady d)
    (a : Allocated d size address d1) where
  block_bound : 1024 * (2 ^ a.level * a.offset) + d.start_address < 2 ^ 32
  block_bound =
      omega
        (arith, block_in d.block_count_of_smallest_block a.level a.offset a.in_pool, r.room, r.low)

  relative_eq : (address + 2 ^ 64 - d1.start_address) % 2 ^ 64 ≡ 1024 * (2 ^ a.level * a.offset)
  relative_eq = omega (arith, a.at, a.start, block_bound)

  index_eq : 1024 * (2 ^ a.level * a.offset) / 1024 % 2 ^ 32 ≡ 2 ^ a.level * a.offset
  index_eq = omega (arith, block_bound)

  size_eq : block_size a.level ≡ 1024 * 2 ^ a.level
  size_eq = block_size-small a.level (omega (arith, r.few, a.level_in))

  offset_eq : 1024 * (2 ^ a.level * a.offset) / (1024 * 2 ^ a.level) ≡ a.offset
  offset_eq =
      subst (λ x. x / (1024 * 2 ^ a.level) ≡ a.offset) (omega arith)
        (mul-div_cancel a.offset (omega (arith, one-le-pow a.level 2 (omega arith))))

  -- The record of the block is erased.
  abbrev erased : DynamicMemory
  erased = record d1 {
    allocated_block_list_index = update d1.allocated_block_list_index (2 ^ a.level * a.offset) 0xff;
  }

  erased-IsPool : IsPool erased
  erased-IsPool = IsPool-bitmaps d1 erased refl refl refl a.ready.pool

  erased-Hole : Hole erased.max_level_count erased a.level a.offset
  erased-Hole u e =
      ap (λ n. cover n erased u) a.levels
      ∙ cover-bitmaps d.max_level_count d1 erased u refl
      ∙ (ground (arith, a.units u, r.pool.once u))

  freed : FreedBlock erased a.level a.offset (free_buddy_block erased a.level a.offset)
  freed =
      free_buddy_block-FreedBlock erased a.level a.offset erased-IsPool (rw a.levels a.level_in)
        (rw a.blocks a.in_pool) erased-Hole

  address_pos : address ≢ 0
  address_pos = omega (arith, a.at, r.start_pos)

  level_small : a.level ≢ 0xff
  level_small = omega (arith, a.level_in, r.few)

  -- The pool after the merge, with the used size counted down.
  abbrev counted_down : DynamicMemory
  counted_down =
      let d2 = free_buddy_block erased a.level a.offset in
      record d2 { used_size = (d2.used_size + 2 ^ 64 - 1024 * 2 ^ a.level) % 2 ^ 64 }

  free_eq : free_memory d1 address ≡ (true, counted_down)
  unfolding free_memory
  free_eq =
      rw
        (
          relative_eq,
          index_eq,
          a.recorded,
          size_eq,
          offset_eq,
          ne→== _ _ address_pos,
          ne→== _ _ level_small,
        )
        refl

  freed_units :
      (u : ℕ)
      → cover d.max_level_count (free_buddy_block erased a.level a.offset) u
        ≡ cover d.max_level_count erased u + bit (inside u a.level a.offset)
  freed_units u =
      subst
        (λ n.
          cover n (free_buddy_block erased a.level a.offset) u
          ≡ cover n erased u + bit (inside u a.level a.offset))
        a.levels (freed.units u)

  restored_units : (u : ℕ) → cover d.max_level_count counted_down u ≡ cover d.max_level_count d u
  restored_units u =
      cover-bitmaps d.max_level_count (free_buddy_block erased a.level a.offset) counted_down u refl
      ∙ freed_units u
      ∙ ap (λ x. x + bit (inside u a.level a.offset))
          (cover-bitmaps d.max_level_count d1 erased u refl)
      ∙ a.units u

  used_eq : counted_down.used_size ≡ d.used_size
  used_eq = omega (arith, freed.same.used, a.counted, r.used, r.low)

  counted_down-Restored : Restored d counted_down
  counted_down-Restored = record {
    units = restored_units;
    counted = used_eq;
    ready = record {
      pool = IsPool-bitmaps (free_buddy_block erased a.level a.offset) _ refl refl refl freed.pool;
      few = rw (freed.same.levels, a.levels) r.few;
      room =
          rw (freed.same.start, freed.same.end, freed.same.blocks, a.start, a.end, a.blocks) r.room;
      low = rw (freed.same.end, a.end) r.low;
      start_pos = rw (freed.same.start, a.start) r.start_pos;
      used = omega (arith, freed.same.start, a.start, freed.same.end, a.end, used_eq, r.used);
    };
  }

-- Freeing what kAllocateMemory returned on a ready pool succeeds and restores it: the free units and
-- the used size are those from before, and the pool is ready again.
pub free_memory-Restored :
    (d : DynamicMemory) (size address : ℕ) (d1 : DynamicMemory)
    → IsReady d
    → allocate_memory d size ≡ some (address, d1)
    → ((free_memory d1 address).0 ≡ true) × Restored d (free_memory d1 address).1
unfolding IsAllocation
free_memory-Restored d size address d1 r e =
    let a : Allocated d size address d1 =
      subst (IsAllocation d size) e (allocate_memory-IsAllocation d size r) in
    rw (free_eq d size address d1 r a) (refl, counted_down-Restored d size address d1 r a)
