-- ===== src/DynamicMemory/Initialize/Layout.antt =====
-- The pool that kInitializeDynamicMemory leaves.
use deodeok_os.Base.{ℕ, zero, suc, ◌+◌, ◌-◌, ◌*◌, ◌/◌, ◌^◌, ◌<◌, ◌≤◌, ◌≡◌, arith, refl, ltb}
use native.Mathlib.Nat.{div-le_self, div-eq_of_lt}
use deodeok_os.DynamicMemory.{DynamicMemory, pool_base}
use deodeok_os.DynamicMemory.Bitmap.{bit}
use deodeok_os.DynamicMemory.Cover.{cover, IsTidy}
use deodeok_os.DynamicMemory.Api.{IsReady}
use deodeok_os.DynamicMemory.Initialize.{
  count_levels, bitmap_bytes, calculate_meta_block_count, calculate_dynamic_memory_size,
  initialize_dynamic_memory, initial_pool,
}
use deodeok_os.DynamicMemory.Initialize.Levels.{
  flag-initial, initial-IsCounted, cover-initial, count_levels-done, count_levels-le,
}

-- Each level's BITMAP and its bits take at most 16 bytes more than there are blocks.
bitmap_bytes-le : (r c i : ℕ) → bitmap_bytes r c i ≤ r * (16 + c)
unfolding bitmap_bytes
bitmap_bytes-le zero c i = omega arith
bitmap_bytes-le (suc r) c i = ground (arith, bitmap_bytes-le r c (i + 1), div-le_self c (2 ^ i))

-- A pool with fewer than 2^21 blocks.
module _ (size meta count : ℕ) (small : count < 2 ^ 21) (room : meta * 1024 + 1024 * count ≤ size)
    (low : size + pool_base < 2 ^ 32) where
  abbrev initial : DynamicMemory
  initial = initial_pool size meta count

  levels_tall : count < 2 ^ count_levels 32 count 0
  levels_tall = (count_levels-done 32 count 0 (omega arith)).0

  levels_few : count_levels 32 count 0 ≤ 21
  levels_few = count_levels-le 32 count 21 0 small (omega arith)

  initial-IsTidy : IsTidy initial
  unfolding initial_pool
  initial-IsTidy = record {
    counted = λ k. initial-IsCounted _;
    range = λ k o f. ground (arith, flag-initial (count / 2 ^ k) o);
    small = omega arith;
  }

  -- Each unit of the pool is free once, and nothing else is.
  initial-cover : (u : ℕ) → cover (count_levels 32 count 0) initial u ≡ bit (ltb u count)
  unfolding initial_pool
  initial-cover u = ground (
    arith,
    cover-initial (count_levels 32 count 0) initial count u (λ k. refl),
    div-eq_of_lt levels_tall,
  )

  initial-IsReady : IsReady initial
  unfolding initial_pool
  initial-IsReady = record {
    pool = record {
      tidy = initial-IsTidy;
      once = λ u. ground (arith, initial-cover u);
      tall = levels_tall;
    };
    few = levels_few;
    room = omega arith;
    low = omega arith;
    start_pos = omega arith;
    used = omega arith;
  }

-- A machine with at least a megabyte behind the pools before it, and no more than 2 GB of blocks.
module _ (ram : ℕ) (some_left : 18 ≤ ram) (few : ram ≤ 2064) where
  size_eq : calculate_dynamic_memory_size ram ≡ (ram - 17) * 2 ^ 20
  unfolding calculate_dynamic_memory_size
  size_eq = ground arith

  abbrev blocks : ℕ
  blocks = (ram - 17) * 1024

  meta_le : calculate_meta_block_count ((ram - 17) * 2 ^ 20) ≤ blocks
  unfolding calculate_meta_block_count
  meta_le =
      let e : (ram - 17) * 2 ^ 20 / 1024 ≡ blocks = omega arith in
      rw e (omega (arith, bitmap_bytes-le 64 blocks 0))

  -- With 18 to 2064 MB of RAM kInitializeDynamicMemory leaves a pool that is ready: counters that
  -- agree with the bitmaps, no unit free twice, and the blocks inside the memory.
  pub initialize-IsReady : IsReady (initialize_dynamic_memory ram)
  unfolding initialize_dynamic_memory
  initialize-IsReady = rw size_eq (
      initial-IsReady ((ram - 17) * 2 ^ 20) _ _ (omega (arith, meta_le)) (omega (arith, meta_le))
        (omega arith))
