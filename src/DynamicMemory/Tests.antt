-- ===== src/DynamicMemory/Tests.antt =====
-- Runs of DynamicMemory on a machine with 18 MB: a megabyte of pool.
use deodeok_os.Base.{ℕ, ◌≡◌, true, arith, refl, none, some}
use deodeok_os.Memory.{load_bytes}
use deodeok_os.DynamicMemory.{
  DynamicMemory, allocate_memory, free_memory, get_buddy_block_size, match_level, block_size,
  allocation_buddy_block, get_block_list_index_of_match_size, search_levels,
  find_free_block_in_bitmap, find_loop, split_blocks, set_flag_in_bitmap, set_flag, flag,
  record_block, level_or, allocate_aligned, take_block,
}
use deodeok_os.DynamicMemory.Api.{IsReady, IsAllocation}
use deodeok_os.DynamicMemory.Allocate.{allocate_memory-IsAllocation}
use deodeok_os.DynamicMemory.Free.{Restored, free_memory-Restored}
use deodeok_os.DynamicMemory.Initialize.{
  initialize_dynamic_memory, initial_pool, calculate_dynamic_memory_size,
  calculate_meta_block_count, bitmap_bytes, count_levels, initial_level,
}
use deodeok_os.DynamicMemory.Initialize.Layout.{initialize-IsReady}

abbrev pool : DynamicMemory
pool = initialize_dynamic_memory 18

initialize-IsReady_example : IsReady pool
initialize-IsReady_example = initialize-IsReady 18 (omega arith) (omega arith)

pool-IsReady : IsReady pool
pool-IsReady = initialize-IsReady 18 (omega arith) (omega arith)

pool-levels : pool.max_level_count ≡ 10
unfolding initialize_dynamic_memory initial_pool calculate_dynamic_memory_size
    calculate_meta_block_count bitmap_bytes count_levels
pool-levels = refl

allocate_memory-IsAllocation_example : IsAllocation pool 3000 (allocate_memory pool 3000)
allocate_memory-IsAllocation_example = allocate_memory-IsAllocation pool 3000 pool-IsReady

abbrev after : ℕ × DynamicMemory
after = elim (allocate_memory pool 3000) [ none ↦ (0, pool) | some r ↦ r ]

after_eq : allocate_memory pool 3000 ≡ some (after.0, after.1)
unfolding initialize_dynamic_memory initial_pool calculate_dynamic_memory_size
    calculate_meta_block_count bitmap_bytes count_levels initial_level allocate_memory
    allocate_aligned get_buddy_block_size match_level block_size allocation_buddy_block
    get_block_list_index_of_match_size take_block search_levels find_free_block_in_bitmap find_loop
    load_bytes split_blocks set_flag_in_bitmap set_flag flag record_block level_or
after_eq = refl

free_memory-Restored_example :
    ((free_memory after.1 after.0).0 ≡ true) × Restored pool (free_memory after.1 after.0).1
free_memory-Restored_example = free_memory-Restored pool 3000 after.0 after.1 pool-IsReady after_eq
