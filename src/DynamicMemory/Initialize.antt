-- ===== src/DynamicMemory/Initialize.antt =====
-- kInitializeDynamicMemory and the two functions that it calculates with. Each level's bitmap is a
-- memory of its own: only the bytes that the function clears are ever read.
mod Levels
pub mod Layout
use Prim.Native.Nat.{bit_or}
use deodeok_os.Base.{ℕ, zero, suc, ◌+◌, ◌-◌, ◌*◌, ◌/◌, ◌%◌, ◌^◌, ltb, ◌==◌, if◌then◌else◌}
use deodeok_os.Base.Cells.{update}
use deodeok_os.Memory.{Memory}
use deodeok_os.DynamicMemory.{Level, DynamicMemory, pool_base}

-- kCalculateDynamicMemorySize, of the RAM's size in megabytes: at most 3 GB are used.
unfoldable pub calculate_dynamic_memory_size : ℕ → ℕ
calculate_dynamic_memory_size ram =
    let size = (ram * 1024 * 1024) % 2 ^ 64 in
    let used = if ltb (3 * 2 ^ 30) size then 3 * 2 ^ 30 else size in
    (used + 2 ^ 64 - pool_base) % 2 ^ 64

-- The loop of kCalculateMetaBlockCount over the levels: 16 bytes of BITMAP and the bits of each.
unfoldable pub bitmap_bytes : (rounds count i : ℕ) → ℕ
bitmap_bytes zero count i = 0
bitmap_bytes (suc k) count i =
    let rest = bitmap_bytes k count (i + 1) in
    if ltb 0 (count / 2 ^ i) then 16 + (count / 2 ^ i + 7) / 8 + rest else 0

-- 64 rounds shift every bit of a `long` out.
unfoldable pub calculate_meta_block_count : ℕ → ℕ
calculate_meta_block_count size =
    let count = size / 1024 in
    let bitmap = bitmap_bytes 64 count 0 % 2 ^ 32 in
    (count % 2 ^ 32 + bitmap + 1024 - 1) % 2 ^ 32 / 1024

-- The number of times that the block count can be halved before it is 0.
unfoldable pub count_levels : (rounds count i : ℕ) → ℕ
count_levels zero count i = i
count_levels (suc k) count i =
    let next = count_levels k count (i + 1) in if ltb 0 (count / 2 ^ i) then next else i

-- A level with an odd number of blocks has its last block free; it cannot join a pair.
unfoldable pub initial_level : ℕ → Level
initial_level blocks =
    let zeros : Memory = λ a. 0 in
    if blocks % 8 == 0
    then record { bitmap = zeros; exist_bit_count = 0 }
    else if blocks % 8 % 2 == 1
    then record {
      bitmap = update zeros (blocks / 8) (bit_or 0 (2 ^ (blocks % 8 - 1)));
      exist_bit_count = 1;
    }
    else record { bitmap = update zeros (blocks / 8) 0; exist_bit_count = 0 }

-- The block count is an `int`, and positive. The index list has an element for each block; what
-- memory holds behind it is not modelled, and 0xff stands for it.
unfoldable pub initial_pool : (size meta count : ℕ) → DynamicMemory
initial_pool size meta count = record {
  max_level_count = count_levels 32 count 0;
  block_count_of_smallest_block = count;
  used_size = 0;
  start_address = pool_base + meta * 1024;
  end_address = (size + pool_base) % 2 ^ 64;
  allocated_block_list_index = λ i. 0xff;
  bitmap_of_level = λ j. initial_level (count / 2 ^ j);
}

unfoldable pub initialize_dynamic_memory : ℕ → DynamicMemory
initialize_dynamic_memory ram =
    let size = calculate_dynamic_memory_size ram in
    let meta = calculate_meta_block_count size in
    initial_pool size meta ((size / 1024 + 2 ^ 64 - meta) % 2 ^ 32)

-- kGetDynamicMemoryInformation: where the pool's memory starts, how large it is, how much of it the
-- allocator keeps for itself, and how much is allocated.
unfoldable pub get_dynamic_memory_information : (ram : ℕ) → DynamicMemory → ℕ × ℕ × ℕ × ℕ
get_dynamic_memory_information ram d =
    let size = calculate_dynamic_memory_size ram in
    (pool_base, size, calculate_meta_block_count size * 1024, d.used_size)
