-- ===== src/DynamicMemory.antt =====
-- volumes/02.Kernel64/Source/DynamicMemory.c: the buddy allocator. Each level of blocks has a
-- bitmap of its free blocks; level `j` has blocks of 1024 * 2^j bytes. The functions run under one
-- spinlock (module SpinLock), so each is one step here. An `int` of -1 and a NULL are `none`.
pub mod Bits
pub mod Bitmap
pub mod Search
pub mod Sizes
pub mod Cover
pub mod Split
pub mod Merge
pub mod Pool
pub mod Api
pub mod Allocate
pub mod Free
pub mod Initialize
mod Tests
use Prim.Native.Nat.{bit_and, bit_or}
use deodeok_os.Base.{
  ℕ, zero, suc, ◌+◌, ◌-◌, ◌*◌, ◌/◌, ◌%◌, ◌^◌, Bool, true, false, not, ltb, leb, ◌==◌, ◌&&◌,
  if◌then◌else◌, Option, none, some,
}
use deodeok_os.Base.Cells.{update}
use deodeok_os.Memory.{Memory, load_bytes}

-- BITMAP
pub record Level : Type 0 where
  pub bitmap : Memory
  pub exist_bit_count : ℕ

-- DYNAMICMEMORY
pub record DynamicMemory : Type 0 where
  pub max_level_count : ℕ
  pub block_count_of_smallest_block : ℕ
  pub used_size : ℕ
  pub start_address : ℕ
  pub end_address : ℕ
  pub allocated_block_list_index : ℕ → ℕ
  pub bitmap_of_level : ℕ → Level

-- DYNAMICMEMORY_START_ADDRESS: the end of the TCB pool (1024 TCBs of 816 bytes from 0x800000 on) and
-- of the stack pool, rounded up to a megabyte.
abbrev pub pool_base : ℕ
pool_base = (0x80_0000 + 816 * 1024 + 8192 * 1024 + 0xf_ffff) / 2 ^ 20 * 2 ^ 20

-- `DYNAMICMEMORY_MIN_SIZE << i`, an `int` that is compared and returned as a QWORD.
unfoldable pub block_size : ℕ → ℕ
block_size i = let v = (1024 * 2 ^ i) % 2 ^ 32 in if ltb v (2 ^ 31) then v else 2 ^ 64 - 2 ^ 32 + v

-- The bit of a block in its byte.
abbrev pub mask : ℕ → ℕ
mask offset = 2 ^ (offset % 8)

unfoldable pub flag : Memory → ℕ → Bool
flag bitmap offset = not (bit_and (bitmap (offset / 8)) (mask offset) == 0)

unfoldable pub get_flag_in_bitmap : DynamicMemory → ℕ → ℕ → Bool
get_flag_in_bitmap d level offset = flag (d.bitmap_of_level level).bitmap offset

unfoldable pub set_flag : Level → ℕ → Bool → Level
unfolding flag
set_flag l offset exist =
    let byte = l.bitmap (offset / 8) in
    let n = l.exist_bit_count in
    if exist
    then record {
      bitmap = update l.bitmap (offset / 8) (bit_or byte (mask offset));
      exist_bit_count = if flag l.bitmap offset then n else (n + 1) % 2 ^ 64;
    }
    else record {
      bitmap = update l.bitmap (offset / 8) (bit_and byte (255 - mask offset));
      exist_bit_count = if flag l.bitmap offset then (n + 2 ^ 64 - 1) % 2 ^ 64 else n;
    }

unfoldable pub set_flag_in_bitmap : DynamicMemory → (level offset : ℕ) → Bool → DynamicMemory
set_flag_in_bitmap d level offset exist = record d {
  bitmap_of_level =
      update d.bitmap_of_level level (set_flag (d.bitmap_of_level level) offset exist);
}

-- kFindFreeBlockInBitmap: the loop, on rounds. A QWORD of zeros is passed over whole.
pub find_loop : ℕ → Memory → (max_count i : ℕ) → Option ℕ
find_loop zero bitmap max_count i = none
find_loop (suc k) bitmap max_count i =
    let skipped = find_loop k bitmap max_count (i + 64) in
    let next = find_loop k bitmap max_count (i + 1) in
    if ltb i max_count
    then (if ltb 0 ((max_count - i) / 64) && (load_bytes 8 bitmap (i / 8) == 0)
        then skipped
        else if flag bitmap i
        then some i
        else next)
    else none

-- The number of blocks bounds the rounds.
unfoldable pub find_free_block_in_bitmap : DynamicMemory → ℕ → Option ℕ
unfolding find_loop load_bytes
find_free_block_in_bitmap d level =
    let l = d.bitmap_of_level level in
    let max_count = d.block_count_of_smallest_block / 2 ^ level in
    if l.exist_bit_count == 0 then none else find_loop (max_count + 1) l.bitmap max_count 0

-- kGetBlockListIndexOfMatchSize and kGetBuddyBlockSize are one loop with two results.
pub match_level : (rounds i size : ℕ) → Option ℕ
match_level zero i size = none
match_level (suc k) i size =
    let next = match_level k (i + 1) size in if leb size (block_size i) then some i else next

unfoldable pub get_block_list_index_of_match_size : DynamicMemory → ℕ → Option ℕ
unfolding match_level block_size
get_block_list_index_of_match_size d aligned_size = match_level d.max_level_count 0 aligned_size

unfoldable pub get_buddy_block_size : DynamicMemory → ℕ → ℕ
unfolding match_level block_size
get_buddy_block_size d size = elim (match_level d.max_level_count 0 size) [
  | none ↦ 0
  | some i ↦ block_size i
]

-- The first level from `i` on with a free block, and the block.
pub search_levels : (rounds : ℕ) → DynamicMemory → ℕ → Option (ℕ × ℕ)
search_levels zero d i = none
search_levels (suc k) d i = elim (find_free_block_in_bitmap d i) [
  | some offset ↦ some (i, offset)
  | none ↦ search_levels k d (i + 1)
]

-- A block of level `i` is split once in each round: the left half goes on, the right half is free.
pub split_blocks : (rounds : ℕ) → DynamicMemory → (i offset : ℕ) → ℕ × DynamicMemory
split_blocks zero d i offset = (offset, d)
split_blocks (suc k) d i offset =
    let d1 = set_flag_in_bitmap d (i - 1) (offset * 2) false in
    let d2 = set_flag_in_bitmap d1 (i - 1) (offset * 2 + 1) true in
    split_blocks k d2 (i - 1) (offset * 2)

-- The part of kAllocationBuddyBlock under the lock.
pub take_block : DynamicMemory → ℕ → Option (ℕ × DynamicMemory)
unfolding search_levels split_blocks
take_block d level = elim (search_levels (d.max_level_count - level) d level) [
  | none ↦ none
  | some (i, offset) ↦
      some (split_blocks (i - level) (set_flag_in_bitmap d i offset false) i offset)
]

unfoldable pub allocation_buddy_block : DynamicMemory → ℕ → Option (ℕ × DynamicMemory)
unfolding take_block
allocation_buddy_block d aligned_size = elim (get_block_list_index_of_match_size d aligned_size) [
  | none ↦ none
  | some level ↦ take_block d level
]

abbrev pub buddy : ℕ → ℕ
buddy offset = if offset % 2 == 0 then offset + 1 else offset - 1

-- The loop of kFreeBuddyBlock, on the levels left.
pub merge_blocks : (rounds : ℕ) → DynamicMemory → (i offset : ℕ) → DynamicMemory
merge_blocks zero d i offset = d
merge_blocks (suc k) d i offset =
    let d1 = set_flag_in_bitmap d i offset true in
    let d2 = set_flag_in_bitmap d1 i (buddy offset) false in
    let d3 = set_flag_in_bitmap d2 i offset false in
    let up = merge_blocks k d3 (i + 1) (offset / 2) in
    if get_flag_in_bitmap d1 i (buddy offset) then up else d1

-- It always returns TRUE.
unfoldable pub free_buddy_block : DynamicMemory → (level offset : ℕ) → DynamicMemory
unfolding merge_blocks
free_buddy_block d level offset = merge_blocks (d.max_level_count - level) d level offset

-- What kAllocateMemory does with the block that it was given.
pub record_block : DynamicMemory → (aligned_size level offset : ℕ) → ℕ × DynamicMemory
record_block d aligned_size level offset =
    let relative = (aligned_size * offset) % 2 ^ 64 in
    (
      (relative + d.start_address) % 2 ^ 64,
      record d {
        allocated_block_list_index =
            update d.allocated_block_list_index (relative / 1024 % 2 ^ 32) (level % 256);
        used_size = (d.used_size + aligned_size) % 2 ^ 64;
      },
    )

-- The level as an `int`, -1 if there is none.
pub level_or : DynamicMemory → ℕ → ℕ
level_or d aligned_size = elim (get_block_list_index_of_match_size d aligned_size) [
  | none ↦ 2 ^ 32 - 1
  | some level ↦ level
]

-- The rest of kAllocateMemory, once the aligned size is known.
pub allocate_aligned : (d : DynamicMemory) (aligned_size : ℕ) → Option (ℕ × DynamicMemory)
unfolding record_block level_or
allocate_aligned d aligned_size =
    if aligned_size == 0
    then none
    else if ltb d.end_address ((d.start_address + d.used_size + aligned_size) % 2 ^ 64)
    then none
    else elim (allocation_buddy_block d aligned_size) [
      | none ↦ none
      | some (offset, d') ↦ some (record_block d' aligned_size (level_or d' aligned_size) offset)
    ]

unfoldable pub allocate_memory : DynamicMemory → (size : ℕ) → Option (ℕ × DynamicMemory)
unfolding allocate_aligned
allocate_memory d size = allocate_aligned d (get_buddy_block_size d size)

unfoldable pub free_memory : DynamicMemory → ℕ → Bool × DynamicMemory
free_memory d address =
    let relative = (address + 2 ^ 64 - d.start_address) % 2 ^ 64 in
    let index = relative / 1024 % 2 ^ 32 in
    let level = d.allocated_block_list_index index in
    let d1 = record d {
      allocated_block_list_index = update d.allocated_block_list_index index 0xff;
    } in
    let d2 = free_buddy_block d1 level (relative / block_size level) in
    if address == 0
    then (false, d)
    else if level == 0xff
    then (false, d)
    else (true, record d2 { used_size = (d2.used_size + 2 ^ 64 - block_size level) % 2 ^ 64 })
