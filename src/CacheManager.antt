-- ===== src/CacheManager.antt =====
-- volumes/02.Kernel64/Source/CacheManager.c: the buffers that cache the clusters of the file system.
-- A table holds the first vdwMaxCount entries of its row of vvstCacheBuffer, as a list; a pointer to
-- a buffer is its index. Table 2 and negative ones pass the functions' guards and lie outside the arrays: `none`.
pub mod First
pub mod Victim
pub mod Sort
pub mod Time
pub mod Start
mod Tests
use deodeok_os.Base.{
  ℕ, zero, suc, ◌+◌, ◌-◌, ◌*◌, ◌/◌, ◌%◌, ◌^◌, Bool, true, false, ltb, ◌==◌, ◌&&◌, if◌then◌else◌,
  List, [], ◌∷◌, Option, none, some, length,
}
use deodeok_os.Base.Cells.{update}
use deodeok_os.DynamicMemory.{DynamicMemory, allocate_memory, free_memory}

-- CACHEBUFFER
pub record CacheBuffer : Type 0 where
  pub tag : ℕ
  pub access_time : ℕ
  pub changed : Bool
  pub buffer : ℕ

-- What CACHEMANAGER has for one table. vpbBuffer is read by kInitializeCacheManager only.
pub record CacheTable : Type 0 where
  pub access_time : ℕ
  pub buffers : List CacheBuffer

abbrev pub CacheManager : Type 0
CacheManager = ℕ → CacheTable

-- CACHE_INVALIDTAG
abbrev pub invalid_tag : ℕ
invalid_tag = 0xffff_ffff

-- The loops that change the first buffer with a property, and stop there.
unfoldable pub change_first :
    (CacheBuffer → Bool)
    → (CacheBuffer → CacheBuffer)
    → List CacheBuffer
    → Option (ℕ × List CacheBuffer)
change_first test change [] = none
change_first test change (b ∷ bs) =
    let rest = change_first test change bs in
    if test b
    then some (0, change b ∷ bs)
    else elim rest [ none ↦ none | some (i, cs) ↦ some (i + 1, b ∷ cs) ]

-- One round of the sort in kCutDownAccessTime: `n` neighbours are compared. The flag is bSorted.
unfoldable pub sort_pass : (n : ℕ) → List CacheBuffer → Bool × List CacheBuffer
sort_pass zero bs = (true, bs)
sort_pass (suc n) [] = (true, [])
sort_pass (suc n) (a ∷ []) = (true, a ∷ [])
sort_pass (suc n) (a ∷ b ∷ bs) =
    let swapped = ltb b.access_time a.access_time in
    let (sorted, cs) = sort_pass n ((if swapped then a else b) ∷ bs) in
    (if swapped then false else sorted, (if swapped then b else a) ∷ cs)

unfoldable pub sort_rounds : (rounds : ℕ) → List CacheBuffer → List CacheBuffer
sort_rounds zero bs = bs
sort_rounds (suc k) bs =
    let (sorted, cs) = sort_pass (suc k) bs in
    let rest = sort_rounds k cs in if sorted then cs else rest

unfoldable pub renumber : (i : ℕ) → List CacheBuffer → List CacheBuffer
renumber i [] = []
renumber i (b ∷ bs) = record b { access_time = i } ∷ renumber (i + 1) bs

-- kCutDownAccessTime
unfoldable pub cut_down_access_time : CacheTable → CacheTable
cut_down_access_time t = if ltb t.access_time 0xffff_fffe then t else record t {
  access_time = length t.buffers;
  buffers = renumber 0 (sort_rounds (length t.buffers - 1) t.buffers);
}

-- The buffer's time is the table's counter, which goes on; the pointer is the index.
unfoldable pub stamped : CacheTable → Option (ℕ × List CacheBuffer) → Option ℕ × CacheTable
stamped t none = (none, t)
stamped t (some (i, bs)) =
    (some i, record t { access_time = (t.access_time + 1) % 2 ^ 32; buffers = bs })

unfoldable pub allocate_in_table : CacheTable → Option ℕ × CacheTable
allocate_in_table t =
    let c = cut_down_access_time t in
    stamped c (
      change_first (λ b. b.tag == invalid_tag)
        (λ b. record b { tag = invalid_tag - 1; access_time = c.access_time }) c.buffers)

unfoldable pub find_in_table : CacheTable → (tag : ℕ) → Option ℕ × CacheTable
find_in_table t tag =
    let c = cut_down_access_time t in
    stamped c
      (change_first (λ b. b.tag == tag) (λ b. record b { access_time = c.access_time }) c.buffers)

-- The loop of kGetVictimInCacheBuffer from index `i` on, with dwOldTime and iOldIndex (-1 is `none`).
unfoldable pub victim_loop : List CacheBuffer → (i old_time : ℕ) → Option ℕ → Option ℕ
victim_loop [] i old_time old_index = old_index
victim_loop (b ∷ bs) i old_time old_index =
    let older = ltb b.access_time old_time in
    let rest =
      victim_loop bs (i + 1) (if older then b.access_time else old_time)
        (if older then some i else old_index) in
    if b.tag == invalid_tag then some i else rest

unfoldable pub set_time : List CacheBuffer → (index time : ℕ) → List CacheBuffer
set_time [] index time = []
set_time (b ∷ bs) zero time = record b { access_time = time } ∷ bs
set_time (b ∷ bs) (suc i) time = b ∷ set_time bs i time

-- It does not cut the times down.
unfoldable pub victim_in_table : CacheTable → Option ℕ × CacheTable
victim_in_table t = elim (victim_loop t.buffers 0 0xffff_ffff none) [
  | none ↦ (none, t)
  | some i ↦ stamped t (some (i, set_time t.buffers i t.access_time))
]

unfoldable pub invalidate : List CacheBuffer → List CacheBuffer
invalidate [] = []
invalidate (b ∷ bs) = record b { tag = invalid_tag } ∷ invalidate bs

-- `iCacheTableIndex > CACHE_MAXCACHETABLEINDEX` of an int: a negative index is not above it.
abbrev pub refused : (index : ℕ) → Bool
refused index = ltb 2 index && ltb index (2 ^ 31)

-- The guard of the functions: a table above 2 is refused; table 2 and negative ones pass and do not
-- exist.
unfoldable pub with_table :
    CacheManager
    → (index : ℕ) → (CacheTable → Option ℕ × CacheTable)
    → Option (Option ℕ × CacheManager)
with_table m index f =
    let (r, t) = f (m index) in
    if refused index
    then some (none, m)
    else if ltb index 2
    then some (r, update m index t)
    else none

unfoldable pub allocate_cache_buffer : CacheManager → (index : ℕ) → Option (Option ℕ × CacheManager)
allocate_cache_buffer m index = with_table m index allocate_in_table

unfoldable pub find_cache_buffer : CacheManager → (index tag : ℕ) → Option (Option ℕ × CacheManager)
find_cache_buffer m index tag = with_table m index (λ t. find_in_table t tag)

unfoldable pub get_victim_in_cache_buffer :
    CacheManager → (index : ℕ) → Option (Option ℕ × CacheManager)
get_victim_in_cache_buffer m index = with_table m index victim_in_table

-- It has no guard.
unfoldable pub discard_all_cache_buffer : CacheManager → (index : ℕ) → Option CacheManager
discard_all_cache_buffer m index =
    let t = m index in
    if ltb index 2
    then some (update m index (record t { access_time = 0; buffers = invalidate t.buffers }))
    else none

-- The buffers and how many they are; `inl` is FALSE.
unfoldable pub get_cache_buffer_and_count :
    CacheManager → (index : ℕ) → Option (Bool × List CacheBuffer × ℕ)
get_cache_buffer_and_count m index =
    if refused index
    then some (false, [], 0)
    else if ltb index 2
    then some (true, (m index).buffers, length (m index).buffers)
    else none

-- Unused buffers, one behind the other in memory from `start` on, each `size` bytes.
unfoldable pub area : (count start size : ℕ) → List CacheBuffer
area zero start size = []
area (suc n) start size =
    record { tag = invalid_tag; access_time = 0; changed = false; buffer = start }
    ∷ area n (start + size) size

-- After kMemSet: buffers of zeros.
unfoldable pub zeroed : (count : ℕ) → List CacheBuffer
zeroed zero = []
zeroed (suc n) = record { tag = 0; access_time = 0; changed = false; buffer = 0 } ∷ zeroed n

unfoldable pub no_tables : CacheManager
unfolding zeroed
no_tables = λ i. record { access_time = 0; buffers = zeroed (if i == 0 then 16 else 32) }

-- vpbBuffer has no elements, and vvstCacheBuffer begins where it does: vpbBuffer[0] is the dwTag and
-- the dwAccessTime of the first buffer of table 0, and the invalid tag overwrites its lower half.
unfoldable pub overwritten : (pointer : ℕ) → ℕ
overwritten pointer = pointer / 2 ^ 32 * 2 ^ 32 + invalid_tag

-- The loop over the 16 buffers of a sector: the first takes its address before its tag is written.
unfoldable pub links_area : (links : ℕ) → List CacheBuffer
unfolding area overwritten
links_area links =
    record { tag = invalid_tag; access_time = links / 2 ^ 32; changed = false; buffer = links }
    ∷ area 15 (overwritten links + 512) 512

-- vpbBuffer[1] is the bChanged of the same buffer, which is compared with TRUE, and the padding
-- behind it.
unfoldable pub set_first_changed : (pointer : ℕ) → List CacheBuffer → List CacheBuffer
set_first_changed pointer [] = []
set_first_changed pointer (b ∷ bs) = record b { changed = pointer % 256 == 1 } ∷ bs

unfoldable pub with_links : (links clusters : ℕ) → CacheManager
unfolding no_tables links_area set_first_changed
with_links links clusters =
    update no_tables 0
      (record { access_time = 0; buffers = set_first_changed clusters (links_area links) })

-- The second half of kInitializeCacheManager: 32 buffers of a cluster; or what vpbBuffer[0] holds is
-- freed.
unfoldable pub initialize_data_area :
    (links : ℕ) → DynamicMemory → Option (ℕ × DynamicMemory) → Bool × DynamicMemory × CacheManager
unfolding with_links area overwritten
initialize_data_area links d none =
    (false, (free_memory d (overwritten links)).1, with_links links 0)
initialize_data_area links d (some (clusters, d')) = (
  true,
  d',
  update (with_links links clusters) 1
      (record { access_time = 0; buffers = area 32 clusters 4096 }),
)

-- kInitializeCacheManager, with the allocator's state: first 16 buffers of a sector.
unfoldable pub initialize_cache_manager : DynamicMemory → Bool × DynamicMemory × CacheManager
unfolding no_tables initialize_data_area
initialize_cache_manager d = elim (allocate_memory d (16 * 512)) [
  | none ↦ (false, d, no_tables)
  | some (links, d1) ↦ initialize_data_area links d1 (allocate_memory d1 (32 * 4096))
]
