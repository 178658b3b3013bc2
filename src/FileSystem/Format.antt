-- ===== src/FileSystem/Format.antt =====
-- FileSystem.c: kMount, kFormat and kInitializeFileSystem.
use deodeok_os.Base.{
  ℕ, zero, suc, ◌+◌, ◌*◌, ◌-◌, ◌/◌, ◌%◌, ◌^◌, Bool, true, false, not, ◌==◌, leb, ltb, ◌&&◌,
  if◌then◌else◌, Option, none, some,
}
use deodeok_os.Memory.{Memory, load_bytes, store_bytes}
use deodeok_os.DynamicMemory.{DynamicMemory, allocate_memory}
use deodeok_os.CacheManager.{discard_all_cache_buffer, initialize_cache_manager}
use deodeok_os.FileSystem.State.{
  FileSystem, BlockDevice, free, Step, ◌>>=◌, ◌>>◌, give, require, ask, change, last_cluster,
  free_cluster, set_dword, filesystem_signature, sectors_per_cluster, handle_max_count,
}

-- MBR: where its fields stand.
abbrev pub signature_offset : ℕ
signature_offset = 430

abbrev pub reserved_offset : ℕ
reserved_offset = 434

abbrev pub link_count_offset : ℕ
link_count_offset = 438

abbrev pub total_count_offset : ℕ
total_count_offset = 442

abbrev pub partition_offset : ℕ
partition_offset = 446

-- kMemSet of `n` bytes from offset `a` on to 0.
abbrev pub clear : (a n : ℕ) → Memory → Memory
clear a n m i = if leb a i && ltb i (a + n) then 0 else m i

-- dwClusterCount and dwClusterLinkSectorCount of kFormat.
abbrev pub first_link_sector_count : ℕ → ℕ
first_link_sector_count total = (total / sectors_per_cluster + 127) / 128

unfoldable pub format_cluster_count : ℕ → ℕ
format_cluster_count total =
    (total + 2 ^ 32 - first_link_sector_count total - 1) % 2 ^ 32 / sectors_per_cluster

unfoldable pub format_link_sector_count : ℕ → ℕ
unfolding format_cluster_count
format_link_sector_count total = (format_cluster_count total + 127) / 128

-- The four fields of the MBR, and the partition table cleared.
unfoldable pub format_mbr : (links clusters : ℕ) → Memory → Memory
unfolding store_bytes
format_mbr links clusters m =
    let m1 = clear partition_offset 64 m in
    let m2 = store_bytes 4 m1 signature_offset filesystem_signature in
    let m3 = store_bytes 4 m2 reserved_offset 0 in
    let m4 = store_bytes 4 m3 link_count_offset links in
    store_bytes 4 m4 total_count_offset clusters

-- kMount once the MBR is in the temporary buffer.
unfoldable pub mount_from_buffer : {D : Type 0} → FileSystem D → FileSystem D
unfolding load_bytes
mount_from_buffer s =
    let reserved = load_bytes 4 s.temp_buffer reserved_offset in
    let links = load_bytes 4 s.temp_buffer link_count_offset in
    record s {
      mounted = true;
      reserved_sector_count = reserved;
      cluster_link_area_start_address = (reserved + 1) % 2 ^ 32;
      cluster_link_area_size = links;
      data_area_start_address = (reserved + links + 1) % 2 ^ 32;
      total_cluster_count = load_bytes 4 s.temp_buffer total_count_offset;
    }

module _ {D : Type 0} (dev : BlockDevice D) where
  -- gs_pfReadHDDSector(TRUE, TRUE, 0, 1, gs_vbTempBuffer), which FALSE ends.
  unfoldable pub read_mbr : Step D (Unit {0})
  read_mbr s =
      let (n, m, d) = dev.read_sector s.device 0 1 s.temp_buffer in
      require (not (n == 0)) (record s { temp_buffer = m; device = d })

  unfoldable pub write_sector : (lba : ℕ) → Step D (Unit {0})
  write_sector lba s =
      let (n, d) = dev.write_sector s.device lba 1 s.temp_buffer in
      require (not (n == 0)) (record s { device = d })

  unfoldable pub mount : Step D (Unit {0})
  unfolding read_mbr mount_from_buffer load_bytes
  mount = do
    read_mbr
    signature ← ask (λ s. load_bytes 4 s.temp_buffer signature_offset)
    require (signature == filesystem_signature)
    change mount_from_buffer

  -- gs_pfReadHDDInformation(TRUE, TRUE, pstHDD) into the temporary buffer: dwTotalSectors.
  unfoldable pub read_total : Step D ℕ
  read_total s =
      let (total, m, d) = dev.read_information s.device s.temp_buffer in
      (total, record s { temp_buffer = m; device = d })

  -- The loop that clears the link table and the root directory, from sector `i` on, `n` left.
  unfoldable pub format_sectors : (n i : ℕ) → Step D (Unit {0})
  unfolding write_sector
  format_sectors zero i = give tt
  format_sectors (suc n) i = do
    change (λ s. record s {
      temp_buffer = set_dword s.temp_buffer 0 (if i == 0 then last_cluster else free_cluster);
    })
    write_sector (i + 1)
    format_sectors n (i + 1)

  abbrev pub discard : (table : ℕ) → Step D (Unit {0})
  discard table s = elim (discard_all_cache_buffer s.cache table) [
    | none ↦ (some tt, s)
    | some c ↦ (some tt, record s { cache = c })
  ]

  abbrev pub discard_caches : Step D (Unit {0})
  discard_caches s = if s.cache_enable then (discard 0 >> discard 1) s else (some tt, s)

  unfoldable pub format : Step D (Unit {0})
  unfolding read_total read_mbr format_mbr write_sector format_sectors format_link_sector_count
  format = do
    total ← read_total
    read_mbr
    change (λ s. record s {
      temp_buffer =
          format_mbr (format_link_sector_count total) (format_cluster_count total) s.temp_buffer;
    })
    write_sector 0
    change (λ s. record s { temp_buffer = clear 0 512 s.temp_buffer })
    format_sectors (format_link_sector_count total + sectors_per_cluster) 0
    discard_caches

-- gs_stFileSystemManager cleared by kMemSet, with what the other variables hold.
abbrev pub cleared : {D : Type 0} → FileSystem D → FileSystem D
cleared s = record s {
  mounted = false;
  reserved_sector_count = 0;
  cluster_link_area_start_address = 0;
  cluster_link_area_size = 0;
  data_area_start_address = 0;
  total_cluster_count = 0;
  last_allocated_cluster_link_sector_offset = 0;
  cache_enable = false;
}

abbrev pub or_unchanged : DynamicMemory → Option (ℕ × DynamicMemory) → DynamicMemory
or_unchanged d none = d
or_unchanged d (some (_, d1)) = d1

-- kInitializeFileSystem from kMount on. The pool of handles is 3072 of 25 bytes; the test for
-- NULL after its allocation is of bMounted, so that without memory the pool is used all the same.
unfoldable pub finish_initialization :
    {D : Type 0}
    → (cache : Bool) → DynamicMemory
    → Option (Unit {0}) × FileSystem D
    → Bool × DynamicMemory × FileSystem D
finish_initialization cache d (none, s) = (false, d, s)
finish_initialization cache d (some _, s) =
    let d1 = or_unchanged d (allocate_memory d (handle_max_count * 25)) in
    let s1 = record s { handle_pool = λ _. free } in
    let (enabled, d2, c) = initialize_cache_manager d1 in
    if s.mounted
    then if cache
      then (true, d2, record s1 { cache_enable = enabled; cache = c })
      else (true, d1, s1)
    else (false, d1, record s { mounted = false })

-- kInitializeHDD's result chooses the hard disk; else the RAM disk is used if there is memory for it.
unfoldable pub initialize_file_system :
    {D : Type 0}
    → (hdd rdd : BlockDevice D) → (hdd_ready rdd_ready : Bool) → DynamicMemory
    → FileSystem D
    → Bool × DynamicMemory × FileSystem D
unfolding finish_initialization mount format
initialize_file_system hdd rdd true rdd_ready d s =
    finish_initialization true d (mount hdd (cleared s))
initialize_file_system hdd rdd false true d s =
    finish_initialization false d ((format rdd >> mount rdd) (cleared s))
initialize_file_system hdd rdd false false d s = (false, d, cleared s)
