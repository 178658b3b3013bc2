-- ===== src/FileSystem/Tests.antt =====
-- The file system's theorems on a RAM disk of 64 sectors.
use deodeok_os.Base.{
  ℕ, ◌+◌, ◌*◌, ◌/◌, ◌^◌, ◌≡◌, ◌≤◌, true, false, ◌==◌, if◌then◌else◌, some, refl, arith, [], ◌∷◌,
}
use deodeok_os.Memory.{Memory, load_bytes, store_bytes}
use deodeok_os.CacheManager.{no_tables}
use deodeok_os.FileSystem.State.{
  ◌>>◌, require, FileSystem, free, file, FileHandle, last_cluster, free_cluster, set_dword,
}
use deodeok_os.FileSystem.Links.{
  get_cluster_link_data, set_cluster_link_data, free_cluster_until_end, find_free_cluster,
}
use deodeok_os.FileSystem.Table.{IsTable, InTable, link_of, set-get}
use deodeok_os.FileSystem.Chain.{member, IsChain, free_cluster_until_end-Freed}
use deodeok_os.FileSystem.Search.{Searched, find_free_cluster-Searched}
use deodeok_os.FileSystem.Format.{format_cluster_count, format_link_sector_count, format, mount}
use deodeok_os.FileSystem.Fresh.{IsFresh, format-mount}
use deodeok_os.FileSystem.Layout.{format_layout}
use deodeok_os.FileSystem.ReadWrite.{read_file, write_file}
use deodeok_os.FileSystem.Bounds.{read_file-Returns, write_file-Returns}
use deodeok_os.RamDisk.{ram_disk}
use deodeok_os.RamDisk.Bounds.{sector, ram_disk-IsDisk, ram_disk-Informs}

abbrev blank : Memory
blank _ = 0

-- The root directory ends at cluster 0, a file has the clusters 1 and 2.
disk_bytes : Memory
disk_bytes = set_dword (set_dword (set_dword blank 128 last_cluster) 129 2) 130 last_cluster

-- The file, at its second cluster.
abbrev handle : FileHandle
handle = record {
  directory_entry_offset = 0;
  file_size = 5000;
  start_cluster_index = 1;
  current_cluster_index = 2;
  previous_cluster_index = 1;
  current_offset = 4096;
}

abbrev mounted : FileSystem Memory
mounted = record {
  mounted = true;
  reserved_sector_count = 0;
  cluster_link_area_start_address = 1;
  cluster_link_area_size = 1;
  data_area_start_address = 2;
  total_cluster_count = 6;
  last_allocated_cluster_link_sector_offset = 0;
  handle_pool = λ i. if i == 0 then file handle else free;
  cache_enable = false;
  temp_buffer = blank;
  cache = no_tables;
  cache_bytes = λ _. blank;
  device = disk_bytes;
}

mounted-IsTable : IsTable 56 mounted
mounted-IsTable = record {
  mounted = refl;
  uncached = refl;
  on_disk = omega arith;
  small = omega arith;
}

set-get_example :
    (set_cluster_link_data (ram_disk 64) 3 7 mounted).0 ≡ some tt
    × ((x : ℕ)
        → InTable mounted x
        → (get_cluster_link_data
            (ram_disk 64)
            x
            (set_cluster_link_data (ram_disk 64) 3 7 mounted).1).0
          ≡ some (if x == 3 then 7 else link_of sector mounted x))
set-get_example =
    set-get (ram_disk-IsDisk 64 (omega arith) (omega arith)) mounted mounted-IsTable 3 7
      (omega arith) (omega arith)

file-IsChain : IsChain (link_of sector mounted) mounted.cluster_link_area_size 1 (1 ∷ 2 ∷ [])
unfolding link_of sector disk_bytes load_bytes store_bytes
file-IsChain = ground arith

free_cluster_until_end-Freed_example :
    (s : FileSystem Memory) × (free_cluster_until_end (ram_disk 64) 3 1 mounted ≡ some (true, s))
    × IsTable 56 s
    × ((x : ℕ)
        → link_of sector s x
          ≡ (if member x (1 ∷ 2 ∷ []) then free_cluster else link_of sector mounted x))
free_cluster_until_end-Freed_example =
    free_cluster_until_end-Freed (ram_disk-IsDisk 64 (omega arith) (omega arith)) (1 ∷ 2 ∷ []) 1 3
      mounted mounted-IsTable file-IsChain (omega arith)

find_free_cluster-Searched_example :
    Searched
      (ram_disk-IsDisk 64 (omega arith) (omega arith))
      mounted
      (find_free_cluster (ram_disk 64) mounted)
find_free_cluster-Searched_example =
    find_free_cluster-Searched (ram_disk-IsDisk 64 (omega arith) (omega arith)) mounted
      mounted-IsTable (omega arith) (omega arith)

format_layout_example :
    let links = format_link_sector_count 16384 in
    let clusters = format_cluster_count 16384 in
    (1 + links + clusters * 8 ≤ 16384)
    × (clusters ≤ links * 128)
    × (16384 ≤ 1 + links + clusters * 8 + 9 + 16384 / 2 ^ 20)
format_layout_example = format_layout 16384 (omega arith) (omega arith)

read_file-Returns_example :
    (r : ℕ × Memory × FileSystem Memory) × (read_file
        (ram_disk 64)
        1001
        blank
        2
        500
        (some 0)
        mounted
      ≡ some r)
    × (r.0 ≤ 500)
read_file-Returns_example =
    read_file-Returns (ram_disk 64) 1001 blank 2 500 (some 0) mounted (omega arith) (omega arith)

write_file-Returns_example :
    (r : ℕ × Memory × FileSystem Memory) × (write_file
        (ram_disk 64)
        5001
        blank
        1
        5000
        (some 0)
        mounted
      ≡ some r)
    × (r.0 ≤ 5000)
write_file-Returns_example =
    write_file-Returns (ram_disk 64) 5001 blank 1 5000 (some 0) mounted (omega arith) (omega arith)

free_cluster_found : (find_free_cluster (ram_disk 64) mounted).0 ≡ some 3
unfolding find_free_cluster ram_disk disk_bytes store_bytes require
free_cluster_found = refl

format-mount_example :
    ((format (ram_disk 1024) >> mount (ram_disk 1024)) mounted).0 ≡ some tt
    × IsFresh sector
        (format_link_sector_count 1024)
        (format_cluster_count 1024)
        ((format (ram_disk 1024) >> mount (ram_disk 1024)) mounted).1
unfolding format_link_sector_count format_cluster_count
format-mount_example =
    format-mount (ram_disk-IsDisk 1024 (omega arith) (omega arith)) 1024 (ram_disk-Informs 1024)
      (omega arith) (omega arith) (omega arith) mounted refl
