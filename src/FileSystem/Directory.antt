-- ===== src/FileSystem/Directory.antt =====
-- FileSystem.c: the entries of the root directory, cluster 0, and the handles.
use deodeok_os.Base.{
  ℕ, zero, suc, ◌+◌, ◌*◌, Bool, true, false, ◌==◌, ltb, ◌&&◌, ◌||◌, if◌then◌else◌, Option, none,
  some, List, [], ◌∷◌,
}
use deodeok_os.Base.Cells.{update}
use deodeok_os.Memory.{Memory, load_bytes, store_bytes}
use deodeok_os.FileSystem.State.{
  BlockDevice, DirectoryEntry, FileHandle, Handle, free, file, directory, Step, ◌>>=◌, ◌>>◌, give,
  require, ask, change, copy_at, on_failure, last_cluster, free_cluster, max_directory_entry_count,
  max_file_name_length, handle_max_count,
}
use deodeok_os.FileSystem.Sectors.{data_area, read_area, write_area}
use deodeok_os.FileSystem.Links.{find_free_cluster, set_cluster_link_data}

-- The entry at an index of a buffer of the directory, 32 bytes each, read and written.
unfoldable pub load_entry : Memory → ℕ → DirectoryEntry
unfolding load_bytes
load_entry m index = record {
  file_name = λ i. m (index * 32 + i);
  file_size = load_bytes 4 m (index * 32 + 24);
  start_cluster_index = load_bytes 4 m (index * 32 + 28);
}

unfoldable pub store_entry : Memory → ℕ → DirectoryEntry → Memory
unfolding store_bytes
store_entry m index e =
    let m1 = copy_at m (index * 32) e.file_name 0 max_file_name_length in
    let m2 = store_bytes 4 m1 (index * 32 + 24) e.file_size in
    store_bytes 4 m2 (index * 32 + 28) e.start_cluster_index

-- kMemCmp of a name, without its end, with the bytes of an entry: whether it returns 0.
unfoldable pub starts_with : Memory → (i : ℕ) → List ℕ → Bool
starts_with m i [] = true
starts_with m i (c ∷ name) = (m i == c) && starts_with m (i + 1) name

-- The bytes of a name and its 0, copied over what is there.
unfoldable pub copy_name : Memory → (i : ℕ) → List ℕ → Memory
copy_name m i [] = update m i 0
copy_name m i (c ∷ name) = copy_name (update m i c) (i + 1) name

-- The loops of kFindFreeDirectoryEntry and kFindDirectoryEntry, from entry `i` on, `n` left.
unfoldable pub first_entry : (DirectoryEntry → Bool) → Memory → (n i : ℕ) → Option ℕ
unfolding load_entry
first_entry test m zero i = none
first_entry test m (suc n) i =
    let rest = first_entry test m n (i + 1) in if test (load_entry m i) then some i else rest

-- An index that may be -1 does not pass the guard; it is a number here.
abbrev pub is_entry_index : ℕ → Bool
is_entry_index index = ltb index max_directory_entry_count

module _ {D : Type 0} (dev : BlockDevice D) where
  abbrev pub when_mounted : {A : Type 0} → Step D A → Step D A
  when_mounted m = do mounted ← ask (λ s. s.mounted); require mounted; m

  -- `none` is -1.
  abbrev pub or_minus_one : Option ℕ → Step D ℕ
  or_minus_one o s = (o, s)

  unfoldable pub find_free_directory_entry : Step D ℕ
  unfolding read_area first_entry
  find_free_directory_entry = when_mounted do
    read_area dev data_area 0
    found ← ask (λ s.
        first_entry (λ e. e.start_cluster_index == 0) s.temp_buffer max_directory_entry_count 0)
    or_minus_one found

  unfoldable pub set_directory_entry_data : (index : ℕ) → DirectoryEntry → Step D (Unit {0})
  unfolding read_area write_area store_entry
  set_directory_entry_data index e = when_mounted do
    require (is_entry_index index)
    read_area dev data_area 0
    change (λ s. record s { temp_buffer = store_entry s.temp_buffer index e })
    write_area dev data_area 0

  unfoldable pub get_directory_entry_data : (index : ℕ) → Step D DirectoryEntry
  unfolding read_area load_entry
  get_directory_entry_data index = when_mounted do
    require (is_entry_index index)
    read_area dev data_area 0
    ask (λ s. load_entry s.temp_buffer index)

  -- The entry's index and the entry.
  unfoldable pub find_directory_entry : (name : List ℕ) → Step D (ℕ × DirectoryEntry)
  unfolding read_area first_entry starts_with
  find_directory_entry name = when_mounted do
    read_area dev data_area 0
    found ← ask (λ s.
        first_entry (λ e. starts_with e.file_name 0 name) s.temp_buffer max_directory_entry_count 0)
    i ← or_minus_one found
    ask (λ s. (i, load_entry s.temp_buffer i))

  -- kCreateFile: the entry and its index. `garbage` is what the caller's entry holds before; each
  -- failure after the cluster was taken gives it back.
  unfoldable pub create_file :
      (garbage : DirectoryEntry) → (name : List ℕ) → Step D (ℕ × DirectoryEntry)
  unfolding find_free_cluster set_cluster_link_data find_free_directory_entry
      set_directory_entry_data copy_name
  create_file garbage name = do
    cluster ← find_free_cluster dev
    set_cluster_link_data dev cluster last_cluster
    index ← on_failure find_free_directory_entry (set_cluster_link_data dev cluster free_cluster)
    let e : DirectoryEntry = record {
      file_name = copy_name garbage.file_name 0 name;
      file_size = 0;
      start_cluster_index = cluster;
    }
    on_failure (set_directory_entry_data index e) (set_cluster_link_data dev cluster free_cluster)
    give (index, e)

  -- kUpdateDirectoryEntry
  unfoldable pub update_directory_entry : FileHandle → Step D (Unit {0})
  unfolding get_directory_entry_data set_directory_entry_data
  update_directory_entry h = do
    e ← get_directory_entry_data h.directory_entry_offset
    set_directory_entry_data h.directory_entry_offset
        (record e { file_size = h.file_size; start_cluster_index = h.start_cluster_index })

-- Handles: a pointer is an index into the pool; a freed handle is cleared.
abbrev pub empty_handle : FileHandle
empty_handle = record {
  directory_entry_offset = 0;
  file_size = 0;
  start_cluster_index = 0;
  current_cluster_index = 0;
  previous_cluster_index = 0;
  current_offset = 0;
}

abbrev pub is_free : Handle → Bool
is_free free = true
is_free (file _) = false
is_free (directory _) = false

-- The loop of kAllocateFileDirectoryHandle from handle `i` on, `n` left.
unfoldable pub first_free_handle : (ℕ → Handle) → (n i : ℕ) → Option ℕ
first_free_handle pool zero i = none
first_free_handle pool (suc n) i =
    let rest = first_free_handle pool n (i + 1) in if is_free (pool i) then some i else rest

unfoldable pub set_handle : {D : Type 0} → ℕ → Handle → Step D (Unit {0})
set_handle i h s = (some tt, record s { handle_pool = update s.handle_pool i h })

unfoldable pub allocate_file_directory_handle : {D : Type 0} → Step D ℕ
unfolding first_free_handle set_handle
allocate_file_directory_handle s = elim (first_free_handle s.handle_pool handle_max_count 0) [
  | none ↦ (none, s)
  | some i ↦ (set_handle i (file empty_handle) >> give i) s
]

unfoldable pub free_file_directory_handle : {D : Type 0} → ℕ → Step D (Unit {0})
unfolding set_handle
free_file_directory_handle i = set_handle i free

abbrev pub opens_cluster : ℕ → Handle → Bool
opens_cluster cluster free = false
opens_cluster cluster (file h) = h.start_cluster_index == cluster
opens_cluster cluster (directory _) = false

-- kIsFileOpened from handle `i` on, `n` left.
unfoldable pub is_file_opened : (ℕ → Handle) → (cluster n i : ℕ) → Bool
is_file_opened pool cluster zero i = false
is_file_opened pool cluster (suc n) i =
    opens_cluster cluster (pool i) || is_file_opened pool cluster n (i + 1)
