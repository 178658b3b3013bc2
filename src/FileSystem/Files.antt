-- ===== src/FileSystem/Files.antt =====
-- FileSystem.c: files and directories opened, closed and removed, and the cache flushed. -1 and NULL
-- are `none`; the outer `none` is that the fuel of a loop ran out.
use deodeok_os.Base.{
  ℕ, zero, suc, ◌+◌, ◌-◌, Bool, true, false, not, ◌==◌, ltb, ◌||◌, if◌then◌else◌, Option, none,
  some, List, length,
}
use deodeok_os.Memory.{Memory}
use deodeok_os.CacheManager.{CacheBuffer}
use deodeok_os.FileSystem.State.{
  FileSystem, BlockDevice, DirectoryEntry, FileHandle, DirectoryHandle, Handle, free, file,
  directory, Step, ◌>>=◌, ◌>>◌, give, last_cluster, max_directory_entry_count, max_file_name_length,
  handle_max_count,
}
use deodeok_os.FileSystem.Sectors.{
  Area, link_area, data_area, table_index, read_area, write_without_cache, buffer_at, mark_buffer,
}
use deodeok_os.FileSystem.Links.{
  get_cluster_link_data, set_cluster_link_data, free_cluster_until_end,
}
use deodeok_os.FileSystem.Directory.{
  load_entry, find_directory_entry, create_file, set_directory_entry_data,
  allocate_file_directory_handle, free_file_directory_handle, set_handle, is_file_opened,
}
use deodeok_os.FileSystem.Seek.{seek_file, seek_end}

-- A step that may run out of fuel.
abbrev pub Looping : Type 0 → Type 0 → Type 0
Looping D A = FileSystem D → Option (Option A × FileSystem D)

abbrev pub then_loop :
    {D A B : Type 0}
    → (A → Looping D B)
    → Option A × FileSystem D
    → Option (Option B × FileSystem D)
then_loop f (none, s) = some (none, s)
then_loop f (some a, s) = f a s

-- A call of kFreeClusterUntilEnd, which returns early if it fails.
abbrev pub then_freed :
    {D B : Type 0} → Looping D B → Option (Bool × FileSystem D) → Option (Option B × FileSystem D)
then_freed k none = none
then_freed k (some (false, s)) = some (none, s)
then_freed k (some (true, s)) = k s

abbrev pub is_name : List ℕ → Bool
is_name name = not (ltb (max_file_name_length - 1) (length name) || (length name == 0))

abbrev pub new_handle : (index : ℕ) → DirectoryEntry → FileHandle
new_handle index e = record {
  directory_entry_offset = index;
  file_size = e.file_size;
  start_cluster_index = e.start_cluster_index;
  current_cluster_index = e.start_cluster_index;
  previous_cluster_index = e.start_cluster_index;
  current_offset = 0;
}

abbrev pub empty_entry : DirectoryEntry
empty_entry = record { file_name = λ _. 0; file_size = 0; start_cluster_index = 0 }

module _ {D : Type 0} (dev : BlockDevice D) where
  -- The position of a file opened with mode 'a'.
  abbrev pub after_seek : (file : ℕ) → Option (ℕ × FileSystem D) → Option (Option ℕ × FileSystem D)
  after_seek i none = none
  after_seek i (some (_, s)) = some (some i, s)

  -- The end of kOpenFile: a handle for the entry.
  unfoldable pub open_entry : (fuel : ℕ) → (mode : ℕ) → ℕ × DirectoryEntry → Looping D ℕ
  unfolding allocate_file_directory_handle set_handle seek_file
  open_entry fuel mode (index, e) s =
      then_loop
        (λ i s.
          let s1 = (set_handle i (file (new_handle index e)) s).1 in
          let appended = after_seek i (seek_file dev fuel false (some i) 0 seek_end s1) in
          if mode == b'a' then appended else some (some i, s1))
        (allocate_file_directory_handle s)

  -- The contents of the file are given up: its clusters behind the first, and its size.
  unfoldable pub empty_file : (fuel : ℕ) → ℕ × DirectoryEntry → Looping D (ℕ × DirectoryEntry)
  unfolding get_cluster_link_data set_cluster_link_data free_cluster_until_end
      set_directory_entry_data
  empty_file fuel (index, e) s =
      let e' : DirectoryEntry = record e { file_size = 0 } in
      then_loop
        (λ second s.
          then_freed (λ s. some ((set_directory_entry_data dev index e' >> give (index, e')) s))
            (free_cluster_until_end dev fuel second s))
        ((do
          second ← get_cluster_link_data dev e.start_cluster_index
          set_cluster_link_data dev e.start_cluster_index last_cluster
          give second)
          s)

  abbrev pub then_opened :
      (fuel mode : ℕ)
      → Option (Option (ℕ × DirectoryEntry) × FileSystem D)
      → Option (Option ℕ × FileSystem D)
  then_opened fuel mode none = none
  then_opened fuel mode (some r) = then_loop (open_entry fuel mode) r

  -- By the entry that was found.
  abbrev pub open_found :
      (fuel : ℕ)
      → DirectoryEntry
      → List ℕ
      → (mode : ℕ) → Option (ℕ × DirectoryEntry) × FileSystem D
      → Option (Option ℕ × FileSystem D)
  open_found fuel garbage name mode (none, s) =
      let created = then_loop (open_entry fuel mode) (create_file dev garbage name s) in
      if mode == b'r' then some (none, s) else created
  open_found fuel garbage name mode (some found, s) =
      let emptied = then_opened fuel mode (empty_file fuel found s) in
      if mode == b'w' then emptied else open_entry fuel mode found s

  -- kOpenFile; `mode` is pcMode[0].
  unfoldable pub open_file :
      (fuel : ℕ) → DirectoryEntry → (name : List ℕ) → (mode : ℕ) → Looping D ℕ
  unfolding open_entry empty_file create_file find_directory_entry
  open_file fuel garbage name mode s =
      let opened = open_found fuel garbage name mode (find_directory_entry dev name s) in
      if is_name name then opened else some (none, s)

  -- kRemoveFile; a name that is too long or empty gives NULL, which is 0, and the others -1.
  abbrev pub remove_found : (fuel : ℕ) → ℕ × DirectoryEntry → Looping D (Unit {0})
  remove_found fuel (index, e) s =
      let removed =
        then_freed (λ s. some (set_directory_entry_data dev index empty_entry s))
          (free_cluster_until_end dev fuel e.start_cluster_index s) in
      if is_file_opened s.handle_pool e.start_cluster_index handle_max_count 0
      then some (none, s)
      else removed

  unfoldable pub remove_file : (fuel : ℕ) → (name : List ℕ) → Looping D (Unit {0})
  unfolding find_directory_entry free_cluster_until_end set_directory_entry_data is_file_opened
  remove_file fuel name s =
      let removed = then_loop (remove_found fuel) (find_directory_entry dev name s) in
      if is_name name then removed else some (some tt, s)

  -- The root directory into a buffer of its own; the temporary buffer stays.
  abbrev pub read_into_buffer :
      Option (Unit {0}) × FileSystem D → Memory → Option Memory × FileSystem D
  read_into_buffer (none, s) old = (none, record s { temp_buffer = old })
  read_into_buffer (some _, s) old = (some s.temp_buffer, record s { temp_buffer = old })

  abbrev pub directory_read : (file : ℕ) → Option Memory × FileSystem D → Option ℕ × FileSystem D
  directory_read i (none, s) = (none, (free_file_directory_handle i s).1)
  directory_read i (some m, s) =
      (some i, (set_handle i (directory (record { directory_buffer = m; current_offset = 0 })) s).1)

  -- kOpenDirectory with the buffer of kAllocateMemory; NULL is not tested for.
  unfoldable pub open_directory : (buffer : Memory) → Step D ℕ
  unfolding allocate_file_directory_handle free_file_directory_handle set_handle read_area
  open_directory buffer = do
    i ← allocate_file_directory_handle
    λ s. directory_read i (
        read_into_buffer (read_area dev data_area 0 (record s { temp_buffer = buffer }))
          s.temp_buffer)

  -- The loops of kFlushFileSystemCache: each buffer that has changed is written, from buffer `i` on,
  -- `n` left.
  abbrev pub flush_buffer : Area → ℕ → CacheBuffer → Step D (Unit {0})
  flush_buffer a i b s =
      if b.changed
      then (write_without_cache dev a b.tag (s.cache_bytes b.buffer)
            >> mark_buffer a i (λ b. record b { changed = false }))
          s
      else (some tt, s)

  unfoldable pub flush_buffers : Area → (n i : ℕ) → Step D (Unit {0})
  unfolding write_without_cache
  flush_buffers a zero i = give tt
  flush_buffers a (suc n) i = do b ← buffer_at a i; flush_buffer a i b; flush_buffers a n (i + 1)

  unfoldable pub flush_table : Area → Step D (Unit {0})
  unfolding flush_buffers
  flush_table a s = flush_buffers a (length (s.cache (table_index a)).buffers) 0 s

  unfoldable pub flush_file_system_cache : Step D (Unit {0})
  unfolding flush_table
  flush_file_system_cache s =
      if s.cache_enable then (flush_table link_area >> flush_table data_area) s else (some tt, s)

-- kCloseFile
abbrev pub is_file : Handle → Bool
is_file free = false
is_file (file _) = true
is_file (directory _) = false

unfoldable pub close_file : {D : Type 0} → Option ℕ → Step D (Unit {0})
unfolding free_file_directory_handle
close_file none s = (none, s)
close_file (some i) s =
    if is_file (s.handle_pool i) then free_file_directory_handle i s else (none, s)

-- The loop of kReadDirectory from entry `i` on, `n` left: the entry that is returned.
unfoldable pub next_entry : Memory → (n i : ℕ) → Option ℕ
unfolding load_entry
next_entry m zero i = none
next_entry m (suc n) i =
    let rest = next_entry m n (i + 1) in
    if (load_entry m i).start_cluster_index == 0 then rest else some i

-- The handle behind the entry that is returned, or at the end.
abbrev pub read_entry :
    {D : Type 0} → (file : ℕ) → DirectoryHandle → Option ℕ → Step D DirectoryEntry
read_entry i d none s =
    (none, (set_handle i (directory (record d { current_offset = max_directory_entry_count })) s).1)
read_entry i d (some k) s = (
  some (load_entry d.directory_buffer k),
  (set_handle i (directory (record d { current_offset = k + 1 })) s).1,
)

abbrev pub read_handle_entry : {D : Type 0} → (file : ℕ) → Handle → Step D DirectoryEntry
read_handle_entry i free s = (none, s)
read_handle_entry i (file _) s = (none, s)
read_handle_entry i (directory d) s =
    let next =
      read_entry i d
        (next_entry d.directory_buffer (max_directory_entry_count - d.current_offset)
          d.current_offset)
        s in
    if ltb d.current_offset max_directory_entry_count then next else (none, s)

unfoldable pub read_directory : {D : Type 0} → Option ℕ → Step D DirectoryEntry
unfolding next_entry set_handle
read_directory none s = (none, s)
read_directory (some i) s = read_handle_entry i (s.handle_pool i) s

abbrev pub rewound : Handle → Handle
rewound free = free
rewound (file h) = file h
rewound (directory d) = directory (record d { current_offset = 0 })

unfoldable pub rewind_directory : {D : Type 0} → Option ℕ → FileSystem D → FileSystem D
unfolding set_handle
rewind_directory none s = s
rewind_directory (some i) s = (set_handle i (rewound (s.handle_pool i)) s).1

abbrev pub is_directory : Handle → Bool
is_directory free = false
is_directory (file _) = false
is_directory (directory _) = true

-- kCloseDirectory; the buffer is freed too.
unfoldable pub close_directory : {D : Type 0} → Option ℕ → Step D (Unit {0})
unfolding free_file_directory_handle
close_directory none s = (none, s)
close_directory (some i) s =
    if is_directory (s.handle_pool i) then free_file_directory_handle i s else (none, s)
