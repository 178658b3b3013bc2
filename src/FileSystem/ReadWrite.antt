-- ===== src/FileSystem/ReadWrite.antt =====
-- FileSystem.c: kReadFile, kWriteFile, kWriteZero and kSeekFile. A DWORD is below 2 ^ 32. The loops run
-- on fuel, and `none` is that it ran out.
use deodeok_os.Base.{
  ℕ, zero, suc, ◌+◌, ◌*◌, ◌-◌, ◌/◌, ◌%◌, ◌^◌, Bool, true, false, not, ◌==◌, ltb, ◌||◌,
  if◌then◌else◌, Option, none, some,
}
use deodeok_os.Memory.{Memory}
use deodeok_os.FileSystem.State.{
  FileSystem, BlockDevice, FileHandle, Handle, free, file, directory, Step, ◌>>=◌, ◌>>◌, give,
  change, copy_at, ignore, on_failure, last_cluster, free_cluster, cluster_size,
}
use deodeok_os.FileSystem.Sectors.{data_area, read_area, write_area}
use deodeok_os.FileSystem.Links.{find_free_cluster, set_cluster_link_data, get_cluster_link_data}
use deodeok_os.FileSystem.Directory.{update_directory_entry, set_handle}

abbrev pub min : ℕ → ℕ → ℕ
min a b = if ltb a b then a else b

-- A loop's variables: the state, the file's handle, the caller's buffer, dwReadCount or dwWriteCount.
pub record Transfer (D : Type 0) : Type 0 where
  pub system : FileSystem D
  pub handle : FileHandle
  pub buffer : Memory
  pub count : ℕ

-- dwCopySize
abbrev pub copy_size : {D : Type 0} → (total : ℕ) → Transfer D → ℕ
copy_size total t = min (cluster_size - t.handle.current_offset % cluster_size) (total - t.count)

module _ {D : Type 0} (dev : BlockDevice D) where
  -- The end of a round: at the end of a cluster the handle moves to the next. The flag is whether
  -- the loop goes on.
  abbrev pub move_on : Transfer D → Option ℕ × FileSystem D → Bool × Transfer D
  move_on t (none, s) = (false, record t { system = s })
  move_on t (some next, s) = (
    true,
    record t {
      system = s;
      handle = record t.handle {
        previous_cluster_index = t.handle.current_cluster_index;
        current_cluster_index = next;
      };
    },
  )

  unfoldable pub end_of_round : Transfer D → Bool × Transfer D
  unfolding get_cluster_link_data
  end_of_round t =
      if t.handle.current_offset % cluster_size == 0
      then move_on t (get_cluster_link_data dev t.handle.current_cluster_index t.system)
      else (true, t)

  -- dwReadCount and the offset go on by dwCopySize.
  abbrev pub counted : (total : ℕ) → Transfer D → Transfer D
  counted total t = record t {
    count = t.count + copy_size total t;
    handle = record t.handle {
      current_offset = (t.handle.current_offset + copy_size total t) % 2 ^ 32;
    };
  }

  -- A round of kReadFile once its cluster is in the temporary buffer.
  abbrev pub take_bytes :
      (total : ℕ) → Transfer D → Option (Unit {0}) × FileSystem D → Bool × Transfer D
  take_bytes total t (none, s) = (false, record t { system = s })
  take_bytes total t (some _, s) = end_of_round (
      counted total (record t {
        system = s;
        buffer =
            copy_at t.buffer t.count s.temp_buffer (t.handle.current_offset % cluster_size)
              (copy_size total t);
      }))

  unfoldable pub read_round : (total : ℕ) → Transfer D → Bool × Transfer D
  unfolding read_area end_of_round
  read_round total t =
      take_bytes total t (read_area dev data_area t.handle.current_cluster_index t.system)

  abbrev pub or_break : (Transfer D → Option (Transfer D)) → Bool × Transfer D → Option (Transfer D)
  or_break rest (true, t) = rest t
  or_break rest (false, t) = some t

  unfoldable pub read_rounds : (fuel total : ℕ) → Transfer D → Option (Transfer D)
  unfolding read_round
  read_rounds zero total t = none
  read_rounds (suc fuel) total t = elim (t.count == total) [
    | true ↦ some t
    | false ↦ or_break (read_rounds fuel total) (read_round total t)
  ]

  -- The handle in the pool is the one that the loop has changed; dwReadCount / dwSize, where a size of
  -- 0 is a division by 0, also `none`.
  abbrev pub returned : (size file : ℕ) → Option (Transfer D) → Option (ℕ × Memory × FileSystem D)
  returned size i none = none
  returned size i (some t) =
      if size == 0
      then none
      else some (t.count / size, t.buffer, (set_handle i (file t.handle) t.system).1)

  abbrev pub read_handle :
      (fuel : ℕ)
      → Memory
      → (size count file : ℕ) → FileSystem D
      → FileHandle
      → Option (ℕ × Memory × FileSystem D)
  read_handle fuel buffer size count i s h =
      let left = (h.file_size + 2 ^ 32 - h.current_offset) % 2 ^ 32 in
      let total = min ((size * count) % 2 ^ 32) left in
      let run =
        returned size i (
          read_rounds fuel total (record { system = s; handle = h; buffer = buffer; count = 0 })) in
      if (h.current_offset == h.file_size) || (h.current_cluster_index == last_cluster)
      then some (0, buffer, s)
      else run

  -- A function of an open file; a NULL pointer or another handle returns 0.
  abbrev pub with_file :
      (FileSystem D → FileHandle → Option (ℕ × Memory × FileSystem D))
      → Memory
      → FileSystem D
      → Handle
      → Option (ℕ × Memory × FileSystem D)
  with_file f buffer s free = some (0, buffer, s)
  with_file f buffer s (file h) = f s h
  with_file f buffer s (directory _) = some (0, buffer, s)

  -- kReadFile: the result, the buffer and the state; pstFile is an index of the pool, or NULL.
  unfoldable pub read_file :
      (fuel : ℕ)
      → Memory
      → (size count : ℕ) → Option ℕ
      → FileSystem D
      → Option (ℕ × Memory × FileSystem D)
  unfolding read_rounds set_handle
  read_file fuel buffer size count none s = some (0, buffer, s)
  read_file fuel buffer size count (some i) s =
      with_file (read_handle fuel buffer size count i) buffer s (s.handle_pool i)

  -- A new cluster at the end of the file: it becomes the last one, and the one before links to it.
  -- kMemSet of FILESYSTEM_LASTCLUSTER bytes is of -1 bytes and clears none.
  unfoldable pub append_cluster : FileHandle → Step D FileHandle
  unfolding find_free_cluster set_cluster_link_data
  append_cluster h = do
    cluster ← find_free_cluster dev
    set_cluster_link_data dev cluster last_cluster
    on_failure (set_cluster_link_data dev h.previous_cluster_index cluster)
        (ignore (set_cluster_link_data dev cluster free_cluster))
    give (record h { current_cluster_index = cluster })

  -- The start of a round of kWriteFile: the handle, with the temporary buffer filled.
  unfoldable pub prepare : (total count : ℕ) → FileHandle → Step D FileHandle
  unfolding append_cluster read_area
  prepare total count h s =
      if h.current_cluster_index == last_cluster
      then append_cluster h s
      else if not (h.current_offset % cluster_size == 0) || ltb (total - count) cluster_size
      then (read_area dev data_area h.current_cluster_index >> give h) s
      else (some h, s)

  abbrev pub written_round :
      (total : ℕ) → Transfer D → Option (Unit {0}) × FileSystem D → Bool × Transfer D
  written_round total t (none, s) = (false, record t { system = s })
  written_round total t (some _, s) = end_of_round (counted total (record t { system = s }))

  -- The copy into the temporary buffer, and its cluster written.
  abbrev pub put_bytes :
      (total : ℕ) → Transfer D → Option FileHandle × FileSystem D → Bool × Transfer D
  put_bytes total t (none, s) = (false, record t { system = s })
  put_bytes total t (some h, s) =
      written_round total (record t { handle = h })
        ((change (λ s. record s {
          temp_buffer =
              copy_at s.temp_buffer (h.current_offset % cluster_size) t.buffer t.count
                (copy_size total (record t { handle = h }));
        })
            >> write_area dev data_area h.current_cluster_index)
          s)

  unfoldable pub write_round : (total : ℕ) → Transfer D → Bool × Transfer D
  unfolding prepare write_area end_of_round
  write_round total t = put_bytes total t (prepare total t.count t.handle t.system)

  unfoldable pub write_rounds : (fuel total : ℕ) → Transfer D → Option (Transfer D)
  unfolding write_round
  write_rounds zero total t = none
  write_rounds (suc fuel) total t = elim (t.count == total) [
    | true ↦ some t
    | false ↦ or_break (write_rounds fuel total) (write_round total t)
  ]

  -- The size of a file that has grown goes into its entry.
  abbrev pub grown : Option (Transfer D) → Option (Transfer D)
  grown none = none
  grown (some t) =
      let h = record t.handle { file_size = t.handle.current_offset } in
      if ltb t.handle.file_size t.handle.current_offset
      then some (record t { handle = h; system = (update_directory_entry dev h t.system).1 })
      else some t

  abbrev pub write_handle :
      (fuel : ℕ)
      → Memory
      → (size count file : ℕ) → FileSystem D
      → FileHandle
      → Option (ℕ × Memory × FileSystem D)
  write_handle fuel buffer size count i s h = returned size i (
      grown (
        write_rounds fuel ((size * count) % 2 ^ 32)
          (record { system = s; handle = h; buffer = buffer; count = 0 })))

  -- kWriteFile
  unfoldable pub write_file :
      (fuel : ℕ)
      → Memory
      → (size count : ℕ) → Option ℕ
      → FileSystem D
      → Option (ℕ × Memory × FileSystem D)
  unfolding write_rounds update_directory_entry set_handle
  write_file fuel buffer size count none s = some (0, buffer, s)
  write_file fuel buffer size count (some i) s =
      with_file (write_handle fuel buffer size count i) buffer s (s.handle_pool i)
