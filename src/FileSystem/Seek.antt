-- ===== src/FileSystem/Seek.antt =====
-- FileSystem.c: kWriteZero and kSeekFile. An `int` is its 32-bit pattern.
use deodeok_os.Base.{
  ℕ, zero, suc, ◌+◌, ◌-◌, ◌/◌, ◌%◌, ◌^◌, Bool, true, false, ◌==◌, leb, ltb, ◌&&◌, ◌||◌,
  if◌then◌else◌, Option, none, some,
}
use deodeok_os.Memory.{Memory}
use deodeok_os.FileSystem.State.{
  FileSystem, BlockDevice, FileHandle, Handle, free, file, directory, Step, ◌>>=◌, give,
  cluster_size,
}
use deodeok_os.FileSystem.Links.{get_cluster_link_data}
use deodeok_os.FileSystem.Directory.{set_handle}
use deodeok_os.FileSystem.ReadWrite.{min, write_file}

-- FILESYSTEM_SEEK_SET, FILESYSTEM_SEEK_CUR and FILESYSTEM_SEEK_END; another value leaves dwRealOffset
-- uninitialised.
pub data Origin : Type 0 where
  seek_set seek_cur seek_end : Origin

abbrev pub is_negative : ℕ → Bool
is_negative offset = leb (2 ^ 31) offset

-- `base` plus the offset; 0 if that is before the start.
abbrev pub moved_from : (base offset : ℕ) → ℕ
moved_from base offset =
    if is_negative offset && leb base (2 ^ 32 - offset) then 0 else (base + offset) % 2 ^ 32

-- dwRealOffset
unfoldable pub real_offset : FileHandle → (offset : ℕ) → Origin → ℕ
real_offset h offset seek_set = if is_negative offset || (offset == 0) then 0 else offset
real_offset h offset seek_cur = moved_from h.current_offset offset
real_offset h offset seek_end = moved_from h.file_size offset

-- dwMoveCount and dwStartClusterIndex.
unfoldable pub seek_plan : FileHandle → (real : ℕ) → ℕ × ℕ
seek_plan h real =
    let last = h.file_size / cluster_size in
    let to = real / cluster_size in
    let current = h.current_offset / cluster_size in
    if ltb last to
    then ((last + 2 ^ 32 - current) % 2 ^ 32, h.current_cluster_index)
    else if leb current to
    then (to - current, h.current_cluster_index)
    else (to, h.start_cluster_index)

abbrev pub zeros : Memory
zeros _ = 0

-- dwCurrentOffset of the handle in the pool.
abbrev pub offset_of : ℕ → Handle → Handle
offset_of offset free = free
offset_of offset (file h) = file (record h { current_offset = offset })
offset_of offset (directory d) = directory d

abbrev pub set_offset : {D : Type 0} → (file offset : ℕ) → FileSystem D → FileSystem D
set_offset i offset s = (set_handle i (offset_of offset (s.handle_pool i)) s).1

module _ {D : Type 0} (dev : BlockDevice D) where
  -- The loop along the links, `n` left: the clusters before and at the end of it.
  unfoldable pub follow_links : (n previous current : ℕ) → Step D (ℕ × ℕ)
  unfolding get_cluster_link_data
  follow_links zero previous current = give (previous, current)
  follow_links (suc n) previous current = do
    next ← get_cluster_link_data dev current
    follow_links n current next

  -- The handle at the clusters that were found, or at the start of the file.
  abbrev pub at_clusters : FileHandle → (moves start : ℕ) → ℕ × ℕ → FileHandle
  at_clusters h moves start (previous, current) =
      if ltb 0 moves
      then record h { previous_cluster_index = previous; current_cluster_index = current }
      else if start == h.start_cluster_index
      then record h {
        previous_cluster_index = h.start_cluster_index;
        current_cluster_index = h.start_cluster_index;
      }
      else h

  -- The rounds of kWriteZero: `none` is that the fuel ran out, the flag is the result.
  abbrev pub or_failed :
      (FileSystem D → Option (Bool × FileSystem D))
      → (wanted : ℕ) → Option (ℕ × Memory × FileSystem D)
      → Option (Bool × FileSystem D)
  or_failed rest wanted none = none
  or_failed rest wanted (some (n, _, s)) = if n == wanted then rest s else some (false, s)

  unfoldable pub zero_rounds :
      (fuel remain : ℕ) → Option ℕ → FileSystem D → Option (Bool × FileSystem D)
  unfolding write_file
  zero_rounds zero remain p s = none
  zero_rounds (suc fuel) remain p s = elim (remain == 0) [
    | true ↦ some (true, s)
    | false ↦
        or_failed (zero_rounds fuel (remain - min remain cluster_size) p) (min remain cluster_size)
          (write_file dev (suc cluster_size) zeros 1 (min remain cluster_size) p s)
  ]

  -- kWriteZero; `buffer` is whether kAllocateMemory has a buffer.
  unfoldable pub write_zero :
      (fuel : ℕ)
      → (buffer : Bool) → Option ℕ
      → (count : ℕ) → FileSystem D
      → Option (Bool × FileSystem D)
  unfolding zero_rounds
  write_zero fuel buffer none count s = some (false, s)
  write_zero fuel false (some i) count s = some (false, s)
  write_zero fuel true (some i) count s = zero_rounds fuel count (some i) s

  abbrev pub after_zeros :
      (file real : ℕ) → Option (Bool × FileSystem D) → Option (ℕ × FileSystem D)
  after_zeros i real none = none
  after_zeros i real (some (false, s)) = some (0, s)
  after_zeros i real (some (true, s)) = some (0, set_offset i real s)

  -- kSeekFile from the links on; -1 if a link cannot be read.
  abbrev pub seek_moved :
      (fuel : ℕ)
      → (buffer : Bool) → (file real : ℕ) → FileHandle
      → (moves start : ℕ) → Option (ℕ × ℕ) × FileSystem D
      → Option (ℕ × FileSystem D)
  seek_moved fuel buffer i real h moves start (none, s) = some (0xFFFF_FFFF, s)
  seek_moved fuel buffer i real h moves start (some found, s) =
      let h1 = at_clusters h moves start found in
      let h2 = record h1 { current_offset = h1.file_size } in
      let grown = after_zeros i real (
        write_zero fuel buffer (some i) ((real + 2 ^ 32 - h1.file_size) % 2 ^ 32)
          (set_handle i (file h2) s).1) in
      if ltb (h.file_size / cluster_size) (real / cluster_size)
      then grown
      else some (0, (set_handle i (file (record h1 { current_offset = real })) s).1)

  abbrev pub seek_handle :
      (fuel : ℕ)
      → (buffer : Bool) → (file offset : ℕ) → Origin
      → FileSystem D
      → Handle
      → Option (ℕ × FileSystem D)
  seek_handle fuel buffer i offset origin s free = some (0, s)
  seek_handle fuel buffer i offset origin s (directory _) = some (0, s)
  seek_handle fuel buffer i offset origin s (file h) =
      let real = real_offset h offset origin in
      let (moves, start) = seek_plan h real in
      seek_moved fuel buffer i real h moves start (follow_links moves start start s)

  -- kSeekFile
  unfoldable pub seek_file :
      (fuel : ℕ)
      → (buffer : Bool) → Option ℕ
      → (offset : ℕ) → Origin
      → FileSystem D
      → Option (ℕ × FileSystem D)
  unfolding real_offset seek_plan follow_links write_zero set_handle
  seek_file fuel buffer none offset origin s = some (0, s)
  seek_file fuel buffer (some i) offset origin s =
      seek_handle fuel buffer i offset origin s (s.handle_pool i)
