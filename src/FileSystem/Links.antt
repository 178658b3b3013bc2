-- ===== src/FileSystem/Links.antt =====
-- FileSystem.c: the table of the cluster links, 128 to a sector.
use deodeok_os.Base.{
  ℕ, zero, suc, ◌+◌, ◌*◌, ◌-◌, ◌/◌, ◌%◌, ◌^◌, Bool, true, false, not, ◌==◌, ltb, if◌then◌else◌,
  Option, none, some,
}
use deodeok_os.Memory.{Memory, load_bytes}
use deodeok_os.FileSystem.State.{
  FileSystem, BlockDevice, Step, ◌>>=◌, ◌>>◌, give, require, ask, change, last_cluster,
  free_cluster, dword, set_dword,
}
use deodeok_os.FileSystem.Sectors.{link_area, read_area, write_area}

-- The loop over the links of a sector from `j` on, `n` of them left: the first that is free.
unfoldable pub free_link : Memory → (n j : ℕ) → Option ℕ
unfolding load_bytes
free_link m zero j = none
free_link m (suc n) j =
    let rest = free_link m n (j + 1) in if dword m j == free_cluster then some j else rest

module _ {D : Type 0} (dev : BlockDevice D) where
  -- dwLinkCountInSector and dwCurrentSectorOffset of round `i`.
  abbrev pub link_count : FileSystem D → (last i : ℕ) → ℕ
  link_count s last i =
      if (last + i) % 2 ^ 32 == (s.cluster_link_area_size + 2 ^ 32 - 1) % 2 ^ 32
      then s.total_cluster_count % 128
      else 128

  abbrev pub sector_of_round : FileSystem D → (last i : ℕ) → ℕ
  sector_of_round s last i = (last + i) % 2 ^ 32 % s.cluster_link_area_size

  abbrev pub found_in : (sector : ℕ) → ℕ → FileSystem D → Option ℕ × FileSystem D
  found_in sector j s = (
    some ((sector * 128 + j) % 2 ^ 32),
    record s { last_allocated_cluster_link_sector_offset = sector },
  )

  abbrev pub or_next_round :
      (FileSystem D → Option ℕ × FileSystem D)
      → (sector : ℕ) → FileSystem D
      → Option ℕ
      → Option ℕ × FileSystem D
  or_next_round rest sector s none = rest s
  or_next_round rest sector s (some j) = found_in sector j s

  -- A sector that cannot be read ends the search.
  abbrev pub search_sector :
      (FileSystem D → Option ℕ × FileSystem D)
      → (sector count : ℕ) → Option (Unit {0}) × FileSystem D
      → Option ℕ × FileSystem D
  search_sector rest sector count (none, s) = (none, s)
  search_sector rest sector count (some _, s) =
      or_next_round rest sector s (free_link s.temp_buffer count 0)

  -- The rounds of kFindFreeCluster from `i` on, `n` of them left; `none` is FILESYSTEM_LASTCLUSTER.
  unfoldable pub free_cluster_from : (last n i : ℕ) → Step D ℕ
  unfolding read_area free_link
  free_cluster_from last zero i s = (none, s)
  free_cluster_from last (suc n) i s =
      search_sector (free_cluster_from last n (i + 1)) (sector_of_round s last i)
        (link_count s last i) (read_area dev link_area (sector_of_round s last i) s)

  -- kFindFreeCluster
  unfoldable pub find_free_cluster : Step D ℕ
  unfolding free_cluster_from
  find_free_cluster s =
      if s.mounted
      then free_cluster_from s.last_allocated_cluster_link_sector_offset s.cluster_link_area_size 0
          s
      else (none, s)

  unfoldable pub set_cluster_link_data : (cluster link : ℕ) → Step D (Unit {0})
  unfolding read_area write_area
  set_cluster_link_data cluster link = do
    mounted ← ask (λ s. s.mounted)
    require mounted
    read_area dev link_area (cluster / 128)
    change (λ s. record s { temp_buffer = set_dword s.temp_buffer (cluster % 128) link })
    write_area dev link_area (cluster / 128)

  unfoldable pub get_cluster_link_data : (cluster : ℕ) → Step D ℕ
  unfolding read_area
  get_cluster_link_data cluster = do
    mounted ← ask (λ s. s.mounted)
    require mounted
    size ← ask (λ s. s.cluster_link_area_size)
    require (not (ltb size (cluster / 128)))
    read_area dev link_area (cluster / 128)
    ask (λ s. dword s.temp_buffer (cluster % 128))

  -- The body of the loop of kFreeClusterUntilEnd: dwNextClusterIndex, if it does not return.
  unfoldable pub unlink_cluster : (cluster : ℕ) → Step D ℕ
  unfolding get_cluster_link_data set_cluster_link_data
  unlink_cluster cluster = do
    next ← get_cluster_link_data cluster
    set_cluster_link_data cluster free_cluster
    give next

  abbrev pub or_return :
      (ℕ → FileSystem D → Option (Bool × FileSystem D))
      → Option ℕ × FileSystem D
      → Option (Bool × FileSystem D)
  or_return rest (none, s) = some (false, s)
  or_return rest (some next, s) = rest next s

  -- kFreeClusterUntilEnd on fuel; the outer `none` is that it ran out.
  unfoldable pub free_cluster_until_end :
      (fuel cluster : ℕ) → FileSystem D → Option (Bool × FileSystem D)
  unfolding unlink_cluster
  free_cluster_until_end zero cluster s = none
  free_cluster_until_end (suc fuel) cluster s = elim (cluster == last_cluster) [
    | true ↦ some (true, s)
    | false ↦ or_return (free_cluster_until_end fuel) (unlink_cluster cluster s)
  ]
