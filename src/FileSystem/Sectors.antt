-- ===== src/FileSystem/Sectors.antt =====
-- FileSystem.c: sectors of the link table and clusters, read and written with and without the cache.
-- kReadClusterLinkTable, kReadCluster and kWriteCluster have no return statement: their result is
-- that of the call they end with, which is in the return register.
use deodeok_os.Base.{
  ℕ, zero, suc, ◌+◌, ◌*◌, ◌%◌, ◌^◌, Bool, true, false, if◌then◌else◌, Option, none, some, List, [],
  ◌∷◌, get_elem?,
}
use deodeok_os.Base.Cells.{update}
use deodeok_os.Memory.{Memory}
use deodeok_os.CacheManager.{
  CacheBuffer, CacheManager, find_cache_buffer, allocate_cache_buffer, get_victim_in_cache_buffer,
}
use deodeok_os.FileSystem.State.{
  FileSystem, BlockDevice, Step, ◌>>=◌, ◌>>◌, give, require, change, copy, to_bool,
  sectors_per_cluster, cluster_size,
}

-- CACHE_CLUSTERLINKTABLEAREA and CACHE_DATAAREA.
pub data Area : Type 0 where
  link_area data_area : Area

abbrev pub table_index : Area → ℕ
table_index link_area = 0
table_index data_area = 1

abbrev pub area_bytes : Area → ℕ
area_bytes link_area = 512
area_bytes data_area = cluster_size

abbrev pub set_buffer : (CacheBuffer → CacheBuffer) → ℕ → List CacheBuffer → List CacheBuffer
set_buffer f i [] = []
set_buffer f zero (b ∷ bs) = f b ∷ bs
set_buffer f (suc i) (b ∷ bs) = b ∷ set_buffer f i bs

module _ {D : Type 0} where
  -- A function of CacheManager.c on the cache of the state; a table that is not there gives NULL.
  abbrev pub with_cache : (CacheManager → Option (Option ℕ × CacheManager)) → Step D ℕ
  with_cache f s = elim (f s.cache) [ none ↦ (none, s) | some (r, c) ↦ (r, record s { cache = c }) ]

  -- The buffer that a pointer, its index in the table, is to.
  abbrev pub buffer_at : Area → ℕ → Step D CacheBuffer
  buffer_at a i s = (get_elem? (s.cache (table_index a)).buffers i, s)

  -- kMemCpy(pbBuffer, pstCacheBuffer->pbBuffer, size), to the temporary buffer.
  abbrev pub from_buffer : Area → CacheBuffer → Step D (Unit {0})
  from_buffer a b =
      change
        λ s. record s { temp_buffer = copy s.temp_buffer (s.cache_bytes b.buffer) (area_bytes a) }

  -- kMemCpy(pstCacheBuffer->pbBuffer, pbBuffer, size).
  abbrev pub to_buffer : Area → CacheBuffer → Step D (Unit {0})
  to_buffer a b = change λ s. record s {
    cache_bytes =
        update s.cache_bytes b.buffer (copy (s.cache_bytes b.buffer) s.temp_buffer (area_bytes a));
  }

  abbrev pub mark_buffer : Area → ℕ → (CacheBuffer → CacheBuffer) → Step D (Unit {0})
  mark_buffer a i f = change λ s. record s {
    cache = update s.cache (table_index a) (record (s.cache (table_index a)) {
      buffers = set_buffer f i (s.cache (table_index a)).buffers;
    });
  }

module _ {D : Type 0} (dev : BlockDevice D) where
  -- The LBA and the number of sectors of a link sector or a cluster; both are a DWORD and an `int`.
  abbrev pub lba_of : Area → FileSystem D → ℕ → ℕ
  lba_of link_area s offset = (offset + s.cluster_link_area_start_address) % 2 ^ 32
  lba_of data_area s offset = (offset * sectors_per_cluster + s.data_area_start_address) % 2 ^ 32

  abbrev pub sectors_of : Area → ℕ
  sectors_of link_area = 1
  sectors_of data_area = sectors_per_cluster

  -- kInternalReadClusterLinkTableWithoutCache and kInternalReadClusterWithoutCache, to the temporary
  -- buffer.
  unfoldable pub read_without_cache : Area → ℕ → Step D (Unit {0})
  read_without_cache a offset s =
      let (n, m, d) = dev.read_sector s.device (lba_of a s offset) (sectors_of a) s.temp_buffer in
      require (to_bool n) (record s { temp_buffer = m; device = d })

  -- kInternalWriteClusterLinkTableWithoutCache and kInternalWriteClusterWithoutCache.
  unfoldable pub write_without_cache : Area → ℕ → Memory → Step D (Unit {0})
  write_without_cache a offset m s =
      let (n, d) = dev.write_sector s.device (lba_of a s offset) (sectors_of a) m in
      require (to_bool n) (record s { device = d })

  -- The victim's contents are written back if they have changed.
  abbrev pub write_back : Area → ℕ → CacheBuffer → Step D ℕ
  write_back a i b s =
      if b.changed
      then (write_without_cache a b.tag (s.cache_bytes b.buffer) >> give i) s
      else (some i, s)

  abbrev pub or_victim : Area → Option ℕ × FileSystem D → Option ℕ × FileSystem D
  or_victim a (some i, s) = (some i, s)
  or_victim a (none, s) =
      (do
        i ← with_cache (λ c. get_victim_in_cache_buffer c (table_index a))
        b ← buffer_at a i
        write_back a i b)
        s

  -- kAllocateCacheBufferWithFlush
  unfoldable pub allocate_cache_buffer_with_flush : Area → Step D ℕ
  unfolding write_without_cache
  allocate_cache_buffer_with_flush a s =
      or_victim a (with_cache (λ c. allocate_cache_buffer c (table_index a)) s)

  -- A new buffer for the contents of the temporary buffer.
  unfoldable pub fill_buffer : Area → (tag : ℕ) → (changed : Bool) → Step D (Unit {0})
  unfolding allocate_cache_buffer_with_flush
  fill_buffer a tag changed = do
    i ← allocate_cache_buffer_with_flush a
    b ← buffer_at a i
    to_buffer a b
    mark_buffer a i (λ b. record b { tag = tag; changed = changed })

  -- kInternalReadClusterLinkTableWithCache and kInternalReadClusterWithCache, by the buffer found.
  unfoldable pub read_found : Area → ℕ → Option ℕ × FileSystem D → Option (Unit {0}) × FileSystem D
  unfolding read_without_cache fill_buffer
  read_found a offset (some i, s) = (buffer_at a i >>= from_buffer a) s
  read_found a offset (none, s) = (read_without_cache a offset >> fill_buffer a offset false) s

  unfoldable pub read_with_cache : Area → ℕ → Step D (Unit {0})
  unfolding read_found
  read_with_cache a offset s =
      read_found a offset (with_cache (λ c. find_cache_buffer c (table_index a) offset) s)

  -- kInternalWriteClusterLinkTableWithCache and kInternalWriteClusterWithCache.
  unfoldable pub write_found : Area → ℕ → Option ℕ × FileSystem D → Option (Unit {0}) × FileSystem D
  unfolding fill_buffer
  write_found a offset (some i, s) =
      (do b ← buffer_at a i; to_buffer a b; mark_buffer a i (λ b. record b { changed = true })) s
  write_found a offset (none, s) = fill_buffer a offset true s

  unfoldable pub write_with_cache : Area → ℕ → Step D (Unit {0})
  unfolding write_found
  write_with_cache a offset s =
      write_found a offset (with_cache (λ c. find_cache_buffer c (table_index a) offset) s)

  -- kReadClusterLinkTable and kReadCluster, to the temporary buffer.
  unfoldable pub read_area : Area → ℕ → Step D (Unit {0})
  unfolding read_without_cache read_with_cache
  read_area a offset s =
      if s.cache_enable then read_with_cache a offset s else read_without_cache a offset s

  -- kWriteClusterLinkTable and kWriteCluster, from the temporary buffer.
  unfoldable pub write_area : Area → ℕ → Step D (Unit {0})
  unfolding write_without_cache write_with_cache
  write_area a offset s =
      if s.cache_enable
      then write_with_cache a offset s
      else write_without_cache a offset s.temp_buffer s
