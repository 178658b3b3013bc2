-- ===== src/FileSystem/Table.antt =====
-- kGetClusterLinkData and kSetClusterLinkData against an array of links, without the cache.
use deodeok_os.Base.{
  ℕ, ◌+◌, ◌*◌, ◌-◌, ◌/◌, ◌%◌, ◌^◌, ◌≡◌, ◌≢◌, ◌<◌, ◌≤◌, Bool, true, false, not, ◌==◌, ltb, leb, ◌&&◌,
  if◌then◌else◌, some, refl, arith, ap, ap₂, ◌∙◌, sym, Bool-cases, inl, inr, ne→==,
}
use native.Mathlib.Decide.{ℕ_discrete}
use deodeok_os.Memory.{Memory}
use deodeok_os.FileSystem.State.{
  FileSystem, BlockDevice, dword, set_dword, then_step, then_some, require, require-true,
}
use deodeok_os.FileSystem.Sectors.{
  link_area, read_area, write_area, read_without_cache, write_without_cache,
}
use deodeok_os.FileSystem.Links.{get_cluster_link_data, set_cluster_link_data}
use deodeok_os.FileSystem.Disk.{IsDisk, dword-set_dword, dword-agree}

-- A mounted file system whose link table lies on the disk, without the cache.
pub record IsTable {D : Type 0} (capacity : ℕ) (s : FileSystem D) : Type 0 where
  pub mounted : s.mounted ≡ true
  pub uncached : s.cache_enable ≡ false
  pub on_disk : s.cluster_link_area_start_address + s.cluster_link_area_size ≤ capacity
  pub small : capacity < 2 ^ 32

-- The cluster's link stands in the table.
abbrev pub InTable : {D : Type 0} → FileSystem D → ℕ → Type 0
InTable s c = c / 128 < s.cluster_link_area_size

-- The link of a cluster on the disk.
unfoldable pub link_of : {D : Type 0} → (D → ℕ → Memory) → FileSystem D → ℕ → ℕ
link_of sector s c = dword (sector s.device (s.cluster_link_area_start_address + c / 128)) (c % 128)

-- Only the temporary buffer, the device and the start of the search for free clusters differ.
pub record SameLayout {D : Type 0} (s s' : FileSystem D) : Type 0 where
  pub mounted : s'.mounted ≡ s.mounted
  pub cache_enable : s'.cache_enable ≡ s.cache_enable
  pub start : s'.cluster_link_area_start_address ≡ s.cluster_link_area_start_address
  pub size : s'.cluster_link_area_size ≡ s.cluster_link_area_size
  pub total : s'.total_cluster_count ≡ s.total_cluster_count

pub IsTable-SameLayout :
    {D : Type 0} {capacity : ℕ} {s s' : FileSystem D}
    → SameLayout s s'
    → IsTable capacity s
    → IsTable capacity s'
IsTable-SameLayout e t = record {
  mounted = e.mounted ∙ t.mounted;
  uncached = e.cache_enable ∙ t.uncached;
  on_disk = rw (e.start, e.size) t.on_disk;
  small = t.small;
}

module _ {D : Type 0} {dev : BlockDevice D} {capacity : ℕ} {sector : D → ℕ → Memory}
    (disk : IsDisk dev capacity sector) where
  module _ (s : FileSystem D) (t : IsTable capacity s) (offset : ℕ)
      (lt : offset < s.cluster_link_area_size) where
    abbrev pub lba : ℕ
    lba = s.cluster_link_area_start_address + offset

    abbrev pub read : ℕ × Memory × D
    read = dev.read_sector s.device lba 1 s.temp_buffer

    abbrev pub after_read : FileSystem D
    after_read = record s { temp_buffer = read.1; device = read.2 }

    fits : lba + 1 ≤ capacity
    fits = omega (arith, t.on_disk)

    lba_small : (offset + s.cluster_link_area_start_address) % 2 ^ 32 ≡ lba
    lba_small = omega (arith, t.on_disk, t.small)

    read_count_one : read.0 ≡ 1
    read_count_one = disk.read_count s.device lba 1 s.temp_buffer (omega arith) fits

    pub read_link : read_area dev link_area offset s ≡ (some tt, after_read)
    unfolding read_area read_without_cache require
    read_link = rw (t.uncached, lba_small, read_count_one) refl

    pub read_temp : (i : ℕ) → i < 512 → after_read.temp_buffer i ≡ sector s.device lba i
    read_temp i h =
        disk.read_bytes s.device lba 1 s.temp_buffer (omega arith) fits i (omega arith)
        ∙ ap₂ (λ a b. sector s.device a b) (omega arith) (omega arith)

    pub read_sectors : (l i : ℕ) → sector after_read.device l i ≡ sector s.device l i
    read_sectors l i = disk.read_same s.device lba 1 s.temp_buffer (omega arith) fits l i

    abbrev pub write : ℕ × D
    write = dev.write_sector s.device lba 1 s.temp_buffer

    abbrev pub after_write : FileSystem D
    after_write = record s { device = write.1 }

    write_count_one : write.0 ≡ 1
    write_count_one = disk.write_count s.device lba 1 s.temp_buffer (omega arith) fits

    pub write_link : write_area dev link_area offset s ≡ (some tt, after_write)
    unfolding write_area write_without_cache require
    write_link = rw (t.uncached, lba_small, write_count_one) refl

    pub write_sectors :
        (l i : ℕ)
        → i < 512
        → sector after_write.device l i
          ≡ (if l == lba then s.temp_buffer i else sector s.device l i)
    write_sectors l i h =
        disk.write_bytes s.device lba 1 s.temp_buffer (omega arith) fits l i h ∙ pick l i
      where
        pick :
            (l i : ℕ)
            → (if leb lba l && ltb l (lba + 1)
                then s.temp_buffer ((l - lba) * 512 + i)
                else sector s.device l i)
              ≡ (if l == lba then s.temp_buffer i else sector s.device l i)
        pick l i = elim (Bool-cases (l == lba)) [ inl e ↦ ground arith | inr e ↦ ground arith ]

  -- kGetClusterLinkData gives the cluster's link on the disk.
  pub get_link :
      (s : FileSystem D) (t : IsTable capacity s) (c : ℕ) (lt : InTable s c)
      → get_cluster_link_data dev c s ≡ (some (link_of sector s c), after_read s t (c / 128) lt)
  unfolding get_cluster_link_data link_of then_step
  get_link s t c lt =
      let guard : not (ltb s.cluster_link_area_size (c / 128)) ≡ true = ground arith in
      then_some _ (require-true s t.mounted)
      ∙ then_some _ (require-true s guard)
      ∙ then_some _ (read_link s t (c / 128) lt)
      ∙ ap (λ (v : ℕ). (some v, after_read s t (c / 128) lt))
          (dword-agree _ _ (c % 128) (omega arith) (read_temp s t (c / 128) lt))

  -- Reading changes no link.
  pub link_of-read :
      (s : FileSystem D) (t : IsTable capacity s) (offset : ℕ)
      (lt : offset < s.cluster_link_area_size) (c : ℕ)
      → link_of sector (after_read s t offset lt) c ≡ link_of sector s c
  unfolding link_of
  link_of-read s t offset lt c =
      dword-agree _ _ (c % 128) (omega arith)
        (λ i h. read_sectors s t offset lt (s.cluster_link_area_start_address + c / 128) i)

  pub read-SameLayout :
      (s : FileSystem D) (t : IsTable capacity s) (offset : ℕ)
      (lt : offset < s.cluster_link_area_size)
      → SameLayout s (after_read s t offset lt)
  read-SameLayout s t offset lt = record {
    mounted = refl;
    cache_enable = refl;
    start = refl;
    size = refl;
    total = refl;
  }

  module _ (s : FileSystem D) (t : IsTable capacity s) (c v : ℕ) (small : v < 2 ^ 32)
      (lt : InTable s c) where
    abbrev pub loaded : FileSystem D
    loaded = after_read s t (c / 128) lt

    abbrev pub altered : FileSystem D
    altered = record loaded { temp_buffer = set_dword loaded.temp_buffer (c % 128) v }

    pub altered-IsTable : IsTable capacity altered
    altered-IsTable = record {
      mounted = t.mounted;
      uncached = t.uncached;
      on_disk = t.on_disk;
      small = t.small;
    }

    abbrev pub after_set : FileSystem D
    after_set = after_write altered altered-IsTable (c / 128) lt

    pub set_link : set_cluster_link_data dev c v s ≡ (some tt, after_set)
    unfolding set_cluster_link_data then_step
    set_link =
        then_some _ (require-true s t.mounted)
        ∙ then_some _ (read_link s t (c / 128) lt)
        ∙ write_link altered altered-IsTable (c / 128) lt

    pub set-SameLayout : SameLayout s after_set
    set-SameLayout = record {
      mounted = refl;
      cache_enable = refl;
      start = refl;
      size = refl;
      total = refl;
    }

    same_sector :
        (c' : ℕ)
        → c' / 128 ≡ c / 128
        → link_of sector after_set c' ≡ (if c' == c then v else link_of sector s c')
    unfolding link_of
    same_sector c' e =
        dword-agree altered.temp_buffer _ (c' % 128) (omega arith)
          (λ i h. write_sectors altered altered-IsTable (c / 128) lt _ i h ∙ ground (arith, e))
        ∙ dword-set_dword loaded.temp_buffer (c % 128) (c' % 128) v small
        ∙ ap₂ (λ (b : Bool) (x : ℕ). if b then v else x) (ground (arith, e))
            (dword-agree _ _ (c' % 128) (omega arith) (λ i h.
              read_temp s t (c / 128) lt i h
              ∙ ap (λ k. sector s.device (s.cluster_link_area_start_address + k) i) (sym e)))

    other_sector :
        (c' : ℕ)
        → c' / 128 ≢ c / 128
        → link_of sector after_set c' ≡ (if c' == c then v else link_of sector s c')
    unfolding link_of
    other_sector c' ne =
        dword-agree (sector s.device (s.cluster_link_area_start_address + c' / 128)) _ (c' % 128)
          (omega arith)
          (λ i h.
            write_sectors altered altered-IsTable (c / 128) lt _ i h
            ∙ ground (
              arith,
              read_sectors s t (c / 128) lt (s.cluster_link_area_start_address + c' / 128) i,
            ))
        ∙ ap (λ (b : Bool). if b then v else link_of sector s c')
            (sym (ne→== c' c (λ e. ne (ap (λ (x : ℕ). x / 128) e))))

    pub link_of-set :
        (x : ℕ) → link_of sector after_set x ≡ (if x == c then v else link_of sector s x)
    link_of-set x = elim (ℕ_discrete (x / 128) (c / 128)) [
      | yes e ↦ same_sector x e
      | no n ↦ other_sector x n
    ]

    -- kSetClusterLinkData succeeds, and kGetClusterLinkData then gives each cluster its link: the
    -- new one to the cluster that was set, and to every other the one it had.
    pub set-get :
        (set_cluster_link_data dev c v s).0 ≡ some tt
        × ((x : ℕ)
            → InTable s x
            → (get_cluster_link_data dev x (set_cluster_link_data dev c v s).1).0
              ≡ some (if x == c then v else link_of sector s x))
    set-get = (
      rw set_link refl,
      λ x h.
          rw (set_link, get_link after_set (IsTable-SameLayout set-SameLayout t) x h)
            (ap some (link_of-set x)),
    )
