-- ===== src/FileSystem/Fresh.antt =====
-- kFormat and then kMount on a disk.
use deodeok_os.Base.{
  ℕ, zero, suc, ◌+◌, ◌*◌, ◌-◌, ◌/◌, ◌%◌, ◌^◌, ◌≡◌, ◌<◌, ◌≤◌, Bool, true, false, ◌==◌, ◌&&◌, leb,
  ltb, if◌then◌else◌, Option, some, refl, arith, ap, ap₂, ◌∙◌, sym, eq→==, ne→==, subst,
}
use native.Mathlib.Decide.{ℕ_discrete}
use deodeok_os.Memory.{Memory, load_bytes, store_bytes}
use deodeok_os.FileSystem.State.{
  FileSystem, BlockDevice, ◌>>◌, filesystem_signature, sectors_per_cluster, last_cluster,
  free_cluster, dword, set_dword, then_step, then_some, require, require-true,
}
use deodeok_os.FileSystem.Format.{
  read_total, read_mbr, write_sector, format_sectors, format_mbr, clear, format_cluster_count,
  format_link_sector_count, mount_from_buffer, mount, format, signature_offset, reserved_offset,
  link_count_offset, total_count_offset, discard,
}
use deodeok_os.FileSystem.Disk.{IsDisk, dword-agree, dword-set_dword}
use deodeok_os.FileSystem.Table.{link_of}
use deodeok_os.FileSystem.Layout.{format_layout, mbr-fields}

-- The device says how many sectors it has, and changes none by that.
pub record Informs {D : Type 0} (dev : BlockDevice D) (total : ℕ) (sector : D → ℕ → Memory)
    : Type 0 where
  pub total_sectors : (d : D) (m : Memory) → (dev.read_information d m).0 ≡ some total
  pub unchanged :
      (d : D) (m : Memory) (l i : ℕ) → sector (dev.read_information d m).2 l i ≡ sector d l i

-- A mounted file system of `links` sectors of links and `clusters` clusters: the areas lie one behind
-- the other, the root directory is cluster 0, which has no next cluster, and all others are free.
pub record IsFresh {D : Type 0} (sector : D → ℕ → Memory) (links clusters : ℕ) (s : FileSystem D)
    : Type 0 where
  pub is_mounted : s.mounted ≡ true
  pub link_start : s.cluster_link_area_start_address ≡ 1
  pub link_size : s.cluster_link_area_size ≡ links
  pub data_start : s.data_area_start_address ≡ 1 + links
  pub total_count : s.total_cluster_count ≡ clusters
  pub link :
      (c : ℕ)
      → c / 128 < links
      → link_of sector s c ≡ (if c == 0 then last_cluster else free_cluster)

abbrev zeros : Memory
zeros _ = 0

-- The sector of the link table that the loop of kFormat writes in round `j`.
abbrev fresh : ℕ → Memory
fresh j = set_dword zeros 0 (if j == 0 then last_cluster else free_cluster)

cleared_but_link :
    (m : Memory) (v k : ℕ)
    → ((k : ℕ) → 4 ≤ k → k < 512 → m k ≡ 0)
    → k < 512
    → set_dword m 0 v k ≡ set_dword zeros 0 v k
unfolding store_bytes
cleared_but_link m v k h lt = ground (arith, h k)

still_clear :
    (m : Memory) (v k : ℕ)
    → ((k : ℕ) → 4 ≤ k → k < 512 → m k ≡ 0)
    → 4 ≤ k
    → k < 512
    → set_dword m 0 v k ≡ 0
unfolding store_bytes
still_clear m v k h lo lt = ground (arith, h k)

-- The sectors of a round and those of the rounds after it.
one_more :
    (l k n i : ℕ) (m : Memory) (x y : ℕ)
    → ((k : ℕ) → 4 ≤ k → k < 512 → m k ≡ 0)
    → k < 512
    → y
      ≡ (if l == i + 1 then set_dword m 0 (if i == 0 then last_cluster else free_cluster) k else x)
    → (if leb (i + 1 + 1) l && ltb l (i + 1 + 1 + n) then fresh (l - 1) k else y)
      ≡ (if leb (i + 1) l && ltb l (i + 1 + suc n) then fresh (l - 1) k else x)
one_more l k n i m x y z lt e = elim (ℕ_discrete l (i + 1)) [
  | yes p ↦
      let j : l - 1 ≡ i = omega arith in
      rw
        (
          e,
          eq→== l (i + 1) p,
          j,
          cleared_but_link m (if i == 0 then last_cluster else free_cluster) k z lt,
        )
        (ground (arith, p))
  | no d ↦ rw (e, ne→== l (i + 1) d) (ground (arith, d))
]

module _ {D : Type 0} {dev : BlockDevice D} {capacity : ℕ} {sector : D → ℕ → Memory}
    (disk : IsDisk dev capacity sector) where
  abbrev with_io : FileSystem D → Memory → D → FileSystem D
  with_io s m d = record s { temp_buffer = m; device = d }

  write_one :
      (s : FileSystem D) (lba : ℕ)
      → lba + 1 ≤ capacity
      → write_sector dev lba s
        ≡ (some tt, with_io s s.temp_buffer (dev.write_sector s.device lba 1 s.temp_buffer).1)
  unfolding write_sector require
  write_one s lba fits = rw (disk.write_count s.device lba 1 s.temp_buffer (omega arith) fits) refl

  written :
      (s : FileSystem D) (lba : ℕ)
      → lba + 1 ≤ capacity
      → (l k : ℕ) → k < 512
      → sector (dev.write_sector s.device lba 1 s.temp_buffer).1 l k
        ≡ (if l == lba then s.temp_buffer k else sector s.device l k)
  written s lba fits l k lt =
      disk.write_bytes s.device lba 1 s.temp_buffer (omega arith) fits l k lt
      ∙ one_sector lba l k (s.temp_buffer) (sector s.device l k)
    where
      one_sector :
          (lba l k : ℕ) (m : Memory) (y : ℕ)
          → (if leb lba l && ltb l (lba + 1) then m ((l - lba) * 512 + k) else y)
            ≡ (if l == lba then m k else y)
      one_sector lba l k m y = ground arith

  -- What the loop leaves on the disk.
  abbrev Cleared : (n i : ℕ) → (d d' : D) → Type 0
  Cleared n i d d' =
      (l k : ℕ)
      → k < 512
      → sector d' l k
        ≡ (if leb (i + 1) l && ltb l (i + 1 + n) then fresh (l - 1) k else sector d l k)

  abbrev LoopEnds : (n i : ℕ) → FileSystem D → Type 0
  LoopEnds n i s =
      (m : Memory) × (d : D) × (format_sectors dev n i s ≡ (some tt, with_io s m d))
      × Cleared n i s.device d

  loop-Ends :
      (n i : ℕ) (s : FileSystem D)
      → ((k : ℕ) → 4 ≤ k → k < 512 → s.temp_buffer k ≡ 0)
      → i + 1 + n ≤ capacity
      → LoopEnds n i s
  unfolding format_sectors then_step
  loop-Ends zero i s z fits = (s.temp_buffer, s.device, refl, λ l k lt. ground arith)
  loop-Ends (suc n) i s z fits =
      let v : ℕ = if i == 0 then last_cluster else free_cluster in
      let t : FileSystem D = record s { temp_buffer = set_dword s.temp_buffer 0 v } in
      let u : FileSystem D =
        with_io t t.temp_buffer (dev.write_sector t.device (i + 1) 1 t.temp_buffer).1 in
      let (m, d, run, after) =
        loop-Ends n (i + 1) u (λ k lo lt. still_clear s.temp_buffer v k z lo lt) (omega arith) in
      (
        m,
        d,
        then_some _ (write_one t (i + 1) (omega arith)) ∙ run,
        λ l k lt.
            after l k lt
            ∙ one_more l k n i (s.temp_buffer) (sector s.device l k) (sector u.device l k) z lt
                (written t (i + 1) (omega arith) l k lt),
      )

  module _ (s : FileSystem D) (some_sector : 1 ≤ capacity) where
    abbrev with_mbr : FileSystem D
    with_mbr =
        with_io s (dev.read_sector s.device 0 1 s.temp_buffer).1
          (dev.read_sector s.device 0 1 s.temp_buffer).2

    read_one : read_mbr dev s ≡ (some tt, with_mbr)
    unfolding read_mbr require
    read_one = rw (disk.read_count s.device 0 1 s.temp_buffer (omega arith) (omega arith)) refl

    mbr_bytes : (k : ℕ) → k < 512 → with_mbr.temp_buffer k ≡ sector s.device 0 k
    mbr_bytes k lt =
        disk.read_bytes s.device 0 1 s.temp_buffer (omega arith) (omega arith) k (omega arith)
        ∙ ap₂ (sector s.device) (omega arith) (omega arith)

    mbr_same : (l k : ℕ) → sector with_mbr.device l k ≡ sector s.device l k
    mbr_same l k = disk.read_same s.device 0 1 s.temp_buffer (omega arith) (omega arith) l k

-- Four bytes of two buffers that agree.
load-agree :
    (m m' : Memory) (a : ℕ)
    → a + 4 ≤ 512
    → ((k : ℕ) → k < 512 → m' k ≡ m k)
    → load_bytes 4 m' a ≡ load_bytes 4 m a
unfolding load_bytes
load-agree m m' a h e = ground (
  arith,
  e a (omega arith),
  e (a + 1) (omega arith),
  e (a + 1 + 1) (omega arith),
  e (a + 1 + 1 + 1) (omega arith),
)

module _ {D : Type 0} {dev : BlockDevice D} {capacity : ℕ} {sector : D → ℕ → Memory}
    (disk : IsDisk dev capacity sector) (total : ℕ) (info : Informs dev total sector)
    (pos : 0 < total) (small : total < 2 ^ 32)
    (room : format_link_sector_count total + 9 ≤ capacity) (s : FileSystem D)
    (uncached : s.cache_enable ≡ false) where
  abbrev links : ℕ
  links = format_link_sector_count total

  abbrev clusters : ℕ
  clusters = format_cluster_count total

  abbrev s1 : FileSystem D
  s1 =
      with_io disk s (dev.read_information s.device s.temp_buffer).1
        (dev.read_information s.device s.temp_buffer).2

  abbrev s2 : FileSystem D
  s2 = with_mbr disk s1 (omega arith)

  abbrev s3 : FileSystem D
  s3 = record s2 { temp_buffer = format_mbr links clusters s2.temp_buffer }

  abbrev s4 : FileSystem D
  s4 = with_io disk s3 s3.temp_buffer (dev.write_sector s3.device 0 1 s3.temp_buffer).1

  abbrev s5 : FileSystem D
  s5 = record s4 { temp_buffer = clear 0 512 s4.temp_buffer }

  loop : LoopEnds disk (links + sectors_per_cluster) 0 s5
  loop = loop-Ends disk (links + sectors_per_cluster) 0 s5 (λ k lo lt. ground arith) (omega arith)

  abbrev formatted : FileSystem D
  formatted = with_io disk s5 loop.0 loop.1

  format_runs : format dev s ≡ (some tt, formatted)
  unfolding format then_step read_total
  format_runs =
      then_some _ (ap (λ o. (o, s1)) (info.total_sectors s.device s.temp_buffer))
      ∙ then_some _ (read_one disk s1 (omega arith))
      ∙ then_some _ (write_one disk s3 0 (omega arith))
      ∙ then_some _ loop.2
      ∙ ap
          (λ (b : Bool).
            if b then (discard dev 0 >> discard dev 1) formatted else (some tt, formatted))
          uncached

  abbrev s7 : FileSystem D
  s7 = with_mbr disk formatted (omega arith)

  abbrev mounted : FileSystem D
  mounted = mount_from_buffer s7

  -- The MBR that is read is the one that was written.
  mbr_read : (k : ℕ) → k < 512 → s7.temp_buffer k ≡ s3.temp_buffer k
  mbr_read k lt =
      mbr_bytes disk formatted (omega arith) k lt
      ∙ loop.3 0 k lt
      ∙ written disk s3 0 (omega arith) 0 k lt

  fields :
      (load_bytes 4 s7.temp_buffer signature_offset ≡ filesystem_signature)
      × (load_bytes 4 s7.temp_buffer reserved_offset ≡ 0)
      × (load_bytes 4 s7.temp_buffer link_count_offset ≡ links)
      × (load_bytes 4 s7.temp_buffer total_count_offset ≡ clusters)
  fields =
      let layout = format_layout total pos small in
      let f = mbr-fields links clusters s2.temp_buffer (omega arith) (omega arith) in
      (
        load-agree s3.temp_buffer s7.temp_buffer signature_offset (omega arith) mbr_read ∙ f.0,
        load-agree s3.temp_buffer s7.temp_buffer reserved_offset (omega arith) mbr_read ∙ f.1,
        load-agree s3.temp_buffer s7.temp_buffer link_count_offset (omega arith) mbr_read ∙ f.2,
        load-agree s3.temp_buffer s7.temp_buffer total_count_offset (omega arith) mbr_read ∙ f.3,
      )

  mount_runs : mount dev formatted ≡ (some tt, mounted)
  unfolding mount then_step
  mount_runs =
      then_some _ (read_one disk formatted (omega arith))
      ∙ then_some _ (require-true s7 (eq→== _ filesystem_signature fields.0))

  fresh-sector : (j k : ℕ) → j < links → k < 512 → sector s7.device (1 + j) k ≡ fresh j k
  fresh-sector j k lt h =
      mbr_same disk formatted (omega arith) (1 + j) k
      ∙ loop.3 (1 + j) k h
      ∙ fresh_of j k (sector s5.device (1 + j) k) lt
    where
      fresh_of :
          (j k y : ℕ)
          → j < links
          → (if leb (0 + 1) (1 + j) && ltb (1 + j) (0 + 1 + (links + sectors_per_cluster))
              then fresh (1 + j - 1) k
              else y)
            ≡ fresh j k
      fresh_of j k y lt = let e : 1 + j - 1 ≡ j = omega arith in rw e (ground arith)

  mounted_start : mounted.cluster_link_area_start_address ≡ 1
  unfolding mount_from_buffer
  mounted_start = omega (arith, fields)

  fresh_link :
      (c : ℕ)
      → c / 128 < links
      → link_of sector mounted c ≡ (if c == 0 then last_cluster else free_cluster)
  unfolding link_of mount_from_buffer load_bytes
  fresh_link c lt =
      ap (λ (a : ℕ). dword (sector s7.device (a + c / 128)) (c % 128)) mounted_start
      ∙ dword-agree (fresh (c / 128)) (sector s7.device (1 + c / 128)) (c % 128) (omega arith)
          (λ k h. fresh-sector (c / 128) k lt h)
      ∙ dword-set_dword zeros 0 (c % 128) (if c / 128 == 0 then last_cluster else free_cluster)
          (ground arith)
      ∙ ground arith

  mounted-IsFresh : IsFresh sector links clusters mounted
  unfolding mount_from_buffer
  mounted-IsFresh =
      let layout = format_layout total pos small in
      record {
        is_mounted = refl;
        link_start = mounted_start;
        link_size = fields.2;
        data_start = omega (arith, fields, layout);
        total_count = fields.3;
        link = fresh_link;
      }

  -- On a device that says how many sectors it has, kFormat and then kMount succeed, and leave a fresh
  -- file system of as many link sectors and clusters as kFormat counts: the table's links are those
  -- of a root directory of one cluster and of free clusters. The cache is off.
  pub format-mount :
      ((format dev >> mount dev) s).0 ≡ some tt
      × IsFresh sector
          (format_link_sector_count total)
          (format_cluster_count total)
          ((format dev >> mount dev) s).1
  format-mount =
      let run : (format dev >> mount dev) s ≡ (some tt, mounted) =
        then_some _ format_runs ∙ mount_runs in
      (
        ap (λ (r : Option (Unit {0}) × FileSystem D). r.0) run,
        subst (λ (r : Option (Unit {0}) × FileSystem D). IsFresh sector links clusters r.1)
            (sym run) mounted-IsFresh,
      )
