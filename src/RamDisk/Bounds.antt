-- ===== src/RamDisk/Bounds.antt =====
-- How far the RAM disk is a disk.
use deodeok_os.Base.{
  ℕ, ◌+◌, ◌*◌, ◌-◌, ◌/◌, ◌%◌, ◌^◌, ◌≡◌, ◌<◌, ◌≤◌, Bool, true, false, ltb, leb, ◌&&◌, if◌then◌else◌,
  refl, arith, ap, ◌∙◌,
}
use deodeok_os.Memory.{Memory}
use deodeok_os.FileSystem.Disk.{IsDisk}
use deodeok_os.FileSystem.Fresh.{Informs}
use deodeok_os.RamDisk.{
  read_rdd_information, RamDisk, real_count, read_rdd_sector, write_rdd_sector, ram_disk,
}

-- The bytes of a sector.
unfoldable pub sector : Memory → ℕ → Memory
sector b l i = b (l * 512 + i)

-- Short of the end of the disk all of the sectors are read or written.
real_count-all :
    (d : RamDisk) (lba n : ℕ)
    → n ≤ 8
    → lba + n + 8 ≤ d.total_sector_count
    → d.total_sector_count < 2 ^ 23
    → real_count d lba n ≡ n
unfolding real_count
real_count-all d lba n le fits small = ground arith

-- A transfer that reaches the end of the disk is of no sector, although its sectors are on the disk.
pub real_count-end :
    (d : RamDisk) (lba n : ℕ)
    → lba + n ≡ d.total_sector_count
    → d.total_sector_count < 2 ^ 23
    → real_count d lba n ≡ 0
unfolding real_count
real_count-end d lba n e small = ground arith

choose : {c : Bool} {x : ℕ} → c ≡ true → (y : ℕ) → (if c then x else y) ≡ x
choose {x = x} e y = ap (λ (c : Bool). if c then x else y) e

choose_same :
    {c c' : Bool} {x x' : ℕ} (y : ℕ)
    → c ≡ c'
    → (c' ≡ true → x ≡ x')
    → (if c then x else y) ≡ (if c' then x' else y)
choose_same {c' = true} {x = x} y e h = ap (λ (c : Bool). if c then x else y) e ∙ h refl
choose_same {c' = false} {x = x} y e h = ap (λ (c : Bool). if c then x else y) e

module _ (total : ℕ) (room : 8 ≤ total) (small : total < 2 ^ 23) (b : Memory) (lba n : ℕ)
    (m : Memory) (le : n ≤ 8) (fits : lba + n ≤ total - 8) where
  abbrev disk : RamDisk
  disk = record { total_sector_count = total; buffer = b }

  count_eq : real_count disk lba n ≡ n
  count_eq = real_count-all disk lba n le (omega arith) small

  place : (lba * 512) % 2 ^ 32 ≡ lba * 512
  place = omega arith

  read_bytes :
      (i : ℕ)
      → i < n * 512
      → (read_rdd_sector disk lba n m).1 i ≡ sector b (lba + i / 512) (i % 512)
  unfolding read_rdd_sector sector
  read_bytes i lt =
      let inside : (leb 0 i && ltb i (0 + n * 512)) ≡ true = ground arith in
      let offset : lba * 512 + (i - 0) ≡ (lba + i / 512) * 512 + i % 512 = omega arith in
      rw (count_eq, place) (choose inside (m i) ∙ ap b offset)

  same_test :
      (l i : ℕ)
      → i < 512
      → (leb (lba * 512) (l * 512 + i) && ltb (l * 512 + i) (lba * 512 + n * 512))
        ≡ (leb lba l && ltb l (lba + n))
  same_test l i lt = ground arith

  same_offset :
      (l i : ℕ)
      → i < 512
      → (leb lba l && ltb l (lba + n)) ≡ true
      → 0 + (l * 512 + i - lba * 512) ≡ (l - lba) * 512 + i
  same_offset l i lt h = ground arith

  write_bytes :
      (l i : ℕ)
      → i < 512
      → sector (write_rdd_sector disk lba n m).1.buffer l i
        ≡ (if leb lba l && ltb l (lba + n) then m ((l - lba) * 512 + i) else sector b l i)
  unfolding write_rdd_sector sector
  write_bytes l i lt =
      rw (count_eq, place)
        (choose_same (b (l * 512 + i)) (same_test l i lt)
          λ inside. ap m (same_offset l i lt inside))

-- Short of its last eight sectors the RAM disk is a disk.
pub ram_disk-IsDisk :
    (total : ℕ) → 8 ≤ total → total < 2 ^ 23 → IsDisk (ram_disk total) (total - 8) sector
unfolding ram_disk read_rdd_sector write_rdd_sector
ram_disk-IsDisk total room small = record {
  read_count = λ b lba n m le fits. count_eq total room small b lba n m le fits;
  read_bytes = λ b lba n m le fits. read_bytes total room small b lba n m le fits;
  read_same = λ b lba n m le fits l i. refl;
  write_count = λ b lba n m le fits. count_eq total room small b lba n m le fits;
  write_bytes = λ b lba n m le fits. write_bytes total room small b lba n m le fits;
}

-- It says how many sectors it has.
pub ram_disk-Informs : (total : ℕ) → Informs (ram_disk total) total sector
unfolding ram_disk read_rdd_information
ram_disk-Informs total = record { total_sectors = λ d m. refl; unchanged = λ d m l i. refl }
