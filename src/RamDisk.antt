-- ===== src/RamDisk.antt =====
-- volumes/02.Kernel64/Source/RAMDisk.c: a disk in memory. The buffer is a memory from offset 0 on.
pub mod Bounds
mod Tests
use deodeok_os.Base.{
  ℕ, zero, suc, ◌+◌, ◌*◌, ◌-◌, ◌/◌, ◌%◌, ◌^◌, Bool, true, false, ltb, if◌then◌else◌, Option, none,
  some,
}
use deodeok_os.Memory.{Memory}
use deodeok_os.DynamicMemory.{DynamicMemory, allocate_memory}
use deodeok_os.FileSystem.State.{BlockDevice, copy_at}

-- RDDMANAGER: dwTotalSectorCount and the contents of pbBuffer.
pub record RamDisk : Type 0 where
  pub total_sector_count : ℕ
  pub buffer : Memory

abbrev pub made :
    (total : ℕ)
    → Memory
    → DynamicMemory
    → Option (ℕ × DynamicMemory)
    → Option (RamDisk × DynamicMemory)
made total garbage d none = none
made total garbage d (some (_, d')) =
    some (record { total_sector_count = total; buffer = garbage }, d')

-- kInitializeRDD; `garbage` is what the allocated memory holds.
unfoldable pub initialize_rdd :
    (total : ℕ) → Memory → DynamicMemory → Option (RamDisk × DynamicMemory)
initialize_rdd total garbage d = made total garbage d (allocate_memory d ((total * 512) % 2 ^ 32))

-- MIN(dwTotalSectorCount - (dwLBA + iSectorCount), iSectorCount)
unfoldable pub real_count : RamDisk → (lba count : ℕ) → ℕ
real_count d lba count =
    let left = (d.total_sector_count + 2 ^ 32 - (lba + count) % 2 ^ 32) % 2 ^ 32 in
    if ltb left count then left else count

unfoldable pub read_rdd_sector : RamDisk → (lba count : ℕ) → Memory → ℕ × Memory × RamDisk
unfolding real_count
read_rdd_sector d lba count m =
    let n = real_count d lba count in (n, copy_at m 0 d.buffer ((lba * 512) % 2 ^ 32) (n * 512), d)

unfoldable pub write_rdd_sector : RamDisk → (lba count : ℕ) → Memory → ℕ × RamDisk
unfolding real_count
write_rdd_sector d lba count m =
    let n = real_count d lba count in
    (n, record d { buffer = copy_at d.buffer ((lba * 512) % 2 ^ 32) m 0 (n * 512) })

-- kReadRDDInformation: dwTotalSectors. The texts that it also writes are not looked at.
unfoldable pub read_rdd_information : RamDisk → Memory → Option ℕ × Memory × RamDisk
read_rdd_information d m = (some d.total_sector_count, m, d)

-- The functions as kInitializeFileSystem installs them. The number of sectors stays, so that the
-- device's state is the buffer.
unfoldable pub ram_disk : (total : ℕ) → BlockDevice Memory
unfolding read_rdd_information read_rdd_sector write_rdd_sector
ram_disk total = record {
  read_information = λ b m.
      let (r, m', d) = read_rdd_information (record { total_sector_count = total; buffer = b }) m in
      (r, m', d.buffer);
  read_sector = λ b lba count m.
      let (n, m', d) =
        read_rdd_sector (record { total_sector_count = total; buffer = b }) lba count m in
      (n, m', d.buffer);
  write_sector = λ b lba count m.
      let (n, d) =
        write_rdd_sector (record { total_sector_count = total; buffer = b }) lba count m in
      (n, d.buffer);
}
