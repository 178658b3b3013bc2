-- ===== src/RamDisk/Tests.antt =====
-- The RAM disk that the kernel makes, of 8 MB.
use deodeok_os.Base.{ℕ, ◌-◌, ◌≡◌, refl, arith}
use deodeok_os.Memory.{Memory}
use deodeok_os.FileSystem.Disk.{IsDisk}
use deodeok_os.RamDisk.{ram_disk, real_count}
use deodeok_os.RamDisk.Bounds.{sector, ram_disk-IsDisk}

-- RDD_TOTALSECTORCOUNT
abbrev total : ℕ
total = 16384

ram_disk-IsDisk_example : IsDisk (ram_disk total) (total - 8) sector
ram_disk-IsDisk_example = ram_disk-IsDisk total (omega arith) (omega arith)

abbrev garbage : Memory
garbage _ = 0

last_sector_not_read :
    real_count (record { total_sector_count = total; buffer = garbage }) 16383 1 ≡ 0
unfolding real_count
last_sector_not_read = refl

-- Behind the end the count is not cut down.
behind_the_end : real_count (record { total_sector_count = total; buffer = garbage }) 16384 8 ≡ 8
unfolding real_count
behind_the_end = refl
