-- ===== src/FileSystem/Disk.antt =====
-- The block device as a disk of sectors, and the link table as an array on it.
use deodeok_os.Base.{
  ℕ, ◌+◌, ◌*◌, ◌-◌, ◌/◌, ◌%◌, ◌^◌, ◌≡◌, ◌<◌, ◌≤◌, ◌==◌, ltb, leb, ◌&&◌, if◌then◌else◌, arith,
}
use deodeok_os.Memory.{Memory, load_bytes, store_bytes}
use deodeok_os.FileSystem.State.{BlockDevice, dword, set_dword}

-- `sector d l` is the contents of sector `l`. Within the capacity a read gives them and changes none,
-- and a write changes the sectors written. The file system reads and writes one sector or eight.
pub record IsDisk {D : Type 0} (dev : BlockDevice D) (capacity : ℕ) (sector : D → ℕ → Memory)
    : Type 0 where
  pub read_count :
      (d : D) (lba n : ℕ) (m : Memory)
      → n ≤ 8
      → lba + n ≤ capacity
      → (dev.read_sector d lba n m).0 ≡ n
  pub read_bytes :
      (d : D) (lba n : ℕ) (m : Memory)
      → n ≤ 8
      → lba + n ≤ capacity
      → (i : ℕ) → i < n * 512
      → (dev.read_sector d lba n m).1 i ≡ sector d (lba + i / 512) (i % 512)
  pub read_same :
      (d : D) (lba n : ℕ) (m : Memory)
      → n ≤ 8
      → lba + n ≤ capacity
      → (l i : ℕ) → sector (dev.read_sector d lba n m).2 l i ≡ sector d l i
  pub write_count :
      (d : D) (lba n : ℕ) (m : Memory)
      → n ≤ 8
      → lba + n ≤ capacity
      → (dev.write_sector d lba n m).0 ≡ n
  pub write_bytes :
      (d : D) (lba n : ℕ) (m : Memory)
      → n ≤ 8
      → lba + n ≤ capacity
      → (l i : ℕ) → i < 512
      → sector (dev.write_sector d lba n m).1 l i
        ≡ (if leb lba l && ltb l (lba + n) then m ((l - lba) * 512 + i) else sector d l i)

-- A DWORD that was set, and the others.
pub dword-set_dword :
    (m : Memory) (i j v : ℕ)
    → v < 2 ^ 32
    → dword (set_dword m i v) j ≡ (if j == i then v else dword m j)
unfolding load_bytes store_bytes
dword-set_dword m i j v h = ground arith

-- A DWORD depends on its own bytes.
pub dword-agree :
    (m m' : Memory) (j : ℕ) → j < 128 → ((i : ℕ) → i < 512 → m' i ≡ m i) → dword m' j ≡ dword m j
unfolding load_bytes
dword-agree m m' j h e = ground (
  arith,
  e (j * 4) (omega arith),
  e (j * 4 + 1) (omega arith),
  e (j * 4 + 1 + 1) (omega arith),
  e (j * 4 + 1 + 1 + 1) (omega arith),
)

pub set_dword-agree :
    (m m' : Memory) (j v : ℕ)
    → ((i : ℕ) → i < 512 → m' i ≡ m i)
    → (i : ℕ) → i < 512
    → set_dword m' j v i ≡ set_dword m j v i
unfolding store_bytes
set_dword-agree m m' j v e i lt = ground (arith, e i lt)
