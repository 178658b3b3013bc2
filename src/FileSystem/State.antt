-- ===== src/FileSystem/State.antt =====
-- FileSystem.h: the constants, the state of FileSystem.c and the block device behind its function
-- pointers. A buffer is a memory from offset 0 on; kMemCpy between two of them is `copy`. The mutex is
-- left out: a call is one step.
use deodeok_os.Base.{
  ℕ, ◌+◌, ◌*◌, ◌%◌, Bool, true, false, not, ◌==◌, ltb, if◌then◌else◌, Option, none, some, ◌&&◌, leb,
  ◌-◌, ◌≡◌, ap,
}
use deodeok_os.Memory.{Memory, load_bytes, store_bytes}
use deodeok_os.CacheManager.{CacheManager}

abbrev pub filesystem_signature : ℕ
filesystem_signature = 0x7E38_CF10

abbrev pub sectors_per_cluster : ℕ
sectors_per_cluster = 8

abbrev pub last_cluster : ℕ
last_cluster = 0xFFFF_FFFF

abbrev pub free_cluster : ℕ
free_cluster = 0

abbrev pub cluster_size : ℕ
cluster_size = 4096

abbrev pub max_directory_entry_count : ℕ
max_directory_entry_count = 128

-- TASK_MAXCOUNT * 3
abbrev pub handle_max_count : ℕ
handle_max_count = 3072

abbrev pub max_file_name_length : ℕ
max_file_name_length = 24

-- DIRECTORYENTRY; of the name only the first 24 bytes are part of the entry.
pub record DirectoryEntry : Type 0 where
  pub file_name : Memory
  pub file_size : ℕ
  pub start_cluster_index : ℕ

-- FILEHANDLE
pub record FileHandle : Type 0 where
  pub directory_entry_offset : ℕ
  pub file_size : ℕ
  pub start_cluster_index : ℕ
  pub current_cluster_index : ℕ
  pub previous_cluster_index : ℕ
  pub current_offset : ℕ

-- DIRECTORYHANDLE, with the buffer that its pointer is to.
pub record DirectoryHandle : Type 0 where
  pub directory_buffer : Memory
  pub current_offset : ℕ

-- FILE and DIR: bType and the union.
pub data Handle : Type 0 where
  free : Handle
  file : FileHandle → Handle
  directory : DirectoryHandle → Handle

-- FILESYSTEMMANAGER with the temporary buffer, the device, and the cache with the contents of its
-- buffers by their address.
pub record FileSystem (D : Type 0) : Type 0 where
  pub mounted : Bool
  pub reserved_sector_count : ℕ
  pub cluster_link_area_start_address : ℕ
  pub cluster_link_area_size : ℕ
  pub data_area_start_address : ℕ
  pub total_cluster_count : ℕ
  pub last_allocated_cluster_link_sector_offset : ℕ
  pub handle_pool : ℕ → Handle
  pub cache_enable : Bool
  pub temp_buffer : Memory
  pub cache : CacheManager
  pub cache_bytes : ℕ → Memory
  pub device : D

-- fReadHDDInformation, fReadHDDSector and fWriteHDDSector: the number of sectors of the device, if
-- it answers; how many sectors were read or written; the buffer and the device afterwards.
pub record BlockDevice (D : Type 0) : Type 0 where
  pub read_information : D → Memory → Option ℕ × Memory × D
  pub read_sector : D → (lba count : ℕ) → Memory → ℕ × Memory × D
  pub write_sector : D → (lba count : ℕ) → Memory → ℕ × D

-- kMemCpy(destination, source, size).
abbrev pub copy : (destination source : Memory) (size : ℕ) → Memory
copy destination source size i = if ltb i size then source i else destination i

-- A copy between places in two buffers.
abbrev pub copy_at : (destination : Memory) (d : ℕ) (source : Memory) (s size : ℕ) → Memory
copy_at destination d source s size i =
    if leb d i && ltb i (d + size) then source (s + (i - d)) else destination i

-- ((DWORD*) buffer)[index]
abbrev pub dword : Memory → (index : ℕ) → ℕ
dword m index = load_bytes 4 m (index * 4)

abbrev pub set_dword : Memory → (index value : ℕ) → Memory
set_dword m index value = store_bytes 4 m (index * 4) value

-- A BOOL made of an `int`.
abbrev pub to_bool : ℕ → Bool
to_bool n = not (n % 256 == 0)

-- A function that may return early with FALSE, NULL or -1, which is `none`.
abbrev pub Step : Type 0 → Type 0 → Type 0
Step D A = FileSystem D → Option A × FileSystem D

unfoldable pub then_step :
    {D A B : Type 0} → (A → Step D B) → Option A × FileSystem D → Option B × FileSystem D
then_step f (none, s) = (none, s)
then_step f (some a, s) = f a s

infixl 5 ◌>>=◌ ◌>>◌
abbrev pub ◌>>=◌ : {D A B : Type 0} → Step D A → (A → Step D B) → Step D B
◌>>=◌ m f s = then_step f (m s)

abbrev pub ◌>>◌ : {D A B : Type 0} → Step D A → Step D B → Step D B
m >> k = m >>= λ _. k

abbrev pub give : {D A : Type 0} → A → Step D A
give a s = (some a, s)

abbrev pub refuse : {D A : Type 0} → Step D A
refuse s = (none, s)

-- if(condition == FALSE) return FALSE;
unfoldable pub require : {D : Type 0} → Bool → Step D (Unit {0})
require true s = (some tt, s)
require false s = (none, s)

-- A field of the manager, or a change of it.
abbrev pub ask : {D A : Type 0} → (FileSystem D → A) → Step D A
ask f s = (some (f s), s)

abbrev pub change : {D : Type 0} → (FileSystem D → FileSystem D) → Step D (Unit {0})
change f s = (some tt, f s)

-- A result that is not looked at.
abbrev pub ignore : {D A : Type 0} → Step D A → Step D (Unit {0})
ignore m s = (some tt, (m s).1)

-- What is done if the function returns early, before it does.
abbrev pub on_failure : {D A : Type 0} → Step D A → Step D (Unit {0}) → Step D A
on_failure m undo s =
    let (o, s') = m s in elim o [ none ↦ (none, (undo s').1) | some a ↦ (some a, s') ]

-- A step of a `do` block whose result is known.
pub then_some :
    {D A B : Type 0} (f : A → Step D B) {o : Option A × FileSystem D} {a : A} {s : FileSystem D}
    → o ≡ (some a, s)
    → then_step f o ≡ f a s
unfolding then_step
then_some f e = ap (then_step f) e

pub then_none :
    {D A B : Type 0} (f : A → Step D B) {o : Option A × FileSystem D} {s : FileSystem D}
    → o ≡ (none, s)
    → then_step f o ≡ (none, s)
unfolding then_step
then_none f e = ap (then_step f) e

pub require-true :
    {D : Type 0} {b : Bool} (s : FileSystem D) → b ≡ true → require b s ≡ (some tt, s)
unfolding require
require-true s e = ap (λ (b : Bool). require b s) e
