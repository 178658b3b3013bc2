-- ===== src/Memory.antt =====
-- volumes/02.Kernel64/Source/Utility.c: kMemSet, kMemCpy and kMemCmp over a memory of bytes.
-- Each works on 8 bytes at a time and then on the rest. A size is an `int`, kept as its 32-bit
-- pattern: for a negative one `iSize / 8` and `iSize % 8` are not positive, so no loop runs.
pub mod Words
pub mod Copy
pub mod Compare
pub mod Overlap
mod Tests
use deodeok_os.Base.{
  ℕ, zero, suc, ◌+◌, ◌-◌, ◌*◌, ◌/◌, ◌%◌, ◌^◌, ltb, ◌==◌, if◌then◌else◌, Option, none, some,
}
use deodeok_os.Base.Cells.{update}

abbrev pub Memory : Type 0
Memory = ℕ → ℕ

-- How many rounds the two loops of each function make.
abbrev pub word_rounds : ℕ → ℕ
word_rounds size = if ltb size (2 ^ 31) then size / 8 else 0

abbrev pub byte_rounds : ℕ → ℕ
byte_rounds size = if ltb size (2 ^ 31) then size % 8 else 0

-- A little-endian number of `n` bytes, read and written; a QWORD has eight.
unfoldable pub load_bytes : ℕ → Memory → ℕ → ℕ
load_bytes zero m a = 0
load_bytes (suc n) m a = m a + 256 * load_bytes n m (a + 1)

unfoldable pub store_bytes : ℕ → Memory → ℕ → ℕ → Memory
store_bytes zero m a v = m
store_bytes (suc n) m a v = store_bytes n (update m a (v % 256)) (a + 1) (v / 256)

-- `qwData = (qwData << 8) | bData`: the low byte of the shifted word is 0, so `|` adds.
pub spread : ℕ → ℕ → ℕ → ℕ
spread zero b v = v
spread (suc k) b v = spread k b ((v * 256) % 2 ^ 64 + b)

pub set_words : ℕ → Memory → ℕ → ℕ → Memory
set_words zero m a v = m
set_words (suc k) m a v = set_words k (store_bytes 8 m a v) (a + 8) v

pub set_bytes : ℕ → Memory → ℕ → ℕ → Memory
set_bytes zero m a b = m
set_bytes (suc k) m a b = set_bytes k (update m a b) (a + 1) b

unfoldable pub mem_set : Memory → ℕ → ℕ → ℕ → Memory
unfolding load_bytes store_bytes spread set_words set_bytes
mem_set m destination b size =
    let m' = set_words (word_rounds size) m destination (spread 8 b 0) in
    set_bytes (byte_rounds size) m' (destination + word_rounds size * 8) b

pub copy_words : ℕ → Memory → ℕ → ℕ → Memory
copy_words zero m d s = m
copy_words (suc k) m d s = copy_words k (store_bytes 8 m d (load_bytes 8 m s)) (d + 8) (s + 8)

pub copy_bytes : ℕ → Memory → ℕ → ℕ → Memory
copy_bytes zero m d s = m
copy_bytes (suc k) m d s = copy_bytes k (update m d (m s)) (d + 1) (s + 1)

-- kMemCpy returns the size and changes the memory.
unfoldable pub mem_cpy : Memory → ℕ → ℕ → ℕ → ℕ × Memory
unfolding load_bytes store_bytes copy_words copy_bytes
mem_cpy m destination source size =
    let done = word_rounds size * 8 in
    let m' = copy_words (word_rounds size) m destination source in
    (size, copy_bytes (byte_rounds size) m' (destination + done) (source + done))

-- The inner loop of kMemCmp: the lowest byte of the difference that is not 0. The loop ends in a
-- return, since one of the eight bytes is not 0.
pub low_byte : ℕ → ℕ → ℕ
low_byte zero v = 0
low_byte (suc k) v = let rest = low_byte k (v / 256) in if v % 256 == 0 then rest else v % 256

-- The words: `none` if no difference was found.
pub compare_words : ℕ → Memory → ℕ → ℕ → Option ℕ
compare_words zero m d s = none
compare_words (suc k) m d s =
    let rest = compare_words k m (d + 8) (s + 8) in
    let v = (load_bytes 8 m d + 2 ^ 64 - load_bytes 8 m s) % 2 ^ 64 in
    if v == 0 then rest else some (low_byte 8 v)

-- `char` is signed: returned as an `int`, a byte of 128 and more is negative.
pub sign_extend : ℕ → ℕ
sign_extend c = if ltb c 128 then c else 2 ^ 32 - 256 + c

pub compare_bytes : ℕ → Memory → ℕ → ℕ → ℕ
compare_bytes zero m d s = 0
compare_bytes (suc k) m d s =
    let rest = compare_bytes k m (d + 1) (s + 1) in
    let c = (m d + 256 - m s) % 256 in if c == 0 then rest else sign_extend c

-- The first difference ends the function; the bytes count where the words showed none.
pub first_difference : Option ℕ → ℕ → ℕ
first_difference none tail = tail
first_difference (some r) tail = r

-- The `int` that kMemCmp returns, as its 32-bit pattern.
unfoldable pub mem_cmp : Memory → ℕ → ℕ → ℕ → ℕ
unfolding load_bytes low_byte compare_words sign_extend compare_bytes first_difference
mem_cmp m destination source size =
    let done = word_rounds size * 8 in
    first_difference (compare_words (word_rounds size) m destination source)
      (compare_bytes (byte_rounds size) m (destination + done) (source + done))
