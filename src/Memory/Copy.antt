-- ===== src/Memory/Copy.antt =====
-- kMemSet and kMemCpy byte by byte.
use deodeok_os.Base.{
  ℕ, zero, suc, ◌+◌, ◌-◌, ◌*◌, ◌/◌, ◌%◌, ◌^◌, ◌<◌, ◌≤◌, ◌≡◌, ◌⊎◌, if◌then◌else◌, arith, refl,
  le→ltb,
}
use deodeok_os.Base.Cells.{update}
use deodeok_os.Memory.{
  Memory, load_bytes, store_bytes, spread, set_words, set_bytes, mem_set, copy_words, copy_bytes,
  mem_cpy,
}
use deodeok_os.Memory.Words.{
  IsByteMemory, within, AllBytes, spread-AllBytes, store-AllBytes, store-load,
}

set_words-within :
    (k : ℕ) (m : Memory) (a v b x : ℕ)
    → AllBytes 8 b v
    → set_words k m a v x ≡ (if within a (k * 8) x then b else m x)
unfolding set_words
set_words-within zero m a v b x h = ground arith
set_words-within (suc k) m a v b x h =
    ground (
      arith,
      set_words-within k (store_bytes 8 m a v) (a + 8) v b x h,
      store-AllBytes 8 m a v b x h,
    )

set_bytes-within :
    (k : ℕ) (m : Memory) (a b x : ℕ) → set_bytes k m a b x ≡ (if within a k x then b else m x)
unfolding set_bytes
set_bytes-within zero m a b x = ground arith
set_bytes-within (suc k) m a b x = ground (arith, set_bytes-within k (update m a b) (a + 1) b x)

-- kMemSet writes the byte to each of the `iSize` addresses, and to no other.
pub mem_set-within :
    (m : Memory) (a b size x : ℕ)
    → b < 256
    → size < 2 ^ 31
    → mem_set m a b size x ≡ (if within a size x then b else m x)
unfolding mem_set
mem_set-within m a b size x hb hs =
    let words = set_words (size / 8) m a (spread 8 b 0) in
    ground (
      arith,
      set_words-within (size / 8) m a (spread 8 b 0) b x (spread-AllBytes b hb),
      set_bytes-within (size % 8) words (a + size / 8 * 8) b x,
    )

-- With a negative size kMemSet and kMemCpy do nothing.
pub negative_size :
    (m : Memory) (a b size : ℕ)
    → 2 ^ 31 ≤ size
    → (mem_set m a b size ≡ m) × (mem_cpy m a b size ≡ (size, m))
unfolding mem_set mem_cpy
negative_size m a b size h = rw (le→ltb size (2 ^ 31) h) (refl, refl)

module _ {m : Memory} (h : IsByteMemory m) where
  pub store-IsByteMemory : (n d s : ℕ) → IsByteMemory (store_bytes n m d (load_bytes n m s))
  store-IsByteMemory n d s a = ground (arith, store-load n m m d s a h, h a, h (s + (a - d)))

-- The two ranges do not meet.
abbrev pub Apart : ℕ → ℕ → ℕ → Type 0
Apart n d s = (d + n ≤ s) ⊎ (s + n ≤ d)

copy_words-within :
    (k : ℕ) (m : Memory) (d s x : ℕ)
    → IsByteMemory m
    → Apart (k * 8) d s
    → copy_words k m d s x ≡ (if within d (k * 8) x then m (s + (x - d)) else m x)
unfolding copy_words
copy_words-within zero m d s x h ap = ground arith
copy_words-within (suc k) m d s x h ap =
    let m' = store_bytes 8 m d (load_bytes 8 m s) in
    ground (
      arith,
      copy_words-within k m' (d + 8) (s + 8) x (store-IsByteMemory h 8 d s),
      store-load 8 m m d s x h,
      store-load 8 m m d s (s + 8 + (x - (d + 8))) h,
    )

copy_bytes-within :
    (k : ℕ) (m : Memory) (d s x : ℕ)
    → Apart k d s
    → copy_bytes k m d s x ≡ (if within d k x then m (s + (x - d)) else m x)
unfolding copy_bytes
copy_bytes-within zero m d s x ap = ground arith
copy_bytes-within (suc k) m d s x ap =
    ground (arith, copy_bytes-within k (update m d (m s)) (d + 1) (s + 1) x)

-- kMemCpy copies the `iSize` bytes between ranges that do not meet, and writes nowhere else.
pub mem_cpy-within :
    (m : Memory) (d s size x : ℕ)
    → IsByteMemory m
    → size < 2 ^ 31
    → Apart size d s
    → (mem_cpy m d s size).1 x ≡ (if within d size x then m (s + (x - d)) else m x)
unfolding mem_cpy
mem_cpy-within m d s size x h hs ap =
    let done = size / 8 * 8 in
    let words = copy_words (size / 8) m d s in
    ground (
      arith,
      copy_words-within (size / 8) m d s x h,
      copy_words-within (size / 8) m d s (s + done + (x - (d + done))) h,
      copy_bytes-within (size % 8) words (d + done) (s + done) x,
    )

-- kMemCpy leaves bytes in every cell.
pub mem_cpy-IsByteMemory :
    (m : Memory) (d s size : ℕ)
    → IsByteMemory m
    → size < 2 ^ 31
    → Apart size d s
    → IsByteMemory (mem_cpy m d s size).1
mem_cpy-IsByteMemory m d s size h hs ap x =
    ground (arith, mem_cpy-within m d s size x h hs ap, h x, h (s + (x - d)))
