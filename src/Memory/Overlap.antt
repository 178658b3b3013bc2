-- ===== src/Memory/Overlap.antt =====
-- kMemCpy to a lower address: the ranges may overlap.
use deodeok_os.Base.{
  ℕ, zero, suc, ◌+◌, ◌-◌, ◌*◌, ◌/◌, ◌%◌, ◌^◌, ◌<◌, ◌≤◌, ◌≡◌, if◌then◌else◌, arith,
}
use deodeok_os.Base.Cells.{update}
use deodeok_os.Memory.{Memory, mem_cpy, copy_words, copy_bytes, load_bytes, store_bytes}
use deodeok_os.Memory.Words.{IsByteMemory, within, store-load}
use deodeok_os.Memory.Copy.{store-IsByteMemory}

copy_words-lower :
    (k : ℕ) (m : Memory) (d s x : ℕ)
    → IsByteMemory m
    → d + 8 ≤ s
    → copy_words k m d s x ≡ (if within d (k * 8) x then m (s + (x - d)) else m x)
unfolding copy_words
copy_words-lower zero m d s x h lo = ground arith
copy_words-lower (suc k) m d s x h lo =
    let m' = store_bytes 8 m d (load_bytes 8 m s) in
    ground (
      arith,
      copy_words-lower k m' (d + 8) (s + 8) x (store-IsByteMemory h 8 d s),
      store-load 8 m m d s x h,
      store-load 8 m m d s (s + 8 + (x - (d + 8))) h,
    )

copy_bytes-lower :
    (k : ℕ) (m : Memory) (d s x : ℕ)
    → d < s
    → copy_bytes k m d s x ≡ (if within d k x then m (s + (x - d)) else m x)
unfolding copy_bytes
copy_bytes-lower zero m d s x lo = ground arith
copy_bytes-lower (suc k) m d s x lo =
    ground (arith, copy_bytes-lower k (update m d (m s)) (d + 1) (s + 1) x)

-- kMemCpy to an address at least 8 below its source moves the bytes, though the ranges overlap.
pub mem_cpy-lower :
    (m : Memory) (d s size x : ℕ)
    → IsByteMemory m
    → size < 2 ^ 31
    → d + 8 ≤ s
    → (mem_cpy m d s size).1 x ≡ (if within d size x then m (s + (x - d)) else m x)
unfolding mem_cpy
mem_cpy-lower m d s size x h hs lo =
    let done = size / 8 * 8 in
    let words = copy_words (size / 8) m d s in
    ground (
      arith,
      copy_words-lower (size / 8) m d s x h,
      copy_words-lower (size / 8) m d s (s + done + (x - (d + done))) h,
      copy_bytes-lower (size % 8) words (d + done) (s + done) x,
    )
