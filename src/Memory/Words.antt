-- ===== src/Memory/Words.antt =====
-- Words of bytes, read and written.
use deodeok_os.Base.{
  ℕ, zero, suc, ◌+◌, ◌-◌, ◌*◌, ◌/◌, ◌%◌, ◌<◌, ◌≡◌, ltb, leb, if◌then◌else◌, ◌&&◌, arith, ap, ◌∙◌,
  Bool,
}
use native.Mathlib.Nat.{add-zero}
use deodeok_os.Base.Cells.{update}
use deodeok_os.Memory.{Memory, load_bytes, store_bytes, spread}

-- Every cell holds a byte.
abbrev pub IsByteMemory : Memory → Type 0
IsByteMemory m = (a : ℕ) → m a < 256

-- `x` lies among the `n` addresses from `a` on.
abbrev pub within : ℕ → ℕ → ℕ → Bool
within a n x = leb a x && ltb x (a + n)

-- All of the `n` low bytes of `v` are `b`.
abbrev pub AllBytes : ℕ → ℕ → ℕ → Type 0
AllBytes zero b v = Unit
AllBytes (suc n) b v = (v % 256 ≡ b) × AllBytes n b (v / 256)

pub spread-AllBytes : (b : ℕ) → b < 256 → AllBytes 8 b (spread 8 b 0)
unfolding spread
spread-AllBytes b h = omega arith

pub store-AllBytes :
    (n : ℕ) (m : Memory) (a v b x : ℕ)
    → AllBytes n b v
    → store_bytes n m a v x ≡ (if within a n x then b else m x)
unfolding store_bytes
store-AllBytes zero m a v b x h = ground arith
store-AllBytes (suc n) m a v b x h =
    ground (arith, store-AllBytes n (update m a (v % 256)) (a + 1) (v / 256) b x h.1)

-- Storing what was loaded copies the bytes.
pub store-load :
    (n : ℕ) (m m' : Memory) (d s x : ℕ)
    → IsByteMemory m'
    → store_bytes n m d (load_bytes n m' s) x ≡ (if within d n x then m' (s + (x - d)) else m x)
unfolding store_bytes load_bytes
store-load zero m m' d s x h = ground arith
store-load (suc n) m m' d s x h =
    let low : (m' s + 256 * load_bytes n m' (s + 1)) % 256 ≡ m' s = omega (arith, h s) in
    let high : (m' s + 256 * load_bytes n m' (s + 1)) / 256 ≡ load_bytes n m' (s + 1) =
      omega (arith, h s) in
    rw (low, high) (ground (arith, store-load n (update m d (m' s)) m' (d + 1) (s + 1) x h))

-- The bytes of a word of 0 are 0.
pub load_bytes-zero :
    (n : ℕ) (m : Memory) (a : ℕ) → load_bytes n m a ≡ 0 → (i : ℕ) → i < n → m (a + i) ≡ 0
unfolding load_bytes
load_bytes-zero zero m a e i lt = absurd (omega arith)
load_bytes-zero (suc n) m a e zero lt = ap m (add-zero a) ∙ omega arith
load_bytes-zero (suc n) m a e (suc i) lt =
    ap m (omega arith) ∙ load_bytes-zero n m (a + 1) (omega arith) i (omega arith)
