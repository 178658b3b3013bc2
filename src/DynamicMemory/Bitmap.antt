-- ===== src/DynamicMemory/Bitmap.antt =====
-- kSetFlagInBitmap and kGetFlagInBitmap on one level: one bit changes, and the count with it.
use deodeok_os.Base.{
  ℕ, zero, suc, ◌+◌, ◌-◌, ◌/◌, ◌%◌, ◌^◌, ◌<◌, ◌≤◌, ◌≡◌, Bool, true, false, ◌==◌, if◌then◌else◌,
  arith, refl, Bool-cases, inl, inr,
}
use deodeok_os.Memory.{Memory}
use deodeok_os.Memory.Words.{IsByteMemory}
use deodeok_os.DynamicMemory.{Level, flag, set_flag}
use deodeok_os.DynamicMemory.Bits.{test-set, test-clear, set-lt, clear-lt}

abbrev pub bit : Bool → ℕ
bit b = if b then 1 else 0

-- Setting a flag changes that flag and no other.
pub flag-set :
    (l : Level) (o : ℕ) (b : Bool) (p : ℕ)
    → IsByteMemory l.bitmap
    → flag (set_flag l o b).bitmap p ≡ (if o == p then b else flag l.bitmap p)
unfolding set_flag
flag-set l o true p h =
    ground (arith, test-set (l.bitmap (o / 8)) (o % 8) (h (o / 8)) (omega arith) (p % 8))
flag-set l o false p h =
    ground (arith, test-clear (l.bitmap (o / 8)) (o % 8) (h (o / 8)) (omega arith) (p % 8))

pub set_flag-IsByteMemory :
    (l : Level) (o : ℕ) (b : Bool) → IsByteMemory l.bitmap → IsByteMemory (set_flag l o b).bitmap
unfolding set_flag
set_flag-IsByteMemory l o true h a =
    ground (arith, set-lt (l.bitmap (o / 8)) (o % 8) (h (o / 8)), h a)
set_flag-IsByteMemory l o false h a =
    ground (arith, clear-lt (l.bitmap (o / 8)) (o % 8) (h (o / 8)), h a)

-- How many of the first `n` blocks are free.
unfoldable pub free_count : ℕ → Memory → ℕ
free_count zero m = 0
free_count (suc n) m = free_count n m + bit (flag m n)

pub free_count-le : (n : ℕ) (m : Memory) → free_count n m ≤ n
unfolding free_count
free_count-le zero m = omega arith
free_count-le (suc n) m = ground (arith, free_count-le n m)

free_count-set_above :
    (n : ℕ) (l : Level) (o : ℕ) (b : Bool)
    → IsByteMemory l.bitmap
    → n ≤ o
    → free_count n (set_flag l o b).bitmap ≡ free_count n l.bitmap
unfolding free_count
free_count-set_above zero l o b h le = refl
free_count-set_above (suc n) l o b h le =
    ground (arith, free_count-set_above n l o b h, flag-set l o b n h)

free_count-set :
    (n : ℕ) (l : Level) (o : ℕ) (b : Bool)
    → IsByteMemory l.bitmap
    → o < n
    → free_count n (set_flag l o b).bitmap + bit (flag l.bitmap o) ≡ free_count n l.bitmap + bit b
unfolding free_count
free_count-set zero l o b h lt = absurd (omega arith)
free_count-set (suc n) l o b h lt = elim (Bool-cases (o == n)) [
  | inl e ↦ ground (arith, free_count-set_above n l o b h, flag-set l o b n h)
  | inr e ↦ ground (arith, free_count-set n l o b h, flag-set l o b n h)
]

-- What happens to the counter.
count_step :
    (l : Level) (o : ℕ) (b : Bool)
    → (set_flag l o b).exist_bit_count ≡ (
        if b
        then (if flag l.bitmap o then l.exist_bit_count else (l.exist_bit_count + 1) % 2 ^ 64)
        else (if flag l.bitmap o
            then (l.exist_bit_count + 2 ^ 64 - 1) % 2 ^ 64
            else l.exist_bit_count))
unfolding set_flag
count_step l o true = refl
count_step l o false = refl

-- `qwExistBitCount` is the number of the free blocks.
pub record IsCounted (n : ℕ) (l : Level) : Type 0 where
  pub bytes : IsByteMemory l.bitmap
  pub counted : l.exist_bit_count ≡ free_count n l.bitmap

exist_bit_count-set :
    (n : ℕ) (l : Level) (o : ℕ) (b : Bool)
    → IsCounted n l
    → o < n
    → n < 2 ^ 63
    → (set_flag l o b).exist_bit_count ≡ free_count n (set_flag l o b).bitmap
exist_bit_count-set n l o b c lt small = ground (
  arith,
  count_step l o b,
  free_count-set n l o b c.bytes lt,
  c.counted,
  free_count-le n l.bitmap,
)

-- kSetFlagInBitmap keeps the count right.
pub set_flag-IsCounted :
    {n : ℕ} {l : Level} (o : ℕ) (b : Bool)
    → IsCounted n l
    → o < n
    → n < 2 ^ 63
    → IsCounted n (set_flag l o b)
set_flag-IsCounted {n} {l} o b c lt small = record {
  bytes = set_flag-IsByteMemory l o b c.bytes;
  counted = exist_bit_count-set n l o b c lt small;
}
