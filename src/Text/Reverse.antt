-- ===== src/Text/Reverse.antt =====
-- kStrLen and kReverseString.
use deodeok_os.Base.{
  ℕ, zero, suc, ◌+◌, ◌-◌, ◌/◌, ◌<◌, ◌≤◌, ◌≡◌, ◌≢◌, if◌then◌else◌, some, arith, refl,
}
use deodeok_os.Base.Cells.{update}
use deodeok_os.Memory.{Memory}
use deodeok_os.Memory.Words.{within}
use deodeok_os.Text.{str_len_from, str_len, swap_pairs, reverse_string, reverse_if_some}

-- A string of `n` characters.
pub record IsString (m : Memory) (a n : ℕ) : Type 0 where
  pub chars : (i : ℕ) → i < n → m (a + i) ≢ 0
  pub end : m (a + n) ≡ 0

str_len_from-IsString :
    (k : ℕ) (m : Memory) (a i n : ℕ)
    → IsString m a n
    → i ≤ n
    → n < i + k
    → str_len_from k m a i ≡ some n
unfolding str_len_from
str_len_from-IsString zero m a i n s le lt = absurd (omega arith)
str_len_from-IsString (suc k) m a i n s le lt =
    ground (arith, str_len_from-IsString k m a (i + 1) n s, s.chars i, s.end)

-- kStrLen of a string.
pub str_len-IsString :
    (fuel : ℕ) (m : Memory) (a n : ℕ) → IsString m a n → n < fuel → str_len fuel m a ≡ some n
unfolding str_len
str_len-IsString fuel m a n s lt = str_len_from-IsString fuel m a 0 n s (omega arith) (omega arith)

-- What the rounds from `i` on swap.
swap_pairs_at :
    (k : ℕ) (m : Memory) (a n i x : ℕ)
    → i + k ≤ n / 2
    → swap_pairs k m a n i x ≡ (
        if within (a + i) k x
        then m (a + (n - 1 - (x - a)))
        else if within (a + (n - i - k)) k x
        then m (a + (n - 1 - (x - a)))
        else m x)
unfolding swap_pairs
swap_pairs_at zero m a n i x le = ground arith
swap_pairs_at (suc k) m a n i x le = ground (
  arith,
  swap_pairs_at k (update (update m (a + i) (m (a + (n - 1 - i)))) (a + (n - 1 - i)) (m (a + i))) a
      n (i + 1) x,
)

-- kReverseString turns the characters of a string round and writes nowhere else.
pub reverse_string_at :
    (fuel : ℕ) (m : Memory) (a n : ℕ)
    → IsString m a n
    → n < fuel
    → (m' : Memory) × (reverse_string fuel m a ≡ some m')
      × ((x : ℕ) → m' x ≡ (if within a n x then m (a + (n - 1 - (x - a))) else m x))
unfolding reverse_string reverse_if_some str_len
reverse_string_at fuel m a n s lt = (
  swap_pairs (n / 2) m a n 0,
  rw (str_len_from-IsString fuel m a 0 n s (omega arith) (omega arith)) refl,
  λ x. ground (arith, swap_pairs_at (n / 2) m a n 0 x),
)
