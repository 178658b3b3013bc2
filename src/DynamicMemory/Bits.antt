-- ===== src/DynamicMemory/Bits.antt =====
-- Setting, clearing and testing one bit of a byte, checked for every byte.
use Prim.Native.Nat.{bit_and, bit_or}
use native.Mathlib.Decide.{ℕ_discrete}
use deodeok_os.Base.{
  ℕ, zero, suc, ◌-◌, ◌^◌, ◌<◌, ◌≤◌, ◌+◌, subst, ◌≡◌, Bool, true, false, not, ◌==◌, ltb, ◌&&◌,
  if◌then◌else◌, arith, refl, ltb→lt,
}

-- `rounds` values from `i` on pass a test.
checked_from : (rounds i : ℕ) → (ℕ → Bool) → Bool
checked_from zero i test = true
checked_from (suc k) i test = if test i then checked_from k (i + 1) test else false

checked_at :
    (k i : ℕ) (test : ℕ → Bool) (x : ℕ)
    → checked_from k i test ≡ true
    → i ≤ x
    → x < i + k
    → test x ≡ true
unfolding checked_from
checked_at zero i test x all lo hi = absurd (omega arith)
checked_at (suc k) i test x all lo hi = elim (ℕ_discrete i x) [
  | yes e ↦ subst (λ y. test y ≡ true) e (ground arith)
  | no other ↦ checked_at k (i + 1) test x (ground arith) (omega arith) (omega arith)
]

abbrev checked : ℕ → (ℕ → Bool) → Bool
checked n test = checked_from n 0 test

checked-below : (n : ℕ) (test : ℕ → Bool) (x : ℕ) → checked n test ≡ true → x < n → test x ≡ true
checked-below n test x all lt = checked_at n 0 test x all (omega arith) (omega arith)

pub &&_left : (a b : Bool) → (a && b) ≡ true → a ≡ true
&&_left a b h = ground arith

pub &&_right : (a b : Bool) → (a && b) ≡ true → b ≡ true
&&_right a b h = ground arith

-- Equality of tests.
same : Bool → Bool → Bool
same true b = b
same false b = not b

same_sound : (a b : Bool) → same a b ≡ true → a ≡ b
unfolding same
same_sound a b h = ground arith

abbrev pub test : ℕ → ℕ → Bool
test b k = not (bit_and b (2 ^ k) == 0)

-- The properties of one byte and two bits.
abbrev set_at : ℕ → ℕ → ℕ → Bool
set_at b k j = same (test (bit_or b (2 ^ k)) j) (if k == j then true else test b j)

abbrev clear_at : ℕ → ℕ → ℕ → Bool
clear_at b k j = same (test (bit_and b (255 - 2 ^ k)) j) (if k == j then false else test b j)

abbrev bytes_at : ℕ → ℕ → Bool
bytes_at b k = ltb (bit_or b (2 ^ k)) 256 && ltb (bit_and b (255 - 2 ^ k)) 256

set_table : checked 256 (λ b. checked 8 (λ k. checked 8 (λ j. set_at b k j))) ≡ true
unfolding checked_from same
set_table = refl

clear_table : checked 256 (λ b. checked 8 (λ k. checked 8 (λ j. clear_at b k j))) ≡ true
unfolding checked_from same
clear_table = refl

byte_table : checked 256 (λ b. checked 8 (λ k. bytes_at b k)) ≡ true
unfolding checked_from
byte_table = refl

module _ (b k : ℕ) (hb : b < 256) (hk : k < 8) where
  pub test-set : (j : ℕ) → j < 8 → test (bit_or b (2 ^ k)) j ≡ (if k == j then true else test b j)
  test-set j hj = same_sound _ _ (
      checked-below 8 (λ j'. set_at b k j') j
        (checked-below 8 (λ k'. checked 8 (λ j'. set_at b k' j')) k
          (checked-below 256 (λ b'. checked 8 (λ k'. checked 8 (λ j'. set_at b' k' j'))) b set_table
            hb)
          hk)
        hj)

  pub test-clear :
      (j : ℕ) → j < 8 → test (bit_and b (255 - 2 ^ k)) j ≡ (if k == j then false else test b j)
  test-clear j hj = same_sound _ _ (
      checked-below 8 (λ j'. clear_at b k j') j
        (checked-below 8 (λ k'. checked 8 (λ j'. clear_at b k' j')) k
          (checked-below 256 (λ b'. checked 8 (λ k'. checked 8 (λ j'. clear_at b' k' j'))) b
            clear_table hb)
          hk)
        hj)

  bytes : bytes_at b k ≡ true
  bytes =
      checked-below 8 (λ k'. bytes_at b k') k
        (checked-below 256 (λ b'. checked 8 (λ k'. bytes_at b' k')) b byte_table hb) hk

  pub set-lt : bit_or b (2 ^ k) < 256
  set-lt = ltb→lt _ _ (&&_left _ _ bytes)

  pub clear-lt : bit_and b (255 - 2 ^ k) < 256
  clear-lt = ltb→lt _ _ (&&_right _ _ bytes)

zero_table : checked 8 (λ k. same (test 0 k) false) ≡ true
unfolding checked_from same
zero_table = refl

-- A byte of 0 has no bit.
pub test-zero : (k : ℕ) → k < 8 → test 0 k ≡ false
test-zero k h = same_sound _ _ (checked-below 8 (λ k'. same (test 0 k') false) k zero_table h)
