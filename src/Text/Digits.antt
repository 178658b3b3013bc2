-- ===== src/Text/Digits.antt =====
-- The digits that kHexToString writes, before it turns them round.
use deodeok_os.Base.{
  ℕ, zero, suc, ◌+◌, ◌-◌, ◌*◌, ◌/◌, ◌%◌, ◌^◌, ◌<◌, ◌≤◌, ◌≡◌, ltb, arith, refl, ap, ◌∙◌, Bool-cases,
  inl, inr, subst, sym,
}
use native.Mathlib.Nat.{div-div-eq-div-mul, pow-suc}
use deodeok_os.Base.Cells.{update}
use deodeok_os.Memory.{Memory}
use deodeok_os.Text.{write_digits, hex_char}

-- The digits of `value` from the last one on, at `a + i` and behind.
pub record IsDigits (m : Memory) (a i value : ℕ) (r : ℕ × Memory) : Type 0 where
  pub from : i ≤ r.0
  pub bound : value < 16 ^ (r.0 - i)
  pub digits : (j : ℕ) → j < r.0 - i → r.1 (a + (i + j)) ≡ hex_char (value / 16 ^ j % 16)
  pub kept : (x : ℕ) → x < a + i → r.1 x ≡ m x

digit_shift : (value j : ℕ) → value / 16 / 16 ^ j ≡ value / 16 ^ suc j
digit_shift value j =
    div-div-eq-div-mul value 16 (16 ^ j) ∙ ap (λ n. value / n) (omega (arith, pow-suc 16 j))

pow_16 : (k : ℕ) → 16 ^ suc k ≡ 16 * 16 ^ k
pow_16 k = omega (arith, pow-suc 16 k)

more_digits :
    (m : Memory) (a i value : ℕ) (r : ℕ × Memory)
    → IsDigits (update m (a + i) (hex_char (value % 16))) a (i + 1) (value / 16) r
    → (j : ℕ) → j < r.0 - i
    → r.1 (a + (i + j)) ≡ hex_char (value / 16 ^ j % 16)
more_digits m a i value r d zero lt =
    let first : a + i ≡ a + (i + 0) = omega arith in
    subst (λ x. r.1 x ≡ hex_char (value / 16 ^ 0 % 16)) first
      (d.kept (a + i) (omega arith) ∙ ground arith)
more_digits m a i value r d (suc j) lt =
    let at : a + (i + 1 + j) ≡ a + (i + suc j) = omega arith in
    subst (λ x. r.1 x ≡ hex_char (value / 16 ^ suc j % 16)) at
      (d.digits j (omega arith) ∙ ap (λ v. hex_char (v % 16)) (digit_shift value j))

IsDigits-more :
    (m : Memory) (a i value : ℕ) (r : ℕ × Memory)
    → IsDigits (update m (a + i) (hex_char (value % 16))) a (i + 1) (value / 16) r
    → IsDigits m a i value r
IsDigits-more m a i value r d =
    let n : r.0 - i ≡ suc (r.0 - (i + 1)) = omega (arith, d.from) in
    record {
      from = omega (arith, d.from);
      bound = subst (λ k. value < 16 ^ k) (sym n) (omega (arith, pow_16 (r.0 - (i + 1)), d.bound));
      digits = more_digits m a i value r d;
      kept = λ x lt. ground (arith, d.kept x);
    }

pub write_digits-IsDigits :
    (k : ℕ) (m : Memory) (a i value : ℕ)
    → value < 16 ^ k
    → IsDigits m a i value (write_digits k m a i value)
unfolding write_digits
write_digits-IsDigits zero m a i value lt = record {
  from = omega arith;
  bound = let none_left : 0 ≡ i - i = omega arith in subst (λ k. value < 16 ^ k) none_left lt;
  digits = λ j below. absurd (omega arith);
  kept = λ x below. refl;
}
write_digits-IsDigits (suc k) m a i value lt = elim (Bool-cases (ltb 0 value)) [
  | inl more ↦ rw more (
      IsDigits-more m a i value _
        (write_digits-IsDigits k _ a (i + 1) (value / 16) (omega (arith, lt, pow_16 k))))
  | inr done ↦ rw done (record {
    from = omega arith;
    bound =
        let none_left : 0 ≡ i - i = omega arith in
        subst (λ k. value < 16 ^ k) none_left (ground arith);
    digits = λ j below. absurd (omega arith);
    kept = λ x below. refl;
  })
]

pub write_digits-le : (k : ℕ) (m : Memory) (a i value : ℕ) → (write_digits k m a i value).0 ≤ i + k
unfolding write_digits
write_digits-le zero m a i value = omega arith
write_digits-le (suc k) m a i value = elim (Bool-cases (ltb 0 value)) [
  | inl more ↦ rw more (
      omega (
        arith,
        write_digits-le k (update m (a + i) (hex_char (value % 16))) a (i + 1) (value / 16),
      ))
  | inr done ↦ rw done (omega arith)
]
