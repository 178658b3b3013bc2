-- ===== src/Text/Hex.antt =====
-- kHexToString and kHexStringToQword.
use deodeok_os.Base.{
  ℕ, zero, suc, ◌+◌, ◌-◌, ◌*◌, ◌/◌, ◌%◌, ◌^◌, ◌<◌, ◌≤◌, ◌≡◌, ◌≢◌, if◌then◌else◌, Option, some,
  arith, refl, ap, ◌∙◌, subst, sym, ne→==, eq→==,
}
use native.Mathlib.Nat.{div-div-eq-div-mul, pow-suc, div-le_self, div-eq_of_lt}
use native.Mathlib.Decide.{ℕ_discrete}
use deodeok_os.Base.Cells.{update, update_self, update_ne}
use deodeok_os.Memory.{Memory}
use deodeok_os.Memory.Words.{within}
use deodeok_os.Text.{
  write_digits, hex_char, hex_digit, hex_to_string, end_and_reverse, read_digits,
  hex_string_to_qword, reverse_string,
}
use deodeok_os.Text.Reverse.{IsString, reverse_string_at}
use deodeok_os.Text.Digits.{IsDigits, write_digits-IsDigits, write_digits-le}

hex_char_pos : (d : ℕ) → hex_char d ≢ 0
unfolding hex_char
hex_char_pos d = ground arith

-- A digit read back.
hex_digit-hex_char :
    (x d : ℕ) → d < 16 → x + d < 2 ^ 64 → (x + hex_digit (hex_char d)) % 2 ^ 64 ≡ x + d
unfolding hex_char hex_digit
hex_digit-hex_char x d small lt = ground arith

-- The digits of `value`, first one first.
record IsNumeral (m : Memory) (a n value : ℕ) : Type 0 where
  digits : (i : ℕ) → i < n → m (a + i) ≡ hex_char (value / 16 ^ (n - 1 - i) % 16)
  end : m (a + n) ≡ 0

read_digits-IsNumeral :
    (k : ℕ) (m : Memory) (a n value i read : ℕ)
    → IsNumeral m a n value
    → value < 2 ^ 64
    → i ≤ n
    → n < i + k
    → read ≡ value / 16 ^ (n - i)
    → read_digits k m a i read ≡ some value
unfolding read_digits
read_digits-IsNumeral zero m a n value i read s small le lt e = absurd (omega arith)
read_digits-IsNumeral (suc k) m a n value i read s small le lt e = elim (ℕ_discrete i n) [
  | yes last ↦
      let z : m (a + i) ≡ 0 = subst (λ x. m (a + x) ≡ 0) (sym last) s.end in
      let no_more : n - i ≡ 0 = omega (arith, last) in
      rw (z, read_digits)
        (ap (λ (v : ℕ). some v) (e ∙ ap (λ x. value / 16 ^ x) no_more ∙ omega arith))
  | no more ↦
      let left : n - i ≡ suc (n - 1 - i) = omega arith in
      let before : value / 16 ^ (n - 1 - i) / 16 ≡ read =
        div-div-eq-div-mul value (16 ^ (n - 1 - i)) 16
        ∙ ap (λ x. value / x) (sym (pow-suc 16 (n - 1 - i)))
        ∙ ap (λ x. value / 16 ^ x) (sym left)
        ∙ sym e in
      let digit = s.digits i (omega (arith, le, more)) in
      let q : ℕ = value / 16 ^ (n - 1 - i) in
      let q_le : q ≤ value = div-le_self value (16 ^ (n - 1 - i)) in
      let not_end : m (a + i) ≢ 0 = λ z. hex_char_pos (q % 16) (sym digit ∙ z) in
      let next : (read * 16 + hex_digit (m (a + i))) % 2 ^ 64 ≡ q =
        ap (λ c. (read * 16 + hex_digit c) % 2 ^ 64) digit
        ∙ hex_digit-hex_char (read * 16) (q % 16) (omega arith) (omega (arith, before, q_le, small))
        ∙ omega (arith, before) in
      let shorter : n - 1 - i ≡ n - (i + 1) = omega arith in
      rw (ne→== _ _ not_end, read_digits)
        (read_digits-IsNumeral k m a n value (i + 1) _ s small (omega (arith, le, more))
          (omega arith) (next ∙ ap (λ x. value / 16 ^ x) shorter))
]

-- What kHexToString leaves.
pub record Written (value a : ℕ) (r : Option (ℕ × Memory)) : Type 0 where
  pub n : ℕ
  pub m' : Memory
  pub returned : r ≡ some (n, m')
  pub string : IsString m' a n
  pub read : (fuel : ℕ) → n < fuel → hex_string_to_qword fuel m' a ≡ some value
  pub short : n ≤ 16

IsNumeral-read :
    (m : Memory) (a n value fuel : ℕ)
    → IsNumeral m a n value
    → value < 2 ^ 64
    → value < 16 ^ n
    → n < fuel
    → hex_string_to_qword fuel m a ≡ some value
unfolding hex_string_to_qword
IsNumeral-read m a n value fuel s small bound lt =
    let all : n - 0 ≡ n = omega arith in
    read_digits-IsNumeral fuel m a n value 0 0 s small (omega arith) (omega arith)
      (sym (ap (λ x. value / 16 ^ x) all ∙ div-eq_of_lt bound))

IsNumeral-IsString : (m : Memory) (a n value : ℕ) → IsNumeral m a n value → IsString m a n
IsNumeral-IsString m a n value s = record {
  chars = λ i lt z. hex_char_pos _ (sym (s.digits i lt) ∙ z);
  end = s.end;
}

module _ (m : Memory) (a value : ℕ) (small : value < 2 ^ 64) where
  zero-IsNumeral : value ≡ 0 → IsNumeral (update (update m a 0x30) (a + 1) 0) a 1 value
  unfolding hex_char
  zero-IsNumeral z = record { digits = λ i lt. rw z (ground arith); end = ground arith }

  abbrev written : ℕ × Memory
  written = write_digits 16 m a 0 value

  abbrev ended : Memory
  ended = update written.1 (a + written.0) 0

  IsDigits-written : IsDigits m a 0 value written
  IsDigits-written = write_digits-IsDigits 16 m a 0 value small

  digit_at : (j : ℕ) → j < written.0 → ended (a + j) ≡ hex_char (value / 16 ^ j % 16)
  digit_at j lt =
      let at : a + (0 + j) ≡ a + j = omega arith in
      update_ne written.1 (a + written.0) (a + j) 0 (omega arith)
      ∙ subst (λ x. written.1 x ≡ hex_char (value / 16 ^ j % 16)) at
          (IsDigits-written.digits j (omega arith))

  value_bound : value < 16 ^ written.0
  value_bound =
      let all : written.0 - 0 ≡ written.0 = omega arith in
      subst (λ n. value < 16 ^ n) all IsDigits-written.bound

  end_eq :
      (n : ℕ) (m1 m' : Memory)
      → reverse_string 17 (update m1 (a + n) 0) a ≡ some m'
      → end_and_reverse (n, m1) a ≡ some (n, m')
  unfolding end_and_reverse
  end_eq n m1 m' e = rw (e, end_and_reverse) refl

  ended-IsString : IsString ended a written.0
  ended-IsString = record {
    chars = λ i lt z. hex_char_pos _ (sym (digit_at i lt) ∙ z);
    end = update_self written.1 (a + written.0) 0;
  }

  reversed-IsNumeral :
      (m' : Memory)
      → ((x : ℕ)
          → m' x
            ≡ (if within a written.0 x then ended (a + (written.0 - 1 - (x - a))) else ended x))
      → IsNumeral m' a written.0 value
  reversed-IsNumeral m' f = record {
    digits = λ i lt. ground (arith, f (a + i), digit_at (written.0 - 1 - i));
    end = f (a + written.0) ∙ ground (arith, ended-IsString.end);
  }

  Written-of_numeral :
      (n : ℕ) (m' : Memory)
      → hex_to_string value m a ≡ some (n, m')
      → IsNumeral m' a n value
      → value < 16 ^ n
      → n ≤ 16
      → Written value a (hex_to_string value m a)
  Written-of_numeral n m' e s bound short = record {
    n = n;
    m' = m';
    returned = e;
    string = IsNumeral-IsString m' a n value s;
    read = λ fuel lt. IsNumeral-read m' a n value fuel s small bound lt;
    short = short;
  }

  -- kHexToString writes at most 16 characters and the end, and kHexStringToQword reads the number
  -- back from them.
  pub hex_to_string-Written : Written value a (hex_to_string value m a)
  unfolding hex_to_string
  hex_to_string-Written = elim (ℕ_discrete value 0) [
    | yes z ↦
        Written-of_numeral 1 _ (rw (eq→== value 0 z, hex_to_string) refl) (zero-IsNumeral z)
          (omega (arith, z)) (omega arith)
    | no nz ↦
        let le = write_digits-le 16 m a 0 value in
        let (m', e, f) =
          reverse_string_at 17 ended a written.0 ended-IsString (omega (arith, le)) in
        Written-of_numeral written.0 m'
          (rw (ne→== value 0 nz, hex_to_string) (end_eq written.0 written.1 m' e))
          (reversed-IsNumeral m' f) value_bound (omega (arith, le))
  ]
