-- ===== src/Memory/Compare.antt =====
-- kMemCmp returns 0 exactly on equal ranges.
use deodeok_os.Base.{
  ℕ, zero, suc, ◌+◌, ◌-◌, ◌*◌, ◌/◌, ◌%◌, ◌^◌, ◌<◌, ◌≡◌, ◌≢◌, ◌↔◌, ◌==◌, arith, refl, Option, none,
  some, Bool-cases, inl, inr, ==→eq, ==→ne, ◌∙◌, ap, sym, subst, lt→ltb,
}
use native.Mathlib.Decide.{dec_lt}
use native.Mathlib.Nat.{pow-suc, add-zero}
use deodeok_os.Memory.{
  Memory, load_bytes, low_byte, compare_words, compare_bytes, sign_extend, mem_cmp,
  first_difference,
}
use deodeok_os.Memory.Words.{IsByteMemory}

-- The `n` bytes from `d` on are those from `s` on.
pub record SameBytes (n : ℕ) (m : Memory) (d s : ℕ) : Type 0 where
  pub at : (i : ℕ) → i < n → m (d + i) ≡ m (s + i)

load_bytes-lt : (n : ℕ) (m : Memory) (a : ℕ) → IsByteMemory m → load_bytes n m a < 256 ^ n
unfolding load_bytes
load_bytes-lt zero m a h = omega arith
load_bytes-lt (suc n) m a h = omega (arith, load_bytes-lt n m (a + 1) h, h a, pow-suc 256 n)

-- Equal words have equal bytes.
load_bytes-inj :
    (n : ℕ) (m : Memory) (d s : ℕ)
    → IsByteMemory m
    → load_bytes n m d ≡ load_bytes n m s
    → (i : ℕ) → i < n
    → m (d + i) ≡ m (s + i)
unfolding load_bytes
load_bytes-inj zero m d s h e i lt = absurd (omega arith)
load_bytes-inj (suc n) m d s h e zero lt =
    let eq : m d ≡ m s = omega (arith, h d, h s, e) in
    ap m (add-zero d) ∙ eq ∙ ap m (sym (add-zero s))
load_bytes-inj (suc n) m d s h e (suc i) lt =
    let rest : load_bytes n m (d + 1) ≡ load_bytes n m (s + 1) = omega (arith, h d, h s, e) in
    ap m (omega arith)
    ∙ load_bytes-inj n m (d + 1) (s + 1) h rest i (omega arith)
    ∙ ap m (omega arith)

load_bytes-eq :
    (n : ℕ) (m : Memory) (d s : ℕ)
    → ((i : ℕ) → i < n → m (d + i) ≡ m (s + i))
    → load_bytes n m d ≡ load_bytes n m s
unfolding load_bytes
load_bytes-eq zero m d s e = refl
load_bytes-eq (suc n) m d s e =
    let first : m d ≡ m s = ap m (sym (add-zero d)) ∙ e 0 (omega arith) ∙ ap m (add-zero s) in
    omega (
      arith,
      first,
      load_bytes-eq n m (d + 1) (s + 1)
          (λ i lt. ap m (omega arith) ∙ e (suc i) (omega arith) ∙ ap m (omega arith)),
    )

low_byte-ne-zero : (n v : ℕ) → v ≢ 0 → v < 256 ^ n → low_byte n v ≢ 0
unfolding low_byte
low_byte-ne-zero zero v ne lt = absurd (omega arith)
low_byte-ne-zero (suc n) v ne lt = elim (Bool-cases (v % 256 == 0)) [
  | inl z ↦
      rw z
        (low_byte-ne-zero n (v / 256) (omega (arith, ==→eq _ _ z)) (omega (arith, pow-suc 256 n)))
  | inr nz ↦ rw nz (==→ne _ _ nz)
]

SameBytes-append :
    (n k : ℕ) (m : Memory) (d s : ℕ)
    → SameBytes n m d s
    → SameBytes k m (d + n) (s + n)
    → SameBytes (n + k) m d s
SameBytes-append n k m d s p q = record {
  at = λ i lt. elim (dec_lt i n) [
    | yes l ↦ p.at i l
    | no g ↦ ap m (omega arith) ∙ q.at (i - n) (omega arith) ∙ ap m (omega arith)
  ];
}

SameBytes-left : (n k : ℕ) (m : Memory) (d s : ℕ) → SameBytes (n + k) m d s → SameBytes n m d s
SameBytes-left n k m d s p = record { at = λ i lt. p.at i (omega arith) }

SameBytes-right :
    (n k : ℕ) (m : Memory) (d s : ℕ) → SameBytes (n + k) m d s → SameBytes k m (d + n) (s + n)
SameBytes-right n k m d s p = record {
  at = λ i lt. ap m (omega arith) ∙ p.at (n + i) (omega arith) ∙ ap m (omega arith);
}

-- The difference of two words.
abbrev word_diff : Memory → ℕ → ℕ → ℕ
word_diff m d s = (load_bytes 8 m d + 2 ^ 64 - load_bytes 8 m s) % 2 ^ 64

word_diff_iff : (m : Memory) (d s : ℕ) → IsByteMemory m → (word_diff m d s ≡ 0) ↔ SameBytes 8 m d s
word_diff_iff m d s h = (
  λ z. record {
    at = load_bytes-inj 8 m d s h (omega (arith, z, load_bytes-lt 8 m d h, load_bytes-lt 8 m s h));
  },
  λ e. omega (arith, load_bytes-eq 8 m d s e.at, load_bytes-lt 8 m d h, load_bytes-lt 8 m s h),
)

byte_diff_iff :
    (m : Memory) (d s : ℕ) → IsByteMemory m → ((m d + 256 - m s) % 256 ≡ 0) ↔ (m d ≡ m s)
byte_diff_iff m d s h = (λ z. omega (arith, h d, h s), λ e. omega (arith, h d, h s))

-- What a comparison of `n` bytes says: no difference, or a nonzero number for one.
Compared : ℕ → Memory → ℕ → ℕ → Option ℕ → Type 0
Compared n m d s none = SameBytes n m d s
Compared n m d s (some r) = (r ≢ 0) × ¬ (SameBytes n m d s)

Compared-append :
    (k : ℕ) (m : Memory) (d s : ℕ) (r : Option ℕ)
    → SameBytes 8 m d s
    → Compared (k * 8) m (d + 8) (s + 8) r
    → Compared (suc k * 8) m d s r
unfolding Compared
Compared-append k m d s none p q =
    subst (λ n. SameBytes n m d s) (omega arith) (SameBytes-append 8 (k * 8) m d s p q)
Compared-append k m d s (some r) p (ne, differ) = (
  ne,
  λ all.
      differ (SameBytes-right 8 (k * 8) m d s (subst (λ n. SameBytes n m d s) (omega arith) all)),
)

compare_words-Compared :
    (k : ℕ) (m : Memory) (d s : ℕ) → IsByteMemory m → Compared (k * 8) m d s (compare_words k m d s)
unfolding compare_words Compared
compare_words-Compared zero m d s h = record { at = λ i lt. absurd (omega arith) }
compare_words-Compared (suc k) m d s h = elim (Bool-cases (word_diff m d s == 0)) [
  | inl z ↦ rw z (
      Compared-append k m d s (compare_words k m (d + 8) (s + 8))
        ((word_diff_iff m d s h).0 (==→eq _ _ z)) (compare_words-Compared k m (d + 8) (s + 8) h))
  | inr nz ↦ rw nz (
    low_byte-ne-zero 8 (word_diff m d s) (==→ne _ _ nz) (omega arith),
    λ all. ==→ne _ _ nz (
        (word_diff_iff m d s h).1
          (SameBytes-left 8 (k * 8) m d s (subst (λ n. SameBytes n m d s) (omega arith) all))),
  )
]

sign_extend-ne-zero : (c : ℕ) → c ≢ 0 → sign_extend c ≢ 0
unfolding sign_extend
sign_extend-ne-zero c ne = ground arith

compare_bytes_iff :
    (k : ℕ) (m : Memory) (d s : ℕ)
    → IsByteMemory m
    → (compare_bytes k m d s ≡ 0) ↔ SameBytes k m d s
unfolding compare_bytes
compare_bytes_iff zero m d s h = (λ _. record { at = λ i lt. absurd (omega arith) }, λ _. refl)
compare_bytes_iff (suc k) m d s h = elim (Bool-cases ((m d + 256 - m s) % 256 == 0)) [
  | inl z ↦
      let one : SameBytes 1 m d s = record {
        at = λ i lt.
            ap m (omega arith) ∙ (byte_diff_iff m d s h).0 (==→eq _ _ z) ∙ ap m (omega arith);
      } in
      let rest = compare_bytes_iff k m (d + 1) (s + 1) h in
      rw z (
        λ e.
            subst (λ n. SameBytes n m d s) (omega arith)
              (SameBytes-append 1 k m d s one (rest.0 e)),
        λ all.
            rest.1 (SameBytes-right 1 k m d s (subst (λ n. SameBytes n m d s) (omega arith) all)),
      )
  | inr nz ↦ rw nz (
    λ e. absurd (sign_extend-ne-zero ((m d + 256 - m s) % 256) (==→ne _ _ nz) e),
    λ all. absurd (
        ==→ne _ _ nz (
          (byte_diff_iff m d s h).1
            (ap m (sym (add-zero d)) ∙ all.at 0 (omega arith) ∙ ap m (add-zero s)))),
  )
]

-- The words and the bytes behind them, `w` and `b` of them.
first_difference_iff :
    (w b : ℕ) (m : Memory) (d s : ℕ) (r : Option ℕ) (tail : ℕ)
    → Compared (w * 8) m d s r
    → (tail ≡ 0) ↔ SameBytes b m (d + w * 8) (s + w * 8)
    → (first_difference r tail ≡ 0) ↔ SameBytes (w * 8 + b) m d s
unfolding first_difference Compared
first_difference_iff w b m d s none tail p q = (
  λ e. SameBytes-append (w * 8) b m d s p (q.0 e),
  λ all. q.1 (SameBytes-right (w * 8) b m d s all),
)
first_difference_iff w b m d s (some v) tail p q =
    (λ e. absurd (p.0 e), λ all. absurd (p.1 (SameBytes-left (w * 8) b m d s all)))

-- kMemCmp returns 0 exactly when all of the `iSize` bytes are the same.
pub mem_cmp_iff :
    (m : Memory) (d s size : ℕ)
    → IsByteMemory m
    → size < 2 ^ 31
    → (mem_cmp m d s size ≡ 0) ↔ SameBytes size m d s
unfolding mem_cmp
mem_cmp_iff m d s size h small =
    let w = size / 8 in
    let b = size % 8 in
    rw (mem_cmp, lt→ltb size (2 ^ 31) small)
      (subst
        (λ n.
          (first_difference (compare_words w m d s) (compare_bytes b m (d + w * 8) (s + w * 8)) ≡ 0)
          ↔ SameBytes n m d s)
        (omega arith)
        (first_difference_iff w b m d s (compare_words w m d s) _ (compare_words-Compared w m d s h)
          (compare_bytes_iff b m (d + w * 8) (s + w * 8) h)))
