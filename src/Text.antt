-- ===== src/Text.antt =====
-- volumes/02.Kernel64/Source/Utility.c: strings in memory, and hexadecimal numbers as strings. A
-- string is the address of its first character; it ends with a 0. Characters are below 128.
pub mod Reverse
pub mod Digits
pub mod Hex
mod Tests
use deodeok_os.Base.{
  ℕ, zero, suc, ◌+◌, ◌-◌, ◌*◌, ◌/◌, ◌%◌, ◌^◌, ltb, leb, ◌==◌, ◌&&◌, if◌then◌else◌, Option, none,
  some,
}
use deodeok_os.Base.Cells.{update}
use deodeok_os.Memory.{Memory}

-- kStrLen, on fuel.
unfoldable pub str_len_from : (fuel : ℕ) → Memory → (a i : ℕ) → Option ℕ
str_len_from zero m a i = none
str_len_from (suc k) m a i =
    let rest = str_len_from k m a (i + 1) in if m (a + i) == 0 then some i else rest

unfoldable pub str_len : (fuel : ℕ) → Memory → (a : ℕ) → Option ℕ
str_len fuel m a = str_len_from fuel m a 0

-- The loop of kReverseString: `rounds` pairs from `i` on.
unfoldable pub swap_pairs : (rounds : ℕ) → Memory → (a length i : ℕ) → Memory
swap_pairs zero m a length i = m
swap_pairs (suc k) m a length i =
    let last = a + (length - 1 - i) in
    swap_pairs k (update (update m (a + i) (m last)) last (m (a + i))) a length (i + 1)

unfoldable pub reverse_if_some : Option ℕ → Memory → (a : ℕ) → Option Memory
reverse_if_some none m a = none
reverse_if_some (some n) m a = some (swap_pairs (n / 2) m a n 0)

unfoldable pub reverse_string : (fuel : ℕ) → Memory → (a : ℕ) → Option Memory
reverse_string fuel m a = reverse_if_some (str_len fuel m a) m a

-- The loop of kHexToString: the digits from the last one on, and how many they are. A QWORD has no
-- more than 16.
unfoldable pub hex_char : ℕ → ℕ
hex_char d = if leb 10 d then 0x41 + (d - 10) else 0x30 + d

unfoldable pub write_digits : (rounds : ℕ) → Memory → (a i value : ℕ) → ℕ × Memory
write_digits zero m a i value = (i, m)
write_digits (suc k) m a i value =
    let rest = write_digits k (update m (a + i) (hex_char (value % 16))) a (i + 1) (value / 16) in
    if ltb 0 value then rest else (i, m)

unfoldable pub end_and_reverse : ℕ × Memory → (a : ℕ) → Option (ℕ × Memory)
end_and_reverse (n, m) a = elim (reverse_string 17 (update m (a + n) 0) a) [
  | none ↦ none
  | some m' ↦ some (n, m')
]

unfoldable pub hex_to_string : (value : ℕ) → Memory → (a : ℕ) → Option (ℕ × Memory)
hex_to_string value m a =
    if value == 0
    then some (1, update (update m a 0x30) (a + 1) 0)
    else end_and_reverse (write_digits 16 m a 0 value) a

-- kHexStringToQword, on fuel.
unfoldable pub hex_digit : ℕ → ℕ
hex_digit c =
    if leb 0x41 c && leb c 0x5a
    then c - 0x41 + 10
    else if leb 0x61 c && leb c 0x7a
    then c - 0x61 + 10
    else c + 2 ^ 64 - 0x30

unfoldable pub read_digits : (fuel : ℕ) → Memory → (a i value : ℕ) → Option ℕ
read_digits zero m a i value = none
read_digits (suc k) m a i value =
    let rest = read_digits k m a (i + 1) ((value * 16 + hex_digit (m (a + i))) % 2 ^ 64) in
    if m (a + i) == 0 then some value else rest

unfoldable pub hex_string_to_qword : (fuel : ℕ) → Memory → (a : ℕ) → Option ℕ
hex_string_to_qword fuel m a = read_digits fuel m a 0 0
