-- ===== src/Console/Tests.antt =====
-- Tests of the console's text output, and a concrete string for its theorem.
use deodeok_os.Base.{
  ℕ, ◌+◌, ◌*◌, ◌%◌, ◌≡◌, inl, ◌==◌, if◌then◌else◌, Option, none, some, List, [], ◌∷◌, arith, refl,
}
use deodeok_os.Memory.{Memory}
use deodeok_os.Memory.Words.{IsByteMemory, within}
use deodeok_os.Text.Reverse.{IsString}
use deodeok_os.Console.{video_memory_address, console_print_string}
use deodeok_os.Console.Terminal.{Terminal, type_text}
use deodeok_os.Console.Screen.{Shows, Printed, console_print_string-Printed}

-- An empty screen, and a letter, a new line, a tab and a letter at 8.
abbrev memory : Memory
memory x =
    if x == 8
    then 65
    else if x == 9
    then 10
    else if x == 10
    then 9
    else if x == 11
    then 66
    else if within video_memory_address 4000 x
    then (if x % 2 == 0 then b' ' else 14)
    else 0

abbrev text : List ℕ
text = 65 ∷ 10 ∷ 9 ∷ 66 ∷ []

abbrev blank : (position : ℕ) → Terminal
blank position = record { cells = λ i. (b' ', 14); position = position }

memory-IsByteMemory : IsByteMemory memory
memory-IsByteMemory = λ x. ground arith

blank-Shows : (position : ℕ) → Shows (blank position) memory position
blank-Shows position = record {
  position = refl;
  character = λ i lt. ground arith;
  color = λ i lt. ground arith;
}

text-IsString : IsString memory 8 4
text-IsString = record { chars = λ i lt. ground arith; end = refl }

-- The first letter is in the last cell.
console_print_string-Printed_example :
    (r : Memory × ℕ) × (console_print_string 5 memory 8 1999 ≡ some r)
    × Printed (type_text (blank 1999) text) memory r
console_print_string-Printed_example =
    console_print_string-Printed 5 text (blank 1999) memory 8 1999 memory-IsByteMemory (omega arith)
      (blank-Shows 1999) text-IsString (refl, (refl, (refl, (refl, tt)))) (inl (omega arith))
      (omega arith)

-- The letter has moved up a line, then another for the new line; the position is behind the tab
-- and the second letter.
printed_cells : Option (Memory × ℕ) → Option (List ℕ)
printed_cells none = none
printed_cells (some (m, offset)) =
    some (m (video_memory_address + 2 * 1839) ∷ m (video_memory_address + 2 * 1928) ∷ offset ∷ [])

printed_text : printed_cells (console_print_string 5 memory 8 1999) ≡ some (65 ∷ 66 ∷ 1929 ∷ [])
unfolding printed_cells console_print_string deodeok_os.Text.str_len_from
printed_text = refl
