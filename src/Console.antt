-- ===== src/Console.antt =====
-- volumes/02.Kernel64/Source/Console.c: text on the screen, which is memory, and keys from the key
-- queue. kVSPrintf is not part of it: kPrintf starts with its text at an address.
pub mod Terminal
pub mod Screen
mod Tests
use deodeok_os.Base.{
  ℕ, zero, suc, ◌+◌, ◌-◌, ◌*◌, ◌/◌, ◌%◌, ◌^◌, Bool, true, false, leb, ltb, ◌==◌, if◌then◌else◌,
  Option, none, some,
}
use deodeok_os.Base.Cells.{update}
use deodeok_os.Memory.{Memory, mem_cpy}
use deodeok_os.Text.{str_len}
use deodeok_os.Keyboard.Controller.{Ports}
use deodeok_os.Keyboard.Convert.{Keyboard, load_key, get_key_from_key_queue}
use deodeok_os.Keyboard.State.{KeyData}

-- CONSOLE_WIDTH, CONSOLE_HEIGHT, CONSOLE_VIDEOMEMORYADDRESS and CONSOLE_DEFAULTTEXTCOLOR.
abbrev pub console_width : ℕ
console_width = 80

abbrev pub console_height : ℕ
console_height = 25

abbrev pub video_memory_address : ℕ
video_memory_address = 0xB8000

abbrev pub default_text_color : ℕ
default_text_color = 0x0E

-- A CHARACTER of the screen is set: bCharactor and bAttribute.
unfoldable pub set_character : Memory → (index character : ℕ) → Memory
set_character m index c =
    update (update m (video_memory_address + 2 * index) c) (video_memory_address + 2 * index + 1)
      default_text_color

-- The loops that write spaces, from character `j` on, `n` left.
unfoldable pub fill_spaces : (n : ℕ) → Memory → (j : ℕ) → Memory
unfolding set_character
fill_spaces zero m j = m
fill_spaces (suc n) m j = fill_spaces n (set_character m j 0x20) (j + 1)

-- The end of a round of kConsolePrintString: behind the last line the screen moves up by one.
unfoldable pub scroll : Memory → (offset : ℕ) → Memory × ℕ
unfolding mem_cpy fill_spaces
scroll m offset =
    if leb (console_height * console_width) offset
    then (
      fill_spaces console_width
          (mem_cpy m video_memory_address (video_memory_address + console_width * 2)
            ((console_height - 1) * console_width * 2)).1
          ((console_height - 1) * console_width),
      (console_height - 1) * console_width,
    )
    else (m, offset)

-- A round of the loop, with the character.
unfoldable pub print_character : Memory → (character offset : ℕ) → Memory × ℕ
unfolding scroll set_character
print_character m c offset =
    if c == b'\n'
    then scroll m (offset + (console_width - offset % console_width))
    else if c == b'\t'
    then scroll m (offset + (8 - offset % 8))
    else scroll (set_character m offset c) (offset + 1)

-- The loop over the string at `a`, from character `i` on, `n` left.
unfoldable pub print_characters : (n : ℕ) → Memory → (a i offset : ℕ) → Memory × ℕ
unfolding print_character
print_characters zero m a i offset = (m, offset)
print_characters (suc n) m a i offset =
    let (m', offset') = print_character m (m (a + i)) offset in
    print_characters n m' a (i + 1) offset'

abbrev pub print_measured : Memory → (a offset : ℕ) → Option ℕ → Option (Memory × ℕ)
print_measured m a offset none = none
print_measured m a offset (some n) = some (print_characters n m a 0 offset)

-- kConsolePrintString; the fuel is for the length of the string.
unfoldable pub console_print_string : (fuel : ℕ) → Memory → (a offset : ℕ) → Option (Memory × ℕ)
unfolding str_len print_characters
console_print_string fuel m a offset = print_measured m a offset (str_len fuel m a)

-- kPrintStringXY from character `i` on, on fuel.
unfoldable pub print_string_from : (fuel : ℕ) → Memory → (a i index : ℕ) → Option Memory
unfolding set_character
print_string_from zero m a i index = none
print_string_from (suc fuel) m a i index =
    let rest = print_string_from fuel (set_character m (index + i) (m (a + i))) a (i + 1) index in
    if m (a + i) == 0 then some m else rest

unfoldable pub print_string_xy : (fuel : ℕ) → Memory → (x y a : ℕ) → Option Memory
unfolding print_string_from
print_string_xy fuel m x y a = print_string_from fuel m a 0 (y * console_width + x)

module _ {D : Type 0} (ports : Ports D) where
  -- kSetCursor: the device and iCurrentPrintOffset.
  unfoldable pub set_cursor : D → (x y : ℕ) → D × ℕ
  set_cursor d x y =
      let linear = y * console_width + x in
      let d1 = ports.out_port_byte (ports.out_port_byte d 0x3D4 0x0E) 0x3D5 (linear / 256 % 256) in
      (ports.out_port_byte (ports.out_port_byte d1 0x3D4 0x0F) 0x3D5 (linear % 256), linear)

  unfoldable pub initialize_console : D → (x y : ℕ) → D × ℕ
  unfolding set_cursor
  initialize_console d x y = set_cursor d x y

  abbrev pub printed : D → Option (Memory × ℕ) → Option (Memory × D × ℕ)
  printed d none = none
  printed d (some (m, next)) =
      let (d', offset) = set_cursor d (next % console_width) (next / console_width) in
      some (m, d', offset)

  -- kPrintf once kVSPrintf has written its text to `a`.
  unfoldable pub print_f : (fuel : ℕ) → Memory → D → (a offset : ℕ) → Option (Memory × D × ℕ)
  unfolding console_print_string set_cursor
  print_f fuel m d a offset = printed d (console_print_string fuel m a offset)

  unfoldable pub clear_screen : Memory → D → Memory × D × ℕ
  unfolding fill_spaces set_cursor
  clear_screen m d =
      let (d', offset) = set_cursor d 0 0 in
      (fill_spaces (console_width * console_height) m 0, d', offset)

-- The column and the line.
unfoldable pub get_cursor : (offset : ℕ) → ℕ × ℕ
get_cursor offset = (offset % console_width, offset / console_width)

abbrev pub or_wait :
    {D : Type 0}
    → (Keyboard D → Option (ℕ × Keyboard D))
    → (frame : ℕ) → Keyboard D
    → Keyboard D × Bool
    → Option (ℕ × Keyboard D)
or_wait rest frame other (w, false) = rest other
or_wait rest frame other (w, true) =
    let key = load_key w.memory frame in
    let again = rest w in if key.flags % 2 == 1 then some (key.ascii_code, w) else again

-- kGetCh on fuel: a round takes a key or calls kSchedule, of which the state afterwards is a
-- parameter.
unfoldable pub get_ch :
    {D : Type 0}
    → (fuel : ℕ) → (schedule : Keyboard D → Keyboard D) → (frame : ℕ) → Keyboard D
    → Option (ℕ × Keyboard D)
unfolding get_key_from_key_queue load_key
get_ch zero schedule frame w = none
get_ch (suc fuel) schedule frame w =
    or_wait (get_ch fuel schedule frame) frame (schedule w) (get_key_from_key_queue w frame)
