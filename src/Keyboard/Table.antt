-- ===== src/Keyboard/Table.antt =====
-- volumes/02.Kernel64/Source/Keyboard.h and Keyboard.c: the key codes and the table that gives each
-- scan code its code without and with a combination key.
use deodeok_os.Base.{ℕ, List, [], ◌∷◌}

-- KEYMAPPINGENTRY
pub record KeyMappingEntry : Type 0 where
  pub normal_code : ℕ
  pub combined_code : ℕ

abbrev pub entry : (normal_code combined_code : ℕ) → KeyMappingEntry
entry normal combined = record { normal_code = normal; combined_code = combined }

abbrev pub key_none : ℕ
key_none = 0x00

abbrev pub key_tab : ℕ
key_tab = 0x09

abbrev pub key_esc : ℕ
key_esc = 0x1B

abbrev pub key_backspace : ℕ
key_backspace = 0x08

abbrev pub key_ctrl : ℕ
key_ctrl = 0x81

abbrev pub key_lshift : ℕ
key_lshift = 0x82

abbrev pub key_rshift : ℕ
key_rshift = 0x83

abbrev pub key_lalt : ℕ
key_lalt = 0x85

abbrev pub key_capslock : ℕ
key_capslock = 0x86

abbrev pub key_f1 : ℕ
key_f1 = 0x87

abbrev pub key_f2 : ℕ
key_f2 = 0x88

abbrev pub key_f3 : ℕ
key_f3 = 0x89

abbrev pub key_f4 : ℕ
key_f4 = 0x8A

abbrev pub key_f5 : ℕ
key_f5 = 0x8B

abbrev pub key_f6 : ℕ
key_f6 = 0x8C

abbrev pub key_f7 : ℕ
key_f7 = 0x8D

abbrev pub key_f8 : ℕ
key_f8 = 0x8E

abbrev pub key_f9 : ℕ
key_f9 = 0x8F

abbrev pub key_f10 : ℕ
key_f10 = 0x90

abbrev pub key_numlock : ℕ
key_numlock = 0x91

abbrev pub key_scrolllock : ℕ
key_scrolllock = 0x92

abbrev pub key_home : ℕ
key_home = 0x93

abbrev pub key_up : ℕ
key_up = 0x94

abbrev pub key_pageup : ℕ
key_pageup = 0x95

abbrev pub key_left : ℕ
key_left = 0x96

abbrev pub key_center : ℕ
key_center = 0x97

abbrev pub key_right : ℕ
key_right = 0x98

abbrev pub key_end : ℕ
key_end = 0x99

abbrev pub key_down : ℕ
key_down = 0x9A

abbrev pub key_pagedown : ℕ
key_pagedown = 0x9B

abbrev pub key_ins : ℕ
key_ins = 0x9C

abbrev pub key_del : ℕ
key_del = 0x9D

abbrev pub key_f11 : ℕ
key_f11 = 0x9E

abbrev pub key_f12 : ℕ
key_f12 = 0x9F

abbrev pub key_pause : ℕ
key_pause = 0xA0

-- gs_vstKeyMappingTable, by scan code.
unfoldable pub key_mapping_table : List KeyMappingEntry
key_mapping_table =
    entry key_none key_none
    ∷ entry key_esc key_esc
    ∷ entry b'1' b'!'
    ∷ entry b'2' b'@'
    ∷ entry b'3' b'#'
    ∷ entry b'4' b'$'
    ∷ entry b'5' b'%'
    ∷ entry b'6' b'^'
    ∷ entry b'7' b'&'
    ∷ entry b'8' b'*'
    ∷ entry b'9' b'('
    ∷ entry b'0' b')'
    ∷ entry b'-' b'_'
    ∷ entry b'=' b'+'
    ∷ entry key_backspace key_backspace
    ∷ entry key_tab key_tab
    ∷ entry b'q' b'Q'
    ∷ entry b'w' b'W'
    ∷ entry b'e' b'E'
    ∷ entry b'r' b'R'
    ∷ entry b't' b'T'
    ∷ entry b'y' b'Y'
    ∷ entry b'u' b'U'
    ∷ entry b'i' b'I'
    ∷ entry b'o' b'O'
    ∷ entry b'p' b'P'
    ∷ entry b'[' b'{'
    ∷ entry b']' b'}'
    ∷ entry 0x0A 0x0A
    ∷ entry key_ctrl key_ctrl
    ∷ entry b'a' b'A'
    ∷ entry b's' b'S'
    ∷ entry b'd' b'D'
    ∷ entry b'f' b'F'
    ∷ entry b'g' b'G'
    ∷ entry b'h' b'H'
    ∷ entry b'j' b'J'
    ∷ entry b'k' b'K'
    ∷ entry b'l' b'L'
    ∷ entry b';' b':'
    ∷ entry 0x27 0x22
    ∷ entry b'`' b'~'
    ∷ entry key_lshift key_lshift
    ∷ entry 0x5C b'|'
    ∷ entry b'z' b'Z'
    ∷ entry b'x' b'X'
    ∷ entry b'c' b'C'
    ∷ entry b'v' b'V'
    ∷ entry b'b' b'B'
    ∷ entry b'n' b'N'
    ∷ entry b'm' b'M'
    ∷ entry b',' b'<'
    ∷ entry b'.' b'>'
    ∷ entry b'/' b'?'
    ∷ entry key_rshift key_rshift
    ∷ entry b'*' b'*'
    ∷ entry key_lalt key_lalt
    ∷ entry b' ' b' '
    ∷ entry key_capslock key_capslock
    ∷ entry key_f1 key_f1
    ∷ entry key_f2 key_f2
    ∷ entry key_f3 key_f3
    ∷ entry key_f4 key_f4
    ∷ entry key_f5 key_f5
    ∷ entry key_f6 key_f6
    ∷ entry key_f7 key_f7
    ∷ entry key_f8 key_f8
    ∷ entry key_f9 key_f9
    ∷ entry key_f10 key_f10
    ∷ entry key_numlock key_numlock
    ∷ entry key_scrolllock key_scrolllock
    ∷ entry key_home b'7'
    ∷ entry key_up b'8'
    ∷ entry key_pageup b'9'
    ∷ entry b'-' b'-'
    ∷ entry key_left b'4'
    ∷ entry key_center b'5'
    ∷ entry key_right b'6'
    ∷ entry b'+' b'+'
    ∷ entry key_end b'1'
    ∷ entry key_down b'2'
    ∷ entry key_pagedown b'3'
    ∷ entry key_ins b'0'
    ∷ entry key_del b'.'
    ∷ entry key_none key_none
    ∷ entry key_none key_none
    ∷ entry key_none key_none
    ∷ entry key_f11 key_f11
    ∷ entry key_f12 key_f12
    ∷ []
