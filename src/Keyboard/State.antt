-- ===== src/Keyboard/State.antt =====
-- Keyboard.c: the keyboard manager's state and what a scan code does to it, without the ports.
-- The table has 89 entries and the code indexes it by up to 127: `beyond` is what lies behind it.
use Prim.Native.Nat.{bit_or}
use deodeok_os.Base.{
  ℕ, ◌-◌, ◌/◌, ◌%◌, Bool, true, false, not, ◌&&◌, ◌||◌, ltb, leb, ◌==◌, if◌then◌else◌, Option, none,
  some, get_elem?, List, [], ◌∷◌,
}
use deodeok_os.Keyboard.Table.{KeyMappingEntry, key_mapping_table, key_pause}

-- KEYBOARDMANAGER; the spinlock is the subject of SpinLock.
pub record KeyboardManager : Type 0 where
  pub shift_down : Bool
  pub caps_lock_on : Bool
  pub num_lock_on : Bool
  pub scroll_lock_on : Bool
  pub extended_code_in : Bool
  pub skip_count_for_pause : ℕ

abbrev pub key_skip_count_for_pause : ℕ
key_skip_count_for_pause = 2

abbrev pub key_flags_down : ℕ
key_flags_down = 1

abbrev pub key_flags_extended_key : ℕ
key_flags_extended_key = 2

-- gs_stKeyboardManager as the program starts.
unfoldable pub initial_manager : KeyboardManager
initial_manager = record {
  shift_down = false;
  caps_lock_on = false;
  num_lock_on = false;
  scroll_lock_on = false;
  extended_code_in = false;
  skip_count_for_pause = 0;
}

abbrev pub xor : Bool → Bool → Bool
xor true b = not b
xor false b = b

abbrev pub pick_entry : KeyMappingEntry → Option KeyMappingEntry → KeyMappingEntry
pick_entry other none = other
pick_entry _ (some e) = e

-- gs_vstKeyMappingTable[bScanCode].
unfoldable pub mapping_entry : (ℕ → KeyMappingEntry) → ℕ → KeyMappingEntry
unfolding key_mapping_table
mapping_entry beyond scan = pick_entry (beyond scan) (get_elem? key_mapping_table scan)

unfoldable pub is_alphabet_scan_code : (ℕ → KeyMappingEntry) → ℕ → Bool
unfolding mapping_entry
is_alphabet_scan_code beyond scan =
    if leb b'a' (mapping_entry beyond scan).normal_code
      && leb (mapping_entry beyond scan).normal_code b'z'
    then true
    else false

unfoldable pub is_number_or_symbol_scan_code : (ℕ → KeyMappingEntry) → ℕ → Bool
unfolding is_alphabet_scan_code
is_number_or_symbol_scan_code beyond scan =
    if leb 2 scan && leb scan 53 && not (is_alphabet_scan_code beyond scan) then true else false

unfoldable pub is_number_pad_scan_pad : ℕ → Bool
is_number_pad_scan_pad scan = if leb 71 scan && leb scan 83 then true else false

-- bScanCode & 0x7F and bScanCode & 0x80.
abbrev pub down_code : ℕ → ℕ
down_code scan = scan % 128

abbrev pub is_release : ℕ → Bool
is_release scan = scan / 128 % 2 == 1

unfoldable pub is_use_combined_code : (ℕ → KeyMappingEntry) → KeyboardManager → ℕ → Bool
unfolding is_alphabet_scan_code is_number_or_symbol_scan_code is_number_pad_scan_pad
is_use_combined_code beyond k scan =
    let down = down_code scan in
    if is_alphabet_scan_code beyond down
    then if xor k.shift_down k.caps_lock_on then true else false
    else if is_number_or_symbol_scan_code beyond down
    then if k.shift_down then true else false
    else if is_number_pad_scan_pad down && not k.extended_code_in
    then if k.num_lock_on then true else false
    else false

-- UpdateCombinationKeyStatusAndLED up to the LEDs: the state, and bLEDStatusChanged.
unfoldable pub update_combination_key_status : KeyboardManager → ℕ → KeyboardManager × Bool
update_combination_key_status k scan =
    let down = not (is_release scan) in
    let code = if is_release scan then down_code scan else scan in
    if (code == 42) || (code == 54)
    then (record k { shift_down = down }, false)
    else if (code == 58) && down
    then (record k { caps_lock_on = not k.caps_lock_on }, true)
    else if (code == 69) && down
    then (record k { num_lock_on = not k.num_lock_on }, true)
    else if (code == 70) && down
    then (record k { scroll_lock_on = true }, true)
    else (k, false)

-- KEYDATA
pub record KeyData : Type 0 where
  pub scan_code : ℕ
  pub ascii_code : ℕ
  pub flags : ℕ

-- *pbASCIICode of a plain scan code.
unfoldable pub ascii_code_of : (ℕ → KeyMappingEntry) → KeyboardManager → ℕ → ℕ
unfolding mapping_entry is_use_combined_code
ascii_code_of beyond k scan =
    if is_use_combined_code beyond k scan
    then (mapping_entry beyond (down_code scan)).combined_code
    else (mapping_entry beyond (down_code scan)).normal_code

-- *pbFlags of a plain scan code.
unfoldable pub flags_of : KeyboardManager → ℕ → ℕ
flags_of k scan =
    let flags = if k.extended_code_in then key_flags_extended_key else 0 in
    if is_release scan then flags else bit_or flags key_flags_down

-- What kConvertScanCodeToASCIICode does before the LEDs: the state, the key if it returns TRUE, and
-- whether the LEDs have to change.
pub record Conversion : Type 0 where
  pub manager : KeyboardManager
  pub key : Option KeyData
  pub led_changed : Bool

abbrev pub plain_conversion : (ℕ → KeyMappingEntry) → KeyboardManager → ℕ → Conversion
plain_conversion beyond k scan =
    let (k', led) = update_combination_key_status (record k { extended_code_in = false }) scan in
    record {
      manager = k';
      key = some (record {
        scan_code = scan;
        ascii_code = ascii_code_of beyond k scan;
        flags = flags_of k scan;
      });
      led_changed = led;
    }

unfoldable pub convert_code : (ℕ → KeyMappingEntry) → KeyboardManager → ℕ → Conversion
unfolding ascii_code_of flags_of update_combination_key_status
convert_code beyond k scan =
    if ltb 0 k.skip_count_for_pause
    then record {
      manager = record k { skip_count_for_pause = k.skip_count_for_pause - 1 };
      key = none;
      led_changed = false;
    }
    else if scan == 0xE1
    then record {
      manager = record k { skip_count_for_pause = key_skip_count_for_pause };
      key = some (record { scan_code = scan; ascii_code = key_pause; flags = key_flags_down });
      led_changed = false;
    }
    else if scan == 0xE0
    then record { manager = record k { extended_code_in = true }; key = none; led_changed = false }
    else plain_conversion beyond k scan

-- The state after a list of scan codes, oldest first.
unfoldable pub run_codes : (ℕ → KeyMappingEntry) → KeyboardManager → List ℕ → KeyboardManager
run_codes beyond k [] = k
run_codes beyond k (scan ∷ l) = run_codes beyond (convert_code beyond k scan).manager l
