-- ===== src/Devices.antt =====
-- volumes/02.Kernel64/Source/PIC.c, PIT.c and RTC.c: the interrupt controller, the timer and the
-- clock. The ports are a parameter over the device's state `D`.
mod Tests
use Prim.Native.Nat.{bit_or}
use deodeok_os.Base.{
  ℕ, zero, suc, ◌+◌, ◌-◌, ◌*◌, ◌/◌, ◌%◌, ◌^◌, ◌≡◌, ◌<◌, Bool, true, false, leb, if◌then◌else◌,
  Option, none, some, List, [], ◌∷◌, arith,
}
use deodeok_os.Keyboard.Controller.{Ports}

-- RTC_BCDTOBINARY of a byte.
unfoldable pub bcd_to_binary : ℕ → ℕ
bcd_to_binary x = x / 16 * 10 + x % 16

-- Two decimal digits come back from their BCD byte.
bcd_to_binary-digits : (n : ℕ) → n < 100 → bcd_to_binary (n / 10 * 16 + n % 10) ≡ n
unfolding bcd_to_binary
bcd_to_binary-digits n lt = omega arith

-- The names of the days, the first for an error.
abbrev pub day_names : List (List ℕ)
day_names =
    (b'E' ∷ b'r' ∷ b'r' ∷ b'o' ∷ b'r' ∷ [])
    ∷ (b'S' ∷ b'u' ∷ b'n' ∷ b'd' ∷ b'a' ∷ b'y' ∷ [])
    ∷ (b'M' ∷ b'o' ∷ b'n' ∷ b'd' ∷ b'a' ∷ b'y' ∷ [])
    ∷ (b'T' ∷ b'u' ∷ b'e' ∷ b's' ∷ b'd' ∷ b'a' ∷ b'y' ∷ [])
    ∷ (b'W' ∷ b'e' ∷ b'd' ∷ b'n' ∷ b'e' ∷ b's' ∷ b'd' ∷ b'a' ∷ b'y' ∷ [])
    ∷ (b'T' ∷ b'h' ∷ b'u' ∷ b'r' ∷ b's' ∷ b'd' ∷ b'a' ∷ b'y' ∷ [])
    ∷ (b'F' ∷ b'r' ∷ b'i' ∷ b'd' ∷ b'a' ∷ b'y' ∷ [])
    ∷ (b'S' ∷ b'a' ∷ b't' ∷ b'u' ∷ b'r' ∷ b'd' ∷ b'a' ∷ b'y' ∷ [])
    ∷ []

abbrev pub day_name : List (List ℕ) → ℕ → List ℕ
day_name [] n = []
day_name (s ∷ l) zero = s
day_name (s ∷ l) (suc n) = day_name l n

unfoldable pub convert_day_of_week_to_string : (day_of_week : ℕ) → List ℕ
convert_day_of_week_to_string n = if leb 8 n then day_name day_names 0 else day_name day_names n

module _ {D : Type 0} (ports : Ports D) where
  unfoldable pub initialize_pic : D → D
  initialize_pic d =
      let d1 = ports.out_port_byte d 0x20 0x11 in
      let d2 = ports.out_port_byte d1 0x21 0x20 in
      let d3 = ports.out_port_byte d2 0x21 0x04 in
      let d4 = ports.out_port_byte d3 0x21 0x01 in
      let d5 = ports.out_port_byte d4 0xA0 0x11 in
      let d6 = ports.out_port_byte d5 0xA1 (0x20 + 8) in
      let d7 = ports.out_port_byte d6 0xA1 0x02 in ports.out_port_byte d7 0xA1 0x01

  unfoldable pub mask_pic_interrupt : D → (irq_bitmask : ℕ) → D
  mask_pic_interrupt d mask =
      ports.out_port_byte (ports.out_port_byte d 0x21 (mask % 256)) 0xA1 (mask / 256 % 256)

  -- An int that is not negative.
  unfoldable pub send_eoi_to_pic : D → (irq_number : ℕ) → D
  send_eoi_to_pic d irq =
      let d1 = ports.out_port_byte d 0x20 0x20 in
      let d2 = ports.out_port_byte d1 0xA0 0x20 in if leb 8 irq then d2 else d1

  unfoldable pub initialize_pit : D → (count : ℕ) → (periodic : Bool) → D
  initialize_pit d count periodic =
      let d1 = ports.out_port_byte d 0x43 0x30 in
      let d2 = if periodic then ports.out_port_byte d1 0x43 0x34 else d1 in
      ports.out_port_byte (ports.out_port_byte d2 0x40 (count % 256)) 0x40 (count / 256 % 256)

  unfoldable pub read_counter0 : D → ℕ × D
  read_counter0 d =
      let d1 = ports.out_port_byte d 0x43 0x00 in
      let (low_byte, d2) = ports.in_port_byte d1 0x40 in
      let (high_byte, d3) = ports.in_port_byte d2 0x40 in (bit_or (high_byte / 2 ^ 8) low_byte, d3)

  -- The loop of kWaitUsingDirectPIT, on fuel: (last - current) & 0xFFFF is a difference of WORDs.
  unfoldable pub wait_for_counter : (fuel : ℕ) → (last count : ℕ) → D → Option D
  unfolding read_counter0
  wait_for_counter zero last count d = none
  wait_for_counter (suc fuel) last count d =
      let (current, d') = read_counter0 d in
      let rest = wait_for_counter fuel last count d' in
      if leb count ((last + 2 ^ 16 - current) % 2 ^ 16) then some d' else rest

  unfoldable pub wait_using_direct_pit : (fuel : ℕ) → (count : ℕ) → D → Option D
  unfolding initialize_pit read_counter0 wait_for_counter
  wait_using_direct_pit fuel count d =
      let (last, d') = read_counter0 (initialize_pit d 0 true) in
      wait_for_counter fuel last count d'

  -- The value of a register of the clock.
  unfoldable pub read_rtc_register : D → (address : ℕ) → ℕ × D
  unfolding bcd_to_binary
  read_rtc_register d address =
      let (value, d') = ports.in_port_byte (ports.out_port_byte d 0x70 address) 0x71 in
      (bcd_to_binary value, d')

  -- Hour, minute and second.
  unfoldable pub read_rtc_time : D → ℕ × ℕ × ℕ × D
  unfolding read_rtc_register
  read_rtc_time d =
      let (hour, d1) = read_rtc_register d 0x04 in
      let (minute, d2) = read_rtc_register d1 0x02 in
      let (second, d3) = read_rtc_register d2 0x00 in (hour % 256, minute % 256, second % 256, d3)

  -- Year, month, day of the month and day of the week.
  unfoldable pub read_rtc_date : D → ℕ × ℕ × ℕ × ℕ × D
  unfolding read_rtc_register
  read_rtc_date d =
      let (year, d1) = read_rtc_register d 0x09 in
      let (month, d2) = read_rtc_register d1 0x08 in
      let (day, d3) = read_rtc_register d2 0x07 in
      let (day_of_week, d4) = read_rtc_register d3 0x06 in
      (year + 2000, month % 256, day % 256, day_of_week % 256, d4)
