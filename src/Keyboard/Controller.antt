-- ===== src/Keyboard/Controller.antt =====
-- Keyboard.c: the waits for the keyboard controller. The ports and the interrupt flag are a
-- parameter over the device's state `D`.
use Prim.Native.Nat.{bit_or}
use deodeok_os.Base.{
  ℕ, zero, suc, ◌/◌, ◌%◌, Bool, true, false, ◌==◌, if◌then◌else◌, Option, none, some,
}

-- kInPortByte, kOutPortByte and kSetInterruptFlag: what they return and the device afterwards.
pub record Ports (D : Type 0) : Type 0 where
  pub in_port_byte : D → ℕ → ℕ × D
  pub out_port_byte : D → ℕ → ℕ → D
  pub set_interrupt_flag : D → Bool → Bool × D

-- The 0xFFFF rounds of each polling loop.
abbrev pub poll_rounds : ℕ
poll_rounds = 0xFFFF

module _ {D : Type 0} (ports : Ports D) where
  unfoldable pub is_output_buffer_full : D → Bool × D
  is_output_buffer_full d =
      let (b, d') = ports.in_port_byte d 0x64 in if b % 2 == 1 then (true, d') else (false, d')

  unfoldable pub is_input_buffer_full : D → Bool × D
  is_input_buffer_full d =
      let (b, d') = ports.in_port_byte d 0x64 in if b / 2 % 2 == 1 then (true, d') else (false, d')

  -- for(i = 0; i < 0xFFFF; i++) if(kIsOutputBufferFull() == TRUE) break;
  unfoldable pub poll_output : ℕ → D → D
  poll_output zero d = d
  poll_output (suc n) d =
      let (full, d') = is_output_buffer_full d in
      let rest = poll_output n d' in if full then d' else rest

  -- for(i = 0; i < 0xFFFF; i++) if(kIsInputBufferFull() == FALSE) break;
  unfoldable pub poll_input : ℕ → D → D
  poll_input zero d = d
  poll_input (suc n) d =
      let (full, d') = is_input_buffer_full d in
      let rest = poll_input n d' in if full then rest else d'

  -- kGetKeyboardScanCode on fuel, since its loop has no bound.
  unfoldable pub get_keyboard_scan_code : ℕ → D → Option (ℕ × D)
  get_keyboard_scan_code zero d = none
  get_keyboard_scan_code (suc fuel) d =
      let (full, d') = is_output_buffer_full d in
      let rest = get_keyboard_scan_code fuel d' in
      if full then some (ports.in_port_byte d' 0x60) else rest

  unfoldable pub enable_a20_gate : D → D
  unfolding poll_output poll_input
  enable_a20_gate d =
      let d' = poll_output poll_rounds (ports.out_port_byte d 0x64 0xD0) in
      let (output_port, d'') = ports.in_port_byte d' 0x60 in
      let d''' = ports.out_port_byte (poll_input poll_rounds d'') 0x64 0xD1 in
      ports.out_port_byte d''' 0x60 (bit_or output_port 0x01)

  -- kReboot up to its endless loop.
  unfoldable pub reboot : D → D
  unfolding poll_input
  reboot d =
      let d' = ports.out_port_byte (poll_input poll_rounds d) 0x64 0xD1 in
      ports.out_port_byte d' 0x64 0x00
