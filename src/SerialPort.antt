-- ===== src/SerialPort.antt =====
-- volumes/02.Kernel64/Source/SerialPort.c: the serial port COM1. The ports and kSleep(0) are
-- parameters over the device's state `D`; a function runs under its mutex.
pub mod Transmit
pub mod Receive
mod Tests
use deodeok_os.Base.{
  ℕ, zero, suc, ◌+◌, ◌-◌, ◌/◌, ◌%◌, ◌^◌, Bool, true, false, ltb, ◌==◌, ◌&&◌, if◌then◌else◌, Option,
  none, some, List, [], ◌∷◌,
}
use deodeok_os.Base.Cells.{update}
use deodeok_os.Memory.{Memory}
use deodeok_os.Keyboard.Controller.{Ports}

-- SERIAL_PORT_COM1 and SERIAL_FIFOMAXSIZE.
abbrev pub serial_port_com1 : ℕ
serial_port_com1 = 0x3F8

abbrev pub serial_fifo_max_size : ℕ
serial_fifo_max_size = 16

-- iTempSize = MIN(iSize - iSentByte, SERIAL_FIFOMAXSIZE).
unfoldable pub burst : (left : ℕ) → ℕ
burst left = if ltb left serial_fifo_max_size then left else serial_fifo_max_size

module _ {D : Type 0} (ports : Ports D) where
  unfoldable pub initialize_serial_port : D → D
  initialize_serial_port d =
      let d1 = ports.out_port_byte d (serial_port_com1 + 1) 0 in
      let d2 = ports.out_port_byte d1 (serial_port_com1 + 3) 0x80 in
      let d3 = ports.out_port_byte d2 (serial_port_com1 + 0) 1 in
      let d4 = ports.out_port_byte d3 (serial_port_com1 + 1) (1 / 256) in
      let d5 = ports.out_port_byte d4 (serial_port_com1 + 3) 0x03 in
      ports.out_port_byte d5 (serial_port_com1 + 2) 0xC1

  unfoldable pub is_serial_transmitter_buffer_empty : D → Bool × D
  is_serial_transmitter_buffer_empty d =
      let (value, d') = ports.in_port_byte d (serial_port_com1 + 5) in (value / 0x20 % 2 == 1, d')

  unfoldable pub is_serial_receive_buffer_full : D → Bool × D
  is_serial_receive_buffer_full d =
      let (value, d') = ports.in_port_byte d (serial_port_com1 + 5) in (value % 2 == 1, d')

  -- The wait for the transmitter, on fuel.
  unfoldable pub wait_transmitter : (sleep : D → D) → (polls : ℕ) → D → Option D
  unfolding is_serial_transmitter_buffer_empty
  wait_transmitter sleep zero d = none
  wait_transmitter sleep (suc polls) d =
      let (empty, d') = is_serial_transmitter_buffer_empty d in
      let rest = wait_transmitter sleep polls (sleep d') in if empty then some d' else rest

  -- The loop that fills the transmitter's buffer with `n` bytes from `a` on.
  unfoldable pub send_bytes : (n : ℕ) → Memory → (a : ℕ) → D → D
  send_bytes zero m a d = d
  send_bytes (suc n) m a d =
      send_bytes n m (a + 1) (ports.out_port_byte d (serial_port_com1 + 0) (m a))

  abbrev pub send_burst : (D → Option D) → Memory → (a size : ℕ) → Option D → Option D
  send_burst rest m a size none = none
  send_burst rest m a size (some d) = rest (send_bytes size m a d)

  -- while(iSentByte < iSize), on fuel; a negative size, which has its highest bit set, is less.
  unfoldable pub send_rounds :
      (sleep : D → D) → (fuel polls : ℕ) → Memory → (buffer size sent_byte : ℕ) → D → Option D
  unfolding burst wait_transmitter send_bytes
  send_rounds sleep zero polls m buffer size sent d = none
  send_rounds sleep (suc fuel) polls m buffer size sent d =
      let temp_size = burst (size - sent) in
      let rest =
        send_burst (send_rounds sleep fuel polls m buffer size (sent + temp_size)) m (buffer + sent)
          temp_size (wait_transmitter sleep polls d) in
      if ltb sent size && ltb size (2 ^ 31) then rest else some d

  unfoldable pub send_serial_data :
      (sleep : D → D) → (fuel polls : ℕ) → Memory → (buffer size : ℕ) → D → Option D
  unfolding send_rounds
  send_serial_data sleep fuel polls m buffer size d = send_rounds sleep fuel polls m buffer size 0 d

  -- The loop of kReceiveSerialData from `i` on, `n` bytes left.
  unfoldable pub receive_from : (n : ℕ) → Memory → (buffer i : ℕ) → D → ℕ × Memory × D
  unfolding is_serial_receive_buffer_full
  receive_from zero m buffer i d = (i, m, d)
  receive_from (suc n) m buffer i d =
      let (full, d') = is_serial_receive_buffer_full d in
      let (value, d'') = ports.in_port_byte d' (serial_port_com1 + 0) in
      let rest = receive_from n (update m (buffer + i) value) buffer (i + 1) d'' in
      if full then rest else (i, m, d')

  -- The count, the buffer's memory and the device.
  unfoldable pub receive_serial_data : Memory → (buffer size : ℕ) → D → ℕ × Memory × D
  unfolding receive_from
  receive_serial_data m buffer size d =
      receive_from (if ltb size (2 ^ 31) then size else 0) m buffer 0 d

  unfoldable pub clear_serial_fifo : D → D
  clear_serial_fifo d = ports.out_port_byte d (serial_port_com1 + 2) 0xC7

-- The `n` bytes from `a` on.
unfoldable pub contents : (n : ℕ) → Memory → (a : ℕ) → List ℕ
contents zero m a = []
contents (suc n) m a = m a ∷ contents n m (a + 1)
