-- ===== src/SerialPort/Tests.antt =====
-- A serial port with a buffer of 16 bytes, for the theorems on sending and receiving.
use deodeok_os.Base.{
  ℕ, ◌+◌, ◌-◌, ◌%◌, ◌≡◌, ◌≢◌, ◌<◌, true, ◌==◌, if◌then◌else◌, List, [], ◌∷◌, ◌++◌, arith, refl,
}
use deodeok_os.Memory.{Memory}
use deodeok_os.Keyboard.Controller.{Ports}
use deodeok_os.SerialPort.{send_serial_data, receive_serial_data, contents}
use deodeok_os.SerialPort.Transmit.{IsTransmitter, Sent, send_serial_data-Sent}
use deodeok_os.SerialPort.Receive.{IsReceiver, Received, receive_serial_data-Received}

-- The bytes sent, how many of them the buffer still holds, and the bytes that wait.
record Line : Type 0 where
  sent : List ℕ
  pending : ℕ
  waiting : List ℕ

abbrev data_ready : List ℕ → ℕ
data_ready [] = 0
data_ready (b ∷ l) = 1

abbrev first_byte : List ℕ → ℕ
first_byte [] = 0
first_byte (b ∷ l) = b

abbrev other_bytes : List ℕ → List ℕ
other_bytes [] = []
other_bytes (b ∷ l) = l

abbrev line_status : Line → ℕ
line_status d = (if d.pending == 0 then 0x20 else 0) + data_ready d.waiting

abbrev line_ports : Ports Line
line_ports = record {
  in_port_byte = λ d a.
      if a == 0x3F8
      then (first_byte d.waiting, record d { waiting = other_bytes d.waiting })
      else (line_status d, d);
  out_port_byte = λ d a b.
      if a == 0x3F8 then record d { sent = d.sent ++ (b ∷ []); pending = d.pending + 1 } else d;
  set_interrupt_flag = λ d b. (true, d);
}

abbrev line_sleep : Line → Line
line_sleep d = record d { pending = d.pending - 1 }

data_ready-lt : (l : List ℕ) → data_ready l < 2
data_ready-lt [] = omega arith
data_ready-lt (b ∷ l) = omega arith

line-IsTransmitter :
    IsTransmitter line_ports line_sleep (λ d. d.sent) (λ d. 16 - d.pending) (λ d. d.pending) 16
line-IsTransmitter = record {
  status_sent = λ d. refl;
  status_busy = λ d. omega arith;
  ready = λ d h. ground (arith, data_ready-lt d.waiting);
  empty = λ d h. ground (arith, data_ready-lt d.waiting);
  sleep_sent = λ d. refl;
  sleep_busy = λ d. omega arith;
  write_sent = λ d b h. refl;
  write_room = λ d b h. omega arith;
  write_busy = λ d b h. omega arith;
}

line_nothing : (s : ℕ) (l : List ℕ) → s % 2 ≡ 0 → (s + data_ready l) % 2 ≢ 1 → l ≡ []
line_nothing s [] e h = refl
line_nothing s (b ∷ l) e h = absurd (h (omega arith))

line_first :
    (s : ℕ) (l : List ℕ) → s % 2 ≡ 0 → (s + data_ready l) % 2 ≡ 1 → first_byte l ∷ other_bytes l ≡ l
line_first s [] e h = absurd (omega arith)
line_first s (b ∷ l) e h = refl

line-IsReceiver : IsReceiver line_ports (λ d. d.waiting)
line-IsReceiver = record {
  status = λ d. refl;
  nothing = λ d h. line_nothing (if d.pending == 0 then 0x20 else 0) d.waiting (ground arith) h;
  first = λ d h. line_first (if d.pending == 0 then 0x20 else 0) d.waiting (ground arith) h;
}

-- Three bytes of earlier calls are still in the buffer.
abbrev line : Line
line = record { sent = 1 ∷ 2 ∷ 3 ∷ []; pending = 3; waiting = 7 ∷ 8 ∷ 9 ∷ [] }

abbrev counting : Memory
counting x = x % 256

send_serial_data-Sent_example :
    Sent line-IsTransmitter line
      (contents 20 counting 100)
      (send_serial_data line_ports line_sleep 21 17 counting 100 20 line)
send_serial_data-Sent_example =
    send_serial_data-Sent line-IsTransmitter 21 17 counting 100 20 line (omega arith) (omega arith)
      (omega arith) (omega arith)

receive_serial_data-Received_example :
    Received
      (λ d. d.waiting)
      5
      counting
      100
      0
      line
      (receive_serial_data line_ports counting 100 5 line)
receive_serial_data-Received_example =
    receive_serial_data-Received line-IsReceiver counting 100 5 line (omega arith)

-- Five bytes fit, three wait.
received_three : (receive_serial_data line_ports counting 100 5 line).0 ≡ 3
unfolding receive_serial_data
received_three = refl
