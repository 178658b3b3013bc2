-- ===== src/Keyboard/Tests.antt =====
-- The keyboard's theorems at concrete codes, and runs.
use deodeok_os.Base.{
  ℕ, ◌<◌, ◌≤◌, ◌≡◌, refl, Bool, true, false, ◌==◌, if◌then◌else◌, Option, none, some, List, [], ◌∷◌,
  ◌++◌, ap, arith, length,
}
use deodeok_os.Memory.{Memory, mem_cpy}
use deodeok_os.Queue.{initialize_queue, put_queue}
use deodeok_os.Queue.Window.{IsValid, contents}
use deodeok_os.Queue.Refine.{initialize-IsValid}
use deodeok_os.Keyboard.Table.{KeyMappingEntry, entry}
use deodeok_os.Keyboard.State.{KeyData, initial_manager, convert_code, run_codes}
use deodeok_os.Keyboard.Controller.{
  Ports, poll_output, is_output_buffer_full, poll_input, is_input_buffer_full,
}
use deodeok_os.Keyboard.Convert.{
  Keyboard, wait_rounds, load_key, convert_scan_code_and_put_queue, get_key_from_key_queue,
}
use deodeok_os.Keyboard.Codes.{plain_codes, Follows, run_codes-Follows}
use deodeok_os.Keyboard.Nesting.{SendsFinitely, Records, convert_scan_code-Ends}
use deodeok_os.Keyboard.Keys.{IsReady}
use deodeok_os.Keyboard.RoundTrip.{get_key-convert}

abbrev blank : ℕ → KeyMappingEntry
blank _ = entry 0 0

-- Shift and A, a pause sequence with a num lock code in it, and the caps lock.
abbrev typing : List ℕ
typing = 0x2A ∷ 0x1E ∷ 0xAA ∷ 0xE1 ∷ 0x1D ∷ 0x45 ∷ 0x3A ∷ []

typing_plain : plain_codes 0 typing ≡ 0x2A ∷ 0x1E ∷ 0xAA ∷ 0x3A ∷ []
unfolding plain_codes
typing_plain = refl

run_codes-Follows_example :
    Follows initial_manager
      (run_codes blank initial_manager typing)
      (plain_codes initial_manager.skip_count_for_pause typing)
run_codes-Follows_example = run_codes-Follows blank initial_manager typing (omega arith)

-- A device that has some bytes to send and then answers with ACKs, and the codes that it has sent.
abbrev Line : Type 0
Line = List ℕ × List ℕ

read_byte : List ℕ → List ℕ → ℕ × Line
read_byte [] g = (0xFA, ([], g))
read_byte (c ∷ l) g = (c, (l, if c == 0xFA then g else g ++ (c ∷ [])))

read_port : Line → ℕ → ℕ × Line
read_port d port = if port == 0x64 then (1, d) else read_byte d.0 d.1

abbrev device : Ports Line
device = record {
  in_port_byte = read_port;
  out_port_byte = λ l port b. l;
  set_interrupt_flag = λ l b. (true, l);
}

data_read-length : (l g : List ℕ) → length (read_byte l g).1.0 ≤ length l
unfolding read_byte
data_read-length [] g = omega arith
data_read-length (c ∷ l) g = omega arith

sent-length :
    (l g : List ℕ) → ((read_byte l g).0 == 0xFA) ≡ false → length (read_byte l g).1.0 < length l
unfolding read_byte
sent-length [] g h = ground arith
sent-length (c ∷ l) g h = omega arith

device-SendsFinitely : SendsFinitely device (λ d. length d.0)
unfolding read_port
device-SendsFinitely = record {
  status_read = λ d. omega arith;
  data_read = λ d. data_read-length d.0 d.1;
  sent = λ d h. sent-length d.0 d.1 h;
  written = λ d port b. omega arith;
  interrupts = λ d b. omega arith;
}

ack_recorded : (l g : List ℕ) → ((read_byte l g).0 == 0xFA) ≡ true → (read_byte l g).1.1 ≡ g
unfolding read_byte
ack_recorded [] g h = refl
ack_recorded (c ∷ l) g h = ap (λ (b : Bool). if b then g else g ++ (c ∷ [])) h

code_recorded :
    (l g : List ℕ)
    → ((read_byte l g).0 == 0xFA) ≡ false
    → (read_byte l g).1.1 ≡ g ++ ((read_byte l g).0 ∷ [])
unfolding read_byte
code_recorded [] g h = absurd (ground arith)
code_recorded (c ∷ l) g h = ap (λ (b : Bool). if b then g else g ++ (c ∷ [])) h

device-Records : Records device (λ d. d.1)
unfolding read_port
device-Records = record {
  status_read = λ d. refl;
  ack_read = λ d h. ack_recorded d.0 d.1 h;
  code_read = λ d h. code_recorded d.0 d.1 h;
  written = λ d port b. refl;
  interrupts = λ d b. refl;
}

abbrev cleared : Memory
cleared _ = 0

-- An empty key queue at address 64, and a device with two codes to send.
abbrev start : Keyboard Line
start = record {
  manager = initial_manager;
  key_queue = initialize_queue 64 100 3;
  memory = cleared;
  device = (0x1E ∷ 0x9E ∷ [], []);
}

convert_scan_code-Ends_example :
    (r : Keyboard Line × Bool) × (convert_scan_code_and_put_queue device blank 8 3 start 0x3A
      ≡ some r)
    × ((more : List ℕ) × (r.0.device.1 ≡ start.device.1 ++ more)
        × (r.0.manager ≡ run_codes blank start.manager (0x3A ∷ more)))
    × (IsValid start.key_queue → IsValid r.0.key_queue)
convert_scan_code-Ends_example =
    convert_scan_code-Ends device (λ d. length d.0) device-SendsFinitely (λ d. d.1) device-Records
      blank 8 3 start 0x3A (omega arith)

start-IsReady : IsReady start 8
unfolding initialize_queue
start-IsReady = record {
  valid = (initialize-IsValid 64 100 3 cleared (omega arith) (omega arith)).0;
  size = refl;
  bytes = λ a. omega arith;
  away = omega arith;
}

abbrev letter_a : KeyData
letter_a = record { scan_code = 0x1E; ascii_code = b'a'; flags = 1 }

get_key-convert_example :
    (w' : Keyboard Line) × (convert_scan_code_and_put_queue device blank 8 1 start 0x1E
      ≡ some (w', true))
    × (let (w'', done) = get_key_from_key_queue w' 16 in
        (done ≡ true)
        × (load_key w''.memory 16 ≡ letter_a)
        × (contents w''.key_queue w''.memory ≡ []))
unfolding initialize_queue convert_code initial_manager
get_key-convert_example =
    get_key-convert device blank (λ i. omega arith) 8 16 0 0x1E start start-IsReady (omega arith)
      refl (omega arith) refl {key = letter_a} refl

-- The letters that come while the caps lock waits for its ACKs are put before the caps lock.
abbrev scan_codes : Option (Keyboard Line × Bool) → List (List ℕ)
scan_codes none = []
scan_codes (some (w, _)) = contents w.key_queue w.memory

caps_lock_last :
    scan_codes (convert_scan_code_and_put_queue device blank 8 3 start 0x3A)
    ≡ (0x1E ∷ b'A' ∷ 1 ∷ []) ∷ (0x9E ∷ b'A' ∷ 0 ∷ []) ∷ (0x3A ∷ 0x86 ∷ 1 ∷ []) ∷ []
unfolding convert_scan_code_and_put_queue initialize_queue initial_manager convert_code read_port
    wait_rounds poll_output is_output_buffer_full poll_input is_input_buffer_full put_queue mem_cpy
    read_byte
caps_lock_last = refl
