-- ===== src/Keyboard/Convert.antt =====
-- Keyboard.c: scan codes become keys in the queue. A lock key changes the LEDs, which waits for the
-- keyboard's ACK and converts every other code that comes in the meantime, so the functions call one
-- another: each takes the call for a code that comes in, and the fuel of
-- convert_scan_code_and_put_queue is how deep the calls may nest. A step under the spinlock is one
-- step. `frame` is the address of stData.
use deodeok_os.Base.{ℕ, zero, suc, ◌+◌, ◌*◌, Bool, true, false, ◌==◌, Option, none, some}
use deodeok_os.Base.Cells.{update}
use deodeok_os.Memory.{Memory}
use deodeok_os.Queue.{RingQueue, initialize_queue, put_queue, get_queue}
use deodeok_os.Keyboard.Table.{KeyMappingEntry}
use deodeok_os.Keyboard.State.{KeyboardManager, KeyData, convert_code}
use deodeok_os.Keyboard.Controller.{Ports, poll_rounds, poll_output, poll_input}

abbrev pub key_max_queue_count : ℕ
key_max_queue_count = 100

abbrev pub key_data_size : ℕ
key_data_size = 3

-- The variables of the file, the memory, and the device behind the ports.
pub record Keyboard (D : Type 0) : Type 0 where
  pub manager : KeyboardManager
  pub key_queue : RingQueue
  pub memory : Memory
  pub device : D

-- KEYDATA in memory: its three bytes.
unfoldable pub store_key : Memory → ℕ → KeyData → Memory
store_key m a key =
    update (update (update m a key.scan_code) (a + 1) key.ascii_code) (a + 2) key.flags

unfoldable pub load_key : Memory → ℕ → KeyData
load_key m a = record { scan_code = m a; ascii_code = m (a + 1); flags = m (a + 2) }

abbrev pub bit : Bool → ℕ
bit true = 1
bit false = 0

-- How the functions call kConvertScanCodeAndPutQueue; none if the calls nest too deep.
abbrev pub Converter : Type 0 → Type 0
Converter D = Keyboard D → ℕ → Option (Keyboard D × Bool)

module _ {D : Type 0} (ports : Ports D) where
  abbrev pub out : Keyboard D → ℕ → ℕ → Keyboard D
  out w port b = record w { device = ports.out_port_byte w.device port b }

  abbrev pub set_interrupt : Keyboard D → Bool → Bool × Keyboard D
  set_interrupt w b =
      let (old, d) = ports.set_interrupt_flag w.device b in (old, record w { device = d })

  abbrev pub wait_input : Keyboard D → Keyboard D
  wait_input w = record w { device = poll_input ports poll_rounds w.device }

  -- One round of kWaitForACKAndPutOtherScanCode up to its test: bData and the state.
  abbrev pub receive : Keyboard D → ℕ × Keyboard D
  receive w =
      let (b, d) = ports.in_port_byte (poll_output ports poll_rounds w.device) 0x60 in
      (b, record w { device = d })

  -- The rest of the rounds, `j` of them; bResult.
  unfoldable pub wait_rounds : Converter D → ℕ → Keyboard D → Option (Keyboard D × Bool)
  wait_rounds convert zero w = some (w, false)
  wait_rounds convert (suc j) w =
      let (b, w') = receive w in
      elim (b == 0xFA) [
        | true ↦ some (w', true)
        | false ↦ elim (convert w' b) [ none ↦ none | some (w'', done) ↦ wait_rounds convert j w'' ]
      ]

  unfoldable pub wait_for_ack : Converter D → Keyboard D → Option (Keyboard D × Bool)
  wait_for_ack convert w = wait_rounds convert 100 w

  abbrev pub restore : Bool → Option (Keyboard D × Bool) → Option (Keyboard D × Bool)
  restore previous none = none
  restore previous (some (w, result)) = some ((set_interrupt w previous).1, result)

  unfoldable pub activate_keyboard : Converter D → Keyboard D → Option (Keyboard D × Bool)
  unfolding wait_for_ack
  activate_keyboard convert w =
      let (previous, w') = set_interrupt w false in
      restore previous (wait_for_ack convert (out (wait_input (out w' 0x64 0xAE)) 0x60 0xF4))

  -- kChangeKeyboardLED after the first ACK.
  abbrev pub set_led :
      Converter D
      → Bool
      → (caps num scroll : Bool) → Option (Keyboard D × Bool)
      → Option (Keyboard D × Bool)
  set_led convert previous caps num scroll none = none
  set_led convert previous caps num scroll (some (w, false)) =
      some ((set_interrupt w previous).1, false)
  set_led convert previous caps num scroll (some (w, true)) =
      restore previous
        (wait_for_ack convert (wait_input (out w 0x60 (bit caps * 4 + bit num * 2 + bit scroll))))

  unfoldable pub change_keyboard_led :
      Converter D → Keyboard D → (caps num scroll : Bool) → Option (Keyboard D × Bool)
  unfolding wait_for_ack
  change_keyboard_led convert w caps num scroll =
      let (previous, w') = set_interrupt w false in
      set_led convert previous caps num scroll
        (wait_for_ack convert (wait_input (out (wait_input w') 0x60 0xED)))

  -- The end of UpdateCombinationKeyStatusAndLED, which drops the result of the LEDs.
  unfoldable pub update_led : Converter D → Bool → Keyboard D → Option (Keyboard D)
  unfolding change_keyboard_led
  update_led convert false w = some w
  update_led convert true w =
      elim (change_keyboard_led convert w w.manager.caps_lock_on w.manager.num_lock_on
        w.manager.scroll_lock_on) [ none ↦ none | some (w', done) ↦ some w' ]

module _ {D : Type 0} (frame : ℕ) where
  -- The key is put only after the codes that came during the LEDs' wait.
  abbrev pub put_key : Option KeyData → Keyboard D → Keyboard D × Bool
  put_key none w = (w, false)
  put_key (some key) w =
      let (done, q, m) = put_queue w.key_queue (store_key w.memory frame key) frame in
      (record w { key_queue = q; memory = m }, done)

  abbrev pub then_put : Option KeyData → Option (Keyboard D) → Option (Keyboard D × Bool)
  then_put key none = none
  then_put key (some w) = some (put_key key w)

module _ {D : Type 0} (ports : Ports D) (beyond : ℕ → KeyMappingEntry) (frame : ℕ) where
  unfoldable pub convert_and_put : Converter D → Converter D
  unfolding update_led store_key
  convert_and_put convert w scan =
      let c = convert_code beyond w.manager scan in
      then_put frame c.key
        (update_led ports convert c.led_changed (record w { manager = c.manager }))

  unfoldable pub convert_scan_code_and_put_queue : ℕ → Converter D
  unfolding convert_and_put
  convert_scan_code_and_put_queue zero w scan = none
  convert_scan_code_and_put_queue (suc fuel) w scan =
      convert_and_put (convert_scan_code_and_put_queue fuel) w scan

  unfoldable pub initialize_keyboard : ℕ → Keyboard D → (buffer : ℕ) → Option (Keyboard D × Bool)
  unfolding activate_keyboard convert_scan_code_and_put_queue
  initialize_keyboard fuel w buffer =
      activate_keyboard ports (convert_scan_code_and_put_queue fuel)
        (record w { key_queue = initialize_queue buffer key_max_queue_count key_data_size })

-- The address of the caller's KEYDATA is `destination`.
unfoldable pub get_key_from_key_queue :
    {D : Type 0} → Keyboard D → (destination : ℕ) → Keyboard D × Bool
get_key_from_key_queue w destination =
    let (done, q, m) = get_queue w.key_queue w.memory destination in
    (record w { key_queue = q; memory = m }, done)
