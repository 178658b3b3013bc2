-- ===== src/Keyboard/Nesting.antt =====
-- The calls that a lock key nests come to an end with a device that sends finitely many codes.
use deodeok_os.Base.{
  ℕ, zero, suc, ◌+◌, ◌*◌, ◌/◌, ◌%◌, ◌<◌, ◌≤◌, ◌≡◌, refl, Bool, true, false, ◌==◌, Option, none,
  some, List, [], ◌∷◌, ◌++◌, append-nil, append_assoc, if◌then◌else◌, arith, ap, ◌∙◌, sym, inl, inr,
  Bool-cases,
}
use deodeok_os.Queue.Window.{IsValid}
use deodeok_os.Queue.Refine.{put-IsValid}
use deodeok_os.Keyboard.Table.{KeyMappingEntry}
use deodeok_os.Keyboard.State.{KeyboardManager, KeyData, convert_code, run_codes}
use deodeok_os.Keyboard.Controller.{
  Ports, poll_rounds, is_output_buffer_full, is_input_buffer_full, poll_output, poll_input,
}
use deodeok_os.Keyboard.Convert.{
  Keyboard, Converter, store_key, receive, wait_rounds, wait_for_ack, change_keyboard_led,
  update_led, convert_and_put, convert_scan_code_and_put_queue, restore, set_led, bit, then_put,
  out, wait_input, set_interrupt, put_key,
}

-- `pending` counts the bytes other than ACKs that the device still has to send: a byte read from
-- the data port is an ACK or one of them, and no other access adds any.
pub record SendsFinitely {D : Type 0} (ports : Ports D) (pending : D → ℕ) : Type 0 where
  pub status_read : (d : D) → pending (ports.in_port_byte d 0x64).1 ≤ pending d
  pub data_read : (d : D) → pending (ports.in_port_byte d 0x60).1 ≤ pending d
  pub sent :
      (d : D)
      → ((ports.in_port_byte d 0x60).0 == 0xFA) ≡ false
      → pending (ports.in_port_byte d 0x60).1 < pending d
  pub written : (d : D) (port b : ℕ) → pending (ports.out_port_byte d port b) ≤ pending d
  pub interrupts : (d : D) (b : Bool) → pending (ports.set_interrupt_flag d b).1 ≤ pending d

-- `received` is the bytes other than ACKs that have been read from the data port, in order; no other
-- access is one of these reads.
pub record Records {D : Type 0} (ports : Ports D) (received : D → List ℕ) : Type 0 where
  pub status_read : (d : D) → received (ports.in_port_byte d 0x64).1 ≡ received d
  pub ack_read :
      (d : D)
      → ((ports.in_port_byte d 0x60).0 == 0xFA) ≡ true
      → received (ports.in_port_byte d 0x60).1 ≡ received d
  pub code_read :
      (d : D)
      → ((ports.in_port_byte d 0x60).0 == 0xFA) ≡ false
      → received (ports.in_port_byte d 0x60).1 ≡ received d ++ ((ports.in_port_byte d 0x60).0 ∷ [])
  pub written : (d : D) (port b : ℕ) → received (ports.out_port_byte d port b) ≡ received d
  pub interrupts : (d : D) (b : Bool) → received (ports.set_interrupt_flag d b).1 ≡ received d

run_codes-append :
    (beyond : ℕ → KeyMappingEntry) (k : KeyboardManager) (xs ys : List ℕ)
    → run_codes beyond k (xs ++ ys) ≡ run_codes beyond (run_codes beyond k xs) ys
unfolding run_codes
run_codes-append beyond k [] ys = refl
run_codes-append beyond k (x ∷ xs) ys =
    run_codes-append beyond (convert_code beyond k x).manager xs ys

module _ {D : Type 0} (ports : Ports D) (pending : D → ℕ) (fin : SendsFinitely ports pending)
    (received : D → List ℕ) (log : Records ports received) (beyond : ℕ → KeyMappingEntry)
    (frame : ℕ) where
  poll_output-le : (n : ℕ) (d : D) → pending (poll_output ports n d) ≤ pending d
  unfolding poll_output is_output_buffer_full
  poll_output-le zero d = omega arith
  poll_output-le (suc n) d =
      ground (arith, fin.status_read d, poll_output-le n (ports.in_port_byte d 0x64).1)

  poll_input-le : (n : ℕ) (d : D) → pending (poll_input ports n d) ≤ pending d
  unfolding poll_input is_input_buffer_full
  poll_input-le zero d = omega arith
  poll_input-le (suc n) d =
      ground (arith, fin.status_read d, poll_input-le n (ports.in_port_byte d 0x64).1)

  -- What a reading of the status says, and the device after it.
  abbrev status : Bool → D → Bool × D
  status b d = if b then (true, d) else (false, d)

  status-received :
      (b : Bool) (d : D) (full other : D → D) (l : List ℕ)
      → received (full d) ≡ l
      → received (other d) ≡ l
      → received (if (status b d).0 then full (status b d).1 else other (status b d).1) ≡ l
  status-received true d full other l e e' = e
  status-received false d full other l e e' = e'

  poll_output-received : (n : ℕ) (d : D) → received (poll_output ports n d) ≡ received d
  unfolding poll_output is_output_buffer_full
  poll_output-received zero d = refl
  poll_output-received (suc n) d =
      let (b, d') = ports.in_port_byte d 0x64 in
      status-received (b % 2 == 1) d' (λ d. d) (poll_output ports n) (received d)
        (log.status_read d) (poll_output-received n d' ∙ log.status_read d)

  poll_input-received : (n : ℕ) (d : D) → received (poll_input ports n d) ≡ received d
  unfolding poll_input is_input_buffer_full
  poll_input-received zero d = refl
  poll_input-received (suc n) d =
      let (b, d') = ports.in_port_byte d 0x64 in
      status-received (b / 2 % 2 == 1) d' (poll_input ports n) (λ d. d) (received d)
        (poll_input-received n d' ∙ log.status_read d) (log.status_read d)

  -- The state that the codes `l` lead to, with the codes `g` read from the device on the way and no
  -- more bytes pending.
  record Traced (w w' : Keyboard D) (l g : List ℕ) : Type 0 where
    codes : w'.manager ≡ run_codes beyond w.manager l
    heard : received w'.device ≡ received w.device ++ g
    fewer : pending w'.device ≤ pending w.device
    valid : IsValid w.key_queue → IsValid w'.key_queue

  Traced-trans :
      {w w' w'' : Keyboard D} (l l' g g' : List ℕ)
      → Traced w w' l g
      → Traced w' w'' l' g'
      → Traced w w'' (l ++ l') (g ++ g')
  Traced-trans {w} {w'} {w''} l l' g g' t u = record {
    codes =
        u.codes
        ∙ ap (λ k. run_codes beyond k l') t.codes
        ∙ sym (run_codes-append beyond w.manager l l');
    heard = u.heard ∙ ap (λ x. x ++ g') t.heard ∙ append_assoc (received w.device) g g';
    fewer = omega (arith, t.fewer, u.fewer);
    valid = λ v. u.valid (t.valid v);
  }

  Traced-device :
      (w : Keyboard D) (d : D)
      → pending d ≤ pending w.device
      → received d ≡ received w.device
      → Traced w (record w { device = d }) [] []
  unfolding run_codes
  Traced-device w d h e = record {
    codes = refl;
    heard = e ∙ sym (append-nil (received w.device));
    fewer = h;
    valid = λ v. v;
  }

  -- The call ends, and has converted the codes `l` and then those that it read while it waited.
  abbrev Ends : Keyboard D → List ℕ → Option (Keyboard D × Bool) → Type 0
  Ends w l o =
      (r : Keyboard D × Bool) × (o ≡ some r) × ((more : List ℕ) × Traced w r.0 (l ++ more) more)

  Ends-after :
      {w w' : Keyboard D} (l : List ℕ) (o : Option (Keyboard D × Bool))
      → Traced w w' l []
      → Ends w' [] o
      → Ends w l o
  Ends-after l o t (r, e, (more, u)) = (r, e, (more, Traced-trans l more [] more t u))

  restore-Ends :
      (w : Keyboard D) (b : Bool) (o : Option (Keyboard D × Bool))
      → Ends w [] o
      → Ends w [] (restore ports b o)
  restore-Ends w b o (r, e, (more, u)) = (
    (_, r.1),
    rw e refl,
    (
      more ++ [],
      Traced-trans more [] more [] u
          (Traced-device r.0 _ (fin.interrupts r.0.device b) (log.interrupts r.0.device b)),
    ),
  )

  module _ (convert : Converter D) (n : ℕ)
      (good : (w : Keyboard D) (b : ℕ) → pending w.device < n → Ends w (b ∷ []) (convert w b)) where
    read_pending : (w : Keyboard D) → pending (receive ports w).1.device ≤ pending w.device
    read_pending w = omega (
      arith,
      poll_output-le poll_rounds w.device,
      fin.data_read (poll_output ports poll_rounds w.device),
    )

    read_ack :
        (w : Keyboard D) → ((receive ports w).0 == 0xFA) ≡ true → Traced w (receive ports w).1 [] []
    read_ack w e = Traced-device w _ (read_pending w) (
        log.ack_read (poll_output ports poll_rounds w.device) e
        ∙ poll_output-received poll_rounds w.device)

    read_code :
        (w : Keyboard D)
        → ((receive ports w).0 == 0xFA) ≡ false
        → Traced w (receive ports w).1 [] ((receive ports w).0 ∷ [])
    unfolding run_codes
    read_code w e = record {
      codes = refl;
      heard =
          log.code_read (poll_output ports poll_rounds w.device) e
          ∙ ap (λ l. l ++ ((receive ports w).0 ∷ [])) (poll_output-received poll_rounds w.device);
      fewer = read_pending w;
      valid = λ v. v;
    }

    wait_ack :
        (j : ℕ) (w : Keyboard D)
        → ((receive ports w).0 == 0xFA) ≡ true
        → wait_rounds ports convert (suc j) w ≡ some ((receive ports w).1, true)
    unfolding wait_rounds
    wait_ack j w e = rw (e, wait_rounds) refl

    wait_other :
        (j : ℕ) (w : Keyboard D) (r : Keyboard D × Bool)
        → ((receive ports w).0 == 0xFA) ≡ false
        → convert (receive ports w).1 (receive ports w).0 ≡ some r
        → wait_rounds ports convert (suc j) w ≡ wait_rounds ports convert j r.0
    unfolding wait_rounds
    wait_other j w r e c = rw (e, c, wait_rounds) refl

    read_fewer :
        (w : Keyboard D)
        → ((receive ports w).0 == 0xFA) ≡ false
        → pending w.device < suc n
        → pending (receive ports w).1.device < n
    read_fewer w e h = omega (
      arith,
      poll_output-le poll_rounds w.device,
      fin.sent (poll_output ports poll_rounds w.device) e,
    )

    wait_rounds-Ends :
        (j : ℕ) (w : Keyboard D)
        → pending w.device < suc n
        → Ends w [] (wait_rounds ports convert j w)
    wait_rounds-Ends zero w h =
        ((w, false), unfold wait_rounds in refl, ([], Traced-device w w.device (omega arith) refl))
    wait_rounds-Ends (suc j) w h = elim (Bool-cases ((receive ports w).0 == 0xFA)) [
      | inl e ↦ (((receive ports w).1, true), wait_ack j w e, ([], read_ack w e))
      | inr e ↦
          let (r, c, (more, t)) = good (receive ports w).1 (receive ports w).0 (read_fewer w e h) in
          let u =
            Traced-trans [] ((receive ports w).0 ∷ more) ((receive ports w).0 ∷ []) more
              (read_code w e) t in
          let (r', c', (more', t')) = wait_rounds-Ends j r.0 (omega (arith, u.fewer)) in
          (
            r',
            wait_other j w r e c ∙ c',
            (
              _,
              Traced-trans ((receive ports w).0 ∷ more) more' ((receive ports w).0 ∷ more) more' u
                  t',
            ),
          )
    ]

    wait_for_ack-Ends :
        (w : Keyboard D) → pending w.device < suc n → Ends w [] (wait_for_ack ports convert w)
    unfolding wait_for_ack
    wait_for_ack-Ends w h = wait_rounds-Ends 100 w h

    set_led-Ends :
        (w : Keyboard D) (b c m s : Bool) (r : Keyboard D × Bool)
        → pending r.0.device < suc n
        → Ends r.0 [] (set_led ports convert b c m s (some r))
    set_led-Ends w b c m s (v, false) h = (
      (_, false),
      refl,
      ([], Traced-device v _ (fin.interrupts v.device b) (log.interrupts v.device b)),
    )
    set_led-Ends w b c m s (v, true) h =
        let lit : Keyboard D =
          wait_input ports (out ports v 0x60 (bit c * 4 + bit m * 2 + bit s)) in
        let t =
          Traced-device v lit.device
            (omega (
              arith,
              poll_input-le poll_rounds
                  (ports.out_port_byte v.device 0x60 (bit c * 4 + bit m * 2 + bit s)),
              fin.written v.device 0x60 (bit c * 4 + bit m * 2 + bit s),
            ))
            (poll_input-received poll_rounds
                (ports.out_port_byte v.device 0x60 (bit c * 4 + bit m * 2 + bit s))
              ∙ log.written v.device 0x60 (bit c * 4 + bit m * 2 + bit s)) in
        Ends-after [] _ t (
          restore-Ends lit b (wait_for_ack ports convert lit)
            (wait_for_ack-Ends lit (omega (arith, t.fewer))))

    change_led-Ends :
        (w : Keyboard D) (c m s : Bool)
        → pending w.device < suc n
        → Ends w [] (change_keyboard_led ports convert w c m s)
    unfolding change_keyboard_led
    change_led-Ends w c m s h =
        let off = (set_interrupt ports w false).1 in
        let asked : Keyboard D = wait_input ports (out ports (wait_input ports off) 0x60 0xED) in
        let t =
          Traced-device w asked.device
            (omega (
              arith,
              fin.interrupts w.device false,
              poll_input-le poll_rounds off.device,
              fin.written (poll_input ports poll_rounds off.device) 0x60 0xED,
              poll_input-le poll_rounds
                  (ports.out_port_byte (poll_input ports poll_rounds off.device) 0x60 0xED),
            ))
            (poll_input-received poll_rounds
                (ports.out_port_byte (poll_input ports poll_rounds off.device) 0x60 0xED)
              ∙ log.written (poll_input ports poll_rounds off.device) 0x60 0xED
              ∙ poll_input-received poll_rounds off.device
              ∙ log.interrupts w.device false) in
        let (r, e, (more, u)) = wait_for_ack-Ends asked (omega (arith, t.fewer)) in
        let (r', e', (more', u')) =
          set_led-Ends asked (set_interrupt ports w false).0 c m s r
            (omega (arith, t.fewer, u.fewer)) in
        (
          r',
          ap (set_led ports convert (set_interrupt ports w false).0 c m s) e ∙ e',
          (_, Traced-trans more more' more more' (Traced-trans [] more [] more t u) u'),
        )

    update_led-Ends :
        (led : Bool) (w : Keyboard D)
        → pending w.device < suc n
        → (w' : Keyboard D) × (update_led ports convert led w ≡ some w')
          × ((more : List ℕ) × Traced w w' more more)
    unfolding update_led
    update_led-Ends false w h = (w, refl, ([], Traced-device w w.device (omega arith) refl))
    update_led-Ends true w h =
        let k = w.manager in
        let (r, e, t) = change_led-Ends w k.caps_lock_on k.num_lock_on k.scroll_lock_on h in
        (r.0, rw (e, update_led) refl, t)

  put_key-Traced : (key : Option KeyData) (w : Keyboard D) → Traced w (put_key frame key w).0 [] []
  unfolding run_codes
  put_key-Traced none w = Traced-device w w.device (omega arith) refl
  put_key-Traced (some key) w = record {
    codes = refl;
    heard = sym (append-nil (received w.device));
    fewer = omega arith;
    valid = λ v. put-IsValid (store_key w.memory frame key) frame v;
  }

  module _ (convert : Converter D) (n : ℕ)
      (good : (w : Keyboard D) (b : ℕ) → pending w.device < n → Ends w (b ∷ []) (convert w b)) where
    convert_and_put-Ends :
        (w : Keyboard D) (scan : ℕ)
        → pending w.device < suc n
        → Ends w (scan ∷ []) (convert_and_put ports beyond frame convert w scan)
    unfolding convert_and_put run_codes
    convert_and_put-Ends w scan h =
        let c = convert_code beyond w.manager scan in
        let w1 : Keyboard D = record w { manager = c.manager } in
        let t : Traced w w1 (scan ∷ []) [] = record {
          codes = refl;
          heard = sym (append-nil (received w.device));
          fewer = omega arith;
          valid = λ v. v;
        } in
        let (w2, e, (more, u)) = update_led-Ends convert n good c.led_changed w1 h in
        (
          put_key frame c.key w2,
          ap (then_put frame c.key) e,
          (
            more ++ [],
            Traced-trans (scan ∷ []) (more ++ []) [] (more ++ []) t
                (Traced-trans more [] more [] u (put_key-Traced c.key w2)),
          ),
        )

  Ends-below :
      (n : ℕ) (w : Keyboard D) (scan : ℕ)
      → pending w.device < n
      → Ends w (scan ∷ []) (convert_scan_code_and_put_queue ports beyond frame n w scan)
  unfolding convert_scan_code_and_put_queue
  Ends-below zero w scan h = absurd (omega arith)
  Ends-below (suc n) w scan h =
      convert_and_put-Ends (convert_scan_code_and_put_queue ports beyond frame n) n (Ends-below n) w
        scan h

  -- With a device that has fewer than `n` bytes other than ACKs left to send,
  -- kConvertScanCodeAndPutQueue nests its calls at most `n` deep and returns; the keyboard manager is
  -- then where the code leads, and after it the codes that it has read from the data port during the
  -- waits for an ACK, in the order in which they came, and the key queue is valid if it was.
  pub convert_scan_code-Ends :
      (n : ℕ) (w : Keyboard D) (scan : ℕ)
      → pending w.device < n
      → (r : Keyboard D × Bool) × (convert_scan_code_and_put_queue ports beyond frame n w scan
          ≡ some r)
        × ((more : List ℕ) × (received r.0.device ≡ received w.device ++ more)
            × (r.0.manager ≡ run_codes beyond w.manager (scan ∷ more)))
        × (IsValid w.key_queue → IsValid r.0.key_queue)
  convert_scan_code-Ends n w scan h =
      let (r, e, (more, t)) = Ends-below n w scan h in (r, e, (more, t.heard, t.codes), t.valid)
