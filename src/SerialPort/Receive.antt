-- ===== src/SerialPort/Receive.antt =====
-- kReceiveSerialData on a receiver with bytes that wait.
use deodeok_os.Base.{
  ℕ, zero, suc, ◌+◌, ◌-◌, ◌%◌, ◌^◌, ◌≡◌, ◌≢◌, ◌<◌, ◌≤◌, Bool, ltb, ◌==◌, if◌then◌else◌, List, [],
  ◌∷◌, ◌++◌, arith, refl, ap, ◌∙◌, sym, subst, Bool-cases, inl, inr, ◌⊎◌,
}
use deodeok_os.Base.Cells.{update}
use deodeok_os.Memory.{Memory}
use deodeok_os.Keyboard.Controller.{Ports}
use deodeok_os.SerialPort.{
  is_serial_receive_buffer_full, receive_from, receive_serial_data, contents,
}

-- The bytes that wait, first come first. The status changes none of them and has its lowest bit set
-- exactly when there are some; the receive buffer gives the first.
pub record IsReceiver {D : Type 0} (ports : Ports D) (waiting : D → List ℕ) : Type 0 where
  pub status : (d : D) → waiting (ports.in_port_byte d 0x3FD).1 ≡ waiting d
  pub nothing : (d : D) → (ports.in_port_byte d 0x3FD).0 % 2 ≢ 1 → waiting d ≡ []
  pub first :
      (d : D)
      → (ports.in_port_byte d 0x3FD).0 % 2 ≡ 1
      → (ports.in_port_byte (ports.in_port_byte d 0x3FD).1 0x3F8).0
          ∷ waiting (ports.in_port_byte (ports.in_port_byte d 0x3FD).1 0x3F8).1
        ≡ waiting d

contents_same :
    (n : ℕ) (m m' : Memory) (a : ℕ)
    → ((x : ℕ) → a ≤ x → x < a + n → m' x ≡ m x)
    → contents n m' a ≡ contents n m a
unfolding contents
contents_same zero m m' a h = refl
contents_same (suc n) m m' a h =
    ap (λ b. b ∷ contents n m' (a + 1)) (h a (omega arith) (omega arith))
    ∙ ap (λ l. m a ∷ l) (contents_same n m m' (a + 1) (λ x le lt. h x (omega arith) (omega arith)))

-- The bytes received from `i` on and those that still wait are those that waited.
pub record Received {D : Type 0} (waiting : D → List ℕ) (n : ℕ) (m : Memory) (buffer i : ℕ) (d : D)
    (r : ℕ × Memory × D) : Type 0 where
  pub at_least : i ≤ r.0
  pub at_most : r.0 ≤ i + n
  pub bytes : contents (r.0 - i) r.1 (buffer + i) ++ waiting r.2 ≡ waiting d
  pub complete : (r.0 ≡ i + n) ⊎ (waiting r.2 ≡ [])
  pub before : (x : ℕ) → x < buffer + i → r.1 x ≡ m x
  pub behind : (x : ℕ) → buffer + r.0 ≤ x → r.1 x ≡ m x

contents-suc :
    (c i : ℕ) (m : Memory) (buffer : ℕ)
    → i < c
    → contents (c - i) m (buffer + i) ≡ m (buffer + i) ∷ contents (c - (i + 1)) m (buffer + (i + 1))
unfolding contents
contents-suc c i m buffer lt =
    let count : c - i ≡ suc (c - (i + 1)) = omega arith in
    let start : buffer + i + 1 ≡ buffer + (i + 1) = omega arith in
    ap (λ n. contents n m (buffer + i)) count
    ∙ ap (λ b. m (buffer + i) ∷ contents (c - (i + 1)) m b) start

none-Received :
    {D : Type 0} (waiting : D → List ℕ) (n : ℕ) (m : Memory) (buffer i : ℕ) (d d' : D)
    → waiting d' ≡ waiting d
    → (i ≡ i + n) ⊎ (waiting d' ≡ [])
    → Received waiting n m buffer i d (i, m, d')
unfolding contents
none-Received waiting n m buffer i d d' same over = record {
  at_least = omega arith;
  at_most = omega arith;
  bytes =
      let nothing : i - i ≡ 0 = omega arith in
      ap (λ n. contents n m (buffer + i) ++ waiting d') nothing ∙ same;
  complete = over;
  before = λ x lt. refl;
  behind = λ x le. refl;
}

module _ {D : Type 0} {ports : Ports D} {waiting : D → List ℕ} (t : IsReceiver ports waiting) where
  receive_from-Received :
      (n : ℕ) (m : Memory) (buffer i : ℕ) (d : D)
      → Received waiting n m buffer i d (receive_from ports n m buffer i d)
  unfolding receive_from is_serial_receive_buffer_full
  receive_from-Received zero m buffer i d =
      none-Received waiting 0 m buffer i d d refl (inl (omega arith))
  receive_from-Received (suc n) m buffer i d =
      let read = ports.in_port_byte d 0x3FD in
      let byte = ports.in_port_byte read.1 0x3F8 in
      let m' = update m (buffer + i) byte.0 in
      let rest = receive_from ports n m' buffer (i + 1) byte.1 in
      let state =
        λ (b : Bool). Received waiting (suc n) m buffer i d (if b then rest else (i, m, read.1)) in
      elim (Bool-cases (read.0 % 2 == 1)) [
        | inl y ↦
            let later = receive_from-Received n m' buffer (i + 1) byte.1 in
            let kept : rest.1 (buffer + i) ≡ byte.0 =
              later.before (buffer + i) (omega arith) ∙ ground arith in
            let shift : (suc n) + i ≡ n + (i + 1) = omega arith in
            subst state (sym y) (record {
              at_least = omega (arith, later.at_least);
              at_most = omega (arith, later.at_most);
              bytes =
                  ap (λ l. l ++ waiting rest.2)
                    (contents-suc rest.0 i rest.1 buffer (omega (arith, later.at_least)))
                  ∙ ap
                      (λ b.
                        b
                        ∷ (contents (rest.0 - (i + 1)) rest.1 (buffer + (i + 1)) ++ waiting rest.2))
                      kept
                  ∙ ap (λ l. byte.0 ∷ l) later.bytes
                  ∙ t.first d (ground arith);
              complete = elim later.complete [ inl e ↦ inl (omega arith) | inr e ↦ inr e ];
              before = λ x lt. later.before x (omega arith) ∙ ground arith;
              behind = λ x le. later.behind x le ∙ ground (arith, later.at_least);
            })
        | inr k ↦
            let empty : read.0 % 2 ≢ 1 = ground arith in
            subst state (sym k) (
              none-Received waiting (suc n) m buffer i d read.1 (t.status d)
                (inr (t.status d ∙ t.nothing d empty)))
      ]

  -- kReceiveSerialData takes the bytes that wait, in order, into the buffer, until the size is reached
  -- or no byte waits, returns their number, and writes nothing else.
  pub receive_serial_data-Received :
      (m : Memory) (buffer size : ℕ) (d : D)
      → size < 2 ^ 31
      → Received waiting size m buffer 0 d (receive_serial_data ports m buffer size d)
  unfolding receive_serial_data
  receive_serial_data-Received m buffer size d small =
      let positive : (if ltb size (2 ^ 31) then size else 0) ≡ size = ground arith in
      subst (λ n. Received waiting size m buffer 0 d (receive_from ports n m buffer 0 d))
        (sym positive) (receive_from-Received size m buffer 0 d)
