-- ===== src/SerialPort/Transmit.antt =====
-- kSendSerialData on a transmitter with a buffer of 16 bytes.
use deodeok_os.Base.{
  ℕ, zero, suc, ◌+◌, ◌-◌, ◌/◌, ◌%◌, ◌^◌, ◌≡◌, ◌<◌, ◌≤◌, Bool, ltb, ◌==◌, ◌&&◌, if◌then◌else◌,
  Option, some, List, [], ◌∷◌, ◌++◌, append-nil, append_assoc, arith, refl, ap, ◌∙◌, sym, subst,
  Bool-cases, inl, inr,
}
use deodeok_os.Memory.{Memory}
use deodeok_os.Keyboard.Controller.{Ports}
use deodeok_os.SerialPort.{
  burst, wait_transmitter, is_serial_transmitter_buffer_empty, send_bytes, send_burst, send_rounds,
  send_serial_data, contents,
}

-- A transmitter: what it has been given to send, the room in its buffer, and how often kSleep(0) has
-- to be called before the buffer is empty, at most `limit`. A byte needs room.
pub record IsTransmitter {D : Type 0} (ports : Ports D) (sleep : D → D) (sent : D → List ℕ)
    (room busy : D → ℕ) (limit : ℕ) : Type 0 where
  pub status_sent : (d : D) → sent (ports.in_port_byte d 0x3FD).1 ≡ sent d
  pub status_busy : (d : D) → busy (ports.in_port_byte d 0x3FD).1 ≤ busy d
  pub ready : (d : D) → busy d ≡ 0 → (ports.in_port_byte d 0x3FD).0 / 0x20 % 2 ≡ 1
  pub empty :
      (d : D)
      → (ports.in_port_byte d 0x3FD).0 / 0x20 % 2 ≡ 1
      → room (ports.in_port_byte d 0x3FD).1 ≡ 16
  pub sleep_sent : (d : D) → sent (sleep d) ≡ sent d
  pub sleep_busy : (d : D) → busy (sleep d) ≤ busy d - 1
  pub write_sent :
      (d : D) (b : ℕ) → 0 < room d → sent (ports.out_port_byte d 0x3F8 b) ≡ sent d ++ (b ∷ [])
  pub write_room : (d : D) (b : ℕ) → 0 < room d → room (ports.out_port_byte d 0x3F8 b) + 1 ≡ room d
  pub write_busy : (d : D) (b : ℕ) → 0 < room d → busy (ports.out_port_byte d 0x3F8 b) ≤ limit

contents_add :
    (n k : ℕ) (m : Memory) (a : ℕ) → contents n m a ++ contents k m (a + n) ≡ contents (n + k) m a
unfolding contents
contents_add zero k m a =
    let start : a + 0 ≡ a = omega arith in
    let count : k ≡ 0 + k = omega arith in
    ap (λ b. contents k m b) start ∙ ap (λ n. contents n m a) count
contents_add (suc n) k m a =
    let start : a + suc n ≡ a + 1 + n = omega arith in
    let count : suc (n + k) ≡ suc n + k = omega arith in
    ap (λ b. m a ∷ (contents n m (a + 1) ++ contents k m b)) start
    ∙ ap (λ l. m a ∷ l) (contents_add n k m (a + 1))
    ∙ ap (λ n. contents n m a) count

module _ {D : Type 0} {ports : Ports D} {sleep : D → D} {sent : D → List ℕ} {room busy : D → ℕ}
    {limit : ℕ} (t : IsTransmitter ports sleep sent room busy limit) where
  -- After the wait the buffer is empty.
  record Ready (d : D) (r : Option D) : Type 0 where
    after : D
    waited : r ≡ some after
    same : sent after ≡ sent d
    full_room : room after ≡ 16
    calm : busy after ≤ busy d

  wait_transmitter-Ready :
      (polls : ℕ) (d : D) → busy d < polls → Ready d (wait_transmitter ports sleep polls d)
  unfolding wait_transmitter is_serial_transmitter_buffer_empty
  wait_transmitter-Ready zero d lt = absurd (omega arith)
  wait_transmitter-Ready (suc polls) d lt =
      let read = ports.in_port_byte d 0x3FD in
      let rest = wait_transmitter ports sleep polls (sleep read.1) in
      let state = λ (b : Bool). Ready d (if b then some read.1 else rest) in
      elim (Bool-cases (read.0 / 0x20 % 2 == 1)) [
        | inl y ↦ subst state (sym y) (record {
          after = read.1;
          waited = refl;
          same = t.status_sent d;
          full_room = t.empty d (ground arith);
          calm = t.status_busy d;
        })
        | inr n ↦
            let soon : busy (sleep read.1) < polls =
              ground (arith, t.ready d, t.status_busy d, t.sleep_busy read.1) in
            let later = wait_transmitter-Ready polls (sleep read.1) soon in
            subst state (sym n) (record {
              after = later.after;
              waited = later.waited;
              same = later.same ∙ t.sleep_sent read.1 ∙ t.status_sent d;
              full_room = later.full_room;
              calm = omega (arith, later.calm, t.sleep_busy read.1, t.status_busy d);
            })
      ]

  -- The buffer has room for the bytes, so all are sent.
  send_bytes-sent :
      (n : ℕ) (m : Memory) (a : ℕ) (d : D)
      → n ≤ room d
      → busy d ≤ limit
      → (sent (send_bytes ports n m a d) ≡ sent d ++ contents n m a)
        × (busy (send_bytes ports n m a d) ≤ limit)
  unfolding send_bytes contents
  send_bytes-sent zero m a d le b = (sym (append-nil (sent d)), b)
  send_bytes-sent (suc n) m a d le b =
      let d' = ports.out_port_byte d 0x3F8 (m a) in
      let rest =
        send_bytes-sent n m (a + 1) d' (omega (arith, t.write_room d (m a) (omega arith)))
          (t.write_busy d (m a) (omega arith)) in
      (
        rest.0
            ∙ ap (λ l. l ++ contents n m (a + 1)) (t.write_sent d (m a) (omega arith))
            ∙ append_assoc (sent d) (m a ∷ []) (contents n m (a + 1)),
        rest.1,
      )

  sent_rest :
      (l : List ℕ) (k n left : ℕ) (m : Memory) (a b : ℕ)
      → k + left ≡ n
      → a + k ≡ b
      → (l ++ contents k m a) ++ contents left m b ≡ l ++ contents n m a
  sent_rest l k n left m a b count start =
      append_assoc l (contents k m a) (contents left m b)
      ∙ ap (λ r. l ++ r)
          (ap (λ x. contents k m a ++ contents left m x) (sym start)
            ∙ contents_add k left m a
            ∙ ap (λ n. contents n m a) count)

  -- All bytes of the buffer have been sent.
  pub record Sent (d : D) (l : List ℕ) (r : Option D) : Type 0 where
    pub after : D
    pub returned : r ≡ some after
    pub bytes : sent after ≡ sent d ++ l

  record Burst (left k : ℕ) : Type 0 where
    some_bytes : 0 < left → 0 < k
    no_more : k ≤ left
    fits : k ≤ 16

  burst-Burst : (left : ℕ) → Burst left (burst left)
  unfolding burst
  burst-Burst left = record {
    some_bytes = λ h. ground arith;
    no_more = ground arith;
    fits = ground arith;
  }

  send_rounds-Sent :
      (fuel polls : ℕ) (m : Memory) (buffer size i : ℕ) (d : D)
      → i ≤ size
      → size < 2 ^ 31
      → size - i < fuel
      → limit < polls
      → busy d ≤ limit
      → Sent d
          (contents (size - i) m (buffer + i))
          (send_rounds ports sleep fuel polls m buffer size i d)
  unfolding send_rounds contents
  send_rounds-Sent zero polls m buffer size i d le small enough poll b = absurd (omega arith)
  send_rounds-Sent (suc fuel) polls m buffer size i d le small enough poll b =
      let k = burst (size - i) in
      let rounds = send_rounds ports sleep fuel polls m buffer size (i + k) in
      let from = send_burst ports rounds m (buffer + i) k in
      let state = λ (b : Bool).
        Sent d (contents (size - i) m (buffer + i))
          (if b then from (wait_transmitter ports sleep polls d) else some d) in
      elim (Bool-cases (ltb i size && ltb size (2 ^ 31))) [
        | inl y ↦
            let ready = wait_transmitter-Ready polls d (omega arith) in
            let size_of = burst-Burst (size - i) in
            let less : i < size = ground arith in
            let wrote =
              send_bytes-sent k m (buffer + i) ready.after
                (omega (arith, size_of.fits, ready.full_room)) (omega (arith, ready.calm)) in
            let later =
              send_rounds-Sent fuel polls m buffer size (i + k)
                (send_bytes ports k m (buffer + i) ready.after) (omega (arith, size_of.no_more))
                small (omega (arith, size_of.some_bytes (omega arith), size_of.no_more)) poll
                wrote.1 in
            subst state (sym y) (record {
              after = later.after;
              returned = ap from ready.waited ∙ later.returned;
              bytes =
                  later.bytes
                  ∙ ap (λ l. l ++ contents (size - (i + k)) m (buffer + (i + k)))
                      (wrote.0 ∙ ap (λ l. l ++ contents k m (buffer + i)) ready.same)
                  ∙ sent_rest (sent d) k (size - i) (size - (i + k)) m (buffer + i)
                      (buffer + (i + k)) (omega (arith, size_of.no_more)) (omega arith);
            })
        | inr n ↦
            let done : size - i ≡ 0 = ground arith in
            subst state (sym n) (record {
              after = d;
              returned = refl;
              bytes =
                  subst (λ n. sent d ≡ sent d ++ contents n m (buffer + i)) (sym done)
                    (sym (append-nil (sent d)));
            })
      ]

  -- kSendSerialData gives a transmitter all bytes of the buffer, in order, and returns, when each of
  -- its waits has more polls than the transmitter takes to empty its buffer of 16 bytes. A
  -- byte written without room would be lost.
  pub send_serial_data-Sent :
      (fuel polls : ℕ) (m : Memory) (buffer size : ℕ) (d : D)
      → size < 2 ^ 31
      → size < fuel
      → limit < polls
      → busy d ≤ limit
      → Sent d (contents size m buffer) (send_serial_data ports sleep fuel polls m buffer size d)
  unfolding send_serial_data
  send_serial_data-Sent fuel polls m buffer size d small enough poll b =
      let start : buffer + 0 ≡ buffer = omega arith in
      let all : size - 0 ≡ size = omega arith in
      subst (λ l. Sent d l (send_rounds ports sleep fuel polls m buffer size 0 d))
        (ap (λ n. contents n m (buffer + 0)) all ∙ ap (λ a. contents size m a) start)
        (send_rounds-Sent fuel polls m buffer size 0 d (omega arith) small (omega arith) poll b)
