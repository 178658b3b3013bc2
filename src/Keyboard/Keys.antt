-- ===== src/Keyboard/Keys.antt =====
-- The key queue of Keyboard.c as a FIFO of keys.
use deodeok_os.Base.{
  ℕ, zero, suc, ◌+◌, ◌%◌, ◌<◌, ◌≤◌, ◌≡◌, refl, Bool, false, Option, none, some, List, [], ◌∷◌,
  arith, ap, ap₂, ◌∙◌, ◌⊎◌, get_elem?,
}
use deodeok_os.Memory.{Memory}
use deodeok_os.Memory.Words.{IsByteMemory}
use deodeok_os.Queue.{RingQueue, put_queue}
use deodeok_os.Queue.Fifo
use deodeok_os.Queue.Fifo.{Block}
use deodeok_os.Queue.Window.{IsValid, Outside, block, contents, held, window-agree}
use deodeok_os.Queue.Refine.{put_refines, put-IsValid, put-IsByteMemory}
use deodeok_os.Keyboard.Table.{KeyMappingEntry, key_mapping_table}
use deodeok_os.Keyboard.State.{
  KeyboardManager, KeyData, Conversion, convert_code, mapping_entry, pick_entry, ascii_code_of,
  flags_of,
}
use deodeok_os.Keyboard.Controller.{Ports}
use deodeok_os.Keyboard.Convert.{
  Keyboard, store_key, update_led, put_key, convert_and_put, convert_scan_code_and_put_queue,
}

abbrev pub IsByteEntry : KeyMappingEntry → Type 0
IsByteEntry e = (e.normal_code < 256) × (e.combined_code < 256)

abbrev AreByteEntries : List KeyMappingEntry → Type 0
AreByteEntries [] = Unit
AreByteEntries (e ∷ l) = IsByteEntry e × AreByteEntries l

table-AreByteEntries : AreByteEntries key_mapping_table
unfolding key_mapping_table
table-AreByteEntries = omega arith

pick-IsByteEntry :
    (l : List KeyMappingEntry) (other : KeyMappingEntry) (i : ℕ)
    → AreByteEntries l
    → IsByteEntry other
    → IsByteEntry (pick_entry other (get_elem? l i))
pick-IsByteEntry [] other i h o = o
pick-IsByteEntry (e ∷ l) other zero h o = h.0
pick-IsByteEntry (e ∷ l) other (suc i) h o = pick-IsByteEntry l other i h.1 o

-- What lies behind the table is made of bytes.
abbrev pub AreBytesBehind : (ℕ → KeyMappingEntry) → Type 0
AreBytesBehind beyond = (i : ℕ) → IsByteEntry (beyond i)

mapping_entry-IsByteEntry :
    (beyond : ℕ → KeyMappingEntry) (i : ℕ)
    → AreBytesBehind beyond
    → IsByteEntry (mapping_entry beyond i)
unfolding mapping_entry
mapping_entry-IsByteEntry beyond i h =
    pick-IsByteEntry key_mapping_table (beyond i) i table-AreByteEntries (h i)

abbrev pub IsByteKey : KeyData → Type 0
IsByteKey key = (key.scan_code < 256) × (key.ascii_code < 256) × (key.flags < 256)

abbrev pub AreByteKeys : Option KeyData → Type 0
AreByteKeys none = Unit
AreByteKeys (some key) = IsByteKey key

ascii-lt :
    (beyond : ℕ → KeyMappingEntry) (k : KeyboardManager) (scan : ℕ)
    → AreBytesBehind beyond
    → ascii_code_of beyond k scan < 256
unfolding ascii_code_of
ascii-lt beyond k scan h = ground (arith, mapping_entry-IsByteEntry beyond (scan % 128) h)

flags-lt : (k : KeyboardManager) (scan : ℕ) → flags_of k scan < 256
unfolding flags_of
flags-lt k scan = ground arith

pub convert_code-IsByteKey :
    (beyond : ℕ → KeyMappingEntry) (k : KeyboardManager) (scan : ℕ)
    → AreBytesBehind beyond
    → scan < 256
    → AreByteKeys (convert_code beyond k scan).key
unfolding convert_code
convert_code-IsByteKey beyond k scan h lt =
    ground (arith, ascii-lt beyond k scan h, flags-lt k scan)

-- The three bytes of a key.
abbrev pub key_block : KeyData → Block
key_block key = key.scan_code ∷ key.ascii_code ∷ key.flags ∷ []

-- A key that there is goes into a FIFO of at most `cap` keys; without one nothing happens.
unfoldable pub accept : (cap : ℕ) → Option KeyData → List Block → Bool × List Block
accept cap none q = (false, q)
accept cap (some key) q = Fifo.put cap q (key_block key)

-- The key queue is valid and lies in a memory of bytes, away from the address `a`.
pub record IsReady {D : Type 0} (w : Keyboard D) (a : ℕ) : Type 0 where
  pub valid : IsValid w.key_queue
  pub size : w.key_queue.data_size ≡ 3
  pub bytes : IsByteMemory w.memory
  pub away : Outside w.key_queue a

store_key-IsByteMemory :
    (m : Memory) (a : ℕ) (key : KeyData)
    → IsByteMemory m
    → IsByteKey key
    → IsByteMemory (store_key m a key)
unfolding store_key
store_key-IsByteMemory m a key h b x = ground (arith, h x)

block-store_key :
    (m : Memory) (a : ℕ) (key : KeyData) → block (store_key m a key) a 3 ≡ key_block key
unfolding store_key
block-store_key m a key = ground arith

store_key_outside :
    (m : Memory) (a x : ℕ) (key : KeyData) → (x < a) ⊎ (a + 3 ≤ x) → store_key m a key x ≡ m x
unfolding store_key
store_key_outside m a x key h = ground arith

module _ {D : Type 0} (w : Keyboard D) (frame : ℕ) (r : IsReady w frame) where
  private_frame :
      (key : KeyData)
      → contents w.key_queue (store_key w.memory frame key) ≡ contents w.key_queue w.memory
  private_frame key =
      let q = w.key_queue in
      window-agree w.memory (store_key w.memory frame key) q.queue_array q.data_size
        q.max_data_count q.get_index (held q) r.valid.get_in
        (λ x lo hi. store_key_outside w.memory frame x key (ground (arith, r.away, r.size)))

  pub put_key-accept :
      (key : Option KeyData)
      → AreByteKeys key
      → let (w', done) = put_key frame key w in
        (done, contents w'.key_queue w'.memory)
        ≡ accept w.key_queue.max_data_count key (contents w.key_queue w.memory)
  unfolding accept
  put_key-accept none h = refl
  put_key-accept (some key) h =
      put_refines r.valid (store_key-IsByteMemory w.memory frame key r.bytes h) frame r.away
      ∙ ap₂ (Fifo.put w.key_queue.max_data_count) (private_frame key) (
          ap (block (store_key w.memory frame key) frame) r.size
          ∙ block-store_key w.memory frame key)

put_key_manager :
    {D : Type 0} (frame : ℕ) (key : Option KeyData) (w : Keyboard D)
    → (put_key frame key w).0.manager ≡ w.manager
put_key_manager frame none w = refl
put_key_manager frame (some key) w = refl

put_key_device :
    {D : Type 0} (frame : ℕ) (key : Option KeyData) (w : Keyboard D)
    → (put_key frame key w).0.device ≡ w.device
put_key_device frame none w = refl
put_key_device frame (some key) w = refl

module _ {D : Type 0} (ports : Ports D) (beyond : ℕ → KeyMappingEntry)
    (behind : AreBytesBehind beyond) (frame : ℕ) (w : Keyboard D) (r : IsReady w frame) (scan : ℕ)
    (byte : scan < 256) (unlit : (convert_code beyond w.manager scan).led_changed ≡ false) where
  abbrev pub converted : Conversion
  converted = convert_code beyond w.manager scan

  abbrev pub typed : Keyboard D × Bool
  typed = put_key frame converted.key (record w { manager = converted.manager })

  pub runs :
      (n : ℕ) → convert_scan_code_and_put_queue ports beyond frame (suc n) w scan ≡ some typed
  unfolding convert_scan_code_and_put_queue convert_and_put update_led
  runs n = rw (unlit, update_led) refl

  -- A code that changes no LED asks nothing of the keyboard: kConvertScanCodeAndPutQueue returns with
  -- the state that the code leads to and with the code's key, if it has one, behind the others in
  -- the queue of at most KEY_MAXQUEUECOUNT keys; it returns whether the key was put, and a full queue
  -- drops it.
  pub convert_scan_code-accept :
      (n : ℕ)
      → (w' : Keyboard D) × (done : Bool) × (convert_scan_code_and_put_queue ports beyond frame
            (suc n)
            w
            scan
          ≡ some (w', done))
        × (w'.manager ≡ (convert_code beyond w.manager scan).manager)
        × (w'.device ≡ w.device)
        × ((done, contents w'.key_queue w'.memory)
            ≡ accept w.key_queue.max_data_count
                (convert_code beyond w.manager scan).key
                (contents w.key_queue w.memory))
  convert_scan_code-accept n = (
    typed.0,
    typed.1,
    runs n,
    put_key_manager frame converted.key (record w { manager = converted.manager }),
    put_key_device frame converted.key (record w { manager = converted.manager }),
    put_key-accept (record w { manager = converted.manager }) frame
        (record { valid = r.valid; size = r.size; bytes = r.bytes; away = r.away }) converted.key
        (convert_code-IsByteKey beyond w.manager scan behind byte),
  )

-- kPutQueue moves the put index only.
put_fixed :
    (q : RingQueue) (m : Memory) (p : ℕ)
    → let q' = (put_queue q m p).1 in
      (q'.data_size ≡ q.data_size)
      × (q'.max_data_count ≡ q.max_data_count)
      × (q'.queue_array ≡ q.queue_array)
unfolding put_queue
put_fixed q m p = ground arith

-- Putting a key leaves the queue ready for an access at another address outside it.
pub put_key-IsReady :
    {D : Type 0} (w : Keyboard D) (frame a : ℕ) (key : KeyData)
    → IsReady w frame
    → IsByteKey key
    → Outside w.key_queue a
    → IsReady (put_key frame (some key) w).0 a
put_key-IsReady w frame a key r b out =
    let m = store_key w.memory frame key in
    let stored = store_key-IsByteMemory w.memory frame key r.bytes b in
    let fixed = put_fixed w.key_queue m frame in
    record {
      valid = put-IsValid m frame r.valid;
      size = fixed.0 ∙ r.size;
      bytes = put-IsByteMemory r.valid stored frame r.away;
      away = rw (fixed.0, fixed.1, fixed.2) out;
    }
