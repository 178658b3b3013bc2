-- ===== src/Keyboard/RoundTrip.antt =====
-- A key that is typed is the key that kGetKeyFromKeyQueue returns.
use deodeok_os.Base.{
  ℕ, suc, ◌<◌, ◌≡◌, Bool, true, false, if◌then◌else◌, Option, none, some, List, [], ◌∷◌, arith, ap,
  ◌∙◌, sym, subst,
}
use deodeok_os.Memory.{Memory}
use deodeok_os.Queue.{get_queue}
use deodeok_os.Queue.Fifo
use deodeok_os.Queue.Fifo.{Block}
use deodeok_os.Queue.Window.{Outside, block, contents}
use deodeok_os.Queue.Refine.{get_refines}
use deodeok_os.Keyboard.Table.{KeyMappingEntry}
use deodeok_os.Keyboard.State.{KeyData, convert_code}
use deodeok_os.Keyboard.Controller.{Ports}
use deodeok_os.Keyboard.Convert.{
  Keyboard, load_key, put_key, convert_scan_code_and_put_queue, get_key_from_key_queue,
}
use deodeok_os.Keyboard.Keys.{
  AreBytesBehind, AreByteKeys, IsByteKey, IsReady, key_block, accept, put_key-IsReady,
  put_key-accept, convert_code-IsByteKey, runs,
}

load_of_block :
    (m : Memory) (a : ℕ) (key : KeyData) → block m a 3 ≡ key_block key → load_key m a ≡ key
unfolding load_key
load_of_block m a key h = ground arith

-- What a result of Fifo.get with a block says.
abbrev Taken : Type 0
Taken = Option Block × List Block

taken_block :
    (done : Bool) (b kb : Block) (c rest : List Block)
    → ◌≡◌ {A = Taken} ((if done then some b else none), c) (some kb, rest)
    → (done ≡ true) × (b ≡ kb) × (c ≡ rest)
taken_block true b kb c rest h = ground arith
taken_block false b kb c rest h = cc

module _ {D : Type 0} (w : Keyboard D) (destination : ℕ) (r : IsReady w destination) (key : KeyData)
    (rest : List Block) (oldest : contents w.key_queue w.memory ≡ key_block key ∷ rest) where
  get_key-oldest :
      let (w', done) = get_key_from_key_queue w destination in
      (done ≡ true)
      × (load_key w'.memory destination ≡ key)
      × (contents w'.key_queue w'.memory ≡ rest)
  unfolding get_key_from_key_queue Fifo.get
  get_key-oldest =
      let (done, q, m) = get_queue w.key_queue w.memory destination in
      let (yes', same, left) =
        taken_block done (block m destination w.key_queue.data_size) (key_block key) (contents q m)
          rest (get_refines r.valid r.bytes destination r.away ∙ ap Fifo.get oldest) in
      (yes', load_of_block m destination key (ap (block m destination) (sym r.size) ∙ same), left)

first_put :
    (cap : ℕ) (key : KeyData) → 0 < cap → accept cap (some key) [] ≡ (true, key_block key ∷ [])
unfolding accept Fifo.put
first_put cap key h = ground arith

module _ {D : Type 0} (ports : Ports D) (beyond : ℕ → KeyMappingEntry)
    (behind : AreBytesBehind beyond) (frame destination n scan : ℕ) (w : Keyboard D)
    (r : IsReady w frame) (out : Outside w.key_queue destination)
    (nothing : contents w.key_queue w.memory ≡ []) (byte : scan < 256)
    (unlit : (convert_code beyond w.manager scan).led_changed ≡ false) {key : KeyData}
    (keyed : (convert_code beyond w.manager scan).key ≡ some key) where
  abbrev before : Keyboard D
  before = record w { manager = (convert_code beyond w.manager scan).manager }

  abbrev after : Keyboard D × Bool
  after = put_key frame (some key) before

  before-IsReady : IsReady before frame
  before-IsReady = record { valid = r.valid; size = r.size; bytes = r.bytes; away = r.away }

  key-IsByteKey : IsByteKey key
  key-IsByteKey = subst AreByteKeys keyed (convert_code-IsByteKey beyond w.manager scan behind byte)

  put_first :
      ◌≡◌ {A = Bool × List Block}
        (after.1, contents after.0.key_queue after.0.memory)
        (true, key_block key ∷ [])
  put_first =
      put_key-accept before frame before-IsReady (some key) key-IsByteKey
      ∙ ap (accept w.key_queue.max_data_count (some key)) nothing
      ∙ first_put w.key_queue.max_data_count key (omega (arith, r.valid.put_in))

  -- Typed into an empty queue, a key comes out of kGetKeyFromKeyQueue with its scan code, its ASCII
  -- code and its flags, and leaves the queue empty: for a code that has a key and changes no LED.
  pub get_key-convert :
      (w' : Keyboard D) × (convert_scan_code_and_put_queue ports beyond frame (suc n) w scan
        ≡ some (w', true))
      × (let (w'', done) = get_key_from_key_queue w' destination in
          (done ≡ true)
          × (load_key w''.memory destination ≡ key)
          × (contents w''.key_queue w''.memory ≡ []))
  get_key-convert = (
    after.0,
    runs ports beyond behind frame w r scan byte unlit n
        ∙ ap (λ k. some (put_key frame k before)) keyed
        ∙ ap (λ (p : Bool × List Block). some (after.0, p.0)) put_first,
    get_key-oldest after.0 destination
        (put_key-IsReady before frame destination key before-IsReady key-IsByteKey out) key []
        (ap (λ (p : Bool × List Block). p.1) put_first),
  )
