-- ===== src/Queue/Refine.antt =====
-- kPutQueue and kGetQueue against the FIFO of the blocks that the queue holds.
use deodeok_os.Base.{
  ℕ, ◌+◌, ◌*◌, ◌%◌, ◌^◌, ◌<◌, ◌≤◌, ◌≡◌, true, false, List, [], ◌∷◌, ◌++◌, if◌then◌else◌, arith,
  refl, ap, ap₂, ◌∙◌, sym, Bool-cases, inl, inr, ==→ne, ==→eq, none, some,
}
use deodeok_os.Memory.{Memory, mem_cpy}
use deodeok_os.Memory.Words.{IsByteMemory, within}
use deodeok_os.Memory.Copy.{Apart, mem_cpy-within, mem_cpy-IsByteMemory}
use deodeok_os.Queue.{
  RingQueue, is_queue_full, is_queue_empty, put_queue, get_queue, initialize_queue,
}
use deodeok_os.Queue.Fifo
use deodeok_os.Queue.Fifo.{Block}
use deodeok_os.Queue.Window.{
  block, window, held, contents, IsValid, Outside, length-window, block-agree, block_in,
  window-agree, put_index-held, held-put, held-get, full_iff, empty_iff, held-le, window-put,
}

-- kInitializeQueue leaves a valid queue that holds nothing.
pub initialize-IsValid :
    (buffer n size : ℕ) (m : Memory)
    → 0 < n
    → size * n < 2 ^ 31
    → let q = initialize_queue buffer n size in IsValid q × (contents q m ≡ [])
unfolding initialize_queue
initialize-IsValid buffer n size m pos small =
    (record { put_in = pos; get_in = pos; small = small }, refl)

-- kPutQueue and kGetQueue keep the queue valid.
pub put-IsValid : {q : RingQueue} (m : Memory) (p : ℕ) → IsValid q → IsValid (put_queue q m p).1
unfolding put_queue is_queue_full
put-IsValid {q} m p v = ground arith

pub get-IsValid : {q : RingQueue} (m : Memory) (p : ℕ) → IsValid q → IsValid (get_queue q m p).1
unfolding get_queue is_queue_empty
get-IsValid {q} m p v = ground arith

module _ {q : RingQueue} {m : Memory} (v : IsValid q) (h : IsByteMemory m) (p : ℕ)
    (out : Outside q p) where
  -- The address of the block at an index.
  abbrev slot : ℕ → ℕ
  slot i = q.queue_array + q.data_size * i

  size_small : q.data_size < 2 ^ 31
  size_small = grind arith

  slot-Apart : (i : ℕ) → i < q.max_data_count → Apart q.data_size (slot i) p
  slot-Apart i lt = ground (arith, block_in q.data_size q.max_data_count i lt)

  -- The queue and the memory after kPutQueue has put a block.
  abbrev put_state : RingQueue
  put_state = record q {
    put_index = (q.put_index + 1) % q.max_data_count;
    last_operation_put = true;
  }

  abbrev put_memory : Memory
  put_memory = (mem_cpy m (slot q.put_index) p q.data_size).1

  put_room : is_queue_full q ≡ false → put_queue q m p ≡ (true, put_state, put_memory)
  unfolding put_queue
  put_room e = ground arith

  put_full : is_queue_full q ≡ true → put_queue q m p ≡ (false, q, m)
  unfolding put_queue
  put_full e = ground arith

  -- Inside the new block the memory holds what pvData points to, and outside it is as it was.
  put_inside : (i : ℕ) → i < q.data_size → put_memory (slot q.put_index + i) ≡ m (p + i)
  put_inside i lt = ground (
    arith,
    mem_cpy-within m (slot q.put_index) p q.data_size (slot q.put_index + i) h size_small
        (slot-Apart q.put_index v.put_in),
  )

  put_outside : (a : ℕ) → within (slot q.put_index) q.data_size a ≡ false → put_memory a ≡ m a
  put_outside a e =
      mem_cpy-within m (slot q.put_index) p q.data_size a h size_small
        (slot-Apart q.put_index v.put_in)
      ∙ rw e

  contents-put :
      is_queue_full q ≡ false
      → contents put_state put_memory ≡ contents q m ++ (block m p q.data_size ∷ [])
  contents-put room =
      let cap = q.max_data_count in
      let fits : held q < cap =
        omega (arith, held-le v, ==→ne (held q) cap (sym (full_iff v) ∙ room)) in
      ap (window put_memory q.queue_array q.data_size cap q.get_index) (held-put v room)
      ∙ window-put m put_memory q.queue_array q.data_size cap q.get_index (held q) q.put_index
          v.get_in fits (put_index-held v) (λ a lo hi e. put_outside a e)
      ∙ ap (λ b. contents q m ++ (b ∷ []))
          (block-agree m put_memory p (slot q.put_index) q.data_size put_inside)

  -- A full queue refuses the block and changes nothing; otherwise the block that pvData points to
  -- is put behind the others.
  pub put_refines :
      let (done, q', m') = put_queue q m p in
      (done, contents q' m') ≡ Fifo.put q.max_data_count (contents q m) (block m p q.data_size)
  unfolding Fifo.put
  put_refines =
      let size = length-window m q.queue_array q.data_size q.max_data_count q.get_index (held q) in
      elim (Bool-cases (is_queue_full q)) [
        | inl full ↦ rw (put_full full, size, sym (full_iff v) ∙ full)
        | inr room ↦
            rw (put_room room, size, sym (full_iff v) ∙ room)
              (ap (λ (c : List Block). (true, c)) (contents-put room))
      ]

  -- The memory stays one of bytes.
  pub put-IsByteMemory : IsByteMemory (put_queue q m p).2
  put-IsByteMemory = elim (Bool-cases (is_queue_full q)) [
    | inl full ↦ rw (put_full full) h
    | inr room ↦ rw (put_room room) (
        mem_cpy-IsByteMemory m (slot q.put_index) p q.data_size h size_small
          (slot-Apart q.put_index v.put_in))
  ]

  get_state : RingQueue
  get_state = record q {
    get_index = (q.get_index + 1) % q.max_data_count;
    last_operation_put = false;
  }

  abbrev get_memory : Memory
  get_memory = (mem_cpy m p (slot q.get_index) q.data_size).1

  get_some : is_queue_empty q ≡ false → get_queue q m p ≡ (true, get_state, get_memory)
  unfolding get_queue get_state
  get_some e = ground arith

  get_none : is_queue_empty q ≡ true → get_queue q m p ≡ (false, q, m)
  unfolding get_queue
  get_none e = ground arith

  get-Apart : Apart q.data_size p (slot q.get_index)
  get-Apart = ground (arith, block_in q.data_size q.max_data_count q.get_index v.get_in)

  get_inside : (i : ℕ) → i < q.data_size → get_memory (p + i) ≡ m (slot q.get_index + i)
  get_inside i lt =
      ground
        (arith, mem_cpy-within m p (slot q.get_index) q.data_size (p + i) h size_small get-Apart)

  get_outside :
      (a : ℕ)
      → q.queue_array ≤ a
      → a < q.queue_array + q.data_size * q.max_data_count
      → get_memory a ≡ m a
  get_outside a lo hi =
      ground (arith, mem_cpy-within m p (slot q.get_index) q.data_size a h size_small get-Apart)

  contents-get :
      is_queue_empty q ≡ false
      → contents q m ≡ block get_memory p q.data_size ∷ contents get_state get_memory
  unfolding get_state
  contents-get some_held =
      let cap = q.max_data_count in
      ap (window m q.queue_array q.data_size cap q.get_index) (sym (held-get v some_held))
      ∙ ap₂ ◌∷◌ (sym (block-agree m get_memory (slot q.get_index) p q.data_size get_inside)) (
          sym (
            window-agree m get_memory q.queue_array q.data_size cap ((q.get_index + 1) % cap)
              (held get_state) (omega (arith, v.get_in)) get_outside))

  -- An empty queue returns nothing and changes nothing; otherwise kGetQueue copies the oldest block
  -- to pvData and leaves the others.
  pub get_refines :
      let (done, q', m') = get_queue q m p in
      ((if done then some (block m' p q.data_size) else none), contents q' m')
      ≡ Fifo.get (contents q m)
  unfolding Fifo.get
  get_refines = elim (Bool-cases (is_queue_empty q)) [
    | inl empty ↦
        let nothing : held q ≡ 0 = ==→eq (held q) 0 (sym (empty_iff v) ∙ empty) in
        rw (get_none empty, nothing)
    | inr filled ↦ rw (get_some filled, contents-get filled)
  ]
