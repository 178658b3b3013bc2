-- ===== src/Queue/Tests.antt =====
-- Runs of Queue.c, and its theorems at a concrete queue.
use deodeok_os.Base.{◌%◌, ◌≡◌, refl, true, if◌then◌else◌, arith, [], ◌∷◌, map, none, some}
use deodeok_os.Memory.{Memory, mem_cpy}
use deodeok_os.Memory.Words.{IsByteMemory}
use deodeok_os.Queue.{RingQueue, initialize_queue, put_queue, get_queue}
use deodeok_os.Queue.Fifo
use deodeok_os.Queue.Window.{contents, IsValid, block}
use deodeok_os.Queue.Refine.{initialize-IsValid, put-IsValid, get-IsValid, put_refines, get_refines}

-- Two blocks of three bytes at address 100, the second one and then the first one.
abbrev queue : RingQueue
queue = record {
  data_size = 3;
  max_data_count = 2;
  queue_array = 100;
  put_index = 1;
  get_index = 1;
  last_operation_put = true;
}

abbrev one_held : RingQueue
one_held = record queue { put_index = 0 }

abbrev counting : Memory
counting a = a % 256

counting-IsByteMemory : IsByteMemory counting
counting-IsByteMemory a = omega arith

queue-IsValid : IsValid queue
queue-IsValid = omega arith

one_held-IsValid : IsValid one_held
one_held-IsValid = omega arith

contents-queue : contents queue counting ≡ (103 ∷ 104 ∷ 105 ∷ []) ∷ (100 ∷ 101 ∷ 102 ∷ []) ∷ []
contents-queue = refl

taken : map (get_queue queue counting 7).2 (7 ∷ 8 ∷ 9 ∷ 10 ∷ []) ≡ 103 ∷ 104 ∷ 105 ∷ 10 ∷ []
unfolding get_queue mem_cpy
taken = refl

initialize-IsValid_example :
    let q = initialize_queue 100 2 3 in IsValid q × (contents q counting ≡ [])
initialize-IsValid_example = initialize-IsValid 100 2 3 counting (omega arith) (omega arith)

put-IsValid_example : IsValid (put_queue one_held counting 7).1
put-IsValid_example = put-IsValid counting 7 one_held-IsValid

get-IsValid_example : IsValid (get_queue queue counting 7).1
get-IsValid_example = get-IsValid counting 7 queue-IsValid

put_refines_example :
    let (done, q, m) = put_queue one_held counting 7 in
    (done, contents q m) ≡ Fifo.put 2 (contents one_held counting) (7 ∷ 8 ∷ 9 ∷ [])
put_refines_example = put_refines one_held-IsValid counting-IsByteMemory 7 (omega arith)

get_refines_example :
    let (done, q, m) = get_queue queue counting 7 in
    ((if done then some (block m 7 3) else none), contents q m) ≡ Fifo.get (contents queue counting)
get_refines_example = get_refines queue-IsValid counting-IsByteMemory 7 (omega arith)
