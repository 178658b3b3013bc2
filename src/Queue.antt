-- ===== src/Queue.antt =====
-- volumes/02.Kernel64/Source/Queue.c: a ring of blocks in memory, filled and emptied by kMemCpy.
pub mod Fifo
pub mod Window
pub mod Refine
mod Tests
use deodeok_os.Base.{ℕ, ◌+◌, ◌*◌, ◌%◌, Bool, true, false, not, ◌==◌, if◌then◌else◌, ◌&&◌}
use deodeok_os.Memory.{Memory, mem_cpy}

-- QUEUE
pub record RingQueue : Type 0 where
  pub data_size : ℕ
  pub max_data_count : ℕ
  pub queue_array : ℕ
  pub put_index : ℕ
  pub get_index : ℕ
  pub last_operation_put : Bool

unfoldable pub initialize_queue : (buffer max_data_count data_size : ℕ) → RingQueue
initialize_queue buffer max_data_count data_size = record {
  data_size = data_size;
  max_data_count = max_data_count;
  queue_array = buffer;
  put_index = 0;
  get_index = 0;
  last_operation_put = false;
}

unfoldable pub is_queue_full : RingQueue → Bool
is_queue_full q = if (q.get_index == q.put_index) && q.last_operation_put then true else false

unfoldable pub is_queue_empty : RingQueue → Bool
is_queue_empty q = if (q.get_index == q.put_index) && not q.last_operation_put then true else false

-- The result, the queue and the memory; `source` is pvData.
unfoldable pub put_queue : RingQueue → Memory → ℕ → Bool × RingQueue × Memory
unfolding is_queue_full
put_queue q m source = if is_queue_full q then (false, q, m) else (
  true,
  record q { put_index = (q.put_index + 1) % q.max_data_count; last_operation_put = true },
  (mem_cpy m (q.queue_array + q.data_size * q.put_index) source q.data_size).1,
)

unfoldable pub get_queue : RingQueue → Memory → ℕ → Bool × RingQueue × Memory
unfolding is_queue_empty
get_queue q m destination = if is_queue_empty q then (false, q, m) else (
  true,
  record q { get_index = (q.get_index + 1) % q.max_data_count; last_operation_put = false },
  (mem_cpy m destination (q.queue_array + q.data_size * q.get_index) q.data_size).1,
)
