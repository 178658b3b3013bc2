-- ===== src/Task.antt =====
-- volumes/02.Kernel64/Source/Task.c: the TCB pool and the scheduler. A TCB is its address. The
-- functions run under the scheduler's spinlock (module SpinLock) and are single steps. `none` means
-- that the code's behaviour is not defined, or that a list is longer than the fuel of 1025.
pub mod Schedule
pub mod Pool
pub mod Next
pub mod Priority
mod Tests
use deodeok_os.Base.{
  ℕ, zero, suc, ◌+◌, ◌-◌, ◌*◌, ◌/◌, ◌%◌, ◌^◌, Bool, true, false, not, ltb, leb, ◌==◌, ◌&&◌, ◌||◌,
  if◌then◌else◌, Option, none, some,
}
use deodeok_os.Base.Cells.{update}
use deodeok_os.LinkedList.{
  Links, LinkList, inc32, dec32, initialize_list, get_list_count, add_list_to_tail, remove_list,
  remove_list_from_header,
}

-- TCB, without its two links.
pub record Tcb : Type 0 where
  pub flags : ℕ
  pub memory_address : ℕ
  pub memory_size : ℕ
  pub parent_process_id : ℕ
  pub child_thread_list : LinkList
  pub context : ℕ → ℕ
  pub stack_address : ℕ
  pub stack_size : ℕ
  pub fpu_used : Bool

-- TCBPOOLMANAGER and SCHEDULER, the memory of the links, the TCBs and the stacks, and of the
-- processor the registers, the context that an interrupt saved, and the TS bit.
pub record Tasks : Type 0 where
  pub links : Links
  pub tcb : ℕ → Tcb
  pub stack : ℕ → ℕ
  pub max_count : ℕ
  pub use_count : ℕ
  pub allocated_count : ℕ
  pub running_task : ℕ
  pub processor_time : ℕ
  pub ready_list : ℕ → LinkList
  pub wait_list : LinkList
  pub execute_count : ℕ → ℕ
  pub processor_load : ℕ
  pub idle_time : ℕ
  pub last_fpu_used_task_id : ℕ
  pub registers : ℕ → ℕ
  pub interrupt_context : ℕ → ℕ
  pub task_switched : Bool

-- The TCB pool, and the two LISTLINKs in a TCB of 816 bytes.
abbrev pub tcb_address : ℕ → ℕ
tcb_address i = 0x80_0000 + 816 * i

abbrev pub thread_link : ℕ → ℕ
thread_link task = task + 40

abbrev pub stack_pool : ℕ
stack_pool = tcb_address 1024

abbrev pub list_fuel : ℕ
list_fuel = 1025

-- GETPRIORITY, SETPRIORITY, GETTCBOFFSET, and one bit of the flags.
abbrev pub priority : ℕ → ℕ
priority flags = flags % 256

abbrev pub set_priority : ℕ → ℕ → ℕ
set_priority flags p = flags / 256 * 256 + p

abbrev pub tcb_offset : ℕ → ℕ
tcb_offset id = id % 2 ^ 32

abbrev pub has_flag : (bit : ℕ) → ℕ → Bool
has_flag bit flags = flags / 2 ^ bit % 2 == 1

abbrev pub end_bit : ℕ
end_bit = 63

abbrev pub process_bit : ℕ
process_bit = 61

abbrev pub thread_bit : ℕ
thread_bit = 60

abbrev pub idle_bit : ℕ
idle_bit = 59

abbrev pub with_end_flag : ℕ → ℕ
with_end_flag flags = if has_flag end_bit flags then flags else flags + 2 ^ end_bit

-- A field of one TCB.
abbrev pub set_tcb : Tasks → (task : ℕ) → Tcb → Tasks
set_tcb s task t = record s { tcb = update s.tcb task t }

abbrev pub set_id : Tasks → (address id : ℕ) → Tasks
set_id s a id = record s { links = record { next = s.links.next; id = update s.links.id a id } }

abbrev pub set_flags : Tasks → (task flags : ℕ) → Tasks
set_flags s task flags = set_tcb s task (record (s.tcb task) { flags = flags })

-- A TCB of zeros.
abbrev pub no_tcb : Tcb
no_tcb = record {
  flags = 0;
  memory_address = 0;
  memory_size = 0;
  parent_process_id = 0;
  child_thread_list = record { item_count = 0; header = 0; tail = 0 };
  context = λ r. 0;
  stack_address = 0;
  stack_size = 0;
  fpu_used = false;
}

-- kInitializeTCBPool: the TCBs are cleared, and each one's ID is its index.
unfoldable pub set_ids : (count : ℕ) → (ℕ → ℕ) → ℕ → ℕ
set_ids zero id = id
set_ids (suc k) id = update (set_ids k id) (tcb_address k) k

abbrev pub in_pool : ℕ → Bool
in_pool a = leb (tcb_address 0) a && ltb a (tcb_address 1024)

unfoldable pub initialize_tcb_pool : Tasks → Tasks
initialize_tcb_pool s = record s {
  links = record {
    next = λ a. if in_pool a then 0 else s.links.next a;
    id = set_ids 1024 (λ a. if in_pool a then 0 else s.links.id a);
  };
  tcb = λ a. if in_pool a then no_tcb else s.tcb a;
  max_count = 1024;
  use_count = 0;
  allocated_count = 1;
}

-- The first TCB whose ID has no upper half, from `i` on.
unfoldable pub find_empty : (rounds : ℕ) → Links → ℕ → Option ℕ
find_empty zero h i = none
find_empty (suc k) h i =
    let rest = find_empty k h (i + 1) in if h.id (tcb_address i) / 2 ^ 32 == 0 then some i else rest

-- The TCB at the index is given the next ID.
unfoldable pub take_tcb : Tasks → (i : ℕ) → ℕ × Tasks
take_tcb s i =
    let n = inc32 s.allocated_count in
    (
      tcb_address i,
      record (set_id s (tcb_address i) (s.allocated_count * 2 ^ 32 + i)) {
        use_count = inc32 s.use_count;
        allocated_count = if n == 0 then 1 else n;
      },
    )

unfoldable pub allocate_tcb : Tasks → Option (ℕ × Tasks)
allocate_tcb s =
    if s.use_count == s.max_count
    then some (0, s)
    else elim (find_empty s.max_count s.links 0) [ none ↦ none | some i ↦ some (take_tcb s i) ]

unfoldable pub free_tcb : Tasks → (id : ℕ) → Tasks
free_tcb s id =
    let i = tcb_offset id in
    let a = tcb_address i in
    record (set_tcb (set_id s a i) a (record (s.tcb a) { context = λ r. 0 })) {
      use_count = dec32 s.use_count;
    }

-- The guard of kGetTCBInTCBPool holds for no offset: it never returns NULL.
unfoldable pub get_tcb_in_tcb_pool : (offset : ℕ) → ℕ
get_tcb_in_tcb_pool offset = tcb_address offset

unfoldable pub is_task_exist : Tasks → (id : ℕ) → Bool
is_task_exist s id = s.links.id (get_tcb_in_tcb_pool (tcb_offset id)) == id

unfoldable pub get_process_by_thread : Tasks → (thread : ℕ) → ℕ
get_process_by_thread s thread =
    let parent = (s.tcb thread).parent_process_id in
    let process = get_tcb_in_tcb_pool (tcb_offset parent) in
    if has_flag process_bit (s.tcb thread).flags
    then thread
    else if s.links.id process == parent
    then process
    else 0

-- kAddTaskToReadyList
unfoldable pub add_task_to_ready_list : Tasks → (task : ℕ) → Bool × Tasks
add_task_to_ready_list s task =
    let p = priority (s.tcb task).flags in
    let (h, w) = add_list_to_tail s.links s.wait_list task in
    let (h', l) = add_list_to_tail s.links (s.ready_list p) task in
    if p == 0xff
    then (true, record s { links = h; wait_list = w })
    else if leb 5 p
    then (false, s)
    else (true, record s { links = h'; ready_list = update s.ready_list p l })

-- kSetUpTask: the registers by their offsets, and kExitTask as the return address.
unfoldable pub first_context : (stack_top entry_point : ℕ) → ℕ → ℕ
first_context top entry r =
    if (r == 22) || (r == 18)
    then top
    else if r == 20
    then 0x08
    else if leb r 3 || (r == 23)
    then 0x10
    else if r == 19
    then entry
    else if r == 21
    then 0x0200
    else 0

unfoldable pub set_up_task :
    (exit_task : ℕ) → Tasks → (task flags entry_point stack_address stack_size : ℕ) → Tasks
set_up_task exit_task s task flags entry stack_address stack_size =
    let top = stack_address + stack_size - 8 in
    record s {
      stack = update s.stack top exit_task;
      tcb = update s.tcb task (record (s.tcb task) {
        context = first_context top entry;
        stack_address = stack_address;
        stack_size = stack_size;
        flags = flags;
      });
    }

-- What kCreateTask does with a TCB and the running task's process.
unfoldable pub adopt_task : Tasks → (flags memory_address memory_size task process : ℕ) → Tasks
adopt_task s flags address size task process =
    let p = s.tcb process in
    let (h, l) = add_list_to_tail s.links p.child_thread_list (thread_link task) in
    let parent = s.links.id process in
    let s1 = record s {
      links = h;
      tcb =
          update (update s.tcb process (record p { child_thread_list = l })) task
            (record ((update s.tcb process (record p { child_thread_list = l })) task) {
              parent_process_id = parent;
              memory_address = p.memory_address;
              memory_size = p.memory_size;
            });
    } in
    let s2 = set_tcb s task (record (s.tcb task) {
      parent_process_id = parent;
      memory_address = address;
      memory_size = size;
    }) in
    let s3 = if has_flag thread_bit flags then s1 else s2 in
    set_id s3 (thread_link task) (s3.links.id task)

unfoldable pub start_task : (exit_task : ℕ) → Tasks → (flags entry_point task : ℕ) → Tasks
start_task exit_task s flags entry task =
    let stack_address = stack_pool + 8192 * tcb_offset (s.links.id task) in
    let s1 = set_up_task exit_task s task flags entry stack_address 8192 in
    let s2 =
      set_tcb s1 task
        (record (s1.tcb task) { child_thread_list = initialize_list; fpu_used = false }) in
    (add_task_to_ready_list s2 task).1

-- kCreateTask: the new task, or NULL.
unfoldable pub create_task :
    (exit_task : ℕ)
    → Tasks
    → (flags memory_address memory_size entry_point : ℕ) → Option (ℕ × Tasks)
create_task exit_task s flags address size entry = elim (allocate_tcb s) [
  | none ↦ none
  | some (task, s1) ↦
      let process = get_process_by_thread s1 s1.running_task in
      if task == 0
      then some (0, s1)
      else if process == 0
      then some (0, free_tcb s1 (s1.links.id task))
      else some (
        task,
        start_task exit_task (adopt_task s1 flags address size task process) flags entry task,
      )
]

-- kInitializeScheduler
unfoldable pub initialize_scheduler : Tasks → Option (ℕ × Tasks)
initialize_scheduler s =
    let s1 = record (initialize_tcb_pool s) {
      ready_list = λ i. if ltb i 5 then initialize_list else s.ready_list i;
      execute_count = λ i. if ltb i 5 then 0 else s.execute_count i;
      wait_list = initialize_list;
    } in
    elim (allocate_tcb s1) [
      | none ↦ none
      | some (task, s2) ↦ some (
        task,
        record (set_tcb s2 task (record (s2.tcb task) {
          flags = 2 ^ 61 + 2 ^ 62;
          parent_process_id = s2.links.id task;
          memory_address = 0x10_0000;
          memory_size = 0x50_0000;
          stack_address = 0x60_0000;
          stack_size = 0x10_0000;
        })) {
          running_task = task;
          idle_time = 0;
          processor_load = 0;
          last_fpu_used_task_id = 2 ^ 64 - 1;
        },
      )
    ]

unfoldable pub set_running_task : Tasks → (task : ℕ) → Tasks
set_running_task s task = record s { running_task = task }

unfoldable pub get_running_task : Tasks → ℕ
get_running_task s = s.running_task
