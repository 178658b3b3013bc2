-- ===== src/Task/Tests.antt =====
-- Runs of the TCB pool and of the choice of the next task.
use deodeok_os.Base.{
  ℕ, ◌+◌, ◌*◌, ◌^◌, false, ◌==◌, if◌then◌else◌, List, [], ◌∷◌, refl, inl, inr, arith, Bool-cases,
}
use deodeok_os.LinkedList.{LinkList}
use deodeok_os.LinkedList.Chain.{IsList, find_id}
use deodeok_os.Task.{Tasks, no_tcb, tcb_address, initialize_tcb_pool}
use deodeok_os.Task.Schedule.{get_next_task_to_run, change_priority}
use deodeok_os.Task.Priority.{IsWaiting, Lost, change_priority-Lost}
use deodeok_os.Task.Next.{AreReadyLists, NextTask, get_next_task_to_run-NextTask}

-- One task waits in the ready list of priority 2.
abbrev waiting : ℕ
waiting = tcb_address 3

abbrev one_item : LinkList
one_item = record { item_count = 1; header = waiting; tail = waiting }

abbrev nothing : LinkList
nothing = record { item_count = 0; header = 0; tail = 0 }

abbrev tasks : Tasks
tasks = record {
  links = record { next = λ a. 0; id = λ a. 0 };
  tcb = λ a. no_tcb;
  stack = λ a. 0;
  max_count = 1024;
  use_count = 0;
  allocated_count = 1;
  running_task = tcb_address 0;
  processor_time = 0;
  ready_list = λ i. if i == 2 then one_item else nothing;
  wait_list = nothing;
  execute_count = λ i. 1;
  processor_load = 0;
  idle_time = 0;
  last_fpu_used_task_id = 0;
  registers = λ r. 0;
  interrupt_context = λ r. 0;
  task_switched = false;
}

abbrev lists : ℕ → List ℕ
lists i = if i == 2 then waiting ∷ [] else []

one_item-IsList : IsList tasks.links one_item 0 (waiting ∷ [])
one_item-IsList = record {
  header = refl;
  tail = refl;
  count = refl;
  small = omega arith;
  distinct = (tt, tt);
  chain = (omega arith, refl, tt);
}

nothing-IsList : IsList tasks.links nothing 0 []
nothing-IsList = record {
  header = refl;
  tail = refl;
  count = refl;
  small = omega arith;
  distinct = tt;
  chain = tt;
}

lists-AreReadyLists : AreReadyLists tasks lists
lists-AreReadyLists i lt = elim (Bool-cases (i == 2)) [
  | inl e ↦ record { stop = 0; list = rw e one_item-IsList; short = rw e (omega arith) }
  | inr ne ↦ record { stop = 0; list = rw ne nothing-IsList; short = rw ne (omega arith) }
]

get_next_task_to_run-NextTask_example : NextTask tasks lists (get_next_task_to_run tasks)
get_next_task_to_run-NextTask_example =
    get_next_task_to_run-NextTask tasks lists lists-AreReadyLists

abbrev pool : Tasks
pool = initialize_tcb_pool tasks

-- The waiting task has an ID and priority 2.
abbrev named : Tasks
named = record tasks {
  links = record { next = λ a. 0; id = λ a. if a == waiting then 7 * 2 ^ 32 + 3 else 0 };
  tcb = λ a. record no_tcb { flags = 2 };
}

named-IsWaiting : IsWaiting named (7 * 2 ^ 32 + 3) 2 0 (waiting ∷ [])
unfolding find_id
named-IsWaiting = record {
  offset = omega arith;
  own = refl;
  at = refl;
  below = omega arith;
  list = record {
    header = refl;
    tail = refl;
    count = refl;
    small = omega arith;
    distinct = (tt, tt);
    chain = (omega arith, refl, tt);
  };
  short = omega arith;
  member = refl;
}

change_priority-Lost_example :
    Lost named (7 * 2 ^ 32 + 3) 2 (waiting ∷ []) (change_priority named (7 * 2 ^ 32 + 3) 5)
change_priority-Lost_example =
    change_priority-Lost named (7 * 2 ^ 32 + 3) 2 0 (waiting ∷ []) named-IsWaiting (omega arith)
