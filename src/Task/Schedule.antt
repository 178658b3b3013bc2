-- ===== src/Task/Schedule.antt =====
-- The scheduler of volumes/02.Kernel64/Source/Task.c: choosing a task, switching to it, priorities
-- and the end of a task.
use deodeok_os.Base.{
  ℕ, zero, suc, ◌+◌, ◌-◌, ◌*◌, ◌/◌, ◌%◌, ◌^◌, Bool, true, false, not, ltb, leb, ◌==◌, if◌then◌else◌,
  Option, none, some,
}
use deodeok_os.Base.Cells.{update}
use deodeok_os.LinkedList.{
  Links, LinkList, get_list_count, add_list_to_tail, remove_list, remove_list_from_header,
}
use deodeok_os.Task.{
  Tasks, priority, set_priority, tcb_offset, tcb_address, has_flag, end_bit, idle_bit,
  with_end_flag, set_tcb, set_flags, list_fuel, add_task_to_ready_list, get_tcb_in_tcb_pool,
}

-- The task at the head of a ready list, which counts as run once more.
unfoldable pub pick_from : Tasks → (i : ℕ) → Option (ℕ × Links × LinkList) → Option (ℕ × Tasks)
pick_from s i none = none
pick_from s i (some (task, h, l)) = some (
  task,
  record s {
    links = h;
    ready_list = update s.ready_list i l;
    execute_count = update s.execute_count i ((s.execute_count i + 1) % 2 ^ 32);
  },
)

-- One pass of kGetNextTaskToRun over the lists from `i` on; NULL is 0.
unfoldable pub next_in_pass : (rounds : ℕ) → Tasks → (i : ℕ) → Option (ℕ × Tasks)
next_in_pass zero s i = some (0, s)
next_in_pass (suc k) s i =
    let l = s.ready_list i in
    let rest = next_in_pass k (record s { execute_count = update s.execute_count i 0 }) (i + 1) in
    if ltb (s.execute_count i) (get_list_count l)
    then pick_from s i (remove_list_from_header list_fuel s.links l)
    else rest

-- The second pass, if the first one found no task.
unfoldable pub second_pass : Option (ℕ × Tasks) → Option (ℕ × Tasks)
second_pass none = none
second_pass (some (task, s)) = if task == 0 then next_in_pass 5 s 0 else some (task, s)

unfoldable pub get_next_task_to_run : Tasks → Option (ℕ × Tasks)
get_next_task_to_run s = second_pass (next_in_pass 5 s 0)

unfoldable pub count_ready : (rounds : ℕ) → Tasks → (i : ℕ) → ℕ
count_ready zero s i = 0
count_ready (suc k) s i = get_list_count (s.ready_list i) + count_ready k s (i + 1)

unfoldable pub get_ready_task_count : Tasks → ℕ
get_ready_task_count s = count_ready 5 s 0 % 2 ^ 32

unfoldable pub get_task_count : Tasks → ℕ
get_task_count s = (get_ready_task_count s + (get_list_count s.wait_list + 1)) % 2 ^ 32

-- The running task goes to the wait list if it has ended, and to its ready list otherwise.
unfoldable pub put_away : Tasks → (task : ℕ) → Tasks
put_away s task =
    let (h, w) = add_list_to_tail s.links s.wait_list task in
    if has_flag end_bit (s.tcb task).flags
    then record s { links = h; wait_list = w }
    else (add_task_to_ready_list s task).1

-- The time that the idle task has run, and the TS bit unless the FPU is the next task's.
unfoldable pub account : Tasks → (idle_time task next : ℕ) → Tasks
account s idle_time task next = record s {
  running_task = next;
  idle_time =
      if has_flag idle_bit (s.tcb task).flags
      then (s.idle_time + idle_time) % 2 ^ 64
      else s.idle_time;
  task_switched = not (s.last_fpu_used_task_id == s.links.id next);
}

-- kSchedule for the next task; kSwitchContext saves the registers, unless the task has ended, and
-- loads the next task's.
unfoldable pub switch_to : Tasks → (next : ℕ) → Tasks
switch_to s next =
    let task = s.running_task in
    let s1 = put_away (account s (5 + 2 ^ 64 - s.processor_time) task next) task in
    let saved = set_tcb s1 task (record (s1.tcb task) { context = s1.registers }) in
    let s2 = if has_flag end_bit (s.tcb task).flags then s1 else saved in
    record s2 { registers = (s2.tcb next).context }

-- The rest of kSchedule, when a task that called it is chosen again.
unfoldable pub resume_schedule : Tasks → Tasks
resume_schedule s = record s { processor_time = 5 }

unfoldable pub switch_if_some : Option (ℕ × Tasks) → Option Tasks
switch_if_some none = none
switch_if_some (some (next, s)) = some (if next == 0 then s else switch_to s next)

unfoldable pub schedule : Tasks → Option Tasks
schedule s = if get_ready_task_count s == 0 then some s else switch_if_some (get_next_task_to_run s)

-- kScheduleInInterrupt replaces the context that the interrupt has saved.
unfoldable pub switch_in_interrupt : Tasks → (next : ℕ) → Tasks
switch_in_interrupt s next =
    let task = s.running_task in
    let s1 = account s 5 task next in
    let saved = set_tcb s1 task (record (s1.tcb task) { context = s1.interrupt_context }) in
    let s2 = put_away (if has_flag end_bit (s.tcb task).flags then s1 else saved) task in
    record s2 { interrupt_context = (s2.tcb next).context }

unfoldable pub interrupt_if_some : Option (ℕ × Tasks) → Option (Bool × Tasks)
interrupt_if_some none = none
interrupt_if_some (some (next, s)) =
    some (if next == 0 then (false, s) else (true, switch_in_interrupt s next))

unfoldable pub schedule_in_interrupt : Tasks → Option (Bool × Tasks)
schedule_in_interrupt s = interrupt_if_some (get_next_task_to_run s)

-- iProcessorTime is never negative.
unfoldable pub decrease_processor_time : Tasks → Tasks
decrease_processor_time s = record s { processor_time = s.processor_time - 1 }

unfoldable pub is_processor_time_expired : Tasks → Bool
is_processor_time_expired s = s.processor_time == 0

-- Of the ready list with the priority, the task with the ID.
unfoldable pub removed_from : Tasks → (p : ℕ) → Option (ℕ × Links × LinkList) → Option (ℕ × Tasks)
removed_from s p none = none
removed_from s p (some (task, h, l)) =
    some (task, record s { links = h; ready_list = update s.ready_list p l })

unfoldable pub remove_task_from_ready_list : Tasks → (id : ℕ) → Option (ℕ × Tasks)
remove_task_from_ready_list s id =
    let target = tcb_address (tcb_offset id) in
    let p = priority (s.tcb target).flags in
    if leb 1024 (tcb_offset id)
    then some (0, s)
    else if not (s.links.id target == id)
    then some (0, s)
    else if leb 5 p
    then some (0, s)
    else removed_from s p (remove_list list_fuel s.links (s.ready_list p) id)

unfoldable pub change_flags : Tasks → (ℕ → ℕ) → (task : ℕ) → Tasks
change_flags s f task = set_flags s task (f (s.tcb task).flags)

-- kChangePriority of a task that does not run.
unfoldable pub move_task : (id p : ℕ) → Option (ℕ × Tasks) → Option (Bool × Tasks)
move_task id p none = none
move_task id p (some (task, s)) =
    let stays = change_flags s (λ f. set_priority f p) (get_tcb_in_tcb_pool (tcb_offset id)) in
    let moved = add_task_to_ready_list (change_flags s (λ f. set_priority f p) task) task in
    some (true, if task == 0 then stays else moved.1)

unfoldable pub change_priority : Tasks → (id p : ℕ) → Option (Bool × Tasks)
change_priority s id p =
    let running = change_flags s (λ f. set_priority f p) s.running_task in
    if ltb 5 p
    then some (false, s)
    else if s.links.id s.running_task == id
    then some (true, running)
    else move_task id p (remove_task_from_ready_list s id)

abbrev pub ended : ℕ → ℕ
ended flags = set_priority (with_end_flag flags) 0xff

-- kEndTask of a task that does not run.
unfoldable pub end_other : (id : ℕ) → Option (ℕ × Tasks) → Option (Bool × Tasks)
end_other id none = none
end_other id (some (task, s)) =
    let marked = change_flags s ended (get_tcb_in_tcb_pool (tcb_offset id)) in
    let s1 = change_flags s ended task in
    let (h, w) = add_list_to_tail s1.links s1.wait_list task in
    some (true, if task == 0 then marked else record s1 { links = h; wait_list = w })

-- kEndTask of the running task switches to the next one, with the state that is given here, and the
-- call itself never returns.
unfoldable pub end_task : Tasks → (id : ℕ) → Option (Bool × Tasks)
end_task s id =
    if s.links.id s.running_task == id
    then elim (schedule (change_flags s ended s.running_task)) [
      | none ↦ none
      | some s' ↦ some (true, s')
    ]
    else end_other id (remove_task_from_ready_list s id)

unfoldable pub exit_task : Tasks → Option (Bool × Tasks)
exit_task s = end_task s (s.links.id s.running_task)

-- The load that kIdleTask works out from two measurements, in percent, as a QWORD.
unfoldable pub measure_load : (last_idle idle last_tick tick : ℕ) → ℕ
measure_load last_idle idle last_tick tick =
    let ticks = (tick + 2 ^ 64 - last_tick) % 2 ^ 64 in
    let idled = (idle + 2 ^ 64 - last_idle) % 2 ^ 64 in
    if ticks == 0 then 0 else (100 + 2 ^ 64 - (idled * 100) % 2 ^ 64 / ticks) % 2 ^ 64

-- How often kHaltProcessorByLoad halts the processor.
unfoldable pub halts_by_load : (load : ℕ) → ℕ
halts_by_load load =
    if ltb load 40 then 3 else if ltb load 80 then 2 else if ltb load 95 then 1 else 0
