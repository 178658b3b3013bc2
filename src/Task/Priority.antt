-- ===== src/Task/Priority.antt =====
-- kChangePriority with the priority that its guard lets through and no list has.
use deodeok_os.Base.{
  ℕ, ◌<◌, ◌≡◌, ◌≢◌, ◌==◌, leb, Bool, true, false, Option, some, List, [], ◌∷◌, length, refl, arith,
  ne→==, eq→==, ap, ◌∙◌, sym, subst, Bool-cases, inl, inr, if◌then◌else◌, ==→ne,
}
use deodeok_os.Base.Cells.{update, update_self, update_ne}
use deodeok_os.LinkedList.{Links, LinkList, remove_list}
use deodeok_os.LinkedList.Chain.{IsList, Fresh, Distinct, find_id, erase_id}
use deodeok_os.LinkedList.Search.{remove_list-Removed}
use deodeok_os.Task.{
  Tasks, Tcb, add_task_to_ready_list, priority, set_priority, tcb_address, tcb_offset, list_fuel,
}
use deodeok_os.Task.Schedule.{
  change_priority, move_task, remove_task_from_ready_list, removed_from, change_flags,
}

priority_five : (flags : ℕ) → priority (set_priority flags 5) ≡ 5
priority_five flags = omega arith

add_refused :
    (s : Tasks) (task : ℕ) → priority (s.tcb task).flags ≡ 5 → (add_task_to_ready_list s task).1 ≡ s
unfolding add_task_to_ready_list
add_refused s task e = rw e refl

changed_priority :
    (s : Tasks) (task : ℕ)
    → priority ((change_flags s (λ f. set_priority f 5) task).tcb task).flags ≡ 5
unfolding change_flags
changed_priority s task =
    ap (λ (t : Tcb). priority t.flags)
      (update_self s.tcb task (record (s.tcb task) { flags = set_priority (s.tcb task).flags 5 }))
    ∙ priority_five (s.tcb task).flags

-- With a task that its list gives up, the priority is changed and the task is added to no list.
change_priority-after :
    (s : Tasks) (id task : ℕ) (removed : Tasks)
    → s.links.id s.running_task ≢ id
    → remove_task_from_ready_list s id ≡ some (task, removed)
    → task ≢ 0
    → change_priority s id 5 ≡ some (true, change_flags removed (λ f. set_priority f 5) task)
unfolding change_priority move_task change_flags
change_priority-after s id task removed other e not_null =
    rw (ne→== _ _ other, e, ne→== _ _ not_null)
      (ap (λ (t : Tasks). some (true, t))
        (add_refused (change_flags removed (λ f. set_priority f 5) task) task
          (changed_priority removed task)))

-- The TCB that the ID names.
abbrev pub target : (id : ℕ) → ℕ
target id = tcb_address (tcb_offset id)

-- The TCB has the ID and waits in the ready list `xs` of its priority.
pub record IsWaiting (s : Tasks) (id p stop : ℕ) (xs : List ℕ) : Type 0 where
  pub offset : tcb_offset id < 1024
  pub own : s.links.id (target id) ≡ id
  pub at : priority (s.tcb (target id)).flags ≡ p
  pub below : p < 5
  pub list : IsList s.links (s.ready_list p) stop xs
  pub short : length xs < list_fuel
  pub member : find_id s.links.id id xs ≡ target id

-- The task is taken out of its list and in no other: the lists of the other priorities and the wait
-- list are as they were.
pub record Lost (s : Tasks) (id p : ℕ) (xs : List ℕ) (r : Option (Bool × Tasks)) : Type 0 where
  pub s' : Tasks
  pub returned : r ≡ some (true, s')
  pub stop' : ℕ
  pub list : IsList s'.links (s'.ready_list p) stop' (erase_id s.links.id id xs)
  pub gone : Fresh (target id) (erase_id s.links.id id xs)
  pub others : (m : ℕ) → p ≢ m → s'.ready_list m ≡ s.ready_list m
  pub wait_list : s'.wait_list ≡ s.wait_list
  pub changed : priority (s'.tcb (target id)).flags ≡ 5

find-Fresh :
    (ids : ℕ → ℕ) (wanted t : ℕ) (xs : List ℕ)
    → ids t ≡ wanted
    → Distinct xs
    → find_id ids wanted xs ≡ t
    → Fresh t (erase_id ids wanted xs)
unfolding find_id erase_id
find-Fresh ids wanted t [] own d e = tt
find-Fresh ids wanted t (x ∷ xs) own d e = elim (Bool-cases (ids x == wanted)) [
  | inl hit ↦ rw hit (
      subst (λ y. Fresh y xs)
        (sym (subst (λ (b : Bool). t ≡ (if b then x else find_id ids wanted xs)) hit (sym e))) d.0)
  | inr miss ↦
      let later = subst (λ (b : Bool). (if b then x else find_id ids wanted xs) ≡ t) miss e in
      rw miss (
        (λ q. ==→ne (ids x) wanted miss (ap ids (sym q) ∙ own)),
        find-Fresh ids wanted t xs own d.1 later,
      )
]

module _ (s : Tasks) (id p stop : ℕ) (xs : List ℕ) (w : IsWaiting s id p stop xs) where
  removed_eq :
      (h : Links) (l : LinkList)
      → remove_list list_fuel s.links (s.ready_list p) id ≡ some (find_id s.links.id id xs, h, l)
      → remove_task_from_ready_list s id
        ≡ some (target id, record s { links = h; ready_list = update s.ready_list p l })
  unfolding remove_task_from_ready_list removed_from
  removed_eq h l e =
      let q : ℕ → Option (ℕ × Tasks) =
        λ q. removed_from s q (remove_list list_fuel s.links (s.ready_list q) id) in
      let found : leb 1024 (tcb_offset id) ≡ false = ground (arith, w.offset) in
      let low : leb 5 (priority (s.tcb (target id)).flags) ≡ false =
        ground (arith, w.at, w.below) in
      rw (found, eq→== (s.links.id (target id)) id w.own, low)
        (ap q w.at
          ∙ ap (removed_from s p) e
          ∙ ap (λ t. some (t, record s { links = h; ready_list = update s.ready_list p l }))
              w.member)

  -- A task that waits in a ready list, below priority 5, and gets priority 5 is taken out of its list
  -- and put into none, and kChangePriority returns TRUE.
  pub change_priority-Lost :
      s.links.id s.running_task ≢ id → Lost s id p xs (change_priority s id 5)
  unfolding change_flags
  change_priority-Lost other =
      let not_null : target id ≢ 0 = omega arith in
      let found : find_id s.links.id id xs ≢ 0 = omega (arith, w.member) in
      let out = remove_list-Removed id list_fuel xs w.list (inl found) w.short in
      let removed : Tasks = record s {
        links = out.h';
        ready_list = update s.ready_list p out.l';
      } in
      record {
        s' = change_flags removed (λ f. set_priority f 5) (target id);
        returned =
            change_priority-after s id (target id) removed other
              (removed_eq out.h' out.l' out.returned) not_null;
        stop' = out.stop';
        list =
            subst (λ l. IsList out.h' l out.stop' (erase_id s.links.id id xs))
              (sym (update_self s.ready_list p out.l')) out.list;
        gone = find-Fresh s.links.id id (target id) xs w.own w.list.distinct w.member;
        others = λ m ne. update_ne s.ready_list p m out.l' ne;
        wait_list = refl;
        changed = changed_priority removed (target id);
      }
