-- ===== src/SpinLock/Tests.antt =====
-- A run: CPU 1 takes the spinlock twice while CPU 2 waits.
use deodeok_os.Base.{
  ℕ, zero, suc, ◌+◌, ◌-◌, ◌^◌, ◌≡◌, ◌<◌, ◌≤◌, true, refl, ap, arith, Bool-cases, inl, inr, ◌==◌,
  ltb,
}
use deodeok_os.Base.Cells.{update_self}
use deodeok_os.SpinLock.{
  SpinLock, Cpu, Machine, Point, Call, Reachable, run, start, step_from, initialize_spin_lock,
}
use deodeok_os.SpinLock.Exclusive.{mutual_exclusion, holder_recorded}

-- `n` steps of one CPU.
steps : (n : ℕ) → (c : ℕ) → Machine → Machine
steps zero c m = m
steps (suc n) c m = run c Call.lock (steps n c m)

-- A step takes the lock once, at most.
step_depth :
    (p : Point) (c : ℕ) (l : SpinLock) (k : Cpu)
    → (step_from p c Call.lock l k).1.depth ≤ k.depth + 1
unfolding step_from
step_depth Point.outside c l k = omega arith
step_depth Point.lock_test c l k = elim (Bool-cases l.lock_flag) [
  | inl e ↦ rw e (omega arith)
  | inr e ↦ rw e (omega arith)
]
step_depth Point.lock_compare c l k = elim (Bool-cases (l.apic_id == c)) [
  | inl e ↦ rw e (omega arith)
  | inr e ↦ rw e (omega arith)
]
step_depth Point.increase c l k = omega arith
step_depth Point.lock_spin c l k = elim (Bool-cases l.lock_flag) [
  | inl e ↦ rw e (omega arith)
  | inr e ↦ rw e (omega arith)
]
step_depth Point.store_count c l k = omega arith
step_depth Point.store_id c l k = omega arith
step_depth Point.store_interrupt c l k = omega arith
step_depth Point.unlock_test c l k = elim (Bool-cases l.lock_flag) [
  | inl e ↦ rw e (omega arith)
  | inr e ↦ rw e (omega arith)
]
step_depth Point.unlock_compare c l k = elim (Bool-cases (l.apic_id == c)) [
  | inl e ↦ rw e (omega arith)
  | inr e ↦ rw e (omega arith)
]
step_depth Point.unlock_count c l k = elim (Bool-cases (ltb 1 l.lock_count)) [
  | inl e ↦ rw e (omega arith)
  | inr e ↦ rw e (omega arith)
]
step_depth Point.decrease c l k = omega arith
step_depth Point.load_interrupt c l k = omega arith
step_depth Point.clear_id c l k = omega arith
step_depth Point.clear_count c l k = omega arith
step_depth Point.clear_interrupt c l k = omega arith
step_depth Point.clear_flag c l k = omega arith

steps_depth : (n c : ℕ) (m : Machine) → ((steps n c m).cpu c).depth ≤ (m.cpu c).depth + n
unfolding steps run
steps_depth zero c m = omega arith
steps_depth (suc n) c m =
    let s : Machine = steps n c m in
    omega (
      arith,
      steps_depth n c m,
      step_depth (s.cpu c).at c s.lock (s.cpu c),
      ap (λ (k : Cpu). k.depth)
          (update_self s.cpu c (step_from (s.cpu c).at c Call.lock s.lock (s.cpu c)).1),
    )

steps-Reachable :
    (n c : ℕ) (m : Machine)
    → c < 0xff
    → (m.cpu c).depth + n < 2 ^ 32 - 1
    → Reachable m
    → Reachable (steps n c m)
unfolding steps
steps-Reachable zero c m below few r = r
steps-Reachable (suc n) c m below few r =
    Reachable.next c Call.lock (steps-Reachable n c m below (omega (arith, few)) r) below
      (omega (arith, few, steps_depth n c m))

abbrev taken_once : Machine
taken_once = steps 5 1 start

abbrev contended : Machine
contended = steps 4 2 taken_once

abbrev waiting : Machine
waiting = steps 4 1 contended

taken_once_depth : (contended.cpu 1).depth ≡ 1
unfolding steps run start step_from initialize_spin_lock
taken_once_depth = refl

other_depth : (taken_once.cpu 2).depth ≡ 0
unfolding steps run start step_from initialize_spin_lock
other_depth = refl

start_depth : (start.cpu 1).depth ≡ 0
unfolding start
start_depth = refl

waiting-Reachable : Reachable waiting
waiting-Reachable = steps-Reachable 4 1 _ (omega arith) (omega (arith, taken_once_depth)) (
    steps-Reachable 4 2 _ (omega arith) (omega (arith, other_depth))
      (steps-Reachable 5 1 start (omega arith) (omega (arith, start_depth)) Reachable.initial))

deep : (waiting.cpu 1).depth ≡ 2
unfolding steps run start step_from initialize_spin_lock
deep = refl

idle : (waiting.cpu 1).at ≡ Point.outside
unfolding steps run start step_from initialize_spin_lock
idle = refl

spinning : (waiting.cpu 2).at ≡ Point.lock_spin
unfolding steps run start step_from initialize_spin_lock
spinning = refl

mutual_exclusion_example : ◌≡◌ {A = ℕ} 1 1
mutual_exclusion_example =
    mutual_exclusion waiting 1 1 waiting-Reachable (omega (arith, deep)) (omega (arith, deep))

holder_recorded_example :
    (waiting.lock.lock_flag ≡ true)
    × (waiting.lock.lock_count ≡ (waiting.cpu 1).depth)
    × (waiting.lock.apic_id ≡ 1)
holder_recorded_example = holder_recorded waiting 1 waiting-Reachable idle (omega (arith, deep))
