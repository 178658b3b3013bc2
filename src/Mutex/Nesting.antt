-- ===== src/Mutex/Nesting.antt =====
-- The mutex as an owner and a count.
use deodeok_os.Base.{
  ℕ, zero, suc, ◌-◌, ◌^◌, ◌<◌, ◌≡◌, Bool, true, ◌==◌, if◌then◌else◌, arith, refl, ap, lt→ltb,
  Bool-cases, inl, inr,
}
use deodeok_os.Mutex.{Mutex, Outcome, initialize_mutex, lock, unlock}

-- What the mutex promises: nobody holds it, or a task does, some number of times.
pub data Owner : Type 0 where
  nobody : Owner
  held : (id count : ℕ) → Owner

unfoldable pub as_mutex : Owner → Mutex
as_mutex Owner.nobody = initialize_mutex
as_mutex (Owner.held id count) = record { task_id = id; lock_count = suc count; lock_flag = true }

-- The operations on owners; `held id n` is held n + 1 times.
unfoldable pub take : ℕ → Owner → Owner
take id Owner.nobody = Owner.held id 0
take id (Owner.held other count) =
    if other == id then Owner.held other (suc count) else Owner.held other count

unfoldable pub may_take : ℕ → Owner → Bool
may_take id Owner.nobody = true
may_take id (Owner.held other count) = other == id

unfoldable pub give_one : ℕ → ℕ → Owner
give_one id zero = Owner.nobody
give_one id (suc count) = Owner.held id count

unfoldable pub give : ℕ → Owner → Owner
give id Owner.nobody = Owner.nobody
give id (Owner.held other count) =
    if other == id then give_one other count else Owner.held other count

unfoldable pub Small : Owner → Type 0
Small Owner.nobody = Unit
Small (Owner.held id count) = count < 2 ^ 32 - 2

-- kLock takes a mutex that is free or the task's own, counting, and waits for that of another task.
pub lock_refines :
    (id : ℕ) (o : Owner)
    → Small o
    → lock id (as_mutex o)
      ≡ (if may_take id o then Outcome.locked (as_mutex (take id o)) else Outcome.waits)
unfolding lock as_mutex take may_take initialize_mutex Small
lock_refines id Owner.nobody s = refl
lock_refines id (Owner.held other count) s = elim (Bool-cases (other == id)) [
  | inl mine ↦ rw mine (
      ap (λ n. Outcome.locked (record { task_id = other; lock_count = n; lock_flag = true }))
        (omega (arith, s)))
  | inr theirs ↦ rw theirs refl
]

-- A mutex held `n` times.
abbrev held_times : (id n : ℕ) → Mutex
held_times id n = record { task_id = id; lock_count = n; lock_flag = true }

-- kUnlock gives back one lock of the owner, the last one frees the mutex, and a task that does not
-- hold it changes nothing.
pub unlock_refines : (id : ℕ) (o : Owner) → unlock id (as_mutex o) ≡ as_mutex (give id o)
unfolding unlock as_mutex give give_one initialize_mutex
unlock_refines id Owner.nobody = refl
unlock_refines id (Owner.held other zero) = elim (Bool-cases (other == id)) [
  | inl mine ↦ rw mine refl
  | inr theirs ↦ rw theirs refl
]
unlock_refines id (Owner.held other (suc count)) = elim (Bool-cases (other == id)) [
  | inl mine ↦
      rw (mine, lt→ltb 1 (suc (suc count)) (omega arith))
        (ap (λ n. held_times other n) (omega arith))
  | inr theirs ↦ rw theirs refl
]
