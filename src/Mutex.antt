-- ===== src/Mutex.antt =====
-- volumes/02.Kernel64/Source/Synchronization.c: the mutex, one call at a time. A task that finds it
-- held by another one calls kSchedule until the flag is free; that is `waits`.
pub mod Nesting
mod Tests
use deodeok_os.Base.{
  ℕ, zero, suc, ◌+◌, ◌-◌, ◌%◌, ◌^◌, Bool, true, false, not, ltb, ◌==◌, ◌||◌, if◌then◌else◌,
}

-- MUTEX
pub record Mutex : Type 0 where
  pub task_id : ℕ
  pub lock_count : ℕ
  pub lock_flag : Bool

-- TASK_INVALIDID
abbrev pub invalid_id : ℕ
invalid_id = 0xffff_ffff_ffff_ffff

unfoldable pub initialize_mutex : Mutex
initialize_mutex = record { task_id = invalid_id; lock_count = 0; lock_flag = false }

pub data Outcome : Type 0 where
  locked : Mutex → Outcome
  waits : Outcome

-- kLock by the running task `id`, up to the point where it would wait.
unfoldable pub lock : (id : ℕ) → Mutex → Outcome
lock id m =
    if m.lock_flag
    then (if m.task_id == id
        then locked (record m { lock_count = (m.lock_count + 1) % 2 ^ 32 })
        else waits)
    else locked (record { task_id = id; lock_count = 1; lock_flag = true })

-- kUnlock by the running task `id`.
unfoldable pub unlock : (id : ℕ) → Mutex → Mutex
unlock id m =
    if not m.lock_flag || not (m.task_id == id)
    then m
    else if ltb 1 m.lock_count
    then record m { lock_count = m.lock_count - 1 }
    else record { task_id = invalid_id; lock_count = 0; lock_flag = false }
