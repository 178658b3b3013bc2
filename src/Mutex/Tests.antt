-- ===== src/Mutex/Tests.antt =====
-- Runs of the mutex.
use deodeok_os.Base.{◌≡◌, arith, if◌then◌else◌}
use deodeok_os.Mutex.{Outcome, lock, unlock}
use deodeok_os.Mutex.Nesting.{
  Owner, as_mutex, take, may_take, give, Small, lock_refines, unlock_refines,
}

-- Task 7 holds the mutex twice.
abbrev twice : Owner
twice = Owner.held 7 1

lock_refines_example :
    lock 7 (as_mutex twice)
    ≡ (if may_take 7 twice then Outcome.locked (as_mutex (take 7 twice)) else Outcome.waits)
unfolding Small
lock_refines_example = lock_refines 7 twice (omega arith)

unlock_refines_example : unlock 7 (as_mutex twice) ≡ as_mutex (give 7 twice)
unlock_refines_example = unlock_refines 7 twice
