-- ===== src/SpinLock.antt =====
-- volumes/02.Kernel64/Source/Synchronization.c: the spinlock, step by step. Each CPU executes
-- kLockForSpinLock and kUnlockForSpinLock one store or test at a time, in the order of the source,
-- and the CPUs' steps interleave in any order.
pub mod Owner
pub mod Exclusive
mod Tests
use deodeok_os.Base.{
  ℕ, zero, suc, ◌+◌, ◌-◌, ◌%◌, ◌^◌, ◌<◌, Bool, true, false, not, ltb, ◌==◌, ◌||◌, if◌then◌else◌,
}
use deodeok_os.Base.Cells.{update}

-- SPINLOCK
pub record SpinLock : Type 0 where
  pub lock_flag : Bool
  pub lock_count : ℕ
  pub apic_id : ℕ
  pub interrupt_flag : Bool

-- kInitializeSpinLock
unfoldable pub initialize_spin_lock : SpinLock
initialize_spin_lock = record {
  lock_flag = false;
  lock_count = 0;
  apic_id = 0xff;
  interrupt_flag = false;
}

-- Where a CPU is: outside of both functions; in kLockForSpinLock before the first kTestAndSet, the
-- comparison of IDs, the increase of the count, a kTestAndSet of the loop, and the three stores; in
-- kUnlockForSpinLock before the test of the flag, the comparison of IDs, the test of the count, its
-- decrease, the load of bInterruptFlag, and the four stores.
pub data Point : Type 0 where
  outside lock_test lock_compare increase lock_spin store_count store_id store_interrupt : Point
  unlock_test unlock_compare unlock_count decrease load_interrupt : Point
  clear_id clear_count clear_interrupt clear_flag : Point

-- `depth` is the number of locks the CPU has taken and not given back.
pub record Cpu : Type 0 where
  pub at : Point
  pub depth : ℕ
  pub interrupts : Bool
  pub saved : Bool

-- What a CPU outside does next.
pub data Call : Type 0 where
  lock unlock : Call

abbrev pub go_to : Point → Cpu → Cpu
go_to p k = record k { at = p }

-- The next step of CPU `c` from a point.
unfoldable pub step_from : Point → (c : ℕ) → Call → SpinLock → Cpu → SpinLock × Cpu
step_from outside c lock l k =
    (l, record k { at = lock_test; saved = k.interrupts; interrupts = false })
step_from outside c unlock l k =
    (l, record k { at = unlock_test; saved = k.interrupts; interrupts = false })
step_from lock_test c a l k =
    if l.lock_flag
    then (l, go_to lock_compare k)
    else (record l { lock_flag = true }, go_to store_count k)
step_from lock_compare c a l k =
    if l.apic_id == c then (l, go_to increase k) else (l, go_to lock_spin k)
step_from increase c a l k = (
  record l { lock_count = (l.lock_count + 1) % 2 ^ 32 },
  record k { at = outside; depth = k.depth + 1 },
)
step_from lock_spin c a l k =
    if l.lock_flag then (l, k) else (record l { lock_flag = true }, go_to store_count k)
step_from store_count c a l k = (record l { lock_count = 1 }, go_to store_id k)
step_from store_id c a l k = (record l { apic_id = c }, go_to store_interrupt k)
step_from store_interrupt c a l k =
    (record l { interrupt_flag = k.saved }, record k { at = outside; depth = k.depth + 1 })
step_from unlock_test c a l k =
    if l.lock_flag
    then (l, go_to unlock_compare k)
    else (l, record k { at = outside; interrupts = k.saved })
step_from unlock_compare c a l k =
    if l.apic_id == c
    then (l, go_to unlock_count k)
    else (l, record k { at = outside; interrupts = k.saved })
step_from unlock_count c a l k =
    if ltb 1 l.lock_count then (l, go_to decrease k) else (l, go_to load_interrupt k)
step_from decrease c a l k =
    (record l { lock_count = l.lock_count - 1 }, record k { at = outside; depth = k.depth - 1 })
step_from load_interrupt c a l k =
    (l, record k { at = clear_id; depth = k.depth - 1; saved = l.interrupt_flag })
step_from clear_id c a l k = (record l { apic_id = 0xff }, go_to clear_count k)
step_from clear_count c a l k = (record l { lock_count = 0 }, go_to clear_interrupt k)
step_from clear_interrupt c a l k = (record l { interrupt_flag = false }, go_to clear_flag k)
step_from clear_flag c a l k =
    (record l { lock_flag = false }, record k { at = outside; interrupts = k.saved })

-- The lock and the CPUs by their APIC IDs.
pub record Machine : Type 0 where
  pub lock : SpinLock
  pub cpu : ℕ → Cpu

unfoldable pub run : (c : ℕ) → Call → Machine → Machine
run c a m =
    let (l, k) = step_from (m.cpu c).at c a m.lock (m.cpu c) in
    record { lock = l; cpu = update m.cpu c k }

unfoldable pub start : Machine
start = record {
  lock = initialize_spin_lock;
  cpu = λ c. record { at = outside; depth = 0; interrupts = true; saved = false };
}

-- The machines that any interleaving of steps leads to. APIC IDs are below 0xFF, and no CPU takes
-- the lock 2^32 - 1 times inside itself.
pub data Reachable : Machine → Type 0 where
  initial : Reachable start
  next :
      {m : Machine} (c : ℕ) (a : Call)
      → Reachable m
      → c < 0xff
      → (m.cpu c).depth < 2 ^ 32 - 1
      → Reachable (run c a m)
