-- ===== src/Task/Pool.antt =====
-- The TCB pool: kAllocateTCB and kFreeTCB, and the IDs that tell whether a TCB is in use.
use deodeok_os.Base.{
  ℕ, zero, suc, ◌+◌, ◌*◌, ◌/◌, ◌^◌, ◌<◌, ◌≤◌, ◌≡◌, ◌≢◌, true, false, ◌==◌, if◌then◌else◌, Option,
  none, some, refl, inl, inr, Bool-cases, arith, sym,
}
use deodeok_os.Base.Cells.{update}
use deodeok_os.LinkedList.{Links}
use deodeok_os.Task.{
  Tasks, tcb_address, tcb_offset, free_tcb, set_ids, initialize_tcb_pool, is_task_exist,
  get_tcb_in_tcb_pool,
}

-- 1 for a TCB in use: the upper half of its ID is not 0.
abbrev pub in_use : ℕ → ℕ
in_use id = if id / 2 ^ 32 == 0 then 0 else 1

-- How many of the first `n` TCBs are in use.
unfoldable pub used_count : ℕ → (ℕ → ℕ) → ℕ
used_count zero id = 0
used_count (suc n) id = used_count n id + in_use (id (tcb_address n))

-- iUseCount is right, each ID's lower half is its index, and the next ID's upper half is not 0.
pub record IsTcbPool (s : Tasks) : Type 0 where
  pub counted : s.use_count ≡ used_count s.max_count s.links.id
  pub offsets : (i : ℕ) → i < s.max_count → tcb_offset (s.links.id (tcb_address i)) ≡ i
  pub few : s.max_count ≤ 1024
  pub next_pos : s.allocated_count ≢ 0
  pub next_small : s.allocated_count < 2 ^ 32

used_count-le : (n : ℕ) (id : ℕ → ℕ) → used_count n id ≤ n
unfolding used_count
used_count-le zero id = omega arith
used_count-le (suc n) id = ground (arith, used_count-le n id)

used_count-above :
    (n : ℕ) (id : ℕ → ℕ) (i v : ℕ)
    → n ≤ i
    → used_count n (update id (tcb_address i) v) ≡ used_count n id
unfolding used_count
used_count-above zero id i v le = refl
used_count-above (suc n) id i v le = ground (arith, used_count-above n id i v)

-- A new ID changes the count at that TCB.
used_count-update :
    (n : ℕ) (id : ℕ → ℕ) (i v : ℕ)
    → i < n
    → used_count n (update id (tcb_address i) v) + in_use (id (tcb_address i))
      ≡ used_count n id + in_use v
unfolding used_count
used_count-update zero id i v lt = absurd (omega arith)
used_count-update (suc n) id i v lt = elim (Bool-cases (i == n)) [
  | inl e ↦ ground (arith, used_count-above n id i v)
  | inr ne ↦ ground (arith, used_count-update n id i v)
]

unfoldable IsFirstEmpty : (n i : ℕ) → Links → Option ℕ → Type 0
IsFirstEmpty n i h none = (j : ℕ) → i ≤ j → j < n → h.id (tcb_address j) / 2 ^ 32 ≢ 0
IsFirstEmpty n i h (some k) = (i ≤ k) × (k < n) × (h.id (tcb_address k) / 2 ^ 32 ≡ 0)

-- A TCB that was free has a new ID; the others keep theirs.
pub record NewTcb (s : Tasks) (i : ℕ) (s' : Tasks) : Type 0 where
  pub index : i < s.max_count
  pub was_free : in_use (s.links.id (tcb_address i)) ≡ 0
  pub id : s'.links.id (tcb_address i) ≡ s.allocated_count * 2 ^ 32 + i
  pub others : (a : ℕ) → tcb_address i ≢ a → s'.links.id a ≡ s.links.id a
  pub use_count : s'.use_count ≡ s.use_count + 1
  pub pool : IsTcbPool s'
  pub exists : is_task_exist s' (s'.links.id (tcb_address i)) ≡ true

-- NULL is returned only by a pool in which each TCB is in use.
pub data IsAllocated (s : Tasks) : Option (ℕ × Tasks) → Type 0 where
  full : used_count s.max_count s.links.id ≡ s.max_count → IsAllocated s (some (0, s))
  fresh : (i : ℕ) (s' : Tasks) → NewTcb s i s' → IsAllocated s (some (tcb_address i, s'))

module _ (s : Tasks) (p : IsTcbPool s) where
  -- kFreeTCB of a task in the pool makes its TCB free and the ID that of no task, and the pool's
  -- counts stay right.
  pub free_tcb-IsTcbPool :
      (id : ℕ)
      → tcb_offset id < s.max_count
      → s.links.id (tcb_address (tcb_offset id)) ≡ id
      → id / 2 ^ 32 ≢ 0
      → IsTcbPool (free_tcb s id)
        × ((free_tcb s id).use_count + 1 ≡ s.use_count)
        × (is_task_exist (free_tcb s id) id ≡ false)
  unfolding free_tcb is_task_exist get_tcb_in_tcb_pool
  free_tcb-IsTcbPool id lt held used =
      let count = used_count-update s.max_count s.links.id (tcb_offset id) (tcb_offset id) lt in
      let le = used_count-le s.max_count s.links.id in
      (
        record {
          counted = ground (arith, count, p.counted, le, p.few);
          offsets = λ j below. ground (arith, p.offsets j, p.few);
          few = p.few;
          next_pos = p.next_pos;
          next_small = p.next_small;
        },
        ground (arith, count, p.counted, le, p.few),
        ground arith,
      )

set_ids_at : (n : ℕ) (id : ℕ → ℕ) (i : ℕ) → i < n → set_ids n id (tcb_address i) ≡ i
unfolding set_ids
set_ids_at zero id i lt = absurd (omega arith)
set_ids_at (suc n) id i lt = ground (arith, set_ids_at n id i)

none_used :
    (n : ℕ) (id : ℕ → ℕ) → ((j : ℕ) → j < n → id (tcb_address j) < 2 ^ 32) → used_count n id ≡ 0
unfolding used_count
none_used zero id f = refl
none_used (suc n) id f =
    ground (arith, none_used n id (λ j lt. f j (omega arith)), f n (omega arith))

-- kInitializeTCBPool leaves a pool in which no TCB is in use.
pub initialize_tcb_pool-IsTcbPool :
    (s : Tasks) → IsTcbPool (initialize_tcb_pool s) × ((initialize_tcb_pool s).use_count ≡ 0)
unfolding initialize_tcb_pool
initialize_tcb_pool-IsTcbPool s = (
  record {
    counted = sym (none_used 1024 _ (λ j lt. omega (arith, set_ids_at 1024 _ j lt)));
    offsets = λ i lt. omega (arith, set_ids_at 1024 _ i lt);
    few = omega arith;
    next_pos = omega arith;
    next_small = omega arith;
  },
  refl,
)
