-- ===== src/Queue/Window.antt =====
-- The blocks that a queue holds, and its well-formedness.
use deodeok_os.Base.{
  ℕ, zero, suc, ◌+◌, ◌-◌, ◌*◌, ◌%◌, ◌^◌, ◌<◌, ◌≤◌, ◌≡◌, ◌≢◌, ◌⊎◌, true, false, List, [], ◌∷◌, ◌++◌,
  ◌==◌, if◌then◌else◌, ltb, length, arith, refl, ap, ap₂, ◌∙◌, sym, Bool-cases, inl, inr, ==→eq,
  ==→ne,
}
use native.Mathlib.Nat.{
  mod-add-mod, mod-eq_of_lt, mod-eq-sub-mod, mod_self, add-mod_right, add-zero,
}
use native.Mathlib.Decide.{dec_lt}
use deodeok_os.Memory.{Memory}
use deodeok_os.Memory.Words.{within}
use deodeok_os.Queue.{RingQueue, is_queue_full, is_queue_empty}
use deodeok_os.Queue.Fifo.{Block}

-- The `n` bytes from `a` on.
abbrev pub block : Memory → ℕ → ℕ → Block
block m a zero = []
block m a (suc n) = m a ∷ block m (a + 1) n

-- The `n` blocks from index `g` on, going round at `cap`.
abbrev pub window : Memory → (array size cap g n : ℕ) → List Block
window m array size cap g zero = []
window m array size cap g (suc n) =
    block m (array + size * g) size ∷ window m array size cap ((g + 1) % cap) n

-- How many blocks the queue holds.
abbrev pub held : RingQueue → ℕ
held q =
    if q.get_index == q.put_index
    then (if q.last_operation_put then q.max_data_count else 0)
    else if ltb q.get_index q.put_index
    then q.put_index - q.get_index
    else q.put_index + q.max_data_count - q.get_index

abbrev pub contents : RingQueue → Memory → List Block
contents q m = window m q.queue_array q.data_size q.max_data_count q.get_index (held q)

-- Both indices lie in the array, whose size in bytes is an `int`.
pub record IsValid (q : RingQueue) : Type 0 where
  pub put_in : q.put_index < q.max_data_count
  pub get_in : q.get_index < q.max_data_count
  pub small : q.data_size * q.max_data_count < 2 ^ 31

-- The block at `p` does not meet the array.
abbrev pub Outside : RingQueue → ℕ → Type 0
Outside q p =
    (p + q.data_size ≤ q.queue_array) ⊎ (q.queue_array + q.data_size * q.max_data_count ≤ p)

pub length-window : (m : Memory) (array size cap g n : ℕ) → length (window m array size cap g n) ≡ n
length-window m array size cap g zero = refl
length-window m array size cap g (suc n) = ap suc (length-window m array size cap ((g + 1) % cap) n)

-- A block depends on its own bytes only.
pub block-agree :
    (m m' : Memory) (a a' n : ℕ)
    → ((i : ℕ) → i < n → m' (a' + i) ≡ m (a + i))
    → block m' a' n ≡ block m a n
block-agree m m' a a' zero h = refl
block-agree m m' a a' (suc n) h =
    ap₂ ◌∷◌ (ap m' (sym (add-zero a')) ∙ h 0 (omega arith) ∙ ap m (add-zero a)) (
      block-agree m m' (a + 1) (a' + 1) n
        (λ i lt. ap m' (omega arith) ∙ h (suc i) (omega arith) ∙ ap m (omega arith)))

-- A block inside the array lies inside its bytes.
pub block_in : (size cap i : ℕ) → i < cap → size * i + size ≤ size * cap
block_in size cap i h = grind arith

-- Blocks at two indices do not meet.
pub blocks_apart : (size i j : ℕ) → i < j → size * i + size ≤ size * j
blocks_apart size i j h = grind arith

other_block :
    (array size g p i : ℕ)
    → g ≢ p
    → i < size
    → within (array + size * p) size (array + size * g + i) ≡ false
other_block array size g p i ne lt = elim (dec_lt g p) [
  | yes l ↦ ground (arith, blocks_apart size g p l)
  | no n ↦ ground (arith, blocks_apart size p g (omega arith))
]

-- Windows agree where the array's bytes do.
pub window-agree :
    (m m' : Memory) (array size cap g n : ℕ)
    → g < cap
    → ((a : ℕ) → array ≤ a → a < array + size * cap → m' a ≡ m a)
    → window m' array size cap g n ≡ window m array size cap g n
window-agree m m' array size cap g zero hg h = refl
window-agree m m' array size cap g (suc n) hg h =
    ap₂ ◌∷◌
      (block-agree m m' (array + size * g) (array + size * g) size
        (λ i lt. h (array + size * g + i) (omega arith) (omega (arith, block_in size cap g hg))))
      (window-agree m m' array size cap ((g + 1) % cap) n (omega arith) h)

-- Fewer than `cap` steps round the array do not come back to the start.
pub add-mod-ne : {cap g k : ℕ} → g < cap → suc k < cap → (g + suc k) % cap ≢ g
add-mod-ne {cap} {g} {k} hg hk = elim (dec_lt (g + suc k) cap) [
  | yes p ↦ omega (arith, mod-eq_of_lt p)
  | no p ↦ omega (
    arith,
    mod-eq-sub-mod {n = g + suc k} {m = cap} (omega arith),
    mod-eq_of_lt {n = g + suc k - cap} {m = cap} (omega arith),
  )
]

-- The successor of an index.
pub next_index : (i n : ℕ) → i < n → (i + 1) % n ≡ (if i + 1 == n then 0 else i + 1)
next_index i n h = elim (Bool-cases (i + 1 == n)) [
  | inl e ↦ rw e (ap (λ k. k % n) (==→eq _ _ e) ∙ mod_self n)
  | inr ne ↦ rw ne (mod-eq_of_lt (omega (arith, ==→ne _ _ ne)))
]

mod_wrap : (p n : ℕ) → p < n → (p + n) % n ≡ p
mod_wrap p n h = add-mod_right p n ∙ mod-eq_of_lt h

get-add-held :
    {q : RingQueue}
    → IsValid q
    → (q.get_index + held q ≡ q.put_index) ⊎ (q.get_index + held q ≡ q.put_index + q.max_data_count)
get-add-held {q} v = ground arith

-- The put index stands `held` blocks behind the get index.
pub put_index-held :
    {q : RingQueue} → IsValid q → q.put_index ≡ (q.get_index + held q) % q.max_data_count
put_index-held {q} v = elim (get-add-held v) [
  | inl e ↦ sym (ap (λ k. k % q.max_data_count) e ∙ mod-eq_of_lt v.put_in)
  | inr e ↦ sym (ap (λ k. k % q.max_data_count) e ∙ mod_wrap q.put_index q.max_data_count v.put_in)
]

pub held-put :
    {q : RingQueue}
    → IsValid q
    → is_queue_full q ≡ false
    → held
        (record q { put_index = (q.put_index + 1) % q.max_data_count; last_operation_put = true })
      ≡ suc (held q)
unfolding is_queue_full
held-put {q} v e = ground (arith, next_index q.put_index q.max_data_count)

pub held-get :
    {q : RingQueue}
    → IsValid q
    → is_queue_empty q ≡ false
    → suc (
        held (record q {
          get_index = (q.get_index + 1) % q.max_data_count;
          last_operation_put = false;
        }))
      ≡ held q
unfolding is_queue_empty
held-get {q} v e = ground (arith, next_index q.get_index q.max_data_count)

-- A queue is full when it holds `iMaxDataCount` blocks, and empty when it holds none.
pub full_iff : {q : RingQueue} → IsValid q → is_queue_full q ≡ (held q == q.max_data_count)
unfolding is_queue_full
full_iff {q} v = ground arith

pub empty_iff : {q : RingQueue} → IsValid q → is_queue_empty q ≡ (held q == 0)
unfolding is_queue_empty
empty_iff {q} v = ground arith

pub held-le : {q : RingQueue} → IsValid q → held q ≤ q.max_data_count
held-le {q} v = ground arith

-- Writing the block behind a window extends it by that block.
pub window-put :
    (m m' : Memory) (array size cap g n p : ℕ)
    → g < cap
    → n < cap
    → p ≡ (g + n) % cap
    → ((a : ℕ)
        → array ≤ a
        → a < array + size * cap
        → within (array + size * p) size a ≡ false
        → m' a ≡ m a)
    → window m' array size cap g (suc n)
      ≡ window m array size cap g n ++ (block m' (array + size * p) size ∷ [])
window-put m m' array size cap g zero p hg hn e same =
    ap (λ k. block m' (array + size * k) size ∷ [])
      (sym (e ∙ ap (λ k. k % cap) (add-zero g) ∙ mod-eq_of_lt hg))
window-put m m' array size cap g (suc n) p hg hn e same =
    ap₂ ◌∷◌
      (block-agree m m' (array + size * g) (array + size * g) size (λ i lt.
        same (array + size * g + i) (omega arith) (omega (arith, block_in size cap g hg))
          (other_block array size g p i (λ eq. add-mod-ne hg hn (sym e ∙ sym eq)) lt)))
      (window-put m m' array size cap ((g + 1) % cap) n p (omega arith) (omega arith) (e ∙ shift)
        same)
  where
    shift : (g + suc n) % cap ≡ ((g + 1) % cap + n) % cap
    shift = rw mod-add-mod (ap (λ k. k % cap) (omega arith))
