-- ===== src/SpinLock/Exclusive.antt =====
-- The steps of the spinlock's two functions.
use deodeok_os.Base.{
  ℕ, ◌-◌, ◌^◌, ◌<◌, ◌≡◌, ◌≢◌, ◌⊎◌, Bool, true, false, ltb, ◌==◌, ◌||◌, if◌then◌else◌, arith, refl,
  sym, ap, ◌∙◌, subst, inl, inr, Bool-cases, ==→eq, ==→ne,
}
use deodeok_os.SpinLock.{
  SpinLock, Point, Cpu, Call, Machine, step_from, run, start, initialize_spin_lock, Reachable,
}
use deodeok_os.SpinLock.Owner.{
  owning_at, owns, Settled, Local, after, IsExclusive, alone_step, quiet_step,
}

module _ (m : Machine) (inv : IsExclusive m) (c : ℕ) (below : c < 0xff)
    (shallow : (m.cpu c).depth < 2 ^ 32 - 1) (a : Call) where
  abbrev k : Cpu
  k = m.cpu c

  -- CPU `c` owns the lock, or it is free: no other CPU owns it.
  alone_owner : owns k ≡ true → (d : ℕ) → c ≢ d → owns (m.cpu d) ≡ false
  alone_owner o d ne = elim (Bool-cases (owns (m.cpu d))) [
    | inl x ↦ absurd (ne (inv.one c d o x))
    | inr x ↦ x
  ]

  set_while_owned : owns k ≡ true → m.lock.lock_flag ≢ false
  set_while_owned o z = absurd (ground (arith, inv.free c z, o))

  -- The ID in the lock is that of the owner.
  id_owns : m.lock.apic_id ≡ c → owns k ≡ true
  id_owns e = elim (Bool-cases (owns k)) [ inl o ↦ o | inr n ↦ absurd (inv.strange c below n e) ]

  local : (p : Point) → k.at ≡ p → Local p c m.lock k
  local p e = subst (λ q. Local q c m.lock k) e (inv.here c)

  own : (p : Point) → k.at ≡ p → owns k ≡ (ltb 0 k.depth || owning_at p)
  own p e = ap (λ q. ltb 0 k.depth || owning_at q) e

  -- The flag is won.
  win_flag :
      m.lock.lock_flag ≡ false
      → IsExclusive
          (after m c (record m.lock { lock_flag = true }, record k { at = Point.store_count }))
  unfolding owning_at Local
  win_flag z =
      alone_step m inv c _ _ (λ d ne. inv.free d z) (λ f. absurd (ground (arith, f)))
        (λ f. absurd (ground (arith, f))) (inl refl) (ground (arith, inv.free c z))

  -- The owner takes or gives back a lock, or stores.
  owner_step :
      (l' : SpinLock) (k' : Cpu)
      → owns k ≡ true
      → l'.lock_flag ≡ m.lock.lock_flag
      → owns k' ≡ true
      → ((l'.apic_id ≡ m.lock.apic_id) ⊎ (l'.apic_id ≡ c) ⊎ (l'.apic_id ≡ 0xff))
      → Local k'.at c l' k'
      → IsExclusive (after m c (l', k'))
  owner_step l' k' o same o' ids here =
      alone_step m inv c l' k' (alone_owner o) (λ f. absurd (set_while_owned o (sym same ∙ f)))
        (λ f. absurd (ground (arith, f, o'))) ids here

  if_step :
      (b : Bool) (x y : SpinLock × Cpu)
      → (b ≡ true → IsExclusive (after m c x))
      → (b ≡ false → IsExclusive (after m c y))
      → IsExclusive (after m c (if b then x else y))
  if_step true x y f g = f refl
  if_step false x y f g = g refl

  -- Another CPU's ID in the lock: this one has no lock.
  no_depth : Settled c m.lock k → m.lock.apic_id ≢ c → k.depth ≡ 0
  no_depth h ne = elim (Bool-cases (ltb 0 k.depth)) [
    | inl deep ↦ absurd (ne (h deep).1)
    | inr z ↦ ground arith
  ]

  step-IsExclusive : (p : Point) → k.at ≡ p → IsExclusive (after m c (step_from p c a m.lock k))
  unfolding step_from owning_at Local
  step-IsExclusive Point.outside e =
      elim a as (λ b. IsExclusive (after m c (step_from Point.outside c b m.lock k))) [
        | Call.lock ↦ quiet_step m inv c _ _ refl (sym (own _ e)) (local _ e)
        | Call.unlock ↦ quiet_step m inv c _ _ refl (sym (own _ e)) (local _ e)
      ]
  step-IsExclusive Point.lock_test e =
      if_step m.lock.lock_flag _ _ (λ set. quiet_step m inv c _ _ refl (sym (own _ e)) (local _ e))
        (λ z. win_flag z)
  step-IsExclusive Point.lock_compare e =
      if_step (m.lock.apic_id == c) _ _
        (λ mine.
          let o = id_owns (==→eq _ _ mine) in
          let deep : ltb 0 k.depth ≡ true = ground (arith, own _ e, o) in
          let h = local _ e deep in
          quiet_step m inv c _ _ refl (ground (arith, o)) (ground arith, h.0, h.1))
        (λ other.
          quiet_step m inv c _ _ refl (sym (own _ e))
            (local _ e, no_depth (local _ e) (==→ne _ _ other)))
  step-IsExclusive Point.increase e =
      let h = local _ e in
      owner_step _ _ (ground (arith, own _ e)) refl (ground arith) (inl refl)
        (λ d. (omega (arith, h.1, shallow), h.2))
  step-IsExclusive Point.lock_spin e =
      if_step m.lock.lock_flag _ _ (λ set. quiet_step m inv c _ _ refl refl (inv.here c))
        (λ z. win_flag z)
  step-IsExclusive Point.store_count e =
      owner_step _ _ (ground (arith, own _ e)) refl (ground arith) (inl refl) (local _ e, refl)
  step-IsExclusive Point.store_id e =
      let h = local _ e in
      owner_step _ _ (ground (arith, own _ e)) refl (ground arith) (inr (inl refl)) (h.0, h.1, refl)
  step-IsExclusive Point.store_interrupt e =
      let h = local _ e in
      owner_step _ _ (ground (arith, own _ e)) refl (ground arith) (inl refl)
        (λ d. (omega (arith, h.0, h.1), h.2))
  step-IsExclusive Point.unlock_test e =
      if_step m.lock.lock_flag _ _ (λ set. quiet_step m inv c _ _ refl (sym (own _ e)) (local _ e))
        (λ free. quiet_step m inv c _ _ refl (sym (own _ e)) (local _ e))
  step-IsExclusive Point.unlock_compare e =
      if_step (m.lock.apic_id == c) _ _
        (λ mine.
          let o = id_owns (==→eq _ _ mine) in
          let deep : ltb 0 k.depth ≡ true = ground (arith, own _ e, o) in
          let h = local _ e deep in
          quiet_step m inv c _ _ refl (ground (arith, o)) (ground arith, h.0, h.1))
        (λ other. quiet_step m inv c _ _ refl (sym (own _ e)) (local _ e))
  step-IsExclusive Point.unlock_count e =
      let h = local _ e in
      if_step (ltb 1 m.lock.lock_count) _ _
        (λ more.
          quiet_step m inv c _ _ refl (ground (arith, own _ e)) (ground (arith, h.1), h.1, h.2))
        (λ last.
          quiet_step m inv c _ _ refl (ground (arith, own _ e)) (ground (arith, h.0, h.1), h.2))
  step-IsExclusive Point.decrease e =
      let h = local _ e in
      owner_step _ _ (ground (arith, own _ e)) refl (ground (arith, h.0)) (inl refl)
        (λ d. (omega (arith, h.1), h.2))
  step-IsExclusive Point.load_interrupt e =
      owner_step _ _ (ground (arith, own _ e)) refl (ground arith) (inl refl)
        (omega (arith, (local _ e).0))
  step-IsExclusive Point.clear_id e =
      owner_step _ _ (ground (arith, own _ e)) refl (ground arith) (inr (inr refl))
        (local _ e, refl)
  step-IsExclusive Point.clear_count e =
      owner_step _ _ (ground (arith, own _ e)) refl (ground arith) (inl refl) (local _ e)
  step-IsExclusive Point.clear_interrupt e =
      owner_step _ _ (ground (arith, own _ e)) refl (ground arith) (inl refl) (local _ e)
  step-IsExclusive Point.clear_flag e =
      let h = local _ e in
      alone_step m inv c _ _ (alone_owner (ground (arith, own _ e))) (λ f. ground (arith, h.0))
        (λ f g. absurd (omega (arith, g, h.1, below))) (inl refl)
        (λ d. absurd (ground (arith, h.0, d)))

start-IsExclusive : IsExclusive start
unfolding start initialize_spin_lock owning_at Local
start-IsExclusive = record {
  free = λ c z. refl;
  one = λ c d x y. absurd (ground (arith, x));
  strange = λ c lt z. omega arith;
  here = λ c d. absurd (ground (arith, d));
}

Reachable-IsExclusive : {m : Machine} → Reachable m → IsExclusive m
unfolding run
Reachable-IsExclusive Reachable.initial = start-IsExclusive
Reachable-IsExclusive (Reachable.next {m} c a r below shallow) =
    step-IsExclusive m (Reachable-IsExclusive r) c below shallow a (m.cpu c).at refl

-- Whatever the interleaving, with APIC IDs below 0xFF and locks nested less than 2^32 - 1 times, two
-- CPUs that both hold the spinlock are the same CPU.
pub mutual_exclusion :
    (m : Machine) (c d : ℕ) → Reachable m → 0 < (m.cpu c).depth → 0 < (m.cpu d).depth → c ≡ d
mutual_exclusion m c d r x y = (Reachable-IsExclusive r).one c d (ground arith) (ground arith)

-- In each machine that these interleavings reach, a CPU that holds the spinlock, outside of its
-- functions, finds its ID and the number of its locks in it, and the flag set: taking the lock again
-- counts instead of waiting.
pub holder_recorded :
    (m : Machine) (c : ℕ)
    → Reachable m
    → (m.cpu c).at ≡ Point.outside
    → 0 < (m.cpu c).depth
    → (m.lock.lock_flag ≡ true) × (m.lock.lock_count ≡ (m.cpu c).depth) × (m.lock.apic_id ≡ c)
unfolding Local
holder_recorded m c r at x =
    let inv = Reachable-IsExclusive r in
    let h = subst (λ q. Local q c m.lock (m.cpu c)) at (inv.here c) (ground arith) in
    (ground (arith, inv.free c), h.0, h.1)
