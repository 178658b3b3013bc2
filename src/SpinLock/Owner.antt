-- ===== src/SpinLock/Owner.antt =====
-- Who owns the spinlock at each point, and what steps keep of it.
use deodeok_os.Base.{
  ℕ, ◌<◌, ◌≡◌, ◌≢◌, ◌⊎◌, Bool, true, false, ltb, ◌||◌, arith, sym, ap, ◌∙◌, subst, inl, inr, ne→==,
  eq→==,
}
use native.Mathlib.Decide.{ℕ_discrete}
use deodeok_os.Base.Cells.{update}
use deodeok_os.SpinLock.{SpinLock, Point, Cpu, Machine}

-- Between winning the flag and clearing it.
unfoldable pub owning_at : Point → Bool
owning_at Point.outside = false
owning_at Point.lock_test = false
owning_at Point.lock_compare = false
owning_at Point.increase = true
owning_at Point.lock_spin = false
owning_at Point.store_count = true
owning_at Point.store_id = true
owning_at Point.store_interrupt = true
owning_at Point.unlock_test = false
owning_at Point.unlock_compare = false
owning_at Point.unlock_count = true
owning_at Point.decrease = true
owning_at Point.load_interrupt = true
owning_at Point.clear_id = true
owning_at Point.clear_count = true
owning_at Point.clear_interrupt = true
owning_at Point.clear_flag = true

abbrev pub owns : Cpu → Bool
owns k = ltb 0 k.depth || owning_at k.at

-- A CPU with locks finds its ID and their number in the lock.
abbrev pub Settled : ℕ → SpinLock → Cpu → Type 0
Settled c l k = ltb 0 k.depth ≡ true → (l.lock_count ≡ k.depth) × (l.apic_id ≡ c)

-- What holds at each point of CPU `c`.
unfoldable pub Local : Point → ℕ → SpinLock → Cpu → Type 0
Local Point.outside c l k = Settled c l k
Local Point.lock_test c l k = Settled c l k
Local Point.lock_compare c l k = Settled c l k
Local Point.increase c l k = (0 < k.depth) × (l.lock_count ≡ k.depth) × (l.apic_id ≡ c)
Local Point.lock_spin c l k = Settled c l k × (k.depth ≡ 0)
Local Point.store_count c l k = k.depth ≡ 0
Local Point.store_id c l k = (k.depth ≡ 0) × (l.lock_count ≡ 1)
Local Point.store_interrupt c l k = (k.depth ≡ 0) × (l.lock_count ≡ 1) × (l.apic_id ≡ c)
Local Point.unlock_test c l k = Settled c l k
Local Point.unlock_compare c l k = Settled c l k
Local Point.unlock_count c l k = (0 < k.depth) × (l.lock_count ≡ k.depth) × (l.apic_id ≡ c)
Local Point.decrease c l k = (1 < k.depth) × (l.lock_count ≡ k.depth) × (l.apic_id ≡ c)
Local Point.load_interrupt c l k = (k.depth ≡ 1) × (l.apic_id ≡ c)
Local Point.clear_id c l k = k.depth ≡ 0
Local Point.clear_count c l k = (k.depth ≡ 0) × (l.apic_id ≡ 0xff)
Local Point.clear_interrupt c l k = (k.depth ≡ 0) × (l.apic_id ≡ 0xff)
Local Point.clear_flag c l k = (k.depth ≡ 0) × (l.apic_id ≡ 0xff)

pub record IsExclusive (m : Machine) : Type 0 where
  pub free : (c : ℕ) → m.lock.lock_flag ≡ false → owns (m.cpu c) ≡ false
  pub one : (c d : ℕ) → owns (m.cpu c) ≡ true → owns (m.cpu d) ≡ true → c ≡ d
  pub strange : (c : ℕ) → c < 0xff → owns (m.cpu c) ≡ false → m.lock.apic_id ≢ c
  pub here : (c : ℕ) → Local (m.cpu c).at c m.lock (m.cpu c)

-- A CPU that owns nothing does not care about the lock.
Local-other :
    (p : Point) (c : ℕ) (l l' : SpinLock) (k : Cpu)
    → ltb 0 k.depth ≡ false
    → owning_at p ≡ false
    → Local p c l k
    → Local p c l' k
unfolding owning_at Local
Local-other Point.outside c l l' k d o h = λ e. absurd (ground arith)
Local-other Point.lock_test c l l' k d o h = λ e. absurd (ground arith)
Local-other Point.lock_compare c l l' k d o h = λ e. absurd (ground arith)
Local-other Point.increase c l l' k d o h = absurd (ground (arith, o))
Local-other Point.lock_spin c l l' k d o h = ((λ e. absurd (ground arith)), h.1)
Local-other Point.store_count c l l' k d o h = absurd (ground (arith, o))
Local-other Point.store_id c l l' k d o h = absurd (ground (arith, o))
Local-other Point.store_interrupt c l l' k d o h = absurd (ground (arith, o))
Local-other Point.unlock_test c l l' k d o h = λ e. absurd (ground arith)
Local-other Point.unlock_compare c l l' k d o h = λ e. absurd (ground arith)
Local-other Point.unlock_count c l l' k d o h = absurd (ground (arith, o))
Local-other Point.decrease c l l' k d o h = absurd (ground (arith, o))
Local-other Point.load_interrupt c l l' k d o h = absurd (ground (arith, o))
Local-other Point.clear_id c l l' k d o h = absurd (ground (arith, o))
Local-other Point.clear_count c l l' k d o h = absurd (ground (arith, o))
Local-other Point.clear_interrupt c l l' k d o h = absurd (ground (arith, o))
Local-other Point.clear_flag c l l' k d o h = absurd (ground (arith, o))

abbrev pub after : Machine → (c : ℕ) → SpinLock × Cpu → Machine
after m c r = record { lock = r.0; cpu = update m.cpu c r.1 }

at_update :
    (f : ℕ → Cpu) (c d : ℕ) (k : Cpu)
    → ((c ≡ d) × (update f c k d ≡ k)) ⊎ ((c ≢ d) × (update f c k d ≡ f d))
at_update f c d k = elim (ℕ_discrete c d) [
  | yes e ↦ inl (e, rw (eq→== c d e))
  | no ne ↦ inr (ne, rw (ne→== c d ne))
]

module _ (m : Machine) (inv : IsExclusive m) (c : ℕ) (l' : SpinLock) (k' : Cpu) where
  abbrev m' : Machine
  m' = after m c (l', k')

  -- Who owns the lock afterwards.
  only_c : ((d : ℕ) → c ≢ d → owns (m.cpu d) ≡ false) → (d : ℕ) → owns (m'.cpu d) ≡ true → c ≡ d
  only_c alone d x = elim (at_update m.cpu c d k') [
    | inl p ↦ p.0
    | inr q ↦ absurd (ground (arith, alone d q.0, sym (ap owns q.1) ∙ x))
  ]

  -- A step of CPU `c` while no other CPU owns the lock.
  pub alone_step :
      ((d : ℕ) → c ≢ d → owns (m.cpu d) ≡ false)
      → (l'.lock_flag ≡ false → owns k' ≡ false)
      → (owns k' ≡ false → l'.apic_id ≢ c)
      → ((l'.apic_id ≡ m.lock.apic_id) ⊎ (l'.apic_id ≡ c) ⊎ (l'.apic_id ≡ 0xff))
      → Local k'.at c l' k'
      → IsExclusive m'
  alone_step alone kept mine theirs local = record {
    free = λ d z. elim (at_update m.cpu c d k') [
      | inl p ↦ ap owns p.1 ∙ kept z
      | inr q ↦ ap owns q.1 ∙ alone d q.0
    ];
    one = λ d e x y. sym (only_c alone d x) ∙ only_c alone e y;
    strange = λ d lt z f. elim (at_update m.cpu c d k') [
      | inl p ↦ mine (sym (ap owns p.1) ∙ z) (f ∙ sym p.0)
      | inr q ↦ elim theirs [
        | inl e ↦ inv.strange d lt (alone d q.0) (sym e ∙ f)
        | inr others ↦ elim others [
          | inl e ↦ q.0 (sym e ∙ f)
          | inr e ↦ absurd (omega (arith, e, f, lt))
        ]
      ]
    ];
    here = λ d. elim (at_update m.cpu c d k') [
      | inl p ↦
          subst (λ k. Local k.at d l' k) (sym p.1) (subst (λ x. Local k'.at x l' k') p.0 local)
      | inr q ↦
          let o = alone d q.0 in
          subst (λ k. Local k.at d l' k) (sym q.1)
            (Local-other (m.cpu d).at d m.lock l' (m.cpu d) (ground (arith, o)) (ground (arith, o))
              (inv.here d))
    ];
  }

  owned_before : owns k' ≡ owns (m.cpu c) → (d : ℕ) → owns (m'.cpu d) ≡ owns (m.cpu d)
  owned_before same d = elim (at_update m.cpu c d k') [
    | inl p ↦ ap owns p.1 ∙ same ∙ ap (λ x. owns (m.cpu x)) p.0
    | inr q ↦ ap owns q.1
  ]

  -- A step that leaves the lock alone.
  pub quiet_step : l' ≡ m.lock → owns k' ≡ owns (m.cpu c) → Local k'.at c m.lock k' → IsExclusive m'
  quiet_step e same local = record {
    free = λ d z. owned_before same d ∙ inv.free d (sym (ap (λ (l : SpinLock). l.lock_flag) e) ∙ z);
    one = λ d f x y. inv.one d f (sym (owned_before same d) ∙ x) (sym (owned_before same f) ∙ y);
    strange = λ d lt z f.
        inv.strange d lt (sym (owned_before same d) ∙ z)
          (sym (ap (λ (l : SpinLock). l.apic_id) e) ∙ f);
    here = λ d.
        subst (λ l. Local (m'.cpu d).at d l (m'.cpu d)) (sym e)
          (elim (at_update m.cpu c d k') [
            | inl p ↦
                subst (λ k. Local k.at d m.lock k) (sym p.1)
                  (subst (λ x. Local k'.at x m.lock k') p.0 local)
            | inr q ↦ subst (λ k. Local k.at d m.lock k) (sym q.1) (inv.here d)
          ]);
  }
