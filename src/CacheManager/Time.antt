-- ===== src/CacheManager/Time.antt =====
-- The access times in kAllocateCacheBuffer and kFindCacheBuffer.
use mathlib.Core.List.{Permᴰ}
use deodeok_os.Base.{
  ℕ, suc, ◌+◌, ◌-◌, ◌^◌, ◌%◌, ◌<◌, ◌≡◌, ◌⊎◌, Bool, false, ◌==◌, List, [], ◌∷◌, ◌++◌, Option, none,
  some, length, refl, ap, inl, inr, arith, ◌∙◌, sym, subst, length-append,
}
use deodeok_os.CacheManager.{
  CacheBuffer, CacheTable, renumber, cut_down_access_time, stamped, allocate_in_table,
  find_in_table, invalid_tag,
}
use deodeok_os.CacheManager.First.{
  All, All-map, All-append, All-left, All-right, Changed, IsChanged, change_first-IsChanged,
}
use deodeok_os.CacheManager.Sort.{IsCut, cut_down_access_time-IsCut}

-- A buffer in use was used before the time.
abbrev pub Earlier : ℕ → CacheBuffer → Type 0
Earlier time b = (b.tag ≡ invalid_tag) ⊎ (b.access_time < time)

-- The counter is ahead of the buffers in use, and a table is far smaller than the counter's range.
pub record IsTimed (t : CacheTable) : Type 0 where
  pub earlier : All (Earlier t.access_time) t.buffers
  pub small : length t.buffers < 0xffff_fffe

-- The first buffer with the property is changed and becomes the newest one.
pub record Served (c : CacheTable) (test : CacheBuffer → Bool) (change : CacheBuffer → CacheBuffer)
    (i : ℕ) (t : CacheTable) : Type 0 where
  pub changed : Changed test change c.buffers i t.buffers
  pub stamp : (change changed.hit).access_time ≡ c.access_time
  pub older : All (Earlier c.access_time) (changed.before ++ changed.behind)
  pub counter : t.access_time ≡ c.access_time + 1
  pub timed : IsTimed t

-- Without such a buffer NULL is returned.
unfoldable pub IsServed :
    CacheTable → (CacheBuffer → Bool) → (CacheBuffer → CacheBuffer) → Option ℕ × CacheTable → Type 0
IsServed c test change (none, t) = All (λ b. test b ≡ false) c.buffers × (t ≡ c)
IsServed c test change (some i, t) = Served c test change i t

length-change :
    {test : CacheBuffer → Bool} {change : CacheBuffer → CacheBuffer} {bs cs : List CacheBuffer}
    {i : ℕ}
    → Changed test change bs i cs
    → length cs ≡ length bs
length-change {bs} {cs} h = omega (
  arith,
  ap length h.split,
  ap length h.result,
  length-append h.before (h.hit ∷ h.behind),
  length-append h.before (_ ∷ h.behind),
)

Earlier-suc : (time : ℕ) (b : CacheBuffer) → Earlier time b → Earlier (time + 1) b
Earlier-suc time b (inl e) = inl e
Earlier-suc time b (inr lt) = inr (omega arith)

module _ (c : CacheTable) (timed : IsTimed c) (low : c.access_time < 0xffff_fffe)
    (test : CacheBuffer → Bool) (change : CacheBuffer → CacheBuffer)
    (stamps : (b : CacheBuffer) → (change b).access_time ≡ c.access_time) where
  stamped-IsServed :
      (r : Option (ℕ × List CacheBuffer))
      → IsChanged test change c.buffers r
      → IsServed c test change (stamped c r)
  unfolding stamped IsChanged IsServed
  stamped-IsServed none all = (all, refl)
  stamped-IsServed (some (i, bs)) h =
      let all = subst (All (Earlier c.access_time)) h.split timed.earlier in
      let before = All-left _ h.before (h.hit ∷ h.behind) all in
      let behind = All-right _ h.before (h.hit ∷ h.behind) all in
      record {
        changed = h;
        stamp = stamps h.hit;
        older = All-append _ h.before h.behind before behind.1;
        counter = omega arith;
        timed = record {
          earlier = subst (All (Earlier ((c.access_time + 1) % 2 ^ 32))) (sym h.result) (
              subst (λ n. All (Earlier n) (h.before ++ (change h.hit ∷ h.behind))) (omega arith)
                (All-append _ h.before (change h.hit ∷ h.behind)
                  (All-map h.before (Earlier-suc c.access_time) before)
                  (
                    inr (omega (arith, stamps h.hit)),
                    All-map h.behind (Earlier-suc c.access_time) behind.1,
                  )));
          small = omega (arith, length-change h, timed.small);
        };
      }

-- The times after a cut.
renumber-Earlier : (i : ℕ) (bs : List CacheBuffer) → All (Earlier (i + length bs)) (renumber i bs)
unfolding renumber
renumber-Earlier i [] = tt
renumber-Earlier i (b ∷ bs) = (
  inr (omega arith),
  subst (λ n. All (Earlier n) (renumber (i + 1) bs)) (omega arith) (renumber-Earlier (i + 1) bs),
)

length-renumber : (i : ℕ) (bs : List CacheBuffer) → length (renumber i bs) ≡ length bs
unfolding renumber
length-renumber i [] = refl
length-renumber i (b ∷ bs) = ap suc (length-renumber (i + 1) bs)

length-Permᴰ : {xs ys : List CacheBuffer} → Permᴰ xs ys → length xs ≡ length ys
length-Permᴰ Permᴰ.nil = refl
length-Permᴰ (Permᴰ.cons e d) = ap suc (length-Permᴰ d)
length-Permᴰ (Permᴰ.swap e f) = refl
length-Permᴰ (Permᴰ.trans d e) = length-Permᴰ d ∙ length-Permᴰ e

cut-IsTimed : {t c : CacheTable} → IsTimed t → IsCut t c → IsTimed c × (c.access_time < 0xffff_fffe)
cut-IsTimed timed (IsCut.kept low) = (timed, low)
cut-IsTimed {t} timed (IsCut.cut ordered full perm sorted) = (
  record {
    earlier =
        subst (λ n. All (Earlier n) (renumber 0 ordered)) (omega (arith, length-Permᴰ perm))
          (renumber-Earlier 0 ordered);
    small = omega (arith, length-renumber 0 ordered, length-Permᴰ perm, timed.small);
  },
  timed.small,
)

-- kAllocateCacheBuffer, after the times were cut down, takes the first unused buffer, or NULL if
-- there is none. The buffer becomes the newest one and the counter stays ahead.
pub allocate_in_table-IsServed :
    (t : CacheTable)
    → IsTimed t
    → let c = cut_down_access_time t in
      IsServed c
        (λ b. b.tag == invalid_tag)
        (λ b. record b { tag = invalid_tag - 1; access_time = c.access_time })
        (allocate_in_table t)
unfolding allocate_in_table
allocate_in_table-IsServed t timed =
    let c = cut-IsTimed timed (cut_down_access_time-IsCut t) in
    stamped-IsServed (cut_down_access_time t) c.0 c.1 _ _ (λ b. refl) _
      (change_first-IsChanged _ _ _)

-- kFindCacheBuffer, after the times were cut down, finds the first buffer with the tag, or NULL if
-- there is none. The buffer becomes the newest one and the counter stays ahead.
pub find_in_table-IsServed :
    (t : CacheTable) (tag : ℕ)
    → IsTimed t
    → let c = cut_down_access_time t in
      IsServed c
        (λ b. b.tag == tag)
        (λ b. record b { access_time = c.access_time })
        (find_in_table t tag)
unfolding find_in_table
find_in_table-IsServed t tag timed =
    let c = cut-IsTimed timed (cut_down_access_time-IsCut t) in
    stamped-IsServed (cut_down_access_time t) c.0 c.1 _ _ (λ b. refl) _
      (change_first-IsChanged _ _ _)
