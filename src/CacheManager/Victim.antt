-- ===== src/CacheManager/Victim.antt =====
-- kGetVictimInCacheBuffer: which buffer is given up.
use deodeok_os.Base.{
  ℕ, ◌+◌, ◌^◌, ◌%◌, ◌<◌, ◌≤◌, ◌≡◌, ◌≢◌, ltb, ◌==◌, List, [], ◌∷◌, ◌++◌, Option, none, some, length,
  refl, ap, ◌∙◌, inl, inr, Bool-cases, arith, subst, ==→eq, ==→ne,
}
use deodeok_os.CacheManager.{
  CacheBuffer, CacheTable, invalid_tag, victim_loop, victim_in_table, stamped, set_time,
}
use deodeok_os.CacheManager.First.{All}

-- In the list from index `i` on: the first unused buffer; without one, the first of the buffers with
-- the least time; or no buffer at all that was used before `time`.
pub data Choice (bs : List CacheBuffer) (i time : ℕ) (otherwise : Option ℕ)
    : Option ℕ → Type 0 where
  unused :
      (before : List CacheBuffer) (b : CacheBuffer) (behind : List CacheBuffer)
      → bs ≡ before ++ (b ∷ behind)
      → b.tag ≡ invalid_tag
      → All (λ c. c.tag ≢ invalid_tag) before
      → Choice bs i time otherwise (some (i + length before))
  oldest :
      (before : List CacheBuffer) (b : CacheBuffer) (behind : List CacheBuffer)
      → bs ≡ before ++ (b ∷ behind)
      → b.access_time < time
      → All (λ c. (c.tag ≢ invalid_tag) × (b.access_time < c.access_time)) before
      → All (λ c. (c.tag ≢ invalid_tag) × (b.access_time ≤ c.access_time)) (b ∷ behind)
      → Choice bs i time otherwise (some (i + length before))
  nothing :
      All (λ c. (c.tag ≢ invalid_tag) × (time ≤ c.access_time)) bs
      → Choice bs i time otherwise otherwise

module _ (b : CacheBuffer) (bs : List CacheBuffer) (i time : ℕ) (otherwise : Option ℕ)
    (used : b.tag ≢ invalid_tag) where
  Choice-later :
      {r : Option ℕ}
      → time ≤ b.access_time
      → Choice bs (i + 1) time otherwise r
      → Choice (b ∷ bs) i time otherwise r
  Choice-later le (unused before c behind e t all) =
      subst (λ k. Choice (b ∷ bs) i time otherwise (some k)) (omega arith)
        (unused (b ∷ before) c behind (ap (λ l. b ∷ l) e) t (used, all))
  Choice-later le (oldest before c behind e lt all rest) =
      subst (λ k. Choice (b ∷ bs) i time otherwise (some k)) (omega arith)
        (oldest (b ∷ before) c behind (ap (λ l. b ∷ l) e) lt ((used, omega arith), all) rest)
  Choice-later le (nothing all) = nothing ((used, le), all)

  Choice-older :
      {r : Option ℕ}
      → b.access_time < time
      → Choice bs (i + 1) b.access_time (some i) r
      → Choice (b ∷ bs) i time otherwise r
  Choice-older lt (unused before c behind e t all) =
      subst (λ k. Choice (b ∷ bs) i time otherwise (some k)) (omega arith)
        (unused (b ∷ before) c behind (ap (λ l. b ∷ l) e) t (used, all))
  Choice-older lt (oldest before c behind e younger all rest) =
      subst (λ k. Choice (b ∷ bs) i time otherwise (some k)) (omega arith)
        (oldest (b ∷ before) c behind (ap (λ l. b ∷ l) e) (omega arith) ((used, younger), all) rest)
  Choice-older lt (nothing all) =
      subst (λ k. Choice (b ∷ bs) i time otherwise (some k)) (omega arith)
        (oldest [] b bs refl lt tt ((used, omega arith), all))

victim_loop-Choice :
    (bs : List CacheBuffer) (i time : ℕ) (otherwise : Option ℕ)
    → Choice bs i time otherwise (victim_loop bs i time otherwise)
unfolding victim_loop
victim_loop-Choice [] i time otherwise = nothing tt
victim_loop-Choice (b ∷ bs) i time otherwise = elim (Bool-cases (b.tag == invalid_tag)) [
  | inl free ↦ rw free (
      subst (λ k. Choice (b ∷ bs) i time otherwise (some k)) (omega arith)
        (unused [] b bs refl (==→eq _ _ free) tt))
  | inr used ↦ rw used (elim (Bool-cases (ltb b.access_time time)) [
    | inl older ↦ rw older (
        Choice-older b bs i time otherwise (==→ne _ _ used) (ground arith)
          (victim_loop-Choice bs (i + 1) b.access_time (some i)))
    | inr younger ↦ rw younger (
        Choice-later b bs i time otherwise (==→ne _ _ used) (ground arith)
          (victim_loop-Choice bs (i + 1) time otherwise))
  ])
]

-- The buffer `b` that is given up, and the table with its new time: nothing else of it and no other
-- buffer changes.
pub record GivenUp (t : CacheTable) (r : Option ℕ × CacheTable) : Type 0 where
  pub before : List CacheBuffer
  pub b : CacheBuffer
  pub behind : List CacheBuffer
  pub split : t.buffers ≡ before ++ (b ∷ behind)
  pub choice : Choice t.buffers 0 0xffff_ffff none (some (length before))
  pub result : r ≡ (
    some (length before),
    record t {
      access_time = (t.access_time + 1) % 2 ^ 32;
      buffers = before ++ (record b { access_time = t.access_time } ∷ behind);
    },
  )

-- A choice is one of the list's buffers.
record Chosen (bs : List CacheBuffer) (r : Option ℕ) : Type 0 where
  before : List CacheBuffer
  b : CacheBuffer
  behind : List CacheBuffer
  split : bs ≡ before ++ (b ∷ behind)
  found : r ≡ some (length before)
  choice : Choice bs 0 0xffff_ffff none (some (length before))

Choice-Chosen :
    (bs : List CacheBuffer) (before : List CacheBuffer) (b : CacheBuffer)
    (behind : List CacheBuffer)
    → bs ≡ before ++ (b ∷ behind)
    → Choice bs 0 0xffff_ffff none (some (0 + length before))
    → Chosen bs (some (0 + length before))
Choice-Chosen bs before b behind e c =
    let at : 0 + length before ≡ length before = omega arith in
    record {
      before = before;
      b = b;
      behind = behind;
      split = e;
      found = ap some at;
      choice = subst (λ k. Choice bs 0 0xffff_ffff none (some k)) at c;
    }

Choice-some :
    (bs : List CacheBuffer) (r : Option ℕ)
    → Choice bs 0 0xffff_ffff none r
    → bs ≢ []
    → All (λ b. b.access_time < 0xffff_ffff) bs
    → Chosen bs r
Choice-some bs r (unused before b behind e t all) filled small =
    Choice-Chosen bs before b behind e (unused before b behind e t all)
Choice-some bs r (oldest before b behind e lt all rest) filled small =
    Choice-Chosen bs before b behind e (oldest before b behind e lt all rest)
Choice-some [] r (nothing all) filled small = absurd (filled refl)
Choice-some (b ∷ bs) r (nothing all) filled small = absurd (omega (arith, all.0.1, small.0))

set_time-append :
    (before : List CacheBuffer) (b : CacheBuffer) (behind : List CacheBuffer) (time : ℕ)
    → set_time (before ++ (b ∷ behind)) (length before) time
      ≡ before ++ (record b { access_time = time } ∷ behind)
unfolding set_time
set_time-append [] b behind time = refl
set_time-append (a ∷ before) b behind time = ap (λ l. a ∷ l) (set_time-append before b behind time)

victim_in_table-some :
    (t : CacheTable) (i : ℕ)
    → victim_loop t.buffers 0 0xffff_ffff none ≡ some i
    → victim_in_table t ≡ (
      some i,
      record t {
        access_time = (t.access_time + 1) % 2 ^ 32;
        buffers = set_time t.buffers i t.access_time;
      },
    )
unfolding victim_in_table stamped
victim_in_table-some t i e = rw (e, victim_in_table) refl

-- Of a table with buffers whose times are below 2^32 - 1, kGetVictimInCacheBuffer gives up the first
-- unused buffer, or else the first of those with the least time: it finds one, gives it the counter as
-- its time, changes no other buffer, and counts on.
pub victim_in_table-GivenUp :
    (t : CacheTable)
    → t.buffers ≢ []
    → All (λ b. b.access_time < 0xffff_ffff) t.buffers
    → GivenUp t (victim_in_table t)
victim_in_table-GivenUp t filled small =
    let c =
      Choice-some t.buffers _ (victim_loop-Choice t.buffers 0 0xffff_ffff none) filled small in
    let stamp =
      ap (λ l. set_time l (length c.before) t.access_time) c.split
      ∙ set_time-append c.before c.b c.behind t.access_time in
    record {
      before = c.before;
      b = c.b;
      behind = c.behind;
      split = c.split;
      choice = c.choice;
      result =
          victim_in_table-some t (length c.before) c.found
          ∙ ap
              (λ (l : List CacheBuffer). (
                some (length c.before),
                record t { access_time = (t.access_time + 1) % 2 ^ 32; buffers = l },
              ))
              stamp;
    }
