-- ===== src/Task/Next.antt =====
-- kGetNextTaskToRun: which task runs next.
use deodeok_os.Base.{
  ℕ, zero, suc, ◌+◌, ◌^◌, ◌%◌, ◌<◌, ◌≤◌, ◌≡◌, ◌≢◌, ltb, List, [], ◌∷◌, Option, some, length, refl,
  ap, inl, inr, Bool-cases, arith, ◌∙◌, sym, subst, ne→==,
}
use native.Mathlib.Decide.{ℕ_discrete}
use deodeok_os.Base.Cells.{update, update_self}
use deodeok_os.LinkedList.{LinkList, remove_list_from_header, get_list_count}
use deodeok_os.LinkedList.Chain.{IsList}
use deodeok_os.LinkedList.Stale.{Taken, remove_header-Taken}
use deodeok_os.Task.{Tasks, list_fuel}
use deodeok_os.Task.Schedule
use deodeok_os.Task.Schedule.{next_in_pass, pick_from, get_next_task_to_run}

-- What the ready lists hold.
pub record IsReadyList (s : Tasks) (i : ℕ) (xs : List ℕ) : Type 0 where
  pub stop : ℕ
  pub list : IsList s.links (s.ready_list i) stop xs
  pub short : length xs < 1025

abbrev pub AreReadyLists : Tasks → (ℕ → List ℕ) → Type 0
AreReadyLists s lists = (i : ℕ) → i < 5 → IsReadyList s i (lists i)

-- Task `x` was taken from the head of ready list `j`, which has run `runs` times before.
pub record Picked (s : Tasks) (j x : ℕ) (xs : List ℕ) (runs : ℕ) (s' : Tasks) : Type 0 where
  pub stop : ℕ
  pub taken : Taken s.links stop x xs (some (x, s'.links, s'.ready_list j))
  pub counted : s'.execute_count j ≡ runs + 1
  pub others : (m : ℕ) → j ≢ m → s'.ready_list m ≡ s.ready_list m
  pub not_null : x ≢ 0

-- No list from `i` on had a task left to run: their counts are cleared.
pub record Cleared (s : Tasks) (i k : ℕ) (s' : Tasks) : Type 0 where
  pub links : s'.links ≡ s.links
  pub lists : s'.ready_list ≡ s.ready_list
  pub zeros : (m : ℕ) → i ≤ m → m < i + k → s'.execute_count m ≡ 0
  pub below : (m : ℕ) → m < i → s'.execute_count m ≡ s.execute_count m

-- Lists `i` to `j` have run each of their tasks since their counts were cleared.
abbrev pub AllRun : Tasks → (ℕ → List ℕ) → (i j : ℕ) → Type 0
AllRun s lists i j = (m : ℕ) → i ≤ m → m < j → length (lists m) ≤ s.execute_count m

data Pass (s : Tasks) (lists : ℕ → List ℕ) (k i : ℕ) : Option (ℕ × Tasks) → Type 0 where
  picked :
      (j x : ℕ) (xs : List ℕ) (s' : Tasks)
      → i ≤ j
      → j < i + k
      → lists j ≡ x ∷ xs
      → AllRun s lists i j
      → Picked s j x xs (s.execute_count j) s'
      → Pass s lists k i (some (x, s'))
  passed :
      (s' : Tasks) → AllRun s lists i (i + k) → Cleared s i k s' → Pass s lists k i (some (0, s'))

module _ (s : Tasks) (lists : ℕ → List ℕ) (i : ℕ) where
  abbrev cleared : Tasks
  cleared = record s { execute_count = update s.execute_count i 0 }

  AllRun-later :
      (j : ℕ)
      → length (lists i) ≤ s.execute_count i
      → AllRun cleared lists (i + 1) j
      → AllRun s lists i j
  AllRun-later j run all m lo hi = elim (ℕ_discrete i m) [
    | yes e ↦ subst (λ n. length (lists n) ≤ s.execute_count n) e run
    | no ne ↦ ground (arith, all m (omega arith) hi, ne)
  ]

  Pass-later :
      (k : ℕ) (r : Option (ℕ × Tasks))
      → length (lists i) ≤ s.execute_count i
      → Pass cleared lists k (i + 1) r
      → Pass s lists (suc k) i r
  Pass-later k r run (picked j x xs s' lo hi e all p) =
      picked j x xs s' (omega arith) (omega arith) e (AllRun-later j run all) (record {
        stop = p.stop;
        taken = p.taken;
        counted = ground (arith, p.counted);
        others = p.others;
        not_null = p.not_null;
      })
  Pass-later k r run (passed s' all c) =
      passed s' (subst (AllRun s lists i) (omega arith) (AllRun-later (i + 1 + k) run all))
        (record {
          links = c.links;
          lists = c.lists;
          zeros = λ m lo hi. elim (ℕ_discrete i m) [
            | yes e ↦ ground (arith, c.below i (omega arith), e)
            | no ne ↦ c.zeros m (omega arith) (omega arith)
          ];
          below = λ m lt. ground (arith, c.below m (omega arith));
        })

  -- The list has tasks left to run, and its first one is picked.
  Pass-here :
      (k : ℕ) (xs : List ℕ)
      → lists i ≡ xs
      → IsReadyList s i xs
      → s.execute_count i < length xs
      → Pass s lists
          (suc k)
          i
          (pick_from s i (remove_list_from_header list_fuel s.links (s.ready_list i)))
  unfolding pick_from
  Pass-here k [] e ready lt = absurd (omega arith)
  Pass-here k (x ∷ xs) e ready lt =
      let t = remove_header-Taken list_fuel x xs ready.list (omega (arith, ready.short)) in
      rw t.returned (
        picked i x xs _ (omega arith) (omega arith) e (λ m lo hi. absurd (omega arith))
          (record {
            stop = ready.stop;
            taken = record {
              h' = t.h';
              l' = t.l';
              stop' = t.stop';
              returned = ap (λ (l : LinkList). some (x, t.h', l)) (update_self s.ready_list i t.l');
              list = t.list;
              kept = t.kept;
              same = t.same;
              ids = t.ids;
            };
            counted =
                update_self s.execute_count i ((s.execute_count i + 1) % 2 ^ 32)
                ∙ omega (arith, lt, ready.list.small);
            others = λ m ne. rw (ne→== i m ne);
            not_null = ready.list.chain.0;
          }))

next_in_pass-Pass :
    (s : Tasks) (lists : ℕ → List ℕ) (k i : ℕ)
    → AreReadyLists s lists
    → i + k ≤ 5
    → Pass s lists k i (next_in_pass k s i)
unfolding next_in_pass get_list_count
next_in_pass-Pass s lists zero i ready le =
    passed s (λ m lo hi. absurd (omega arith))
      (record {
        links = refl;
        lists = refl;
        zeros = λ m lo hi. absurd (omega arith);
        below = λ m lt. refl;
      })
next_in_pass-Pass s lists (suc k) i ready le =
    let here = ready i (omega arith) in
    elim (Bool-cases (ltb (s.execute_count i) (s.ready_list i).item_count)) [
      | inl more ↦
          rw more (Pass-here s lists i k (lists i) refl here (ground (arith, here.list.count)))
      | inr run ↦ rw run (
          Pass-later s lists i k _ (ground (arith, here.list.count)) (
            next_in_pass-Pass (cleared s lists i) lists k (i + 1)
              (λ j lt. record {
                stop = (ready j lt).stop;
                list = (ready j lt).list;
                short = (ready j lt).short;
              })
              (omega arith)))
    ]

-- The task that kGetNextTaskToRun chooses.
pub data NextTask (s : Tasks) (lists : ℕ → List ℕ) : Option (ℕ × Tasks) → Type 0 where
  first_pass :
      (j x : ℕ) (xs : List ℕ) (s' : Tasks)
      → j < 5
      → lists j ≡ x ∷ xs
      → AllRun s lists 0 j
      → Picked s j x xs (s.execute_count j) s'
      → NextTask s lists (some (x, s'))
  second_pass :
      (j x : ℕ) (xs : List ℕ) (s1 s' : Tasks)
      → j < 5
      → lists j ≡ x ∷ xs
      → AllRun s lists 0 5
      → ((m : ℕ) → m < j → lists m ≡ [])
      → Cleared s 0 5 s1
      → Picked s1 j x xs 0 s'
      → NextTask s lists (some (x, s'))
  idle :
      (s' : Tasks)
      → ((m : ℕ) → m < 5 → lists m ≡ [])
      → Cleared s 0 5 s'
      → NextTask s lists (some (0, s'))

empty_of_length : (xs : List ℕ) → length xs ≤ 0 → xs ≡ []
empty_of_length [] h = refl
empty_of_length (x ∷ xs) h = absurd (omega arith)

module _ (s : Tasks) (lists : ℕ → List ℕ) (ready : AreReadyLists s lists) where
  -- Clearing counts leaves the lists.
  Cleared-ready : (s1 : Tasks) → Cleared s 0 5 s1 → AreReadyLists s1 lists
  Cleared-ready s1 c j lt = record {
    stop = (ready j lt).stop;
    list =
        subst (λ h. IsList h (s1.ready_list j) (ready j lt).stop (lists j)) (sym c.links)
          (subst (λ f. IsList s.links (f j) (ready j lt).stop (lists j)) (sym c.lists)
            (ready j lt).list);
    short = (ready j lt).short;
  }

  after_clear :
      (s1 : Tasks) (r : Option (ℕ × Tasks))
      → AllRun s lists 0 5
      → Cleared s 0 5 s1
      → Pass s1 lists 5 0 r
      → NextTask s lists r
  after_clear s1 r run c (picked j x xs s' lo hi e all p) =
      second_pass j x xs s1 s' hi e run
        (λ m lt.
          empty_of_length (lists m)
            (omega (arith, all m (omega arith) lt, c.zeros m (omega arith) (omega arith))))
        c (subst (λ n. Picked s1 j x xs n s') (c.zeros j (omega arith) hi) p)
  after_clear s1 r run c (passed s' all d) =
      idle s'
        (λ m lt.
          empty_of_length (lists m)
            (omega (arith, all m (omega arith) lt, c.zeros m (omega arith) (omega arith))))
        (record {
          links = d.links ∙ c.links;
          lists = d.lists ∙ c.lists;
          zeros = d.zeros;
          below = λ m lt. absurd (omega arith);
        })

  passes-NextTask :
      (r : Option (ℕ × Tasks)) → Pass s lists 5 0 r → NextTask s lists (Schedule.second_pass r)
  unfolding Schedule.second_pass
  passes-NextTask r (picked j x xs s' lo hi e all p) =
      rw (ne→== x 0 p.not_null) (first_pass j x xs s' hi e all p)
  passes-NextTask r (passed s' all c) =
      after_clear s' _ all c (next_in_pass-Pass s' lists 5 0 (Cleared-ready s' c) (omega arith))

  -- kGetNextTaskToRun takes the first task of the highest ready list that has not run all of its
  -- tasks since it was cleared; if each list has, all are cleared and the first task of the highest
  -- list that has one is taken. It returns NULL only if all ready lists are empty.
  pub get_next_task_to_run-NextTask : NextTask s lists (get_next_task_to_run s)
  unfolding get_next_task_to_run
  get_next_task_to_run-NextTask =
      passes-NextTask (next_in_pass 5 s 0) (next_in_pass-Pass s lists 5 0 ready (omega arith))
