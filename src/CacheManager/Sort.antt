-- ===== src/CacheManager/Sort.antt =====
-- kCutDownAccessTime: the bubble sort by access time.
use mathlib.Core.List.{Permᴰ}
use mathlib.Core.List.Permᴰ
use deodeok_os.Base.{
  ℕ, zero, suc, ◌-◌, ◌<◌, ◌≤◌, ◌≡◌, Bool, true, ltb, List, [], ◌∷◌, ◌++◌, length, refl, ap, inl,
  inr, Bool-cases, arith, subst, append_assoc, append-nil,
}
use deodeok_os.CacheManager.{
  CacheBuffer, CacheTable, sort_pass, sort_rounds, renumber, cut_down_access_time,
}
use deodeok_os.CacheManager.First.{All, All-map, All-append, All-left, All-right, All-both}

abbrev pub IsSorted : List CacheBuffer → Type 0
IsSorted [] = Unit
IsSorted (b ∷ bs) = All (λ c. b.access_time ≤ c.access_time) bs × IsSorted bs

-- Each of the first list comes before each of the second one.
abbrev pub Before : List CacheBuffer → List CacheBuffer → Type 0
Before xs ys = All (λ b. All (λ c. b.access_time ≤ c.access_time) ys) xs

-- A property of all buffers does not depend on their order.
pub All-Permᴰ :
    (p : CacheBuffer → Type 0) {xs ys : List CacheBuffer} → Permᴰ xs ys → All p xs → All p ys
All-Permᴰ p Permᴰ.nil a = a
All-Permᴰ p (Permᴰ.cons e d) a = (subst p e a.0, All-Permᴰ p d a.1)
All-Permᴰ p (Permᴰ.swap e f) a = (subst p f a.1.0, (subst p e a.0, a.1.1))
All-Permᴰ p (Permᴰ.trans d e) a = All-Permᴰ p e (All-Permᴰ p d a)

IsSorted-append :
    (xs ys : List CacheBuffer) → IsSorted xs → IsSorted ys → Before xs ys → IsSorted (xs ++ ys)
IsSorted-append [] ys l r b = r
IsSorted-append (x ∷ xs) ys l r b = (All-append _ xs ys l.0 b.0, IsSorted-append xs ys l.1 r b.1)

-- After a round over `a ∷ xs` its last place holds the greatest time.
record Passed (a : CacheBuffer) (xs ys : List CacheBuffer) (r : Bool × List CacheBuffer)
    : Type 0 where
  front : List CacheBuffer
  last : CacheBuffer
  out : r.1 ≡ front ++ (last ∷ ys)
  size : length front ≡ length xs
  perm : Permᴰ (a ∷ xs) (front ++ (last ∷ []))
  greater : a.access_time ≤ last.access_time
  greatest : All (λ c. c.access_time ≤ last.access_time) front
  done : r.0 ≡ true → IsSorted (a ∷ xs) × (r.1 ≡ a ∷ xs ++ ys)

sort_pass-Passed :
    (a : CacheBuffer) (xs ys : List CacheBuffer)
    → Passed a xs ys (sort_pass (length xs) (a ∷ (xs ++ ys)))
unfolding sort_pass
sort_pass-Passed a [] ys = record {
  front = [];
  last = a;
  out = refl;
  size = refl;
  perm = Permᴰ.refl _;
  greater = omega arith;
  greatest = tt;
  done = λ e. ((tt, tt), refl);
}
sort_pass-Passed a (b ∷ xs) ys = elim (Bool-cases (ltb b.access_time a.access_time)) [
  | inl swapped ↦
      let p = sort_pass-Passed a xs ys in
      rw swapped (record {
        front = b ∷ p.front;
        last = p.last;
        out = ap (λ l. b ∷ l) p.out;
        size = ap suc p.size;
        perm = Permᴰ.trans (Permᴰ.swap refl refl) (Permᴰ.cons refl p.perm);
        greater = p.greater;
        greatest = (ground (arith, p.greater), p.greatest);
        done = λ e. absurd (ground (arith, e));
      })
  | inr kept ↦
      let p = sort_pass-Passed b xs ys in
      rw kept (record {
        front = a ∷ p.front;
        last = p.last;
        out = ap (λ l. a ∷ l) p.out;
        size = ap suc p.size;
        perm = Permᴰ.cons refl p.perm;
        greater = ground (arith, p.greater);
        greatest = (ground (arith, p.greater), p.greatest);
        done = λ e.
            let d = p.done e in
            (
              ((ground arith, All-map xs (λ c le. ground (arith, le)) d.0.0), d.0),
              ap (λ l. a ∷ l) d.1,
            );
      })
]

All-true : (xs : List CacheBuffer) → All (λ b. Unit) xs
All-true [] = tt
All-true (x ∷ xs) = (tt, All-true xs)

sort_rounds-IsSorted :
    (k : ℕ) (xs ys : List CacheBuffer)
    → length xs ≡ suc k
    → IsSorted ys
    → Before xs ys
    → IsSorted (sort_rounds k (xs ++ ys)) × Permᴰ (xs ++ ys) (sort_rounds k (xs ++ ys))
unfolding sort_rounds
sort_rounds-IsSorted k [] ys size sorted before = absurd (omega (arith, size))
sort_rounds-IsSorted zero (a ∷ []) ys size sorted before = ((before.0, sorted), Permᴰ.refl _)
sort_rounds-IsSorted zero (a ∷ b ∷ xs) ys size sorted before = absurd (omega (arith, size))
sort_rounds-IsSorted (suc k) (a ∷ xs) ys size sorted before =
    let n : length xs ≡ suc k = omega (arith, size) in
    let p =
      subst (λ n. Passed a xs ys (sort_pass n (a ∷ (xs ++ ys)))) n (sort_pass-Passed a xs ys) in
    elim (Bool-cases (sort_pass (suc k) (a ∷ (xs ++ ys))).0) [
      | inl done ↦
          let d = p.done done in
          rw (done, d.1) (IsSorted-append (a ∷ xs) ys d.0 sorted before, Permᴰ.refl _)
      | inr more ↦
          let all = All-Permᴰ (λ b. All (λ c. b.access_time ≤ c.access_time) ys) p.perm before in
          let last = All-right _ p.front (p.last ∷ []) all in
          let rest =
            sort_rounds-IsSorted k p.front (p.last ∷ ys) (omega (arith, p.size, n)) (last.0, sorted)
              (All-both _ _ p.front p.greatest (All-left _ p.front (p.last ∷ []) all)) in
          rw (more, p.out)
            (
              rest.0,
              Permᴰ.trans
                  (subst (Permᴰ (a ∷ (xs ++ ys))) (append_assoc p.front (p.last ∷ []) ys)
                    (Permᴰ.append_right ys p.perm))
                  rest.1,
            )
    ]

-- Below the limit nothing changes. At the limit the buffers are put in the order of their access
-- times and numbered from 0, and the counter goes on behind them.
pub data IsCut (t : CacheTable) : CacheTable → Type 0 where
  kept : t.access_time < 0xffff_fffe → IsCut t t
  cut :
      (ordered : List CacheBuffer)
      → 0xffff_fffe ≤ t.access_time
      → Permᴰ t.buffers ordered
      → IsSorted ordered
      → IsCut t (record t { access_time = length t.buffers; buffers = renumber 0 ordered })

IsSorted-buffers :
    (bs : List CacheBuffer)
    → IsSorted (sort_rounds (length bs - 1) bs) × Permᴰ bs (sort_rounds (length bs - 1) bs)
unfolding sort_rounds
IsSorted-buffers [] = (tt, Permᴰ.refl _)
IsSorted-buffers (b ∷ bs) =
    subst
      (λ l.
        IsSorted (sort_rounds (length (b ∷ bs) - 1) l)
        × Permᴰ l (sort_rounds (length (b ∷ bs) - 1) l))
      (append-nil (b ∷ bs))
      (sort_rounds-IsSorted (length (b ∷ bs) - 1) (b ∷ bs) [] (omega arith) tt (All-true (b ∷ bs)))

pub cut_down_access_time-IsCut : (t : CacheTable) → IsCut t (cut_down_access_time t)
unfolding cut_down_access_time
cut_down_access_time-IsCut t = elim (Bool-cases (ltb t.access_time 0xffff_fffe)) [
  | inl below ↦ rw below (kept (ground arith))
  | inr full ↦ let s = IsSorted-buffers t.buffers in rw full (cut _ (ground arith) s.1 s.0)
]
