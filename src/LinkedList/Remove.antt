-- ===== src/LinkedList/Remove.antt =====
-- kRemoveList and kFindList.
use deodeok_os.Base.{
  ℕ, zero, suc, ◌<◌, ◌≡◌, ◌≢◌, ◌⊎◌, inl, inr, List, [], ◌∷◌, length, arith, refl, sym, ◌∙◌, ◌==◌,
  if◌then◌else◌, ne→==, eq→==, true, false, Bool-cases, Option, some,
}
use deodeok_os.LinkedList.{Links, LinkList, remove_loop, unlink, find_loop, set_next, dec32}
use deodeok_os.LinkedList.Chain.{
  head_or, last_or, Fresh, Distinct, Chain, Chain-update, last_or-mem, find_id, erase_id,
}

-- The search ends: the ID is there, or NULL stands behind the last item.
abbrev pub Ends : Links → ℕ → ℕ → List ℕ → Type 0
Ends h stop wanted xs = (find_id h.id wanted xs ≢ 0) ⊎ (stop ≡ 0)

-- Past an item without the ID the search still ends.
pub Ends-miss :
    (h : Links) (stop wanted x : ℕ) (xs : List ℕ)
    → (h.id x == wanted) ≡ false
    → Ends h stop wanted (x ∷ xs)
    → Ends h stop wanted xs
unfolding find_id
Ends-miss h stop wanted x xs miss (inl n) = inl (rw miss at n)
Ends-miss h stop wanted x xs miss (inr z) = inr z

-- kFindList returns the first item with the ID, NULL if there is none.
pub find_loop-find_id :
    (k : ℕ) (h : Links) (stop wanted : ℕ) (xs : List ℕ)
    → Chain h.next stop xs
    → Ends h stop wanted xs
    → length xs < k
    → find_loop k h wanted (head_or stop xs) ≡ some (find_id h.id wanted xs)
unfolding find_loop find_id
find_loop-find_id zero h stop wanted xs c e fuel = absurd (omega arith)
find_loop-find_id (suc k) h stop wanted [] c (inl n) fuel = absurd (n refl)
find_loop-find_id (suc k) h stop wanted [] c (inr z) fuel = rw z
find_loop-find_id (suc k) h stop wanted (x ∷ xs) c e fuel =
    rw (ne→== x 0 c.0) (elim (Bool-cases (h.id x == wanted)) [
      | inl hit ↦ rw hit
      | inr miss ↦
          let e' = Ends-miss h stop wanted x xs miss e in
          rw (miss, c.1) (find_loop-find_id k h stop wanted xs c.2 e' (omega arith))
    ])

-- What the loop of kRemoveList leaves, for the items `xs` behind `prev`.
pub record Unlinked (h : Links) (l : LinkList) (stop wanted prev : ℕ) (xs : List ℕ)
    (r : Option (ℕ × Links × LinkList)) : Type 0 where
  pub h' : Links
  pub l' : LinkList
  pub stop' : ℕ
  pub returned : r ≡ some (find_id h.id wanted xs, h', l')
  pub header : l'.header ≡ l.header
  pub tail : l'.tail ≡ last_or prev (erase_id h.id wanted xs)
  pub count :
      l'.item_count ≡ (if find_id h.id wanted xs == 0 then l.item_count else dec32 l.item_count)
  pub chain : Chain h'.next stop' (prev ∷ erase_id h.id wanted xs)
  pub kept : find_id h.id wanted xs ≢ l.tail → stop' ≡ stop
  pub last : find_id h.id wanted xs ≡ l.tail → (h' ≡ h) × (stop' ≡ l.tail)
  pub same : (a : ℕ) → Fresh a (prev ∷ xs) → h'.next a ≡ h.next a
  pub ids : h'.id ≡ h.id

-- The loop's body at an item that is not the first one.
unlink_last :
    (h : Links) (l : LinkList) (prev x : ℕ)
    → l.header ≢ x
    → l.tail ≡ x
    → unlink h l prev x ≡ (h, record l { item_count = dec32 l.item_count; tail = prev })
unfolding unlink
unlink_last h l prev x nh t = rw (ne→== x l.header (λ e. nh (sym e)), eq→== x l.tail (sym t))

unlink_inner :
    (h : Links) (l : LinkList) (prev x : ℕ)
    → l.header ≢ x
    → l.tail ≢ x
    → unlink h l prev x ≡ (set_next h prev (h.next x), record l { item_count = dec32 l.item_count })
unfolding unlink
unlink_inner h l prev x nh nt =
    rw (ne→== x l.header (λ e. nh (sym e)), ne→== x l.tail (λ e. nt (sym e)))

module _ (h : Links) (l : LinkList) (stop wanted prev : ℕ) where
  -- The result of the loop's first round, at the wanted item.
  abbrev round : ℕ → Option (ℕ × Links × LinkList)
  round x = let (h', l') = unlink h l prev x in some (x, h', l')

  hit_last-Unlinked :
      (x : ℕ)
      → Chain h.next stop (prev ∷ x ∷ [])
      → l.header ≢ x
      → l.tail ≡ x
      → (h.id x == wanted) ≡ true
      → Unlinked h l stop wanted prev (x ∷ []) (round x)
  unfolding find_id erase_id
  hit_last-Unlinked x c nh t hit = record {
    h' = h;
    l' = record l { item_count = dec32 l.item_count; tail = prev };
    stop' = x;
    returned = rw (hit, unlink_last h l prev x nh t);
    header = refl;
    tail = rw hit;
    count = rw (hit, ne→== x 0 c.2.0);
    chain = rw hit (c.0, c.1, tt);
    kept = rw hit (λ n. absurd (n (sym t)));
    last = λ _. (refl, sym t);
    same = λ a _. refl;
    ids = refl;
  }

  hit_inner-Unlinked :
      (x y : ℕ) (ys : List ℕ)
      → Chain h.next stop (prev ∷ x ∷ y ∷ ys)
      → Distinct (prev ∷ x ∷ y ∷ ys)
      → l.header ≢ x
      → l.tail ≡ last_or y ys
      → (h.id x == wanted) ≡ true
      → Unlinked h l stop wanted prev (x ∷ y ∷ ys) (round x)
  unfolding find_id erase_id
  hit_inner-Unlinked x y ys c d nh t hit = record {
    h' = set_next h prev (h.next x);
    l' = record l { item_count = dec32 l.item_count };
    stop' = stop;
    returned = rw (hit, unlink_inner h l prev x nh (λ e. last_or-mem x y ys d.1.0 (sym e ∙ t)));
    header = refl;
    tail = rw hit t;
    count = rw (hit, ne→== x 0 c.2.0);
    chain =
        rw hit (
          c.0,
          ground (arith, c.2.1),
          Chain-update h.next prev (h.next x) stop (y ∷ ys) d.0.1 c.2.2,
        );
    kept = λ _. refl;
    last = rw hit (λ m. absurd (last_or-mem x y ys d.1.0 (m ∙ t)));
    same = λ a fr. ground (arith, fr.0);
    ids = refl;
  }

module _ (h : Links) (l : LinkList) (stop wanted : ℕ) where
  -- A round that moves on.
  miss-Unlinked :
      (prev x : ℕ) (xs : List ℕ) {r : Option (ℕ × Links × LinkList)}
      → Chain h.next stop (prev ∷ x ∷ xs)
      → Distinct (prev ∷ x ∷ xs)
      → (h.id x == wanted) ≡ false
      → Unlinked h l stop wanted x xs r
      → Unlinked h l stop wanted prev (x ∷ xs) r
  unfolding find_id erase_id
  miss-Unlinked prev x xs c d miss u = record {
    h' = u.h';
    l' = u.l';
    stop' = u.stop';
    returned = rw miss u.returned;
    header = u.header;
    tail = rw miss u.tail;
    count = rw miss u.count;
    chain = rw miss (c.0, u.same prev d.0 ∙ c.1, u.chain);
    kept = rw miss u.kept;
    last = rw miss u.last;
    same = λ a fr. u.same a fr.1;
    ids = u.ids;
  }

  hit-Unlinked :
      (prev x : ℕ) (xs : List ℕ)
      → Chain h.next stop (prev ∷ x ∷ xs)
      → Distinct (prev ∷ x ∷ xs)
      → l.header ≢ x
      → l.tail ≡ last_or x xs
      → (h.id x == wanted) ≡ true
      → Unlinked h l stop wanted prev
          (x ∷ xs)
          (let (h', l') = unlink h l prev x in some (x, h', l'))
  hit-Unlinked prev x [] c d nh t hit = hit_last-Unlinked h l stop wanted prev x c nh t hit
  hit-Unlinked prev x (y ∷ ys) c d nh t hit =
      hit_inner-Unlinked h l stop wanted prev x y ys c d nh t hit

  pub remove_loop-Unlinked :
      (k prev : ℕ) (xs : List ℕ)
      → Chain h.next stop (prev ∷ xs)
      → Distinct (prev ∷ xs)
      → Fresh l.header xs
      → l.tail ≡ last_or prev xs
      → Ends h stop wanted xs
      → length xs < k
      → Unlinked h l stop wanted prev xs (remove_loop k h l wanted prev (head_or stop xs))
  unfolding remove_loop find_id erase_id
  remove_loop-Unlinked zero prev xs c d f t e fuel = absurd (omega arith)
  remove_loop-Unlinked (suc k) prev [] c d f t (inl n) fuel = absurd (n refl)
  remove_loop-Unlinked (suc k) prev [] c d f t (inr z) fuel = record {
    h' = h;
    l' = l;
    stop' = stop;
    returned = rw z;
    header = refl;
    tail = t;
    count = refl;
    chain = c;
    kept = λ _. refl;
    last = λ m. (refl, z ∙ m);
    same = λ a _. refl;
    ids = refl;
  }
  remove_loop-Unlinked (suc k) prev (x ∷ xs) c d f t e fuel =
      rw (ne→== x 0 c.2.0) (elim (Bool-cases (h.id x == wanted)) [
        | inl hit ↦ rw hit (hit-Unlinked prev x xs c d f.0 t hit)
        | inr miss ↦
            let e' = Ends-miss h stop wanted x xs miss e in
            rw (miss, c.2.1)
              (miss-Unlinked prev x xs c d miss
                (remove_loop-Unlinked k x xs c.2 d.1 f.1 t e' (omega arith)))
      ])
