-- ===== src/LinkedList/Search.antt =====
-- kFindList, kRemoveList and kRemoveListFromHeader on a whole list.
use deodeok_os.Base.{
  ℕ, zero, suc, ◌<◌, ◌≡◌, ◌≢◌, inl, inr, List, [], ◌∷◌, length, arith, refl, sym, ap, ◌∙◌, ◌==◌,
  if◌then◌else◌, ne→==, eq→==, true, false, Bool-cases, Option, some,
}
use deodeok_os.LinkedList.{Links, LinkList, remove_loop, remove_list, find_list, dec32}
use deodeok_os.LinkedList.Chain.{
  head_or, last_or, Fresh, IsList, last_or-mem, find_id, erase_id, length-erase, Distinct-erase,
  Fresh-erase,
}
use deodeok_os.LinkedList.Remove.{
  Ends, Ends-miss, find_loop-find_id, Unlinked, remove_loop-Unlinked,
}

-- What kRemoveList leaves of the items `xs`: the first one with the ID is returned and gone.
pub record Removed (h : Links) (l : LinkList) (stop wanted : ℕ) (xs : List ℕ)
    (r : Option (ℕ × Links × LinkList)) : Type 0 where
  pub h' : Links
  pub l' : LinkList
  pub stop' : ℕ
  pub returned : r ≡ some (find_id h.id wanted xs, h', l')
  pub list : IsList h' l' stop' (erase_id h.id wanted xs)
  pub kept : find_id h.id wanted xs ≢ l.tail → stop' ≡ stop
  pub last : find_id h.id wanted xs ≡ l.tail → (h' ≡ h) × (stop' ≡ l.tail)
  pub same : (a : ℕ) → Fresh a xs → h'.next a ≡ h.next a
  pub ids : h'.id ≡ h.id

-- kFindList returns the first item with the ID, and NULL if there is none.
pub find_list-find_id :
    {h : Links} {l : LinkList} {stop : ℕ} {xs : List ℕ} (fuel wanted : ℕ)
    → IsList h l stop xs
    → Ends h stop wanted xs
    → length xs < fuel
    → find_list fuel h l wanted ≡ some (find_id h.id wanted xs)
unfolding find_list find_id
find_list-find_id {h} {l} {xs = []} (suc k) wanted is e fuel = rw is.header
find_list-find_id {h} {stop} {xs = x ∷ xs} (suc k) wanted is e fuel =
    rw is.header (find_loop-find_id (suc k) h stop wanted (x ∷ xs) is.chain e fuel)
find_list-find_id {xs = xs} zero wanted is e fuel = absurd (omega arith)

-- Past the first item the loop goes on behind it.
remove_list-miss :
    (k : ℕ) (h : Links) (l : LinkList) (wanted x : ℕ)
    → l.header ≡ x
    → x ≢ 0
    → (h.id x == wanted) ≡ false
    → remove_list (suc k) h l wanted ≡ remove_loop k h l wanted x (h.next x)
unfolding remove_list
remove_list-miss k h l wanted x e ne miss =
    ap (λ p. remove_loop (suc k) h l wanted p p) e ∙ rw (ne→== x 0 ne, miss)

module _ {h : Links} {l : LinkList} {stop : ℕ} (wanted : ℕ) where
  Removed-nil :
      (k : ℕ) → IsList h l stop [] → Removed h l stop wanted [] (remove_list (suc k) h l wanted)
  unfolding remove_list find_id erase_id
  Removed-nil k is = record {
    h' = h;
    l' = l;
    stop' = 0;
    returned = rw is.header;
    list = record {
      header = is.header;
      tail = is.tail;
      count = is.count;
      small = omega arith;
      distinct = tt;
      chain = tt;
    };
    kept = λ n. absurd (n (sym is.tail));
    last = λ m. (refl, m);
    same = λ a _. refl;
    ids = refl;
  }

  -- The only item: the list is initialised.
  Removed-single :
      (k x : ℕ)
      → IsList h l stop (x ∷ [])
      → (h.id x == wanted) ≡ true
      → Removed h l stop wanted (x ∷ []) (remove_list (suc k) h l wanted)
  unfolding remove_list find_id erase_id
  Removed-single k x is hit = record {
    h' = h;
    l' = record { item_count = dec32 l.item_count; header = 0; tail = 0 };
    stop' = x;
    returned = rw (is.header, ne→== x 0 is.chain.0, hit, is.tail, eq→== x x refl);
    list = rw hit (record {
      header = refl;
      tail = refl;
      count = omega (arith, is.count);
      small = omega arith;
      distinct = tt;
      chain = tt;
    });
    kept = rw hit (λ n. absurd (n (sym is.tail)));
    last = λ _. (refl, sym is.tail);
    same = λ a _. refl;
    ids = refl;
  }

  -- The first of several: the header moves on.
  Removed-first :
      (k x y : ℕ) (ys : List ℕ)
      → IsList h l stop (x ∷ y ∷ ys)
      → (h.id x == wanted) ≡ true
      → Removed h l stop wanted (x ∷ y ∷ ys) (remove_list (suc k) h l wanted)
  unfolding remove_list find_id erase_id
  Removed-first k x y ys is hit = record {
    h' = h;
    l' = record l { item_count = dec32 l.item_count; header = y };
    stop' = stop;
    returned = rw (
      is.header,
      ne→== x 0 is.chain.0,
      hit,
      is.tail,
      eq→== x x refl,
      ne→== x (last_or y ys) (last_or-mem x y ys is.distinct.0),
      is.chain.1,
    );
    list = rw hit (record {
      header = refl;
      tail = is.tail;
      count = omega (arith, is.count, is.small);
      small = omega (arith, is.small);
      distinct = is.distinct.1;
      chain = is.chain.2;
    });
    kept = λ _. refl;
    last = rw hit (λ m. absurd (last_or-mem x y ys is.distinct.0 (m ∙ is.tail)));
    same = λ a _. refl;
    ids = refl;
  }

  count_later :
      (x n : ℕ) (xs : List ℕ)
      → IsList h l stop (x ∷ xs)
      → n ≡ (if find_id h.id wanted xs == 0 then l.item_count else dec32 l.item_count)
      → n ≡ suc (length (erase_id h.id wanted xs))
  count_later x n xs is e =
      let split = length-erase h.id wanted stop h.next xs is.chain.2 in
      elim (Bool-cases (find_id h.id wanted xs == 0)) [
        | inl z ↦ omega (arith, rw z at e, rw z at split, is.count)
        | inr nz ↦ omega (arith, rw nz at e, rw nz at split, is.count, is.small)
      ]

  Removed-later :
      (k x : ℕ) (xs : List ℕ)
      → IsList h l stop (x ∷ xs)
      → (h.id x == wanted) ≡ false
      → Unlinked h l stop wanted x xs (remove_loop k h l wanted x (head_or stop xs))
      → Removed h l stop wanted (x ∷ xs) (remove_list (suc k) h l wanted)
  unfolding find_id erase_id
  Removed-later k x xs is miss u = record {
    h' = u.h';
    l' = u.l';
    stop' = u.stop';
    returned =
        remove_list-miss k h l wanted x is.header is.chain.0 miss
        ∙ ap (remove_loop k h l wanted x) is.chain.1
        ∙ u.returned
        ∙ rw miss;
    list = rw miss (record {
      header = u.header ∙ is.header;
      tail = u.tail;
      count = count_later x u.l'.item_count xs is u.count;
      small = omega (arith, is.small, length-erase h.id wanted stop h.next xs is.chain.2);
      distinct =
          (Fresh-erase h.id x wanted xs is.distinct.0, Distinct-erase h.id wanted xs is.distinct.1);
      chain = u.chain;
    });
    kept = rw miss u.kept;
    last = rw miss u.last;
    same = u.same;
    ids = u.ids;
  }

  later :
      (k x : ℕ) (xs : List ℕ)
      → IsList h l stop (x ∷ xs)
      → (h.id x == wanted) ≡ false
      → Ends h stop wanted (x ∷ xs)
      → length xs < k
      → Removed h l stop wanted (x ∷ xs) (remove_list (suc k) h l wanted)
  later k x xs is miss e fuel = Removed-later k x xs is miss (
      remove_loop-Unlinked h l stop wanted k x xs is.chain is.distinct (rw is.header is.distinct.0)
        is.tail (Ends-miss h stop wanted x xs miss e) fuel)

  -- kRemoveList returns the first item with the ID and takes it out; the order of the others stays,
  -- and no link outside the list is written. Only when the last of several items goes does the
  -- list no longer end as it did.
  pub remove_list-Removed :
      (fuel : ℕ) (xs : List ℕ)
      → IsList h l stop xs
      → Ends h stop wanted xs
      → length xs < fuel
      → Removed h l stop wanted xs (remove_list fuel h l wanted)
  remove_list-Removed zero xs is e fuel = absurd (omega arith)
  remove_list-Removed (suc k) [] is e fuel = Removed-nil k is
  remove_list-Removed (suc k) (x ∷ []) is e fuel = elim (Bool-cases (h.id x == wanted)) [
    | inl hit ↦ Removed-single k x is hit
    | inr miss ↦ later k x [] is miss e (omega arith)
  ]
  remove_list-Removed (suc k) (x ∷ y ∷ ys) is e fuel = elim (Bool-cases (h.id x == wanted)) [
    | inl hit ↦ Removed-first k x y ys is hit
    | inr miss ↦ later k x (y ∷ ys) is miss e (omega arith)
  ]
