-- ===== src/LinkedList/Stale.antt =====
-- The ends of a list: removal at the header, and what kRemoveList leaves behind the last item.
use deodeok_os.Base.{
  ℕ, suc, ◌<◌, ◌≡◌, ◌≢◌, inl, inr, List, [], ◌∷◌, length, arith, refl, sym, ap, ap₂, subst, ◌∙◌,
  ◌==◌, ne→==, eq→==, Bool-cases, Option, some,
}
use deodeok_os.LinkedList.{
  Links, LinkList, remove_list, remove_list_from_header, find_list, find_loop,
}
use deodeok_os.LinkedList.Chain.{
  head_or, last_or, Fresh, Chain, IsList, last_or-mem, find_id, erase_id,
}
use deodeok_os.LinkedList.Remove.{Ends}
use deodeok_os.LinkedList.Search.{remove_list-Removed, find_list-find_id}

-- What is left when the first item `x` of `x ∷ xs` has been taken.
pub record Taken (h : Links) (stop x : ℕ) (xs : List ℕ) (r : Option (ℕ × Links × LinkList))
    : Type 0 where
  pub h' : Links
  pub l' : LinkList
  pub stop' : ℕ
  pub returned : r ≡ some (x, h', l')
  pub list : IsList h' l' stop' xs
  pub kept : xs ≢ [] → stop' ≡ stop
  pub same : (a : ℕ) → Fresh a (x ∷ xs) → h'.next a ≡ h.next a
  pub ids : h'.id ≡ h.id

find_id-head : (ids : ℕ → ℕ) (x : ℕ) (xs : List ℕ) → find_id ids (ids x) (x ∷ xs) ≡ x
unfolding find_id
find_id-head ids x xs = rw (eq→== (ids x) (ids x) refl)

erase_id-head : (ids : ℕ → ℕ) (x : ℕ) (xs : List ℕ) → erase_id ids (ids x) (x ∷ xs) ≡ xs
unfolding erase_id
erase_id-head ids x xs = rw (eq→== (ids x) (ids x) refl)

Chain-last : (next : ℕ → ℕ) (stop x : ℕ) (xs : List ℕ) → Chain next stop (x ∷ xs) → last_or x xs ≢ 0
Chain-last next stop x [] c = c.0
Chain-last next stop x (y ∷ ys) c = Chain-last next stop y ys c.2

erase_id-keeps :
    (ids : ℕ → ℕ) (wanted x : ℕ) (xs : List ℕ)
    → find_id ids wanted (x ∷ xs) ≢ x
    → head_or 0 (erase_id ids wanted (x ∷ xs)) ≡ x
unfolding find_id erase_id
erase_id-keeps ids wanted x xs n = elim (Bool-cases (ids x == wanted)) [
  | inl hit ↦ absurd (n (rw hit))
  | inr miss ↦ rw miss
]

find_list-header :
    (fuel : ℕ) (h : Links) (l l' : LinkList) (wanted : ℕ)
    → l.header ≡ l'.header
    → find_list fuel h l wanted ≡ find_list fuel h l' wanted
unfolding find_list
find_list-header fuel h l l' wanted e = ap (find_loop fuel h wanted) e

first_ne_last : (x : ℕ) (xs : List ℕ) → Fresh x xs → xs ≢ [] → x ≢ last_or x xs
first_ne_last x [] f n = absurd (n refl)
first_ne_last x (y ∷ ys) f n = last_or-mem x y ys f

module _ {h : Links} {l : LinkList} {stop : ℕ} where
  from_header :
      (fuel x : ℕ) (xs : List ℕ)
      → IsList h l stop (x ∷ xs)
      → remove_list_from_header fuel h l ≡ remove_list fuel h l (h.id x)
  unfolding remove_list_from_header
  from_header fuel x xs is =
      rw (ne→== l.item_count 0 (omega (arith, is.count)))
        (ap (λ p. remove_list fuel h l (h.id p)) is.header)

  head-Ends : (x : ℕ) (xs : List ℕ) → IsList h l stop (x ∷ xs) → Ends h stop (h.id x) (x ∷ xs)
  head-Ends x xs is = inl (λ e. is.chain.0 (sym (find_id-head h.id x xs) ∙ e))

  -- kRemoveListFromHeader takes the first item, whatever the IDs are.
  pub remove_header-Taken :
      (fuel x : ℕ) (xs : List ℕ)
      → IsList h l stop (x ∷ xs)
      → suc (length xs) < fuel
      → Taken h stop x xs (remove_list_from_header fuel h l)
  remove_header-Taken fuel x xs is room =
      let r = remove_list-Removed (h.id x) fuel (x ∷ xs) is (head-Ends x xs is) room in
      record {
        h' = r.h';
        l' = r.l';
        stop' = r.stop';
        returned =
            from_header fuel x xs is
            ∙ r.returned
            ∙ ap (λ (p : ℕ). some (p, r.h', r.l')) (find_id-head h.id x xs);
        list = subst (IsList r.h' r.l' r.stop') (erase_id-head h.id x xs) r.list;
        kept = λ n.
            r.kept (λ e.
              first_ne_last x xs is.distinct.0 n (sym (find_id-head h.id x xs) ∙ e ∙ is.tail));
        same = r.same;
        ids = r.ids;
      }

  -- On an empty list it returns NULL and changes nothing.
  pub remove_header-nil :
      (fuel : ℕ) → IsList h l stop [] → remove_list_from_header fuel h l ≡ some (0, h, l)
  unfolding remove_list_from_header
  remove_header-nil fuel is = rw (eq→== l.item_count 0 is.count)

  tail_ne_first : (x y : ℕ) (ys : List ℕ) → IsList h l stop (x ∷ y ∷ ys) → x ≢ l.tail
  tail_ne_first x y ys is e = last_or-mem x y ys is.distinct.0 (e ∙ is.tail)

  -- After kRemoveList has removed the last of several items, the item before it still leads to it:
  -- kFindList goes on finding it.
  pub find-remove_last :
      (fuel wanted x y : ℕ) (ys : List ℕ)
      → IsList h l stop (x ∷ y ∷ ys)
      → find_id h.id wanted (x ∷ y ∷ ys) ≡ l.tail
      → suc (suc (length ys)) < fuel
      → (l' : LinkList) × (remove_list fuel h l wanted ≡ some (l.tail, h, l'))
        × IsList h l' l.tail (erase_id h.id wanted (x ∷ y ∷ ys))
        × (find_list fuel h l' wanted ≡ some l.tail)
  find-remove_last fuel wanted x y ys is e room =
      let xs = x ∷ y ∷ ys in
      let ends : Ends h stop wanted xs =
        inl (λ z. Chain-last h.next stop x (y ∷ ys) is.chain (sym is.tail ∙ sym e ∙ z)) in
      let r = remove_list-Removed wanted fuel xs is ends room in
      let first : find_id h.id wanted xs ≢ x = λ f. tail_ne_first x y ys is (sym f ∙ e) in
      let same_header : r.l'.header ≡ l.header =
        r.list.header ∙ erase_id-keeps h.id wanted x (y ∷ ys) first ∙ sym is.header in
      let unchanged = r.last e in
      (
        r.l',
        r.returned ∙ ap₂ (λ (p : ℕ) (m : Links). some (p, m, r.l')) e unchanged.0,
        subst (λ m. IsList m r.l' l.tail (erase_id h.id wanted xs)) unchanged.0
            (subst (λ p. IsList r.h' r.l' p (erase_id h.id wanted xs)) unchanged.1 r.list),
        find_list-header fuel h r.l' l wanted same_header
            ∙ find_list-find_id fuel wanted is ends room
            ∙ ap (λ (p : ℕ). some p) e,
      )
