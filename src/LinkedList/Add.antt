-- ===== src/LinkedList/Add.antt =====
-- kAddListToTail and kAddListToHeader.
use deodeok_os.Base.{
  ℕ, suc, ◌+◌, ◌<◌, ◌^◌, ◌≡◌, ◌≢◌, List, [], ◌∷◌, ◌++◌, length, length-append, arith, refl, ◌==◌,
  ne→==, false, eq→==, sym, subst,
}
use deodeok_os.Base.Cells.{update}
use deodeok_os.LinkedList.{Links, LinkList, initialize_list, add_list_to_tail, add_list_to_header}
use deodeok_os.LinkedList.Chain.{
  last_or, Fresh, Distinct, Chain, IsList, Chain-update, Distinct-append, last_or-append,
  last_or-mem,
}

-- kInitializeList leaves an empty list.
pub initialize-IsList : (h : Links) → IsList h initialize_list 0 []
unfolding initialize_list
initialize-IsList h = record {
  header = refl;
  tail = refl;
  count = refl;
  small = omega arith;
  distinct = tt;
  chain = tt;
}

-- Linking the last item to a new one that ends the chain.
Chain-snoc :
    (next : ℕ → ℕ) (stop item x : ℕ) (xs : List ℕ)
    → Chain next stop (x ∷ xs)
    → Distinct (x ∷ xs)
    → Fresh item (x ∷ xs)
    → item ≢ 0
    → next item ≡ 0
    → Chain (update next (last_or x xs) item) 0 ((x ∷ xs) ++ (item ∷ []))
Chain-snoc next stop item x [] c d f ne e = (c.0, ground arith, (ne, ground arith, tt))
Chain-snoc next stop item x (y ∷ ys) c d f ne e =
    (c.0, ground (arith, last_or-mem x y ys d.0), Chain-snoc next stop item y ys c.2 d.1 f.1 ne e)

module _ {h : Links} {l : LinkList} (item : ℕ) (ne : item ≢ 0) where
  add_tail-cons :
      (stop x : ℕ) (xs : List ℕ)
      → IsList h l stop (x ∷ xs)
      → Fresh item (x ∷ xs)
      → suc (suc (length xs)) < 2 ^ 31
      → let (h', l') = add_list_to_tail h l item in IsList h' l' 0 ((x ∷ xs) ++ (item ∷ []))
  unfolding add_list_to_tail
  add_tail-cons stop x xs is f room =
      let e : (l.header == 0) ≡ false = ne→== l.header 0 (ground (arith, is.chain.0)) in
      rw e (record {
        header = is.header;
        tail = omega (arith, last_or-append x item xs);
        count = omega (arith, is.count, length-append xs (item ∷ []));
        small = omega (arith, length-append xs (item ∷ []));
        distinct = Distinct-append item (x ∷ xs) f is.distinct;
        chain =
            subst (λ t. Chain (update (update h.next item 0) t item) 0 ((x ∷ xs) ++ (item ∷ [])))
              (sym is.tail)
              (Chain-snoc (update h.next item 0) stop item x xs
                (Chain-update h.next item 0 stop (x ∷ xs) f is.chain) is.distinct f ne
                (ground arith));
      })

  add_tail-nil :
      (stop : ℕ)
      → IsList h l stop []
      → let (h', l') = add_list_to_tail h l item in IsList h' l' 0 (item ∷ [])
  unfolding add_list_to_tail
  add_tail-nil stop is = rw (eq→== l.header 0 is.header) (record {
    header = refl;
    tail = refl;
    count = refl;
    small = omega arith;
    distinct = (tt, tt);
    chain = (ne, ground arith, tt);
  })

  -- kAddListToTail puts the item behind all others and leaves NULL behind it, whatever the last
  -- link was before.
  pub add_tail-append :
      {stop : ℕ} (xs : List ℕ)
      → IsList h l stop xs
      → Fresh item xs
      → length xs + 1 < 2 ^ 31
      → let (h', l') = add_list_to_tail h l item in IsList h' l' 0 (xs ++ (item ∷ []))
  add_tail-append {stop} [] is f room = add_tail-nil stop is
  add_tail-append {stop} (x ∷ xs) is f room = add_tail-cons stop x xs is f (omega arith)

  -- kAddListToHeader puts the item before all others.
  pub add_header-cons :
      {stop : ℕ} (xs : List ℕ)
      → IsList h l stop xs
      → Fresh item xs
      → length xs + 1 < 2 ^ 31
      → let (h', l') = add_list_to_header h l item in
        (st : ℕ) × IsList h' l' st (item ∷ xs) × (xs ≢ [] → st ≡ stop)
  unfolding add_list_to_header
  add_header-cons {stop} [] is f room = rw (eq→== l.header 0 is.header) (
    0,
    record {
      header = refl;
      tail = refl;
      count = refl;
      small = omega arith;
      distinct = (tt, tt);
      chain = (ne, ground (arith, is.header), tt);
    },
    λ n. absurd (n refl),
  )
  add_header-cons {stop} (x ∷ xs) is f room = rw (ne→== l.header 0 (ground (arith, is.chain.0))) (
    stop,
    record {
      header = refl;
      tail = is.tail;
      count = omega (arith, is.count);
      small = omega arith;
      distinct = (f, is.distinct);
      chain = (
        ne,
        ground (arith, is.header),
        Chain-update h.next item l.header stop (x ∷ xs) f is.chain,
      );
    },
    λ n. refl,
  )
