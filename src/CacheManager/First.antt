-- ===== src/CacheManager/First.antt =====
-- The first buffer with a property: the loops of kAllocateCacheBuffer and kFindCacheBuffer.
use deodeok_os.Base.{
  ℕ, ◌+◌, ◌≡◌, Bool, true, false, List, [], ◌∷◌, ◌++◌, Option, none, some, length, refl, ap, inl,
  inr, Bool-cases, arith,
}
use deodeok_os.CacheManager.{CacheBuffer, change_first}

-- Every buffer has the property.
abbrev pub All : (CacheBuffer → Type 0) → List CacheBuffer → Type 0
All p [] = Unit
All p (b ∷ bs) = p b × All p bs

pub All-append :
    (p : CacheBuffer → Type 0) (xs ys : List CacheBuffer) → All p xs → All p ys → All p (xs ++ ys)
All-append p [] ys l r = r
All-append p (x ∷ xs) ys l r = (l.0, All-append p xs ys l.1 r)

pub All-left : (p : CacheBuffer → Type 0) (xs ys : List CacheBuffer) → All p (xs ++ ys) → All p xs
All-left p [] ys a = tt
All-left p (x ∷ xs) ys a = (a.0, All-left p xs ys a.1)

pub All-right : (p : CacheBuffer → Type 0) (xs ys : List CacheBuffer) → All p (xs ++ ys) → All p ys
All-right p [] ys a = a
All-right p (x ∷ xs) ys a = All-right p xs ys a.1

pub All-map :
    {p q : CacheBuffer → Type 0} (xs : List CacheBuffer)
    → ((b : CacheBuffer) → p b → q b)
    → All p xs
    → All q xs
All-map [] f a = tt
All-map (x ∷ xs) f a = (f x a.0, All-map xs f a.1)

pub All-both :
    (p q : CacheBuffer → Type 0) (xs : List CacheBuffer)
    → All p xs
    → All q xs
    → All (λ b. p b × q b) xs
All-both p q [] l r = tt
All-both p q (x ∷ xs) l r = ((l.0, r.0), All-both p q xs l.1 r.1)

-- The first buffer with the property, and the list with it changed.
pub record Changed (test : CacheBuffer → Bool) (change : CacheBuffer → CacheBuffer)
    (bs : List CacheBuffer) (i : ℕ) (cs : List CacheBuffer) : Type 0 where
  pub before : List CacheBuffer
  pub hit : CacheBuffer
  pub behind : List CacheBuffer
  pub split : bs ≡ before ++ (hit ∷ behind)
  pub misses : All (λ b. test b ≡ false) before
  pub hits : test hit ≡ true
  pub index : i ≡ length before
  pub result : cs ≡ before ++ (change hit ∷ behind)

unfoldable pub IsChanged :
    (CacheBuffer → Bool)
    → (CacheBuffer → CacheBuffer)
    → List CacheBuffer
    → Option (ℕ × List CacheBuffer)
    → Type 0
IsChanged test change bs none = All (λ b. test b ≡ false) bs
IsChanged test change bs (some (i, cs)) = Changed test change bs i cs

IsChanged-cons :
    (test : CacheBuffer → Bool) (change : CacheBuffer → CacheBuffer) (b : CacheBuffer)
    (bs : List CacheBuffer) (r : Option (ℕ × List CacheBuffer))
    → test b ≡ false
    → IsChanged test change bs r
    → IsChanged test change (b ∷ bs) (elim r [ none ↦ none | some (i, cs) ↦ some (i + 1, b ∷ cs) ])
unfolding IsChanged
IsChanged-cons test change b bs none miss all = (miss, all)
IsChanged-cons test change b bs (some (i, cs)) miss c = record {
  before = b ∷ c.before;
  hit = c.hit;
  behind = c.behind;
  split = ap (λ l. b ∷ l) c.split;
  misses = (miss, c.misses);
  hits = c.hits;
  index = omega (arith, c.index);
  result = ap (λ l. b ∷ l) c.result;
}

pub change_first-IsChanged :
    (test : CacheBuffer → Bool) (change : CacheBuffer → CacheBuffer) (bs : List CacheBuffer)
    → IsChanged test change bs (change_first test change bs)
unfolding change_first IsChanged
change_first-IsChanged test change [] = tt
change_first-IsChanged test change (b ∷ bs) = elim (Bool-cases (test b)) [
  | inl yes_it_is ↦ rw yes_it_is (record {
    before = [];
    hit = b;
    behind = bs;
    split = refl;
    misses = tt;
    hits = yes_it_is;
    index = refl;
    result = refl;
  })
  | inr miss ↦ rw miss (
      IsChanged-cons test change b bs (change_first test change bs) miss
        (change_first-IsChanged test change bs))
]
