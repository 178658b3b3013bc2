-- ===== src/LinkedList/Chain.antt =====
-- What a LIST stands for: the addresses of its items in order.
use deodeok_os.Base.{
  ℕ, ◌<◌, ◌^◌, ◌≡◌, ◌≢◌, List, [], ◌∷◌, ◌++◌, length, ◌==◌, if◌then◌else◌, arith, ◌+◌, Bool-cases,
  inl, inr, refl, ne→==,
}
use deodeok_os.Base.Cells.{update}
use deodeok_os.LinkedList.{Links, LinkList}

abbrev pub head_or : ℕ → List ℕ → ℕ
head_or d [] = d
head_or d (x ∷ xs) = x

abbrev pub last_or : ℕ → List ℕ → ℕ
last_or d [] = d
last_or d (x ∷ xs) = last_or x xs

abbrev pub Fresh : ℕ → List ℕ → Type 0
Fresh a [] = Unit
Fresh a (x ∷ xs) = (a ≢ x) × Fresh a xs

abbrev pub Distinct : List ℕ → Type 0
Distinct [] = Unit
Distinct (x ∷ xs) = Fresh x xs × Distinct xs

-- Each item's `pvNext` leads to the one behind it, and the last one's to `stop`.
abbrev pub Chain : (ℕ → ℕ) → ℕ → List ℕ → Type 0
Chain next stop [] = Unit
Chain next stop (x ∷ xs) = (x ≢ 0) × (next x ≡ head_or stop xs) × Chain next stop xs

-- `stop` is NULL in a list as kInitializeList and the two kAddListTo functions leave it.
pub record IsList (h : Links) (l : LinkList) (stop : ℕ) (xs : List ℕ) : Type 0 where
  pub header : l.header ≡ head_or 0 xs
  pub tail : l.tail ≡ last_or 0 xs
  pub count : l.item_count ≡ length xs
  pub small : length xs < 2 ^ 31
  pub distinct : Distinct xs
  pub chain : Chain h.next stop xs

-- The first item with an ID, or NULL; and the items without it.
unfoldable pub find_id : (ℕ → ℕ) → ℕ → List ℕ → ℕ
find_id ids wanted [] = 0
find_id ids wanted (x ∷ xs) = if ids x == wanted then x else find_id ids wanted xs

unfoldable pub erase_id : (ℕ → ℕ) → ℕ → List ℕ → List ℕ
erase_id ids wanted [] = []
erase_id ids wanted (x ∷ xs) = if ids x == wanted then xs else x ∷ erase_id ids wanted xs

-- A write outside the items leaves the chain.
pub Chain-update :
    (next : ℕ → ℕ) (a v stop : ℕ) (xs : List ℕ)
    → Fresh a xs
    → Chain next stop xs
    → Chain (update next a v) stop xs
Chain-update next a v stop [] f c = tt
Chain-update next a v stop (x ∷ xs) f c = (c.0, ground arith, Chain-update next a v stop xs f.1 c.2)

pub last_or-mem : (d x : ℕ) (xs : List ℕ) → Fresh d (x ∷ xs) → d ≢ last_or x xs
last_or-mem d x [] f = f.0
last_or-mem d x (y ∷ ys) f = last_or-mem d y ys f.1

pub last_or-append : (d x : ℕ) (xs : List ℕ) → last_or d (xs ++ (x ∷ [])) ≡ x
last_or-append d x [] = omega arith
last_or-append d x (y ∷ ys) = last_or-append y x ys

pub Fresh-append : (a x : ℕ) (xs : List ℕ) → a ≢ x → Fresh a xs → Fresh a (xs ++ (x ∷ []))
Fresh-append a x [] ne f = (ne, tt)
Fresh-append a x (y ∷ ys) ne f = (f.0, Fresh-append a x ys ne f.1)

pub Distinct-append : (x : ℕ) (xs : List ℕ) → Fresh x xs → Distinct xs → Distinct (xs ++ (x ∷ []))
Distinct-append x [] f d = (tt, tt)
Distinct-append x (y ∷ ys) f d =
    (Fresh-append y x ys (λ e. f.0 (omega arith)) d.0, Distinct-append x ys f.1 d.1)

pub Fresh-erase :
    (ids : ℕ → ℕ) (a wanted : ℕ) (xs : List ℕ) → Fresh a xs → Fresh a (erase_id ids wanted xs)
unfolding erase_id
Fresh-erase ids a wanted [] f = tt
Fresh-erase ids a wanted (x ∷ xs) f = elim (Bool-cases (ids x == wanted)) [
  | inl hit ↦ rw hit f.1
  | inr miss ↦ rw miss (f.0, Fresh-erase ids a wanted xs f.1)
]

pub Distinct-erase :
    (ids : ℕ → ℕ) (wanted : ℕ) (xs : List ℕ) → Distinct xs → Distinct (erase_id ids wanted xs)
unfolding erase_id
Distinct-erase ids wanted [] d = tt
Distinct-erase ids wanted (x ∷ xs) d = elim (Bool-cases (ids x == wanted)) [
  | inl hit ↦ rw hit d.1
  | inr miss ↦ rw miss (Fresh-erase ids x wanted xs d.0, Distinct-erase ids wanted xs d.1)
]

pub length-erase :
    (ids : ℕ → ℕ) (wanted stop : ℕ) (next : ℕ → ℕ) (xs : List ℕ)
    → Chain next stop xs
    → length xs ≡ length (erase_id ids wanted xs) + (if find_id ids wanted xs == 0 then 0 else 1)
unfolding erase_id find_id
length-erase ids wanted stop next [] c = refl
length-erase ids wanted stop next (x ∷ xs) c = elim (Bool-cases (ids x == wanted)) [
  | inl hit ↦ rw (hit, ne→== x 0 c.0) (omega arith)
  | inr miss ↦ rw miss (omega (arith, length-erase ids wanted stop next xs c.2))
]
