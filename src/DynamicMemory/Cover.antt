-- ===== src/DynamicMemory/Cover.antt =====
-- The memory that is free: a unit is 1024 bytes, and `cover` counts the free blocks that hold it.
use deodeok_os.Base.{
  ℕ, zero, suc, ◌+◌, ◌*◌, ◌/◌, ◌^◌, ◌<◌, ◌≤◌, ◌≡◌, Bool, true, false, ◌==◌, ◌&&◌, if◌then◌else◌,
  arith, refl, Bool-cases, inl, inr, ==→eq, ap, ap₂, ◌∙◌, sym, subst,
}
use native.Mathlib.Nat.{div-div-eq-div-mul, div-le_self, pow-suc, mul-div_cancel, one-le-pow}
use deodeok_os.Memory.Words.{IsByteMemory}
use deodeok_os.DynamicMemory.{DynamicMemory, flag, set_flag, set_flag_in_bitmap}
use deodeok_os.DynamicMemory.Bitmap.{bit, flag-set, IsCounted, set_flag-IsCounted}

-- Unit `u` lies in block `o` of level `k`.
abbrev pub inside : (u k o : ℕ) → Bool
inside u k o = u / 2 ^ k == o

-- Over the `n` lowest levels.
unfoldable pub cover : ℕ → DynamicMemory → ℕ → ℕ
cover zero d u = 0
cover (suc n) d u = cover n d u + bit (flag (d.bitmap_of_level n).bitmap (u / 2 ^ n))

-- The bitmaps and counters agree, and free blocks lie in the pool.
pub record IsTidy (d : DynamicMemory) : Type 0 where
  pub counted : (k : ℕ) → IsCounted (d.block_count_of_smallest_block / 2 ^ k) (d.bitmap_of_level k)
  pub range :
      (k o : ℕ)
      → flag (d.bitmap_of_level k).bitmap o ≡ true
      → o < d.block_count_of_smallest_block / 2 ^ k
  pub small : d.block_count_of_smallest_block < 2 ^ 31

div-pow-suc : (u k : ℕ) → u / 2 ^ suc k ≡ u / 2 ^ k / 2
div-pow-suc u k = ap (λ n. u / n) (pow-suc 2 k) ∙ sym (div-div-eq-div-mul u (2 ^ k) 2)

-- A block is its two halves.
pub inside-halves :
    (u k o : ℕ) → bit (inside u (suc k) o) ≡ bit (inside u k (o * 2)) + bit (inside u k (o * 2 + 1))
inside-halves u k o = ground (arith, div-pow-suc u k)

-- Half of what is in range.
pub half_range : (c k : ℕ) → (c / 2 ^ suc k) ≡ c / 2 ^ k / 2
half_range c k = div-pow-suc c k

module _ (d : DynamicMemory) (k o : ℕ) (b : Bool) where
  -- Writing one flag changes the cover by that block.
  pub cover-set_above : (n u : ℕ) → n ≤ k → cover n (set_flag_in_bitmap d k o b) u ≡ cover n d u
  unfolding cover set_flag_in_bitmap
  cover-set_above zero u le = refl
  cover-set_above (suc n) u le = ground (arith, cover-set_above n u)

  pub cover-set :
      (n u : ℕ)
      → IsByteMemory (d.bitmap_of_level k).bitmap
      → k < n
      → cover n (set_flag_in_bitmap d k o b) u
          + bit (inside u k o && flag (d.bitmap_of_level k).bitmap o)
        ≡ cover n d u + bit (inside u k o && b)
  unfolding cover set_flag_in_bitmap
  cover-set zero u h lt = absurd (omega arith)
  cover-set (suc n) u h lt = elim (Bool-cases (k == n)) [
    | inl e ↦ ground (arith, cover-set_above n u, flag-set (d.bitmap_of_level k) o b (u / 2 ^ k) h)
    | inr ne ↦ ground (arith, cover-set n u h)
  ]

-- A written flag, and the others.
pub flag-set_in :
    (d : DynamicMemory) (k o : ℕ) (b : Bool) (j p : ℕ)
    → IsTidy d
    → flag ((set_flag_in_bitmap d k o b).bitmap_of_level j).bitmap p
      ≡ (if (k == j) && (o == p) then b else flag (d.bitmap_of_level j).bitmap p)
unfolding set_flag_in_bitmap
flag-set_in d k o b j p t = elim (Bool-cases (k == j)) [
  | inl e ↦ ground (arith, flag-set (d.bitmap_of_level k) o b p (t.counted k).bytes)
  | inr ne ↦ rw ne
]

-- Writing a flag of a block in the pool keeps the pool tidy.
pub set-IsTidy :
    {d : DynamicMemory} (k o : ℕ) (b : Bool)
    → IsTidy d
    → o < d.block_count_of_smallest_block / 2 ^ k
    → IsTidy (set_flag_in_bitmap d k o b)
unfolding set_flag_in_bitmap
set-IsTidy {d} k o b t lt = record {
  counted = λ j. elim (Bool-cases (k == j)) [
    | inl e ↦ rw e (
        subst
          (λ i.
            IsCounted (d.block_count_of_smallest_block / 2 ^ i)
              (set_flag (d.bitmap_of_level k) o b))
          (==→eq k j e)
          (set_flag-IsCounted o b (t.counted k) lt
            (omega (arith, t.small, div-le_self d.block_count_of_smallest_block (2 ^ k)))))
    | inr ne ↦ rw ne (t.counted j)
  ];
  range = λ j p f. elim (Bool-cases (k == j)) [
    | inl e ↦
        ground (arith, flag-set (d.bitmap_of_level k) o b p (t.counted k).bytes, t.range k p, lt)
    | inr ne ↦ t.range j p (rw ne at f)
  ];
  small = t.small;
}

-- A free block counts in each of its units.
cover-pos :
    (n : ℕ) (d : DynamicMemory) (k u : ℕ)
    → k < n
    → flag (d.bitmap_of_level k).bitmap (u / 2 ^ k) ≡ true
    → 1 ≤ cover n d u
unfolding cover
cover-pos zero d k u lt f = absurd (omega arith)
cover-pos (suc n) d k u lt f = elim (Bool-cases (k == n)) [
  | inl e ↦ ground arith
  | inr ne ↦ ground (arith, cover-pos n d k u)
]

-- The first unit of a block.
pub first_unit : (k o : ℕ) → o * 2 ^ k / 2 ^ k ≡ o
first_unit k o = mul-div_cancel o (one-le-pow k 2 (omega arith))

pub flag_of_cover :
    (n : ℕ) (d : DynamicMemory) (k o : ℕ)
    → k < n
    → cover n d (o * 2 ^ k) ≡ 0
    → flag (d.bitmap_of_level k).bitmap o ≡ false
flag_of_cover n d k o lt z = elim (Bool-cases (flag (d.bitmap_of_level k).bitmap o)) [
  | inl f ↦ absurd (
      omega (
        arith,
        cover-pos n d k (o * 2 ^ k) lt
            (ap (flag (d.bitmap_of_level k).bitmap) (first_unit k o) ∙ f),
      ))
  | inr f ↦ f
]

-- What the bitmap functions leave alone.
pub record SamePool (d d' : DynamicMemory) : Type 0 where
  pub levels : d'.max_level_count ≡ d.max_level_count
  pub blocks : d'.block_count_of_smallest_block ≡ d.block_count_of_smallest_block
  pub used : d'.used_size ≡ d.used_size
  pub start : d'.start_address ≡ d.start_address
  pub end : d'.end_address ≡ d.end_address
  pub index : d'.allocated_block_list_index ≡ d.allocated_block_list_index

pub SamePool-refl : (d : DynamicMemory) → SamePool d d
SamePool-refl d = record {
  levels = refl;
  blocks = refl;
  used = refl;
  start = refl;
  end = refl;
  index = refl;
}

pub SamePool-trans : {d e f : DynamicMemory} → SamePool d e → SamePool e f → SamePool d f
SamePool-trans p q = record {
  levels = q.levels ∙ p.levels;
  blocks = q.blocks ∙ p.blocks;
  used = q.used ∙ p.used;
  start = q.start ∙ p.start;
  end = q.end ∙ p.end;
  index = q.index ∙ p.index;
}

pub set-SamePool :
    (d : DynamicMemory) (k o : ℕ) (b : Bool) → SamePool d (set_flag_in_bitmap d k o b)
unfolding set_flag_in_bitmap
set-SamePool d k o b = record {
  levels = refl;
  blocks = refl;
  used = refl;
  start = refl;
  end = refl;
  index = refl;
}

-- The free memory is a matter of the bitmaps.
pub cover-bitmaps :
    (n : ℕ) (d d' : DynamicMemory) (u : ℕ)
    → d'.bitmap_of_level ≡ d.bitmap_of_level
    → cover n d' u ≡ cover n d u
unfolding cover
cover-bitmaps zero d d' u e = refl
cover-bitmaps (suc n) d d' u e =
    ap₂ ◌+◌ (cover-bitmaps n d d' u e) (ap (λ f. bit (flag (f n).bitmap (u / 2 ^ n))) e)
