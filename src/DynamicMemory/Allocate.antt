-- ===== src/DynamicMemory/Allocate.antt =====
-- kAllocateMemory.
use deodeok_os.Base.{
  ℕ, ◌+◌, ◌*◌, ◌%◌, ◌^◌, ◌<◌, ◌≤◌, ◌≡◌, ◌≢◌, arith, refl, Bool-cases, inl, inr, ne→==, sym, subst,
  Option, none, some, ltb, ltb→lt,
}
use native.Mathlib.Nat.{one-le-pow}
use deodeok_os.DynamicMemory.{
  DynamicMemory, take_block, level_or, record_block, allocate_memory, allocate_aligned, match_level,
}
use deodeok_os.DynamicMemory.Sizes.{IsMatch, match_level-IsMatch}
use deodeok_os.DynamicMemory.Pool.{IsTaken, take_block-IsTaken}
use deodeok_os.DynamicMemory.Api.{
  IsReady, IsAllocation, size_of_match, size_of_none, buddy_of_size, size_small, level_or_self,
  recorded-Allocated,
}

module _ (d : DynamicMemory) (size : ℕ) (r : IsReady d) (l : ℕ) (lt : l < d.max_level_count)
    (holds : size ≤ 1024 * 2 ^ l) (smallest : (k : ℕ) → k < l → 1024 * 2 ^ k < size) where
  taken-IsAllocation :
      d.start_address + d.used_size + 1024 * 2 ^ l ≤ d.end_address
      → (t : Option (ℕ × DynamicMemory)) → IsTaken d l t
      → IsAllocation d size (elim t [
        | none ↦ none
        | some (offset, d') ↦
            some (record_block d' (1024 * 2 ^ l) (level_or d' (1024 * 2 ^ l)) offset)
      ])
  unfolding IsAllocation IsTaken
  taken-IsAllocation room none f = inr (l, lt, holds, smallest, inr f)
  taken-IsAllocation room (some (offset, d')) b =
      rw (level_or_self d size r l lt holds smallest room d' b.same)
        (recorded-Allocated d size r l lt holds smallest room offset d' b)

  sum_small :
      (d.start_address + d.used_size + 1024 * 2 ^ l) % 2 ^ 64
      ≡ d.start_address + d.used_size + 1024 * 2 ^ l
  sum_small = omega (arith, r.used, r.low, size_small d size r l lt)

  size_pos : 1024 * 2 ^ l ≢ 0
  size_pos = omega (arith, one-le-pow l 2 (omega arith))

  aligned-IsAllocation : IsAllocation d size (allocate_aligned d (1024 * 2 ^ l))
  unfolding allocate_aligned IsAllocation
  aligned-IsAllocation =
      rw (ne→== _ _ size_pos, sum_small)
        (elim (Bool-cases (ltb d.end_address (d.start_address + d.used_size + 1024 * 2 ^ l))) [
          | inl over ↦ rw over (inr (l, lt, holds, smallest, inl (ltb→lt _ _ over)))
          | inr room ↦
              rw (room, buddy_of_size d size r l lt)
                (taken-IsAllocation (ground arith) (take_block d l)
                  (take_block-IsTaken d l r.pool (omega arith)))
        ])

  matched-IsAllocation :
      match_level d.max_level_count 0 size ≡ some l → IsAllocation d size (allocate_memory d size)
  unfolding allocate_memory
  matched-IsAllocation e =
      subst (λ s. IsAllocation d size (allocate_aligned d s)) (sym (size_of_match d size r l e lt))
        aligned-IsAllocation

-- On a ready pool kAllocateMemory returns a block of the smallest level that holds the size: its
-- units were all free, no other unit changes, its level is recorded, the used size grows by the
-- block, and the pool is ready again. It returns NULL only if the size is above every level's, or, with
-- the smallest level that holds it, the used size would pass the pool's end or no block of that
-- level or above is free.
pub allocate_memory-IsAllocation :
    (d : DynamicMemory) (size : ℕ) → IsReady d → IsAllocation d size (allocate_memory d size)
unfolding IsMatch allocate_memory allocate_aligned IsAllocation
allocate_memory-IsAllocation d size r =
    go (match_level d.max_level_count 0 size) refl
      (match_level-IsMatch d.max_level_count 0 size (omega (arith, r.few)))
  where
    go :
        (m : Option ℕ)
        → match_level d.max_level_count 0 size ≡ m
        → IsMatch d.max_level_count 0 size m
        → IsAllocation d size (allocate_memory d size)
    go none e f = rw (size_of_none d size r e) (inl (λ k lt. f k (omega arith) (omega arith)))
    go (some l) e f =
        matched-IsAllocation d size r l (omega (arith, f.1)) f.2 (λ k lt. f.3 k (omega arith) lt) e
