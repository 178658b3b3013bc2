-- ===== src/CacheManager/Start.antt =====
-- kInitializeCacheManager: two areas of dynamic memory, and the address that it loses.
use deodeok_os.Base.{
  ℕ, zero, suc, ◌+◌, ◌*◌, ◌/◌, ◌%◌, ◌^◌, ◌<◌, ◌≤◌, ◌≡◌, ◌==◌, Bool, true, false, Option, none, some,
  List, [], ◌∷◌, length, refl, inl, arith, ap, sym, subst,
}
use deodeok_os.DynamicMemory.{DynamicMemory, allocate_memory, free_memory}
use deodeok_os.DynamicMemory.Api.{IsReady, Allocated, Refused, IsAllocation, block_in}
use deodeok_os.DynamicMemory.Allocate.{allocate_memory-IsAllocation}
use deodeok_os.CacheManager.{
  CacheBuffer, CacheTable, CacheManager, area, initialize_cache_manager, initialize_data_area,
  no_tables, invalid_tag, overwritten, links_area, set_first_changed, with_links,
}
use deodeok_os.CacheManager.First.{All}
use deodeok_os.CacheManager.Time.{Earlier, IsTimed}

-- The buffers' memory is one behind the other from `start` on, each `size` bytes.
abbrev pub LaidOut : List CacheBuffer → (start size : ℕ) → Type 0
LaidOut [] start size = Unit
LaidOut (b ∷ bs) start size = (b.buffer ≡ start) × LaidOut bs (start + size) size

-- A table of `count` unused buffers whose counter is 0.
pub record IsEmptyTable (t : CacheTable) (count : ℕ) : Type 0 where
  pub unused : All (λ b. b.tag ≡ invalid_tag) t.buffers
  pub size : length t.buffers ≡ count
  pub timed : IsTimed t
  pub counter : t.access_time ≡ 0

-- The link table's buffers: only the first one is in the memory that was allocated for them; the
-- others are laid out 512 bytes behind 0xFFFFFFFF, which is past the end of the pool.
pub record IsLinkTable (d : DynamicMemory) (t : CacheTable) (links : ℕ) : Type 0 where
  pub empty : IsEmptyTable t 16
  pub first : CacheBuffer
  pub others : List CacheBuffer
  pub split : t.buffers ≡ first ∷ others
  pub inside : first.buffer ≡ links
  pub astray : LaidOut others (0xffff_ffff + 512) 512
  pub outside : d.end_address ≤ 0xffff_ffff

pub data IsStarted (d : DynamicMemory) : Bool × DynamicMemory × CacheManager → Type 0 where
  refused : {m : CacheManager} → Refused d (16 * 512) → IsStarted d (false, d, m)
  failed :
      {d1 : DynamicMemory} {m : CacheManager} (links : ℕ)
      → Allocated d (16 * 512) links d1
      → Refused d1 (32 * 4096)
      → IsStarted d (false, (free_memory d1 0xffff_ffff).1, m)
  started :
      {d1 d2 : DynamicMemory} {m : CacheManager} (links clusters : ℕ)
      → Allocated d (16 * 512) links d1
      → Allocated d1 (32 * 4096) clusters d2
      → IsLinkTable d (m 0) links
      → IsEmptyTable (m 1) 32
      → LaidOut (m 1).buffers clusters 4096
      → IsStarted d (true, d2, m)

area-unused : (n start size : ℕ) → All (λ b. b.tag ≡ invalid_tag) (area n start size)
unfolding area
area-unused zero start size = tt
area-unused (suc n) start size = (refl, area-unused n (start + size) size)

area-Earlier : (n start size time : ℕ) → All (Earlier time) (area n start size)
unfolding area
area-Earlier zero start size time = tt
area-Earlier (suc n) start size time = (inl refl, area-Earlier n (start + size) size time)

length-area : (n start size : ℕ) → length (area n start size) ≡ n
unfolding area
length-area zero start size = refl
length-area (suc n) start size = ap suc (length-area n (start + size) size)

area-LaidOut : (n start size : ℕ) → LaidOut (area n start size) start size
unfolding area
area-LaidOut zero start size = tt
area-LaidOut (suc n) start size = (refl, area-LaidOut n (start + size) size)

area-IsEmptyTable :
    (n start size : ℕ)
    → n < 0xffff_fffe
    → IsEmptyTable (record { access_time = 0; buffers = area n start size }) n
area-IsEmptyTable n start size few = record {
  unused = area-unused n start size;
  size = length-area n start size;
  timed = record {
    earlier = area-Earlier n start size 0;
    small = omega (arith, length-area n start size);
  };
  counter = refl;
}

module _ (d : DynamicMemory) (r : IsReady d) where
  -- A block begins below 4 GB, where the pool is.
  links_low : (links : ℕ) (d1 : DynamicMemory) → Allocated d (16 * 512) links d1 → links < 2 ^ 32
  links_low links d1 a = omega (
    arith,
    a.at,
    block_in d.block_count_of_smallest_block a.level a.offset a.in_pool,
    r.room,
    r.low,
  )

  overwritten_low : (links : ℕ) → links < 2 ^ 32 → overwritten links ≡ 0xffff_ffff
  unfolding overwritten
  overwritten_low links lt = omega arith

  with_links-IsLinkTable :
      (links clusters : ℕ) → links < 2 ^ 32 → IsLinkTable d (with_links links clusters 0) links
  unfolding with_links links_area set_first_changed
  with_links-IsLinkTable links clusters lt =
      let others = area 15 (overwritten links + 512) 512 in
      record {
        empty = record {
          unused = (refl, area-unused 15 (overwritten links + 512) 512);
          size = omega (arith, length-area 15 (overwritten links + 512) 512);
          timed = record {
            earlier = (inl refl, area-Earlier 15 (overwritten links + 512) 512 0);
            small = omega (arith, length-area 15 (overwritten links + 512) 512);
          };
          counter = refl;
        };
        first = record {
          tag = invalid_tag;
          access_time = links / 2 ^ 32;
          changed = clusters % 256 == 1;
          buffer = links;
        };
        others = others;
        split = refl;
        inside = refl;
        astray =
            subst (λ a. LaidOut others (a + 512) 512) (overwritten_low links lt)
              (area-LaidOut 15 (overwritten links + 512) 512);
        outside = omega (arith, r.low);
      }

  data_area-IsStarted :
      (links : ℕ) (d1 : DynamicMemory)
      → Allocated d (16 * 512) links d1
      → (second : Option (ℕ × DynamicMemory)) → IsAllocation d1 (32 * 4096) second
      → IsStarted d (initialize_data_area links d1 second)
  unfolding initialize_data_area IsAllocation
  data_area-IsStarted links d1 a none no_room =
      subst (λ p. IsStarted d (false, (free_memory d1 p).1, with_links links 0))
        (sym (overwritten_low links (links_low links d1 a))) (failed links a no_room)
  data_area-IsStarted links d1 a (some (clusters, d2)) b =
      started links clusters a b (with_links-IsLinkTable links clusters (links_low links d1 a))
        (area-IsEmptyTable 32 clusters 4096 (omega arith)) (area-LaidOut 32 clusters 4096)

  both-IsStarted :
      (first : Option (ℕ × DynamicMemory))
      → IsAllocation d (16 * 512) first
      → IsStarted d (elim first [
        | none ↦ (false, d, no_tables)
        | some (links, d1) ↦ initialize_data_area links d1 (allocate_memory d1 (32 * 4096))
      ])
  unfolding IsAllocation
  both-IsStarted none no_room = refused no_room
  both-IsStarted (some (links, d1)) a =
      data_area-IsStarted links d1 a (allocate_memory d1 (32 * 4096))
        (allocate_memory-IsAllocation d1 (32 * 4096) a.ready)

  -- On a ready pool kInitializeCacheManager allocates two areas and leaves two tables of unused
  -- buffers: those of the data table in their area, but of the link table only the first, the others
  -- past the end of the pool. It fails with the pool as it was if the first area is refused; if the
  -- second is, it passes kFreeMemory the address 0xFFFFFFFF in place of the first area's.
  pub initialize_cache_manager-IsStarted : IsStarted d (initialize_cache_manager d)
  unfolding initialize_cache_manager
  initialize_cache_manager-IsStarted =
      both-IsStarted (allocate_memory d (16 * 512)) (allocate_memory-IsAllocation d (16 * 512) r)
