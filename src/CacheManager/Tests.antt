-- ===== src/CacheManager/Tests.antt =====
-- Runs of the cache on a table of three buffers.
use deodeok_os.Base.{ℕ, ◌≡◌, ◌==◌, ◌-◌, false, [], ◌∷◌, refl, inl, inr, arith, some}
use deodeok_os.DynamicMemory.Initialize.{initialize_dynamic_memory}
use deodeok_os.DynamicMemory.Initialize.Layout.{initialize-IsReady}
use deodeok_os.CacheManager.{
  CacheBuffer, CacheTable, allocate_in_table, find_in_table, victim_in_table, cut_down_access_time,
  invalid_tag, stamped, change_first, renumber, sort_rounds, sort_pass, victim_loop,
  initialize_cache_manager,
}
use deodeok_os.CacheManager.Victim.{GivenUp, victim_in_table-GivenUp}
use deodeok_os.CacheManager.Time.{
  IsTimed, IsServed, allocate_in_table-IsServed, find_in_table-IsServed,
}
use deodeok_os.CacheManager.Start.{IsStarted, initialize_cache_manager-IsStarted}

abbrev buffer_with : (tag time : ℕ) → CacheBuffer
buffer_with tag time = record { tag = tag; access_time = time; changed = false; buffer = 0 }

-- Two buffers in use and one that is not, with the counter at the limit.
abbrev table : CacheTable
table = record {
  access_time = 0xffff_fffe;
  buffers = buffer_with 7 40 ∷ buffer_with 8 9 ∷ buffer_with invalid_tag 12 ∷ [];
}

table-IsTimed : IsTimed table
table-IsTimed = record {
  earlier = (inr (omega arith), (inr (omega arith), (inl refl, tt)));
  small = omega arith;
}

-- After the cut the buffer with tag 8 is the first one, and the unused one the second.
allocate_run : (allocate_in_table table).0 ≡ some 1
unfolding allocate_in_table stamped change_first cut_down_access_time renumber sort_rounds sort_pass
allocate_run = refl

find_run : (find_in_table table 7).0 ≡ some 2
unfolding find_in_table stamped change_first cut_down_access_time renumber sort_rounds sort_pass
find_run = refl

victim_run : (victim_in_table table).0 ≡ some 2
unfolding victim_in_table victim_loop stamped
victim_run = refl

allocate_in_table-IsServed_example :
    let c = cut_down_access_time table in
    IsServed c
      (λ b. b.tag == invalid_tag)
      (λ b. record b { tag = invalid_tag - 1; access_time = c.access_time })
      (allocate_in_table table)
allocate_in_table-IsServed_example = allocate_in_table-IsServed table table-IsTimed

find_in_table-IsServed_example :
    let c = cut_down_access_time table in
    IsServed c
      (λ b. b.tag == 7)
      (λ b. record b { access_time = c.access_time })
      (find_in_table table 7)
find_in_table-IsServed_example = find_in_table-IsServed table 7 table-IsTimed

victim_in_table-GivenUp_example : GivenUp table (victim_in_table table)
victim_in_table-GivenUp_example =
    victim_in_table-GivenUp table (ground arith) (omega arith, (omega arith, (omega arith, tt)))

initialize_cache_manager-IsStarted_example :
    IsStarted
      (initialize_dynamic_memory 18)
      (initialize_cache_manager (initialize_dynamic_memory 18))
initialize_cache_manager-IsStarted_example =
    initialize_cache_manager-IsStarted (initialize_dynamic_memory 18)
      (initialize-IsReady 18 (omega arith) (omega arith))
