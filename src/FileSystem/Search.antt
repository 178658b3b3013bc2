-- ===== src/FileSystem/Search.antt =====
-- kFindFreeCluster over the link table on the disk.
use deodeok_os.Base.{
  ℕ, ◌+◌, ◌-◌, ◌*◌, ltb, leb, ◌==◌, ltb→lt, Bool-cases, inl, inr, ◌/◌, ◌%◌, ◌^◌, ◌≡◌, ◌≢◌, ◌<◌, ◌≤◌,
  Bool, if◌then◌else◌, Option, none, some, arith, ap, ap₂, ◌∙◌, sym, subst,
}
use native.Mathlib.Nat.{mod-eq_of_lt, mod-eq-sub-mod}
use deodeok_os.Memory.{Memory}
use deodeok_os.FileSystem.State.{FileSystem, BlockDevice, free_cluster}
use deodeok_os.FileSystem.Links.{link_count, sector_of_round, free_cluster_from, find_free_cluster}
use deodeok_os.FileSystem.Disk.{IsDisk}
use deodeok_os.FileSystem.Table.{IsTable, link_of}
use deodeok_os.FileSystem.Rounds.{Looked, rounds-Looked}

module _ {D : Type 0} {dev : BlockDevice D} {capacity : ℕ} {sector : D → ℕ → Memory}
    (disk : IsDisk dev capacity sector) where
  -- What a search says of the links before it. The table has `size` sectors, of whose last one only
  -- the first `total % 128` links are looked at. A cluster that is found is one of these and free, and
  -- the next search starts at its sector; if none is found, none of these is free. No link changes.
  abbrev pub Searched : FileSystem D → Option ℕ × FileSystem D → Type 0
  Searched s (some c, s') =
      (c < (s.cluster_link_area_size - 1) * 128 + s.total_cluster_count % 128)
      × (link_of sector s c ≡ free_cluster)
      × (s'.last_allocated_cluster_link_sector_offset ≡ c / 128)
      × ((x : ℕ) → link_of sector s' x ≡ link_of sector s x)
  Searched s (none, s') =
      ((c : ℕ)
        → c < (s.cluster_link_area_size - 1) * 128 + s.total_cluster_count % 128
        → link_of sector s c ≢ free_cluster)
      × ((x : ℕ) → link_of sector s' x ≡ link_of sector s x)

  wrapped : (x n : ℕ) → x < n + n → x % n ≡ (if ltb x n then x else x - n)
  wrapped x n lt = elim (Bool-cases (ltb x n)) [
    | inl y ↦ rw y (mod-eq_of_lt (ltb→lt x n y))
    | inr k ↦ let le : n ≤ x = ground arith in rw k (mod-eq-sub-mod le ∙ mod-eq_of_lt (omega arith))
  ]

  module _ (s : FileSystem D) (small : s.cluster_link_area_size * 128 ≤ 2 ^ 32)
      (noted : s.last_allocated_cluster_link_sector_offset < s.cluster_link_area_size) where
    abbrev size : ℕ
    size = s.cluster_link_area_size

    abbrev last : ℕ
    last = s.last_allocated_cluster_link_sector_offset

    -- The rounds go through the sectors from the noted one on, and then from the first one on.
    sector_going_round :
        (k : ℕ)
        → k < size
        → sector_of_round dev s last k ≡ (if ltb (last + k) size then last + k else last + k - size)
    sector_going_round k lt =
        let word : (last + k) % 2 ^ 32 ≡ last + k = omega arith in
        ap (λ x. x % size) word ∙ wrapped (last + k) size (omega arith)

    count_going_round :
        (k : ℕ)
        → k < size
        → link_count dev s last k
          ≡ (if sector_of_round dev s last k == size - 1 then s.total_cluster_count % 128 else 128)
    count_going_round k lt =
        let word : (last + k) % 2 ^ 32 ≡ last + k = omega arith in
        let end : (size + 2 ^ 32 - 1) % 2 ^ 32 ≡ size - 1 = omega arith in
        let same : (last + k == size - 1) ≡ (sector_of_round dev s last k == size - 1) =
          ground (arith, sector_going_round k lt) in
        ap₂ (λ x y. if x == y then s.total_cluster_count % 128 else 128) word end
        ∙ ap (λ (b : Bool). if b then s.total_cluster_count % 128 else 128) same

    -- The round that looks at a sector.
    round_of : (q : ℕ) → q < size → (k : ℕ) × (k < size) × (sector_of_round dev s last k ≡ q)
    round_of q lt = elim (Bool-cases (leb last q)) [
      | inl y ↦
          (q - last, ground arith, sector_going_round (q - last) (ground arith) ∙ ground arith)
      | inr k ↦ (
        q + size - last,
        ground arith,
        sector_going_round (q + size - last) (ground arith) ∙ ground arith,
      )
    ]

    Looked-Searched : (r : Option ℕ × FileSystem D) → Looked disk s last size 0 r → Searched s r
    Looked-Searched (some c, s') q =
        let k = q.0.0 in
        let in_time : k < size = omega (arith, q.0.2) in
        let in_table : sector_of_round dev s last k < size =
          ground (arith, sector_going_round k in_time) in
        let looked_at = subst (λ n. c % 128 < n) (count_going_round k in_time) q.0.4 in
        (ground (arith, in_table, q.0.3, looked_at), q.1, q.2, q.3)
    Looked-Searched (none, s') q = (
      λ c lt.
          let (k, in_time, here) = round_of (c / 128) (omega arith) in
          let at : sector_of_round dev s last k * 128 + c % 128 ≡ c = omega (arith, here) in
          let looked_at : c % 128 < link_count dev s last k =
            ground (arith, here, count_going_round k in_time) in
          subst (λ x. link_of sector s x ≢ free_cluster) at
            (q.0 k (c % 128) (omega arith) (omega (arith, in_time)) looked_at),
      q.1,
    )

  -- With the noted sector in the table, kFindFreeCluster returns the cluster of a free link and notes
  -- its sector; it returns FILESYSTEM_LASTCLUSTER only if none of the links is free, those of the
  -- last sector from the total count's remainder by 128 on left out. It changes no link.
  pub find_free_cluster-Searched :
      (s : FileSystem D)
      → IsTable capacity s
      → s.cluster_link_area_size * 128 ≤ 2 ^ 32
      → s.last_allocated_cluster_link_sector_offset < s.cluster_link_area_size
      → Searched s (find_free_cluster dev s)
  unfolding find_free_cluster
  find_free_cluster-Searched s t small noted =
      let last = s.last_allocated_cluster_link_sector_offset in
      let run = free_cluster_from dev last s.cluster_link_area_size 0 s in
      subst (Searched s) (sym (ap (λ (b : Bool). if b then run else (none, s)) t.mounted)) (
        Looked-Searched s small noted run
          (rounds-Looked disk s.cluster_link_area_size 0 s last t small (omega arith)))
