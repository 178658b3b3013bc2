-- ===== src/FileSystem/Rounds.antt =====
-- The rounds of kFindFreeCluster over the link table on the disk.
use deodeok_os.Base.{
  ℕ, zero, suc, ◌+◌, ◌*◌, ◌/◌, ◌%◌, ◌^◌, ◌≡◌, ◌≢◌, ◌<◌, ◌≤◌, Option, none, some, refl, arith, ap,
  ap₂, ◌∙◌, sym, subst, eq→==, ne→==,
}
use native.Mathlib.Decide.{ℕ_discrete}
use deodeok_os.Memory.{Memory}
use deodeok_os.FileSystem.State.{FileSystem, BlockDevice, free_cluster, dword}
use deodeok_os.FileSystem.Links.{
  free_link, link_count, sector_of_round, found_in, search_sector, or_next_round, free_cluster_from,
}
use deodeok_os.FileSystem.Disk.{IsDisk, dword-agree}
use deodeok_os.FileSystem.Table.{
  IsTable, IsTable-SameLayout, link_of, after_read, read_link, read_temp, link_of-read,
  read-SameLayout,
}

-- What the loop over one sector finds.
abbrev FirstFree : Memory → (n j : ℕ) → Option ℕ → Type 0
FirstFree m n j none = (k : ℕ) → j ≤ k → k < j + n → dword m k ≢ free_cluster
FirstFree m n j (some k) = (dword m k ≡ free_cluster) × (j ≤ k) × (k < j + n)

FirstFree-later :
    (m : Memory) (n j : ℕ) (o : Option ℕ)
    → dword m j ≢ free_cluster
    → FirstFree m n (j + 1) o
    → FirstFree m (suc n) j o
FirstFree-later m n j none ne h = λ k lo hi. elim (ℕ_discrete k j) [
  | yes e ↦ subst (λ i. dword m i ≢ free_cluster) (sym e) ne
  | no d ↦ h k (omega arith) (omega arith)
]
FirstFree-later m n j (some k) ne h = ground arith

free_link-FirstFree : (m : Memory) (n j : ℕ) → FirstFree m n j (free_link m n j)
unfolding free_link
free_link-FirstFree m zero j = λ k lo hi. absurd (omega arith)
free_link-FirstFree m (suc n) j = elim (ℕ_discrete (dword m j) free_cluster) [
  | yes e ↦ rw (eq→== (dword m j) free_cluster e, free_link) (e, omega arith, omega arith)
  | no d ↦
      rw (ne→== (dword m j) free_cluster d, free_link)
        (FirstFree-later m n j _ d (free_link-FirstFree m n (j + 1)))
]

module _ {D : Type 0} {dev : BlockDevice D} {capacity : ℕ} {sector : D → ℕ → Memory}
    (disk : IsDisk dev capacity sector) where
  -- What `n` rounds from round `i` on say of the links before them. A cluster that one of them finds
  -- is free, and the next search starts at its sector; if none is found, no link that the rounds look
  -- at is free. No link changes.
  abbrev pub Looked : FileSystem D → (last n i : ℕ) → Option ℕ × FileSystem D → Type 0
  Looked s last n i (some c, s') =
      ((k : ℕ) × (i ≤ k)
        × (k < i + n)
        × (c / 128 ≡ sector_of_round dev s last k)
        × (c % 128 < link_count dev s last k))
      × (link_of sector s c ≡ free_cluster)
      × (s'.last_allocated_cluster_link_sector_offset ≡ c / 128)
      × ((x : ℕ) → link_of sector s' x ≡ link_of sector s x)
  Looked s last n i (none, s') =
      ((k j : ℕ)
        → i ≤ k
        → k < i + n
        → j < link_count dev s last k
        → link_of sector s (sector_of_round dev s last k * 128 + j) ≢ free_cluster)
      × ((x : ℕ) → link_of sector s' x ≡ link_of sector s x)

  module _ (s : FileSystem D) (t : IsTable capacity s)
      (small : s.cluster_link_area_size * 128 ≤ 2 ^ 32) (last i : ℕ)
      (pos : 0 < s.cluster_link_area_size) where
    abbrev here : ℕ
    here = sector_of_round dev s last i

    here-lt : here < s.cluster_link_area_size
    here-lt = omega arith

    abbrev seen : FileSystem D
    seen = after_read disk s t here here-lt

    link_here : (j : ℕ) → j < 128 → dword seen.temp_buffer j ≡ link_of sector s (here * 128 + j)
    unfolding link_of
    link_here j h =
        dword-agree _ _ j h (read_temp disk s t here here-lt)
        ∙ ap₂ (λ a b. dword (sector s.device (s.cluster_link_area_start_address + a)) b)
            (omega arith) (omega arith)

    count-le : link_count dev s last i ≤ 128
    count-le = ground arith

    -- The links of `seen` are those of `s`.
    same : (x : ℕ) → link_of sector seen x ≡ link_of sector s x
    same = link_of-read disk s t here here-lt

    found-Looked :
        (n j : ℕ)
        → FirstFree seen.temp_buffer (link_count dev s last i) 0 (some j)
        → Looked s last (suc n) i (found_in dev here j seen)
    unfolding link_of
    found-Looked n j f =
        let c : (here * 128 + j) % 2 ^ 32 ≡ here * 128 + j =
          omega (arith, count-le, f.2, here-lt) in
        let e : (here * 128 + j) % 2 ^ 32 / 128 ≡ here = omega (arith, count-le, f.2, here-lt) in
        (
          (i, omega arith, omega arith, e, omega (arith, c, f.2)),
          ap (link_of sector s) c ∙ sym (link_here j (omega (arith, count-le, f.2))) ∙ f.0,
          sym e,
          same,
        )

    none_here :
        FirstFree seen.temp_buffer (link_count dev s last i) 0 none
        → (k j : ℕ) → k ≡ i
        → j < link_count dev s last k
        → link_of sector s (sector_of_round dev s last k * 128 + j) ≢ free_cluster
    none_here f k j e h l =
        let h' = subst (λ k. j < link_count dev s last k) e h in
        f j (omega arith) (omega arith) (
          link_here j (omega (arith, count-le, h'))
          ∙ subst (λ k. link_of sector s (sector_of_round dev s last k * 128 + j) ≡ free_cluster) e
              l)

    later-Looked :
        (n : ℕ) (r : Option ℕ × FileSystem D)
        → FirstFree seen.temp_buffer (link_count dev s last i) 0 none
        → Looked seen last n (i + 1) r
        → Looked s last (suc n) i r
    later-Looked n (some c, s') f q = (
      (q.0.0, omega (arith, q.0.1), omega (arith, q.0.2), q.0.3, q.0.4),
      sym (same c) ∙ q.1,
      q.2,
      λ x. q.3 x ∙ same x,
    )
    later-Looked n (none, s') f q = (
      λ k j lo hi h. elim (ℕ_discrete k i) [
        | yes e ↦ none_here f k j e h
        | no d ↦ λ l.
            q.0 k j (omega arith) (omega arith) h
              (same (sector_of_round dev s last k * 128 + j) ∙ l)
      ],
      λ x. q.1 x ∙ same x,
    )

    next-Looked :
        (n : ℕ) (rest : FileSystem D → Option ℕ × FileSystem D) (o : Option ℕ)
        → FirstFree seen.temp_buffer (link_count dev s last i) 0 o
        → Looked seen last n (i + 1) (rest seen)
        → Looked s last (suc n) i (or_next_round dev rest here seen o)
    next-Looked n rest none f q = later-Looked n (rest seen) f q
    next-Looked n rest (some j) f q = found-Looked n j f

    round :
        (n : ℕ)
        → free_cluster_from dev last (suc n) i s
          ≡ or_next_round dev
              (free_cluster_from dev last n (i + 1))
              here
              seen
              (free_link seen.temp_buffer (link_count dev s last i) 0)
    unfolding free_cluster_from
    round n =
        ap (search_sector dev (free_cluster_from dev last n (i + 1)) here (link_count dev s last i))
          (read_link disk s t here here-lt)

  -- What the rounds have looked at.
  pub rounds-Looked :
      (n i : ℕ) (s : FileSystem D) (last : ℕ)
      → IsTable capacity s
      → s.cluster_link_area_size * 128 ≤ 2 ^ 32
      → 0 < s.cluster_link_area_size
      → Looked s last n i (free_cluster_from dev last n i s)
  unfolding free_cluster_from
  rounds-Looked zero i s last t small pos = ((λ k j lo hi h. absurd (omega arith)), λ x. refl)
  rounds-Looked (suc n) i s last t small pos =
      subst (Looked s last (suc n) i) (sym (round s t small last i pos n)) (
        next-Looked s t small last i pos n (free_cluster_from dev last n (i + 1)) _
          (free_link-FirstFree (seen s t small last i pos).temp_buffer (link_count dev s last i) 0)
          (rounds-Looked n (i + 1) (seen s t small last i pos) last
            (IsTable-SameLayout
              (read-SameLayout disk s t (here s t small last i pos) (here-lt s t small last i pos))
              t)
            small pos))
