-- ===== src/FileSystem/Chain.antt =====
-- kFreeClusterUntilEnd along the clusters of a file.
use deodeok_os.Base.{
  ℕ, zero, suc, ◌/◌, ◌≡◌, ◌≢◌, ◌<◌, Bool, true, false, ◌==◌, ◌||◌, if◌then◌else◌, some, refl, arith,
  ap, ◌∙◌, List, [], ◌∷◌, length, ne→==, eq→==,
}
use deodeok_os.Memory.{Memory}
use deodeok_os.FileSystem.State.{
  FileSystem, BlockDevice, last_cluster, free_cluster, then_step, then_some,
}
use deodeok_os.FileSystem.Links.{unlink_cluster, or_return, free_cluster_until_end}
use deodeok_os.FileSystem.Disk.{IsDisk}
use deodeok_os.FileSystem.Table.{
  IsTable, IsTable-SameLayout, InTable, link_of, after_read, get_link, link_of-read,
  read-SameLayout, after_set, set_link, set-SameLayout, link_of-set,
}

abbrev pub member : ℕ → List ℕ → Bool
member x [] = false
member x (y ∷ l) = (x == y) || member x l

-- From the cluster `c` on the links lead through the clusters of the list, each once and all in the
-- table, to the end.
abbrev pub IsChain : (link : ℕ → ℕ) (size : ℕ) → ℕ → List ℕ → Type 0
IsChain link size c [] = c ≡ last_cluster
IsChain link size c (x ∷ l) =
    (x ≡ c)
    × (c ≢ last_cluster)
    × (c / 128 < size)
    × (member c l ≡ false)
    × IsChain link size (link c) l

-- A chain does not depend on the link of a cluster outside it.
IsChain-agree :
    (link link' : ℕ → ℕ) (size f c : ℕ) (l : List ℕ)
    → member f l ≡ false
    → ((x : ℕ) → x ≢ f → link' x ≡ link x)
    → IsChain link size c l
    → IsChain link' size c l
IsChain-agree link link' size f c [] m e h = h
IsChain-agree link link' size f c (x ∷ l) m e h =
    let ne : c ≢ f = ground (arith, m, h.0) in
    (
      h.0,
      h.1,
      h.2,
      h.3,
      rw (e c ne) (IsChain-agree link link' size f (link c) l (ground (arith, m)) e h.4),
    )

freed_links :
    (x c v : ℕ) (l : List ℕ)
    → (if member x l then free_cluster else (if x == c then free_cluster else v))
      ≡ (if member x (c ∷ l) then free_cluster else v)
freed_links x c v l = ground arith

module _ {D : Type 0} {dev : BlockDevice D} {capacity : ℕ} {sector : D → ℕ → Memory}
    (disk : IsDisk dev capacity sector) where
  module _ (s : FileSystem D) (t : IsTable capacity s) (c : ℕ) (lt : InTable s c) where
    abbrev seen : FileSystem D
    seen = after_read disk s t (c / 128) lt

    abbrev seen-IsTable : IsTable capacity seen
    seen-IsTable = IsTable-SameLayout (read-SameLayout disk s t (c / 128) lt) t

    abbrev freed : FileSystem D
    freed = after_set disk seen seen-IsTable c free_cluster (omega arith) lt

    unlinked : unlink_cluster dev c s ≡ (some (link_of sector s c), freed)
    unfolding unlink_cluster then_step
    unlinked =
        then_some _ (get_link disk s t c lt)
        ∙ then_some _ (set_link disk seen seen-IsTable c free_cluster (omega arith) lt)

    step_end :
        (fuel : ℕ)
        → c ≢ last_cluster
        → free_cluster_until_end dev (suc fuel) c s
          ≡ free_cluster_until_end dev fuel (link_of sector s c) freed
    unfolding free_cluster_until_end
    step_end fuel ne =
        rw (ne→== c last_cluster ne, free_cluster_until_end)
          (ap (or_return dev (free_cluster_until_end dev fuel)) unlinked)

    freed-IsTable : IsTable capacity freed
    freed-IsTable =
        IsTable-SameLayout (set-SameLayout disk seen seen-IsTable c free_cluster (omega arith) lt)
          seen-IsTable

    link_of-freed :
        (x : ℕ) → link_of sector freed x ≡ (if x == c then free_cluster else link_of sector s x)
    link_of-freed x =
        link_of-set disk seen seen-IsTable c free_cluster (omega arith) lt x
        ∙ ap (λ (v : ℕ). if x == c then free_cluster else v) (link_of-read disk s t (c / 128) lt x)

    link_of-others : (x : ℕ) → x ≢ c → link_of sector freed x ≡ link_of sector s x
    link_of-others x ne =
        link_of-freed x
        ∙ ap (λ (b : Bool). if b then free_cluster else link_of sector s x) (ne→== x c ne)

  -- kFreeClusterUntilEnd on the chain of a file of `n` clusters ends after at most `n` rounds, frees
  -- exactly these clusters and changes no other link.
  pub free_cluster_until_end-Freed :
      (l : List ℕ) (c fuel : ℕ) (s : FileSystem D)
      → IsTable capacity s
      → IsChain (link_of sector s) s.cluster_link_area_size c l
      → length l < fuel
      → (s' : FileSystem D) × (free_cluster_until_end dev fuel c s ≡ some (true, s'))
        × IsTable capacity s'
        × ((x : ℕ)
            → link_of sector s' x ≡ (if member x l then free_cluster else link_of sector s x))
  unfolding free_cluster_until_end
  free_cluster_until_end-Freed l c zero s t h lt = absurd (omega arith)
  free_cluster_until_end-Freed [] c (suc fuel) s t h lt =
      (s, rw (eq→== c last_cluster h, free_cluster_until_end) refl, t, λ x. refl)
  free_cluster_until_end-Freed (x ∷ l) c (suc fuel) s t h lt =
      let (s', run, t', links) =
        free_cluster_until_end-Freed l (link_of sector s c) fuel (freed s t c h.2)
          (freed-IsTable s t c h.2)
          (IsChain-agree (link_of sector s) (link_of sector (freed s t c h.2))
            s.cluster_link_area_size c (link_of sector s c) l h.3 (link_of-others s t c h.2) h.4)
          (omega arith) in
      (
        s',
        step_end s t c h.2 fuel h.1 ∙ run,
        t',
        λ y.
            links y
            ∙ ap (λ (v : ℕ). if member y l then free_cluster else v) (link_of-freed s t c h.2 y)
            ∙ rw (h.0) (freed_links y c (link_of sector s y) l),
      )
