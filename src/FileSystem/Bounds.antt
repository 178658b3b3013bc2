-- ===== src/FileSystem/Bounds.antt =====
-- The loops of kReadFile and kWriteFile end, whatever the device does, and count no more than was
-- asked for.
use deodeok_os.Base.{
  ℕ, zero, suc, ◌+◌, ◌*◌, ◌-◌, ◌/◌, ◌%◌, ◌^◌, ◌≡◌, ◌≢◌, ◌<◌, ◌≤◌, Bool, true, false, ltb, ◌==◌,
  if◌then◌else◌, Option, none, some, refl, arith, sym, eq→==, ne→==, subst,
}
use native.Mathlib.Decide.{ℕ_discrete}
use deodeok_os.Memory.{Memory}
use deodeok_os.FileSystem.State.{
  FileSystem, BlockDevice, FileHandle, Handle, free, file, directory, cluster_size, copy_at,
}
use deodeok_os.FileSystem.Sectors.{data_area, read_area}
use deodeok_os.FileSystem.Links.{get_cluster_link_data}
use deodeok_os.FileSystem.Directory.{set_handle, update_directory_entry}
use deodeok_os.FileSystem.ReadWrite.{
  Transfer, min, copy_size, counted, move_on, end_of_round, take_bytes, read_round, or_break,
  read_rounds, returned, with_file, read_handle, read_file, prepare, written_round, put_bytes,
  write_round, write_rounds, grown, write_handle, write_file,
}

-- A round moves at least one byte, and no more than are left.
copy_size_bounds :
    {D : Type 0} (total : ℕ) (t : Transfer D)
    → t.count < total
    → (0 < copy_size total t) × (t.count + copy_size total t ≤ total)
copy_size_bounds total t h = ground arith

module _ {D : Type 0} (dev : BlockDevice D) where
  move_on-count :
      (t : Transfer D) (r : Option ℕ × FileSystem D) → (move_on dev t r).1.count ≡ t.count
  move_on-count t (none, s) = refl
  move_on-count t (some n, s) = refl

  end_of_round-count : (t : Transfer D) → (end_of_round dev t).1.count ≡ t.count
  unfolding end_of_round
  end_of_round-count t =
      ground
        (arith, move_on-count t (get_cluster_link_data dev t.handle.current_cluster_index t.system))

  -- A round that goes on has counted more bytes, and none counts more than there are.
  abbrev Progress : (total : ℕ) → Transfer D → Bool × Transfer D → Type 0
  Progress total t (true, t') = (t.count < t'.count) × (t'.count ≤ total)
  Progress total t (false, t') = t'.count ≤ total

  Progress-count :
      (total : ℕ) (t : Transfer D) (r : Bool × Transfer D)
      → t.count < r.1.count
      → r.1.count ≤ total
      → Progress total t r
  Progress-count total t (true, t') lo hi = (lo, hi)
  Progress-count total t (false, t') lo hi = hi

  -- The end of a round after the bytes were counted.
  counted-Progress :
      (total : ℕ) (t t1 : Transfer D)
      → t1.count ≡ t.count
      → t.count < total
      → Progress total t (end_of_round dev (counted dev total t1))
  counted-Progress total t t1 e h =
      let c = end_of_round-count (counted dev total t1) in
      let b = copy_size_bounds total t1 (omega arith) in
      Progress-count total t (end_of_round dev (counted dev total t1)) (omega (arith, c, b))
        (omega (arith, c, b))

  take_bytes-Progress :
      (total : ℕ) (t : Transfer D) (o : Option (Unit {0}) × FileSystem D)
      → t.count < total
      → Progress total t (take_bytes dev total t o)
  take_bytes-Progress total t (none, s) h = omega arith
  take_bytes-Progress total t (some _, s) h =
      counted-Progress total t
        (record t {
          system = s;
          buffer =
              copy_at t.buffer t.count s.temp_buffer (t.handle.current_offset % cluster_size)
                (copy_size total t);
        })
        refl h

  written_round-Progress :
      (total : ℕ) (t t1 : Transfer D) (o : Option (Unit {0}) × FileSystem D)
      → t1.count ≡ t.count
      → t.count < total
      → Progress total t (written_round dev total t1 o)
  written_round-Progress total t t1 (none, s) e h = omega arith
  written_round-Progress total t t1 (some _, s) e h =
      counted-Progress total t (record t1 { system = s }) e h

  put_bytes-Progress :
      (total : ℕ) (t : Transfer D) (o : Option FileHandle × FileSystem D)
      → t.count < total
      → Progress total t (put_bytes dev total t o)
  put_bytes-Progress total t (none, s) h = omega arith
  put_bytes-Progress total t (some x, s) h =
      written_round-Progress total t (record t { handle = x }) _ refl h

  -- A loop that ends, with at most `total` counted.
  abbrev Ends : (total : ℕ) → Option (Transfer D) → Type 0
  Ends total o = (t : Transfer D) × (o ≡ some t) × (t.count ≤ total)

  or_break-Ends :
      (total : ℕ) (rest : Transfer D → Option (Transfer D)) (t : Transfer D) (r : Bool × Transfer D)
      → Progress total t r
      → ((u : Transfer D) → t.count < u.count → u.count ≤ total → Ends total (rest u))
      → Ends total (or_break dev rest r)
  or_break-Ends total rest t (true, u) p k = k u p.0 p.1
  or_break-Ends total rest t (false, u) p k = (u, refl, p)

  -- A round of a loop, by its test.
  split_round :
      (total : ℕ) (rest : Transfer D → Option (Transfer D)) (t : Transfer D) (r : Bool × Transfer D)
      → t.count ≤ total
      → (t.count < total → Ends total (or_break dev rest r))
      → Ends total (elim (t.count == total) [ true ↦ some t | false ↦ or_break dev rest r ])
  split_round total rest t r le k = elim (ℕ_discrete t.count total) [
    | yes e ↦
        subst (λ b. Ends total (elim b [ true ↦ some t | false ↦ or_break dev rest r ]))
          (sym (eq→== t.count total e)) (t, refl, le)
    | no n ↦
        subst (λ b. Ends total (elim b [ true ↦ some t | false ↦ or_break dev rest r ]))
          (sym (ne→== t.count total n)) (k (omega arith))
  ]

  read_rounds-Ends :
      (fuel total : ℕ) (t : Transfer D)
      → t.count ≤ total
      → total - t.count < fuel
      → Ends total (read_rounds dev fuel total t)
  unfolding read_rounds read_round
  read_rounds-Ends zero total t le lt = absurd (omega arith)
  read_rounds-Ends (suc fuel) total t le lt =
      split_round total (read_rounds dev fuel total) t (read_round dev total t) le λ h.
        or_break-Ends total (read_rounds dev fuel total) t (read_round dev total t)
          (take_bytes-Progress total t
            (read_area dev data_area t.handle.current_cluster_index t.system) h)
          (λ u lo hi. read_rounds-Ends fuel total u hi (omega arith))

  write_rounds-Ends :
      (fuel total : ℕ) (t : Transfer D)
      → t.count ≤ total
      → total - t.count < fuel
      → Ends total (write_rounds dev fuel total t)
  unfolding write_rounds write_round
  write_rounds-Ends zero total t le lt = absurd (omega arith)
  write_rounds-Ends (suc fuel) total t le lt =
      split_round total (write_rounds dev fuel total) t (write_round dev total t) le λ h.
        or_break-Ends total (write_rounds dev fuel total) t (write_round dev total t)
          (put_bytes-Progress total t (prepare dev total t.count t.handle t.system) h)
          (λ u lo hi. write_rounds-Ends fuel total u hi (omega arith))

  -- A call that returns, with a result of at most `count`.
  abbrev pub Returns : (count : ℕ) → Option (ℕ × Memory × FileSystem D) → Type 0
  Returns count o = (r : ℕ × Memory × FileSystem D) × (o ≡ some r) × (r.0 ≤ count)

  with_file-Returns :
      (count : ℕ) (f : FileSystem D → FileHandle → Option (ℕ × Memory × FileSystem D))
      (buffer : Memory) (s : FileSystem D) (h : Handle)
      → ((x : FileHandle) → Returns count (f s x))
      → Returns count (with_file dev f buffer s h)
  with_file-Returns count f buffer s free k = ((0, buffer, s), refl, omega arith)
  with_file-Returns count f buffer s (file x) k = k x
  with_file-Returns count f buffer s (directory d) k = ((0, buffer, s), refl, omega arith)

  returned-Returns :
      (size count total i : ℕ) (o : Option (Transfer D))
      → size ≢ 0
      → total ≤ size * count
      → Ends total o
      → Returns count (returned dev size i o)
  returned-Returns size count total i o ne le (t, e, b) =
      let q : t.count / size ≤ count = grind arith in
      (
        (t.count / size, t.buffer, (set_handle i (file t.handle) t.system).1),
        rw (e, ne→== size 0 ne) refl,
        q,
      )

  either-Ends :
      (total : ℕ) (b : Bool) (t u : Transfer D)
      → t.count ≤ total
      → u.count ≤ total
      → Ends total (if b then some t else some u)
  either-Ends total true t u ht hu = (t, refl, ht)
  either-Ends total false t u ht hu = (u, refl, hu)

  grown-some-Ends : (total : ℕ) (t : Transfer D) → t.count ≤ total → Ends total (grown dev (some t))
  grown-some-Ends total t b =
      let h : FileHandle = record t.handle { file_size = t.handle.current_offset } in
      either-Ends total (ltb t.handle.file_size t.handle.current_offset)
        (record t { handle = h; system = (update_directory_entry dev h t.system).1 }) t b b

  grown-Ends : (total : ℕ) (o : Option (Transfer D)) → Ends total o → Ends total (grown dev o)
  grown-Ends total o (t, e, b) =
      subst (λ o. Ends total (grown dev o)) (sym e) (grown-some-Ends total t b)

  -- The first return of kReadFile, or the loop.
  either-Returns :
      (count : ℕ) (b : Bool) (o p : Option (ℕ × Memory × FileSystem D))
      → Returns count o
      → Returns count p
      → Returns count (if b then o else p)
  either-Returns count true o p ho hp = ho
  either-Returns count false o p ho hp = hp

  read_handle-Returns :
      (fuel : ℕ) (buffer : Memory) (size count i : ℕ) (s : FileSystem D) (h : FileHandle)
      → size ≢ 0
      → size * count < fuel
      → Returns count (read_handle dev fuel buffer size count i s h)
  read_handle-Returns fuel buffer size count i s h ne lt =
      let left = (h.file_size + 2 ^ 32 - h.current_offset) % 2 ^ 32 in
      let total = min ((size * count) % 2 ^ 32) left in
      let le : total ≤ size * count = ground arith in
      let t : Transfer D = record { system = s; handle = h; buffer = buffer; count = 0 } in
      either-Returns count _ _ _ ((0, buffer, s), refl, omega arith)
        (returned-Returns size count total i (read_rounds dev fuel total t) ne le
          (read_rounds-Ends fuel total t (omega arith) (omega arith)))

  -- kReadFile returns, whatever the device does, with at most dwCount: its loop has at most as many
  -- rounds as bytes were asked for. Its dwSize is not 0.
  pub read_file-Returns :
      (fuel : ℕ) (buffer : Memory) (size count : ℕ) (p : Option ℕ) (s : FileSystem D)
      → size ≢ 0
      → size * count < fuel
      → (r : ℕ × Memory × FileSystem D) × (read_file dev fuel buffer size count p s ≡ some r)
        × (r.0 ≤ count)
  unfolding read_file
  read_file-Returns fuel buffer size count none s ne lt = ((0, buffer, s), refl, omega arith)
  read_file-Returns fuel buffer size count (some i) s ne lt =
      with_file-Returns count (read_handle dev fuel buffer size count i) buffer s (s.handle_pool i)
        (λ h. read_handle-Returns fuel buffer size count i s h ne lt)

  -- kWriteFile returns, whatever the device does, with at most dwCount: its loop has at most as many
  -- rounds as there are bytes. Its dwSize is not 0.
  pub write_file-Returns :
      (fuel : ℕ) (buffer : Memory) (size count : ℕ) (p : Option ℕ) (s : FileSystem D)
      → size ≢ 0
      → size * count < fuel
      → (r : ℕ × Memory × FileSystem D) × (write_file dev fuel buffer size count p s ≡ some r)
        × (r.0 ≤ count)
  unfolding write_file
  write_file-Returns fuel buffer size count none s ne lt = ((0, buffer, s), refl, omega arith)
  write_file-Returns fuel buffer size count (some i) s ne lt =
      let total = (size * count) % 2 ^ 32 in
      with_file-Returns count (write_handle dev fuel buffer size count i) buffer s (s.handle_pool i)
        λ h.
          let t : Transfer D = record { system = s; handle = h; buffer = buffer; count = 0 } in
          returned-Returns size count total i (grown dev (write_rounds dev fuel total t)) ne
            (omega arith)
            (grown-Ends total (write_rounds dev fuel total t)
              (write_rounds-Ends fuel total t (omega arith) (omega arith)))
