-- ===== src/Console/Screen.antt =====
-- kConsolePrintString as a terminal on the video memory.
use deodeok_os.Base.{
  ℕ, zero, suc, ◌+◌, ◌-◌, ◌*◌, ◌/◌, ◌%◌, ◌≡◌, ◌<◌, ◌≤◌, ◌⊎◌, inl, inr, Bool, true, false, leb, ltb,
  ◌==◌, if◌then◌else◌, some, List, [], ◌∷◌, arith, refl, ap, ◌∙◌, sym, subst, Bool-cases, length,
}
use deodeok_os.Base.Cells.{update}
use deodeok_os.Memory.{Memory, mem_cpy}
use deodeok_os.Memory.Words.{IsByteMemory, within}
use deodeok_os.Memory.Overlap.{mem_cpy-lower}
use deodeok_os.Text.Reverse.{IsString, str_len-IsString}
use deodeok_os.Console.{
  video_memory_address, console_width, console_height, set_character, fill_spaces, scroll,
  print_character, print_characters, console_print_string, print_measured,
}
use deodeok_os.Console.Terminal.{Terminal, scrolled, type_character, type_text}

-- The video memory shows the terminal's cells, and its position is that of the next character.
pub record Shows (t : Terminal) (m : Memory) (offset : ℕ) : Type 0 where
  pub position : t.position ≡ offset
  pub character : (i : ℕ) → i < 2000 → m (video_memory_address + 2 * i) ≡ (t.cells i).0
  pub color : (i : ℕ) → i < 2000 → m (video_memory_address + 2 * i + 1) ≡ (t.cells i).1

-- Only the video memory has changed, and all cells are bytes.
pub record OnScreen (m m' : Memory) : Type 0 where
  pub outside : (x : ℕ) → within video_memory_address 4000 x ≡ false → m' x ≡ m x
  pub bytes : IsByteMemory m'

set_character-at :
    (m : Memory) (j c x : ℕ)
    → set_character m j c x ≡ (
        if x == video_memory_address + 2 * j
        then c
        else if x == video_memory_address + 2 * j + 1
        then 14
        else m x)
unfolding set_character
set_character-at m j c x = ground arith

fill_spaces-at :
    (n : ℕ) (m : Memory) (j x : ℕ)
    → fill_spaces n m j x ≡ (
        if within (video_memory_address + 2 * j) (2 * n) x
        then (if x % 2 == 0 then b' ' else 14)
        else m x)
unfolding fill_spaces
fill_spaces-at zero m j x = ground arith
fill_spaces-at (suc n) m j x =
    ground (arith, fill_spaces-at n (set_character m j b' ') (j + 1) x, set_character-at m j b' ' x)

-- The screen moved up by a line.
moved : Memory → Memory
moved m =
    fill_spaces console_width
      (mem_cpy m video_memory_address (video_memory_address + console_width * 2)
        ((console_height - 1) * console_width * 2)).1
      ((console_height - 1) * console_width)

moved-at :
    (m : Memory) (x : ℕ)
    → IsByteMemory m
    → moved m x ≡ (
        if within (video_memory_address + 3840) 160 x
        then (if x % 2 == 0 then b' ' else 14)
        else if within video_memory_address 3840 x
        then m (x + 160)
        else m x)
unfolding moved
moved-at m x h =
    let from : video_memory_address + 160 + (x - video_memory_address)
        ≡ (if ltb x video_memory_address then video_memory_address + 160 else x + 160) =
      ground arith in
    ground (
      arith,
      fill_spaces-at 80 (mem_cpy m video_memory_address (video_memory_address + 160) 3840).1 1920 x,
      mem_cpy-lower m video_memory_address (video_memory_address + 160) 3840 x h (omega arith)
          (omega arith),
    )

module _ (t : Terminal) (m : Memory) (offset : ℕ) (bytes : IsByteMemory m) where
  moved-Shows :
      Shows t m offset
      → Shows
          (record {
            cells = λ i. if ltb i 1920 then t.cells (i + 80) else (b' ', 14);
            position = 1920;
          })
          (moved m)
          1920
  moved-Shows s = record {
    position = refl;
    character = λ i lt. moved-at m (video_memory_address + 2 * i) bytes ∙ moved_character i lt;
    color = λ i lt. moved-at m (video_memory_address + 2 * i + 1) bytes ∙ moved_color i lt;
  }
    where
      moved_character :
          (i : ℕ)
          → i < 2000
          → (if within (video_memory_address + 3840) 160 (video_memory_address + 2 * i)
              then (if (video_memory_address + 2 * i) % 2 == 0 then b' ' else 14)
              else if within video_memory_address 3840 (video_memory_address + 2 * i)
              then m (video_memory_address + 2 * i + 160)
              else m (video_memory_address + 2 * i))
            ≡ (if ltb i 1920 then t.cells (i + 80) else (b' ', 14)).0
      moved_character i lt = elim (Bool-cases (ltb i 1920)) [
        | inl y ↦
            let at : video_memory_address + 2 * i + 160 ≡ video_memory_address + 2 * (i + 80) =
              omega arith in
            rw y (ground (arith, ap m at, s.character (i + 80)))
        | inr n ↦ rw n (ground arith)
      ]

      moved_color :
          (i : ℕ)
          → i < 2000
          → (if within (video_memory_address + 3840) 160 (video_memory_address + 2 * i + 1)
              then (if (video_memory_address + 2 * i + 1) % 2 == 0 then b' ' else 14)
              else if within video_memory_address 3840 (video_memory_address + 2 * i + 1)
              then m (video_memory_address + 2 * i + 1 + 160)
              else m (video_memory_address + 2 * i + 1))
            ≡ (if ltb i 1920 then t.cells (i + 80) else (b' ', 14)).1
      moved_color i lt = elim (Bool-cases (ltb i 1920)) [
        | inl y ↦
            let at : video_memory_address + 2 * i + 1 + 160
                ≡ video_memory_address + 2 * (i + 80) + 1 =
              omega arith in
            rw y (ground (arith, ap m at, s.color (i + 80)))
        | inr n ↦ rw n (ground arith)
      ]

  moved-OnScreen : OnScreen m (moved m)
  moved-OnScreen = record {
    outside = λ x e. moved-at m x bytes ∙ ground arith;
    bytes = λ x. ground (arith, moved-at m x bytes, bytes x, bytes (x + 160));
  }

-- A step has been shown: the terminal is on the screen, nothing else has changed, and the next
-- character stands on the screen.
pub record Printed (t : Terminal) (m : Memory) (r : Memory × ℕ) : Type 0 where
  pub shows : Shows t r.0 r.1
  pub on_screen : OnScreen m r.0
  pub inside : r.1 < 2000

OnScreen-trans : {m m' m'' : Memory} → OnScreen m m' → OnScreen m' m'' → OnScreen m m''
OnScreen-trans a b = record { outside = λ x e. b.outside x e ∙ a.outside x e; bytes = b.bytes }

scroll-Printed :
    (t : Terminal) (m : Memory) (offset : ℕ)
    → IsByteMemory m
    → Shows t m offset
    → Printed (scrolled t) m (scroll m offset)
unfolding scroll scrolled moved
scroll-Printed t m offset bytes s = elim (Bool-cases (ltb t.position 2000)) [
  | inl y ↦
      let stays : leb 2000 offset ≡ false = ground (arith, s.position) in
      let still = λ (b : Bool) (c : Bool).
        Printed
          (if b then t else record {
            cells = λ i. if ltb i 1920 then t.cells (i + 80) else (b' ', 14);
            position = 1920;
          })
          m (if c then (moved m, 1920) else (m, offset)) in
      subst (λ b. still b (leb 2000 offset)) (sym y)
        (subst (still true) (sym stays) (record {
          shows = s;
          on_screen = record { outside = λ x e. refl; bytes = bytes };
          inside = ground (arith, s.position);
        }))
  | inr n ↦
      let moves : leb 2000 offset ≡ true = ground (arith, s.position) in
      let still = λ (b : Bool) (c : Bool).
        Printed
          (if b then t else record {
            cells = λ i. if ltb i 1920 then t.cells (i + 80) else (b' ', 14);
            position = 1920;
          })
          m (if c then (moved m, 1920) else (m, offset)) in
      subst (λ b. still b (leb 2000 offset)) (sym n)
        (subst (still false) (sym moves) (record {
          shows = moved-Shows t m offset bytes s;
          on_screen = moved-OnScreen t m offset bytes;
          inside = omega arith;
        }))
]

Printed-after :
    {t : Terminal} {m m' : Memory} (r : Memory × ℕ) → OnScreen m m' → Printed t m' r → Printed t m r
Printed-after r a p = record {
  shows = p.shows;
  on_screen = OnScreen-trans a p.on_screen;
  inside = p.inside;
}

set-Shows :
    (t : Terminal) (m : Memory) (offset c : ℕ)
    → offset < 2000
    → Shows t m offset
    → Shows
        (record { cells = update t.cells t.position (c, 14); position = t.position + 1 })
        (set_character m offset c)
        (offset + 1)
set-Shows t m offset c lt s = record {
  position = omega (arith, s.position);
  character = λ i h.
      set_character-at m offset c (video_memory_address + 2 * i)
      ∙ ground (arith, s.position, s.character i h);
  color = λ i h.
      set_character-at m offset c (video_memory_address + 2 * i + 1)
      ∙ ground (arith, s.position, s.color i h);
}

set-OnScreen :
    (m : Memory) (offset c : ℕ)
    → offset < 2000
    → c < 256
    → IsByteMemory m
    → OnScreen m (set_character m offset c)
set-OnScreen m offset c lt small bytes = record {
  outside = λ x e. set_character-at m offset c x ∙ ground arith;
  bytes = λ x. ground (arith, set_character-at m offset c x, bytes x);
}

abbrev at_position : Terminal → ℕ → Terminal
at_position t p = record t { position = p }

Shows-position :
    (t : Terminal) (m : Memory) (offset p q : ℕ)
    → Shows t m offset
    → p ≡ q
    → Shows (at_position t p) m q
Shows-position t m offset p q s e = record {
  position = e;
  character = s.character;
  color = s.color;
}

-- Both sides take the same branch.
if_Printed :
    (b : Bool) (t u : Terminal) (m : Memory) (r q : Memory × ℕ)
    → (b ≡ true → Printed t m r)
    → (b ≡ false → Printed u m q)
    → Printed (if b then t else u) m (if b then r else q)
if_Printed true t u m r q then_case else_case = then_case refl
if_Printed false t u m r q then_case else_case = else_case refl

module _ (t : Terminal) (m : Memory) (c offset : ℕ) (bytes : IsByteMemory m) (small : c < 256)
    (lt : offset < 2000) (s : Shows t m offset) where
  moved_position : (p q : ℕ) → p ≡ q → Printed (scrolled (at_position t p)) m (scroll m q)
  moved_position p q e =
      scroll-Printed (at_position t p) m q bytes (Shows-position t m offset p q s e)

  typed : Terminal
  typed = record { cells = update t.cells t.position (c, 14); position = t.position + 1 }

  set-Printed : Printed (scrolled typed) m (scroll (set_character m offset c) (offset + 1))
  unfolding typed
  set-Printed =
      let screen = set-OnScreen m offset c lt small bytes in
      Printed-after (scroll (set_character m offset c) (offset + 1)) screen (
        scroll-Printed typed (set_character m offset c) (offset + 1) screen.bytes
          (set-Shows t m offset c lt s))

  print_character-Printed : Printed (type_character t c) m (print_character m c offset)
  unfolding print_character type_character typed
  print_character-Printed =
      let line = (t.position / 80 + 1) * 80 in
      let stop = (t.position / 8 + 1) * 8 in
      let next_line = offset + (80 - offset % 80) in
      let next_stop = offset + (8 - offset % 8) in
      let other = scroll (set_character m offset c) (offset + 1) in
      if_Printed (c == 10) (scrolled (at_position t line))
        (if c == 9 then scrolled (at_position t stop) else scrolled typed) m (scroll m next_line)
        (if c == 9 then scroll m next_stop else other)
        (λ y. moved_position line next_line (ground (arith, s.position)))
        (λ n.
          if_Printed (c == 9) (scrolled (at_position t stop)) (scrolled typed) m
            (scroll m next_stop) other
            (λ y. moved_position stop next_stop (ground (arith, s.position))) (λ n. set-Printed))

-- The characters of a text from the `i`-th on.
abbrev pub Holds : Memory → (a i : ℕ) → List ℕ → Type 0
Holds m a i [] = Unit
Holds m a i (c ∷ l) = (m (a + i) ≡ c) × Holds m a (i + 1) l

-- The text does not lie in the video memory.
abbrev pub Elsewhere : (start n : ℕ) → Type 0
Elsewhere start n = (start + n ≤ video_memory_address) ⊎ (video_memory_address + 4000 ≤ start)

Holds-OnScreen :
    (m m' : Memory) (a i : ℕ) (l : List ℕ)
    → OnScreen m m'
    → Elsewhere (a + i) (length l)
    → Holds m a i l
    → Holds m' a i l
Holds-OnScreen m m' a i [] o e h = tt
Holds-OnScreen m m' a i (c ∷ l) o e h =
    (o.outside (a + i) (ground arith) ∙ h.0, Holds-OnScreen m m' a (i + 1) l o (ground arith) h.1)

print_characters-Printed :
    (l : List ℕ) (t : Terminal) (m : Memory) (a i offset : ℕ)
    → IsByteMemory m
    → offset < 2000
    → Shows t m offset
    → Elsewhere (a + i) (length l)
    → Holds m a i l
    → Printed (type_text t l) m (print_characters (length l) m a i offset)
unfolding print_characters type_text
print_characters-Printed [] t m a i offset bytes lt s e h = record {
  shows = s;
  on_screen = record { outside = λ x k. refl; bytes = bytes };
  inside = lt;
}
print_characters-Printed (c ∷ l) t m a i offset bytes lt s e h =
    let step = print_character-Printed t m (m (a + i)) offset bytes (bytes (a + i)) lt s in
    let r = print_character m (m (a + i)) offset in
    subst
      (λ c.
        Printed (type_text (type_character t c) l) m
          (print_characters (length l) r.0 a (i + 1) r.1))
      h.0
      (Printed-after (print_characters (length l) r.0 a (i + 1) r.1) step.on_screen (
        print_characters-Printed l (type_character t (m (a + i))) r.0 a (i + 1) r.1
          step.on_screen.bytes step.inside step.shows (ground arith)
          (Holds-OnScreen m r.0 a (i + 1) l step.on_screen (ground arith) h.1)))

-- kConsolePrintString types the string on the terminal that the video memory shows: characters in
-- their cells, new lines, tab stops, and lines moved up behind the last one; the position that it
-- returns is on the screen, and it writes nowhere else. The string does not lie in the video memory.
pub console_print_string-Printed :
    (fuel : ℕ) (l : List ℕ) (t : Terminal) (m : Memory) (a offset : ℕ)
    → IsByteMemory m
    → offset < 2000
    → Shows t m offset
    → IsString m a (length l)
    → Holds m a 0 l
    → Elsewhere a (length l)
    → length l < fuel
    → (r : Memory × ℕ) × (console_print_string fuel m a offset ≡ some r)
      × Printed (type_text t l) m r
unfolding console_print_string
console_print_string-Printed fuel l t m a offset bytes lt s string h e more = (
  print_characters (length l) m a 0 offset,
  ap (print_measured m a offset) (str_len-IsString fuel m a (length l) string more),
  print_characters-Printed l t m a 0 offset bytes lt s (ground arith) h,
)
