-- ===== src/Console/Terminal.antt =====
-- A terminal of 25 lines of 80 cells, the contract of kConsolePrintString.
use deodeok_os.Base.{ℕ, ◌+◌, ◌*◌, ◌/◌, ltb, ◌==◌, if◌then◌else◌, List, [], ◌∷◌}
use deodeok_os.Base.Cells.{update}

-- Each cell has a character and a colour.
pub record Terminal : Type 0 where
  pub cells : ℕ → ℕ × ℕ
  pub position : ℕ

abbrev pub colour : ℕ
colour = 14

-- A position behind the last cell moves every line up, the first one out, and clears the last.
unfoldable pub scrolled : Terminal → Terminal
scrolled t = if ltb t.position 2000 then t else record {
  cells = λ i. if ltb i 1920 then t.cells (i + 80) else (b' ', colour);
  position = 1920;
}

-- A new line, the next tab stop of 8 cells, or a character in its cell.
unfoldable pub type_character : Terminal → ℕ → Terminal
unfolding scrolled
type_character t c =
    if c == 10
    then scrolled (record t { position = (t.position / 80 + 1) * 80 })
    else if c == 9
    then scrolled (record t { position = (t.position / 8 + 1) * 8 })
    else scrolled
        (record { cells = update t.cells t.position (c, colour); position = t.position + 1 })

unfoldable pub type_text : Terminal → List ℕ → Terminal
type_text t [] = t
type_text t (c ∷ l) = type_text (type_character t c) l
