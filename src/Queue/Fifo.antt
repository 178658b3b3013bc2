-- ===== src/Queue/Fifo.antt =====
-- The contract of Queue.c: a FIFO of at most `cap` blocks, oldest first.
use deodeok_os.Base.{
  ℕ, Bool, true, false, List, [], ◌∷◌, ◌++◌, ◌==◌, if◌then◌else◌, length, Option, none, some,
}

-- A block of bytes.
abbrev pub Block : Type 0
Block = List ℕ

unfoldable pub put : (cap : ℕ) → List Block → Block → Bool × List Block
put cap q b = if length q == cap then (false, q) else (true, q ++ (b ∷ []))

-- What was taken, and what is left.
unfoldable pub get : List Block → Option Block × List Block
get [] = (none, [])
get (b ∷ q) = (some b, q)
