-- ===== src/Strtok.antt =====
-- The loop over `strtok_r` that log.c has over the lines of a message, and command_line.c over the
-- parts of an argument.
pub mod Pieces
use pipefs.Common.{ℕ, zero, suc, Option, none, some, List, [], ◌∷◌, ◌==◌, if◌then◌else◌, Bytes}

-- The bytes after the delimiters at the front.
unfoldable pub skip : ℕ → Bytes → Bytes
skip delimiter [] = []
skip delimiter (c ∷ bytes) =
    let rest = skip delimiter bytes in if c == delimiter then rest else c ∷ bytes

-- The bytes up to the first delimiter, and those after it.
unfoldable pub span : ℕ → Bytes → Bytes × Bytes
span delimiter [] = ([], [])
span delimiter (c ∷ bytes) =
    let (token, rest) = span delimiter bytes in
    if c == delimiter then ([], bytes) else (c ∷ token, rest)

-- `strtok_r`: the next token and what `save_ptr` points to after it.
unfoldable pub strtok_r : ℕ → Bytes → Option (Bytes × Bytes)
unfolding skip span
strtok_r delimiter bytes = elim (skip delimiter bytes) [
  | [] ↦ none
  | c ∷ rest ↦ some (span delimiter (c ∷ rest))
]

-- The tokens that the loop sees, with as many rounds as the first argument allows.
unfoldable pub tokens : ℕ → ℕ → Bytes → List Bytes
unfolding strtok_r
tokens delimiter zero bytes = []
tokens delimiter (suc n) bytes = elim (strtok_r delimiter bytes) [
  | none ↦ []
  | some found ↦ found.0 ∷ tokens delimiter n found.1
]
