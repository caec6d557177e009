-- ===== src/Strtok/Pieces.antt =====
-- The loop over `strtok_r` sees the pieces between delimiters that are not empty.
use pipefs.Common.{
  ℕ, zero, suc, ◌≤◌, ◌<◌, ◌≡◌, ◌⊎◌, refl, sym, ap, ◌∙◌, inl, inr, Bool-cases, List-cases, false,
  none, some, List, [], ◌∷◌, arith, ◌==◌, if◌then◌else◌, length, Bytes,
}
use pipefs.Strtok.{skip, span, strtok_r, tokens}

-- A byte in front of the first piece.
abbrev pub prepend : ℕ → List Bytes → List Bytes
prepend c [] = (c ∷ []) ∷ []
prepend c (piece ∷ rest) = (c ∷ piece) ∷ rest

-- The pieces between the delimiters, the empty ones included.
unfoldable pub pieces : ℕ → Bytes → List Bytes
pieces delimiter [] = [] ∷ []
pieces delimiter (c ∷ bytes) =
    let more = pieces delimiter bytes in if c == delimiter then [] ∷ more else prepend c more

unfoldable pub nonempty : List Bytes → List Bytes
nonempty [] = []
nonempty ([] ∷ rest) = nonempty rest
nonempty ((c ∷ piece) ∷ rest) = (c ∷ piece) ∷ nonempty rest

skip-pieces :
    (d : ℕ) (bytes : Bytes) → nonempty (pieces d (skip d bytes)) ≡ nonempty (pieces d bytes)
unfolding skip pieces nonempty
skip-pieces d [] = refl
skip-pieces d (c ∷ bytes) = ground (arith, skip-pieces d bytes)

-- After `skip` there is nothing, or a byte that is no delimiter.
skip-head :
    (d : ℕ) (bytes : Bytes) (c : ℕ) (rest : Bytes)
    → skip d bytes ≡ c ∷ rest
    → ((c == d) ≡ false) × (length rest < length bytes)
unfolding skip
skip-head d [] c rest e = absurd (ground arith)
skip-head d (b ∷ bytes) c rest e = ground (arith, skip-head d bytes c rest)

-- The token is the first piece, and the others are those of what is left, if a delimiter ends it.
span-cases :
    (d : ℕ) (bytes : Bytes)
    → (pieces d bytes ≡ (span d bytes).0 ∷ pieces d (span d bytes).1)
      ⊎ ((pieces d bytes ≡ (span d bytes).0 ∷ []) × ((span d bytes).1 ≡ []))
unfolding span pieces
span-cases d [] = inr (refl, refl)
span-cases d (c ∷ bytes) = elim (Bool-cases (c == d)) [
  | inl ends ↦ inl (rw ends refl)
  | inr goes_on ↦ elim (span-cases d bytes) [
    | inl more ↦ inl (rw goes_on (rw more refl))
    | inr (more, last) ↦ inr (rw goes_on (rw more refl), rw goes_on last)
  ]
]

nonempty-end : (d : ℕ) (token : Bytes) → nonempty (token ∷ pieces d []) ≡ nonempty (token ∷ [])
unfolding nonempty pieces
nonempty-end d [] = refl
nonempty-end d (c ∷ token) = refl

span-pieces :
    (d : ℕ) (bytes : Bytes)
    → nonempty (pieces d bytes) ≡ nonempty ((span d bytes).0 ∷ pieces d (span d bytes).1)
span-pieces d bytes = elim (span-cases d bytes) [
  | inl more ↦ ap nonempty more
  | inr (more, last) ↦ rw (more, last) (sym (nonempty-end d (span d bytes).0))
]

span-length : (d : ℕ) (bytes : Bytes) → length (span d bytes).1 ≤ length bytes
unfolding span
span-length d [] = omega arith
span-length d (c ∷ bytes) = ground (arith, span-length d bytes)

-- What `strtok_r` finds after the delimiters at the front.
strtok_r-found :
    (d : ℕ) (bytes : Bytes) (c : ℕ) (rest : Bytes)
    → skip d bytes ≡ c ∷ rest
    → strtok_r d bytes ≡ some (c ∷ (span d rest).0, (span d rest).1)
unfolding strtok_r span
strtok_r-found d bytes c rest found =
    rw (found, strtok_r) (rw ((skip-head d bytes c rest found).0) refl)

strtok_r-none : (d : ℕ) (bytes : Bytes) → skip d bytes ≡ [] → strtok_r d bytes ≡ none
unfolding strtok_r
strtok_r-none d bytes all = rw (all, strtok_r) refl

pieces-found :
    (d : ℕ) (bytes : Bytes) (c : ℕ) (rest : Bytes)
    → skip d bytes ≡ c ∷ rest
    → nonempty (pieces d bytes) ≡ (c ∷ (span d rest).0) ∷ nonempty (pieces d (span d rest).1)
pieces-found d bytes c rest found =
    sym (skip-pieces d bytes)
    ∙ ap (λ b. nonempty (pieces d b)) found
    ∙ span-pieces d (c ∷ rest)
    ∙ (unfold nonempty span in rw ((skip-head d bytes c rest found).0) refl)

pieces-none : (d : ℕ) (bytes : Bytes) → skip d bytes ≡ [] → nonempty (pieces d bytes) ≡ []
pieces-none d bytes all =
    sym (skip-pieces d bytes) ∙ rw all (unfold nonempty in unfold pieces in refl)

-- The loop over `strtok_r` sees the pieces between the delimiters that are not empty, in order, if it
-- has as many rounds as there are bytes, and one.
pub tokens-eq-pieces :
    (d n : ℕ) (bytes : Bytes) → length bytes < n → tokens d n bytes ≡ nonempty (pieces d bytes)
unfolding tokens
tokens-eq-pieces d zero bytes enough = absurd (omega arith)
tokens-eq-pieces d (suc n) bytes enough = elim (List-cases (skip d bytes)) [
  | inl all ↦ rw (strtok_r-none d bytes all, tokens) (sym (pieces-none d bytes all))
  | inr (c, rest, found) ↦
      let left = (span d rest).1 in
      let fits : length left < n =
        omega (arith, span-length d rest, (skip-head d bytes c rest found).1, enough) in
      rw (strtok_r-found d bytes c rest found, tokens, pieces-found d bytes c rest found)
        (ap (λ l. (c ∷ (span d rest).0) ∷ l) (tokens-eq-pieces d n left fits))
]
