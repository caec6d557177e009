-- ===== src/Log/Lines.antt =====
-- log.c: the lines of the log file.
use mathlib.Core.List.{append-nil, map}
use pipefs.Common.{
  ℕ, suc, ◌-◌, ◌≡◌, refl, ap, ◌∙◌, inl, inr, false, Bool-cases, some, List, [], ◌∷◌, ◌++◌, All,
  arith, ◌==◌, length, take, Bytes, codes,
}
use pipefs.Log.{print_lines, log_msg, max_log_size}
use pipefs.Strtok.Pieces.{prepend, pieces, nonempty, tokens-eq-pieces}

-- No byte is the delimiter.
abbrev pub Lacks : ℕ → Bytes → Type 0
Lacks d bytes = All (λ c. (c == d) ≡ false) bytes

pieces-append :
    (d : ℕ) (before after piece : Bytes) (rest : List Bytes)
    → Lacks d before
    → pieces d after ≡ piece ∷ rest
    → pieces d (before ++ after) ≡ (before ++ piece) ∷ rest
unfolding pieces
pieces-append d [] after piece rest lacks e = e
pieces-append d (c ∷ before) after piece rest lacks e =
    rw (lacks.0, pieces-append d before after piece rest lacks.1 e) refl

prepend-Lacks :
    (d c : ℕ) (l : List Bytes) → (c == d) ≡ false → All (Lacks d) l → All (Lacks d) (prepend c l)
prepend-Lacks d c [] other h = ((other, tt), tt)
prepend-Lacks d c (piece ∷ rest) other h = ((other, h.0), h.1)

-- No piece between delimiters has one.
pieces-Lacks : (d : ℕ) (bytes : Bytes) → All (Lacks d) (pieces d bytes)
unfolding pieces
pieces-Lacks d [] = (tt, tt)
pieces-Lacks d (c ∷ bytes) = elim (Bool-cases (c == d)) [
  | inl ends ↦ rw ends (tt, pieces-Lacks d bytes)
  | inr goes_on ↦ rw goes_on (prepend-Lacks d c (pieces d bytes) goes_on (pieces-Lacks d bytes))
]

nonempty-Lacks : (d : ℕ) (l : List Bytes) → All (Lacks d) l → All (Lacks d) (nonempty l)
unfolding nonempty
nonempty-Lacks d [] h = tt
nonempty-Lacks d ([] ∷ l) h = nonempty-Lacks d l h.1
nonempty-Lacks d ((c ∷ piece) ∷ l) h = (h.0, nonempty-Lacks d l h.1)

-- A line of the log file.
abbrev pub line : Bytes → Bytes → Bytes → Bytes
line time thread token = time ++ (codes " [0x" ++ (thread ++ (codes "] " ++ token)))

pieces-print_lines :
    (time thread : Bytes) (l : List Bytes)
    → Lacks 10 time
    → Lacks 10 thread
    → All (Lacks 10) l
    → pieces 10 (print_lines time thread l) ≡ map (line time thread) l ++ ([] ∷ [])
unfolding pieces print_lines
pieces-print_lines time thread [] t h all = refl
pieces-print_lines time thread (token ∷ l) t h all =
    let more = (10 ∷ []) ++ print_lines time thread l in
    let ends : pieces 10 (token ++ more) ≡ token ∷ (map (line time thread) l ++ ([] ∷ [])) =
      pieces-append 10 token more [] (pieces 10 (print_lines time thread l)) all.0 refl
      ∙ rw (append-nil token, pieces-print_lines time thread l t h all.1) refl in
    let from_thread = thread ++ (codes "] " ++ (token ++ more)) in
    pieces-append 10 time (codes " [0x" ++ from_thread) _ _ t (
      pieces-append 10 (codes " [0x") from_thread _ _ (refl, (refl, (refl, (refl, tt))))
        (pieces-append 10 thread (codes "] " ++ (token ++ more)) _ _ h
          (pieces-append 10 (codes "] ") (token ++ more) _ _ (refl, (refl, tt)) ends)))

-- `log_msg` adds whole lines to the log file: split at the ends of lines, what it adds is one line for
-- each line of the message that is not empty, in order, as far as they lie in the message's first 9999
-- bytes, with the time, the thread and the text of the line in each, and nothing after the last end.
-- The time and the thread are texts of one line.
pub log_msg_lem :
    (time thread message written : Bytes)
    → Lacks 10 time
    → Lacks 10 thread
    → (added : Bytes) × (log_msg time thread message (some written) ≡ some (written ++ added))
      × (pieces 10 added
          ≡ map (line time thread) (nonempty (pieces 10 (take (max_log_size - 1) message)))
            ++ ([] ∷ []))
unfolding log_msg
log_msg_lem time thread message written t h =
    let buffer = take (max_log_size - 1) message in
    let seen = nonempty (pieces 10 buffer) in
    (
      print_lines time thread seen,
      ap (λ l. some (written ++ print_lines time thread l))
          (tokens-eq-pieces 10 (suc (length buffer)) buffer (omega arith)),
      pieces-print_lines time thread seen t h
          (nonempty-Lacks 10 (pieces 10 buffer) (pieces-Lacks 10 buffer)),
    )
