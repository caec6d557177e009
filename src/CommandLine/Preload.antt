-- ===== src/CommandLine/Preload.antt =====
-- src/command_line.c: the flags that --preload gives.
use pipefs.Common.{
  ℕ, ◌≡◌, refl, ◌∙◌, Bool, true, false, ◌||◌, Bool-cases, List, [], ◌∷◌, arith, Bytes, bytes_beq,
  bytes_beq_iff, codes, suc, length, ap, inl, inr,
}
use pipefs.Flags.{has_bit, set_bit}
use pipefs.Strtok.{tokens}
use pipefs.Strtok.Pieces.{pieces, nonempty, tokens-eq-pieces}
use pipefs.CommandLine.{add_preload, add_preloads, parse_preload}

-- Whether a token is in a list.
abbrev pub has_token : Bytes → List Bytes → Bool
has_token token [] = false
has_token token (t ∷ tokens) = bytes_beq t token || has_token token tokens

-- The five bits of `g` are those of `f`, with bit 2 set if `stat` and bit 3 if `readdir`.
pub record Adds (f g : ℕ) (stat readdir : Bool) : Type 0 where
  pub bit_0 : has_bit 0 g ≡ has_bit 0 f
  pub bit_1 : has_bit 1 g ≡ has_bit 1 f
  pub bit_2 : has_bit 2 g ≡ (has_bit 2 f || stat)
  pub bit_3 : has_bit 3 g ≡ (has_bit 3 f || readdir)
  pub bit_4 : has_bit 4 g ≡ has_bit 4 f

set_bit_2-Adds : (flags : ℕ) → Adds flags (set_bit 2 flags) true false
set_bit_2-Adds flags = record {
  bit_0 = ground arith;
  bit_1 = ground arith;
  bit_2 = ground arith;
  bit_3 = ground arith;
  bit_4 = ground arith;
}

set_bit_3-Adds : (flags : ℕ) → Adds flags (set_bit 3 flags) false true
set_bit_3-Adds flags = record {
  bit_0 = ground arith;
  bit_1 = ground arith;
  bit_2 = ground arith;
  bit_3 = ground arith;
  bit_4 = ground arith;
}

add_preload-Adds :
    (flags : ℕ) (token : Bytes)
    → Adds flags
        (add_preload flags token)
        (bytes_beq token (codes "stat"))
        (bytes_beq token (codes "readdir"))
unfolding add_preload bytes_beq
add_preload-Adds flags token = elim (Bool-cases (bytes_beq token (codes "stat"))) [
  | inl stat ↦
      let other : bytes_beq token (codes "readdir") ≡ false =
        rw ((bytes_beq_iff token (codes "stat")).0 stat, bytes_beq) refl in
      rw (stat, other) (set_bit_2-Adds flags)
  | inr not_stat ↦ elim (Bool-cases (bytes_beq token (codes "readdir"))) [
    | inl readdir ↦ rw (not_stat, readdir) (set_bit_3-Adds flags)
    | inr neither ↦
        rw (not_stat, neither)
          (record {
            bit_0 = refl;
            bit_1 = refl;
            bit_2 = ground arith;
            bit_3 = ground arith;
            bit_4 = refl;
          })
  ]
]

add_preloads-Adds :
    (flags : ℕ) (tokens : List Bytes)
    → Adds flags
        (add_preloads flags tokens)
        (has_token (codes "stat") tokens)
        (has_token (codes "readdir") tokens)
unfolding add_preloads
add_preloads-Adds flags [] = record {
  bit_0 = refl;
  bit_1 = refl;
  bit_2 = ground arith;
  bit_3 = ground arith;
  bit_4 = refl;
}
add_preloads-Adds flags (token ∷ tokens) =
    let first = add_preload-Adds flags token in
    let more = add_preloads-Adds (add_preload flags token) tokens in
    record {
      bit_0 = more.bit_0 ∙ first.bit_0;
      bit_1 = more.bit_1 ∙ first.bit_1;
      bit_2 = ground (arith, more.bit_2, first.bit_2);
      bit_3 = ground (arith, more.bit_3, first.bit_3);
      bit_4 = more.bit_4 ∙ first.bit_4;
    }

-- No word is among the empty parts.
has_token-nonempty :
    (c : ℕ) (word : Bytes) (tokens : List Bytes)
    → has_token (c ∷ word) (nonempty tokens) ≡ has_token (c ∷ word) tokens
unfolding nonempty bytes_beq
has_token-nonempty c word [] = refl
has_token-nonempty c word ([] ∷ tokens) = has_token-nonempty c word tokens
has_token-nonempty c word ((d ∷ token) ∷ tokens) =
    ap (λ b. bytes_beq (d ∷ token) (c ∷ word) || b) (has_token-nonempty c word tokens)

-- The argument of --preload sets the flag of each of `stat` and `readdir` that is among its parts
-- between commas, and leaves the other three bits and those that were set before.
pub parse_preload-Adds :
    (value : Bytes) (flags : ℕ)
    → Adds flags
        (parse_preload value flags)
        (has_token (codes "stat") (pieces 44 value))
        (has_token (codes "readdir") (pieces 44 value))
unfolding parse_preload
parse_preload-Adds value flags =
    rw
      (
        ← has_token-nonempty 115 (codes "tat") (pieces 44 value),
        ← has_token-nonempty 114 (codes "eaddir") (pieces 44 value),
        ← tokens-eq-pieces 44 (suc (length value)) value (omega arith),
      )
      (add_preloads-Adds flags (tokens 44 (suc (length value)) value))
