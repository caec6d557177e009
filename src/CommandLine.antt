-- ===== src/CommandLine.antt =====
-- src/command_line.c: the settings that the options give. What `getopt_long` finds is a parameter:
-- the options in order, with their arguments.
pub mod Options
pub mod Sizes
pub mod Preload
pub mod Tests
use pipefs.Common.{
  ℕ, suc, ◌+◌, ◌-◌, ◌*◌, ◌%◌, ◌^◌, Bool, true, false, ◌&&◌, ◌||◌, Option, none, some, List, [], ◌∷◌,
  ◌++◌, leb, ltb, ◌==◌, if◌then◌else◌, Bytes, bytes_beq, codes, length,
}
use pipefs.Strtok.{tokens}
use pipefs.Flags
use pipefs.Flags.{add_flag}

-- `pipefs_data`, as far as the options set it; `none` is NULL.
pub record Arguments : Type 0 where
  pub pidfile : Option Bytes
  pub rootdir : Option Bytes
  pub source_suffix : Option Bytes
  pub target_suffix : Option Bytes
  pub command : Option Bytes
  pub flags : ℕ
  pub cache_limit : ℕ
  pub process_limit : ℕ

-- The loop over `preload_infos`.
unfoldable pub add_preload : ℕ → Bytes → ℕ
add_preload flags token =
    if bytes_beq token (codes "stat")
    then add_flag flags Flags.preload_stat
    else if bytes_beq token (codes "readdir")
    then add_flag flags Flags.preload_readdir
    else flags

unfoldable pub add_preloads : ℕ → List Bytes → ℕ
unfolding add_preload
add_preloads flags [] = flags
add_preloads flags (token ∷ tokens) = add_preloads (add_preload flags token) tokens

-- An unknown token is a warning. There is a round for every byte and one for the end.
unfoldable pub parse_preload : Bytes → ℕ → ℕ
unfolding tokens add_preloads
parse_preload value flags = add_preloads flags (tokens 44 (suc (length value)) value)

abbrev pub is_digit : ℕ → Bool
is_digit c = leb 48 c && leb c 57

abbrev pub is_space : ℕ → Bool
is_space c = c == 32 || (leb 9 c && leb c 13)

-- `%u`, after the space and the sign: the value of the digits, and what is left. `none` is no digit.
unfoldable pub scan_digits : ℕ → Bytes → ℕ × Bytes
scan_digits value [] = (value, [])
scan_digits value (c ∷ input) =
    let more = scan_digits (10 * value + (c - 48)) input in
    if is_digit c then more else (value, c ∷ input)

unfoldable pub skip_spaces : Bytes → Bytes
skip_spaces [] = []
skip_spaces (c ∷ input) = let rest = skip_spaces input in if is_space c then rest else c ∷ input

abbrev starts_with_digit : Bytes → Bool
starts_with_digit [] = false
starts_with_digit (c ∷ _) = is_digit c

-- 43 is `+` and 45 `-`, which negates modulo 2 ^ 32.
unfoldable pub scan_unsigned : Bytes → Option (ℕ × Bytes)
unfolding scan_digits skip_spaces
scan_unsigned input = elim (skip_spaces input) [
  | [] ↦ none
  | c ∷ rest ↦
      let minus = c == 45 in
      let digits = if minus || c == 43 then rest else c ∷ rest in
      if starts_with_digit digits
      then (let (value, left) = scan_digits 0 digits in
          let word = value % 2 ^ 32 in
          some (if minus then (2 ^ 32 - word) % 2 ^ 32 else word, left))
      else none
]

-- A character of the set in `%[bBkKmMgG]`.
abbrev pub is_unit : ℕ → Bool
is_unit c = c == 98 || c == 66 || c == 107 || c == 75 || c == 109 || c == 77 || c == 103 || c == 71

-- `exits`: the program ends with 1. `overflows`: two or more units and the null do not fit `type`.
pub data Size : Type 0 where
  exits overflows : Size
  size : ℕ → Size

-- What the fallthrough of the cases comes to; the product is a `size_t`.
unfoldable pub multiplier : ℕ → ℕ
multiplier unit =
    if unit == 103
    then 1024 * (1024 * 1024)
    else if unit == 109
    then 1024 * 1024
    else if unit == 107
    then 1024
    else if unit == 71
    then 1000 * (1000 * 1000)
    else if unit == 77
    then 1000 * 1000
    else if unit == 75
    then 1000
    else 1

-- The unit: `b` if there is none.
abbrev sized : ℕ → Bytes → Size
sized value [] = size value
sized value (c ∷ []) = size (if is_unit c then (value * multiplier c) % 2 ^ 64 else value)
sized value (c ∷ d ∷ _) =
    if is_unit c
    then if is_unit d then overflows else size ((value * multiplier c) % 2 ^ 64)
    else size value

unfoldable pub parse_size : Bytes → Size
unfolding scan_unsigned multiplier
parse_size input = elim (scan_unsigned input) [ none ↦ exits | some r ↦ sized r.0 r.1 ]
