-- ===== src/Flags.antt =====
-- src/data.h: the flags, as a number with one bit for each.
use pipefs.Common.{ℕ, ◌/◌, ◌%◌, ◌^◌, ◌+◌, Bool, true, ◌&&◌, List, [], ◌∷◌, ◌==◌, if◌then◌else◌}

abbrev pub has_bit : ℕ → ℕ → Bool
has_bit n flags = (flags / 2 ^ n) % 2 == 1

-- A flag is the list of its bits.
abbrev pub Flag : Type 0
Flag = List ℕ

-- 0x1
abbrev pub seekable : Flag
seekable = 0 ∷ []

-- 0x3
abbrev pub cache : Flag
cache = 0 ∷ 1 ∷ []

-- 0x4
abbrev pub preload_stat : Flag
preload_stat = 2 ∷ []

-- 0x8
abbrev pub preload_readdir : Flag
preload_readdir = 3 ∷ []

-- 0x14
abbrev pub wait_on_stat : Flag
wait_on_stat = 2 ∷ 4 ∷ []

-- IS_FLAG_SET
abbrev pub is_flag_set : ℕ → Flag → Bool
is_flag_set flags [] = true
is_flag_set flags (n ∷ bits) = has_bit n flags && is_flag_set flags bits

abbrev pub set_bit : ℕ → ℕ → ℕ
set_bit n flags = if has_bit n flags then flags else flags + 2 ^ n

-- ADD_FLAG
abbrev pub add_flag : ℕ → Flag → ℕ
add_flag flags [] = flags
add_flag flags (n ∷ bits) = add_flag (set_bit n flags) bits
