-- ===== src/Util.antt =====
-- src/util.c: suffixes of file names and their translation. A C string is the list of its bytes;
-- `stat` is a parameter, the mode of a file that it succeeds on.
pub mod Suffix
pub mod Tests
use mathlib.Core.Option
use pipefs.Common.{
  ℕ, ◌+◌, ◌-◌, ◌/◌, ◌%◌, ◌^◌, Bool, not, Option, none, some, ◌++◌, ltb, ◌==◌, if◌then◌else◌, length,
  take, drop, Bytes, bytes_beq,
}

-- The subtraction counts only where the test of the lengths has passed, so it does not wrap. The length of
-- the prefix if `string` ends in `suffix`; `none` is the result 0.
unfoldable pub is_suffix : Bytes → Bytes → Option ℕ
is_suffix string suffix =
    let string_len = length string in
    let suffix_len = length suffix in
    let local_prefix_len = string_len - suffix_len in
    if ltb string_len suffix_len
    then none
    else if not (bytes_beq (drop local_prefix_len string) suffix)
    then none
    else some local_prefix_len

-- `none` is NULL. The first `prefix_length` bytes are copied, and `to` behind them.
unfoldable pub translate_suffix : Bytes → Bytes → Bytes → Option Bytes
translate_suffix string from to =
    Option.map (λ prefix_length. take prefix_length string ++ to) (is_suffix string from)

-- The size that `translate_suffix` gives to `malloc`.
unfoldable pub allocated : ℕ → Bytes → ℕ
allocated prefix_length to = prefix_length + length to + 1

-- `mode & S_IFDIR`, the bit of the value 0040000
abbrev pub has_directory_bit : ℕ → Bool
has_directory_bit mode = (mode / 2 ^ 14) % 2 == 1

-- What `stat` says of the translated path decides.
unfoldable pub check_source : Bytes → Option ℕ → Option Bytes
check_source source_path none = none
check_source source_path (some mode) = if has_directory_bit mode then none else some source_path

module _ (stat : Bytes → Option ℕ) where
  abbrev stat_source : Option Bytes → Option Bytes
  stat_source none = none
  stat_source (some source_path) = check_source source_path (stat source_path)

  unfoldable pub translate_file : Bytes → Bytes → Bytes → Option Bytes
  translate_file target_path suffix_source suffix_target =
      stat_source (translate_suffix target_path suffix_target suffix_source)
