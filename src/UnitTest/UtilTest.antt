-- ===== src/UnitTest/UtilTest.antt =====
-- UnitTest/utilTest.cpp. The file that the fixture makes is the one on which `stat` succeeds.
use pipefs.Common.{
  ℕ, ◌-◌, ◌≡◌, refl, Bool, true, false, not, Option, none, some, List, [], ◌∷◌, ◌==◌, length, Bytes,
  codes, bytes_beq, if◌then◌else◌,
}
use pipefs.Util.{is_suffix, translate_suffix, check_source, translate_file}
use pipefs.UnitTest.{all_hold, check_string, is_null}

abbrev string : Bytes
string = codes "this is first"

abbrev is_true : Option ℕ → Bool
is_true none = false
is_true (some _) = true

abbrev has_length : Option ℕ → ℕ → Bool
has_length none n = false
has_length (some prefix_length) n = prefix_length == n

abbrev is_suffix_test : List Bool
is_suffix_test =
    is_true (is_suffix string (codes "first"))
    ∷ has_length (is_suffix string (codes "first")) (length string - length (codes "first"))
    ∷ not (is_true (is_suffix string (codes "fir")))
    ∷ not (is_true (is_suffix string (codes "this is firstt")))
    ∷ []

is_suffix_test_passes : all_hold is_suffix_test ≡ true
unfolding is_suffix bytes_beq
is_suffix_test_passes = refl

abbrev translate_suffix_test : List Bool
translate_suffix_test =
    check_string (translate_suffix string (codes "first") (codes "second")) (codes "this is second")
    ∷ is_null (translate_suffix string (codes "fir") (codes "second"))
    ∷ []

translate_suffix_test_passes : all_hold translate_suffix_test ≡ true
unfolding translate_suffix is_suffix bytes_beq
translate_suffix_test_passes = refl

abbrev filename : Bytes
filename = codes "existing_file.xxx"

abbrev stat : Bytes → Option ℕ
stat path = if bytes_beq path filename then some 0o100644 else none

abbrev translate_file_test : List Bool
translate_file_test =
    check_string (translate_file stat (codes "existing_file.txt") (codes "xxx") (codes "txt"))
      filename
    ∷ is_null (translate_file stat (codes "not_existing_file.txt") (codes "xxx") (codes "txt"))
    ∷ is_null (translate_file stat (codes "existing_file.txt") (codes "aaa") (codes "txt"))
    ∷ is_null (translate_file stat (codes "existing_file.txt") (codes "xxx") (codes "aaa"))
    ∷ []

translate_file_test_passes : all_hold translate_file_test ≡ true
unfolding translate_file check_source translate_suffix is_suffix bytes_beq
translate_file_test_passes = refl
