-- ===== src/Util/Tests.antt =====
-- util.c: runs on concrete names, and the theorems at concrete inputs.
use pipefs.Common.{
  ℕ, ◌≡◌, refl, ◌↔◌, Option, none, some, ◌++◌, Bytes, codes, bytes_beq, if◌then◌else◌,
}
use pipefs.Util.{is_suffix, translate_suffix, check_source, translate_file}
use pipefs.Util.Suffix.{translate_suffix_iff}

abbrev disk : Bytes → Option ℕ
disk path =
    if bytes_beq path (codes "/a.zip")
    then some 0o100644
    else if bytes_beq path (codes "/d.zip")
    then some 0o040755
    else none

translated :
    translate_file disk (codes "/a.txt") (codes ".zip") (codes ".txt") ≡ some (codes "/a.zip")
unfolding translate_file check_source translate_suffix is_suffix bytes_beq
translated = refl

not_a_directory : translate_file disk (codes "/d.txt") (codes ".zip") (codes ".txt") ≡ none
unfolding translate_file check_source translate_suffix is_suffix bytes_beq
not_a_directory = refl

too_short : is_suffix (codes "p") (codes ".txt") ≡ none
unfolding is_suffix
too_short = refl

zip_to_txt : translate_suffix (codes "a.zip") (codes ".zip") (codes ".txt") ≡ some (codes "a.txt")
unfolding translate_suffix is_suffix bytes_beq
zip_to_txt = refl

translate_suffix_iff_example :
    (translate_suffix (codes "a.zip") (codes ".zip") (codes ".txt") ≡ some (codes "a.txt")) ↔ (
      (pre : Bytes) × (codes "a.zip" ≡ pre ++ codes ".zip") × (codes "a.txt" ≡ pre ++ codes ".txt"))
translate_suffix_iff_example =
    translate_suffix_iff (codes "a.zip") (codes ".zip") (codes ".txt") (codes "a.txt")
