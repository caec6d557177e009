-- ===== src/UnitTest.antt =====
-- UnitTest/: the unit tests of the repository, as lists of their checks, run on the definitions.
pub mod UtilTest
pub mod CacheTest
pub mod CommandLineTest
pub mod CachesTest
pub mod ReadLoopTest
use pipefs.Common.{Bool, true, false, ◌&&◌, Option, none, some, List, [], ◌∷◌, Bytes, bytes_beq}

abbrev pub all_hold : List Bool → Bool
all_hold [] = true
all_hold (check ∷ checks) = check && all_hold checks

-- CHECK_STRING; `none` is NULL.
abbrev pub check_string : Option Bytes → Bytes → Bool
check_string none expected = false
check_string (some chars) expected = bytes_beq chars expected

abbrev pub is_null : Option Bytes → Bool
is_null none = true
is_null (some _) = false
