-- ===== src/UnitTest/CommandLineTest.antt =====
-- UnitTest/command_line_test.cpp. For `getopt_long` stand the options that it finds in each argument
-- list, and the place of the first argument behind them.
use pipefs.Common.{
  ℕ, ◌*◌, ◌≡◌, refl, Bool, true, false, not, ◌&&◌, List, [], ◌∷◌, ◌++◌, ◌==◌, Bytes, codes,
  bytes_beq,
}
use pipefs.Flags
use pipefs.Flags.{Flag, is_flag_set}
use pipefs.Strtok.{tokens}
use pipefs.CommandLine.{
  Arguments, exits, overflows, size, parse_size, parse_preload, skip_spaces, scan_digits,
}
use pipefs.CommandLine.Options
use pipefs.CommandLine.Options.{
  Switch, command, cache_limit, log_file, preload, root_dir, source_suffix, target_suffix,
  process_limit, Parsed, parsed, parse_switches, no_arguments, fuse_arguments,
}
use pipefs.UnitTest.{all_hold, check_string}

abbrev is_size : Bytes → ℕ → Bool
is_size input n = elim (parse_size input) [ exits ↦ false | overflows ↦ false | size m ↦ m == n ]

abbrev parse_size_test : List Bool
parse_size_test =
    is_size (codes "2354") 2354
    ∷ is_size (codes "3457b") 3457
    ∷ is_size (codes "378314B") 378314
    ∷ is_size (codes "8222k") (8222 * 1024)
    ∷ is_size (codes "6210K") (6210 * 1000)
    ∷ is_size (codes "1265m") (1265 * (1024 * 1024))
    ∷ is_size (codes "384M") (384 * (1000 * 1000))
    ∷ is_size (codes "1g") (1024 * (1024 * 1024))
    ∷ is_size (codes "2G") (2 * (1000 * (1000 * 1000)))
    ∷ []

parse_size_test_passes : all_hold parse_size_test ≡ true
unfolding parse_size skip_spaces scan_digits
parse_size_test_passes = refl

abbrev gives : List Switch → (Arguments → Bool) → Bool
gives switches checks = elim (parse_switches switches no_arguments) [
  | parsed data_ ↦ checks data_
  | _ ↦ false
]

abbrev same : List Bytes → List Bytes → Bool
same [] [] = true
same (x ∷ xs) (y ∷ ys) = bytes_beq x y && same xs ys
same [] (_ ∷ _) = false
same (_ ∷ _) [] = false

abbrev has_array : List Bytes → ℕ → List Bytes → Bool
has_array args optind expected = same (fuse_arguments args optind) expected

abbrev pipefs_ : Bytes
pipefs_ = codes "pipefs"

abbrev some_command : Bytes
some_command = codes "some command"

abbrev some_suffix : Bytes
some_suffix = codes "some suffix"

abbrev some_dir : Bytes
some_dir = codes "some dir"

abbrev string_options_test : List Bool
string_options_test =
    has_array (pipefs_ ∷ codes "first" ∷ codes "second" ∷ codes "third" ∷ []) 1
      (pipefs_ ∷ codes "first" ∷ codes "second" ∷ codes "third" ∷ [])
    ∷ has_array (pipefs_ ∷ codes "--command" ∷ some_command ∷ []) 3 (pipefs_ ∷ [])
    ∷ gives (command some_command ∷ []) (λ data_. check_string data_.command some_command)
    ∷ has_array (pipefs_ ∷ codes "--source-suffix" ∷ some_suffix ∷ []) 3 (pipefs_ ∷ [])
    ∷ gives (source_suffix some_suffix ∷ []) (λ data_. check_string data_.source_suffix some_suffix)
    ∷ has_array (pipefs_ ∷ codes "--target-suffix" ∷ some_suffix ∷ []) 3 (pipefs_ ∷ [])
    ∷ gives (target_suffix some_suffix ∷ []) (λ data_. check_string data_.target_suffix some_suffix)
    ∷ has_array (pipefs_ ∷ codes "--root-dir" ∷ some_dir ∷ []) 3 (pipefs_ ∷ [])
    ∷ gives (root_dir some_dir ∷ []) (λ data_. check_string data_.rootdir some_dir)
    ∷ has_array (pipefs_ ∷ codes "--log-file" ∷ codes "log.txt" ∷ []) 3 (pipefs_ ∷ [])
    ∷ gives (log_file (codes "log.txt") true ∷ []) (λ _. true)
    ∷ []

string_options_test_passes : all_hold string_options_test ≡ true
unfolding parse_switches fuse_arguments bytes_beq
string_options_test_passes = refl

abbrev is : Bool → Bool → Bool
is a true = a
is a false = not a

-- Which of two flags are set.
abbrev sets : Flag → Flag → List Switch → Bool → Bool → Bool
sets first second switches a b =
    gives switches
      (λ data_. is (is_flag_set data_.flags first) a && is (is_flag_set data_.flags second) b)

abbrev preloads : List Switch → Bool → Bool → Bool
preloads = sets Flags.preload_stat Flags.preload_readdir

abbrev flags_test : List Bool
flags_test =
    has_array (pipefs_ ∷ codes "--seekable" ∷ []) 2 (pipefs_ ∷ [])
    ∷ sets Flags.seekable Flags.cache (Options.seekable ∷ []) true false
    ∷ has_array (pipefs_ ∷ codes "--cache" ∷ []) 2 (pipefs_ ∷ [])
    ∷ sets Flags.seekable Flags.cache (Options.cache ∷ []) true true
    ∷ has_array (pipefs_ ∷ []) 1 (pipefs_ ∷ [])
    ∷ preloads [] false false
    ∷ has_array (pipefs_ ∷ codes "--preload" ∷ codes "stat" ∷ []) 3 (pipefs_ ∷ [])
    ∷ preloads (preload (codes "stat") ∷ []) true false
    ∷ has_array (pipefs_ ∷ codes "--preload" ∷ codes "readdir" ∷ []) 3 (pipefs_ ∷ [])
    ∷ preloads (preload (codes "readdir") ∷ []) false true
    ∷ has_array (pipefs_ ∷ codes "--preload" ∷ codes "stat,readdir" ∷ []) 3 (pipefs_ ∷ [])
    ∷ preloads (preload (codes "stat,readdir") ∷ []) true true
    ∷ has_array (pipefs_ ∷ codes "--preload" ∷ codes "readdir,stat" ∷ []) 3 (pipefs_ ∷ [])
    ∷ preloads (preload (codes "readdir,stat") ∷ []) true true
    ∷ []

flags_test_passes : all_hold flags_test ≡ true
unfolding parse_switches fuse_arguments parse_preload tokens bytes_beq
flags_test_passes = refl

abbrev limits : Bytes → ℕ → Bool
limits argument n = gives (cache_limit argument ∷ []) (λ data_. data_.cache_limit == n)

abbrev limits_test : List Bool
limits_test =
    has_array (pipefs_ ∷ codes "--cache-limit" ∷ codes "463467" ∷ []) 3 (pipefs_ ∷ [])
    ∷ limits (codes "463467") 463467
    ∷ limits (codes "231b") 231
    ∷ limits (codes "524B") 524
    ∷ limits (codes "4512k") (4512 * 1024)
    ∷ limits (codes "51K") (51 * 1000)
    ∷ limits (codes "620m") (620 * (1024 * 1024))
    ∷ limits (codes "2346M") (2346 * (1000 * 1000))
    ∷ limits (codes "2g") (2 * (1024 * (1024 * 1024)))
    ∷ limits (codes "3G") (3 * (1000 * (1000 * 1000)))
    ∷ has_array (pipefs_ ∷ codes "--process-limit" ∷ codes "13" ∷ []) 3 (pipefs_ ∷ [])
    ∷ gives (process_limit 13 ∷ []) (λ data_. data_.process_limit == 13)
    ∷ []

limits_test_passes : all_hold limits_test ≡ true
unfolding parse_switches fuse_arguments parse_size skip_spaces scan_digits bytes_beq
limits_test_passes = refl

abbrev all_switches : List Switch
all_switches =
    root_dir (codes "rootDir")
    ∷ command (codes "command")
    ∷ source_suffix (codes "source suffix")
    ∷ target_suffix (codes "target suffix")
    ∷ []

abbrev all_args : List Bytes
all_args =
    pipefs_
    ∷ codes "--root-dir"
    ∷ codes "rootDir"
    ∷ codes "--command"
    ∷ codes "command"
    ∷ codes "--source-suffix"
    ∷ codes "source suffix"
    ∷ codes "--target-suffix"
    ∷ codes "target suffix"
    ∷ []

abbrev fuse_options : List Bytes
fuse_options = codes "--arg1" ∷ codes "arg2" ∷ codes "-arg3" ∷ codes "--arg4" ∷ []

abbrev all_values_test : List Bool
all_values_test =
    gives all_switches (λ data_.
      check_string data_.rootdir (codes "rootDir")
      && check_string data_.command (codes "command")
      && check_string data_.source_suffix (codes "source suffix")
      && check_string data_.target_suffix (codes "target suffix"))
    ∷ has_array all_args 9 (pipefs_ ∷ [])
    ∷ has_array (all_args ++ (codes "--" ∷ fuse_options)) 10 (pipefs_ ∷ fuse_options)
    ∷ []

all_values_test_passes : all_hold all_values_test ≡ true
unfolding parse_switches fuse_arguments bytes_beq
all_values_test_passes = refl
