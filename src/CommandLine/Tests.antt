-- ===== src/CommandLine/Tests.antt =====
-- command_line.c and main.c: runs, and the theorems at concrete inputs.
use pipefs.Common.{◌≡◌, refl, ◌*◌, false, none, [], ◌∷◌, ◌++◌, arith, codes, bytes_beq}
use pipefs.CommandLine.{parse_preload, exits, overflows, size, parse_size, skip_spaces, scan_digits}
use pipefs.CommandLine.Sizes.{text_of, value_of, k, parse_size_lem}
use pipefs.Log.{log_open}
use pipefs.Strtok.{tokens}
use pipefs.Strtok.Pieces.{pieces}
use pipefs.CommandLine.Preload.{Adds, has_token, parse_preload-Adds}
use pipefs.CommandLine.Options.{
  wait_on_stat, log_file, exits_program, parsed, parse_switches, no_arguments, checked_arguments,
}

kilobytes : parse_size (codes "12k") ≡ size 12288
unfolding parse_size skip_spaces scan_digits
kilobytes = refl

-- The unit is read into an array of two bytes.
two_units : parse_size (codes "5kb") ≡ overflows
unfolding parse_size skip_spaces scan_digits
two_units = refl

no_number : parse_size (codes "k") ≡ exits
unfolding parse_size skip_spaces scan_digits
no_number = refl

both : parse_preload (codes "readdir,,stat") 0 ≡ 12
unfolding parse_preload tokens bytes_beq
both = refl

implies_preload :
    parse_switches (wait_on_stat ∷ []) no_arguments ≡ parsed (record no_arguments { flags = 20 })
unfolding parse_switches
implies_preload = refl

no_log_file :
    parse_switches (log_file (codes "/l") false ∷ wait_on_stat ∷ []) no_arguments ≡ exits_program
unfolding parse_switches log_open
no_log_file = refl

no_command : checked_arguments false (wait_on_stat ∷ []) ≡ none
unfolding checked_arguments
no_command = refl

parse_size_lem_example :
    parse_size (text_of (1 ∷ 2 ∷ []) ++ (107 ∷ [])) ≡ size (value_of 0 (1 ∷ 2 ∷ []) * 1024)
unfolding value_of
parse_size_lem_example = parse_size_lem 1 (2 ∷ []) (omega arith, (omega arith, tt)) k (omega arith)

parse_preload-Adds_example :
    Adds 1
      (parse_preload (codes "stat") 1)
      (has_token (codes "stat") (pieces 44 (codes "stat")))
      (has_token (codes "readdir") (pieces 44 (codes "stat")))
parse_preload-Adds_example = parse_preload-Adds (codes "stat") 1
