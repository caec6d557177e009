-- ===== src/CommandLine/Options.antt =====
-- src/command_line.c and bin/main.c: the loop over the options, and the checks that follow it.
use pipefs.Common.{
  ℕ, ◌+◌, ◌-◌, ◌≡◌, arith, length, drop, length-drop, ◌%◌, ◌^◌, Bool, true, false, ◌||◌, Option,
  none, some, List, [], ◌∷◌, if◌then◌else◌, Bytes,
}
use pipefs.Log.{log_open}
use pipefs.Flags
use pipefs.Flags.{add_flag}
use pipefs.CommandLine.{Arguments, Size, exits, overflows, size, parse_preload, parse_size}

-- The results of `getopt_long`, by the names of the long options; `atoi` is the number that `atoi`
-- makes of the argument, as a `size_t`, and `log_file` has whether `fopen` opens the file.
pub data Switch : Type 0 where
  help cache seekable wait_on_stat unknown : Switch
  command cache_limit pidfile preload root_dir source_suffix target_suffix : Bytes → Switch
  log_file : Bytes → Bool → Switch
  process_limit : ℕ → Switch

-- `parse_arguments` returns NULL, ends the program, writes beyond an array, or goes on.
pub data Parsed : Type 0 where
  returns_null exits_program overruns : Parsed
  parsed : Arguments → Parsed

abbrev limited : Size → Arguments → Parsed
limited exits a = exits_program
limited overflows a = overruns
limited (size n) a = parsed (record a { cache_limit = n })

-- The `switch`.
unfoldable pub apply_switch : Switch → Arguments → Parsed
unfolding parse_preload parse_size log_open
apply_switch help a = returns_null
apply_switch cache a = parsed (record a { flags = add_flag a.flags Flags.cache })
apply_switch seekable a = parsed (record a { flags = add_flag a.flags Flags.seekable })
apply_switch wait_on_stat a = parsed (record a { flags = add_flag a.flags Flags.wait_on_stat })
apply_switch unknown a = returns_null
apply_switch (command arg) a = parsed (record a { command = some arg })
apply_switch (cache_limit arg) a = limited (parse_size arg) a
apply_switch (log_file _ opens) a = elim (log_open opens) [
  | none ↦ exits_program
  | some _ ↦ parsed a
]
apply_switch (pidfile arg) a = parsed (record a { pidfile = some arg })
apply_switch (preload arg) a = parsed (record a { flags = parse_preload arg a.flags })
apply_switch (root_dir arg) a = parsed (record a { rootdir = some arg })
apply_switch (source_suffix arg) a = parsed (record a { source_suffix = some arg })
apply_switch (target_suffix arg) a = parsed (record a { target_suffix = some arg })
apply_switch (process_limit n) a = parsed (record a { process_limit = n % 2 ^ 64 })

unfoldable pub parse_switches : List Switch → Arguments → Parsed
unfolding apply_switch
parse_switches [] a = parsed a
parse_switches (s ∷ switches) a = elim (apply_switch s a) [
  | returns_null ↦ returns_null
  | exits_program ↦ exits_program
  | overruns ↦ overruns
  | parsed a' ↦ parse_switches switches a'
]

-- `memset` in `main`
abbrev pub no_arguments : Arguments
no_arguments = record {
  pidfile = none;
  rootdir = none;
  source_suffix = none;
  target_suffix = none;
  command = none;
  flags = 0;
  cache_limit = 0;
  process_limit = 0;
}

abbrev is_null : Option Bytes → Bool
is_null none = true
is_null (some _) = false

-- Whether `main` calls `fuse_main`, and with which data. `root`: a user or effective user 0.
unfoldable pub checked_arguments : Bool → List Switch → Option Arguments
unfolding parse_switches
checked_arguments root switches =
    if root then none else elim (parse_switches switches no_arguments) [
      | returns_null ↦ none
      | exits_program ↦ none
      | overruns ↦ none
      | parsed a ↦
          if is_null a.command
            || is_null a.rootdir
            || is_null a.source_suffix
            || is_null a.target_suffix
          then none
          else some a
    ]

-- The arguments that go on to `fuse_main`: the name of the program, and those from `optind` on.
unfoldable pub fuse_arguments : List Bytes → ℕ → List Bytes
fuse_arguments [] optind = []
fuse_arguments (name ∷ arguments) optind = name ∷ drop optind (name ∷ arguments)

-- As many as the code counts: `argc - optind + 1`.
pub length-fuse_arguments :
    (name : Bytes) (arguments : List Bytes) (optind : ℕ)
    → length (fuse_arguments (name ∷ arguments) optind) ≡ length (name ∷ arguments) - optind + 1
unfolding fuse_arguments
length-fuse_arguments name arguments optind = omega (arith, length-drop optind (name ∷ arguments))
