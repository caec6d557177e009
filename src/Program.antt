-- ===== src/Program.antt =====
-- bin/main.c after its checks, and `pipefs_init` and `pipefs_destroy` of functions_translate.c: the
-- controller, and the file that holds the number of the process. `fuse_main` is a parameter.
pub mod PidFile
pub mod Tests
use pipefs.Log.{log_msg}
use pipefs.Common.{
  codes, ◌++◌, Bool, true, false, not, Option, none, some, List, [], ◌∷◌, if◌then◌else◌, Bytes,
  bytes_beq,
}
use pipefs.Common.Int.{ℤ}
use pipefs.SystemError.{Result, ok, throws, aborts}
use pipefs.Flags
use pipefs.Flags.{is_flag_set}
use pipefs.CommandLine.{Arguments}
use pipefs.Controller.{Controller}
use pipefs.Controller.Commands.{new_controller, destroy}

-- The contents of the files, by their paths without symbolic links.
abbrev pub FileSystem : Type 0
FileSystem = Bytes → Option Bytes

abbrev pub set_file : Bytes → Option Bytes → FileSystem → FileSystem
set_file path contents fs p = if bytes_beq p path then contents else fs p

-- The file that a path leads to, what `realpath` returns for it, whether `fopen` can open it for
-- writing, the number of the process as a text, the path of the log file, if there is one, and the texts
-- of the time, the thread and the pointer that `log_msg` writes.
pub record Host : Type 0 where
  pub resolved : Bytes → Bytes
  pub realpath : Bytes → Option Bytes
  pub writable : Bytes → Bool
  pub pid : Bytes
  pub log_file : Option Bytes
  pub time : Bytes
  pub thread : Bytes
  pub userdata : Bytes

-- `log_msg`, on the log file that is open.
unfoldable pub write_log : Host → Bytes → FileSystem → FileSystem
unfolding log_msg
write_log host message fs = elim host.log_file [
  | none ↦ fs
  | some path ↦ set_file path (log_msg host.time host.thread message (fs path)) fs
]

abbrev pub init_message : Bytes
init_message = codes " \nbb_init()\n"

abbrev pub pid_message : Host → Bytes → Bytes
pid_message host pidfile = codes "pidfile = " ++ (pidfile ++ (codes "\n -- pid = " ++ host.pid))

abbrev pub destroy_message : Host → Bytes
destroy_message host = codes " \nbb_destroy(userdata=0x" ++ (host.userdata ++ codes ")\n")

-- `fopen(path, "w")`, with the text that is written before `fclose`. Where `fopen` fails, NULL is
-- used as a file.
unfoldable pub write_file : Host → Bytes → Bytes → FileSystem → Result FileSystem
write_file host path text fs =
    if host.writable path then ok (set_file (host.resolved path) (some text) fs) else aborts

unfoldable pub unlink : Host → Bytes → FileSystem → FileSystem
unlink host path fs = set_file (host.resolved path) none fs

unfoldable pub unlink_if_given : Host → Option Bytes → FileSystem → FileSystem
unfolding unlink
unlink_if_given host none fs = fs
unlink_if_given host (some pidfile) fs = unlink host pidfile fs

-- `pipefs_controller_create`, with the fields of `pipefs_data`.
unfoldable pub pipefs_controller_create : Arguments → Controller
pipefs_controller_create a =
    new_controller (is_flag_set a.flags Flags.seekable) (is_flag_set a.flags Flags.cache)
      a.cache_limit a.process_limit

unfoldable pub pipefs_controller_destroy : Controller → Controller
unfolding destroy
pipefs_controller_destroy c = destroy c

abbrev with_controller : Controller → Result FileSystem → Result (Controller × FileSystem)
with_controller c (ok fs) = ok (c, fs)
with_controller c (throws errno) = throws errno
with_controller c aborts = aborts

unfoldable pub pipefs_init : Host → Arguments → FileSystem → Result (Controller × FileSystem)
unfolding write_file write_log pipefs_controller_create
pipefs_init host a fs =
    let begun = write_log host init_message fs in
    let c = pipefs_controller_create a in
    elim a.pidfile [
      | none ↦ ok (c, begun)
      | some pidfile ↦
          with_controller c
            (write_file host pidfile host.pid (write_log host (pid_message host pidfile) begun))
    ]

unfoldable pub pipefs_destroy : Host → Arguments → Controller → FileSystem → Controller × FileSystem
unfolding write_log unlink_if_given pipefs_controller_destroy
pipefs_destroy host a c fs = (
  pipefs_controller_destroy c,
  unlink_if_given host a.pidfile (write_log host (destroy_message host) fs),
)

-- `fuse_main`: whether it mounts the file system, and its result. If it does, it calls `init` first
-- and `destroy` last; `serve` is what the operations between them do.
pub record FuseMain : Type 0 where
  pub mounts : Bool
  pub serve : Controller → FileSystem → Controller × FileSystem
  pub result : ℤ

unfoldable pub fuse_main : FuseMain → Host → Arguments → FileSystem → Result FileSystem
unfolding pipefs_init pipefs_destroy
fuse_main fuse host a fs = if not fuse.mounts then ok fs else elim (pipefs_init host a fs) [
  | throws errno ↦ throws errno
  | aborts ↦ aborts
  | ok started ↦
      let served = fuse.serve started.0 started.1 in ok (pipefs_destroy host a served.0 served.1).1
]

abbrev pub real : Host → Option Bytes → Option Bytes
real host none = none
real host (some path) = host.realpath path

-- The pid file is made empty, and named by its real path from then on.
unfoldable pub prepare : Host → Arguments → FileSystem → Result (Arguments × FileSystem)
unfolding write_file
prepare host a fs =
    let rooted = record a { rootdir = real host a.rootdir } in
    elim a.pidfile [
      | none ↦ ok (rooted, fs)
      | some pidfile ↦ elim (write_file host pidfile [] fs) [
        | throws errno ↦ throws errno
        | aborts ↦ aborts
        | ok made ↦ ok (record rooted { pidfile = host.realpath pidfile }, made)
      ]
    ]

-- `main` from the call of `realpath` on.
unfoldable pub run : FuseMain → Host → Arguments → FileSystem → Result (ℤ × FileSystem)
unfolding prepare fuse_main unlink_if_given
run fuse host a fs = elim (prepare host a fs) [
  | throws errno ↦ throws errno
  | aborts ↦ aborts
  | ok ready ↦ elim (fuse_main fuse host ready.0 ready.1) [
    | throws errno ↦ throws errno
    | aborts ↦ aborts
    | ok left ↦ ok (fuse.result, unlink_if_given host ready.0.pidfile left)
  ]
]
