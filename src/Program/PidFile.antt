-- ===== src/Program/PidFile.antt =====
-- bin/main.c and functions_translate.c: the pid file, from the start of the program to its end.
use pipefs.Common.{
  Bool, ◌≡◌, refl, true, false, if◌then◌else◌, none, some, arith, Bytes, bytes_beq, bytes_beq_iff,
  [], Bool-cases, inl, inr,
}
use pipefs.SystemError.{ok}
use pipefs.CommandLine.{Arguments}
use pipefs.Program.{
  write_log, init_message, pid_message, destroy_message, FileSystem, Host, FuseMain, set_file,
  write_file, unlink, unlink_if_given, pipefs_init, pipefs_destroy, pipefs_controller_create,
  fuse_main, prepare, run, real,
}

-- The settings with which `fuse_main` is called.
abbrev prepared : Host → Arguments → Bytes → Arguments
prepared host a path = record a { rootdir = real host a.rootdir; pidfile = some path }

-- What the start of the file system writes to the log file.
abbrev pub logged : Host → Bytes → FileSystem → FileSystem
logged host path fs = write_log host (pid_message host path) (write_log host init_message fs)

abbrev pub is_log : Host → Bytes → Bool
is_log host other = elim host.log_file [ none ↦ false | some path ↦ bytes_beq other path ]

write_log_other :
    (host : Host) (message other : Bytes) (fs : FileSystem)
    → is_log host other ≡ false
    → write_log host message fs other ≡ fs other
unfolding write_log
write_log_other host message other fs apart = ground arith

module _ (host : Host) (a : Arguments) (fs : FileSystem) (pidfile path : Bytes) where
  prepare-pidfile :
      a.pidfile ≡ some pidfile
      → host.realpath pidfile ≡ some path
      → host.writable pidfile ≡ true
      → prepare host a fs ≡ ok (prepared host a path, set_file (host.resolved pidfile) (some []) fs)
  unfolding prepare write_file
  prepare-pidfile given found writable = ground arith

  fuse_main-mounts :
      (fuse : FuseMain)
      → host.writable path ≡ true
      → fuse.mounts ≡ true
      → fuse_main fuse host (prepared host a path) fs
        ≡ ok (
            unlink host path (
              write_log host
                (destroy_message host)
                (fuse.serve
                  (pipefs_controller_create a)
                  (set_file (host.resolved path) (some host.pid) (logged host path fs))).1))
  unfolding fuse_main pipefs_init pipefs_destroy write_file unlink_if_given pipefs_controller_create
  fuse_main-mounts fuse writable mounts = rw mounts (rw writable refl)

  fuse_main-fails :
      (fuse : FuseMain)
      → fuse.mounts ≡ false
      → fuse_main fuse host (prepared host a path) fs ≡ ok fs
  unfolding fuse_main
  fuse_main-fails fuse mounts = rw mounts refl

-- The program leaves no pid file: if the file can be written and `realpath` finds a path of the same
-- file, `main` returns what `fuse_main` returns, whether it mounts or not, the pid file is gone, and
-- the program has changed no other file but the log file and those that the operations change. When
-- the file system is mounted, the operations begin with the number of the process in the pid file.
pub run-pidfile :
    (fuse : FuseMain) (host : Host) (a : Arguments) (fs : FileSystem) (pidfile path : Bytes)
    → a.pidfile ≡ some pidfile
    → host.realpath pidfile ≡ some path
    → host.resolved path ≡ host.resolved pidfile
    → host.writable pidfile ≡ true
    → host.writable path ≡ true
    → let file = host.resolved pidfile in
      let mounted = set_file file (some host.pid) (logged host path (set_file file (some []) fs)) in
      (end : FileSystem) × (run fuse host a fs ≡ ok (fuse.result, end))
      × (mounted file ≡ some host.pid)
      × (end file ≡ none)
      × ((other : Bytes)
          → bytes_beq other file ≡ false
          → is_log host other ≡ false
          → end other ≡ (
              if fuse.mounts
              then (fuse.serve (pipefs_controller_create a) mounted).1 other
              else fs other))
unfolding run unlink unlink_if_given
run-pidfile fuse host a fs pidfile path given found same writable writable' =
    let file = host.resolved pidfile in
    let mounted = set_file file (some host.pid) (logged host path (set_file file (some []) fs)) in
    let here : bytes_beq file file ≡ true = (bytes_beq_iff file file).1 refl in
    let ready = prepare-pidfile host a fs pidfile path given found writable in
    elim (Bool-cases fuse.mounts) [
      | inr unmounted ↦ (
        set_file file none (set_file file (some []) fs),
        rw
            (
              ready,
              run,
              fuse_main-fails host a (set_file file (some []) fs) pidfile path fuse unmounted,
              same,
            )
            refl,
        rw here refl,
        rw here refl,
        λ other apart quiet. rw (unmounted, apart) refl,
      )
      | inl mounts ↦ (
        set_file file none (
            set_file file none (
              write_log host (destroy_message host)
                (fuse.serve (pipefs_controller_create a) mounted).1)),
        rw
            (
              ready,
              run,
              fuse_main-mounts host a (set_file file (some []) fs) pidfile path fuse writable'
                  mounts,
              same,
            )
            refl,
        rw here refl,
        rw here refl,
        λ other apart quiet.
            rw (mounts, apart)
              (write_log_other host (destroy_message host) other
                (fuse.serve (pipefs_controller_create a) mounted).1 quiet),
      )
    ]
