-- ===== src/Fuse/PassThrough/OpenFiles.antt =====
-- src/functions.c: the operations on open files and directories, and `create`.
use pipefs.Common.{ℕ, Option, none, some, [], ◌∷◌, if◌then◌else◌, Bytes}
use pipefs.Common.Int.{pos, is_negative}
use pipefs.SystemError.{Result, ok, aborts}
use pipefs.Fuse.{Settings, Fuse, Files, pipefs_fullpath, has_source_path, check_suffix}
use pipefs.Fuse.Handles.{hold, with_basic}
use pipefs.Fuse.PassThrough.{
  System, Outcome, refuses, performs, looks, pwrite, fsync, ftruncate, creat, closedir,
}

-- `return 0` without a system call: all that `flush` and `fsyncdir` do.
abbrev pub succeeds : Outcome
succeeds = record { result = pos 0; calls = [] }

unfoldable pub pipefs_flush : Outcome
pipefs_flush = succeeds

unfoldable pub pipefs_fsyncdir : Outcome
pipefs_fsyncdir = succeeds

-- `aborts`: `fh` points to no file.
module _ (system : System) (s : Fuse) (fh : ℕ) where
  unfoldable pub pipefs_write : Bytes → ℕ → Result Outcome
  pipefs_write bytes offset = elim (s.basic_files fh) [
    | none ↦ aborts
    | some filedata ↦ elim filedata.translated [
      | none ↦ ok (performs system (pwrite filedata.fd bytes offset))
      | some _ ↦ ok (refuses 22)
    ]
  ]

  -- The error is only logged: -1 is returned.
  unfoldable pub pipefs_fsync : Result Outcome
  pipefs_fsync = elim (s.basic_files fh) [
    | none ↦ aborts
    | some filedata ↦ elim filedata.translated [
      | none ↦
          let call = fsync filedata.fd in
          ok (record { result = system.result call; calls = call ∷ [] })
      | some _ ↦ ok succeeds
    ]
  ]

  unfoldable pub pipefs_ftruncate : ℕ → Result Outcome
  pipefs_ftruncate offset = elim (s.basic_files fh) [
    | none ↦ aborts
    | some filedata ↦ elim filedata.translated [
      | none ↦ ok (performs system (ftruncate filedata.fd offset))
      | some _ ↦ ok (refuses 22)
    ]
  ]

-- `dp` is the stream that `fi->fh` holds.
unfoldable pub pipefs_releasedir : ℕ → Outcome
pipefs_releasedir dp = record { result = pos 0; calls = closedir dp ∷ [] }

-- The new file keeps the descriptor, and `fi->fh` is its address.
unfoldable pub pipefs_create :
    System → Settings → Files → Fuse → Bytes → ℕ → Fuse × Outcome × Option ℕ
unfolding pipefs_fullpath check_suffix has_source_path
pipefs_create system settings files s path mode =
    let fpath = pipefs_fullpath settings path in
    let call = creat fpath mode in
    let fd = system.result call in
    if check_suffix settings fpath
    then (s, refuses 2, none)
    else if has_source_path settings files fpath
    then (s, looks settings files fpath (refuses 17), none)
    else if is_negative fd
    then (s, looks settings files fpath (performs system call), none)
    else (
      with_basic (hold s fd) (record { fd = fd; translated = none }),
      looks settings files fpath (record { result = pos 0; calls = call ∷ [] }),
      some s.next_basic,
    )
