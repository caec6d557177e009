-- ===== src/Fuse/PassThrough/Entries.antt =====
-- src/functions.c: the operations that make, remove and rename the entries of directories.
use pipefs.Common.{
  ℕ, ◌+◌, ◌-◌, ◌/◌, ◌%◌, ◌^◌, Option, none, some, [], ◌∷◌, ◌==◌, if◌then◌else◌, Bytes,
}
use pipefs.Common.Int.{ℤ, pos, is_negative}
use pipefs.Fuse.{Settings, Files, pipefs_fullpath, source_of, has_source_path, check_suffix}
use pipefs.Fuse.PassThrough.{
  System, Outcome, refuses, performs, looks, checks_source, checks_create, checks_modify, readlink,
  open_new, mkfifo, mkdir, mknod, unlink, rmdir, symlink, rename, link, close,
}

-- S_ISREG and S_ISFIFO
abbrev pub file_type : ℕ → ℕ
file_type mode = (mode / 2 ^ 12) % 16

module _ (system : System) where
  -- `open` with O_EXCL, and `close` of its descriptor.
  unfoldable pub make_regular : Bytes → ℕ → Outcome
  make_regular fpath mode =
      let fd = system.result (open_new fpath mode) in
      if is_negative fd then performs system (open_new fpath mode) else record {
        result = (performs system (close fd)).result;
        calls = open_new fpath mode ∷ close fd ∷ [];
      }

  -- The branches of `pipefs_mknod`.
  unfoldable pub make : Bytes → ℕ → ℕ → Outcome
  unfolding make_regular
  make fpath mode dev =
      if file_type mode == 8
      then make_regular fpath mode
      else if file_type mode == 1
      then performs system (mkfifo fpath mode)
      else performs system (mknod fpath mode dev)

module _ (system : System) (settings : Settings) (files : Files) where
  -- The second result is the index of `link` where the terminating zero is stored. `size - 1` is a
  -- `size_t`.
  unfoldable pub pipefs_readlink : Bytes → ℕ → Outcome × Option ℤ
  unfolding pipefs_fullpath check_suffix
  pipefs_readlink path size =
      let fpath = pipefs_fullpath settings path in
      let call = readlink fpath ((size + 2 ^ 64 - 1) % 2 ^ 64) in
      let length = system.result call in
      if check_suffix settings fpath
      then (refuses 2, none)
      else if is_negative length
      then (performs system call, none)
      else (record { result = pos 0; calls = call ∷ [] }, some length)

  unfoldable pub pipefs_mknod : Bytes → ℕ → ℕ → Outcome
  unfolding pipefs_fullpath check_suffix has_source_path make
  pipefs_mknod path mode dev =
      let fpath = pipefs_fullpath settings path in
      checks_source settings files fpath
        (checks_create settings files fpath (make system fpath mode dev))

  unfoldable pub pipefs_mkdir : Bytes → ℕ → Outcome
  unfolding pipefs_fullpath has_source_path
  pipefs_mkdir path mode =
      let fpath = pipefs_fullpath settings path in
      checks_create settings files fpath (performs system (mkdir fpath mode))

  unfoldable pub pipefs_unlink : Bytes → Outcome
  unfolding pipefs_fullpath check_suffix source_of
  pipefs_unlink path =
      let fpath = pipefs_fullpath settings path in
      checks_source settings files fpath (
        looks settings files fpath (elim (source_of settings files fpath) [
          | some translated_path ↦ performs system (unlink translated_path)
          | none ↦ performs system (unlink fpath)
        ]))

  unfoldable pub pipefs_rmdir : Bytes → Outcome
  unfolding pipefs_fullpath
  pipefs_rmdir path = performs system (rmdir (pipefs_fullpath settings path))

  -- `path` is the target, which is not looked at.
  unfoldable pub pipefs_symlink : Bytes → Bytes → Outcome
  unfolding pipefs_fullpath check_suffix has_source_path
  pipefs_symlink path new_link =
      let flink = pipefs_fullpath settings new_link in
      checks_source settings files flink
        (checks_create settings files flink (performs system (symlink path flink)))

  -- `buffer` is what `fnewpath` holds before it is filled: it is tested once before that.
  unfoldable pub pipefs_rename : Bytes → Bytes → Bytes → Outcome
  unfolding pipefs_fullpath check_suffix has_source_path
  pipefs_rename buffer path newpath =
      let fpath = pipefs_fullpath settings path in
      let fnewpath = pipefs_fullpath settings newpath in
      checks_source settings files fpath (
        checks_modify settings files buffer (
          checks_source settings files fnewpath
            (checks_create settings files fnewpath (performs system (rename fpath fnewpath)))))

  unfoldable pub pipefs_link : Bytes → Bytes → Bytes → Outcome
  unfolding pipefs_fullpath check_suffix has_source_path
  pipefs_link buffer path newpath =
      let fpath = pipefs_fullpath settings path in
      let fnewpath = pipefs_fullpath settings newpath in
      checks_source settings files fpath (
        checks_modify settings files buffer (
          checks_source settings files fnewpath
            (checks_create settings files fnewpath (performs system (link fpath fnewpath)))))
