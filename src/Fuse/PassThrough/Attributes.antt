-- ===== src/Fuse/PassThrough/Attributes.antt =====
-- src/functions.c: the operations on the attributes of the file at a path, and `opendir`.
use pipefs.Common.{ℕ, Bool, ◌&&◌, ◌||◌, [], ◌∷◌, if◌then◌else◌, Bytes}
use pipefs.Common.Int.{ℤ, pos, is_negative}
use pipefs.Flags.{has_bit}
use pipefs.Fuse.{Settings, Files, pipefs_fullpath, source_of, has_source_path, check_suffix}
use pipefs.Fuse.PassThrough.{
  System, Outcome, refuses, performs, or_else, is_given, looks, checks_source, checks_modify, chmod,
  chown, truncate, utime, statfs, access, opendir,
}

-- `mode & 0333`
abbrev pub modifies : ℕ → Bool
modifies mode =
    has_bit 0 mode
    || has_bit 1 mode
    || has_bit 3 mode
    || has_bit 4 mode
    || has_bit 6 mode
    || has_bit 7 mode

-- `mask & (W_OK | X_OK)`
abbrev pub asks_more : ℕ → Bool
asks_more mask = has_bit 0 mask || has_bit 1 mask

module _ (system : System) (settings : Settings) (files : Files) where
  unfoldable pub pipefs_chmod : Bytes → ℕ → Outcome
  unfolding pipefs_fullpath check_suffix source_of
  pipefs_chmod path mode =
      let fpath = pipefs_fullpath settings path in
      let translated_path = source_of settings files fpath in
      checks_source settings files fpath (
        looks settings files fpath (
          if is_given translated_path && modifies mode
          then refuses 1
          else performs system (chmod (or_else translated_path fpath) mode)))

  unfoldable pub pipefs_chown : Bytes → ℕ → ℕ → Outcome
  unfolding pipefs_fullpath check_suffix source_of
  pipefs_chown path uid gid =
      let fpath = pipefs_fullpath settings path in
      checks_source settings files fpath (
        looks settings files fpath
          (performs system (chown (or_else (source_of settings files fpath) fpath) uid gid)))

  -- The error is only logged: -1 is returned.
  unfoldable pub pipefs_truncate : Bytes → ℕ → Outcome
  unfolding pipefs_fullpath check_suffix has_source_path
  pipefs_truncate path newsize =
      let fpath = pipefs_fullpath settings path in
      let call = truncate fpath newsize in
      checks_source settings files fpath (
        checks_modify settings files fpath
          (record { result = system.result call; calls = call ∷ [] }))

  -- `buffer` is what the path buffer holds before it is filled: the suffix is tested on that.
  unfoldable pub pipefs_utime : Bytes → Bytes → Outcome
  unfolding pipefs_fullpath check_suffix source_of
  pipefs_utime buffer path =
      let fpath = pipefs_fullpath settings path in
      checks_source settings files buffer (
        looks settings files fpath
          (performs system (utime (or_else (source_of settings files fpath) fpath))))

  unfoldable pub pipefs_statfs : Bytes → Outcome
  unfolding pipefs_fullpath check_suffix source_of
  pipefs_statfs path =
      let fpath = pipefs_fullpath settings path in
      checks_source settings files fpath (
        looks settings files fpath
          (performs system (statfs (or_else (source_of settings files fpath) fpath))))

  unfoldable pub pipefs_access : Bytes → ℕ → Outcome
  unfolding pipefs_fullpath source_of
  pipefs_access path mask =
      let fpath = pipefs_fullpath settings path in
      let translated_path = source_of settings files fpath in
      looks settings files fpath (
        if is_given translated_path && asks_more mask
        then refuses 13
        else performs system (access (or_else translated_path fpath) mask))

  -- The call returns the address of a stream, or fails: a negative result stands for NULL. The
  -- second result is what `fi->fh` is set to.
  unfoldable pub pipefs_opendir : Bytes → Outcome × ℤ
  unfolding pipefs_fullpath
  pipefs_opendir path =
      let call = opendir (pipefs_fullpath settings path) in
      let dp = system.result call in
      if is_negative dp
      then (performs system call, pos 0)
      else (record { result = pos 0; calls = call ∷ [] }, dp)
