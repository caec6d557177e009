-- ===== src/Fuse/PassThrough.antt =====
-- src/functions.c: the operations that pass on to one system call each, or refuse to. Here are the
-- system calls, the outcome of an operation, and the macros CHECK_SOURCE_PATH of functions_common.h.
pub mod Entries
pub mod Attributes
pub mod OpenFiles
pub mod Operations
pub mod Translated
pub mod Hidden
pub mod Errors
pub mod Lifetimes
pub mod Tests
use pipefs.Util.{translate_suffix}
use pipefs.Common.{
  ◌++◌, ℕ, Bool, true, false, Option, none, some, List, [], ◌∷◌, if◌then◌else◌, Bytes,
}
use pipefs.Common.Int.{ℤ, pos, neg, is_negative}
use pipefs.Fuse.{Settings, Files, has_source_path, check_suffix}

-- The system calls, with their arguments. `open_new` is `open` with O_CREAT | O_EXCL | O_WRONLY, and
-- `statfs` is the call `statvfs`. `stat` is only made to find out whether a path is that of a translated
-- file.
pub data Call : Type 0 where
  readlink open_new mkfifo mkdir chmod truncate access creat : Bytes → ℕ → Call
  mknod chown : Bytes → ℕ → ℕ → Call
  stat unlink rmdir utime statfs opendir : Bytes → Call
  symlink rename link : Bytes → Bytes → Call
  close fsync : ℤ → Call
  closedir : ℕ → Call
  pwrite : ℤ → Bytes → ℕ → Call
  ftruncate : ℤ → ℕ → Call

-- What each call returns, and the `errno` that it leaves if that is negative. What `stat` finds is in
-- `Files`.
pub record System : Type 0 where
  pub result : Call → ℤ
  pub errno : Call → ℕ

-- The result of an operation, and the system calls that it has made, in order.
pub record Outcome : Type 0 where
  pub result : ℤ
  pub calls : List Call

-- `return -errno` without a system call
abbrev pub refuses : ℕ → Outcome
refuses errno = record { result = neg errno; calls = [] }

-- `pipefs_error`
abbrev pub pipefs_error : System → Call → ℤ
pipefs_error system call = neg (system.errno call)

-- `retstat = call; if (retstat < 0) retstat = pipefs_error(…); return retstat;`
abbrev pub performs : System → Call → Outcome
performs system call = record {
  result =
      if is_negative (system.result call) then pipefs_error system call else system.result call;
  calls = call ∷ [];
}

-- `translated_path ? translated_path : fpath`
abbrev pub or_else : Option Bytes → Bytes → Bytes
or_else none fpath = fpath
or_else (some translated_path) _ = translated_path

abbrev pub is_given {ℓ} : {A : Type ℓ} → Option A → Bool
is_given none = false
is_given (some _) = true

module _ (settings : Settings) (files : Files) where
  -- The calls of `translate_file`: `stat` of the translated path, if the path has the target suffix.
  abbrev pub lookups : Bytes → List Call
  lookups fpath = elim (translate_suffix fpath settings.target_suffix settings.source_suffix) [
    | none ↦ []
    | some source_path ↦ stat source_path ∷ []
  ]

  -- What an operation does after a call of `translate_file`.
  abbrev pub looks : Bytes → Outcome → Outcome
  looks fpath outcome = record outcome { calls = lookups fpath ++ outcome.calls }

  -- CHECK_SOURCE_PATH, CHECK_SOURCE_PATH_CREATE and CHECK_SOURCE_PATH_MODIFY: 2 is ENOENT, 17 EEXIST
  -- and 1 EPERM.
  abbrev pub checks_source : Bytes → Outcome → Outcome
  checks_source fpath outcome = if check_suffix settings fpath then refuses 2 else outcome

  abbrev pub checks_create : Bytes → Outcome → Outcome
  checks_create fpath outcome =
      looks fpath (if has_source_path settings files fpath then refuses 17 else outcome)

  abbrev pub checks_modify : Bytes → Outcome → Outcome
  checks_modify fpath outcome =
      looks fpath (if has_source_path settings files fpath then refuses 1 else outcome)
