-- ===== src/Fuse/PassThrough/Errors.antt =====
-- src/functions.c: what the operations on paths report.
use pipefs.Common.{
  ◌<◌, ◌≡◌, Bool, true, false, not, Option, none, some, List, [], ◌∷◌, arith, Bytes,
}
use pipefs.Common.Int.{ℤ, neg, is_negative}
use pipefs.Fuse.{Settings, Fuse, Files}
use pipefs.Fuse.PassThrough
use pipefs.Fuse.PassThrough.{Call, System, Outcome}
use pipefs.Fuse.PassThrough.Operations.{
  Operation, readlink, mkdir, chmod, truncate, access, create, mknod, chown, unlink, rmdir, utime,
  statfs, opendir, symlink, rename, link, run,
}
use pipefs.Fuse.PassThrough.Entries.{
  make_regular, make, pipefs_readlink, pipefs_mknod, pipefs_mkdir, pipefs_unlink, pipefs_rmdir,
  pipefs_symlink, pipefs_rename, pipefs_link,
}
use pipefs.Fuse.PassThrough.Attributes.{
  pipefs_chmod, pipefs_chown, pipefs_truncate, pipefs_utime, pipefs_statfs, pipefs_access,
  pipefs_opendir,
}
use pipefs.Fuse.PassThrough.OpenFiles.{pipefs_create}

-- `truncate` does not pass on the error.
abbrev pub is_truncate : Operation → Bool
is_truncate (truncate _ _) = true
is_truncate _ = false

abbrev last : List Call → Option Call
last [] = none
last (call ∷ []) = some call
last (_ ∷ call ∷ calls) = last (call ∷ calls)

-- The calls that are made after it is known whether the file is translated.
abbrev pub own : List Call → List Call
own [] = []
own (PassThrough.stat _ ∷ calls) = own calls
own (call ∷ calls) = call ∷ own calls

-- What is reported, by the last system call: without one, a failure; otherwise a failure if that call
-- has failed, with its error where `exact`.
abbrev ReportsLast : System → Bool → ℤ → Option Call → Type 0
ReportsLast system exact result none = is_negative result ≡ true
ReportsLast system exact result (some call) =
    (is_negative result ≡ is_negative (system.result call))
    × (exact ≡ true → is_negative (system.result call) ≡ true → result ≡ neg (system.errno call))

abbrev pub Reports : System → Bool → Outcome → Type 0
Reports system exact outcome = ReportsLast system exact outcome.result (last (own outcome.calls))

module _ (system : System) (sets_errno : (call : Call) → 0 < system.errno call) where
  negative : (call : Call) → is_negative (neg (system.errno call)) ≡ true
  negative call = ground (arith, sets_errno call)

  -- Every operation on a path of functions.c that makes no system call, but for the `stat` that looks
  -- for the source of a file, fails. Otherwise it succeeds or fails as its last system call of another
  -- kind does, and returns the negative of that call's `errno` if it fails; only `truncate` fails with
  -- another number. The condition: a system call that fails sets `errno`.
  pub run-Reports :
      (settings : Settings) (files : Files) (s : Fuse) (buffer : Bytes) (op : Operation)
      → Reports system (not (is_truncate op)) (run system settings files s buffer op)
  unfolding run make make_regular pipefs_readlink pipefs_mknod pipefs_mkdir pipefs_unlink
      pipefs_rmdir pipefs_symlink pipefs_rename pipefs_link pipefs_chmod pipefs_chown
      pipefs_truncate pipefs_utime pipefs_statfs pipefs_access pipefs_opendir pipefs_create
  run-Reports settings files s buffer (readlink path size) = grind (arith, negative)
  run-Reports settings files s buffer (mknod path mode dev) = grind (arith, negative)
  run-Reports settings files s buffer (mkdir path mode) = grind (arith, negative)
  run-Reports settings files s buffer (unlink path) = grind (arith, negative)
  run-Reports settings files s buffer (rmdir path) = grind (arith, negative)
  run-Reports settings files s buffer (symlink path new_link) = grind (arith, negative)
  run-Reports settings files s buffer (rename path newpath) = grind (arith, negative)
  run-Reports settings files s buffer (link path newpath) = grind (arith, negative)
  run-Reports settings files s buffer (chmod path mode) = grind (arith, negative)
  run-Reports settings files s buffer (chown path uid gid) = grind (arith, negative)
  run-Reports settings files s buffer (truncate path size) = grind (arith, negative)
  run-Reports settings files s buffer (utime path) = grind (arith, negative)
  run-Reports settings files s buffer (statfs path) = grind (arith, negative)
  run-Reports settings files s buffer (access path mask) = grind (arith, negative)
  run-Reports settings files s buffer (opendir path) = grind (arith, negative)
  run-Reports settings files s buffer (create path mode) = grind (arith, negative)
