-- ===== src/Fuse/PassThrough/Hidden.antt =====
-- src/functions.c: the paths that the operations hand to the system.
use pipefs.Common.{◌≡◌, ◌⊎◌, false, Option, none, some, List, [], ◌∷◌, Bytes}
use pipefs.Fuse.{Settings, Fuse, Files, pipefs_fullpath, source_of, check_suffix}
use pipefs.Fuse.PassThrough
use pipefs.Fuse.PassThrough.{Call, System}
use pipefs.Fuse.PassThrough.Operations.{Operation}
use pipefs.Fuse.PassThrough.Operations

-- The paths of a call, without the target of a new symbolic link, and without those that `stat` is
-- given, since it only finds out whether there is a source.
abbrev pub paths : Call → List Bytes
paths (PassThrough.readlink p _) = p ∷ []
paths (PassThrough.open_new p _) = p ∷ []
paths (PassThrough.mkfifo p _) = p ∷ []
paths (PassThrough.mkdir p _) = p ∷ []
paths (PassThrough.chmod p _) = p ∷ []
paths (PassThrough.truncate p _) = p ∷ []
paths (PassThrough.access p _) = p ∷ []
paths (PassThrough.creat p _) = p ∷ []
paths (PassThrough.mknod p _ _) = p ∷ []
paths (PassThrough.chown p _ _) = p ∷ []
paths (PassThrough.stat _) = []
paths (PassThrough.unlink p) = p ∷ []
paths (PassThrough.rmdir p) = p ∷ []
paths (PassThrough.utime p) = p ∷ []
paths (PassThrough.statfs p) = p ∷ []
paths (PassThrough.opendir p) = p ∷ []
paths (PassThrough.symlink _ p) = p ∷ []
paths (PassThrough.rename p q) = p ∷ q ∷ []
paths (PassThrough.link p q) = p ∷ q ∷ []
paths (PassThrough.close _) = []
paths (PassThrough.fsync _) = []
paths (PassThrough.closedir _) = []
paths (PassThrough.pwrite _ _ _) = []
paths (PassThrough.ftruncate _ _) = []

-- The path of an operation that it tests for the source suffix: of `rename` and `link`, the first of
-- two. The others test none, or `utime` not its own.
abbrev pub tested : Operation → Option Bytes
tested (Operations.readlink p _) = some p
tested (Operations.mkdir p _) = none
tested (Operations.chmod p _) = some p
tested (Operations.truncate p _) = some p
tested (Operations.access p _) = none
tested (Operations.create p _) = some p
tested (Operations.mknod p _ _) = some p
tested (Operations.chown p _ _) = some p
tested (Operations.unlink p) = some p
tested (Operations.rmdir p) = none
tested (Operations.utime p) = none
tested (Operations.statfs p) = some p
tested (Operations.opendir p) = none
tested (Operations.symlink _ p) = some p
tested (Operations.rename p q) = some p
tested (Operations.link p q) = some p

module _ (system : System) (settings : Settings) (files : Files) (s : Fuse) (buffer : Bytes) where
  -- A path without the source suffix, or the source of the file at `path`.
  abbrev pub IsSeen : Bytes → Bytes → Type 0
  IsSeen path p =
      (check_suffix settings p ≡ false)
      ⊎ (source_of settings files (pipefs_fullpath settings path) ≡ some p)
