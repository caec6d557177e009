-- ===== src/Fuse/PassThrough/Translated.antt =====
-- src/functions.c: what the operations on a path can do to a translated file.
use pipefs.Common.{Bool, true, false, not, Bytes}
use pipefs.Fuse.{Fuse}
use pipefs.Fuse.PassThrough
use pipefs.Fuse.PassThrough.{Call}
use pipefs.Fuse.PassThrough.Operations
use pipefs.Fuse.PassThrough.Operations.{Operation}
use pipefs.Fuse.PassThrough.Attributes.{modifies, asks_more}

-- The path that an operation is made on: of `symlink`, `rename` and `link`, the new one.
abbrev pub subject : Operation → Bytes
subject (Operations.readlink path _) = path
subject (Operations.mkdir path _) = path
subject (Operations.chmod path _) = path
subject (Operations.truncate path _) = path
subject (Operations.access path _) = path
subject (Operations.create path _) = path
subject (Operations.mknod path _ _) = path
subject (Operations.chown path _ _) = path
subject (Operations.unlink path) = path
subject (Operations.rmdir path) = path
subject (Operations.utime path) = path
subject (Operations.statfs path) = path
subject (Operations.opendir path) = path
subject (Operations.symlink _ path) = path
subject (Operations.rename _ path) = path
subject (Operations.link _ path) = path

-- Whether a call neither makes an entry, nor changes the contents of a file, nor sets or grants a mode
-- that lets it be written or executed.
abbrev pub is_harmless : Call → Bool
is_harmless (PassThrough.open_new _ _) = false
is_harmless (PassThrough.mkfifo _ _) = false
is_harmless (PassThrough.mkdir _ _) = false
is_harmless (PassThrough.truncate _ _) = false
is_harmless (PassThrough.creat _ _) = false
is_harmless (PassThrough.mknod _ _ _) = false
is_harmless (PassThrough.symlink _ _) = false
is_harmless (PassThrough.rename _ _) = false
is_harmless (PassThrough.link _ _) = false
is_harmless (PassThrough.pwrite _ _ _) = false
is_harmless (PassThrough.ftruncate _ _) = false
is_harmless (PassThrough.chmod _ mode) = not (modifies mode)
is_harmless (PassThrough.access _ mask) = not (asks_more mask)
is_harmless _ = true
