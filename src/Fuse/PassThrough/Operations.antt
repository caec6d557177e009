-- ===== src/Fuse/PassThrough/Operations.antt =====
-- src/operations.c: the table of the operations on paths that are passed on.
use pipefs.Common.{ℕ, Bytes}
use pipefs.Fuse.{Settings, Fuse, Files}
use pipefs.Fuse.PassThrough.{System, Outcome}
use pipefs.Fuse.PassThrough.Entries.{
  pipefs_readlink, pipefs_mknod, pipefs_mkdir, pipefs_unlink, pipefs_rmdir, pipefs_symlink,
  pipefs_rename, pipefs_link,
}
use pipefs.Fuse.PassThrough.Attributes.{
  pipefs_chmod, pipefs_chown, pipefs_truncate, pipefs_utime, pipefs_statfs, pipefs_access,
  pipefs_opendir,
}
use pipefs.Fuse.PassThrough.OpenFiles.{pipefs_create}

-- The fields of `pipefs_oper`, with the arguments of a call. The arguments of `symlink`, `rename` and
-- `link` are two paths.
pub data Operation : Type 0 where
  readlink mkdir chmod truncate access create : Bytes → ℕ → Operation
  mknod chown : Bytes → ℕ → ℕ → Operation
  unlink rmdir utime statfs opendir : Bytes → Operation
  symlink rename link : Bytes → Bytes → Operation

-- `buffer` is what the buffers of paths hold before they are filled.
module _ (system : System) (settings : Settings) (files : Files) (s : Fuse) (buffer : Bytes) where
  unfoldable pub run : Operation → Outcome
  unfolding pipefs_readlink pipefs_mknod pipefs_mkdir pipefs_unlink pipefs_rmdir pipefs_symlink
      pipefs_rename pipefs_link pipefs_chmod pipefs_chown pipefs_truncate pipefs_utime pipefs_statfs
      pipefs_access pipefs_opendir pipefs_create
  run (readlink path size) = (pipefs_readlink system settings files path size).0
  run (mknod path mode dev) = pipefs_mknod system settings files path mode dev
  run (mkdir path mode) = pipefs_mkdir system settings files path mode
  run (unlink path) = pipefs_unlink system settings files path
  run (rmdir path) = pipefs_rmdir system settings files path
  run (symlink path new_link) = pipefs_symlink system settings files path new_link
  run (rename path newpath) = pipefs_rename system settings files buffer path newpath
  run (link path newpath) = pipefs_link system settings files buffer path newpath
  run (chmod path mode) = pipefs_chmod system settings files path mode
  run (chown path uid gid) = pipefs_chown system settings files path uid gid
  run (truncate path newsize) = pipefs_truncate system settings files path newsize
  run (utime path) = pipefs_utime system settings files buffer path
  run (statfs path) = pipefs_statfs system settings files path
  run (access path mask) = pipefs_access system settings files path mask
  run (opendir path) = (pipefs_opendir system settings files path).0
  run (create path mode) = (pipefs_create system settings files s path mode).1
