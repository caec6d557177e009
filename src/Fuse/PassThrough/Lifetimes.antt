-- ===== src/Fuse/PassThrough/Lifetimes.antt =====
-- src/functions.c and functions_translate.c: files from `create` or `open` to `release`.
use pipefs.Common.{
  ℕ, ◌≡◌, refl, ◌==◌, Bool, true, false, Option, none, some, ==_iff, List, ◌∷◌, arith, Bytes,
}
use pipefs.Common.Int.{ℤ, int_beq_iff, pos, is_negative}
use pipefs.SystemError.{ok}
use pipefs.SpawnCommand.{close}
use pipefs.Caches.{CacheData}
use pipefs.Caches.Sorting.{Sorter}
use pipefs.Controller.{World, FileInfo}
use pipefs.Fuse.{
  Settings, BasicFileData, Fuse, Files, replies, pipefs_fullpath, source_of, has_source_path,
  check_suffix,
}
use pipefs.Fuse.Handles.{hold, with_basic, pipefs_open, open_translated, pipefs_release}
use pipefs.Fuse.PassThrough.{is_given, System, refuses, performs, pwrite, creat}
use pipefs.Fuse.PassThrough.OpenFiles.{
  succeeds, pipefs_write, pipefs_fsync, pipefs_ftruncate, pipefs_create,
}

-- A new file that is passed on, with the open descriptor `fd`.
abbrev kept : Fuse → ℤ → Fuse
kept s fd = with_basic (hold s fd) (record { fd = fd; translated = none })

close-head : (fd : ℤ) (held : List ℤ) → close fd (fd ∷ held) ≡ held
unfolding close
close-head fd held = rw ((int_beq_iff fd fd).1 refl) refl

module _ (sorter : Sorter Bytes CacheData (λ d. d.last_accessed)) (w : World) (closed : ℤ)
    (system : System) where
  -- What holds from `create`, which has led from `s` to `t` and the file `fh`, to its `release`.
  abbrev pub Lives : Fuse → ℤ → Bytes → Fuse → ℕ → Type 0
  Lives s fd path t fh =
      let u = (pipefs_release sorter w closed t path fh).0 in
      ((bytes : Bytes) (offset : ℕ)
        → pipefs_write system t fh bytes offset ≡ ok (performs system (pwrite fd bytes offset)))
      × (t.controller.held ≡ fd ∷ s.controller.held)
      × (u.controller.held ≡ s.controller.held)
      × (u.basic_files fh ≡ none)
      × ((other : ℕ) → (fh == other) ≡ false → u.basic_files other ≡ s.basic_files other)

  kept-Lives : (s : Fuse) (fd : ℤ) (path : Bytes) → Lives s fd path (kept s fd) s.next_basic
  unfolding pipefs_write pipefs_release
  kept-Lives s fd path =
      let here = (==_iff s.next_basic s.next_basic).1 refl in
      (
        λ bytes offset. rw (here, pipefs_write) refl,
        refl,
        rw (here, pipefs_release) (close-head fd s.controller.held),
        rw (here, pipefs_release) (rw here refl),
        λ other apart. rw (here, pipefs_release) (rw apart refl),
      )

  -- A file that `create` has made, for a path that does not end in the source suffix and is not the
  -- path of a translated file, is written through the descriptor that `creat` has returned. Its
  -- `release` closes that descriptor and no other, frees the file and leaves the other files alone:
  -- the open descriptors are those from before.
  pub create-release :
      (settings : Settings) (files : Files) (s : Fuse) (path : Bytes) (mode : ℕ)
      → check_suffix settings (pipefs_fullpath settings path) ≡ false
      → has_source_path settings files (pipefs_fullpath settings path) ≡ false
      → is_negative (system.result (creat (pipefs_fullpath settings path) mode)) ≡ false
      → let (t, outcome, fh) = pipefs_create system settings files s path mode in
        (fh ≡ some s.next_basic)
        × Lives s (system.result (creat (pipefs_fullpath settings path) mode)) path t s.next_basic
  unfolding pipefs_create
  create-release settings files s path mode visible free good =
      rw (visible, free, good)
        (refl, kept-Lives s (system.result (creat (pipefs_fullpath settings path) mode)) path)

abbrev is_translated : Option BasicFileData → Bool
is_translated none = false
is_translated (some file) = is_given file.translated

open_translated-is_translated :
    (w : World) (s t : Fuse) (path : Bytes) (fd : ℤ) (fi opened : FileInfo) (fh : ℕ)
    → open_translated w s path fd fi ≡ (t, ok (replies (pos 0) (some (fh, opened))))
    → is_translated (t.basic_files fh) ≡ true
unfolding open_translated
open_translated-is_translated w s t path fd fi opened fh h = ground arith

pipefs_open-is_translated :
    (settings : Settings) (files : Files) (buffer path source : Bytes) (s t : Fuse)
    (fi opened : FileInfo) (fh : ℕ)
    → source_of settings files (pipefs_fullpath settings path) ≡ some source
    → pipefs_open settings files buffer s path fi ≡ (t, ok (replies (pos 0) (some (fh, opened))))
    → is_translated (t.basic_files fh) ≡ true
unfolding pipefs_open
pipefs_open-is_translated settings files buffer path source s t fi opened fh translated h =
    let fd = files.opens source in
    ground (arith, open_translated-is_translated files.world (hold s fd) t path fd fi opened fh)

-- A file that is opened where a source is translated, with success, can only be read: writing it and
-- changing its size are refused with EINVAL, and `fsync` does nothing; no system call is made on the
-- descriptor of the source.
pub open-translated :
    (system : System) (settings : Settings) (files : Files) (buffer path source : Bytes)
    (s t : Fuse) (fi opened : FileInfo) (fh : ℕ)
    → source_of settings files (pipefs_fullpath settings path) ≡ some source
    → pipefs_open settings files buffer s path fi ≡ (t, ok (replies (pos 0) (some (fh, opened))))
    → ((bytes : Bytes) (offset : ℕ) → pipefs_write system t fh bytes offset ≡ ok (refuses 22))
      × ((size : ℕ) → pipefs_ftruncate system t fh size ≡ ok (refuses 22))
      × (pipefs_fsync system t fh ≡ ok succeeds)
unfolding pipefs_write pipefs_ftruncate pipefs_fsync
open-translated system settings files buffer path source s t fi opened fh translated h =
    let given =
      pipefs_open-is_translated settings files buffer path source s t fi opened fh translated h in
    (λ bytes offset. ground arith, λ size. ground arith, ground arith)
