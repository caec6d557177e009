-- ===== src/Fuse/Handles.antt =====
-- src/functions_translate.c: `fgetattr`, `open`, `read` and `release`.
use pipefs.Common.{
  ℕ, suc, Bool, true, false, not, ◌||◌, Option, none, some, [], ◌∷◌, if◌then◌else◌, update, Bytes,
  bytes_beq, codes,
}
use pipefs.Common.Int.{ℤ, pos, neg, is_negative}
use pipefs.SystemError.{Result, ok, throws, aborts}
use pipefs.Flags
use pipefs.Flags.{has_bit, is_flag_set}
use pipefs.SpawnCommand.{close}
use pipefs.Cache.{ReadResult, returns}
use pipefs.Caches.{CacheData}
use pipefs.Caches.Sorting.{Sorter}
use pipefs.Controller.{Controller, FileInfo, World}
use pipefs.Controller.Stat.{StatInfo, correct_stat_info_data, wait_until_finished_data}
use pipefs.Controller.CInterface.{
  pipefs_controller_open, pipefs_controller_read, pipefs_controller_release,
  pipefs_controller_wait_until_finished_fd,
}
use pipefs.Fuse.{
  Settings, BasicFileData, Fuse, Files, Reply, waits, replies, no_entry, invalid, pipefs_fullpath,
  source_of, check_suffix, pipefs_getattr,
}

-- Of a translated file, after `fstat`: the attributes are corrected before the wait.
unfoldable pub fgetattr_translated : Settings → Fuse → ℕ → StatInfo → Result (Reply StatInfo)
unfolding correct_stat_info_data wait_until_finished_data
fgetattr_translated settings s data_ info = elim (correct_stat_info_data s.controller data_ info) [
  | throws errno ↦ throws errno
  | aborts ↦ aborts
  | ok corrected ↦
      if not (is_flag_set settings.flags Flags.wait_on_stat)
      then ok (replies (pos 0) (some corrected))
      else elim (pipefs_controller_wait_until_finished_fd s.controller data_) [
        | throws errno ↦ throws errno
        | aborts ↦ aborts
        | ok finished ↦ ok (if finished then replies (pos 0) (some corrected) else waits)
      ]
]

abbrev found : Option StatInfo → StatInfo → StatInfo
found none buffer = buffer
found (some info) _ = info

-- The result at the end of `pipefs_fgetattr`.
abbrev fail_if {ℓ} : {A : Type ℓ} → Bool → ℕ → Result (Reply A) → Result (Reply A)
fail_if failed errno (throws e) = throws e
fail_if failed errno aborts = aborts
fail_if failed errno (ok waits) = ok waits
fail_if failed errno (ok (replies r a)) =
    ok (if failed then replies (neg errno) none else replies r a)

abbrev is_none {ℓ} : {A : Type ℓ} → Option A → Bool
is_none none = true
is_none (some _) = false

-- `fstat` is what it finds for the file, if it succeeds; where it fails the code goes on with what
-- `buffer` holds, and reports the error at the end. `aborts`: `fh` points to no file.
unfoldable pub pipefs_fgetattr :
    Settings
    → Files
    → Option StatInfo
    → StatInfo
    → Fuse
    → Bytes
    → ℕ
    → Fuse × Result (Reply StatInfo)
unfolding pipefs_getattr fgetattr_translated
pipefs_fgetattr settings files fstat buffer s path fh =
    if bytes_beq path (codes "/") then pipefs_getattr settings files s path else (
      s,
      elim (s.basic_files fh) [
        | none ↦ aborts
        | some file ↦ fail_if (is_none fstat) files.errno (elim file.translated [
          | none ↦ ok (replies (pos 0) (some (found fstat buffer)))
          | some data_ ↦ fgetattr_translated settings s data_ (found fstat buffer)
        ])
      ],
    )

-- O_WRONLY, O_RDWR and O_CREAT
abbrev pub writes : ℕ → Bool
writes flags = has_bit 0 flags || has_bit 1 flags || has_bit 6 flags

-- `fi->fh` is the address of the new file.
abbrev pub with_basic : Fuse → BasicFileData → Fuse
with_basic s file = record s {
  basic_files = update s.basic_files s.next_basic (some file);
  next_basic = suc s.next_basic;
}

abbrev pub with_controller : Fuse → Controller → Fuse
with_controller s c = record s { controller = c }

-- The descriptor `fd` is open, and belongs to a translated file. A negative result of the controller
-- leaves the descriptor open.
unfoldable pub open_translated :
    World → Fuse → Bytes → ℤ → FileInfo → Fuse × Result (Reply (ℕ × FileInfo))
unfolding pipefs_controller_open
open_translated w s path fd fi =
    let (c, result) = pipefs_controller_open w s.controller path fi in
    elim result [
      | throws errno ↦ (with_controller s c, throws errno)
      | aborts ↦ (with_controller s c, aborts)
      | ok r ↦ elim r.0 [
        | none ↦ (with_controller s c, ok (replies r.1 none))
        | some opened ↦ (
          with_basic (with_controller s c) (record { fd = fd; translated = some opened.0 }),
          ok (replies (pos 0) (some (s.next_basic, opened.1))),
        )
      ]
    ]

abbrev pub hold : Fuse → ℤ → Fuse
hold s fd = with_controller s (record s.controller { held = fd ∷ s.controller.held })

-- `buffer` is what the path buffer holds before `pipefs_fullpath` fills it: the suffix is tested on
-- that.
unfoldable pub pipefs_open :
    Settings → Files → Bytes → Fuse → Bytes → FileInfo → Fuse × Result (Reply (ℕ × FileInfo))
unfolding pipefs_fullpath check_suffix source_of open_translated
pipefs_open settings files buffer s path fi =
    let fpath = pipefs_fullpath settings path in
    if check_suffix settings buffer
    then (s, ok (replies no_entry none))
    else elim (source_of settings files fpath) [
      | some translated_path ↦
          let fd = files.opens translated_path in
          if writes fi.flags
          then (s, ok (replies invalid none))
          else if is_negative fd
          then (s, ok (replies (neg files.errno) none))
          else open_translated files.world (hold s fd) path fd fi
      | none ↦
          let fd = files.opens fpath in
          if is_negative fd then (s, ok (replies (neg files.errno) none)) else (
            with_basic (hold s fd) (record { fd = fd; translated = none }),
            ok (replies (pos 0) (some (s.next_basic, fi))),
          )
    ]

-- `pread` is the result of the system call on a file that is not translated, with its bytes.
unfoldable pub pipefs_read : World → ℤ × Bytes → Fuse → ℕ → ℕ → ℕ → Fuse × Result ReadResult
unfolding pipefs_controller_read
pipefs_read w pread s fh size offset = elim (s.basic_files fh) [
  | none ↦ (s, aborts)
  | some file ↦ elim file.translated [
    | some data_ ↦
        let (c, result) = pipefs_controller_read w s.controller data_ size offset in
        (with_controller s c, result)
    | none ↦
        (s, ok (if is_negative pread.0 then returns (neg w.errno) [] else returns pread.0 pread.1))
  ]
]

module _ (sorter : Sorter Bytes CacheData (λ d. d.last_accessed)) where
  -- The descriptor is closed and the file freed in any case; `closed` is the result of `close`.
  unfoldable pub pipefs_release : World → ℤ → Fuse → Bytes → ℕ → Fuse × Result ℤ
  unfolding close pipefs_controller_release
  pipefs_release w closed s path fh = elim (s.basic_files fh) [
    | none ↦ (s, aborts)
    | some file ↦
        let c = record s.controller { held = close file.fd s.controller.held } in
        let s' = record s { controller = c; basic_files = update s.basic_files fh none } in
        elim file.translated [
          | none ↦ (s', ok (if is_negative closed then neg w.errno else closed))
          | some data_ ↦
              let (c', result) = pipefs_controller_release sorter w c path data_ in
              (
                with_controller s' c',
                elim result [ ok r ↦ ok r.1 | throws errno ↦ throws errno | aborts ↦ aborts ],
              )
        ]
  ]
