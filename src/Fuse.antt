-- ===== src/Fuse.antt =====
-- src/functions_common.c and src/functions_translate.c: the FUSE operations on files that may be
-- translated. System calls are parameters; the controller's C functions are those of `Controller`.
pub mod Handles
pub mod Directory
pub mod Visible
pub mod PassThrough
pub mod Tests
use pipefs.Common.{
  ℕ, suc, ◌/◌, ◌%◌, ◌^◌, Bool, true, false, not, ◌||◌, Option, none, some, List, [], ◌∷◌, ◌++◌, ltb,
  ◌==◌, if◌then◌else◌, update, take, Bytes, bytes_beq, codes,
}
use pipefs.Common.Int.{ℤ, pos, negsuc, neg, is_negative}
use pipefs.SystemError.{Result, ok, throws, aborts}
use pipefs.Util.{is_suffix, translate_file}
use pipefs.Flags
use pipefs.Flags.{has_bit, is_flag_set}
use pipefs.SpawnCommand.{close}
use pipefs.Cache.{ReadResult, returns}
use pipefs.Caches.{CacheData}
use pipefs.Caches.Sorting.{Sorter}
use pipefs.Controller.{Controller, FileInfo, World}
use pipefs.Controller.Stat.{
  StatInfo, correct_stat_info, correct_stat_info_data, wait_until_finished,
  wait_until_finished_data,
}
use pipefs.Controller.CInterface.{
  pipefs_controller_open, pipefs_controller_preload, pipefs_controller_read,
  pipefs_controller_release, pipefs_controller_wait_until_finished_file,
}

-- `pipefs_data`, as far as the operations read it.
pub record Settings : Type 0 where
  pub rootdir : Bytes
  pub source_suffix : Bytes
  pub target_suffix : Bytes
  pub flags : ℕ

-- `pipefs_basic_filedata`; `translated` is its pointer to the controller's file.
pub record BasicFileData : Type 0 where
  pub fd : ℤ
  pub translated : Option ℕ

-- The controller, and the files that `fi->fh` may point to.
pub record Fuse : Type 0 where
  pub controller : Controller
  pub basic_files : ℕ → Option BasicFileData
  pub next_basic : ℕ

-- What `stat` and `lstat` find for a path, if they succeed, and what the other calls return.
pub record Files : Type 0 where
  pub world : World
  pub stat : Bytes → Option StatInfo
  pub lstat : Bytes → Option StatInfo
  pub opens : Bytes → ℤ
  pub errno : ℕ

abbrev pub path_max : ℕ
path_max = 4096

-- `strcpy` and `strncat`. The buffer has PATH_MAX bytes, and nothing tests that both parts fit; here
-- it holds as many as there are.
unfoldable pub pipefs_fullpath : Settings → Bytes → Bytes
pipefs_fullpath settings path = settings.rootdir ++ take path_max path

abbrev mode_of : Option StatInfo → Option ℕ
mode_of none = none
mode_of (some info) = some info.mode

unfoldable pub source_of : Settings → Files → Bytes → Option Bytes
unfolding translate_file
source_of settings files fpath =
    translate_file (λ p. mode_of (files.stat p)) fpath settings.source_suffix settings.target_suffix

abbrev is_some {ℓ} : {A : Type ℓ} → Option A → Bool
is_some none = false
is_some (some _) = true

unfoldable pub has_source_path : Settings → Files → Bytes → Bool
unfolding source_of
has_source_path settings files fpath = is_some (source_of settings files fpath)

unfoldable pub check_suffix : Settings → Bytes → Bool
unfolding is_suffix
check_suffix settings fpath = is_some (is_suffix fpath settings.source_suffix)

-- A call of an operation ends with a number and what it has stored, or it waits for the end of a
-- command.
pub data Reply {ℓ} (A : Type ℓ) : Type ℓ where
  waits : Reply A
  replies : ℤ → Option A → Reply A

-- 2 is ENOENT, 22 is EINVAL.
abbrev pub no_entry : ℤ
no_entry = neg 2

abbrev pub invalid : ℤ
invalid = neg 22

-- Of a translated file, after `stat`: the preload, the wait, and the correction.
unfoldable pub getattr_translated :
    Settings → World → Fuse → Bytes → StatInfo → Fuse × Result (Reply StatInfo)
unfolding pipefs_controller_preload wait_until_finished correct_stat_info
getattr_translated settings w s path info =
    let preloaded =
      if is_flag_set settings.flags Flags.preload_stat
      then pipefs_controller_preload w s.controller path
      else (s.controller, ok tt) in
    let s' = record s { controller = preloaded.0 } in
    let corrected = replies (pos 0) (some (correct_stat_info s'.controller path info)) in
    (
      s',
      elim preloaded.1 [
        | throws errno ↦ throws errno
        | aborts ↦ aborts
        | ok _ ↦
            if not (is_flag_set settings.flags Flags.wait_on_stat)
            then ok corrected
            else elim (pipefs_controller_wait_until_finished_file s'.controller path) [
              | throws errno ↦ throws errno
              | aborts ↦ aborts
              | ok finished ↦ ok (if finished then corrected else waits)
            ]
      ],
    )

unfoldable pub pipefs_getattr : Settings → Files → Fuse → Bytes → Fuse × Result (Reply StatInfo)
unfolding pipefs_fullpath check_suffix source_of getattr_translated
pipefs_getattr settings files s path =
    let fpath = pipefs_fullpath settings path in
    if check_suffix settings fpath
    then (s, ok (replies no_entry none))
    else elim (source_of settings files fpath) [
      | some translated_path ↦ elim (files.stat translated_path) [
        | none ↦ (s, ok (replies (neg files.errno) none))
        | some info ↦ getattr_translated settings files.world s path info
      ]
      | none ↦ elim (files.lstat fpath) [
        | none ↦ (s, ok (replies (neg files.errno) none))
        | some info ↦ (s, ok (replies (pos 0) (some info)))
      ]
    ]
