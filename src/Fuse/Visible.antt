-- ===== src/Fuse/Visible.antt =====
-- src/functions_translate.c: which names there are, and what becomes of their errors.
use pipefs.Common.{
  suc, ◌≤◌, ◌≡◌, refl, ap, inl, inr, true, false, none, some, List, [], ◌∷◌, ◌++◌, map, arith,
  length, take_of_length-le, Bytes, Bool-cases, Option-cases,
}
use pipefs.Common.Int.{pos, neg, is_negative}
use pipefs.SystemError.{ok, aborts}
use pipefs.Util.{translate_suffix, has_directory_bit}
use pipefs.Util.Suffix.{translate_suffix_iff, translate_file_iff}
use pipefs.Flags
use pipefs.Flags.{is_flag_set}
use pipefs.Caches.{get, get_if_present}
use pipefs.Controller.{FileInfo, World, preload}
use pipefs.Controller.Stat.{StatInfo, wait_until_finished}
use pipefs.Controller.CInterface.{pipefs_controller_preload, pipefs_controller_open}
use pipefs.Fuse.{
  Settings, Fuse, Files, replies, pipefs_fullpath, source_of, check_suffix, getattr_translated,
  pipefs_getattr, path_max,
}
use pipefs.Controller.Opening.{open_file_cached_cases}
use pipefs.Fuse.Handles.{pipefs_open, open_translated, hold, writes}
use pipefs.Fuse.Directory.{shown_name, preload_entry, list_entries}

++_assoc : (xs ys zs : Bytes) → (xs ++ ys) ++ zs ≡ xs ++ (ys ++ zs)
++_assoc [] ys zs = refl
++_assoc (x ∷ xs) ys zs = ap (λ l. x ∷ l) (++_assoc xs ys zs)

reassoc : (a b c d : Bytes) → a ++ (b ++ (c ++ d)) ≡ (a ++ (b ++ c)) ++ d
reassoc a b c d = rw (++_assoc a (b ++ c) d, ++_assoc b c d) refl

-- The name that `readdir` makes of a source file leads back to that file: for the path of the
-- directory and the name, `getattr` goes on with the attributes that `stat` finds for the source, if
-- it finds them and they have no directory bit, as long as the path fits its buffer and does not end
-- in the source suffix.
pub readdir-getattr :
    (settings : Settings) (files : Files) (s : Fuse) (directory name shown : Bytes)
    (info : StatInfo)
    → translate_suffix name settings.source_suffix settings.target_suffix ≡ some shown
    → files.stat (settings.rootdir ++ (directory ++ name)) ≡ some info
    → has_directory_bit info.mode ≡ false
    → length (directory ++ shown) ≤ path_max
    → check_suffix settings (settings.rootdir ++ (directory ++ shown)) ≡ false
    → pipefs_getattr settings files s (directory ++ shown)
      ≡ getattr_translated settings files.world s (directory ++ shown) info
unfolding pipefs_getattr pipefs_fullpath source_of
readdir-getattr settings files s directory name shown info t there plain fits visible =
    let (stem, is_name, is_shown) =
      (translate_suffix_iff name settings.source_suffix settings.target_suffix shown).0 t in
    let root = settings.rootdir in
    let path : pipefs_fullpath settings (directory ++ shown) ≡ root ++ (directory ++ shown) =
      ap (λ p. root ++ p) (take_of_length-le path_max (directory ++ shown) fits) in
    let source : source_of settings files (root ++ (directory ++ shown))
        ≡ some (root ++ (directory ++ name)) =
      (translate_file_iff _ (root ++ (directory ++ shown)) settings.source_suffix
          settings.target_suffix (root ++ (directory ++ name))).1
        (
          root ++ (directory ++ stem),
          rw is_shown (reassoc root directory stem settings.target_suffix),
          rw is_name (reassoc root directory stem settings.source_suffix),
          (info.mode, rw there refl, plain),
        ) in
    rw (path, visible, source, there, pipefs_getattr) refl

-- With --wait-on-stat and without caching, `getattr` of a translated file breaks off.
wait-aborts :
    (settings : Settings) (w : World) (s : Fuse) (path : Bytes) (info : StatInfo)
    → is_flag_set settings.flags Flags.wait_on_stat ≡ true
    → s.controller.use_cache ≡ false
    → get_if_present s.controller.caches path ≡ none
    → (getattr_translated settings w s path info).1 ≡ aborts
unfolding getattr_translated pipefs_controller_preload preload wait_until_finished
wait-aborts settings w s path info waiting nc absent =
    let idle : pipefs_controller_preload w s.controller path ≡ (s.controller, ok tt) =
      ground arith in
    elim (Bool-cases (is_flag_set settings.flags Flags.preload_stat)) [
      | inl preloads ↦
          rw (preloads, idle, waiting, getattr_translated)
            (rw (preloads, idle, absent, get_if_present) refl)
      | inr no_preload ↦
          rw (no_preload, waiting, getattr_translated)
            (rw (no_preload, absent, get_if_present) refl)
    ]

-- The names of a listing that has room for all of them, where no preload fails: those of the
-- entries, with the suffix of the source files translated, in order.
list_entries-names :
    (settings : Settings) (worlds : Bytes → World) (path : Bytes) (entries : List Bytes) (s : Fuse)
    → is_flag_set settings.flags Flags.preload_readdir ≡ false
    → list_entries settings (λ _. true) worlds s path entries
      ≡ (s, ok (record { names = map (shown_name settings) entries; result = pos 0 }))
unfolding list_entries preload_entry
list_entries-names settings worlds path [] s off = refl
list_entries-names settings worlds path (name ∷ rest) s off =
    let quiet : preload_entry settings worlds s path name ≡ (s, ok tt) =
      elim (Option-cases (translate_suffix name settings.source_suffix settings.target_suffix)) [
        | inl same ↦ rw (same, preload_entry) refl
        | inr (_, other) ↦ rw (other, off, preload_entry) refl
      ] in
    let more = list_entries-names settings worlds path rest s off in
    rw (quiet, list_entries) (rw (quiet, more) refl)

-- An `open` of a translated file that has no cache yet, with caching, where the input cannot be
-- duplicated: the operation reports the error and makes no file, and the source's descriptor, which
-- it has opened, stays open.
pipefs_open-leaks :
    (settings : Settings) (files : Files) (buffer : Bytes) (s : Fuse) (path source : Bytes)
    (fi : FileInfo)
    → check_suffix settings buffer ≡ false
    → source_of settings files (pipefs_fullpath settings path) ≡ some source
    → writes fi.flags ≡ false
    → is_negative (files.opens source) ≡ false
    → s.controller.use_cache ≡ true
    → get_if_present s.controller.caches path ≡ none
    → is_negative files.world.dup ≡ true
    → let (after, result) = pipefs_open settings files buffer s path fi in
      (result ≡ ok (replies (neg files.world.errno) none))
      × (after.basic_files ≡ s.basic_files)
      × (after.controller.held ≡ files.opens source ∷ s.controller.held)
unfolding pipefs_open open_translated pipefs_controller_open
pipefs_open-leaks settings files buffer s path source fi shown found reads fine caching absent bad =
    let fd = files.opens source in
    let c = (hold s fd).controller in
    elim (open_file_cached_cases files.world c path fi caching) [
      | inl (cache, present, _) ↦ absurd (ground arith)
      | inr (inl (_, good, _)) ↦ absurd (ground arith)
      | inr (inr (_, _, failed, _, _)) ↦
          let after = record (hold s fd) {
            controller = record c {
              caches = (get c.caches path files.world.now c.next_cache).0;
              next_cache = suc c.next_cache;
            };
          } in
          let tail : open_translated files.world (hold s fd) path fd fi
              ≡ (after, ok (replies (neg files.world.errno) none)) =
            ground arith in
          rw (shown, found, reads, fine, pipefs_open) (rw tail (refl, refl, refl))
    ]
