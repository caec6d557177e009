-- ===== src/Fuse/Directory.antt =====
-- src/functions_translate.c: `readdir`.
use pipefs.Common.{
  ℕ, Bool, false, not, none, some, List, [], ◌∷◌, ◌++◌, if◌then◌else◌, ◌==◌, take, Bytes,
}
use pipefs.Common.Int.{ℤ, pos, neg}
use pipefs.SystemError.{Result, ok, throws, aborts}
use pipefs.Util.{translate_suffix}
use pipefs.Flags
use pipefs.Flags.{is_flag_set}
use pipefs.Controller.{World}
use pipefs.Controller.CInterface.{pipefs_controller_preload}
use pipefs.Fuse.{Settings, Fuse, path_max}

-- 47 is `/`. Not for an empty path, which FUSE does not use.
unfoldable pub ends_in_slash : Bytes → Bool
ends_in_slash [] = false
ends_in_slash (c ∷ []) = c == 47
ends_in_slash (_ ∷ path) = ends_in_slash path

-- The path of an entry of the directory `path`.
unfoldable pub canonical_path : Bytes → Bytes → Bytes
unfolding ends_in_slash
canonical_path path name =
    let copy = take path_max path in
    (if ends_in_slash copy then copy else copy ++ (47 ∷ [])) ++ take path_max name

-- `filler` is given this name for an entry.
abbrev pub shown_name : Settings → Bytes → Bytes
shown_name settings name =
    elim (translate_suffix name settings.source_suffix settings.target_suffix) [
      | none ↦ name
      | some real_name ↦ real_name
    ]

-- What the directory listing has got, and the result.
pub record Listing : Type 0 where
  pub names : List Bytes
  pub result : ℤ

abbrev with_name : Bytes → Listing → Listing
with_name name l = record l { names = name ∷ l.names }

-- The preload of an entry that is translated.
unfoldable pub preload_entry :
    Settings → (Bytes → World) → Fuse → Bytes → Bytes → Fuse × Result (Unit {0})
unfolding translate_suffix canonical_path pipefs_controller_preload
preload_entry settings worlds s path name =
    elim (translate_suffix name settings.source_suffix settings.target_suffix) [
      | none ↦ (s, ok tt)
      | some real_name ↦
          if is_flag_set settings.flags Flags.preload_readdir
          then (let file = canonical_path path real_name in
              let (c, result) = pipefs_controller_preload (worlds file) s.controller file in
              (record s { controller = c }, result))
          else (s, ok tt)
    ]

-- The loop. `fits` says whether `filler` takes a name, and `worlds` what the system calls return
-- when a file is preloaded; 12 is ENOMEM.
unfoldable pub list_entries :
    Settings → (Bytes → Bool) → (Bytes → World) → Fuse → Bytes → List Bytes → Fuse × Result Listing
unfolding preload_entry
list_entries settings fits worlds s path [] = (s, ok (record { names = []; result = pos 0 }))
list_entries settings fits worlds s path (name ∷ rest) =
    let shown = shown_name settings name in
    let (s', preloaded) = preload_entry settings worlds s path name in
    let (s'', more) = list_entries settings fits worlds s' path rest in
    elim preloaded [
      | throws errno ↦ (s', throws errno)
      | aborts ↦ (s', aborts)
      | ok _ ↦ if not (fits shown) then (s', ok (record { names = []; result = neg 12 })) else (
        s'',
        elim more [ throws errno ↦ throws errno | aborts ↦ aborts | ok l ↦ ok (with_name shown l) ],
      )
    ]

-- `entries` are what the system's `readdir` gives; an error of its first call is `errno`.
unfoldable pub pipefs_readdir :
    Settings
    → (Bytes → Bool)
    → (Bytes → World)
    → ℕ
    → Fuse
    → Bytes
    → List Bytes
    → Fuse × Result Listing
unfolding list_entries
pipefs_readdir settings fits worlds errno s path [] =
    (s, ok (record { names = []; result = neg errno }))
pipefs_readdir settings fits worlds errno s path (name ∷ rest) =
    list_entries settings fits worlds s path (name ∷ rest)
