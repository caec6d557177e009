-- ===== src/Controller/Served.antt =====
-- Controller.cpp with caching: the operations keep the users of the caches in step with the open
-- files, and so none of them breaks off.
use mathlib.Core.Option.{some-injective}
use pipefs.Common.{
  ℕ, suc, ◌-◌, ◌^◌, ◌<◌, ◌≡◌, refl, sym, ◌∙◌, subst, ◌⊎◌, inl, inr, true, Bool-cases, Option, some,
  ◌==◌, arith, update, Bytes, bytes_eq,
}
use pipefs.Common.Int.{is_negative}
use pipefs.Common.Dict.{NodupKeys}
use pipefs.SystemError.{ok, throws, checked_system_call}
use pipefs.SpawnCommand.{FileData, new_file}
use pipefs.Cache
use pipefs.Cache.{ReadResult}
use pipefs.Caches.{get_if_present, get}
use pipefs.Caches.Users.{users, get-users, get_lem}
use pipefs.Controller.{
  Controller, FileInfo, World, add_task, add_cache_to_read_loop, get_cache, create_cache, keep_file,
  open_cached, open_file, close_fd, preload,
}
use pipefs.Controller.Access.{read}
use pipefs.Controller.Session.{Session, opened_as}
use pipefs.Controller.Users.{
  IsServed, Keeps, Keeps-fields, gotten, gotten-IsServed, opened_as-update_above,
}

-- The file that `open` makes with caching.
abbrev pub cached_file : World → Controller → Bytes → FileData
cached_file w c filename = record new_file {
  cache = some (get c.caches filename w.now c.next_cache).1;
}

-- `gotten` with one more file.
pub record Opened (w : World) (c : Controller) (filename : Bytes) (c' : Controller) : Type 0 where
  pub its_caches : c'.caches ≡ (gotten w c filename).caches
  pub its_mode : c'.use_cache ≡ c.use_cache
  pub its_next : c'.next_file ≡ suc c.next_file
  pub its_files :
      (a : ℕ) → c'.files a ≡ update c.files c.next_file (some (cached_file w c filename)) a

pub open_file_cached :
    (w : World) (c : Controller) (filename : Bytes) (fi : FileInfo)
    → c.use_cache ≡ true
    → let (c', r) = open_file w c filename fi in
      (((fi' : FileInfo) × (r ≡ ok (c.next_file, fi'))) × Opened w c filename c')
      ⊎ (((errno : ℕ) × (r ≡ throws errno)) × Keeps (gotten w c filename) c')
unfolding open_file open_cached create_cache get_cache add_cache_to_read_loop add_task keep_file
    checked_system_call
open_file_cached w c filename fi m =
    elim (Bool-cases (get c.caches filename w.now c.next_cache).2) [
      | inl is_new ↦ elim (Bool-cases (is_negative w.dup)) [
        | inl bad ↦ rw (m, is_new, bad) (inr ((w.errno, refl), Keeps-fields refl refl refl refl))
        | inr good ↦
            rw (m, is_new, good)
              (inl (
                (_, refl),
                record {
                  its_caches = refl;
                  its_mode = refl;
                  its_next = refl;
                  its_files = λ a. refl;
                },
              ))
      ]
      | inr known ↦
          rw (m, known)
            (inl (
              (_, refl),
              record { its_caches = refl; its_mode = refl; its_next = refl; its_files = λ a. refl },
            ))
    ]

-- A file that is opened gets a user, and the cache that the map has under its name.
pub Opened-IsServed :
    (w : World) (c c' : Controller) (filename : Bytes) (names : ℕ → Option Bytes)
    → users c.caches filename < 2 ^ 32 - 1
    → Opened w c filename c'
    → IsServed (record { controller = c; names = names })
    → IsServed (record { controller = c'; names = update names c.next_file (some filename) })
unfolding opened_as
Opened-IsServed w c c' filename names room o v =
    let g = gotten-IsServed w c filename names room v in
    record {
      caching = o.its_mode ∙ v.caching;
      unique = subst NodupKeys (sym o.its_caches) g.unique;
      counted = λ name.
          rw (o.its_caches, o.its_next)
            (ground (
              arith,
              v.counted name,
              get-users c.caches filename w.now c.next_cache name room,
              opened_as-update_above name c.next_file c.next_file names (some filename)
                  (omega arith),
            ));
      above = λ a h. ground (arith, v.above a, o.its_next);
      served = λ a name e. elim (Bool-cases (c.next_file == a)) [
        | inl new ↦
            let same : some filename ≡ some name = ground arith in
            (
              cached_file w c filename,
              o.its_files a ∙ rw new refl,
              (get c.caches filename w.now c.next_cache).1,
              refl,
              rw (o.its_caches, ← some-injective filename name same)
                  (get_lem c.caches filename w.now c.next_cache).0,
            )
        | inr old ↦
            let (file, there, cache, its, present) = g.served a name (ground arith) in
            (file, o.its_files a ∙ rw old there, cache, its, rw o.its_caches present)
      ];
    }

pub preload_cached :
    (w : World) (c : Controller) (filename : Bytes)
    → c.use_cache ≡ true
    → Keeps (gotten w c filename) (preload w c filename).0
unfolding preload get_cache add_cache_to_read_loop add_task checked_system_call close_fd
preload_cached w c filename m = elim (Bool-cases (get c.caches filename w.now c.next_cache).2) [
  | inl is_new ↦ elim (Bool-cases (is_negative w.opened)) [
    | inl bad ↦ rw (m, is_new, bad) (Keeps-fields refl refl refl refl)
    | inr good ↦ elim (Bool-cases (is_negative w.dup)) [
      | inl bad ↦ rw (m, is_new, good, bad) (Keeps-fields refl refl refl refl)
      | inr fine ↦ rw (m, is_new, good, fine) (Keeps-fields refl refl refl refl)
    ]
  ]
  | inr known ↦ rw (m, known) (Keeps-fields refl refl refl refl)
]

-- A read of an open file is a read of the cache of its name, and changes nothing.
pub read_served :
    (w : World) (s : Session) (a size offset : ℕ) (name : Bytes)
    → IsServed s
    → s.names a ≡ some name
    → (cache : ℕ) × (get_if_present s.controller.caches name ≡ some cache)
      × (read w s.controller a size offset
          ≡ (s.controller, ok (Cache.read (s.controller.read_loop.heap cache) size offset)))
unfolding read
read_served w s a size offset name v e =
    let (file, there, cache, its, present) = v.served a name e in (cache, present, ground arith)
