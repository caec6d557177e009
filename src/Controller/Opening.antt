-- ===== src/Controller/Opening.antt =====
-- Controller.cpp and pipefs_controller.cpp: what `open` does on each branch, and its error results.
use pipefs.Common.{
  ℕ, suc, ◌≡◌, refl, ◌∙◌, ◌≢◌, ◌⊎◌, inl, inr, true, false, Bool-cases, Option, none, some,
  Option-cases, ◌∷◌, arith, update, Bytes, bytes_beq_iff, bytes_eq,
}
use pipefs.Common.Int.{pos, neg, is_negative}
use pipefs.SystemError.{Result, ok, throws, aborts, checked_system_call}
use pipefs.SpawnCommand.{FileData, new_file}
use pipefs.SpawnCommand.Wiring.{spawn_command-balanced}
use pipefs.Caches.{CacheData, get_if_present, get, add}
use pipefs.Common.Dict.{lookup, lookup-insert}
use pipefs.Caches.Users.{users, get_lem}
use pipefs.ReadLoop
use pipefs.Controller.{
  Controller, FileInfo, World, add_task, add_cache_to_read_loop, get_cache, create_cache, keep_file,
  open_cached, open_direct, open_file,
}
use pipefs.Controller.CInterface.{pipefs_controller_open, try_system_error}

-- The file with a cache.
abbrev pub with_cache : ℕ → FileData
with_cache cache = record new_file { cache = some cache }

-- What a new task brings: the copy of the input, and the handler in the read loop.
abbrev pub with_task : World → Controller → Option ℕ → ℕ → ℕ → Controller
with_task w c file flags cache = record c {
  held = w.dup ∷ c.held;
  tasks = update c.tasks c.next_task (record { file = file; input_fd = w.dup; flags = flags });
  next_task = suc c.next_task;
  next_cache = suc cache;
  read_loop = ReadLoop.add c.read_loop (record { read_starter = c.next_task; cache = cache });
}

abbrev pub with_file : Controller → FileData → Controller
with_file c file = record c {
  files = update c.files c.next_file (some file);
  next_file = suc c.next_file;
}

get_known :
    (w : World) (c : Controller) (filename : Bytes) (cache : ℕ)
    → get_if_present c.caches filename ≡ some cache
    → let g = get c.caches filename w.now c.next_cache in (g.2 ≡ false) × (g.1 ≡ cache)
get_known w c filename cache e = (
  ground (arith, get_lem c.caches filename w.now c.next_cache),
  ground (arith, get_lem c.caches filename w.now c.next_cache),
)

get_new :
    (w : World) (c : Controller) (filename : Bytes)
    → get_if_present c.caches filename ≡ none
    → let g = get c.caches filename w.now c.next_cache in
      (g.2 ≡ true)
      × (g.1 ≡ c.next_cache)
      × (get_if_present g.0 filename ≡ some c.next_cache)
      × (users g.0 filename ≡ 1)
unfolding get add get_if_present users
get_new w c filename e = elim (Option-cases (lookup filename c.caches)) [
  | inl absent ↦
      let fresh : CacheData = record {
        cache = c.next_cache;
        last_accessed = w.now;
        usage_count = 1;
      } in
      let hit = lookup-insert filename filename fresh c.caches in
      rw (absent, get)
        (
          refl,
          refl,
          ground (arith, hit, bytes_beq_iff filename filename),
          ground (arith, hit, bytes_beq_iff filename filename),
        )
  | inr (entry, present) ↦ absurd (ground arith)
]

-- `open` with caching. Where the name has a cache, the new file shares it and no command is started.
-- Where it has none, the file gets a new cache, and one task is posted that runs the command on a
-- copy of the input. If the copy fails, the error is thrown without a file or a task, and the new
-- cache stays in the map with one user.
pub open_file_cached_cases :
    (w : World) (c : Controller) (filename : Bytes) (fi : FileInfo)
    → c.use_cache ≡ true
    → let caches' = (get c.caches filename w.now c.next_cache).0 in
      let fi' : FileInfo = record { flags = fi.flags; direct_io = true; nonseekable = false } in
      ((cache : ℕ) × (get_if_present c.caches filename ≡ some cache)
        × (open_file w c filename fi ≡ (
          with_file (record c { caches = caches' }) (with_cache cache),
          ok (c.next_file, fi'),
        )))
      ⊎ ((get_if_present c.caches filename ≡ none)
          × (is_negative w.dup ≡ false)
          × (open_file w c filename fi ≡ (
            with_file
                (with_task w (record c { caches = caches' }) none fi.flags c.next_cache)
                (with_cache c.next_cache),
            ok (c.next_file, fi'),
          )))
      ⊎ ((get_if_present c.caches filename ≡ none)
          × (is_negative w.dup ≡ true)
          × (open_file w c filename fi
              ≡ (record c { caches = caches'; next_cache = suc c.next_cache }, throws w.errno))
          × (users caches' filename ≡ 1)
          × (get_if_present caches' filename ≡ some c.next_cache))
unfolding open_file open_cached create_cache get_cache add_cache_to_read_loop add_task keep_file
    checked_system_call
open_file_cached_cases w c filename fi m =
    let first : open_file w c filename fi
        ≡ open_cached w c filename (record fi { direct_io = true }) =
      ground arith in
    elim (Option-cases (get_if_present c.caches filename)) [
      | inr (cache, e) ↦
          let (old, its) = get_known w c filename cache e in
          inl (cache, e, first ∙ rw (old, its) refl)
      | inl e ↦
          let (new, its, present, one) = get_new w c filename e in
          elim (Bool-cases (is_negative w.dup)) [
            | inr good ↦ inr (inl (e, good, first ∙ rw (new, its, good) refl))
            | inl bad ↦ inr (inr (e, bad, first ∙ rw (new, its, bad) refl, one, present))
          ]
    ]

-- `open` without caching and seeking. Where the command is started, the file reads the pipe from the
-- offset 0 on, and the read end is the one descriptor that stays open; where it is not, the error
-- of the failing call is thrown, and the controller is as before. The pipe's ends are different.
pub open_file_direct_cases :
    (w : World) (c : Controller) (filename : Bytes) (fi : FileInfo)
    → c.use_cache ≡ false
    → c.seekable ≡ false
    → w.spawn.read_end ≢ w.spawn.write_end
    → let file : FileData = record {
      fd = w.spawn.read_end;
      pid = w.spawn.fork;
      current_offset = 0;
      cache = none;
    } in
      let fi' : FileInfo = record { flags = fi.flags; direct_io = true; nonseekable = true } in
      (open_file w c filename fi
        ≡ (with_file (record c { held = w.spawn.read_end ∷ c.held }) file, ok (c.next_file, fi')))
      ⊎ (((is_negative w.spawn.pipe ≡ true)
            ⊎ (is_negative w.spawn.fcntl ≡ true)
            ⊎ (is_negative w.spawn.fork ≡ true))
          × (open_file w c filename fi ≡ (c, throws w.spawn.errno)))
unfolding open_file open_direct keep_file
open_file_direct_cases w c filename fi nc ns ends =
    let first : open_file w c filename fi ≡ open_direct w c (record fi { direct_io = true }) =
      ground arith in
    elim (spawn_command-balanced w.spawn c.held (some new_file) ends) [
      | inl (_, _, _, started) ↦ inl (first ∙ rw (started, open_direct) refl)
      | inr (why, failed) ↦ inr (why, first ∙ rw (failed, open_direct) refl)
    ]

-- The C function `open` answers 0 and the new file, or the negative `errno` of the exception and no
-- file; no `system_error` goes through it.
pub pipefs_controller_open_lem :
    (w : World) (c : Controller) (filename : Bytes) (fi : FileInfo)
    → let (c', result) = open_file w c filename fi in
      ((file : ℕ × FileInfo) × (result ≡ ok file)
        × (pipefs_controller_open w c filename fi ≡ (c', ok (some file, pos 0))))
      ⊎ ((errno : ℕ) × (result ≡ throws errno)
          × (pipefs_controller_open w c filename fi ≡ (c', ok (none, neg errno))))
      ⊎ ((result ≡ aborts) × (pipefs_controller_open w c filename fi ≡ (c', aborts)))
unfolding pipefs_controller_open try_system_error
pipefs_controller_open_lem w c filename fi = by_result (open_file w c filename fi).1 refl
  where
    by_result :
        (r : Result (ℕ × FileInfo))
        → (open_file w c filename fi).1 ≡ r
        → ((file : ℕ × FileInfo) × ((open_file w c filename fi).1 ≡ ok file)
            × (pipefs_controller_open w c filename fi
                ≡ ((open_file w c filename fi).0, ok (some file, pos 0))))
          ⊎ ((errno : ℕ) × ((open_file w c filename fi).1 ≡ throws errno)
              × (pipefs_controller_open w c filename fi
                  ≡ ((open_file w c filename fi).0, ok (none, neg errno))))
          ⊎ (((open_file w c filename fi).1 ≡ aborts)
              × (pipefs_controller_open w c filename fi ≡ ((open_file w c filename fi).0, aborts)))
    by_result (ok file) e = inl (file, e, rw (e, pipefs_controller_open) refl)
    by_result (throws errno) e = inr (inl (errno, e, rw (e, pipefs_controller_open) refl))
    by_result aborts e = inr (inr (e, rw (e, pipefs_controller_open) refl))
