-- ===== src/Controller/Tests.antt =====
-- Controller.cpp: the theorems at concrete inputs.
use pipefs.Common.{
  ℕ, ◌+◌, ◌*◌, ◌/◌, ◌%◌, ◌^◌, ◌≡◌, refl, ◌⊎◌, ◌≤◌, ◌<◌, true, false, Option, none, some, [], ◌∷◌,
  arith, Bytes, codes, update, All, take, drop, length,
}
use pipefs.Common.Int.{pos, negsuc, is_negative}
use pipefs.SystemError.{ok, throws}
use pipefs.SpawnCommand.{Answers, FileData}
use pipefs.Cache
use pipefs.Common.Dict.{lookup}
use pipefs.Caches.{get, get_if_present}
use pipefs.Caches.Sorting.{insertion_sorter}
use pipefs.Caches.Users.{users}
use pipefs.Controller.{Controller, FileInfo, World, open_file}
use pipefs.Controller.Access.{read, release}
use pipefs.Controller.Commands.{new_controller}
use pipefs.Controller.Session.{Session, opens, Reach, start, next, HasRoom}
use pipefs.Controller.Users.{IsServed}
use pipefs.Controller.Invariant.{Reach-IsServed, release_succeeds, reads_shared}
use pipefs.Controller.Direct.{run_reads, run_reads-stream}
use pipefs.Controller.Opening.{
  with_task, with_file, with_cache, open_file_cached_cases, open_file_direct_cases,
}
use pipefs.Controller.Stat.{StatInfo, modify_stat_info, bit, IsShownSize, modify_stat_info_lem}

abbrev answers : Answers
answers = record {
  pipe = pos 0;
  read_end = pos 7;
  write_end = pos 8;
  fcntl = pos 0;
  fork = pos 99;
  errno = 0;
}

abbrev world : World
world = record {
  now = 1;
  dup = pos 6;
  opened = pos 5;
  spawn = answers;
  closed = pos 0;
  read = pos 0;
  bytes = [];
  errno = 0;
}

abbrev info : FileInfo
info = record { flags = 0; direct_io = false; nonseekable = false }

abbrev opened_info : FileInfo
opened_info = record { flags = 0; direct_io = true; nonseekable = false }

-- With caching, and without anything.
abbrev fresh : Controller
fresh = new_controller true true 100 2

abbrev name : Bytes
name = codes "a.txt"

abbrev one_open : Controller
one_open = (open_file world fresh name info).0

abbrev session : Session
session = record { controller = one_open; names = update (λ _. none) 0 (some name) }

opens_one : open_file world fresh name info ≡ (one_open, ok (0, opened_info))
unfolding open_file get lookup
opens_one = refl

room : HasRoom fresh name
unfolding users lookup
room = omega arith

session-Reach : Reach (insertion_sorter (λ d. d.last_accessed)) 100 2 session
session-Reach = next (start true) (opens world name info opened_info 0 one_open room opens_one)

Reach-IsServed_example : IsServed session
Reach-IsServed_example = Reach-IsServed (insertion_sorter (λ d. d.last_accessed)) session-Reach

release_succeeds_example :
    (release (insertion_sorter (λ d. d.last_accessed)) world one_open name 0).1 ≡ ok tt
release_succeeds_example =
    release_succeeds (insertion_sorter (λ d. d.last_accessed)) world 0 name session-Reach refl

reads_shared_example :
    (cache : ℕ) × (get_if_present one_open.caches name ≡ some cache)
    × (read world one_open 0 10 0
        ≡ (one_open, ok (Cache.read (one_open.read_loop.heap cache) 10 0)))
reads_shared_example =
    reads_shared (insertion_sorter (λ d. d.last_accessed)) name session-Reach world 0 10 0 refl

-- A file that a command was started for.
abbrev direct : Controller
direct = (open_file world (new_controller false false 0 0) name info).0

abbrev file : FileData
file = record { fd = pos 7; pid = pos 99; current_offset = 0; cache = none }

its_file : direct.files 0 ≡ some file
unfolding open_file
its_file = refl

-- Two reads in order around one at a wrong offset.
run_reads-stream_example :
    All
      (λ e. e.1 ≡ take (length e.1) (drop e.0 (codes "hello")))
      (run_reads world 0
        (record { size = 2; offset = 0; ready = 5; fails = false }
          ∷ record { size = 2; offset = 0; ready = 3; fails = false }
          ∷ record { size = 4; offset = 2; ready = 1; fails = false }
          ∷ [])
        (codes "hello")
        direct)
run_reads-stream_example =
    run_reads-stream world 0
      (record { size = 2; offset = 0; ready = 5; fails = false }
        ∷ record { size = 2; offset = 0; ready = 3; fails = false }
        ∷ record { size = 4; offset = 2; ready = 1; fails = false }
        ∷ [])
      (codes "hello") (codes "hello") direct file its_file refl refl

-- `dup` fails with EMFILE.
abbrev exhausted : World
exhausted = record world { dup = negsuc 0; errno = 24 }

open_file_cached_cases_example :
    let caches' = (get fresh.caches name 1 0).0 in
    ((cache : ℕ) × (get_if_present fresh.caches name ≡ some cache)
      × (open_file exhausted fresh name info ≡ (
        with_file (record fresh { caches = caches' }) (with_cache cache),
        ok (0, opened_info),
      )))
    ⊎ ((get_if_present fresh.caches name ≡ none)
        × (is_negative (negsuc 0) ≡ false)
        × (open_file exhausted fresh name info ≡ (
          with_file
              (with_task exhausted (record fresh { caches = caches' }) none 0 0)
              (with_cache 0),
          ok (0, opened_info),
        )))
    ⊎ ((get_if_present fresh.caches name ≡ none)
        × (is_negative (negsuc 0) ≡ true)
        × (open_file exhausted fresh name info
            ≡ (record fresh { caches = caches'; next_cache = 1 }, throws 24))
        × (users caches' name ≡ 1)
        × (get_if_present caches' name ≡ some 0))
open_file_cached_cases_example = open_file_cached_cases exhausted fresh name info refl

open_file_direct_cases_example :
    (open_file world (new_controller false false 0 0) name info ≡ (
      with_file (record (new_controller false false 0 0) { held = pos 7 ∷ [] }) file,
      ok (0, record opened_info { nonseekable = true }),
    ))
    ⊎ (((is_negative (pos 0) ≡ true) ⊎ (is_negative (pos 0) ≡ true) ⊎ (is_negative (pos 99) ≡ true))
        × (open_file world (new_controller false false 0 0) name info
            ≡ (new_controller false false 0 0, throws 0)))
open_file_direct_cases_example =
    open_file_direct_cases world (new_controller false false 0 0) name info refl refl
      (λ e. ground arith)

-- 16877 is a directory's mode, 040755.
abbrev half_full : Option Cache.Cache
half_full = some (record { contents = codes "hello"; finished = true })

abbrev stat_after : StatInfo
stat_after = record { mode = 33060; size = 5; blocks = 1 }

stat_result :
    modify_stat_info half_full (record { mode = 16877; size = 1; blocks = 2 }) ≡ stat_after
unfolding modify_stat_info
stat_result = refl

modify_stat_info_lem_example :
    let after = modify_stat_info half_full (record { mode = 16877; size = 1; blocks = 2 }) in
    (after.mode / 2 ^ 12 ≡ 8)
    × (bit 8 after.mode ≡ bit 8 16877)
    × (bit 5 after.mode ≡ bit 5 16877)
    × (bit 2 after.mode ≡ bit 2 16877)
    × (after.mode % 2 ^ 12 ≡ bit 8 16877 + (bit 5 16877 + bit 2 16877))
    × IsShownSize half_full after.size
    × (after.size ≤ 512 * after.blocks)
    × (512 * after.blocks < after.size + 512)
modify_stat_info_lem_example =
    modify_stat_info_lem half_full (record { mode = 16877; size = 1; blocks = 2 })
