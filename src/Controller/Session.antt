-- ===== src/Controller/Session.antt =====
-- Controller.cpp under a schedule of calls: files are opened, read and released, the thread of the
-- read loop runs handlers, and reads of the commands' output complete. FUSE calls `release` once for
-- each file that it has opened, with the path that the file has then. Here that is the name that it was
-- opened by: no directory above an open file is renamed. Each call and each handler is one step.
use pipefs.Common.{
  ℕ, zero, suc, ◌+◌, ◌-◌, ◌^◌, ◌<◌, ◌≡◌, Bool, true, Option, none, some, List, [], ◌∷◌, ◌++◌,
  if◌then◌else◌, update, Bytes, bytes_beq,
}
use pipefs.SystemError.{Result, ok, throws}
use pipefs.Cache.{ReadResult}
use pipefs.Caches.{CacheData}
use pipefs.Caches.Sorting.{Sorter}
use pipefs.Caches.Users.{users}
use pipefs.ReadLoop.{read_finished}
use pipefs.Controller.{Controller, FileInfo, World, open_file, preload}
use pipefs.Controller.Access.{read, release}
use pipefs.SpawnCommand.{Answers}
use pipefs.Controller.Commands.{new_controller, run_posted}

-- `names` has the name by which the file at an address is open.
pub record Session : Type 0 where
  pub controller : Controller
  pub names : ℕ → Option Bytes

-- `get` and `preload` may add a user to the name without an overflow.
abbrev pub HasRoom : Controller → Bytes → Type 0
HasRoom c filename = users c.caches filename < 2 ^ 32 - 1

module _ (sorter : Sorter Bytes CacheData (λ d. d.last_accessed)) where
  pub data Step (s : Session) : Session → Type 0 where
    opens :
        (w : World) (filename : Bytes) (fi fi' : FileInfo) (address : ℕ) (c : Controller)
        → HasRoom s.controller filename
        → open_file w s.controller filename fi ≡ (c, ok (address, fi'))
        → Step s (record { controller = c; names = update s.names address (some filename) })
    fails_to_open :
        (w : World) (filename : Bytes) (fi : FileInfo) (errno : ℕ) (c : Controller)
        → HasRoom s.controller filename
        → open_file w s.controller filename fi ≡ (c, throws errno)
        → Step s (record s { controller = c })
    preloads :
        (w : World) (filename : Bytes) (c : Controller) (r : Result (Unit {0}))
        → HasRoom s.controller filename
        → preload w s.controller filename ≡ (c, r)
        → Step s (record s { controller = c })
    reads :
        (w : World) (filename : Bytes) (address size offset : ℕ) (c : Controller)
        (r : Result ReadResult)
        → s.names address ≡ some filename
        → read w s.controller address size offset ≡ (c, r)
        → Step s (record s { controller = c })
    releases :
        (w : World) (filename : Bytes) (address : ℕ) (c : Controller) (r : Result (Unit {0}))
        → s.names address ≡ some filename
        → release sorter w s.controller filename address ≡ (c, r)
        → Step s (record { controller = c; names = update s.names address none })
    completes :
        (before after : List (ℕ × ℕ)) (stream cache : ℕ) (failed : Bool) (bytes : Bytes)
        → s.controller.read_loop.reading ≡ before ++ ((stream, cache) ∷ after)
        → Step s (record s {
          controller = record s.controller {
            read_loop = record s.controller.read_loop {
              reading = before ++ after;
              posted =
                  s.controller.read_loop.posted ++ (read_finished stream cache failed bytes ∷ []);
            };
          };
        })
    runs :
        (answers : ℕ → Answers) (c : Controller)
        → run_posted answers s.controller ≡ some c
        → Step s (record s { controller = c })

  -- With caching, from the constructor on.
  pub data Reach (cache_limit process_limit : ℕ) : Session → Type 0 where
    start :
        (seekable : Bool)
        → Reach cache_limit process_limit (record {
          controller = new_controller seekable true cache_limit process_limit;
          names = λ _. none;
        })
    next :
        {s t : Session}
        → Reach cache_limit process_limit s
        → Step s t
        → Reach cache_limit process_limit t

-- How many files below an address are open by a name.
unfoldable pub opened_as : Bytes → ℕ → (ℕ → Option Bytes) → ℕ
opened_as name zero names = 0
opened_as name (suc n) names =
    opened_as name n names
    + (elim (names n) [ none ↦ 0 | some name' ↦ if bytes_beq name' name then 1 else 0 ])
