-- ===== src/Controller/Commands.antt =====
-- Controller.cpp: `createCommand`, the constructor and the destructor, and how the thread of the
-- read loop runs a handler of the read loop with the controller's tasks.
use pipefs.Common.{
  ℕ, zero, suc, Bool, false, ◌||◌, Option, none, some, List, [], ◌∷◌, ◌==◌, if◌then◌else◌, length,
  drop,
}
use pipefs.Common.Int.{ℤ, pos}
use pipefs.SystemError.{Result, ok, throws, aborts}
use pipefs.SpawnCommand.{FileData, Answers, spawn_command}
use pipefs.Cache.{empty}
use pipefs.Caches.{Caches}
use pipefs.ReadLoop.{in_running}
use pipefs.ReadLoop.{ReadLoop, Handler, do_add_or_queue, do_remove, do_cancel, read_finished, Env}
use pipefs.ReadLoop
use pipefs.ReadLoop.Step.{init}
use pipefs.Controller.{Controller, Task, close_fd}

-- `createCommand`; the input is closed at the end in any case. `aborts`: the file, whose address the
-- task holds, does not exist any more.
unfoldable pub create_command : Answers → Controller → Task → Controller × Result ℤ
unfolding spawn_command close_fd
create_command a c task = close_fd task.input_fd (elim task.file [
  | none ↦ let (held, _, result) = spawn_command a c.held none in (record c { held = held }, result)
  | some address ↦ elim (c.files address) [
    | none ↦ (c, aborts)
    | some file ↦
        let (held, file', result) = spawn_command a c.held (some file) in
        (record c { held = held; files = λ n. if address == n then file' else c.files n }, result)
  ]
])

-- Who holds a `shared_ptr` of a cache: entries of the map, files, running commands, reads that are
-- under way, and reads whose handlers wait.
unfoldable pub in_map : ℕ → Caches → Bool
in_map cache [] = false
in_map cache ((_, entry) ∷ rest) = entry.cache == cache || in_map cache rest

abbrev pub holds : ℕ → Option FileData → Bool
holds cache none = false
holds cache (some file) = elim file.cache [ none ↦ false | some cache' ↦ cache' == cache ]

-- The files below an address.
unfoldable pub in_files : ℕ → ℕ → (ℕ → Option FileData) → Bool
in_files cache zero files = false
in_files cache (suc n) files = holds cache (files n) || in_files cache n files

unfoldable pub in_reading : ℕ → List (ℕ × ℕ) → Bool
in_reading cache [] = false
in_reading cache ((_, cache') ∷ rest) = cache' == cache || in_reading cache rest

abbrev pub binds : ℕ → Handler → Bool
binds cache (do_add_or_queue _) = false
binds cache (do_remove _) = false
binds cache do_cancel = false
binds cache (read_finished _ cache' _ _) = cache' == cache

unfoldable pub in_posted : ℕ → List Handler → Bool
in_posted cache [] = false
in_posted cache (h ∷ rest) = binds cache h || in_posted cache rest

-- Whether a `weak_ptr` of the cache can be locked.
unfoldable pub alive : Controller → ℕ → Bool
unfolding in_map in_files in_running in_reading in_posted
alive c cache =
    in_map cache c.caches
    || in_files cache c.next_file c.files
    || in_running cache c.read_loop.caches
    || in_reading cache c.read_loop.reading
    || in_posted cache c.read_loop.posted

-- The handle of the stream that `createCommand` returns. The use of a file that has been freed, which
-- is undefined, ends the program as an exception does.
abbrev pub handle_of : Result ℤ → Option ℤ
handle_of (ok fd) = some fd
handle_of (throws _) = none
handle_of aborts = none

-- `answers` are those that the system gives when a task is started.
unfoldable pub env_of : (ℕ → Answers) → Controller → Env
unfolding create_command alive
env_of answers c = record {
  alive = alive c;
  descriptor = λ starter. handle_of (create_command (answers starter) c (c.tasks starter)).1;
}

-- What the started tasks do to the controller, in order.
unfoldable pub start_tasks : (ℕ → Answers) → List ℕ → Controller → Controller
unfolding create_command
start_tasks answers [] c = c
start_tasks answers (starter ∷ rest) c =
    start_tasks answers rest (create_command (answers starter) c (c.tasks starter)).0

-- The handler that was posted first. `none`: an exception leaves the thread, and ends the program.
unfoldable pub run_posted : (ℕ → Answers) → Controller → Option Controller
unfolding env_of start_tasks ReadLoop.handle
run_posted answers c = elim c.read_loop.posted [
  | [] ↦ some c
  | h ∷ rest ↦ elim (ReadLoop.handle (env_of answers c) h (record c.read_loop { posted = rest })) [
    | none ↦ none
    | some s ↦ some (
        start_tasks answers (drop (length c.read_loop.started) s.started)
          (record c { read_loop = s }))
  ]
]

-- The constructor, from `pipefs_data`: the flags, the cache limit and the process limit.
abbrev pub new_controller : Bool → Bool → ℕ → ℕ → Controller
new_controller seekable use_cache cache_limit process_limit = record {
  seekable = seekable;
  use_cache = use_cache;
  cache_size = cache_limit;
  caches = [];
  read_loop = init process_limit (λ _. empty);
  files = λ _. none;
  next_file = 0;
  next_cache = 0;
  tasks = λ _. record { file = none; input_fd = pos 0; flags = 0 };
  next_task = 0;
  held = [];
}

-- The destructor: then the thread runs what is left until nothing is posted and no read is under way.
unfoldable pub destroy : Controller → Controller
unfolding ReadLoop.cancel
destroy c = record c { read_loop = ReadLoop.cancel c.read_loop }
