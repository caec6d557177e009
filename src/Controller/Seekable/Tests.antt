-- ===== src/Controller/Seekable/Tests.antt =====
-- Controller.cpp with `seekable` and without caching: the theorem at a concrete input.
use pipefs.Common.{◌≡◌, refl, true, false, some, none, [], ◌∷◌, arith, codes, update}
use pipefs.Common.Int.{pos}
use pipefs.Common.Dict.{lookup, insert}
use pipefs.SystemError.{checked_system_call}
use pipefs.SpawnCommand.{Answers, spawn_command}
use pipefs.Caches.Sorting.{insertion_sorter}
use pipefs.Caches.Users.{users}
use pipefs.ReadLoop
use pipefs.ReadLoop.{ReadLoop, closed, QueueData, do_add_or_queue}
use pipefs.Controller.{
  close_fd, Controller, FileInfo, World, open_file, open_seekable, add_task, keep_file,
}
use pipefs.ReadLoop.{in_running}
use pipefs.Controller.Commands.{
  env_of, new_controller, alive, create_command, in_map, in_files, in_reading, in_posted,
}
use pipefs.Controller.Session.{Session, opens}
use pipefs.Controller.Seekable.FreedFiles.{Reach, start, next, Reach-StartsSafely}
use pipefs.Controller.Seekable.Frames.{with_loop}
use pipefs.Controller.Seekable.Starts.{StartsSafely}

abbrev answers : Answers
answers = record {
  pipe = pos 0;
  read_end = pos 7;
  write_end = pos 8;
  fcntl = pos 0;
  fork = pos 9;
  errno = 0;
}

abbrev world : World
world = record {
  now = 1;
  dup = pos 6;
  opened = pos 5;
  spawn = answers;
  closed = pos 0;
  read = pos 0;
  bytes = [];
  errno = 0;
}

abbrev info : FileInfo
info = record { flags = 0; direct_io = false; nonseekable = false }

abbrev new : Controller
new = new_controller true false 0 1

-- One file is open, and its task is posted.
abbrev one_open : Session
one_open = record {
  controller = (open_file world new (codes "a") info).0;
  names = update (λ _. none) 0 (some (codes "a"));
}

one_open-Reach : Reach (insertion_sorter (λ d. d.last_accessed)) 0 1 one_open
unfolding open_file open_seekable add_task keep_file checked_system_call users lookup
one_open-Reach = next start (
    opens world (codes "a") info (record info { direct_io = true }) 0 one_open.controller
      (omega arith) refl)

abbrev task : QueueData
task = record { read_starter = 0; cache = 0 }

posted : one_open.controller.read_loop.posted ≡ do_add_or_queue task ∷ []
unfolding open_file open_seekable add_task keep_file checked_system_call ReadLoop.add
posted = refl

-- The task is started with its command's output on the descriptor 7.
abbrev running : ReadLoop
running = record new.read_loop {
  caches = (pos 7, record { cache = 0; stream = 0 }) ∷ [];
  reading = (0, 0) ∷ [];
  handles = update (λ _. closed) 0 (pos 7);
  next_stream = 1;
  started = 0 ∷ [];
}

runs :
    ReadLoop.handle
      (env_of (λ _. answers) one_open.controller)
      (do_add_or_queue task)
      (record one_open.controller.read_loop { posted = [] })
    ≡ some running
unfolding env_of alive in_map in_files in_running in_reading in_posted create_command close_fd
    spawn_command ReadLoop.handle open_file open_seekable add_task keep_file checked_system_call
    ReadLoop.add lookup insert
runs = refl

Reach-StartsSafely_example :
    StartsSafely (λ _. answers) (with_loop one_open.controller running) (0 ∷ [])
unfolding env_of open_file open_seekable add_task keep_file checked_system_call ReadLoop.add
Reach-StartsSafely_example =
    Reach-StartsSafely (insertion_sorter (λ d. d.last_accessed)) (λ _. answers)
      (env_of (λ _. answers) one_open.controller) (do_add_or_queue task) [] running one_open-Reach
      (λ cache. refl) posted runs
