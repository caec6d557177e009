-- ===== src/ReadLoop/Tests.antt =====
-- BasicReadLoop.hpp: runs, and the theorems at concrete inputs.
use pipefs.Common.{
  ◌≢◌, false, ℕ, ◌≡◌, refl, ◌+◌, inr, true, some, List, [], ◌∷◌, ◌++◌, arith, codes, update, ◌*◌,
  ◌≤◌,
}
use pipefs.Common.Dict.{lookup, insert, erase}
use pipefs.Common.Int.{ℤ, pos, int_eq}
use pipefs.Cache.{empty, write, finish}
use pipefs.ReadLoop.{
  CacheData, is_open, ReadLoop, QueueData, do_add_or_queue, do_remove, do_cancel, read_finished,
  Env, closed, add, remove, handle,
}
use pipefs.ReadLoop.Step.{Opens, calls_add, runs, init, Reach, start, next}
use pipefs.ReadLoop.Limit.{IsBounded, IsBusy, handle-IsBusy, Reach-IsBounded}
use pipefs.ReadLoop.Order.{live_starters, remove-started, cancel_restarts}
use pipefs.ReadLoop.Owner.{IsOwned}
use pipefs.ReadLoop.Ownership.{Reach-IsOwned}
use pipefs.ReadLoop.Draining.{work, Run, done, completes, Run-IsShort}
use pipefs.ReadLoop.Draining
use pipefs.ReadLoop.Settling.{Serving, starts, goes_on, cancels}
use pipefs.ReadLoop.Serving.{IsServed, Finishes, FinishesOrWaits, settles, serves_all}
use pipefs.ReadLoop.Rest.{Starts, IsAtRest}
use pipefs.ReadLoop.Contents.{delivered, handle-contents, end_of_stream}

-- Every cache exists, and task k gets the handle k + 5.
abbrev env : Env
env = record { alive = λ _. true; descriptor = λ k. some (pos (k + 5)) }

env-Opens : Opens env
env-Opens starter fd e = ground arith

abbrev blank : ReadLoop
blank = init 1 (λ _. empty)

abbrev task_0 : QueueData
task_0 = record { read_starter = 0; cache = 0 }

abbrev task_1 : QueueData
task_1 = record { read_starter = 1; cache = 1 }

-- Command 0 runs on stream 0.
abbrev running : ReadLoop
running = record blank {
  caches = (pos 5, record { cache = 0; stream = 0 }) ∷ [];
  reading = (0, 0) ∷ [];
  handles = update (λ _. closed) 0 (pos 5);
  next_stream = 1;
  started = 0 ∷ [];
}

-- Task 1 waits behind it.
abbrev crowded : ReadLoop
crowded = record running { queue = task_1 ∷ [] }

starts_0 : handle env (do_add_or_queue task_0) blank ≡ some running
unfolding handle lookup insert
starts_0 = refl

queues : handle env (do_add_or_queue task_1) running ≡ some crowded
unfolding handle
queues = refl

running-Reach : Reach 1 (λ _. empty) running
unfolding add
running-Reach =
    next (next start (calls_add task_0))
      (runs env (do_add_or_queue task_0) [] env-Opens refl starts_0)

-- Command 1 after it has taken the place of command 0.
abbrev handed_over : ReadLoop
handed_over = record crowded {
  caches = (pos 6, record { cache = 1; stream = 1 }) ∷ [];
  queue = [];
  reading = (0, 0) ∷ (1, 1) ∷ [];
  handles = update (update (update (λ _. closed) 0 (pos 5)) 0 closed) 1 (pos 6);
  next_stream = 2;
  heap = update (λ _. empty) 0 (record empty { finished = true });
  started = 0 ∷ 1 ∷ [];
}

hands_over : handle env (do_remove (pos 5)) crowded ≡ some handed_over
unfolding handle lookup insert erase finish
hands_over = refl

crowded-IsBounded : IsBounded crowded
crowded-IsBounded = record { within = inr (omega arith); unlimited = λ z. absurd (omega arith) }

handle-IsBusy_example : IsBusy handed_over
handle-IsBusy_example =
    handle-IsBusy env (do_remove (pos 5)) crowded handed_over crowded-IsBounded (λ e. cc) hands_over
      (inr refl)

Reach-IsBounded_example : IsBounded running
Reach-IsBounded_example = Reach-IsBounded running-Reach

Reach-IsOwned_example : IsOwned running
Reach-IsOwned_example = Reach-IsOwned running-Reach

remove-started_example :
    (served : List QueueData) × (crowded.queue ≡ served ++ handed_over.queue)
    × (handed_over.started ≡ crowded.started ++ live_starters env served)
remove-started_example = remove-started env (pos 5) crowded handed_over hands_over

abbrev cleared : ReadLoop
cleared = record crowded {
  caches = [];
  heap = update (λ _. empty) 0 (record empty { finished = true });
  handles = update crowded.handles 0 closed;
}

clears : handle env do_cancel crowded ≡ some cleared
unfolding handle finish
clears = refl

abbrev restarted : ReadLoop
restarted = record cleared {
  caches = (pos 6, record { cache = 1; stream = 1 }) ∷ [];
  queue = [];
  reading = (0, 0) ∷ (1, 1) ∷ [];
  handles = update cleared.handles 1 (pos 6);
  next_stream = 2;
  started = 0 ∷ 1 ∷ [];
}

restarts : handle env (do_remove closed) cleared ≡ some restarted
unfolding handle lookup insert
restarts = refl

there : lookup (pos 5) running.caches ≡ some (record { cache = 0; stream = 0 })
unfolding lookup
there = refl

interrupted : handle env (read_finished 0 0 true []) cleared ≡ some (remove cleared closed)
unfolding handle
interrupted = refl

task_1_waits : live_starters env (task_1 ∷ []) ≡ 1 ∷ []
unfolding live_starters
task_1_waits = refl

cancel_restarts_example :
    (cleared.caches ≡ [])
    × (cleared.queue ≡ crowded.queue)
    × (remove cleared closed ≡ remove cleared closed)
    × ((others : List ℕ) × (restarted.started ≡ crowded.started ++ (1 ∷ others)))
unfolding remove
cancel_restarts_example =
    cancel_restarts env env env (pos 5) (record { cache = 0; stream = 0 }) true [] [] 1 [] crowded
      cleared (remove cleared closed) restarted there (omega arith) task_1_waits clears interrupted
      restarts

abbrev fed : ReadLoop
fed = record running {
  reading = (0, 0) ∷ (0, 0) ∷ [];
  heap = update (λ _. empty) 0 (record { contents = codes "ab"; finished = false });
}

feeds : handle env (read_finished 0 0 false (codes "ab")) running ≡ some fed
unfolding handle write
feeds = refl

handle-contents_example :
    ((fed.heap 0).contents
      ≡ (running.heap 0).contents ++ delivered running (read_finished 0 0 false (codes "ab")) 0)
    × ((running.heap 0).finished ≡ true → (fed.heap 0).finished ≡ true)
handle-contents_example =
    handle-contents env (read_finished 0 0 false (codes "ab")) running fed 0 feeds

ends : handle env (read_finished 0 0 false []) running ≡ some (remove running (pos 5))
unfolding handle
ends = refl

crowded-IsOwned : IsOwned crowded
unfolding add
crowded-IsOwned = Reach-IsOwned (
    next (next running-Reach (calls_add task_1))
      (runs env (do_add_or_queue task_1) [] env-Opens refl queues))

end_of_stream_example :
    (remove running (pos 5) ≡ remove running (pos 5))
    × ((handed_over.heap 0).finished ≡ true)
    × ((handed_over.heap 0).contents ≡ (crowded.heap 0).contents)
    × (is_open handed_over 0 ≡ false)
    × ((k : ℤ) (d : CacheData) → lookup k handed_over.caches ≡ some d → d.stream ≢ 0)
end_of_stream_example =
    end_of_stream env env (pos 5) (record { cache = 0; stream = 0 }) false [] running
      (remove running (pos 5)) crowded handed_over env-Opens Reach-IsOwned_example crowded-IsOwned
      there (inr refl) ends there hands_over

-- Command 0 has brought two bytes, and the next read is under way.
abbrev read_on : ReadLoop
read_on = record running { heap = fed.heap }

continues :
    handle env (read_finished 0 0 false (codes "ab")) (record running { reading = [] })
    ≡ some read_on
unfolding handle write
continues = refl

Run-IsShort_example : 2 + work read_on ≤ work running + 2 * 1
Run-IsShort_example = Run-IsShort (
    completes [] [] 0 0 false (codes "ab") refl
      (Draining.runs env (read_finished 0 0 false (codes "ab")) [] refl continues done))

env-Starts : Starts env
env-Starts k = (pos (k + 5), refl)

settles_example :
    (k : ℕ) × (u : ReadLoop) × ((k ≤ work running)
      × Run k 0 running u
      × IsAtRest u
      × (u.caches ≡ [])
      × FinishesOrWaits env running u)
settles_example = settles env env-Opens env-Starts running running-Reach

running-Serving : Serving 1 (λ _. empty) running
unfolding add cancels
running-Serving =
    goes_on (goes_on starts (calls_add task_0) refl)
      (runs env (do_add_or_queue task_0) [] env-Opens refl starts_0) refl

serves_all_example :
    (k : ℕ) × (u : ReadLoop) × ((k ≤ work running)
      × Run k 0 running u
      × IsServed u
      × Finishes env running u)
serves_all_example = serves_all env env-Opens env-Starts running running-Serving
