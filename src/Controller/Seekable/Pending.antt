-- ===== src/Controller/Seekable/Pending.antt =====
-- Controller.cpp: the tasks that wait to be started, and what a handler of the read loop makes of them
-- and of the caches of the commands that run.
use pipefs.Common.{
  ℕ, ◌+◌, ◌≤◌, ◌≡◌, refl, inl, inr, Bool, true, Bool-cases, some, Option-cases, List, [], ◌∷◌, ◌++◌,
  arith, ltb, ◌==◌, ◌||◌, if◌then◌else◌, length,
}
use pipefs.Common.Dict.{Dict, insert, erase}
use pipefs.Common.Int.{ℤ, int_eq}
use pipefs.ReadLoop.{
  ReadLoop, CacheData, QueueData, Handler, do_add_or_queue, do_remove, do_cancel, read_finished,
  Env, destroy, destroy_all, emplace, open_stream, start_reading, do_add, pump, erase_entry, remove,
  handle,
}
use pipefs.ReadLoop.{in_running}
use pipefs.Controller.Commands.{in_reading, in_posted}

abbrev pub one_if : Bool → ℕ
one_if b = if b then 1 else 0

-- How many tasks of a list are for a cache.
unfoldable pub tasks_for : ℕ → List QueueData → ℕ
tasks_for cache [] = 0
tasks_for cache (task ∷ rest) = one_if (task.cache == cache) + tasks_for cache rest

abbrev pub adds_for : ℕ → Handler → ℕ
adds_for cache (do_add_or_queue task) = one_if (task.cache == cache)
adds_for cache _ = 0

unfoldable pub posted_for : ℕ → List Handler → ℕ
posted_for cache [] = 0
posted_for cache (h ∷ rest) = adds_for cache h + posted_for cache rest

-- Whether a command for the cache runs, or has a read under way or completed.
unfoldable pub is_active : ReadLoop → ℕ → Bool
unfolding in_running in_reading in_posted
is_active s cache =
    in_running cache s.caches || in_reading cache s.reading || in_posted cache s.posted

-- The tasks for a cache that wait to be started, and one if a command for it is active.
unfoldable pub uses : ReadLoop → ℕ → ℕ
unfolding tasks_for posted_for is_active
uses s cache = tasks_for cache s.queue + posted_for cache s.posted + one_if (is_active s cache)

pub tasks_for-append :
    (cache : ℕ) (tasks tasks' : List QueueData)
    → tasks_for cache (tasks ++ tasks') ≡ tasks_for cache tasks + tasks_for cache tasks'
unfolding tasks_for
tasks_for-append cache [] tasks' = omega arith
tasks_for-append cache (task ∷ tasks) tasks' = ground (arith, tasks_for-append cache tasks tasks')

pub posted_for-append :
    (cache : ℕ) (posted posted' : List Handler)
    → posted_for cache (posted ++ posted') ≡ posted_for cache posted + posted_for cache posted'
unfolding posted_for
posted_for-append cache [] posted' = omega arith
posted_for-append cache (h ∷ posted) posted' =
    ground (arith, posted_for-append cache posted posted')

pub in_posted-append :
    (cache : ℕ) (posted posted' : List Handler)
    → in_posted cache (posted ++ posted') ≡ (in_posted cache posted || in_posted cache posted')
unfolding in_posted
in_posted-append cache [] posted' = refl
in_posted-append cache (h ∷ posted) posted' = ground (arith, in_posted-append cache posted posted')

pub in_reading-append :
    (cache : ℕ) (reading reading' : List (ℕ × ℕ))
    → in_reading cache (reading ++ reading')
      ≡ (in_reading cache reading || in_reading cache reading')
unfolding in_reading
in_reading-append cache [] reading' = refl
in_reading-append cache (_ ∷ reading) reading' =
    ground (arith, in_reading-append cache reading reading')

in_running-insert :
    (cache : ℕ) (fd : ℤ) (entry : CacheData) (d : Dict ℤ CacheData)
    → in_running cache (insert fd entry d) ≡ true
    → ((entry.cache == cache) || in_running cache d) ≡ true
unfolding in_running insert
in_running-insert cache fd entry [] h = ground arith
in_running-insert cache fd entry (_ ∷ d) h = ground (arith, in_running-insert cache fd entry d)

in_running-erase :
    (cache : ℕ) (fd : ℤ) (d : Dict ℤ CacheData)
    → in_running cache (erase fd d) ≡ true
    → in_running cache d ≡ true
unfolding in_running erase
in_running-erase cache fd [] h = ground arith
in_running-erase cache fd (_ ∷ d) h = ground (arith, in_running-erase cache fd d)

-- A task that is started is one use of its cache at most.
do_add-uses :
    (env : Env) (task : QueueData) (s t : ReadLoop) (cache : ℕ)
    → do_add env task s ≡ some t
    → (t.queue ≡ s.queue) × (uses t cache ≤ uses s cache + one_if (task.cache == cache))
unfolding do_add emplace open_stream start_reading destroy uses is_active in_reading
do_add-uses env task s t cache h = (
  ground arith,
  elim (Option-cases (env.descriptor task.read_starter)) [
    | inl bad ↦ ground arith
    | inr (fd, good) ↦
        let entry : CacheData = record { cache = task.cache; stream = s.next_stream } in
        ground (
          arith,
          in_running-insert cache fd entry s.caches,
          in_reading-append cache s.reading ((s.next_stream, task.cache) ∷ []),
        )
  ],
)

pump-uses :
    (env : Env) (queue : List QueueData) (s t : ReadLoop) (cache : ℕ)
    → pump env queue s ≡ some t
    → uses t cache ≤ uses (record s { queue = [] }) cache + tasks_for cache queue
unfolding pump uses is_active tasks_for
pump-uses env [] s t cache h = ground arith
pump-uses env (task ∷ rest) s t cache h =
    elim (Bool-cases (ltb (length s.caches) s.process_limit)) [
      | inr full ↦ ground arith
      | inl room ↦ elim (Option-cases (do_add env task (record s { queue = rest }))) [
        | inl bad ↦ absurd (ground arith)
        | inr (u, good) ↦ ground (
          arith,
          do_add-uses env task (record s { queue = rest }) u cache good,
          pump-uses env rest u t cache (ground arith),
        )
      ]
    ]

erase_entry-uses :
    (fd : ℤ) (s : ReadLoop) (cache : ℕ)
    → ((erase_entry fd s).queue ≡ s.queue) × (uses (erase_entry fd s) cache ≤ uses s cache)
unfolding erase_entry destroy uses is_active
erase_entry-uses fd s cache = (ground arith, ground (arith, in_running-erase cache fd s.caches))

pub destroy_all-same :
    (entries : Dict ℤ CacheData) (s : ReadLoop)
    → ((destroy_all entries s).queue ≡ s.queue)
      × ((destroy_all entries s).posted ≡ s.posted)
      × ((destroy_all entries s).reading ≡ s.reading)
unfolding destroy_all destroy
destroy_all-same [] s = (refl, refl, refl)
destroy_all-same ((_, entry) ∷ rest) s = destroy_all-same rest (destroy entry s)

-- A handler makes no new use of a cache: what it starts has waited, and what goes on was active.
pub handle-uses :
    (env : Env) (h : Handler) (rest : List Handler) (s t : ReadLoop) (cache : ℕ)
    → s.posted ≡ h ∷ rest
    → handle env h (record s { posted = rest }) ≡ some t
    → uses t cache ≤ uses s cache
unfolding handle uses is_active posted_for in_posted start_reading remove
handle-uses env (do_add_or_queue task) rest s t cache p e =
    let s' = record s { posted = rest } in
    elim (Bool-cases (s.process_limit == 0 || ltb (length s.caches) s.process_limit)) [
      | inl room ↦ ground (arith, do_add-uses env task s' t cache (ground arith))
      | inr full ↦ ground (arith, tasks_for-append cache s.queue (task ∷ []))
    ]
handle-uses env (do_remove fd) rest s t cache p e =
    let s' = record s { posted = rest } in
    ground (
      arith,
      pump-uses env s.queue (erase_entry fd s') t cache (ground arith),
      erase_entry-uses fd s' cache,
    )
handle-uses env do_cancel rest s t cache p e =
    ground (arith, destroy_all-same s.caches (record s { posted = rest }))
handle-uses env (read_finished stream cache' failed bytes) rest s t cache p e = ground (
  arith,
  in_reading-append cache s.reading ((stream, cache') ∷ []),
  in_posted-append cache rest (do_remove (s.handles stream) ∷ []),
  posted_for-append cache rest (do_remove (s.handles stream) ∷ []),
)
