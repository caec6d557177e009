-- ===== src/Controller/Seekable/Starts.antt =====
-- Controller.cpp with `seekable` and without caching: the tasks that a handler starts.
use mathlib.Core.List.{append-nil, append_assoc}
use pipefs.Common.{
  ℕ, ◌≡◌, refl, sym, ap, ◌∙◌, subst, ◌≢◌, inl, inr, ◌||◌, Bool-cases, some, List, [], ◌∷◌, ◌++◌,
  All, All-map, arith, ltb, ◌==◌, length, drop, drop-length_append,
}
use pipefs.SystemError.{aborts, checked_system_call}
use pipefs.SpawnCommand.{spawn_command, FileData, Answers}
use pipefs.Common.Int.{ℤ}
use pipefs.ReadLoop.{
  CacheData, ReadLoop, QueueData, Handler, do_add_or_queue, do_remove, do_cancel, read_finished,
  Env, handle, destroy_all, destroy, start_reading, remove,
}
use pipefs.ReadLoop.Order.{live_starters, do_add-started, remove-started}
use pipefs.Controller.{Controller, close_fd}
use pipefs.Controller.Commands.{alive, create_command}
use pipefs.Controller.Frames.{create_command-Keeps}
use pipefs.Controller.Seekable.Guarded.{IsGuarded, Waits, alive-file}
use pipefs.Controller.Seekable.Frames.{with_loop}
use pipefs.Controller.Seekable.Runs.{create_command-Frames}

-- The first part of the queue waits.
prefix-Waits :
    (s : ReadLoop) (before served after : List QueueData)
    → s.queue ≡ before ++ (served ++ after)
    → All (Waits s) served
prefix-Waits s before [] after e = tt
prefix-Waits s before (task ∷ served) after e = (
  inl (before, served ++ after, e),
  prefix-Waits s (before ++ (task ∷ [])) served after
      (e ∙ sym (append_assoc before (task ∷ []) (served ++ after))),
)

destroy_all-started :
    (entries : List (ℤ × CacheData)) (s : ReadLoop) → (destroy_all entries s).started ≡ s.started
unfolding destroy_all destroy
destroy_all-started [] s = refl
destroy_all-started ((_, entry) ∷ rest) s = destroy_all-started rest (destroy entry s)

-- The tasks that a handler has started, in order, and that they have waited.
abbrev Serves : Env → ReadLoop → ReadLoop → Type 0
Serves env s t =
    (served : List QueueData) × (All (Waits s) served
      × (t.started ≡ s.started ++ live_starters env served))

none-Serves : (env : Env) (s t : ReadLoop) → t.started ≡ s.started → Serves env s t
unfolding live_starters
none-Serves env s t same = ([], (tt, same ∙ sym (append-nil s.started)))

-- A handler starts only tasks that wait and whose caches can be locked.
handle-started :
    (env : Env) (h : Handler) (rest : List Handler) (s t : ReadLoop)
    → s.posted ≡ h ∷ rest
    → handle env h (record s { posted = rest }) ≡ some t
    → Serves env s t
unfolding handle start_reading remove
handle-started env (do_add_or_queue task) rest s t p e =
    elim (Bool-cases (s.process_limit == 0 || ltb (length s.caches) s.process_limit)) [
      | inl room ↦
          let (_, order) = do_add-started env task (record s { posted = rest }) t (ground arith) in
          (task ∷ [], ((inr ([], rest, p), tt), order))
      | inr full ↦ none-Serves env s t (ground arith)
    ]
handle-started env (do_remove fd) rest s t p e =
    let (served, split, order) = remove-started env fd (record s { posted = rest }) t e in
    (served, (prefix-Waits s [] served t.queue split, order))
handle-started env do_cancel rest s t p e =
    none-Serves env s t (ground (arith, destroy_all-started s.caches (record s { posted = rest })))
handle-started env (read_finished stream cache failed bytes) rest s t p e =
    none-Serves env s t (ground arith)

-- The task is bound to a file that exists.
abbrev HasFile : Controller → ℕ → Type 0
HasFile c starter =
    (address : ℕ) × (file : FileData) × (((c.tasks starter).file ≡ some address)
      × (c.files address ≡ some file))

live-HasFile :
    (env : Env) (c : Controller)
    → ((cache : ℕ) → env.alive cache ≡ alive c cache)
    → IsGuarded c
    → (served : List QueueData) → All (Waits c.read_loop) served
    → All (HasFile c) (live_starters env served)
unfolding live_starters
live-HasFile env c looks v [] waits = tt
live-HasFile env c looks v (task ∷ served) waits =
    let rest = live-HasFile env c looks v served waits.1 in
    elim (Bool-cases (alive c task.cache)) [
      | inr gone ↦ rw (looks task.cache, gone) rest
      | inl lives ↦
          let (address, file, (bound, there, _)) = alive-file c task v waits.0 lives in
          rw (looks task.cache, lives) ((address, file, (bound, there)), rest)
    ]

-- Every task of the list is started with its file there, one after the other.
pub StartsSafely : (ℕ → Answers) → Controller → List ℕ → Type 0
StartsSafely answers c [] = Unit
StartsSafely answers c (starter ∷ rest) =
    let started = create_command (answers starter) c (c.tasks starter) in
    (started.1 ≢ aborts) × StartsSafely answers started.0 rest

create_command-there :
    (a : Answers) (c : Controller) (starter : ℕ)
    → HasFile c starter
    → (create_command a c (c.tasks starter)).1 ≢ aborts
unfolding create_command close_fd spawn_command checked_system_call
create_command-there a c starter (address, file, (bound, there)) bad = ground arith

created-HasFile :
    (a : Answers) (c : Controller) (starter other : ℕ)
    → HasFile c other
    → HasFile (create_command a c (c.tasks starter)).0 other
created-HasFile a c starter other (address, file, (bound, there)) =
    let (file', there', _) =
      (create_command-Keeps a c (c.tasks starter)).same_files address file there in
    let same = (create_command-Frames a c (c.tasks starter)).same_tasks in
    (address, file', (ap (λ tasks. (tasks other).file) same ∙ bound, there'))

HasFile-StartsSafely :
    (answers : ℕ → Answers) (starters : List ℕ) (c : Controller)
    → All (HasFile c) starters
    → StartsSafely answers c starters
unfolding StartsSafely
HasFile-StartsSafely answers [] c all = tt
HasFile-StartsSafely answers (starter ∷ rest) c all = (
  create_command-there (answers starter) c starter all.0,
  HasFile-StartsSafely answers rest (create_command (answers starter) c (c.tasks starter)).0
      (All-map (created-HasFile (answers starter) c starter) rest all.1),
)

pub handle-StartsSafely :
    (answers : ℕ → Answers) (env : Env) (c : Controller) (h : Handler) (rest : List Handler)
    (t : ReadLoop)
    → ((cache : ℕ) → env.alive cache ≡ alive c cache)
    → IsGuarded c
    → c.read_loop.posted ≡ h ∷ rest
    → handle env h (record c.read_loop { posted = rest }) ≡ some t
    → StartsSafely answers (with_loop c t) (drop (length c.read_loop.started) t.started)
handle-StartsSafely answers env c h rest t looks v p e =
    let (served, (waits, order)) = handle-started env h rest c.read_loop t p e in
    let new = live_starters env served in
    let same : drop (length c.read_loop.started) t.started ≡ new =
      ap (drop (length c.read_loop.started)) order ∙ drop-length_append c.read_loop.started new in
    subst (StartsSafely answers (with_loop c t)) (sym same)
      (HasFile-StartsSafely answers new (with_loop c t) (live-HasFile env c looks v served waits))
