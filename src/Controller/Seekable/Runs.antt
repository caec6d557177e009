-- ===== src/Controller/Seekable/Runs.antt =====
-- Controller.cpp with `seekable` and without caching: the handlers that the thread runs keep the
-- bindings of tasks.
use mathlib.Core.Option.{some-injective}
use pipefs.Common.{
  ℕ, ◌≡◌, refl, sym, ap, ◌∙◌, subst, inl, inr, Bool-cases, some, Option-cases, List, [], ◌∷◌, All,
  arith, ◌==◌, ==_iff, length, drop,
}
use pipefs.SpawnCommand.{Answers}
use pipefs.ReadLoop.{ReadLoop, QueueData, Handler, do_add_or_queue, do_remove, read_finished}
use pipefs.ReadLoop
use pipefs.Controller.{Controller, Task, close_fd}
use pipefs.Controller.Commands.{create_command, start_tasks, run_posted, env_of}
use pipefs.Controller.Frames.{spawn_command_given}
use pipefs.Controller.Seekable.Pending.{uses, handle-uses}
use pipefs.Controller.Seekable.Waiting.{AllWaiting, OfHandler, handle-AllWaiting}
use pipefs.Controller.Seekable.Guarded.{IsBound, IsGuarded}
use pipefs.Controller.Seekable.Frames.{
  Frames, Frames-refl, Frames-trans, Frames-files, Frames-IsGuarded, with_loop, with_loop-IsGuarded,
}

pub create_command-Frames :
    (a : Answers) (c : Controller) (task : Task) → Frames c (create_command a c task).0
unfolding create_command close_fd
create_command-Frames a c task = elim (Option-cases task.file) [
  | inl e ↦ rw e (Frames-files c _ c.files (λ cache n h. h))
  | inr (address, e) ↦ elim (Option-cases (c.files address)) [
    | inl gone ↦ rw (e, gone) (Frames-files c _ c.files (λ cache n h. h))
    | inr (file, there) ↦
        let (file', given, same) = spawn_command_given a c.held file in
        rw (e, there)
          (Frames-files c _ _ (λ cache n h. elim (Bool-cases (address == n)) [
            | inl here ↦ ground (arith, given, same, there, ==_iff address n)
            | inr away ↦ ground arith
          ]))
  ]
]

create_command-read_loop :
    (a : Answers) (c : Controller) (task : Task)
    → (create_command a c task).0.read_loop ≡ c.read_loop
unfolding create_command close_fd
create_command-read_loop a c task = elim (Option-cases task.file) [
  | inl e ↦ rw e refl
  | inr (address, e) ↦ elim (Option-cases (c.files address)) [
    | inl gone ↦ rw (e, gone) refl
    | inr (file, there) ↦ rw (e, there) refl
  ]
]

start_tasks-Frames :
    (answers : ℕ → Answers) (tasks : List ℕ) (c : Controller)
    → Frames c (start_tasks answers tasks c)
      × ((start_tasks answers tasks c).read_loop ≡ c.read_loop)
unfolding start_tasks
start_tasks-Frames answers [] c = (Frames-refl c, refl)
start_tasks-Frames answers (starter ∷ rest) c =
    let next = (create_command (answers starter) c (c.tasks starter)).0 in
    let (frames, same) = start_tasks-Frames answers rest next in
    (
      Frames-trans (create_command-Frames (answers starter) c (c.tasks starter)) frames,
      same ∙ create_command-read_loop (answers starter) c (c.tasks starter),
    )

handled-IsGuarded :
    (answers : ℕ → Answers) (c : Controller) (h : Handler) (rest : List Handler) (s : ReadLoop)
    → c.read_loop.posted ≡ h ∷ rest
    → ReadLoop.handle (env_of answers c) h (record c.read_loop { posted = rest }) ≡ some s
    → IsGuarded c
    → IsGuarded (with_loop c s)
handled-IsGuarded answers c h rest s p good v =
    let all : All (OfHandler (IsBound c)) (h ∷ rest) =
      subst (λ l. All (OfHandler (IsBound c)) l) p v.waiting.posted in
    with_loop-IsGuarded c s v
      (handle-AllWaiting (IsBound c) (env_of answers c) h (record c.read_loop { posted = rest }) s
        good (record { queued = v.waiting.queued; posted = all.1 }) all.0)
      (λ cache. handle-uses (env_of answers c) h rest c.read_loop s cache p good)

started-IsGuarded :
    (answers : ℕ → Answers) (tasks : List ℕ) (c : Controller)
    → IsGuarded c
    → IsGuarded (start_tasks answers tasks c)
started-IsGuarded answers tasks c v =
    let (frames, same) = start_tasks-Frames answers tasks c in
    Frames-IsGuarded c (start_tasks answers tasks c) frames v
      (subst (λ s. AllWaiting (IsBound c) s) (sym same) v.waiting)
      (λ cache. omega (arith, ap (λ s. uses s cache) same))

pub run_posted-IsGuarded :
    (answers : ℕ → Answers) (c c' : Controller)
    → run_posted answers c ≡ some c'
    → IsGuarded c
    → IsGuarded c'
unfolding run_posted
run_posted-IsGuarded answers c c' e v = by_posted c.read_loop.posted refl
  where
    by_posted : (posted : List Handler) → c.read_loop.posted ≡ posted → IsGuarded c'
    by_posted [] p = subst IsGuarded (some-injective c c' (ground arith)) v
    by_posted (h ∷ rest) p =
        elim (Option-cases
          (ReadLoop.handle (env_of answers c) h (record c.read_loop { posted = rest }))) [
            | inl bad ↦ absurd (ground arith)
            | inr (s, good) ↦
                let tasks = drop (length c.read_loop.started) s.started in
                subst IsGuarded
                  (some-injective (start_tasks answers tasks (with_loop c s)) c' (ground arith))
                  (started-IsGuarded answers tasks (with_loop c s)
                    (handled-IsGuarded answers c h rest s p good v))
          ]
