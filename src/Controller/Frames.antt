-- ===== src/Controller/Frames.antt =====
-- Controller.cpp: what the operations leave alone.
use mathlib.Core.Option.{some-injective}
use pipefs.Common.{
  subst, ℕ, ◌≡◌, refl, ◌∙◌, inl, inr, Bool-cases, some, Option-cases, List, [], ◌∷◌, ◌==◌, arith,
  length, drop,
}
use pipefs.Common.Int.{ℤ, is_negative}
use pipefs.SystemError.{checked_system_call}
use pipefs.SpawnCommand.{FileData, Answers, spawn_command, set_command}
use pipefs.ReadLoop.{ReadLoop, Handler}
use pipefs.ReadLoop
use pipefs.Controller.{Controller, Task, close_fd}
use pipefs.Controller.Commands.{create_command, start_tasks, run_posted, env_of}
use pipefs.Controller.Users.{Keeps, Keeps-fields}

pub Keeps-refl : (c : Controller) → Keeps c c
Keeps-refl c = Keeps-fields refl refl refl refl

pub Keeps-trans : {a b c : Controller} → Keeps a b → Keeps b c → Keeps a c
Keeps-trans k l = record {
  same_caches = l.same_caches ∙ k.same_caches;
  same_mode = l.same_mode ∙ k.same_mode;
  same_next = l.same_next ∙ k.same_next;
  same_files = λ a file e.
      let (file', e', same) = k.same_files a file e in
      let (file'', e'', same') = l.same_files a file' e' in (file'', e'', same' ∙ same);
}

-- A file that `spawnCommand` is given keeps its cache.
pub spawn_command_given :
    (a : Answers) (held : List ℤ) (file : FileData)
    → (file' : FileData) × ((spawn_command a held (some file)).1 ≡ some file')
      × (file'.cache ≡ file.cache)
unfolding spawn_command checked_system_call
spawn_command_given a held file = elim (Bool-cases (is_negative a.pipe)) [
  | inl bad ↦ rw (bad, spawn_command) (file, refl, refl)
  | inr piped ↦
      rw (piped, spawn_command)
        (elim (Bool-cases (is_negative a.fcntl)) [
          | inl bad ↦ rw (bad, spawn_command) (file, refl, refl)
          | inr set ↦
              rw (set, spawn_command)
                (elim (Bool-cases (is_negative a.fork)) [
                  | inl bad ↦ rw (bad, spawn_command) (file, refl, refl)
                  | inr forked ↦ rw (forked, spawn_command) (set_command a file, refl, refl)
                ])
        ])
]

pub create_command-Keeps :
    (a : Answers) (c : Controller) (task : Task) → Keeps c (create_command a c task).0
unfolding create_command close_fd
create_command-Keeps a c task = elim (Option-cases task.file) [
  | inl e ↦ rw e (Keeps-fields refl refl refl refl)
  | inr (address, e) ↦ elim (Option-cases (c.files address)) [
    | inl gone ↦ rw (e, gone) (Keeps-fields refl refl refl refl)
    | inr (file, there) ↦
        let (file', given, same) = spawn_command_given a c.held file in
        rw (e, there)
          (record {
            same_caches = refl;
            same_mode = refl;
            same_next = refl;
            same_files = λ n other f. elim (Bool-cases (address == n)) [
              | inl here ↦ (file', ground arith, ground (arith, same))
              | inr away ↦ (other, ground arith, refl)
            ];
          })
  ]
]

start_tasks-Keeps :
    (answers : ℕ → Answers) (tasks : List ℕ) (c : Controller)
    → Keeps c (start_tasks answers tasks c)
unfolding start_tasks
start_tasks-Keeps answers [] c = Keeps-refl c
start_tasks-Keeps answers (starter ∷ rest) c =
    Keeps-trans (create_command-Keeps (answers starter) c (c.tasks starter))
      (start_tasks-Keeps answers rest (create_command (answers starter) c (c.tasks starter)).0)

pub run_posted-Keeps :
    (answers : ℕ → Answers) (c c' : Controller) → run_posted answers c ≡ some c' → Keeps c c'
unfolding run_posted
run_posted-Keeps answers c c' e = by_posted c.read_loop.posted refl
  where
    by_posted : (posted : List Handler) → c.read_loop.posted ≡ posted → Keeps c c'
    by_posted [] p = subst (λ x. Keeps c x) (some-injective c c' (ground arith)) (Keeps-refl c)
    by_posted (h ∷ rest) p =
        elim (Option-cases
          (ReadLoop.handle (env_of answers c) h (record c.read_loop { posted = rest }))) [
            | inl bad ↦ absurd (ground arith)
            | inr (s, good) ↦
                let run = record c { read_loop = s } in
                let tasks = drop (length c.read_loop.started) s.started in
                subst (λ x. Keeps c x)
                  (some-injective (start_tasks answers tasks run) c' (ground arith))
                  (Keeps-trans (Keeps-fields refl refl refl refl)
                    (start_tasks-Keeps answers tasks run))
          ]
