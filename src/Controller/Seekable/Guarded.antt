-- ===== src/Controller/Seekable/Guarded.antt =====
-- Controller.cpp with `seekable` and without caching: the `weak_ptr` of a task's cache guards the
-- address of the file that the task holds.
use pipefs.Common.{
  ℕ, zero, suc, ◌+◌, ◌≤◌, ◌<◌, ◌≡◌, refl, sym, ap, ◌∙◌, subst, ◌⊎◌, inl, inr, true, false,
  Bool-cases, Option, none, some, List, [], ◌∷◌, ◌++◌, All, arith, ==_iff,
}
use pipefs.SpawnCommand.{FileData}
use pipefs.ReadLoop.{ReadLoop, QueueData, Handler, do_add_or_queue}
use pipefs.Controller.{Controller}
use pipefs.Controller.Commands.{holds, in_files, in_map, alive}
use pipefs.Controller.Seekable.Pending.{
  is_active, uses, tasks_for, posted_for, tasks_for-append, posted_for-append,
}
use pipefs.Controller.Seekable.Waiting.{AllWaiting, OfHandler}

-- The task is bound to a file, and only that file, if it is still there, has the task's cache.
pub record IsBound (c : Controller) (task : QueueData) : Type 0 where
  pub address : ℕ
  pub bound : (c.tasks task.read_starter).file ≡ some address
  pub known : task.read_starter < c.next_task
  pub made : task.cache < c.next_cache
  pub only : (n : ℕ) → holds task.cache (c.files n) ≡ true → n ≡ address

-- No two commands are for one cache, whether they wait or are active, and new caches have none.
pub record IsGuarded (c : Controller) : Type 0 where
  pub caching : c.use_cache ≡ false
  pub seeks : c.seekable ≡ true
  pub unnamed : c.caches ≡ []
  pub waiting : AllWaiting (IsBound c) c.read_loop
  pub one_use : (cache : ℕ) → uses c.read_loop cache ≤ 1
  pub fresh :
      (cache : ℕ)
      → c.next_cache ≤ cache
      → (uses c.read_loop cache ≡ 0) × ((n : ℕ) → holds cache (c.files n) ≡ false)

-- The task waits in the queue, or to be added to it.
abbrev pub Waits : ReadLoop → QueueData → Type 0
Waits s task =
    ((before after : List QueueData) × (s.queue ≡ before ++ (task ∷ after)))
    ⊎ ((before after : List Handler) × (s.posted ≡ before ++ (do_add_or_queue task ∷ after)))

All-middle {ℓ κ} :
    {A : Type ℓ} (P : A → Type κ) (before : List A) (a : A) (after : List A)
    → All P (before ++ (a ∷ after))
    → P a
All-middle P [] a after h = h.0
All-middle P (_ ∷ before) a after h = All-middle P before a after h.1

Waits-IsBound :
    (c : Controller) (task : QueueData)
    → AllWaiting (IsBound c) c.read_loop
    → Waits c.read_loop task
    → IsBound c task
Waits-IsBound c task v (inl (before, after, e)) =
    All-middle (IsBound c) before task after (subst (λ l. All (IsBound c) l) e v.queued)
Waits-IsBound c task v (inr (before, after, e)) =
    All-middle (OfHandler (IsBound c)) before (do_add_or_queue task) after
      (subst (λ l. All (OfHandler (IsBound c)) l) e v.posted)

-- A task that waits is a use of its cache.
Waits-tasks_for :
    (s : ReadLoop) (task : QueueData)
    → Waits s task
    → 1 ≤ tasks_for task.cache s.queue + posted_for task.cache s.posted
unfolding tasks_for posted_for
Waits-tasks_for s task (inl (before, after, e)) = ground (
  arith,
  ap (tasks_for task.cache) e,
  tasks_for-append task.cache before (task ∷ after),
  ==_iff task.cache task.cache,
)
Waits-tasks_for s task (inr (before, after, e)) = ground (
  arith,
  ap (posted_for task.cache) e,
  posted_for-append task.cache before (do_add_or_queue task ∷ after),
  ==_iff task.cache task.cache,
)

in_files-some :
    (cache n : ℕ) (files : ℕ → Option FileData)
    → in_files cache n files ≡ true
    → (k : ℕ) × (holds cache (files k) ≡ true)
unfolding in_files
in_files-some cache zero files h = absurd (ground arith)
in_files-some cache (suc n) files h = elim (Bool-cases (holds cache (files n))) [
  | inl here ↦ (n, here)
  | inr below ↦ in_files-some cache n files (ground arith)
]

holds-some :
    (cache : ℕ) (o : Option FileData)
    → holds cache o ≡ true
    → (file : FileData) × (o ≡ some file) × (file.cache ≡ some cache)
holds-some cache none h = absurd (ground arith)
holds-some cache (some file) h = (file, refl, ground arith)

pub alive-file :
    (c : Controller) (task : QueueData)
    → IsGuarded c
    → Waits c.read_loop task
    → alive c task.cache ≡ true
    → (address : ℕ) × (file : FileData) × (((c.tasks task.read_starter).file ≡ some address)
        × (c.files address ≡ some file)
        × (file.cache ≡ some task.cache))
unfolding alive in_map uses is_active
alive-file c task v waits lives =
    let bound = Waits-IsBound c task v.waiting waits in
    let in_file : in_files task.cache c.next_file c.files ≡ true =
      ground (arith, Waits-tasks_for c.read_loop task waits, v.one_use task.cache, v.unnamed) in
    let (n, here) = in_files-some task.cache c.next_file c.files in_file in
    let (file, there, its) = holds-some task.cache (c.files n) here in
    (n, file, (bound.bound ∙ ap some (sym (bound.only n here)), there, its))
