-- ===== src/ReadLoop/Serving.antt =====
-- BasicReadLoop.hpp: what comes of every task and every cache once the read loop is at rest.
use pipefs.Common.{ℕ, ◌≤◌, ◌≡◌, ap, true, false, ◌||◌, List, [], ◌∷◌, arith, some}
use pipefs.Common.Int.{int_eq}
use pipefs.Cache.{Cache, is_finished}
use pipefs.ReadLoop.{in_running, ReadLoop, Handler, read_finished, Env, handle}
use pipefs.ReadLoop.Step.{Opens, completes, runs, Reach, next}
use pipefs.ReadLoop.Draining.{work, Run}
use pipefs.ReadLoop.Expected.{is_expected, in_queue, in_posted, Keeps}
use pipefs.ReadLoop.Rest.{Starts, IsAtRest, ended, rests_soon}
use pipefs.ReadLoop.Settling.{
  is_cancel, cancels, cancels-append, Serving, goes_on, Serving-cancels, handle-cancels, rest-idle,
  rest-served,
}

-- Nothing is left to do.
abbrev pub IsServed : ReadLoop → Type 0
IsServed u = IsAtRest u × ((u.caches ≡ []) × (u.queue ≡ []))

-- Each cache that still exists, and for which a task was posted or waited or a command ran, is
-- finished.
abbrev pub Finishes : Env → ReadLoop → ReadLoop → Type 0
Finishes env s u =
    (cache : ℕ)
    → env.alive cache ≡ true
    → is_expected s cache ≡ true
    → is_finished (u.heap cache) ≡ true

-- The same, or a task for the cache waits.
abbrev pub FinishesOrWaits : Env → ReadLoop → ReadLoop → Type 0
FinishesOrWaits env s u =
    (cache : ℕ)
    → env.alive cache ≡ true
    → is_expected s cache ≡ true
    → (is_finished (u.heap cache) || in_queue cache u.queue) ≡ true

idle-FinishesOrWaits :
    (env : Env) (s u : ReadLoop)
    → IsAtRest u
    → u.caches ≡ []
    → Keeps env s u
    → FinishesOrWaits env s u
unfolding is_expected in_running in_posted is_finished
idle-FinishesOrWaits env s u rest idle keeps cache alive expected =
    let kept = keeps cache alive expected in
    ground (arith, ap (in_running cache) idle, ap (in_posted cache) rest.0)

module _ (env : Env) (opening : Opens env) (starting : Starts env) {limit : ℕ}
    {heap : ℕ → Cache} where
  -- The steps without a call from another thread keep a schedule a schedule.
  settles_to :
      (s : ReadLoop)
      → Reach limit heap s
      → (k : ℕ) × (u : ReadLoop) × ((k ≤ work s)
          × Run k 0 s u
          × IsAtRest u
          × Reach limit heap u
          × Keeps env s u)
  settles_to s reached =
      rests_soon env starting (Reach limit heap)
        (λ s t h rest posted ran r. next r (runs env h rest opening posted ran))
        (λ s stream cache after e r. next r (completes [] after stream cache true [] e)) s reached

  runs-Serving :
      (s t : ReadLoop) (h : Handler) (rest : List Handler)
      → s.posted ≡ h ∷ rest
      → handle env h (record s { posted = rest }) ≡ some t
      → Serving limit heap s
      → Serving limit heap t
  unfolding cancels
  runs-Serving s t h rest posted ran serving =
      let quiet : (is_cancel h || cancels rest) ≡ false =
        ground (arith, ap cancels posted, Serving-cancels serving) in
      let same = handle-cancels env h (record s { posted = rest }) t (ground arith) ran in
      goes_on serving (runs env h rest opening posted ran) (ground (arith, same))

  ended-Serving :
      (s : ReadLoop) (stream cache : ℕ) (after : List (ℕ × ℕ))
      → s.reading ≡ (stream, cache) ∷ after
      → Serving limit heap s
      → Serving limit heap (ended s stream cache after)
  unfolding cancels
  ended-Serving s stream cache after e serving =
      goes_on serving (completes [] after stream cache true [] e) (
        ground (
          arith,
          cancels-append s.posted (read_finished stream cache true [] ∷ []),
          Serving-cancels serving,
        ))

  -- Nothing is forgotten: from every state that a schedule reaches, with calls of `cancel` too, if
  -- every stream can be started and is open then, and every command ends without more output, at
  -- most `work` steps of the thread and the reads lead to a state in which nothing is posted, no
  -- read is under way and no command runs; and each cache that exists all the while, for which a
  -- task was posted or waited or a command ran, is finished then or has a task that still waits.
  pub settles :
      (s : ReadLoop)
      → Reach limit heap s
      → (k : ℕ) × (u : ReadLoop) × ((k ≤ work s)
          × Run k 0 s u
          × IsAtRest u
          × (u.caches ≡ [])
          × FinishesOrWaits env s u)
  settles s reached =
      let (k, u, (short, run, rest, reached', keeps)) = settles_to s reached in
      let idle = rest-idle reached' rest in
      (k, u, (short, run, rest, idle, idle-FinishesOrWaits env s u rest idle keeps))

  -- Every task is served in the end, without a call of `cancel`: from every state that a schedule
  -- reaches, if every stream can be started and is open then, and every command ends without more
  -- output, at most `work` steps of the thread and the reads lead to a state in which nothing is
  -- posted, no read is under way, no command runs and no task waits; and each cache that exists all
  -- the while, for which a task was posted or waited or a command ran, is finished then, so that
  -- whoever reads from it gets its end.
  pub serves_all :
      (s : ReadLoop)
      → Serving limit heap s
      → (k : ℕ) × (u : ReadLoop) × ((k ≤ work s) × Run k 0 s u × IsServed u × Finishes env s u)
  unfolding in_queue
  serves_all s serving =
      let (k, u, (short, run, rest, serving', keeps)) =
        rests_soon env starting (Serving limit heap) runs-Serving ended-Serving s serving in
      let (idle, empty) = rest-served serving' rest in
      (
        k,
        u,
        (
          short,
          run,
          (rest, (idle, empty)),
          λ cache alive expected. ground (
            arith,
            ap (in_queue cache) empty,
            idle-FinishesOrWaits env s u rest idle keeps cache alive expected,
          ),
        ),
      )
