-- ===== src/ReadLoop/Rest.antt =====
-- BasicReadLoop.hpp: without calls from other threads the read loop can come to rest.
use pipefs.Common.{
  ℕ, zero, suc, ◌≤◌, ◌≡◌, refl, ◌⊎◌, inl, inr, true, none, some, Bool-cases, Option-cases, ◌≢◌,
  List-cases, List, [], ◌∷◌, ◌++◌, arith, ltb, length,
}
use pipefs.Common.Int.{ℤ}
use pipefs.ReadLoop.{
  ReadLoop, QueueData, Handler, do_add_or_queue, do_remove, do_cancel, read_finished, Env, do_add,
  pump, erase_entry, handle,
}
use pipefs.ReadLoop.Expected.{Keeps, read-Keeps, handle-is_expected}
use pipefs.ReadLoop.{Handler}
use pipefs.ReadLoop.Draining.{
  work, Run, done, runs, completes, Run-IsShort, runs-work, completes-work,
}

-- No call of `readStarter` throws.
abbrev pub Starts : Env → Type 0
Starts env = (starter : ℕ) → (fd : ℤ) × (env.descriptor starter ≡ some fd)

do_add_started :
    (env : Env)
    → Starts env
    → (task : QueueData) (s : ReadLoop) → (t : ReadLoop) × (do_add env task s ≡ some t)
do_add_started env starts task s = elim (Option-cases (do_add env task s)) [
  | inr found ↦ found
  | inl bad ↦ let (fd, good) = starts task.read_starter in absurd (unfold do_add in ground arith)
]

pump_started :
    (env : Env)
    → Starts env
    → (queue : List QueueData) (s : ReadLoop) → (t : ReadLoop) × (pump env queue s ≡ some t)
unfolding pump
pump_started env starts [] s = (record s { queue = [] }, refl)
pump_started env starts (task ∷ rest) s =
    let (t, added) = do_add_started env starts task (record s { queue = rest }) in
    let (u, more) = pump_started env starts rest t in
    elim (Bool-cases (ltb (length s.caches) s.process_limit)) [
      | inl room ↦ (u, rw (room, added) more)
      | inr full ↦ (record s { queue = task ∷ rest }, rw full refl)
    ]

handle-fails : (env : Env) → Starts env → (h : Handler) (s : ReadLoop) → handle env h s ≢ none
unfolding handle
handle-fails env starts (do_add_or_queue task) s bad =
    let (t, added) = do_add_started env starts task s in ground arith
handle-fails env starts (do_remove fd) s bad =
    let (t, served) = pump_started env starts s.queue (erase_entry fd s) in ground arith
handle-fails env starts do_cancel s bad = ground arith
handle-fails env starts (read_finished stream cache failed bytes) s bad = ground arith

pub handle_started :
    (env : Env)
    → Starts env
    → (h : Handler) (s : ReadLoop) → (t : ReadLoop) × (handle env h s ≡ some t)
handle_started env starts h s = elim (Option-cases (handle env h s)) [
  | inr found ↦ found
  | inl bad ↦ absurd (handle-fails env starts h s bad)
]

-- Nothing is posted and no read is under way: then `run` of the io_service returns.
abbrev pub IsAtRest : ReadLoop → Type 0
IsAtRest s = (s.posted ≡ []) × (s.reading ≡ [])

-- A read that ends without more output.
abbrev pub ended : ReadLoop → ℕ → ℕ → List (ℕ × ℕ) → ReadLoop
ended s stream cache after = record s {
  reading = after;
  posted = s.posted ++ (read_finished stream cache true [] ∷ []);
}

-- The thread runs what is posted, and when nothing is, the first read ends. `P` is a property of
-- states that these steps keep.
module _ (env : Env) (starts : Starts env) (P : ReadLoop → Type 0)
    (runs-P : (s t : ReadLoop) (h : Handler) (rest : List Handler)
      → s.posted ≡ h ∷ rest
      → handle env h (record s { posted = rest }) ≡ some t
      → P s
      → P t)
    (ended-P : (s : ReadLoop) (stream cache : ℕ) (after : List (ℕ × ℕ))
      → s.reading ≡ (stream, cache) ∷ after
      → P s
      → P (ended s stream cache after)) where
  progress :
      (s : ReadLoop)
      → P s
      → IsAtRest s
        ⊎ ((t : ReadLoop) × (suc (work t) ≤ work s)
            × P t
            × Keeps env s t
            × ((k : ℕ) (u : ReadLoop) → Run k 0 t u → Run (suc k) 0 s u))
  progress s p = elim (List-cases s.posted) [
    | inr (h, rest, posted) ↦
        let (t, ran) = handle_started env starts h (record s { posted = rest }) in
        inr (
          t,
          runs-work env h rest s t posted ran,
          runs-P s t h rest posted ran p,
          λ cache alive. handle-is_expected env cache alive h rest s t posted ran,
          λ k u more. runs env h rest posted ran more,
        )
    | inl idle ↦ elim (List-cases s.reading) [
      | inl quiet ↦ inl (idle, quiet)
      | inr ((stream, cache), after, reading) ↦ inr (
        ended s stream cache after,
        omega (arith, completes-work s [] after stream cache true [] reading),
        ended-P s stream cache after reading p,
        read-Keeps env s stream cache after,
        λ k u more. completes [] after stream cache true [] reading more,
      )
    ]
  ]

  rests :
      (n : ℕ) (s : ReadLoop)
      → work s ≤ n
      → P s
      → (k : ℕ) × (u : ReadLoop) × (Run k 0 s u × IsAtRest u × P u × Keeps env s u)
  rests zero s enough p = elim (progress s p) [
    | inl rest ↦ (0, s, (done, rest, p, λ cache alive expected. expected))
    | inr (t, less, _, _, _) ↦ absurd (omega (arith, less, enough))
  ]
  rests (suc n) s enough p = elim (progress s p) [
    | inl rest ↦ (0, s, (done, rest, p, λ cache alive expected. expected))
    | inr (t, less, p', keeps, step) ↦
        let (k, u, (more, rest, p'', keeps')) = rests n t (omega (arith, less, enough)) p' in
        (
          suc k,
          u,
          (
            step k u more,
            rest,
            p'',
            λ cache alive expected. keeps' cache alive (keeps cache alive expected),
          ),
        )
  ]

  pub rests_soon :
      (s : ReadLoop)
      → P s
      → (k : ℕ) × (u : ReadLoop) × ((k ≤ work s) × Run k 0 s u × IsAtRest u × P u × Keeps env s u)
  rests_soon s p =
      let (k, u, (run, rest, p', keeps)) = rests (work s) s (omega arith) p in
      (k, u, (omega (arith, Run-IsShort run), run, rest, p', keeps))

-- The read loop can always be brought to rest: from every state, if every command that runs or is
-- started can be started and ends without more output, at most `work` steps of the thread and the
-- reads lead to a state with nothing posted and no read under way, the end of `run` of the
-- io_service.
drains :
    (env : Env)
    → Starts env
    → (s : ReadLoop) → (k : ℕ) × (u : ReadLoop) × ((k ≤ work s) × Run k 0 s u × IsAtRest u)
drains env starts s =
    let (k, u, (short, run, rest, _, _)) =
      rests_soon env starts (λ _. Unit) (λ s t h rest posted ran p. p)
        (λ s stream cache after e p. p) s tt in
    (k, u, (short, run, rest))
