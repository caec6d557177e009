-- ===== src/ReadLoop/Draining.antt =====
-- BasicReadLoop.hpp: what is left to do when no other thread calls the read loop any more, as after
-- the destructor of the controller has called `cancel` and waits for the thread of the io_service.
use pipefs.Common.{
  ℕ, suc, ◌+◌, ◌*◌, ◌≤◌, ◌≡◌, refl, ap, inl, inr, Bool, not, ◌&&◌, ◌||◌, ◌==◌, some, Bool-cases,
  Option-cases, List, [], ◌∷◌, ◌++◌, arith, ltb, if◌then◌else◌, length, length-append, Bytes,
}
use pipefs.Common.Dict.{Dict}
use pipefs.Common.Int.{ℤ}
use pipefs.ReadLoop.{
  ReadLoop, CacheData, QueueData, Handler, do_add_or_queue, do_remove, do_cancel, read_finished,
  Env, remove, destroy, destroy_all, start_reading, emplace, open_stream, do_add, pump, erase_entry,
  handle,
}

-- Whether a completed read has brought bytes.
abbrev pub brings : Bool → Bytes → ℕ
brings failed bytes = if not failed && ltb 0 (length bytes) then 1 else 0

-- How many steps a posted handler may lead to, itself included: a task that is added may start a
-- read, which completes, and its end is removed.
abbrev pub cost : Handler → ℕ
cost (do_add_or_queue _) = 6
cost (do_remove _) = 1
cost do_cancel = 1
cost (read_finished _ _ failed bytes) = 2 + 2 * brings failed bytes

costs : List Handler → ℕ
costs [] = 0
costs (h ∷ posted) = cost h + costs posted

-- How many steps are left, without those for bytes that still come.
unfoldable pub work : ReadLoop → ℕ
unfolding costs
work s = 4 * length s.queue + 3 * length s.reading + costs s.posted

costs-append :
    (posted posted' : List Handler) → costs (posted ++ posted') ≡ costs posted + costs posted'
unfolding costs
costs-append [] posted' = omega arith
costs-append (h ∷ posted) posted' = omega (arith, costs-append posted posted')

-- The steps of the thread and of the reads, with how many there are and how many of them bring bytes.
pub data Run : ℕ → ℕ → ReadLoop → ReadLoop → Type 0 where
  done : {s : ReadLoop} → Run 0 0 s s
  runs :
      {n d : ℕ} {s t u : ReadLoop} (env : Env) (h : Handler) (rest : List Handler)
      → s.posted ≡ h ∷ rest
      → handle env h (record s { posted = rest }) ≡ some t
      → Run n d t u
      → Run (suc n) d s u
  completes :
      {n d : ℕ} {s u : ReadLoop} (before after : List (ℕ × ℕ)) (stream cache : ℕ) (failed : Bool)
      (bytes : Bytes)
      → s.reading ≡ before ++ ((stream, cache) ∷ after)
      → Run n d
          (record s {
            reading = before ++ after;
            posted = s.posted ++ (read_finished stream cache failed bytes ∷ []);
          })
          u
      → Run (suc n) (brings failed bytes + d) s u

-- A task that is started adds at most its read, and leaves the queue.
do_add-work :
    (env : Env) (task : QueueData) (s t : ReadLoop)
    → do_add env task s ≡ some t
    → (t.queue ≡ s.queue) × (work t ≤ work s + 3)
unfolding do_add emplace open_stream start_reading destroy work
do_add-work env task s t h = (ground arith, grind (arith, length-append))

pump-work :
    (env : Env) (queue : List QueueData) (s t : ReadLoop)
    → pump env queue s ≡ some t
    → work t ≤ work (record s { queue = [] }) + 4 * length queue
unfolding pump work
pump-work env [] s t h = ground arith
pump-work env (task ∷ rest) s t h = elim (Bool-cases (ltb (length s.caches) s.process_limit)) [
  | inr full ↦ ground arith
  | inl room ↦ elim (Option-cases (do_add env task (record s { queue = rest }))) [
    | inl bad ↦ absurd (ground arith)
    | inr (u, good) ↦ ground (
      arith,
      do_add-work env task (record s { queue = rest }) u good,
      pump-work env rest u t (ground arith),
    )
  ]
]

destroy_all-work :
    (entries : Dict ℤ CacheData) (s : ReadLoop) → work (destroy_all entries s) ≡ work s
unfolding destroy_all destroy work
destroy_all-work [] s = refl
destroy_all-work ((_, entry) ∷ rest) s = destroy_all-work rest (destroy entry s)

erase_entry-work :
    (fd : ℤ) (s : ReadLoop)
    → ((erase_entry fd s).queue ≡ s.queue) × (work (erase_entry fd s) ≡ work s)
unfolding erase_entry destroy work
erase_entry-work fd s = (ground arith, ground arith)

-- A handler uses up its own share at least.
handle-work :
    (env : Env) (h : Handler) (s t : ReadLoop)
    → handle env h s ≡ some t
    → suc (work t) ≤ work s + cost h
unfolding handle work start_reading remove
handle-work env (do_add_or_queue task) s t e =
    elim (Bool-cases (s.process_limit == 0 || ltb (length s.caches) s.process_limit)) [
      | inl room ↦ ground (arith, do_add-work env task s t (ground arith))
      | inr full ↦ ground (arith, length-append s.queue (task ∷ []))
    ]
handle-work env (do_remove fd) s t e =
    ground (arith, pump-work env s.queue (erase_entry fd s) t (ground arith), erase_entry-work fd s)
handle-work env do_cancel s t e = ground (arith, destroy_all-work s.caches s)
handle-work env (read_finished stream cache failed bytes) s t e = ground (
  arith,
  length-append s.reading ((stream, cache) ∷ []),
  costs-append s.posted (do_remove (s.handles stream) ∷ []),
)

-- A completed read costs as much as the read did, and 2 more if it brings bytes.
pub completes-work :
    (s : ReadLoop) (before after : List (ℕ × ℕ)) (stream cache : ℕ) (failed : Bool) (bytes : Bytes)
    → s.reading ≡ before ++ ((stream, cache) ∷ after)
    → suc (
        work (record s {
          reading = before ++ after;
          posted = s.posted ++ (read_finished stream cache failed bytes ∷ []);
        }))
      ≡ work s + 2 * brings failed bytes
unfolding work
completes-work s before after stream cache failed bytes e = omega (
  arith,
  ap length e,
  length-append before ((stream, cache) ∷ after),
  length-append before after,
  costs-append s.posted (read_finished stream cache failed bytes ∷ []),
)

pub runs-work :
    (env : Env) (h : Handler) (rest : List Handler) (s t : ReadLoop)
    → s.posted ≡ h ∷ rest
    → handle env h (record s { posted = rest }) ≡ some t
    → suc (work t) ≤ work s
runs-work env h rest s t posted ran =
    omega (arith, handle-work env h (record s { posted = rest }) t ran, split)
  where
    split : work s ≡ work (record s { posted = rest }) + cost h
    split = unfold work in omega (arith, ap costs posted)

-- Once no other thread calls the read loop, it comes to rest: of the steps of its thread and of its
-- reads, in any order, there are at most as many as `work` counts at the start, and two more for every
-- read that brings bytes.
pub Run-IsShort : {n d : ℕ} {s u : ReadLoop} → Run n d s u → n + work u ≤ work s + 2 * d
Run-IsShort {s = s} done = omega arith
Run-IsShort {s = s} (runs env h rest posted ran more) =
    omega (arith, Run-IsShort more, runs-work env h rest _ _ posted ran)
Run-IsShort {s = s} (completes before after stream cache failed bytes e more) =
    omega (arith, Run-IsShort more, completes-work s before after stream cache failed bytes e)
