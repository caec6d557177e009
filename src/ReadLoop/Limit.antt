-- ===== src/ReadLoop/Limit.antt =====
-- BasicReadLoop.hpp: how many commands run, and which tasks wait.
use pipefs.Common.{
  false, Bool, true, ℕ, ◌+◌, ◌≤◌, ◌≡◌, refl, ◌∙◌, ◌⊎◌, inl, inr, ◌≢◌, ◌||◌, subst, Bool-cases, some,
  Option-cases, List, [], ◌∷◌, arith, dec_lt, ltb, ◌==◌, length,
}
use pipefs.Common.Dict.{lookup, length-insert_absent, length-erase}
use pipefs.Common.Int.{ℤ, int_eq}
use pipefs.Cache.{Cache}
use pipefs.ReadLoop.{
  ReadLoop, CacheData, QueueData, Handler, do_add_or_queue, do_remove, do_cancel, read_finished,
  Env, destroy, do_add, pump, erase_entry, destroy_all, handle, add, remove, cancel,
}
use pipefs.ReadLoop.Step.{
  Step, calls_add, calls_remove, calls_cancel, completes, runs, Reach, start, next,
}

-- What adding a task does to the number of commands and to the queue.
do_add-counts :
    (env : Env) (task : QueueData) (s t : ReadLoop)
    → do_add env task s ≡ some t
    → (length s.caches ≤ length t.caches)
      × (length t.caches ≤ length s.caches + 1)
      × (t.queue ≡ s.queue)
      × (t.process_limit ≡ s.process_limit)
unfolding do_add
do_add-counts env task s t h = elim (Bool-cases (env.alive task.cache)) [
  | inr dead ↦ ground arith
  | inl lives ↦ elim (Option-cases (env.descriptor task.read_starter)) [
    | inl bad ↦ absurd (ground arith)
    | inr (fd, good) ↦ ground (
      arith,
      length-insert_absent fd (record { cache = task.cache; stream = s.next_stream }) s.caches,
    )
  ]
]

pump-counts :
    (env : Env) (queue : List QueueData) (s t : ReadLoop)
    → length s.caches ≤ s.process_limit
    → pump env queue s ≡ some t
    → (length t.caches ≤ s.process_limit)
      × (t.process_limit ≡ s.process_limit)
      × ((t.queue ≡ []) ⊎ (s.process_limit ≤ length t.caches))
unfolding pump
pump-counts env [] s t le h = ground arith
pump-counts env (task ∷ rest) s t le h = elim (Bool-cases (ltb (length s.caches) s.process_limit)) [
  | inr full ↦ ground arith
  | inl room ↦ elim (Option-cases (do_add env task (record s { queue = rest }))) [
    | inl bad ↦ absurd (ground arith)
    | inr (u, good) ↦
        ground (
          arith,
          do_add-counts env task (record s { queue = rest }) u good,
          pump-counts env rest u t,
        )
  ]
]

-- The commands stay within the limit, if there is one; without one no task waits.
pub record IsBounded (s : ReadLoop) : Type 0 where
  pub within : (s.process_limit ≡ 0) ⊎ (length s.caches ≤ s.process_limit)
  pub unlimited : s.process_limit ≡ 0 → s.queue ≡ []

-- A task waits only while as many commands run as may.
abbrev pub IsBusy : ReadLoop → Type 0
IsBusy s = (s.queue ≡ []) ⊎ (s.process_limit ≤ length s.caches)

destroy_all-queue :
    (entries : List (ℤ × CacheData)) (s : ReadLoop)
    → ((destroy_all entries s).queue ≡ s.queue)
      × ((destroy_all entries s).process_limit ≡ s.process_limit)
unfolding destroy_all destroy
destroy_all-queue [] s = (refl, refl)
destroy_all-queue ((_, entry) ∷ rest) s = destroy_all-queue rest (destroy entry s)

length-erase_entry :
    (fd : ℤ) (s : ReadLoop)
    → (length (erase_entry fd s).caches ≤ length s.caches)
      × ((erase_entry fd s).queue ≡ s.queue)
      × ((erase_entry fd s).process_limit ≡ s.process_limit)
unfolding erase_entry
length-erase_entry fd s = elim (Option-cases (lookup fd s.caches)) [
  | inl e ↦ rw (e, erase_entry) (ground arith)
  | inr (entry, e) ↦ rw (e, erase_entry) (ground (arith, length-erase fd s.caches entry e))
]

-- `remove` hands free places on until they run out or nobody waits.
remove-counts :
    (env : Env) (fd : ℤ) (s t : ReadLoop)
    → IsBounded s
    → handle env (do_remove fd) s ≡ some t
    → (t.process_limit ≡ s.process_limit) × IsBounded t × IsBusy t
unfolding handle
remove-counts env fd s t b e = elim (dec_lt 0 s.process_limit) [
  | yes limited ↦
      let (le, queue, limit) = length-erase_entry fd s in
      let (small, same, busy) = pump-counts env s.queue (erase_entry fd s) t (ground arith) e in
      (
        same ∙ limit,
        record { within = inr (omega arith); unlimited = λ z. absurd (omega arith) },
        ground arith,
      )
  | no free ↦
      let (le, queue, limit) = length-erase_entry fd s in
      let empty : s.queue ≡ [] = b.unlimited (omega arith) in
      let done : some (record (erase_entry fd s) { queue = [] }) ≡ some t =
        unfold pump in subst (λ q. pump env q (erase_entry fd s) ≡ some t) empty e in
      (
        ground arith,
        record { within = inl (ground arith); unlimited = λ z. ground arith },
        ground arith,
      )
]

cancel-counts :
    (env : Env) (s t : ReadLoop)
    → handle env do_cancel s ≡ some t
    → (t.process_limit ≡ s.process_limit) × (t.queue ≡ s.queue) × (length t.caches ≡ 0)
unfolding handle
cancel-counts env s t e = ground (arith, destroy_all-queue s.caches s)

add-counts :
    (env : Env) (task : QueueData) (s t : ReadLoop)
    → IsBounded s
    → handle env (do_add_or_queue task) s ≡ some t
    → (t.process_limit ≡ s.process_limit) × IsBounded t × (IsBusy s → IsBusy t)
unfolding handle
add-counts env task s t b e =
    elim (Bool-cases (s.process_limit == 0 || ltb (length s.caches) s.process_limit)) [
      | inl room ↦
          let (grows, most, queue, limit) = do_add-counts env task s t (ground arith) in
          (
            limit,
            record { within = ground arith; unlimited = λ z. ground (arith, b.unlimited) },
            λ busy. ground arith,
          )
      | inr full ↦ (
        ground arith,
        record { within = ground arith; unlimited = λ z. absurd (ground arith) },
        λ busy. ground arith,
      )
    ]

handle-limit :
    (env : Env) (h : Handler) (s t : ReadLoop)
    → IsBounded s
    → handle env h s ≡ some t
    → t.process_limit ≡ s.process_limit
handle-limit env (do_add_or_queue task) s t b e = (add-counts env task s t b e).0
handle-limit env (do_remove fd) s t b e = (remove-counts env fd s t b e).0
handle-limit env do_cancel s t b e = (cancel-counts env s t e).0
handle-limit env (read_finished stream cache failed bytes) s t b e = unfold handle in ground arith

handle-IsBounded :
    (env : Env) (h : Handler) (s t : ReadLoop) → IsBounded s → handle env h s ≡ some t → IsBounded t
handle-IsBounded env (do_add_or_queue task) s t b e = (add-counts env task s t b e).1
handle-IsBounded env (do_remove fd) s t b e = (remove-counts env fd s t b e).1
handle-IsBounded env do_cancel s t b e =
    let (limit, queue, none_left) = cancel-counts env s t e in
    record { within = inr (omega arith); unlimited = λ z. queue ∙ b.unlimited (omega arith) }
handle-IsBounded env (read_finished stream cache failed bytes) s t b e =
    unfold handle in ground arith

abbrev pub is_remove : Handler → Bool
is_remove (do_remove _) = true
is_remove _ = false

-- No place stays free while a task waits: a handler other than that of `cancel` leaves it so if it was
-- so before, and the handler of `remove` whether or not it was.
pub handle-IsBusy :
    (env : Env) (h : Handler) (s t : ReadLoop)
    → IsBounded s
    → h ≢ do_cancel
    → handle env h s ≡ some t
    → IsBusy s ⊎ (is_remove h ≡ true)
    → IsBusy t
handle-IsBusy env (do_add_or_queue task) s t b ne e (inl busy) =
    (add-counts env task s t b e).2 busy
handle-IsBusy env (do_add_or_queue task) s t b ne e (inr other) = absurd (ground arith)
handle-IsBusy env (do_remove fd) s t b ne e busy = (remove-counts env fd s t b e).2
handle-IsBusy env do_cancel s t b ne e busy = absurd (ne refl)
handle-IsBusy env (read_finished stream cache failed bytes) s t b ne e (inl busy) =
    unfold handle in ground arith
handle-IsBusy env (read_finished stream cache failed bytes) s t b ne e (inr other) =
    absurd (ground arith)

Step-IsBounded : {s t : ReadLoop} → Step s t → IsBounded s → IsBounded t
unfolding add remove cancel
Step-IsBounded (calls_add task) b = ground arith
Step-IsBounded (calls_remove fd) b = ground arith
Step-IsBounded calls_cancel b = ground arith
Step-IsBounded (completes before after stream cache failed bytes e) b = ground arith
Step-IsBounded {s} {t} (runs env h rest opens e done) b =
    handle-IsBounded env h (record s { posted = rest }) t
      (record { within = b.within; unlimited = b.unlimited }) done

-- Whatever the other threads do and however reads complete, at most `process_limit` commands run at
-- a time, and with a limit of 0, which stands for no limit, no task ever waits.
pub Reach-IsBounded :
    {limit : ℕ} {heap : ℕ → Cache} {s : ReadLoop} → Reach limit heap s → IsBounded s
Reach-IsBounded start = record { within = inr (omega arith); unlimited = λ z. refl }
Reach-IsBounded (next r st) = Step-IsBounded st (Reach-IsBounded r)
