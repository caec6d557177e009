-- ===== src/Controller/Seekable/Waiting.antt =====
-- Controller.cpp: what holds of every task that waits to be started stays so when a handler runs.
use mathlib.Core.Option.{some-injective}
use pipefs.Common.{
  ◌≡◌, sym, subst, inl, inr, Bool-cases, some, Option-cases, List, [], ◌∷◌, ◌++◌, All, arith, ltb,
  ◌==◌, ◌||◌, ◌&&◌, not, length,
}
use pipefs.Common.Int.{ℤ, int_eq}
use pipefs.ReadLoop.{
  is_open, ReadLoop, QueueData, Handler, do_add_or_queue, do_remove, do_cancel, read_finished, Env,
  destroy, emplace, open_stream, start_reading, do_add, pump, erase_entry, remove, handle,
}
use pipefs.Controller.Seekable.Pending.{destroy_all-same}

module _ (P : QueueData → Type 0) where
  abbrev pub OfHandler : Handler → Type 0
  OfHandler (do_add_or_queue task) = P task
  OfHandler (do_remove _) = Unit
  OfHandler do_cancel = Unit
  OfHandler (read_finished _ _ _ _) = Unit

  pub All-append :
      (tasks : List QueueData) (task : QueueData)
      → All P tasks
      → P task
      → All P (tasks ++ (task ∷ []))
  All-append [] task h p = (p, tt)
  All-append (first ∷ tasks) task h p = (h.0, All-append tasks task h.1 p)

  pub AllPosted-append :
      (posted : List Handler) (h : Handler)
      → All OfHandler posted
      → OfHandler h
      → All OfHandler (posted ++ (h ∷ []))
  AllPosted-append [] h v p = (p, tt)
  AllPosted-append (first ∷ posted) h v p = (v.0, AllPosted-append posted h v.1 p)

  -- Every task that waits, in the queue or to be added to it.
  pub record AllWaiting (s : ReadLoop) : Type 0 where
    pub queued : All P s.queue
    pub posted : All OfHandler s.posted

  do_add-same :
      (env : Env) (task : QueueData) (s t : ReadLoop)
      → do_add env task s ≡ some t
      → (t.queue ≡ s.queue) × (t.posted ≡ s.posted)
  unfolding do_add emplace open_stream start_reading destroy
  do_add-same env task s t h = ground arith

  moved : (s t : ReadLoop) → t.queue ≡ s.queue → t.posted ≡ s.posted → AllWaiting s → AllWaiting t
  moved s t queue posted v = record {
    queued = subst (λ q. All P q) (sym queue) v.queued;
    posted = subst (λ q. All OfHandler q) (sym posted) v.posted;
  }

  pump-AllWaiting :
      (env : Env) (queue : List QueueData) (s t : ReadLoop)
      → pump env queue s ≡ some t
      → All P queue
      → All OfHandler s.posted
      → AllWaiting t
  unfolding pump
  pump-AllWaiting env [] s t h q p =
      subst AllWaiting (some-injective _ _ h) (record { queued = tt; posted = p })
  pump-AllWaiting env (task ∷ rest) s t h q p =
      elim (Bool-cases (ltb (length s.caches) s.process_limit)) [
        | inr full ↦
            moved (record s { queue = task ∷ rest }) t (ground arith) (ground arith)
              (record { queued = q; posted = p })
        | inl room ↦ elim (Option-cases (do_add env task (record s { queue = rest }))) [
          | inl bad ↦ absurd (ground arith)
          | inr (u, good) ↦
              let (_, same) = do_add-same env task (record s { queue = rest }) u good in
              pump-AllWaiting env rest u t (ground arith) q.1
                (subst (λ l. All OfHandler l) (sym same) p)
        ]
      ]

  erase_entry-same :
      (fd : ℤ) (s : ReadLoop)
      → ((erase_entry fd s).queue ≡ s.queue) × ((erase_entry fd s).posted ≡ s.posted)
  unfolding erase_entry destroy
  erase_entry-same fd s = (ground arith, ground arith)

  pub handle-AllWaiting :
      (env : Env) (h : Handler) (s t : ReadLoop)
      → handle env h s ≡ some t
      → AllWaiting s
      → OfHandler h
      → AllWaiting t
  unfolding handle start_reading remove
  handle-AllWaiting env (do_add_or_queue task) s t e v p =
      elim (Bool-cases (s.process_limit == 0 || ltb (length s.caches) s.process_limit)) [
        | inl room ↦
            let (queue, posted) = do_add-same env task s t (ground arith) in
            moved s t queue posted v
        | inr full ↦
            moved (record s { queue = s.queue ++ (task ∷ []) }) t (ground arith) (ground arith)
              (record { queued = All-append s.queue task v.queued p; posted = v.posted })
      ]
  handle-AllWaiting env (do_remove fd) s t e v p =
      let (_, posted) = erase_entry-same fd s in
      pump-AllWaiting env s.queue (erase_entry fd s) t (ground arith) v.queued
        (subst (λ l. All OfHandler l) (sym posted) v.posted)
  handle-AllWaiting env do_cancel s t e v p =
      let (queue, posted, _) = destroy_all-same s.caches s in
      moved s t (ground arith) (ground arith) v
  handle-AllWaiting env (read_finished stream cache failed bytes) s t e v p =
      let ended = do_remove (s.handles stream) in
      elim (Bool-cases (not failed && ltb 0 (length bytes) && is_open s stream)) [
        | inl more ↦ moved s t (ground arith) (ground arith) v
        | inr last ↦
            moved (record s { posted = s.posted ++ (ended ∷ []) }) t (ground arith) (ground arith)
              (record { queued = v.queued; posted = AllPosted-append s.posted ended v.posted tt })
      ]
