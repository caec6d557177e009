-- ===== src/ReadLoop/Settling.antt =====
-- BasicReadLoop.hpp without `cancel`: when nothing is left to do, every task has been served.
use pipefs.Common.{
  ℕ, ◌≡◌, refl, sym, ap, ◌∙◌, subst, inl, inr, Bool, true, false, ◌||◌, Bool-cases, some,
  Option-cases, List, List-cases, [], ◌∷◌, ◌++◌, arith, ltb, ◌==◌, length,
}
use pipefs.Common.Dict.{lookup}
use pipefs.Common.Int.{ℤ, int_eq, int_beq_iff}
use pipefs.Cache.{Cache}
use pipefs.ReadLoop.{
  ReadLoop, CacheData, QueueData, Handler, do_add_or_queue, do_remove, do_cancel, read_finished,
  Env, pump, erase_entry, do_add, emplace, open_stream, destroy, start_reading, handle, add, remove,
  cancel,
}
use pipefs.ReadLoop.Step.{
  Step, calls_add, calls_remove, calls_cancel, completes, runs, Reach, start, next, init,
}
use pipefs.ReadLoop.Limit.{IsBounded, IsBusy, handle-IsBusy, Reach-IsBounded}
use pipefs.ReadLoop.Watch.{Reach-IsWatched, is_read, is_posted}
use pipefs.ReadLoop.Rest.{IsAtRest}

abbrev pub is_cancel : Handler → Bool
is_cancel (do_add_or_queue _) = false
is_cancel (do_remove _) = false
is_cancel do_cancel = true
is_cancel (read_finished _ _ _ _) = false

unfoldable pub cancels : List Handler → Bool
cancels [] = false
cancels (h ∷ posted) = is_cancel h || cancels posted

pub cancels-append :
    (posted posted' : List Handler)
    → cancels (posted ++ posted') ≡ (cancels posted || cancels posted')
unfolding cancels
cancels-append [] posted' = refl
cancels-append (h ∷ posted) posted' = ground (arith, cancels-append posted posted')

-- What a schedule reaches in which nothing calls `cancel`.
pub data Serving (limit : ℕ) (heap : ℕ → Cache) : ReadLoop → Type 0 where
  starts : Serving limit heap (init limit heap)
  goes_on :
      {s t : ReadLoop}
      → Serving limit heap s
      → Step s t
      → cancels t.posted ≡ false
      → Serving limit heap t

pub Serving-Reach :
    {limit : ℕ} {heap : ℕ → Cache} {s : ReadLoop} → Serving limit heap s → Reach limit heap s
Serving-Reach starts = start
Serving-Reach (goes_on r step _) = next (Serving-Reach r) step

pub Serving-cancels :
    {limit : ℕ} {heap : ℕ → Cache} {s : ReadLoop} → Serving limit heap s → cancels s.posted ≡ false
unfolding cancels
Serving-cancels starts = refl
Serving-cancels (goes_on _ _ e) = e

Step-IsBusy :
    {s t : ReadLoop} → Step s t → IsBounded s → cancels s.posted ≡ false → IsBusy s → IsBusy t
unfolding add remove cancel cancels
Step-IsBusy (calls_add task) bounded quiet busy = busy
Step-IsBusy (calls_remove fd) bounded quiet busy = busy
Step-IsBusy calls_cancel bounded quiet busy = busy
Step-IsBusy (completes before after stream cache failed bytes e) bounded quiet busy = busy
Step-IsBusy {s} {t} (runs env h rest opens e ran) bounded quiet busy =
    handle-IsBusy env h (record s { posted = rest }) t
      (record { within = bounded.within; unlimited = bounded.unlimited })
      (λ same. ground (arith, ap cancels e)) ran (inl busy)

Serving-IsBusy : {limit : ℕ} {heap : ℕ → Cache} {s : ReadLoop} → Serving limit heap s → IsBusy s
Serving-IsBusy starts = inl refl
Serving-IsBusy (goes_on r step _) =
    Step-IsBusy step (Reach-IsBounded (Serving-Reach r)) (Serving-cancels r) (Serving-IsBusy r)

lookup-head :
    (fd : ℤ) (entry : CacheData) (more : List (ℤ × CacheData))
    → lookup fd ((fd, entry) ∷ more) ≡ some entry
unfolding lookup
lookup-head fd entry more = ground (arith, int_beq_iff fd fd)

-- At rest no command runs.
pub rest-idle :
    {limit : ℕ} {heap : ℕ → Cache} {s : ReadLoop} → Reach limit heap s → IsAtRest s → s.caches ≡ []
rest-idle {s = s} reached rest = elim (List-cases s.caches) [
  | inl empty ↦ empty
  | inr ((fd, entry), more, e) ↦
      let there : lookup fd s.caches ≡ some entry =
        subst (λ d. lookup fd d ≡ some entry) (sym e) (lookup-head fd entry more) in
      absurd (
        unfold is_read in
        unfold is_posted in ground (arith, Reach-IsWatched reached fd entry there))
]

-- At rest no task waits either.
pub rest-served :
    {limit : ℕ} {heap : ℕ → Cache} {s : ReadLoop}
    → Serving limit heap s
    → IsAtRest s
    → (s.caches ≡ []) × (s.queue ≡ [])
rest-served {s = s} serving rest =
    let idle = rest-idle (Serving-Reach serving) rest in
    let bounded = Reach-IsBounded (Serving-Reach serving) in
    (idle, ground (arith, Serving-IsBusy serving, bounded.unlimited))

do_add-posted :
    (env : Env) (task : QueueData) (s t : ReadLoop)
    → do_add env task s ≡ some t
    → t.posted ≡ s.posted
unfolding do_add emplace open_stream start_reading destroy
do_add-posted env task s t h = ground arith

pump-posted :
    (env : Env) (queue : List QueueData) (s t : ReadLoop)
    → pump env queue s ≡ some t
    → t.posted ≡ s.posted
unfolding pump
pump-posted env [] s t h = ground arith
pump-posted env (task ∷ rest) s t h = elim (Bool-cases (ltb (length s.caches) s.process_limit)) [
  | inr full ↦ ground arith
  | inl room ↦ elim (Option-cases (do_add env task (record s { queue = rest }))) [
    | inl bad ↦ absurd (ground arith)
    | inr (u, good) ↦
        pump-posted env rest u t (ground arith)
        ∙ do_add-posted env task (record s { queue = rest }) u good
  ]
]

erase_entry-posted : (fd : ℤ) (s : ReadLoop) → (erase_entry fd s).posted ≡ s.posted
unfolding erase_entry destroy
erase_entry-posted fd s = ground arith

-- No handler but that of `cancel` itself has to do with a cancellation.
pub handle-cancels :
    (env : Env) (h : Handler) (s t : ReadLoop)
    → is_cancel h ≡ false
    → handle env h s ≡ some t
    → cancels t.posted ≡ cancels s.posted
unfolding handle cancels start_reading remove
handle-cancels env (do_add_or_queue task) s t calm e =
    elim (Bool-cases (s.process_limit == 0 || ltb (length s.caches) s.process_limit)) [
      | inl room ↦ ap cancels (do_add-posted env task s t (ground arith))
      | inr full ↦ ground arith
    ]
handle-cancels env (do_remove fd) s t calm e =
    ap cancels (pump-posted env s.queue (erase_entry fd s) t e ∙ erase_entry-posted fd s)
handle-cancels env do_cancel s t calm e = absurd (ground arith)
handle-cancels env (read_finished stream cache failed bytes) s t calm e =
    ground (arith, cancels-append s.posted (do_remove (s.handles stream) ∷ []))
