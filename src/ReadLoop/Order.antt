-- ===== src/ReadLoop/Order.antt =====
-- BasicReadLoop.hpp: the order in which waiting tasks are started.
use mathlib.Core.List.{append-nil, append_assoc}
use pipefs.Common.{
  Bool, Bytes, ℕ, ◌<◌, ◌≡◌, refl, sym, ◌∙◌, ap, inl, inr, Bool-cases, some, Option-cases, List, [],
  ◌∷◌, ◌++◌, arith, ltb, if◌then◌else◌, length,
}
use pipefs.Common.Dict.{Dict, lookup}
use pipefs.Common.Int.{ℤ, int_eq}
use pipefs.ReadLoop.Ownership.{destroy_all-handles}
use pipefs.ReadLoop.{
  Handler, read_finished, remove, ReadLoop, CacheData, QueueData, do_remove, do_cancel, closed,
  destroy, destroy_all, Env, do_add, pump, erase_entry, handle,
}

-- The tasks of a list whose caches still exist.
unfoldable pub live_starters : Env → List QueueData → List ℕ
live_starters env [] = []
live_starters env (task ∷ rest) =
    let more = live_starters env rest in
    if env.alive task.cache then task.read_starter ∷ more else more

pub do_add-started :
    (env : Env) (task : QueueData) (s t : ReadLoop)
    → do_add env task s ≡ some t
    → (t.queue ≡ s.queue) × (t.started ≡ s.started ++ live_starters env (task ∷ []))
unfolding do_add live_starters
do_add-started env task s t h = ground (arith, append-nil s.started)

live_starters-cons :
    (env : Env) (task : QueueData) (rest : List QueueData)
    → live_starters env (task ∷ rest) ≡ live_starters env (task ∷ []) ++ live_starters env rest
unfolding live_starters
live_starters-cons env task rest = ground arith

pump-started :
    (env : Env) (queue : List QueueData) (s t : ReadLoop)
    → pump env queue s ≡ some t
    → (served : List QueueData) × (queue ≡ served ++ t.queue)
      × (t.started ≡ s.started ++ live_starters env served)
unfolding pump live_starters
pump-started env [] s t h = ([], ground arith, ground (arith, append-nil s.started))
pump-started env (task ∷ rest) s t h = elim (Bool-cases (ltb (length s.caches) s.process_limit)) [
  | inr full ↦ ([], ground arith, ground (arith, append-nil s.started))
  | inl room ↦ elim (Option-cases (do_add env task (record s { queue = rest }))) [
    | inl bad ↦ absurd (ground arith)
    | inr (u, good) ↦
        let (served, split, order) = pump-started env rest u t (ground arith) in
        let (_, one) = do_add-started env task (record s { queue = rest }) u good in
        (
          task ∷ served,
          ap (◌∷◌ task) split,
          order
              ∙ ap (λ l. l ++ live_starters env served) one
              ∙ append_assoc s.started (live_starters env (task ∷ [])) (live_starters env served)
              ∙ ap (λ l. s.started ++ l) (sym (live_starters-cons env task served)),
        )
  ]
]

-- `remove` serves the queue from the front, in order: of the tasks that leave it, each is started
-- once if its cache still exists and dropped if not, and the others stay in their order.
pub remove-started :
    (env : Env) (fd : ℤ) (s t : ReadLoop)
    → handle env (do_remove fd) s ≡ some t
    → (served : List QueueData) × (s.queue ≡ served ++ t.queue)
      × (t.started ≡ s.started ++ live_starters env served)
unfolding handle
remove-started env fd s t h =
    let (served, split, order) = pump-started env s.queue (erase_entry fd s) t h in
    (served, split, order ∙ ap (λ l. l ++ live_starters env served) same)
  where
    same : (erase_entry fd s).started ≡ s.started
    same = unfold erase_entry in ground arith

destroy_all-frame :
    (entries : Dict ℤ CacheData) (s : ReadLoop)
    → ((destroy_all entries s).queue ≡ s.queue)
      × ((destroy_all entries s).process_limit ≡ s.process_limit)
      × ((destroy_all entries s).started ≡ s.started)
unfolding destroy_all destroy
destroy_all-frame [] s = (refl, refl, refl)
destroy_all-frame ((_, entry) ∷ rest) s = destroy_all-frame rest (destroy entry s)

-- Where a place is free, the first task that waits and whose cache still exists is started.
pump_first :
    (env : Env) (queue : List QueueData) (starter : ℕ) (more : List ℕ) (s t : ReadLoop)
    → length s.caches < s.process_limit
    → live_starters env queue ≡ starter ∷ more
    → pump env queue s ≡ some t
    → (others : List ℕ) × (t.started ≡ s.started ++ (starter ∷ others))
unfolding pump live_starters
pump_first env [] starter more s t room lives h = absurd (ground arith)
pump_first env (task ∷ rest) starter more s t room lives h =
    elim (Bool-cases (env.alive task.cache)) [
      | inr dead ↦
          pump_first env rest starter more (record s { queue = rest }) t room (ground arith)
            (unfold do_add in ground arith)
      | inl alive ↦ elim (Option-cases (do_add env task (record s { queue = rest }))) [
        | inl bad ↦ absurd (ground arith)
        | inr (u, good) ↦
            let (served, split, order) = pump-started env rest u t (ground arith) in
            let (_, one) = do_add-started env task (record s { queue = rest }) u good in
            let only : live_starters env (task ∷ []) ≡ starter ∷ [] = ground arith in
            (
              live_starters env served,
              order
                  ∙ ap (λ l. l ++ live_starters env served) (one ∙ ap (λ l. s.started ++ l) only)
                  ∙ append_assoc s.started (starter ∷ []) (live_starters env served),
            )
      ]
    ]

-- The stream of every command is closed by `cancel`.
cancel-closes :
    (env : Env) (fd : ℤ) (entry : CacheData) (s t : ReadLoop)
    → lookup fd s.caches ≡ some entry
    → handle env do_cancel s ≡ some t
    → t.handles entry.stream ≡ closed
unfolding handle
cancel-closes env fd entry s t e h = elim ((destroy_all-handles s.caches s entry.stream).1) [
  | inl shut ↦ ground arith
  | inr (same, others) ↦ absurd (others fd entry e refl)
]

-- `cancel` ends the commands and leaves the queue, and a command that it has interrupted makes place
-- for a waiting task nevertheless: after `cancel` no command runs and the same tasks wait; the read
-- of an interrupted command, however it completes, posts a `remove` of the closed handle and does
-- nothing else; and when that runs, with a process limit and before anything else is started, it
-- starts the first waiting task whose cache still exists.
pub cancel_restarts :
    (env env' env'' : Env) (fd : ℤ) (entry : CacheData) (failed : Bool) (bytes : Bytes)
    (posted : List Handler) (starter : ℕ) (more : List ℕ) (s t u v : ReadLoop)
    → lookup fd s.caches ≡ some entry
    → 0 < s.process_limit
    → live_starters env'' s.queue ≡ starter ∷ more
    → handle env do_cancel s ≡ some t
    → handle env' (read_finished entry.stream entry.cache failed bytes) t ≡ some u
    → handle env'' (do_remove closed) (record u { posted = posted }) ≡ some v
    → (t.caches ≡ [])
      × (t.queue ≡ s.queue)
      × (u ≡ remove t closed)
      × ((others : List ℕ) × (v.started ≡ s.started ++ (starter ∷ others)))
unfolding handle erase_entry lookup remove
cancel_restarts env env' env'' fd entry failed bytes posted starter more s t u v runs limited lives
      h h' h'' =
    let (queue, limit, started) = destroy_all-frame s.caches s in
    let shut = cancel-closes env fd entry s t runs h in
    let none_left : t.caches ≡ [] = ground arith in
    let same : t.queue ≡ s.queue = ground arith in
    let removing : u ≡ remove t closed = ground arith in
    let first = record t { posted = posted } in
    let pumped : pump env'' s.queue first ≡ some v = ground arith in
    let (others, order) =
      pump_first env'' s.queue starter more first v (ground arith) lives pumped in
    (none_left, same, removing, (others, ground arith))
