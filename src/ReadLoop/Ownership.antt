-- ===== src/ReadLoop/Ownership.antt =====
-- BasicReadLoop.hpp: who owns an open stream, its buffer and its process.
use mathlib.Core.Option.{some-injective}
use pipefs.Common.{
  ◌<◌, ℕ, ◌≡◌, refl, sym, subst, ◌⊎◌, inl, inr, ◌≢◌, true, ◌||◌, Bool-cases, some, Option-cases,
  List, [], ◌∷◌, ◌++◌, arith, ltb, ◌==◌, length,
}
use pipefs.Common.Dict.{Dict, lookup, NodupKeys}
use pipefs.Common.Int.{ℤ, int_eq}
use pipefs.Cache.{Cache}
use pipefs.ReadLoop.{
  emplace, open_stream, start_reading, ReadLoop, CacheData, QueueData, Handler, do_add_or_queue,
  do_remove, do_cancel, read_finished, Env, closed, is_open, destroy, do_add, pump, erase_entry,
  destroy_all, handle, add, remove, cancel,
}
use pipefs.ReadLoop.Step.{
  Opens, Step, calls_add, calls_remove, calls_cancel, completes, runs, Reach, start, next,
}
use pipefs.ReadLoop.Owner.{erase_entry-IsOwned, IsOwned, added-IsOwned}

do_add-IsOwned :
    (env : Env) (task : QueueData) (s t : ReadLoop)
    → Opens env
    → IsOwned s
    → do_add env task s ≡ some t
    → IsOwned t
unfolding do_add
do_add-IsOwned env task s t opens v h = elim (Bool-cases (env.alive task.cache)) [
  | inr dead ↦ subst IsOwned (ground arith) v
  | inl lives ↦ elim (Option-cases (env.descriptor task.read_starter)) [
    | inl bad ↦ absurd (ground arith)
    | inr (fd, good) ↦
        subst IsOwned (ground arith)
          (added-IsOwned s v task.read_starter task.cache fd (opens task.read_starter fd good))
  ]
]

-- `IsOwned` does not speak of the queue and of what is posted and read.
IsOwned-frame :
    (s t : ReadLoop)
    → t.caches ≡ s.caches
    → t.handles ≡ s.handles
    → t.next_stream ≡ s.next_stream
    → IsOwned s
    → IsOwned t
IsOwned-frame s t c h n v = record {
  unique = subst (λ (d : Dict ℤ CacheData). NodupKeys d) (sym c) v.unique;
  fresh = λ k le. ground (arith, v.fresh k);
  owns = λ k d found. ground (arith, v.owns k d);
  owned = λ k o. let (d, found, mine) = v.owned k (ground arith) in (d, ground arith, mine);
}

pub pump-IsOwned :
    (env : Env) (queue : List QueueData) (s t : ReadLoop)
    → Opens env
    → IsOwned s
    → pump env queue s ≡ some t
    → IsOwned t
unfolding pump
pump-IsOwned env [] s t opens v h =
    subst IsOwned (ground arith) (IsOwned-frame s (record s { queue = [] }) refl refl refl v)
pump-IsOwned env (task ∷ rest) s t opens v h =
    elim (Bool-cases (ltb (length s.caches) s.process_limit)) [
      | inr full ↦
          subst IsOwned (ground arith)
            (IsOwned-frame s (record s { queue = task ∷ rest }) refl refl refl v)
      | inl room ↦ elim (Option-cases (do_add env task (record s { queue = rest }))) [
        | inl bad ↦ absurd (ground arith)
        | inr (u, good) ↦
            pump-IsOwned env rest u t opens
              (do_add-IsOwned env task (record s { queue = rest }) u opens
                (IsOwned-frame s (record s { queue = rest }) refl refl refl v) good)
              (ground arith)
      ]
    ]

pub destroy_all-handles :
    (entries : Dict ℤ CacheData) (s : ReadLoop) (n : ℕ)
    → ((destroy_all entries s).next_stream ≡ s.next_stream)
      × (((destroy_all entries s).handles n ≡ closed)
          ⊎ (((destroy_all entries s).handles n ≡ s.handles n)
              × ((fd : ℤ) (d : CacheData) → lookup fd entries ≡ some d → d.stream ≢ n)))
unfolding destroy_all destroy lookup
destroy_all-handles [] s n = (refl, inr (refl, λ fd d e. cc))
destroy_all-handles ((fd, entry) ∷ rest) s n =
    let (next', handled) = destroy_all-handles rest (destroy entry s) n in
    (
      next',
      elim handled [
        | inl shut ↦ inl shut
        | inr (same, others) ↦ elim (Bool-cases (entry.stream == n)) [
          | inl mine ↦ inl (ground arith)
          | inr other ↦ inr (ground arith, λ k d e q. ground (arith, others k d))
        ]
      ],
    )

-- A stream that has been made and is closed stays closed when tasks are started.
do_add-closed :
    (env : Env) (task : QueueData) (s t : ReadLoop) (n : ℕ)
    → do_add env task s ≡ some t
    → n < s.next_stream
    → s.handles n ≡ closed
    → (n < t.next_stream) × (t.handles n ≡ closed)
unfolding do_add emplace open_stream start_reading destroy
do_add-closed env task s t n h made shut = ground arith

pub pump-closed :
    (env : Env) (queue : List QueueData) (s t : ReadLoop) (n : ℕ)
    → pump env queue s ≡ some t
    → n < s.next_stream
    → s.handles n ≡ closed
    → t.handles n ≡ closed
unfolding pump
pump-closed env [] s t n h made shut = ground arith
pump-closed env (task ∷ rest) s t n h made shut =
    elim (Bool-cases (ltb (length s.caches) s.process_limit)) [
      | inr full ↦ ground arith
      | inl room ↦ elim (Option-cases (do_add env task (record s { queue = rest }))) [
        | inl bad ↦ absurd (ground arith)
        | inr (u, good) ↦
            let (made', shut') =
              do_add-closed env task (record s { queue = rest }) u n good made shut in
            pump-closed env rest u t n (ground arith) made' shut'
      ]
    ]

cancel-IsOwned :
    (env : Env) (s t : ReadLoop) → IsOwned s → handle env do_cancel s ≡ some t → IsOwned t
unfolding handle
cancel-IsOwned env s t v h = subst IsOwned (some-injective _ t h) (record {
  unique = tt;
  fresh = λ n le. ground (arith, destroy_all-handles s.caches s n, v.fresh n);
  owns = λ fd d e. absurd (unfold lookup in cc);
  owned = λ n o. absurd (still_open n o);
})
  where
    still_open : (n : ℕ) → is_open (destroy_all s.caches s) n ≡ true → ⊥
    still_open n o = elim ((destroy_all-handles s.caches s n).1) [
      | inl shut ↦ ground arith
      | inr (same, others) ↦
          let (d, found, mine) = v.owned n (ground arith) in others (s.handles n) d found mine
    ]

handle-IsOwned :
    (env : Env) (h : Handler) (s t : ReadLoop)
    → Opens env
    → IsOwned s
    → handle env h s ≡ some t
    → IsOwned t
unfolding handle
handle-IsOwned env (do_add_or_queue task) s t opens v e =
    elim (Bool-cases (s.process_limit == 0 || ltb (length s.caches) s.process_limit)) [
      | inl room ↦ do_add-IsOwned env task s t opens v (ground arith)
      | inr full ↦
          subst IsOwned (ground arith)
            (IsOwned-frame s (record s { queue = s.queue ++ (task ∷ []) }) refl refl refl v)
    ]
handle-IsOwned env (do_remove fd) s t opens v e =
    pump-IsOwned env s.queue (erase_entry fd s) t opens (erase_entry-IsOwned s v fd) e
handle-IsOwned env do_cancel s t opens v e = cancel-IsOwned env s t v e
handle-IsOwned env (read_finished stream cache failed bytes) s t opens v e =
    IsOwned-frame s t (ground arith) (ground arith) (ground arith) v

Step-IsOwned : {s t : ReadLoop} → Step s t → IsOwned s → IsOwned t
unfolding add remove cancel
Step-IsOwned {s} (calls_add task) v = IsOwned-frame s _ refl refl refl v
Step-IsOwned {s} (calls_remove fd) v = IsOwned-frame s _ refl refl refl v
Step-IsOwned {s} calls_cancel v = IsOwned-frame s _ refl refl refl v
Step-IsOwned {s} (completes before after stream cache failed bytes e) v =
    IsOwned-frame s _ refl refl refl v
Step-IsOwned {s} {t} (runs env h rest opens e done) v =
    handle-IsOwned env h (record s { posted = rest }) t opens
      (IsOwned-frame s (record s { posted = rest }) refl refl refl v) done

-- In every state that a schedule reaches, the entries of the map and the open streams belong to one
-- another, one to one: an entry's stream is open under the entry's key, and every open stream has
-- such an entry, provided that each stream that `readStarter` returns is open.
pub Reach-IsOwned : {limit : ℕ} {heap : ℕ → Cache} {s : ReadLoop} → Reach limit heap s → IsOwned s
unfolding lookup
Reach-IsOwned start = record {
  unique = tt;
  fresh = λ n le. refl;
  owns = λ fd d e. cc;
  owned = λ n o. cc;
}
Reach-IsOwned (next r st) = Step-IsOwned st (Reach-IsOwned r)
