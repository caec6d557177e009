-- ===== src/ReadLoop/Watch.antt =====
-- BasicReadLoop.hpp: every command that runs has an event to come, so that it is not forgotten.
use pipefs.Common.{
  ℕ, ◌≡◌, refl, ap, inl, inr, Bool, true, false, ◌||◌, Bool-cases, some, Option-cases, List, [],
  ◌∷◌, ◌++◌, arith, ltb, ◌==◌, ==_iff, length,
}
use pipefs.Common.Dict.{lookup, lookup-insert, lookup-erase}
use pipefs.Common.Int.{ℤ, int_eq, int_beq, int_beq_iff}
use pipefs.Cache.{Cache}
use pipefs.ReadLoop.{
  ReadLoop, CacheData, QueueData, Handler, do_add_or_queue, do_remove, do_cancel, read_finished,
  Env, destroy, start_reading, emplace, open_stream, do_add, pump, erase_entry, handle, add, remove,
  cancel,
}
use pipefs.ReadLoop.Step.{
  Step, calls_add, calls_remove, calls_cancel, completes, runs, Reach, start, next,
}
use pipefs.ReadLoop.Owner.{IsOwned}
use pipefs.ReadLoop.Ownership.{Reach-IsOwned}

-- Whether a read on the stream is under way.
unfoldable pub is_read : ℕ → List (ℕ × ℕ) → Bool
is_read stream [] = false
is_read stream ((stream', _) ∷ reading) = stream' == stream || is_read stream reading

-- Whether a completed read of the stream or the removal of its handle is posted.
abbrev concerns : ℤ → ℕ → Handler → Bool
concerns fd stream (do_add_or_queue _) = false
concerns fd stream (do_remove fd') = int_beq fd' fd
concerns fd stream do_cancel = false
concerns fd stream (read_finished stream' _ _ _) = stream' == stream

unfoldable pub is_posted : ℤ → ℕ → List Handler → Bool
is_posted fd stream [] = false
is_posted fd stream (h ∷ posted) = concerns fd stream h || is_posted fd stream posted

is_read-append :
    (stream : ℕ) (reading reading' : List (ℕ × ℕ))
    → is_read stream (reading ++ reading') ≡ (is_read stream reading || is_read stream reading')
unfolding is_read
is_read-append stream [] reading' = refl
is_read-append stream (_ ∷ reading) reading' =
    ground (arith, is_read-append stream reading reading')

is_posted-append :
    (fd : ℤ) (stream : ℕ) (posted posted' : List Handler)
    → is_posted fd stream (posted ++ posted')
      ≡ (is_posted fd stream posted || is_posted fd stream posted')
unfolding is_posted
is_posted-append fd stream [] posted' = refl
is_posted-append fd stream (h ∷ posted) posted' =
    ground (arith, is_posted-append fd stream posted posted')

-- An entry of the map has a read under way, a completed read, or its removal to come.
abbrev pub IsWatched : ReadLoop → Type 0
IsWatched s =
    (fd : ℤ) (entry : CacheData)
    → lookup fd s.caches ≡ some entry
    → (is_read entry.stream s.reading || is_posted fd entry.stream s.posted) ≡ true

do_add-IsWatched :
    (env : Env) (task : QueueData) (s t : ReadLoop)
    → IsWatched s
    → do_add env task s ≡ some t
    → IsWatched t
unfolding do_add emplace open_stream start_reading destroy is_read
do_add-IsWatched env task s t v h fd entry found =
    elim (Option-cases (env.descriptor task.read_starter)) [
      | inl bad ↦ ground (arith, v fd entry)
      | inr (fd', good) ↦
          let new : CacheData = record { cache = task.cache; stream = s.next_stream } in
          ground (
            arith,
            v fd entry,
            lookup-insert fd fd' new s.caches,
            is_read-append entry.stream s.reading ((s.next_stream, task.cache) ∷ []),
          )
    ]

pump-IsWatched :
    (env : Env) (queue : List QueueData) (s t : ReadLoop)
    → IsWatched s
    → pump env queue s ≡ some t
    → IsWatched t
unfolding pump
pump-IsWatched env [] s t v h fd entry found = ground (arith, v fd entry)
pump-IsWatched env (task ∷ rest) s t v h fd entry found =
    elim (Bool-cases (ltb (length s.caches) s.process_limit)) [
      | inr full ↦ ground (arith, v fd entry)
      | inl room ↦ elim (Option-cases (do_add env task (record s { queue = rest }))) [
        | inl bad ↦ absurd (ground arith)
        | inr (u, good) ↦
            pump-IsWatched env rest u t
              (do_add-IsWatched env task (record s { queue = rest }) u v good) (ground arith) fd
              entry found
      ]
    ]

-- The removal of a handle has been taken from what is posted.
erase_entry-IsWatched :
    (fd : ℤ) (rest : List Handler) (s : ReadLoop)
    → IsOwned s
    → s.posted ≡ do_remove fd ∷ rest
    → IsWatched s
    → IsWatched (erase_entry fd (record s { posted = rest }))
unfolding erase_entry destroy is_posted
erase_entry-IsWatched fd rest s owned p v fd' entry found =
    ground (arith, v fd' entry, lookup-erase fd' fd s.caches owned.unique, int_beq_iff fd fd')

handle-IsWatched :
    (env : Env) (h : Handler) (rest : List Handler) (s t : ReadLoop)
    → IsOwned s
    → s.posted ≡ h ∷ rest
    → handle env h (record s { posted = rest }) ≡ some t
    → IsWatched s
    → IsWatched t
unfolding handle is_posted is_read start_reading remove
handle-IsWatched env (do_add_or_queue task) rest s t owned p e v =
    let s' = record s { posted = rest } in
    let v' : IsWatched s' = λ fd entry found. ground (arith, v fd entry found) in
    elim (Bool-cases (s.process_limit == 0 || ltb (length s.caches) s.process_limit)) [
      | inl room ↦ do_add-IsWatched env task s' t v' (ground arith)
      | inr full ↦ λ fd entry found. ground (arith, v' fd entry)
    ]
handle-IsWatched env (do_remove fd) rest s t owned p e v =
    pump-IsWatched env s.queue (erase_entry fd (record s { posted = rest })) t
      (erase_entry-IsWatched fd rest s owned p v) (ground arith)
handle-IsWatched env do_cancel rest s t owned p e v =
    λ fd entry found. absurd (unfold lookup in ground arith)
handle-IsWatched env (read_finished stream cache failed bytes) rest s t owned p e v =
    λ fd entry found. ground (
      arith,
      v fd entry,
      owned.owns fd entry,
      int_beq_iff (s.handles stream) fd,
      ==_iff stream entry.stream,
      is_read-append entry.stream s.reading ((stream, cache) ∷ []),
      is_posted-append fd entry.stream rest (do_remove (s.handles stream) ∷ []),
    )

Step-IsWatched : {s t : ReadLoop} → Step s t → IsOwned s → IsWatched s → IsWatched t
unfolding add remove cancel is_posted is_read
Step-IsWatched {s} (calls_add task) owned v fd entry found =
    ground
      (arith, v fd entry, is_posted-append fd entry.stream s.posted (do_add_or_queue task ∷ []))
Step-IsWatched {s} (calls_remove fd') owned v fd entry found =
    ground (arith, v fd entry, is_posted-append fd entry.stream s.posted (do_remove fd' ∷ []))
Step-IsWatched {s} calls_cancel owned v fd entry found =
    ground (arith, v fd entry, is_posted-append fd entry.stream s.posted (do_cancel ∷ []))
Step-IsWatched {s} (completes before after stream cache failed bytes e) owned v fd entry found =
    ground (
      arith,
      v fd entry,
      ap (is_read entry.stream) e,
      is_read-append entry.stream before ((stream, cache) ∷ after),
      is_read-append entry.stream before after,
      is_posted-append fd entry.stream s.posted (read_finished stream cache failed bytes ∷ []),
    )
Step-IsWatched {s} {t} (runs env h rest opens e done) owned v fd entry found =
    handle-IsWatched env h rest s t owned e done v fd entry found

-- No command is forgotten: in every state that a schedule reaches, each command that runs has a read
-- under way, a completed read whose handler is to run, or its own removal posted.
pub Reach-IsWatched :
    {limit : ℕ} {heap : ℕ → Cache} {s : ReadLoop} → Reach limit heap s → IsWatched s
unfolding lookup
Reach-IsWatched start fd entry found = absurd (ground arith)
Reach-IsWatched (next r st) fd entry found =
    Step-IsWatched st (Reach-IsOwned r) (Reach-IsWatched r) fd entry found
