-- ===== src/SignalHandler/Tests.antt =====
-- SignalHandler.cpp: a signal set, runs with it, and the theorem at a concrete input.
use pipefs.Common.{
  ℕ, zero, suc, ◌+◌, ◌≡◌, refl, Bool, true, false, Option, none, some, List, [], ◌∷◌, ◌++◌, arith,
  if◌then◌else◌,
}
use pipefs.SignalHandler.{SignalSet, Laws, Signals, reap, wait, start, cancel, handle}
use pipefs.SignalHandler.Reaping.{Reach, started, next, forks, exits, stops, delivers, handle-reaps}

-- Signals without a handler, whether a wait is outstanding, and the completed waits.
record Set : Type 0 where
  queued : ℕ
  waiting : Bool
  ready : List Bool

abbrev completes : Bool → Set → Set
completes failed set = record set { waiting = false; ready = set.ready ++ (failed ∷ []) }

abbrev async_wait : Set → Set
async_wait set = elim set.queued [
  | zero ↦ record set { waiting = true }
  | suc n ↦ record set { queued = n; ready = set.ready ++ (false ∷ []) }
]

abbrev catch : Set → Set
catch set = if set.waiting then completes false set else record set { queued = suc set.queued }

abbrev cancels : Set → Set
cancels set = if set.waiting then completes true set else set

abbrev take_first : Set → Option (Bool × Set)
take_first set = elim set.ready [
  | [] ↦ none
  | failed ∷ rest ↦ some (failed, record set { ready = rest })
]

successes : List Bool → ℕ
successes [] = 0
successes (failed ∷ rest) = (if failed then 0 else 1) + successes rest

abbrev set_owed : Set → ℕ
set_owed set = set.queued + successes set.ready

abbrev signals : SignalSet Set
signals = record {
  async_wait = async_wait;
  cancel = cancels;
  catch = catch;
  next_completion = take_first;
  owed = set_owed;
}

successes-append :
    (ready : List Bool) (failed : Bool)
    → successes (ready ++ (failed ∷ [])) ≡ successes ready + (if failed then 0 else 1)
unfolding successes
successes-append [] failed = ground arith
successes-append (first ∷ ready) failed = ground (arith, successes-append ready failed)

laws : Laws signals
unfolding successes
laws = record {
  async_wait-owed = λ set. ground (arith, successes-append set.ready false);
  cancel-owed = λ set. ground (arith, successes-append set.ready true);
  catch-owed = λ set. ground (arith, successes-append set.ready false);
  signalled = λ set rest e. ground arith;
  cancelled = λ set rest e. ground arith;
}

abbrev new_set : Set
new_set = record { queued = 0; waiting = false; ready = [] }

-- Two children have been started, one has ended, and its signal has been caught.
abbrev one_ended : Signals Set
one_ended = record {
  signal_set = record { queued = 0; waiting = false; ready = false ∷ [] };
  children = 1;
  zombies = 1;
  pending = false;
}

one_ended-Reach : Reach signals new_set 0 one_ended
unfolding start wait
one_ended-Reach = next (next (next (next (started 0 0) forks) forks) (exits 1 refl)) (delivers refl)

new_set-owed : signals.owed new_set ≡ 0
unfolding successes
new_set-owed = refl

abbrev taken : Set
taken = record { queued = 0; waiting = false; ready = [] }

-- The signal of a child that has been stopped starts the handler, and its `wait` blocks.
abbrev one_stopped : Signals Set
one_stopped = record one_ended { zombies = 0 }

one_stopped-Reach : Reach signals new_set 1 one_stopped
unfolding start wait
one_stopped-Reach = next (next (next (started 0 0) forks) (stops 0 refl)) (delivers refl)

stopped_blocks : handle signals false (record one_stopped { signal_set = taken }) ≡ none
unfolding handle reap
stopped_blocks = refl

handle-reaps_example :
    (n : ℕ) × (one_ended.zombies ≡ suc n)
    × (handle signals false (record one_ended { signal_set = taken })
        ≡ some (record one_ended { signal_set = signals.async_wait taken; zombies = n }))
handle-reaps_example =
    handle-reaps signals laws new_set new_set-owed one_ended taken one_ended-Reach refl

-- A cancellation that comes between the completion of a wait and the run of its handler is lost: the
-- handler waits again.
cancel_lost :
    handle signals false (cancel signals (record one_ended { signal_set = taken }))
    ≡ some (record one_ended {
      signal_set = record { queued = 0; waiting = true; ready = [] };
      zombies = 0;
    })
unfolding handle cancel reap wait
cancel_lost = refl
