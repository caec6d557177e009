-- ===== src/SignalHandler/Reaping.antt =====
-- SignalHandler.cpp under a schedule of the system: children are started and end, signals arrive, the
-- handler is cancelled, and the thread of the io_service runs completed waits.
use pipefs.Common.{ℕ, zero, suc, ◌+◌, ◌≤◌, ◌≡◌, ◌⊎◌, refl, Bool, true, false, some, inl, inr, arith}
use pipefs.SignalHandler.{SignalSet, Laws, Signals, reap, wait, start, cancel, handle}

-- A child that ends makes SIGCHLD pending, which it may be already. So does one that is stopped or
-- continued, since nothing asks for SA_NOCLDSTOP; but there is nothing to wait for then.
pub data Step {ℓ} {S : Type ℓ} (signals : SignalSet S) (s : Signals S) : Signals S → Type ℓ where
  forks : Step signals s (record s { children = suc s.children })
  exits :
      (n : ℕ)
      → s.children ≡ suc n
      → Step signals s (record s { children = n; zombies = suc s.zombies; pending = true })
  stops : (n : ℕ) → s.children ≡ suc n → Step signals s (record s { pending = true })
  delivers :
      s.pending ≡ true
      → Step signals s (record s { signal_set = signals.catch s.signal_set; pending = false })
  calls_cancel : Step signals s (cancel signals s)
  runs :
      (failed : Bool) (rest : S) {t : Signals S}
      → signals.next_completion s.signal_set ≡ some (failed, rest)
      → handle signals failed (record s { signal_set = rest }) ≡ some t
      → Step signals s t

abbrev is_stop {ℓ} : {S : Type ℓ} {signals : SignalSet S} {s t : Signals S} → Step signals s t → ℕ
is_stop (stops _ _) = 1
is_stop _ = 0

-- From a new signal set, after `start`, with any children; the number is how many times a child has
-- been stopped or continued.
pub data Reach {ℓ} {S : Type ℓ} (signals : SignalSet S) (set : S) : ℕ → Signals S → Type ℓ where
  started :
      (children zombies : ℕ)
      → Reach signals set 0 (
          start signals
            (record { signal_set = set; children = children; zombies = zombies; pending = false }))
  next :
      {n : ℕ} {s t : Signals S}
      → Reach signals set n s
      → (step : Step signals s t) → Reach signals set (is_stop step + n) t

abbrev count : Bool → ℕ
count true = 1
count false = 0

zero_or_suc : (n : ℕ) → (n ≡ 0) ⊎ ((m : ℕ) × (n ≡ suc m))
zero_or_suc zero = inl refl
zero_or_suc (suc m) = inr (m, refl)

module _ {ℓ} {S : Type ℓ} (signals : SignalSet S) (laws : Laws signals) where
  -- Every signal that is pending or caught stands for a child of its own that has ended, or for one of
  -- `n` stops.
  abbrev IsCovered : ℕ → Signals S → Type 0
  IsCovered n s = signals.owed s.signal_set + count s.pending ≤ s.zombies + n

  -- A handler that a signal has started waits for a child that has ended, or uses up a stop.
  handle-IsCovered :
      (failed : Bool) (n : ℕ) (set : S) (s t : Signals S)
      → IsCovered n s
      → signals.next_completion s.signal_set ≡ some (failed, set)
      → handle signals failed (record s { signal_set = set }) ≡ some t
      → IsCovered n t
  unfolding handle reap wait
  handle-IsCovered false n set s t covered completed ran =
      ground (arith, laws.signalled s.signal_set set completed, laws.async_wait-owed set)
  handle-IsCovered true n set s t covered completed ran =
      ground (arith, laws.cancelled s.signal_set set completed)

  Step-IsCovered :
      (n : ℕ) (s t : Signals S)
      → IsCovered n s
      → (step : Step signals s t) → IsCovered (is_stop step + n) t
  unfolding cancel
  Step-IsCovered n s _ covered forks = omega (arith, covered)
  Step-IsCovered n s _ covered (exits k some_runs) = ground arith
  Step-IsCovered n s _ covered (stops k some_runs) = ground arith
  Step-IsCovered n s _ covered (delivers pending) = ground (arith, laws.catch-owed s.signal_set)
  Step-IsCovered n s _ covered calls_cancel = ground (arith, laws.cancel-owed s.signal_set)
  Step-IsCovered n s t covered (runs failed rest completed ran) =
      omega (arith, handle-IsCovered failed n rest s t covered completed ran)

  Reach-IsCovered :
      (set : S)
      → signals.owed set ≡ 0
      → (n : ℕ) (s : Signals S) → Reach signals set n s
      → IsCovered n s
  unfolding start wait
  Reach-IsCovered set fresh _ _ (started children zombies) =
      ground (arith, laws.async_wait-owed set, fresh)
  Reach-IsCovered set fresh _ t (next {n} {s} reached step) =
      Step-IsCovered n s t (Reach-IsCovered set fresh n s reached) step

  -- The `wait` of a handler that a signal has started always finds a child that has ended: it neither
  -- blocks the thread of the io_service, whatever children still run, nor fails, and it waits for one
  -- child. The conditions: no child has been stopped or continued, nothing but the handler waits for
  -- children, and the signal set has no signals at the start and passes each signal that it catches
  -- to at most one handler.
  pub handle-reaps :
      (set : S)
      → signals.owed set ≡ 0
      → (s : Signals S) (rest : S) → Reach signals set 0 s
      → signals.next_completion s.signal_set ≡ some (false, rest)
      → (n : ℕ) × (s.zombies ≡ suc n)
        × (handle signals false (record s { signal_set = rest })
            ≡ some (record s { signal_set = signals.async_wait rest; zombies = n }))
  unfolding handle reap wait
  handle-reaps set fresh s rest reached completed =
      let covered = Reach-IsCovered set fresh 0 s reached in
      let owed = laws.signalled s.signal_set rest completed in
      elim (zero_or_suc s.zombies) [
        | inl empty ↦ absurd (ground (arith, owed))
        | inr (n, more) ↦ (n, more, rw more refl)
      ]
