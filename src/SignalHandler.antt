-- ===== src/SignalHandler.antt =====
-- src/controller/SignalHandler.cpp: the children that have ended, the signals about them, and the
-- handler that waits for the children. The `signal_set` of Boost is a parameter.
pub mod Reaping
pub mod Tests
use pipefs.Common.{ℕ, zero, suc, ◌≤◌, ◌≡◌, Bool, true, false, Option, none, some}

-- A `signal_set` of SIGCHLD: its state, `async_wait`, `cancel`, a signal that is caught, and the
-- completed wait whose handler runs next, with whether it has an error code. `owed` counts the
-- signals that have been caught and not been passed to a handler.
pub record SignalSet {ℓ} (S : Type ℓ) : Type ℓ where
  pub async_wait : S → S
  pub cancel : S → S
  pub catch : S → S
  pub next_completion : S → Option (Bool × S)
  pub owed : S → ℕ

-- What the handler relies on: every signal is passed to at most one handler, and a wait that is
-- cancelled completes with an error.
pub record Laws {ℓ} {S : Type ℓ} (signals : SignalSet S) : Type ℓ where
  pub async_wait-owed : (set : S) → signals.owed (signals.async_wait set) ≤ signals.owed set
  pub cancel-owed : (set : S) → signals.owed (signals.cancel set) ≤ signals.owed set
  pub catch-owed : (set : S) → signals.owed (signals.catch set) ≤ suc (signals.owed set)
  pub signalled :
      (set rest : S)
      → signals.next_completion set ≡ some (false, rest)
      → suc (signals.owed rest) ≤ signals.owed set
  pub cancelled :
      (set rest : S)
      → signals.next_completion set ≡ some (true, rest)
      → signals.owed rest ≤ signals.owed set

-- The signal set of the handler, and what the system keeps for the process: the children that run,
-- those that have ended and that nothing has waited for, and whether SIGCHLD is pending.
pub record Signals {ℓ} (S : Type ℓ) : Type ℓ where
  pub signal_set : S
  pub children : ℕ
  pub zombies : ℕ
  pub pending : Bool

module _ {ℓ} {S : Type ℓ} (signals : SignalSet S) where
  -- `::wait(nullptr)`. `none`: children run and none has ended, so it blocks. Without children it
  -- fails, which is only logged.
  unfoldable pub reap : Signals S → Option (Signals S)
  reap s = elim s.zombies [
    | suc zombies ↦ some (record s { zombies = zombies })
    | zero ↦ elim s.children [ zero ↦ some s | suc _ ↦ none ]
  ]

  unfoldable pub wait : Signals S → Signals S
  wait s = record s { signal_set = signals.async_wait s.signal_set }

  unfoldable pub start : Signals S → Signals S
  unfolding wait
  start s = wait s

  unfoldable pub cancel : Signals S → Signals S
  cancel s = record s { signal_set = signals.cancel s.signal_set }

  abbrev waits_again : Option (Signals S) → Option (Signals S)
  waits_again none = none
  waits_again (some s) = some (wait s)

  -- The handler of `async_wait`; `failed` is whether there is an error code.
  unfoldable pub handle : Bool → Signals S → Option (Signals S)
  unfolding reap wait
  handle false s = waits_again (reap s)
  handle true s = some s
