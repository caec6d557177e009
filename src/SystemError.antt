-- ===== src/SystemError.antt =====
-- src/controller/SystemError.hpp: the results of calls that may throw.
use pipefs.Common.{ℕ, if◌then◌else◌}
use pipefs.Common.Int.{ℤ, is_negative}

-- A call returns, throws the `system_error` of an `errno`, or breaks off: an assertion fails or
-- freed memory is used.
pub data Result {ℓ} (A : Type ℓ) : Type ℓ where
  ok : A → Result A
  throws : ℕ → Result A
  aborts : Result A

-- `result` is what the system call returns, and `errno` its error if that is negative.
unfoldable pub checked_system_call : ℤ → ℕ → Result ℤ
checked_system_call result errno = if is_negative result then throws errno else ok result
