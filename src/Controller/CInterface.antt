-- ===== src/Controller/CInterface.antt =====
-- src/controller/pipefs_controller.cpp: the controller as C functions; a system error is the
-- negative result. Casts of pointers have no counterpart here.
use pipefs.Common.{ℕ, Bool, Option, none, some, [], Bytes}
use pipefs.Common.Int.{ℤ, pos, neg}
use pipefs.SystemError.{Result, ok, throws, aborts}
use pipefs.Cache.{ReadResult, returns}
use pipefs.Caches.{CacheData}
use pipefs.Caches.Sorting.{Sorter}
use pipefs.Controller.{Controller, FileInfo, World, open_file, preload}
use pipefs.Controller.Access.{read, release}
use pipefs.Controller.Stat.{
  StatInfo, correct_stat_info, correct_stat_info_data, wait_until_finished,
  wait_until_finished_data,
}

-- `TRY_SYSTEM_ERROR`, of an expression after which 0 is returned: the value, if there is one, and
-- the result.
unfoldable pub try_system_error {ℓ} : {A : Type ℓ} → Result A → Result (Option A × ℤ)
try_system_error (ok a) = ok (some a, pos 0)
try_system_error (throws errno) = ok (none, neg errno)
try_system_error aborts = aborts

unfoldable pub pipefs_controller_open :
    World → Controller → Bytes → FileInfo → Controller × Result (Option (ℕ × FileInfo) × ℤ)
unfolding try_system_error open_file
pipefs_controller_open w c filename fi =
    let (c', result) = open_file w c filename fi in (c', try_system_error result)

-- Without `TRY_SYSTEM_ERROR`: an exception goes on to the caller.
unfoldable pub pipefs_controller_preload :
    World → Controller → Bytes → Controller × Result (Unit {0})
unfolding preload
pipefs_controller_preload w c filename = preload w c filename

-- A read returns its number or the negative error.
unfoldable pub pipefs_controller_read :
    World → Controller → ℕ → ℕ → ℕ → Controller × Result ReadResult
unfolding read
pipefs_controller_read w c data_ size offset =
    let (c', result) = read w c data_ size offset in
    (c', elim result [ ok r ↦ ok r | throws errno ↦ ok (returns (neg errno) []) | aborts ↦ aborts ])

unfoldable pub pipefs_controller_release :
    Sorter Bytes CacheData (λ d. d.last_accessed)
    → World
    → Controller
    → Bytes
    → ℕ
    → Controller × Result (Option (Unit {0}) × ℤ)
unfolding try_system_error release
pipefs_controller_release sorter w c filename data_ =
    let (c', result) = release sorter w c filename data_ in (c', try_system_error result)

unfoldable pub pipefs_controller_correct_stat_info_file :
    Controller → Bytes → StatInfo → Result (Option StatInfo × ℤ)
unfolding try_system_error correct_stat_info
pipefs_controller_correct_stat_info_file c filename info =
    try_system_error (ok (correct_stat_info c filename info))

unfoldable pub pipefs_controller_correct_stat_info_fd :
    Controller → ℕ → StatInfo → Result (Option StatInfo × ℤ)
unfolding try_system_error correct_stat_info_data
pipefs_controller_correct_stat_info_fd c data_ info =
    try_system_error (correct_stat_info_data c data_ info)

-- The waits, without `TRY_SYSTEM_ERROR` too; `ok false` waits on.
abbrev pub pipefs_controller_wait_until_finished_file : Controller → Bytes → Result Bool
pipefs_controller_wait_until_finished_file c filename = wait_until_finished c filename

abbrev pub pipefs_controller_wait_until_finished_fd : Controller → ℕ → Result Bool
pipefs_controller_wait_until_finished_fd c data_ = wait_until_finished_data c data_
