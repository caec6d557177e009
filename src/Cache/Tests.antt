-- ===== src/Cache/Tests.antt =====
-- Cache.cpp: runs, and the theorems at concrete inputs.
use pipefs.Common.{update, ℕ, ◌≡◌, refl, true, false, some, [], arith, codes}
use pipefs.Common.Int.{pos}
use pipefs.Cache.{Cache, empty, write, read, blocks, returns}
use pipefs.Cache.Reading.{read_to_end, read_to_end_lem}
use pipefs.Cache.Monitor.{
  Awaited, data_at, met, testing, waiting, passed, System, wake, owed, waits, writes, Reach, start,
  next, OwedSteps, IsSound, Reach-IsSound, leaves_when_met,
}

abbrev half : Cache
half = record { contents = codes "hello"; finished = false }

abbrev whole : Cache
whole = record { contents = codes "hello"; finished = true }

written : write (write empty (codes "hell") 4) (codes "o!") 1 ≡ half
unfolding write
written = refl

middle : read half 3 1 ≡ returns (pos 3) (codes "ell")
unfolding read
middle = refl

waits_at_size : read half 3 5 ≡ blocks
unfolding read
waits_at_size = refl

ends : read whole 3 5 ≡ returns (pos 0) []
unfolding read
ends = refl

tail_read : read half 3 3 ≡ returns (pos 2) (codes "lo")
unfolding read
tail_read = refl

read_to_end_lem_example : read_to_end 6 2 whole 0 ≡ some (codes "hello")
read_to_end_lem_example = read_to_end_lem 6 2 0 whole refl (omega arith) (omega arith) (omega arith)

-- Thread 0 waits for the first byte; the writer has written it, and has yet to notify.
abbrev goals : ℕ → Awaited
goals _ = data_at 0

abbrev begun : System
begun = record { cache = empty; unnotified = 0; threads = λ _. testing }

abbrev asleep : System
asleep = record begun { threads = update begun.threads 0 waiting }

abbrev supplied : System
supplied = record asleep { cache = write empty (codes "x") 1; unnotified = 1 }

asleep_met : met empty (data_at 0) ≡ false
unfolding met
asleep_met = refl

supplied_met : met supplied.cache (data_at 0) ≡ true
unfolding met write
supplied_met = refl

supplied-Reach : Reach goals supplied
supplied-Reach =
    next (next (start empty) (owed (waits 0 refl asleep_met))) (writes (codes "x") 1 (omega arith))

Reach-IsSound_example : IsSound goals supplied
Reach-IsSound_example = Reach-IsSound goals supplied-Reach

leaves_when_met_example :
    (t : System) × OwedSteps goals supplied t × (t.threads 0 ≡ passed) × (t.cache ≡ supplied.cache)
leaves_when_met_example = leaves_when_met goals 0 supplied-Reach supplied_met

abbrev awake : System
awake = record supplied { unnotified = 0; threads = λ j. wake (supplied.threads j) }
