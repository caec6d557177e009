-- ===== src/SpawnCommand/Wiring.antt =====
-- SpawnCommand.cpp: the descriptors of both processes.
use pipefs.Common.{◌≡◌, ◌≢◌, ◌⊎◌, true, false, Option, List, ◌∷◌, arith}
use pipefs.Common.Int.{ℤ, int_beq_iff, is_negative}
use pipefs.SystemError.{ok, throws, checked_system_call}
use pipefs.SpawnCommand.{FileData, Answers, close, set_if_given, spawn_command}

-- No descriptor is lost: `spawnCommand` returns the read end of the pipe, which is all that it
-- leaves open, and the file names it from then on; or it throws the error of the call that failed,
-- leaves open what was open, and the file is as it was. The first happens exactly if no call fails.
-- The two ends of the pipe are different.
pub spawn_command-balanced :
    (a : Answers) (held : List ℤ) (file : Option FileData)
    → a.read_end ≢ a.write_end
    → ((is_negative a.pipe ≡ false)
        × (is_negative a.fcntl ≡ false)
        × (is_negative a.fork ≡ false)
        × (spawn_command a held file ≡ (a.read_end ∷ held, set_if_given a file, ok a.read_end)))
      ⊎ (((is_negative a.pipe ≡ true) ⊎ (is_negative a.fcntl ≡ true) ⊎ (is_negative a.fork ≡ true))
          × (spawn_command a held file ≡ (held, file, throws a.errno)))
unfolding spawn_command close checked_system_call
spawn_command-balanced a held file h = ground (
  arith,
  int_beq_iff a.read_end a.write_end,
  int_beq_iff a.write_end a.read_end,
  int_beq_iff a.write_end a.write_end,
  int_beq_iff a.read_end a.read_end,
)
