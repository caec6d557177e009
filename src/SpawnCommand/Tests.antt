-- ===== src/SpawnCommand/Tests.antt =====
-- SpawnCommand.cpp: the theorems at concrete inputs.
use pipefs.Common.{◌≡◌, refl, ◌⊎◌, true, false, none, some, [], ◌∷◌, arith}
use pipefs.Common.Int.{pos, negsuc, is_negative}
use pipefs.SystemError.{ok, throws, checked_system_call}
use pipefs.SpawnCommand.{
  Answers, new_file, close, set_if_given, spawn_command, ignored, Child, dup2, close_entry,
  reset_signals,
}
use pipefs.SpawnCommand.Wiring.{spawn_command-balanced}

-- The ends of the pipe are 7 and 8, and the child is process 99.
abbrev answers : Answers
answers = record {
  pipe = pos 0;
  read_end = pos 7;
  write_end = pos 8;
  fcntl = pos 0;
  fork = pos 99;
  errno = 0;
}

spawns : spawn_command answers (pos 3 ∷ []) none ≡ (pos 7 ∷ pos 3 ∷ [], none, ok (pos 7))
unfolding spawn_command close checked_system_call
spawns = refl

-- `fork` fails with EAGAIN.
no_process :
    spawn_command (record answers { fork = negsuc 0; errno = 11 }) (pos 3 ∷ []) none
    ≡ (pos 3 ∷ [], none, throws 11)
unfolding spawn_command close checked_system_call
no_process = refl

spawn_command-balanced_example :
    ((is_negative (pos 0) ≡ false)
      × (is_negative (pos 0) ≡ false)
      × (is_negative (pos 99) ≡ false)
      × (spawn_command answers (pos 3 ∷ []) (some new_file)
          ≡ (pos 7 ∷ pos 3 ∷ [], set_if_given answers (some new_file), ok (pos 7))))
    ⊎ (((is_negative (pos 0) ≡ true) ⊎ (is_negative (pos 0) ≡ true) ⊎ (is_negative (pos 99) ≡ true))
        × (spawn_command answers (pos 3 ∷ []) (some new_file)
            ≡ (pos 3 ∷ [], some new_file, throws 0)))
spawn_command-balanced_example =
    spawn_command-balanced answers (pos 3 ∷ []) (some new_file) (λ e. ground arith)

-- Descriptor n of the child stands for file description n.
abbrev forked : Child
forked = record {
  table = λ fd. elim fd [ pos n ↦ some n | negsuc _ ↦ none ];
  signals = λ _. ignored;
}

abbrev ready : Child
ready = reset_signals 2 1 (
    close_entry (pos 8) (
      close_entry (pos 5)
        (dup2 (pos 8) (pos 1) (dup2 (pos 5) (pos 0) (close_entry (pos 7) forked)))))
