-- ===== src/SpawnCommand.antt =====
-- src/controller/SpawnCommand.cpp: a command is started with its input on 0 and a pipe on 1. The
-- system calls are parameters: what each of them returns.
pub mod Wiring
pub mod Tests
use pipefs.Common.{
  ℕ, zero, suc, ◌+◌, Bool, true, false, Option, none, some, List, [], ◌∷◌, ◌==◌, if◌then◌else◌,
}
use pipefs.Common.Int.{ℤ, pos, int_beq}
use pipefs.SystemError.{Result, ok, throws, aborts, checked_system_call}

pub record FileData : Type 0 where
  pub fd : ℤ
  pub pid : ℤ
  pub current_offset : ℕ
  pub cache : Option ℕ

abbrev pub new_file : FileData
new_file = record { fd = pos 0; pid = pos 0; current_offset = 0; cache = none }

-- The results of `pipe`, with its two descriptors, of `fcntl` and of `fork`, and the `errno` of the
-- one that fails.
pub record Answers : Type 0 where
  pub pipe : ℤ
  pub read_end : ℤ
  pub write_end : ℤ
  pub fcntl : ℤ
  pub fork : ℤ
  pub errno : ℕ

-- `close` on the descriptors that the program has open.
unfoldable pub close : ℤ → List ℤ → List ℤ
close fd [] = []
close fd (d ∷ held) = if int_beq fd d then held else d ∷ close fd held

abbrev pub set_command : Answers → FileData → FileData
set_command a file = record file { fd = a.read_end; pid = a.fork; current_offset = 0 }

abbrev pub set_if_given : Answers → Option FileData → Option FileData
set_if_given a none = none
set_if_given a (some file) = some (set_command a file)

-- After the `try`, in the parent; `pipeClose` closes the write end.
abbrev pub started : Answers → List ℤ → Option FileData → List ℤ × Option FileData × Result ℤ
started a held file = (close a.write_end held, set_if_given a file, ok a.read_end)

-- The `catch`, and then `pipeClose`.
abbrev pub failed : Answers → List ℤ → Option FileData → ℕ → List ℤ × Option FileData × Result ℤ
failed a held file errno = (close a.write_end (close a.read_end held), file, throws errno)

-- `spawnCommand` in the process that calls it: the descriptors that it leaves open, the file, and
-- its result.
unfoldable pub spawn_command :
    Answers → List ℤ → Option FileData → List ℤ × Option FileData × Result ℤ
unfolding checked_system_call close
spawn_command a held file =
    let piped = a.read_end ∷ a.write_end ∷ held in
    elim (checked_system_call a.pipe a.errno) [
      | throws errno ↦ (held, file, throws errno)
      | aborts ↦ (held, file, aborts)
      | ok _ ↦ elim (checked_system_call a.fcntl a.errno) [
        | throws errno ↦ failed a piped file errno
        | aborts ↦ failed a piped file 0
        | ok _ ↦ elim (checked_system_call a.fork a.errno) [
          | throws errno ↦ failed a piped file errno
          | aborts ↦ failed a piped file 0
          | ok _ ↦ started a piped file
        ]
      ]
    ]

-- What a signal does in a process.
pub data Disposition : Type 0 where
  default ignored caught : Disposition

-- The child: which file description each descriptor stands for, and what each signal does.
pub record Child : Type 0 where
  pub table : ℤ → Option ℕ
  pub signals : ℕ → Disposition

abbrev pub set_entry : (ℤ → Option ℕ) → ℤ → Option ℕ → ℤ → Option ℕ
set_entry table fd entry j = if int_beq fd j then entry else table j

-- `dup2`, where it succeeds, and `close`.
unfoldable pub dup2 : ℤ → ℤ → Child → Child
dup2 from to child = record child { table = set_entry child.table to (child.table from) }

unfoldable pub close_entry : ℤ → Child → Child
close_entry fd child = record child { table = set_entry child.table fd none }

-- The loop over the signals `signal`, …, `signal + n - 1`.
unfoldable pub reset_signals : ℕ → ℕ → Child → Child
reset_signals zero signal child = child
reset_signals (suc n) signal child =
    reset_signals n (suc signal)
      (record child { signals = λ s. if s == signal then default else child.signals s })

pub data ChildOutcome : Type 0 where
  exits : ℕ → ChildOutcome
  execs : Child → ChildOutcome

-- The branch of the child. `nsig` is `_NSIG - 1`; the first two flags say that `dup2` succeeds, the
-- third that `execl` does.
unfoldable pub run_child : ℕ → Bool → Bool → Bool → ℤ → Answers → Child → ChildOutcome
unfolding dup2 close_entry reset_signals
run_child nsig input_ok output_ok exec_ok fd a child =
    let wired = dup2 a.write_end (pos 1) (dup2 fd (pos 0) (close_entry a.read_end child)) in
    let ready = reset_signals nsig 1 (close_entry a.write_end (close_entry fd wired)) in
    if input_ok
    then if output_ok then if exec_ok then execs ready else exits 1 else exits 1
    else exits 1
