-- ===== src/Log.antt =====
-- src/log.c: `log_open` empties the log file, and `log_msg` writes one line to it for each piece of a
-- message.
pub mod Lines
pub mod Tests
use pipefs.Common.{
  Bool, if◌then◌else◌, ℕ, suc, ◌-◌, Option, none, some, List, [], ◌∷◌, ◌++◌, length, take, Bytes,
  codes,
}
use pipefs.Strtok.{tokens}

-- What has been written to the log file, if it is opened, as `opens` says; `none`: the program ends
-- with 1.
unfoldable pub log_open : Bool → Option Bytes
log_open opens = if opens then some [] else none

-- `fprintf(log_file, "%s [0x%lx] %s\n", …)`, over the tokens; `thread` is the number in hexadecimal.
unfoldable pub print_lines : Bytes → Bytes → List Bytes → Bytes
print_lines time thread [] = []
print_lines time thread (token ∷ rest) =
    time
    ++ (codes " [0x"
        ++ (thread ++ (codes "] " ++ (token ++ ((10 ∷ []) ++ print_lines time thread rest)))))

abbrev pub max_log_size : ℕ
max_log_size = 10000

-- `file` is what has been written to the log file, if there is one; `message` is what the format
-- makes of the arguments, of which `vsnprintf` keeps what fits the buffer with its end. There is a
-- round for every byte and one for the end.
unfoldable pub log_msg : Bytes → Bytes → Bytes → Option Bytes → Option Bytes
unfolding tokens print_lines
log_msg time thread message file = elim file [
  | none ↦ none
  | some written ↦
      let buffer = take (max_log_size - 1) message in
      some (written ++ print_lines time thread (tokens 10 (suc (length buffer)) buffer))
]
