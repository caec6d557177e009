-- ===== src/Program/Tests.antt =====
-- bin/main.c: the theorem at a concrete input.
use pipefs.Common.{◌≡◌, refl, true, false, none, some, [], if◌then◌else◌, Bytes, bytes_beq, codes}
use pipefs.Common.Int.{pos}
use pipefs.SystemError.{ok}
use pipefs.CommandLine.{Arguments}
use pipefs.CommandLine.Options.{no_arguments}
use pipefs.Program.{FileSystem, Host, FuseMain, set_file, pipefs_controller_create, run}
use pipefs.Program.PidFile.{logged, is_log, run-pidfile}

-- The file p has the real path /p.
abbrev host : Host
host = record {
  resolved = λ path. if bytes_beq path (codes "p") then codes "/p" else path;
  realpath = λ path. some (if bytes_beq path (codes "p") then codes "/p" else path);
  writable = λ _. true;
  pid = codes "7";
  log_file = some (codes "/l");
  time = codes "t";
  thread = codes "1";
  userdata = codes "0";
}

abbrev mounting : FuseMain
mounting = record { mounts = true; serve = λ c fs. (c, fs); result = pos 0 }

abbrev arguments : Arguments
arguments = record no_arguments { pidfile = some (codes "p") }

real_path : host.realpath (codes "p") ≡ some (codes "/p")
unfolding bytes_beq
real_path = refl

same_file : host.resolved (codes "/p") ≡ host.resolved (codes "p")
unfolding bytes_beq
same_file = refl

run-pidfile_example :
    let file = host.resolved (codes "p") in
    let mounted =
      set_file file
        (some host.pid)
        (logged host (codes "/p") (set_file file (some []) (λ _. none))) in
    (end : FileSystem) × (run mounting host arguments (λ _. none) ≡ ok (pos 0, end))
    × (mounted file ≡ some host.pid)
    × (end file ≡ none)
    × ((other : Bytes)
        → bytes_beq other file ≡ false
        → is_log host other ≡ false
        → end other ≡ (mounting.serve (pipefs_controller_create arguments) mounted).1 other)
run-pidfile_example =
    run-pidfile mounting host arguments (λ _. none) (codes "p") (codes "/p") refl real_path
      same_file refl refl
