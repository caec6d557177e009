-- ===== src/Fuse/PassThrough/Tests.antt =====
-- functions.c: the theorems at concrete inputs.
use pipefs.Common.{ℕ, ◌*◌, ◌^◌, ◌≡◌, refl, true, false, some, [], arith, Bytes, codes, bytes_beq}
use pipefs.Common.Int.{ℤ, pos, negsuc}
use pipefs.SystemError.{ok}
use pipefs.SystemError.{checked_system_call}
use pipefs.SpawnCommand.{spawn_command}
use pipefs.Util.{translate_suffix, is_suffix, check_source}
use pipefs.Caches.Sorting.{insertion_sorter}
use pipefs.Controller.{open_file, open_direct}
use pipefs.Controller.CInterface.{pipefs_controller_open, try_system_error}
use pipefs.Controller.Commands.{new_controller}
use pipefs.Fuse.{replies, Fuse, pipefs_fullpath, source_of, has_source_path, check_suffix}
use pipefs.Fuse.Handles.{pipefs_open, open_translated}
use pipefs.Fuse.Tests.{settings, files, mounted, world, its_source, info}
use pipefs.Fuse.PassThrough
use pipefs.Fuse.PassThrough.{Call, System, refuses, performs, open_new}
use pipefs.Fuse.PassThrough.OpenFiles.{
  succeeds, pipefs_create, pipefs_write, pipefs_fsync, pipefs_ftruncate,
}
use pipefs.Fuse.PassThrough.Operations
use pipefs.Fuse.PassThrough.Operations.{run}
use pipefs.Fuse.PassThrough.Errors.{Reports, run-Reports}
use pipefs.Fuse.PassThrough.Lifetimes.{Lives, create-release, open-translated}

-- Files can be made and opened, with the descriptor 6; every other call fails with EACCES.
abbrev answer : Call → ℤ
answer (PassThrough.creat _ _) = pos 6
answer (open_new _ _) = pos 6
answer _ = negsuc 0

abbrev system : System
system = record { result = answer; errno = λ _. 13 }

abbrev path : Bytes
path = codes "/d/a.txt"

abbrev source : Bytes
source = codes "/r/d/a.gz"

run-Reports_example :
    Reports system true
      (run system settings files mounted [] (Operations.mknod (codes "/d/b") (8 * 2 ^ 12) 0))
run-Reports_example =
    run-Reports system (λ _. omega arith) settings files mounted []
      (Operations.mknod (codes "/d/b") (8 * 2 ^ 12) 0)

shown : check_suffix settings (pipefs_fullpath settings (codes "/d/b")) ≡ false
unfolding check_suffix pipefs_fullpath is_suffix bytes_beq
shown = refl

free : has_source_path settings files (pipefs_fullpath settings (codes "/d/b")) ≡ false
unfolding has_source_path source_of pipefs_fullpath bytes_beq translate_suffix is_suffix
    check_source
free = refl

create-release_example :
    let (t, outcome, fh) = pipefs_create system settings files mounted (codes "/d/b") 420 in
    (fh ≡ some 0)
    × Lives
        (insertion_sorter (λ d. d.last_accessed))
        world
        (pos 0)
        system
        mounted
        (pos 6)
        (codes "/d/b")
        t
        0
create-release_example =
    create-release (insertion_sorter (λ d. d.last_accessed)) world (pos 0) system settings files
      mounted (codes "/d/b") 420 shown free refl

abbrev direct : Fuse
direct = record mounted { controller = new_controller false false 0 0 }

abbrev after_open : Fuse
after_open = (pipefs_open settings files [] direct path info).0

opened : pipefs_open settings files [] direct path info ≡ (
  after_open,
  ok (replies (pos 0) (some (0, record { flags = 0; direct_io = true; nonseekable = true }))),
)
unfolding pipefs_open open_translated pipefs_controller_open try_system_error open_file open_direct
    spawn_command source_of pipefs_fullpath bytes_beq translate_suffix is_suffix check_source
    check_suffix checked_system_call
opened = refl

open-translated_example :
    ((bytes : Bytes) (offset : ℕ) → pipefs_write system after_open 0 bytes offset ≡ ok (refuses 22))
    × ((size : ℕ) → pipefs_ftruncate system after_open 0 size ≡ ok (refuses 22))
    × (pipefs_fsync system after_open 0 ≡ ok succeeds)
open-translated_example =
    open-translated system settings files [] path source direct after_open info
      (record { flags = 0; direct_io = true; nonseekable = true }) 0 its_source opened
