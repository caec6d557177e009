-- ===== src/Fuse/Tests.antt =====
-- functions_translate.c and functions.c: the theorems at concrete inputs.
use pipefs.Common.{
  ◌≡◌, refl, true, false, none, some, [], ◌++◌, arith, codes, bytes_beq, if◌then◌else◌,
}
use pipefs.Common.Int.{pos, negsuc}
use pipefs.Util.{translate_suffix, is_suffix, check_source}
use pipefs.Caches.{get_if_present}
use pipefs.Common.Dict.{lookup}
use pipefs.Controller.{FileInfo, World}
use pipefs.Controller.Commands.{new_controller}
use pipefs.Controller.Stat.{StatInfo}
use pipefs.Fuse.{
  Settings, Fuse, Files, pipefs_fullpath, source_of, check_suffix, getattr_translated,
  pipefs_getattr,
}
use pipefs.Fuse.Visible.{readdir-getattr}

abbrev pub settings : Settings
settings = record {
  rootdir = codes "/r";
  source_suffix = codes ".gz";
  target_suffix = codes ".txt";
  flags = 0;
}

abbrev regular_file : StatInfo
regular_file = record { mode = 33188; size = 3; blocks = 1 }

-- `dup` fails with EMFILE.
abbrev pub world : World
world = record {
  now = 1;
  dup = negsuc 0;
  opened = negsuc 0;
  spawn = record {
    pipe = pos 0;
    read_end = pos 7;
    write_end = pos 8;
    fcntl = pos 0;
    fork = pos 9;
    errno = 0;
  };
  closed = pos 0;
  read = pos 0;
  bytes = [];
  errno = 24;
}

-- There is one source file, /r/d/a.gz.
abbrev pub files : Files
files = record {
  world = world;
  stat = λ p. if bytes_beq p (codes "/r/d/a.gz") then some regular_file else none;
  lstat = λ _. none;
  opens = λ _. pos 5;
  errno = 2;
}

abbrev pub mounted : Fuse
mounted = record {
  controller = new_controller true true 0 0;
  basic_files = λ _. none;
  next_basic = 0;
}

shows : translate_suffix (codes "a.gz") (codes ".gz") (codes ".txt") ≡ some (codes "a.txt")
unfolding translate_suffix is_suffix bytes_beq
shows = refl

hides_nothing : check_suffix settings (codes "/r/d/a.txt") ≡ false
unfolding check_suffix bytes_beq
hides_nothing = refl

exists : files.stat (codes "/r/d/a.gz") ≡ some regular_file
unfolding bytes_beq
exists = refl

readdir-getattr_example :
    pipefs_getattr settings files mounted (codes "/d/" ++ codes "a.txt")
    ≡ getattr_translated settings world mounted (codes "/d/" ++ codes "a.txt") regular_file
readdir-getattr_example =
    readdir-getattr settings files mounted (codes "/d/") (codes "a.gz") (codes "a.txt") regular_file
      shows exists refl (omega arith) hides_nothing

not_cached : get_if_present mounted.controller.caches (codes "/d/a.txt") ≡ none
unfolding get_if_present lookup
not_cached = refl

pub its_source :
    source_of settings files (pipefs_fullpath settings (codes "/d/a.txt"))
    ≡ some (codes "/r/d/a.gz")
unfolding source_of pipefs_fullpath bytes_beq translate_suffix is_suffix check_source
its_source = refl

pub unfilled : check_suffix settings [] ≡ false
unfolding check_suffix
unfilled = refl

abbrev pub info : FileInfo
info = record { flags = 0; direct_io = false; nonseekable = false }

pub seen : check_suffix settings (pipefs_fullpath settings (codes "/d/a.txt")) ≡ false
unfolding check_suffix pipefs_fullpath is_suffix bytes_beq
seen = refl
