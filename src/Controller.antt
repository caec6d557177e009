-- ===== src/Controller.antt =====
-- src/controller/Controller.cpp: the state of the controller, `open` and `preload`, over the caches,
-- the read loop and the commands. A call of an operation is one step; `Access` has `read` and
-- `release`, `Commands` what the thread of the read loop runs, `Stat` the attributes.
pub mod Access
pub mod Commands
pub mod Stat
pub mod CInterface
pub mod Session
pub mod Users
pub mod Frames
pub mod Served
pub mod Release
pub mod Direct
pub mod Opening
pub mod Seekable
pub mod Tests
pub mod Invariant
use pipefs.Common.{
  ℕ, suc, Bool, true, false, not, ◌||◌, ◌+◌, Option, none, some, List, ◌∷◌, ltb, ◌==◌,
  if◌then◌else◌, update, Bytes,
}
use pipefs.Common.Int.{ℤ, pos, negsuc, is_negative, int_beq}
use pipefs.SystemError.{Result, ok, throws, aborts, checked_system_call}
use pipefs.SpawnCommand.{FileData, Answers, new_file, close, spawn_command}
use pipefs.Cache.{Cache, empty, ReadResult, blocks, returns, is_finished, get_size}
use pipefs.Caches.{Caches, View}
use pipefs.Caches
use pipefs.Caches.Sorting.{Sorter}
use pipefs.ReadLoop.{ReadLoop, QueueData}
use pipefs.ReadLoop
use pipefs.Cache

-- What `createCommand` is bound to in a task: the file, if any, the input and the flags.
pub record Task : Type 0 where
  pub file : Option ℕ
  pub input_fd : ℤ
  pub flags : ℕ

-- The members; `files` are the `FileData` that exist, by address, `tasks` the bound tasks by their
-- number in the read loop, and `held` the descriptors that are open. The caches themselves stand in
-- the heap of the read loop.
pub record Controller : Type 0 where
  pub seekable : Bool
  pub use_cache : Bool
  pub cache_size : ℕ
  pub caches : Caches
  pub read_loop : ReadLoop
  pub files : ℕ → Option FileData
  pub next_file : ℕ
  pub next_cache : ℕ
  pub tasks : ℕ → Task
  pub next_task : ℕ
  pub held : List ℤ

-- `fuse_file_info`
pub record FileInfo : Type 0 where
  pub flags : ℕ
  pub direct_io : Bool
  pub nonseekable : Bool

-- What the system calls of one operation return, and the time.
pub record World : Type 0 where
  pub now : ℕ
  pub dup : ℤ
  pub opened : ℤ
  pub spawn : Answers
  pub closed : ℤ
  pub read : ℤ
  pub bytes : Bytes
  pub errno : ℕ

-- The rest of an operation, which an exception skips.
abbrev pub and_then {ℓ κ} :
    {A : Type ℓ} {B : Type κ}
    → Controller × Result A
    → (Controller → A → Controller × Result B)
    → Controller × Result B
and_then m rest = elim m.1 [
  | ok a ↦ rest m.0 a
  | throws errno ↦ (m.0, throws errno)
  | aborts ↦ (m.0, aborts)
]

-- `readLoop.add` of a bound `createCommand`, whose arguments contain the `dup`.
unfoldable pub add_task : World → Controller → Option ℕ → ℕ → ℕ → Controller × Result (Unit {0})
unfolding checked_system_call ReadLoop.add
add_task w c file flags cache =
    and_then (c, checked_system_call w.dup w.errno)
      (λ c copy. (
        record c {
          held = copy ∷ c.held;
          tasks =
              update c.tasks c.next_task (record { file = file; input_fd = copy; flags = flags });
          next_task = suc c.next_task;
          read_loop =
              ReadLoop.add c.read_loop (record { read_starter = c.next_task; cache = cache });
        },
        ok tt,
      ))

unfoldable pub add_cache_to_read_loop : World → Controller → ℕ → ℕ → Controller × Result (Unit {0})
unfolding add_task
add_cache_to_read_loop w c flags cache = add_task w c none flags cache

-- `caches.get(key)`, which makes the cache of a new entry.
unfoldable pub get_cache : World → Controller → Bytes → Controller × ℕ × Bool
unfolding Caches.get
get_cache w c key =
    let (caches, cache, is_new) = Caches.get c.caches key w.now c.next_cache in
    (
      record c { caches = caches; next_cache = if is_new then suc c.next_cache else c.next_cache },
      cache,
      is_new,
    )

-- The result is the cache that `fileData.cache` becomes.
unfoldable pub create_cache : World → Controller → Bytes → ℕ → Controller × Result ℕ
unfolding get_cache add_cache_to_read_loop
create_cache w c key flags =
    let (c', cache, is_new) = get_cache w c key in
    if is_new
    then and_then (add_cache_to_read_loop w c' flags cache) (λ c'' _. (c'', ok cache))
    else (c', ok cache)

-- `data.release()`: the new file stays, at the next address.
unfoldable pub keep_file : Controller → FileData → FileInfo → Controller × Result (ℕ × FileInfo)
keep_file c file fi = (
  record c { files = update c.files c.next_file (some file); next_file = suc c.next_file },
  ok (c.next_file, fi),
)

unfoldable pub open_cached :
    World → Controller → Bytes → FileInfo → Controller × Result (ℕ × FileInfo)
unfolding create_cache keep_file
open_cached w c filename fi = and_then (create_cache w c filename fi.flags) (λ c' cache.
    keep_file c' (record new_file { cache = some cache }) (record fi { nonseekable = false }))

unfoldable pub open_seekable : World → Controller → FileInfo → Controller × Result (ℕ × FileInfo)
unfolding add_task keep_file
open_seekable w c fi =
    let cache = c.next_cache in
    and_then (add_task w (record c { next_cache = suc cache }) (some c.next_file) fi.flags cache)
      (λ c' _.
        keep_file c' (record new_file { cache = some cache }) (record fi { nonseekable = false }))

-- `spawnCommand` is given the new file, and sets its descriptor and process.
unfoldable pub open_direct : World → Controller → FileInfo → Controller × Result (ℕ × FileInfo)
unfolding spawn_command keep_file
open_direct w c fi =
    let (held, file, result) = spawn_command w.spawn c.held (some new_file) in
    and_then (record c { held = held }, result)
      (λ c' _. elim file [
        | none ↦ (c', aborts)
        | some file' ↦ keep_file c' file' (record fi { nonseekable = true })
      ])

-- The result is the address of the new file. An exception destroys the file, and the caller does
-- not look at `fi` then.
unfoldable pub open_file :
    World → Controller → Bytes → FileInfo → Controller × Result (ℕ × FileInfo)
unfolding open_cached open_seekable open_direct
open_file w c filename fi =
    let fi' = record fi { direct_io = true } in
    if c.use_cache
    then open_cached w c filename fi'
    else if c.seekable
    then open_seekable w c fi'
    else open_direct w c fi'

-- `closeFd`, at the end of the scope.
unfoldable pub close_fd {ℓ} : {A : Type ℓ} → ℤ → Controller × Result A → Controller × Result A
unfolding close
close_fd fd m = (record m.0 { held = close fd m.0.held }, m.1)

-- `0` is O_RDONLY. A source that cannot be opened is logged, and the new cache stays.
unfoldable pub preload : World → Controller → Bytes → Controller × Result (Unit {0})
unfolding get_cache add_cache_to_read_loop close_fd
preload w c filename =
    if not c.use_cache
    then (c, ok tt)
    else (let (c', cache, is_new) = get_cache w c filename in
        if not is_new || is_negative w.opened
        then (c', ok tt)
        else close_fd w.opened
            (add_cache_to_read_loop w (record c' { held = w.opened ∷ c'.held }) 0 cache))
