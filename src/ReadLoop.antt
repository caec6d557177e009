-- ===== src/ReadLoop.antt =====
-- src/controller/BasicReadLoop.hpp: the commands that run, the tasks that wait for a place, and the
-- handlers that one thread of the io_service runs. Addresses of caches and of stream descriptors are
-- numbers; a task's `readStarter` is a number too.
pub mod Step
pub mod Limit
pub mod Order
pub mod Owner
pub mod Ownership
pub mod Contents
pub mod Watch
pub mod Draining
pub mod Rest
pub mod Settling
pub mod Expected
pub mod Serving
pub mod Tests
use pipefs.Common.{
  ℕ, suc, ◌+◌, Bool, true, false, not, ◌&&◌, ◌||◌, Option, none, some, List, [], ◌∷◌, ◌++◌, ltb,
  ◌==◌, if◌then◌else◌, length, update, Bytes,
}
use pipefs.Common.Dict.{Dict, lookup, insert, erase}
use pipefs.Common.Int.{ℤ, negsuc, int_beq, int_eq}
use pipefs.Cache.{Cache, write, finish}

pub record CacheData : Type 0 where
  pub cache : ℕ
  pub stream : ℕ

pub record QueueData : Type 0 where
  pub read_starter : ℕ
  pub cache : ℕ

-- What is posted to the io_service. The last is the completion of a read: its stream and cache,
-- whether it failed, and the bytes transferred to the buffer.
pub data Handler : Type 0 where
  do_add_or_queue : QueueData → Handler
  do_remove : ℤ → Handler
  do_cancel : Handler
  read_finished : ℕ → ℕ → Bool → Bytes → Handler

-- `caches` and `queue` are the members; `heap` holds the caches by address, `handles` what
-- `native_handle` answers for each stream, `reading` the reads that are under way, as pairs of a
-- stream and a cache, and `started` the tasks whose `readStarter` has been called.
pub record ReadLoop : Type 0 where
  pub process_limit : ℕ
  pub caches : Dict ℤ CacheData
  pub queue : List QueueData
  pub posted : List Handler
  pub reading : List (ℕ × ℕ)
  pub handles : ℕ → ℤ
  pub next_stream : ℕ
  pub heap : ℕ → Cache
  pub started : List ℕ

-- The handle of a stream that is not open: -1.
abbrev pub closed : ℤ
closed = negsuc 0

abbrev pub is_open : ReadLoop → ℕ → Bool
is_open s stream = not (int_beq (s.handles stream) closed)

-- Whether a command for the cache runs.
unfoldable pub in_running : ℕ → Dict ℤ CacheData → Bool
in_running cache [] = false
in_running cache ((_, entry) ∷ rest) = entry.cache == cache || in_running cache rest

-- What a handler finds around it: which caches a `weak_ptr` can lock, and the handle of the stream
-- that a call of `readStarter` makes; `none` is an exception.
pub record Env : Type 0 where
  pub alive : ℕ → Bool
  pub descriptor : ℕ → Option ℤ

-- The public methods post a handler.
unfoldable pub cancel : ReadLoop → ReadLoop
cancel s = record s { posted = s.posted ++ (do_cancel ∷ []) }

unfoldable pub add : ReadLoop → QueueData → ReadLoop
add s task = record s { posted = s.posted ++ (do_add_or_queue task ∷ []) }

unfoldable pub remove : ReadLoop → ℤ → ReadLoop
remove s fd = record s { posted = s.posted ++ (do_remove fd ∷ []) }

-- `~CacheData`; a task that is removed always has a stream. The cancelled read completes later.
unfoldable pub destroy : CacheData → ReadLoop → ReadLoop
destroy entry s = record s {
  heap = update s.heap entry.cache (finish (s.heap entry.cache));
  handles = update s.handles entry.stream closed;
}

unfoldable pub start_reading : ℕ → ℕ → ReadLoop → ReadLoop
start_reading stream cache s = record s { reading = s.reading ++ ((stream, cache) ∷ []) }

-- `caches.emplace(fd, make_unique<CacheData>(…))`, which destroys the new entry if the key is there.
unfoldable pub emplace : ℤ → CacheData → ReadLoop → ReadLoop
unfolding destroy start_reading
emplace fd entry s = elim (lookup fd s.caches) [
  | none ↦ start_reading entry.stream entry.cache (record s { caches = insert fd entry s.caches })
  | some _ ↦ destroy entry s
]

-- The stream that `readStarter` returns, with the handle `fd`.
unfoldable pub open_stream : ℕ → ℤ → ReadLoop → ReadLoop
open_stream starter fd s = record s {
  handles = update s.handles s.next_stream fd;
  next_stream = suc s.next_stream;
  started = s.started ++ (starter ∷ []);
}

-- `none`: the exception leaves the handler and the thread, and ends the program.
unfoldable pub do_add : Env → QueueData → ReadLoop → Option ReadLoop
unfolding emplace open_stream
do_add env task s =
    if not (env.alive task.cache) then some s else elim (env.descriptor task.read_starter) [
      | none ↦ none
      | some fd ↦
          let entry : CacheData = record { cache = task.cache; stream = s.next_stream } in
          some (emplace fd entry (open_stream task.read_starter fd s))
    ]

infixl 5 ◌>>=◌
abbrev pub ◌>>=◌ : Option ReadLoop → (ReadLoop → Option ReadLoop) → Option ReadLoop
none >>= f = none
some s >>= f = f s

-- The loop of `remove`, over what is left of the queue.
unfoldable pub pump : Env → List QueueData → ReadLoop → Option ReadLoop
pump env [] s = some (record s { queue = [] })
pump env (task ∷ rest) s =
    let more = do_add env task (record s { queue = rest }) >>= pump env rest in
    if ltb (length s.caches) s.process_limit then more else some (record s { queue = task ∷ rest })

-- `caches.erase(fd)`
unfoldable pub erase_entry : ℤ → ReadLoop → ReadLoop
unfolding destroy
erase_entry fd s = elim (lookup fd s.caches) [
  | none ↦ s
  | some entry ↦ destroy entry (record s { caches = erase fd s.caches })
]

-- `caches.clear()`
unfoldable pub destroy_all : Dict ℤ CacheData → ReadLoop → ReadLoop
destroy_all [] s = s
destroy_all ((_, entry) ∷ rest) s = destroy_all rest (destroy entry s)

unfoldable pub handle : Env → Handler → ReadLoop → Option ReadLoop
unfolding do_add erase_entry pump destroy_all start_reading remove
handle env (do_add_or_queue task) s =
    if s.process_limit == 0 || ltb (length s.caches) s.process_limit
    then do_add env task s
    else some (record s { queue = s.queue ++ (task ∷ []) })
handle env (do_remove fd) s = pump env s.queue (erase_entry fd s)
handle env do_cancel s = some (record (destroy_all s.caches s) { caches = [] })
handle env (read_finished stream cache failed bytes) s =
    if not failed && ltb 0 (length bytes) && is_open s stream
    then some (
        start_reading stream cache
          (record s { heap = update s.heap cache (write (s.heap cache) bytes (length bytes)) }))
    else some (remove s (s.handles stream))
