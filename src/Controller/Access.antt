-- ===== src/Controller/Access.antt =====
-- Controller.cpp: `read` and `release`.
use pipefs.Common.{ℕ, ◌+◌, not, none, some, ltb, ◌==◌, if◌then◌else◌, update, Bytes}
use pipefs.Common.Int.{pos, negsuc}
use pipefs.SystemError.{Result, ok, throws, aborts, checked_system_call}
use pipefs.SpawnCommand.{FileData, close}
use pipefs.Cache.{Cache, ReadResult, returns, is_finished, get_size}
use pipefs.Cache
use pipefs.Caches.{View}
use pipefs.Caches
use pipefs.Caches.Sorting.{Sorter}
use pipefs.ReadLoop
use pipefs.Controller.{Controller, World, and_then}

-- 29 is ESPIPE.
unfoldable pub read_direct : World → Controller → ℕ → FileData → ℕ → Controller × Result ReadResult
unfolding checked_system_call
read_direct w c data_ file offset =
    if not (offset == file.current_offset)
    then (c, throws 29)
    else and_then (c, checked_system_call w.read w.errno)
        (λ c result. elim result [
          | negsuc n ↦ (c, ok (returns (negsuc n) w.bytes))
          | pos n ↦ (
            record c {
              files =
                  update c.files data_
                    (some (record file { current_offset = file.current_offset + n }));
            },
            ok (returns (pos n) w.bytes),
          )
        ])

-- `aborts`: the file does not exist any more.
unfoldable pub read : World → Controller → ℕ → ℕ → ℕ → Controller × Result ReadResult
unfolding read_direct Cache.read
read w c data_ size offset = elim (c.files data_) [
  | none ↦ (c, aborts)
  | some file ↦ elim file.cache [
    | some cache ↦ (c, ok (Cache.read (c.read_loop.heap cache) size offset))
    | none ↦ read_direct w c data_ file offset
  ]
]

-- What the caches answer to `cleanup`.
abbrev pub view : Controller → View
view c = record {
  size = λ cache. get_size (c.read_loop.heap cache);
  finished = λ cache. is_finished (c.read_loop.heap cache);
}

module _ (sorter : Sorter Bytes Caches.CacheData (λ d. d.last_accessed)) where
  unfoldable pub release_cached : World → Controller → Bytes → Controller × Result (Unit {0})
  unfolding Caches.release Caches.cleanup
  release_cached w c filename = elim (Caches.release c.caches filename w.now) [
    | none ↦ (c, aborts)
    | some caches ↦ (
      record c {
        caches =
            if ltb 0 c.cache_size
            then Caches.cleanup sorter ((view c).size) (view c) caches c.cache_size
            else caches;
      },
      ok tt,
    )
  ]

  -- The file is destroyed in any case.
  unfoldable pub release : World → Controller → Bytes → ℕ → Controller × Result (Unit {0})
  unfolding release_cached ReadLoop.remove checked_system_call close
  release w c filename data_ = elim (c.files data_) [
    | none ↦ (c, aborts)
    | some file ↦
        let c' = record c { files = update c.files data_ none } in
        if c.use_cache
        then release_cached w c' filename
        else if c.seekable
        then (record c' { read_loop = ReadLoop.remove c'.read_loop file.fd }, ok tt)
        else and_then
            (record c' { held = close file.fd c'.held }, checked_system_call w.closed w.errno)
            (λ c'' _. (c'', ok tt))
  ]
