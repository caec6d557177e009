-- ===== src/ReadLoop/Step.antt =====
-- BasicReadLoop.hpp under a schedule: other threads call the public methods, reads complete, and the
-- thread of the io_service runs what is posted, in order.
use pipefs.Common.{ℕ, ◌≡◌, Bool, false, some, List, [], ◌∷◌, ◌++◌, Bytes}
use pipefs.Common.Int.{ℤ, int_beq}
use pipefs.Cache.{Cache}
use pipefs.ReadLoop.{
  ReadLoop, QueueData, Handler, read_finished, Env, closed, cancel, add, remove, handle,
}

-- A stream that `readStarter` returns is open.
abbrev pub Opens : Env → Type 0
Opens env = (starter : ℕ) (fd : ℤ) → env.descriptor starter ≡ some fd → int_beq fd closed ≡ false

pub data Step (s : ReadLoop) : ReadLoop → Type 0 where
  calls_add : (task : QueueData) → Step s (add s task)
  calls_remove : (fd : ℤ) → Step s (remove s fd)
  calls_cancel : Step s (cancel s)
  completes :
      (before after : List (ℕ × ℕ)) (stream cache : ℕ) (failed : Bool) (bytes : Bytes)
      → s.reading ≡ before ++ ((stream, cache) ∷ after)
      → Step s (record s {
        reading = before ++ after;
        posted = s.posted ++ (read_finished stream cache failed bytes ∷ []);
      })
  runs :
      (env : Env) (h : Handler) (rest : List Handler) {t : ReadLoop}
      → Opens env
      → s.posted ≡ h ∷ rest
      → handle env h (record s { posted = rest }) ≡ some t
      → Step s t

-- The constructor, over caches that other parts of the program have made.
abbrev pub init : ℕ → (ℕ → Cache) → ReadLoop
init process_limit heap = record {
  process_limit = process_limit;
  caches = [];
  queue = [];
  posted = [];
  reading = [];
  handles = λ _. closed;
  next_stream = 0;
  heap = heap;
  started = [];
}

pub data Reach (limit : ℕ) (heap : ℕ → Cache) : ReadLoop → Type 0 where
  start : Reach limit heap (init limit heap)
  next : {s t : ReadLoop} → Reach limit heap s → Step s t → Reach limit heap t
