-- ===== src/UnitTest/ReadLoopTest.antt =====
-- UnitTest/ReadLoopTest.cpp. As in MockStreamDescriptor.hpp, a read of a stream has its result at
-- once, the next one that the test gives for the stream, and its completion is posted; the stream
-- that the model closes is one that the mock still calls open, when nothing is read from it any more.
use pipefs.Common.{
  ℕ, zero, suc, ◌+◌, ◌≡◌, refl, Bool, true, false, ◌&&◌, Option, none, some, List, [], ◌∷◌, ◌++◌,
  ◌==◌, length, update, Bytes,
}
use pipefs.Common.Dict.{lookup, insert, erase}
use pipefs.Common.Int.{pos, int_eq}
use pipefs.Cache.{Cache, empty, write, finish}
use pipefs.ReadLoop.{ReadLoop, QueueData, read_finished, Env, add, handle}
use pipefs.ReadLoop.Step.{init}
use pipefs.UnitTest.{all_hold}

-- AsyncReadResult: whether there is an error, and the number of bytes.
abbrev AsyncReadResult : Type 0
AsyncReadResult = Bool × ℕ

-- The results that are left for each stream, and the reads that have completed so far, as the stream
-- and the number of bytes.
record Fixture : Type 0 where
  read_loop : ReadLoop
  results : ℕ → List AsyncReadResult
  reads : List (ℕ × ℕ)

zeros : ℕ → Bytes
zeros zero = []
zeros (suc n) = 0 ∷ zeros n

abbrev do_async_read : (ℕ → List AsyncReadResult) → ℕ → AsyncReadResult
do_async_read results stream = elim (results stream) [ [] ↦ (false, 0) | result ∷ _ ↦ result ]

abbrev rest_of : List AsyncReadResult → List AsyncReadResult
rest_of [] = []
rest_of (_ ∷ results) = results

-- `async_read_some`, for each read that a handler has started.
async_read_some : List (ℕ × ℕ) → Fixture → Fixture
unfolding zeros
async_read_some [] s = s
async_read_some ((stream, cache) ∷ reading) s =
    let (failed, size) = do_async_read s.results stream in
    async_read_some reading (record s {
      read_loop = record s.read_loop {
        posted = s.read_loop.posted ++ (read_finished stream cache failed (zeros size) ∷ []);
      };
      results = update s.results stream (rest_of (s.results stream));
      reads = s.reads ++ ((stream, size) ∷ []);
    })

-- `ioService.run()`; `none` is that a handler has thrown, or that the fuel is not enough.
run : ℕ → Env → Fixture → Option Fixture
unfolding async_read_some
run zero env s = none
run (suc fuel) env s = elim s.read_loop.posted [
  | [] ↦ some s
  | h ∷ posted ↦ elim (handle env h (record s.read_loop { posted = posted })) [
    | none ↦ none
    | some read_loop ↦ run fuel env (
        async_read_some read_loop.reading
          (record s { read_loop = record read_loop { reading = [] } }))
  ]
]

abbrev task : ℕ → QueueData
task n = record { read_starter = n; cache = n }

-- The first starter returns a stream with the handle 21, the next one with 22.
abbrev env : Env
env = record { alive = λ _. true; descriptor = λ n. some (pos (21 + n)) }

abbrev adds : List QueueData → ReadLoop → ReadLoop
adds [] s = s
adds (t ∷ tasks) s = adds tasks (add s t)

abbrev fixture : ℕ → (ℕ → List AsyncReadResult) → List QueueData → Fixture
fixture process_limit results tasks = record {
  read_loop = adds tasks (init process_limit (λ _. empty));
  results = results;
  reads = [];
}

abbrev same_reads : List (ℕ × ℕ) → List (ℕ × ℕ) → Bool
same_reads [] [] = true
same_reads ((stream, size) ∷ xs) ((stream', size') ∷ ys) =
    stream == stream' && (size == size' && same_reads xs ys)
same_reads [] (_ ∷ _) = false
same_reads (_ ∷ _) [] = false

abbrev finished : (ℕ → Cache) → List (ℕ × ℕ) → Bool
finished heap [] = true
finished heap ((cache, size) ∷ sizes) =
    (heap cache).finished && (length (heap cache).contents == size && finished heap sizes)

-- The reads in their order, and for each cache that is finished in the end how much is in it.
abbrev ends : ℕ → Env → Fixture → List (ℕ × ℕ) → List (ℕ × ℕ) → Bool
ends fuel env s reads sizes = elim (run fuel env s) [
  | none ↦ false
  | some t ↦ same_reads t.reads reads && finished t.read_loop.heap sizes
]

abbrev one_stream_test : List Bool
one_stream_test =
    ends 10 env (fixture 0 (λ _. (false, 0) ∷ []) (task 0 ∷ [])) ((0, 0) ∷ []) ((0, 0) ∷ [])
    ∷ ends 10 env (fixture 0 (λ _. (false, 2132) ∷ (false, 512) ∷ (false, 0) ∷ []) (task 0 ∷ []))
        ((0, 2132) ∷ (0, 512) ∷ (0, 0) ∷ []) ((0, 2644) ∷ [])
    ∷ ends 10 env (fixture 0 (λ _. (false, 624) ∷ (true, 1) ∷ []) (task 0 ∷ []))
        ((0, 624) ∷ (0, 1) ∷ []) ((0, 624) ∷ [])
    ∷ []

one_stream_test_passes : all_hold one_stream_test ≡ true
unfolding run handle lookup insert erase finish write add
one_stream_test_passes = refl

abbrev three_reads : List AsyncReadResult
three_reads = (false, 23432) ∷ (false, 234) ∷ (false, 130) ∷ (false, 0) ∷ []

abbrev reads_of : ℕ → List (ℕ × ℕ)
reads_of stream = (stream, 23432) ∷ (stream, 234) ∷ (stream, 130) ∷ (stream, 0) ∷ []

-- In turn without a limit, and one after the other with the limit 1.
abbrev two_streams_test : List Bool
two_streams_test =
    ends 20 env (fixture 0 (λ _. three_reads) (task 0 ∷ task 1 ∷ []))
      ((0, 23432) ∷ (1, 23432) ∷ (0, 234) ∷ (1, 234) ∷ (0, 130) ∷ (1, 130) ∷ (0, 0) ∷ (1, 0) ∷ [])
      ((0, 23796) ∷ (1, 23796) ∷ [])
    ∷ ends 20 env (fixture 1 (λ _. three_reads) (task 0 ∷ task 1 ∷ [])) (reads_of 0 ++ reads_of 1)
        ((0, 23796) ∷ (1, 23796) ∷ [])
    ∷ []

two_streams_test_passes : all_hold two_streams_test ≡ true
unfolding run handle lookup insert erase finish write add
two_streams_test_passes = refl

-- The second cache is gone when its task comes.
abbrev first_alive : Env
first_alive = record env { alive = λ cache. cache == 0 }

abbrev started : Option Fixture → ℕ
started none = 0
started (some s) = length s.read_loop.started

abbrev invalid_cache_test : List Bool
invalid_cache_test =
    let s = fixture 1 (λ _. three_reads) (task 0 ∷ task 1 ∷ []) in
    ends 20 first_alive s (reads_of 0) ((0, 23796) ∷ [])
    ∷ (started (run 20 first_alive s) == 1)
    ∷ []

invalid_cache_test_passes : all_hold invalid_cache_test ≡ true
unfolding run handle lookup insert erase finish write add
invalid_cache_test_passes = refl
