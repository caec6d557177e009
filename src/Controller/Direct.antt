-- ===== src/Controller/Direct.antt =====
-- Controller.cpp without caching and seeking: an open file reads the pipe of its command directly.
use native.Mathlib.Nat.{zero-add, suc-add}
use mathlib.Core.Option
use pipefs.Common.{
  ◌++◌, ℕ, zero, suc, ◌+◌, ◌≡◌, refl, sym, ap, ◌∙◌, inl, inr, Bool, false, Bool-cases, Option, none,
  some, List, [], ◌∷◌, arith, if◌then◌else◌, ◌==◌, update, Bytes, All, length, take, drop, min,
}
use pipefs.Common.Int.{pos, negsuc}
use pipefs.SystemError.{Result, ok, throws, aborts, checked_system_call}
use pipefs.SpawnCommand.{FileData}
use pipefs.Cache.{ReadResult, blocks, returns}
use pipefs.Controller.{Controller, World}
use pipefs.Controller.Access.{read, read_direct}

-- A call of `read`: the pipe has `ready` bytes for it, or the system call fails.
pub record Attempt : Type 0 where
  pub size : ℕ
  pub offset : ℕ
  pub ready : ℕ
  pub fails : Bool

-- A pipe gives the next bytes of what the command writes.
abbrev pub piped : World → Attempt → Bytes → World
piped w t rest =
    let bytes = take (min t.size t.ready) rest in
    record w { read = if t.fails then negsuc 0 else pos (length bytes); bytes = bytes }

abbrev pub bytes_of : Result ReadResult → Option Bytes
bytes_of (ok blocks) = none
bytes_of (ok (returns _ bytes)) = some bytes
bytes_of (throws _) = none
bytes_of aborts = none

-- The offsets and the bytes of the calls that succeed; `rest` is what the command has still to give.
unfoldable pub run_reads : World → ℕ → List Attempt → Bytes → Controller → List (ℕ × Bytes)
unfolding read
run_reads w data_ [] rest c = []
run_reads w data_ (t ∷ ts) rest c =
    let (c', result) = read (piped w t rest) c data_ t.size t.offset in
    elim (bytes_of result) [
      | none ↦ run_reads w data_ ts rest c'
      | some bytes ↦ (t.offset, bytes) ∷ run_reads w data_ ts (drop (length bytes) rest) c'
    ]

drop-drop : (m n : ℕ) (xs : Bytes) → drop n (drop m xs) ≡ drop (m + n) xs
drop-drop zero n xs = rw (zero-add n) refl
drop-drop (suc m) zero [] = rw (suc-add m zero) refl
drop-drop (suc m) (suc n) [] = rw (suc-add m (suc n)) refl
drop-drop (suc m) n (x ∷ xs) = rw (suc-add m n) (drop-drop m n xs)

take-length-take : (n : ℕ) (xs : Bytes) → take (length (take n xs)) xs ≡ take n xs
take-length-take zero xs = refl
take-length-take (suc n) [] = refl
take-length-take (suc n) (x ∷ xs) = ap (◌∷◌ x) (take-length-take n xs)

-- In a sequence of reads of a file that has no cache, at any offsets, each read that succeeds gives
-- bytes that the command's output has at the offset of the read, if the pipe gives the output in
-- order, from the file's current offset on.
pub run_reads-stream :
    (w : World) (data_ : ℕ) (ts : List Attempt) (stream rest : Bytes) (c : Controller)
    (file : FileData)
    → c.files data_ ≡ some file
    → file.cache ≡ none
    → rest ≡ drop file.current_offset stream
    → All (λ e. e.1 ≡ take (length e.1) (drop e.0 stream)) (run_reads w data_ ts rest c)
unfolding run_reads read read_direct checked_system_call
run_reads-stream w data_ [] stream rest c file there direct at = tt
run_reads-stream w data_ (t ∷ ts) stream rest c file there direct at =
    elim (Bool-cases (t.offset == file.current_offset)) [
      | inr elsewhere ↦
          let call : read (piped w t rest) c data_ t.size t.offset ≡ (c, throws 29) =
            ground arith in
          rw (call, run_reads)
            (rw call (run_reads-stream w data_ ts stream rest c file there direct at))
      | inl here ↦ elim (Bool-cases t.fails) [
        | inl bad ↦
            let call : read (piped w t rest) c data_ t.size t.offset ≡ (c, throws w.errno) =
              ground arith in
            rw (call, run_reads)
              (rw call (run_reads-stream w data_ ts stream rest c file there direct at))
        | inr good ↦
            let same : t.offset ≡ file.current_offset = ground arith in
            let bytes = take (min t.size t.ready) rest in
            let moved = record file { current_offset = file.current_offset + length bytes } in
            let c' = record c { files = update c.files data_ (some moved) } in
            let call : read (piped w t rest) c data_ t.size t.offset
                ≡ (c', ok (returns (pos (length bytes)) bytes)) =
              ground arith in
            rw (call, run_reads)
              (
                sym (take-length-take (min t.size t.ready) rest)
                    ∙ ap (λ xs. take (length bytes) xs) (at ∙ ap (λ k. drop k stream) (sym same)),
                rw call (
                    run_reads-stream w data_ ts stream (drop (length bytes) rest) c' moved
                      (ground arith) direct
                      (ap (λ xs. drop (length bytes) xs) at
                        ∙ drop-drop file.current_offset (length bytes) stream)),
              )
      ]
    ]

-- A client that reads on from where it is: each request has a size and what the pipe has ready.
-- `none`: a read has failed.
unfoldable pub read_on : World → ℕ → List (ℕ × ℕ) → ℕ → Bytes → Controller → Option Bytes
unfolding read
read_on w data_ [] position rest c = some []
read_on w data_ ((size, ready) ∷ requests) position rest c =
    let t : Attempt = record { size = size; offset = position; ready = ready; fails = false } in
    let (c', result) = read (piped w t rest) c data_ size position in
    elim (bytes_of result) [
      | none ↦ none
      | some bytes ↦
          Option.map (λ more. bytes ++ more)
            (read_on w data_ requests (position + length bytes) (drop (length bytes) rest) c')
    ]

-- As much as the requests ask for and the pipe has ready.
unfoldable pub asked : List (ℕ × ℕ) → ℕ
asked [] = 0
asked ((size, ready) ∷ requests) = min size ready + asked requests

take-add :
    (m n : ℕ) (xs : Bytes) → take (m + n) xs ≡ take m xs ++ take n (drop (length (take m xs)) xs)
take-add zero n xs = rw (zero-add n) refl
take-add (suc m) zero [] = rw (suc-add m zero) refl
take-add (suc m) (suc n) [] = rw (suc-add m (suc n)) refl
take-add (suc m) n (x ∷ xs) = rw (suc-add m n) (ap (λ ys. x ∷ ys) (take-add m n xs))

-- A client that reads a file without a cache from its current offset on, each time where it has
-- stopped, is never refused, and gets the output in order, without gaps and repetitions, as far as
-- its requests go, if no system call fails and the pipe gives the output in order.
read_on_lem :
    (w : World) (data_ : ℕ) (requests : List (ℕ × ℕ)) (rest : Bytes) (c : Controller)
    (file : FileData)
    → c.files data_ ≡ some file
    → file.cache ≡ none
    → read_on w data_ requests file.current_offset rest c ≡ some (take (asked requests) rest)
unfolding read_on read read_direct checked_system_call asked
read_on_lem w data_ [] rest c file there direct = refl
read_on_lem w data_ ((size, ready) ∷ requests) rest c file there direct =
    let t : Attempt = record {
      size = size;
      offset = file.current_offset;
      ready = ready;
      fails = false;
    } in
    let bytes = take (min size ready) rest in
    let moved = record file { current_offset = file.current_offset + length bytes } in
    let c' = record c { files = update c.files data_ (some moved) } in
    let call : read (piped w t rest) c data_ size file.current_offset
        ≡ (c', ok (returns (pos (length bytes)) bytes)) =
      ground arith in
    let more =
      read_on_lem w data_ requests (drop (length bytes) rest) c' moved (ground arith) direct in
    rw (call, read_on)
      (rw call
        (rw more (ap (λ xs. some xs) (sym (take-add (min size ready) (asked requests) rest)))))
