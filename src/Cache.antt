-- ===== src/Cache.antt =====
-- src/controller/Cache.cpp: the bytes that a command has written so far, and whether it has
-- written all. Each method is one critical section under the mutex; `Monitor` has the threads that
-- wait on the condition variable.
pub mod Reading
pub mod Monitor
pub mod Tests
use pipefs.Common.{
  ℕ, zero, suc, ◌+◌, ◌-◌, min, Bool, true, false, not, ◌&&◌, List, [], ◌∷◌, ◌++◌, leb,
  if◌then◌else◌, length, take, drop, Bytes,
}
use pipefs.Common.Int.{ℤ, pos, int_of_size}

-- `contents` is the member `data`.
pub record Cache : Type 0 where
  pub contents : Bytes
  pub finished : Bool

abbrev pub empty : Cache
empty = record { contents = []; finished = false }

-- `vector::resize`: bytes are cut off, or null bytes added.
pub resize : ℕ → Bytes → Bytes
resize zero _ = []
resize (suc n) [] = 0 ∷ resize n []
resize (suc n) (b ∷ bs) = b ∷ resize n bs

-- `memmove(&to[position], from, n)` with the bytes that `from` holds
pub memmove : Bytes → ℕ → Bytes → Bytes
memmove to position from = take position to ++ (from ++ drop (position + length from) to)

-- `length` bytes are read from the buffer.
unfoldable pub write : Cache → Bytes → ℕ → Cache
unfolding resize memmove
write c buf length_ =
    let position = length c.contents in
    record c {
      contents = memmove (resize (position + length_) c.contents) position (take length_ buf);
    }

-- A call of `read` on a state of the cache: it waits, or returns a number beside the bytes that it
-- has put into the caller's buffer.
pub data ReadResult : Type 0 where
  blocks : ReadResult
  returns : ℤ → Bytes → ReadResult

unfoldable pub read : Cache → ℕ → ℕ → ReadResult
unfolding int_of_size
read c length_ position =
    let size = length c.contents in
    if not c.finished && leb size position
    then blocks
    else if c.finished && leb size position
    then returns (pos 0) []
    else (let result = min length_ (size - position) in
        returns (int_of_size result) (take result (drop position c.contents)))

unfoldable pub finish : Cache → Cache
finish c = record c { finished = true }

unfoldable pub is_finished : Cache → Bool
is_finished c = c.finished

unfoldable pub get_size : Cache → ℕ
get_size c = length c.contents
