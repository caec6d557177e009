-- ===== src/UnitTest/CacheTest.antt =====
-- UnitTest/CacheTest.cpp.
use pipefs.Common.{
  ℕ, ◌≡◌, refl, Bool, true, false, ◌&&◌, List, [], ◌∷◌, ◌++◌, ◌==◌, length, take, drop, Bytes,
  codes, bytes_beq,
}
use pipefs.Common.Int.{pos, int_beq}
use pipefs.Cache.{Cache, ReadResult, empty, write, read, get_size, blocks, returns}
use pipefs.UnitTest.{all_hold}

abbrev buffer_size : ℕ
buffer_size = 1000

abbrev part1 : Bytes
part1 = codes "this is part1"

abbrev part2 : Bytes
part2 = codes "another part of the string"

abbrev text : Bytes
text = codes "this is a text"

-- The checks of the result and of the buffer.
abbrev reads : ReadResult → Bytes → Bool
reads blocks expected = false
reads (returns result bytes) expected =
    int_beq result (pos (length expected)) && bytes_beq bytes expected

abbrev written : Bytes → Cache
written bytes = write empty bytes (length bytes)

abbrev cache_test : List Bool
cache_test =
    (get_size (written text) == length text)
    ∷ reads (read (written text) buffer_size 0) text
    ∷ (get_size (written (part1 ++ part2)) == length (part1 ++ part2))
    ∷ reads (read (written (part1 ++ part2)) buffer_size (length part1)) part2
    ∷ reads (read (written text) 3 0) (take 3 text)
    ∷ reads (read (written text) 3 4) (take 3 (drop 4 text))
    ∷ []

cache_test_passes : all_hold cache_test ≡ true
unfolding read write get_size bytes_beq
cache_test_passes = refl

abbrev written_twice : Cache
written_twice = write (written part1) part2 (length part2)

abbrev multiple_writes : List Bool
multiple_writes =
    (get_size written_twice == length (part1 ++ part2))
    ∷ reads (read written_twice buffer_size 0) (part1 ++ part2)
    ∷ []

multiple_writes_pass : all_hold multiple_writes ≡ true
unfolding read write get_size bytes_beq
multiple_writes_pass = refl
