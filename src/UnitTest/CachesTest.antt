-- ===== src/UnitTest/CachesTest.antt =====
-- UnitTest/CachesTest.cpp. The clock of FakeTimeUtil.hpp goes on by one at each call, and a cache of
-- MockCache.hpp is its id: it is destroyed when no entry holds it, after the test has let go of it.
use pipefs.Common.{
  ℕ, suc, ◌≡◌, refl, Bool, true, false, not, ◌||◌, Option, none, some, List, [], ◌∷◌, ◌==◌,
  if◌then◌else◌, Bytes, codes, bytes_beq, bytes_eq,
}
use pipefs.Common.Dict.{lookup, insert, erase}
use pipefs.Caches.{Caches, get_if_present, get, release, cleanup}
use pipefs.Caches.Sorting.{insertion_sort, insertion_sorter}
use pipefs.UnitTest.{all_hold}

-- `now` is the clock and `max_id` the id of the next cache.
record Fixture : Type 0 where
  caches : Caches
  now : ℕ
  max_id : ℕ

abbrev fixture : Fixture
fixture = record { caches = []; now = 0; max_id = 0 }

-- A new cache takes an id. The results are the id and whether the cache is new.
abbrev gets : Bytes → Fixture → Fixture × ℕ × Bool
gets key s =
    let (caches, id, is_new) = get s.caches key (suc s.now) s.max_id in
    (
      record {
        caches = caches;
        now = suc s.now;
        max_id = if is_new then suc s.max_id else s.max_id;
      },
      id,
      is_new,
    )

abbrev releases : Bytes → Fixture → Fixture
releases key s = elim (release s.caches key (suc s.now)) [
  | none ↦ s
  | some caches ↦ record s { caches = caches; now = suc s.now }
]

-- Every cache has ten bytes.
abbrev cleans : Bool → ℕ → Fixture → Fixture
cleans finished target s = record s {
  caches =
      cleanup (insertion_sorter (λ d. d.last_accessed)) (λ _. 10)
        (record { size = λ _. 10; finished = λ _. finished }) s.caches target;
}

abbrev holds : Caches → ℕ → Bool
holds [] id = false
holds ((_, entry) ∷ rest) id = entry.cache == id || holds rest id

abbrev is_destroyed : Fixture → ℕ → Bool
is_destroyed s id = not (holds s.caches id)

abbrev is_id : Option ℕ → ℕ → Bool
is_id none id = false
is_id (some cache) id = cache == id

abbrev is_nullptr : Option ℕ → Bool
is_nullptr none = true
is_nullptr (some _) = false

abbrev key : Bytes
key = codes "filename"

abbrev key1 : Bytes
key1 = codes "filename1"

abbrev key2 : Bytes
key2 = codes "filename2"

abbrev key3 : Bytes
key3 = codes "filename3"

abbrev get_test : List Bool
get_test =
    let (s1, id1, is_new1) = gets key fixture in
    let (s2, id2, is_new2) = gets key s1 in
    is_new1 ∷ not is_new2 ∷ (id1 == id2) ∷ not (is_destroyed s2 id1) ∷ []

get_test_passes : all_hold get_test ≡ true
unfolding get lookup insert bytes_beq
get_test_passes = refl

abbrev get_different_test : List Bool
get_different_test =
    let (s1, id1, is_new1) = gets key1 fixture in
    let (s2, id2, is_new2) = gets key2 s1 in
    is_new1
    ∷ is_new2
    ∷ not (id1 == id2)
    ∷ not (is_destroyed s2 id1)
    ∷ not (is_destroyed s2 id2)
    ∷ is_id (get_if_present s1.caches key1) id1
    ∷ is_nullptr (get_if_present s1.caches key2)
    ∷ []

get_different_test_passes : all_hold get_different_test ≡ true
unfolding get get_if_present lookup insert bytes_beq
get_different_test_passes = refl

abbrev cleanup_test : List Bool
cleanup_test =
    let (s, id, _) = gets key fixture in
    let (twice, _, _) = gets key s in
    let once = releases key twice in
    not (is_destroyed (releases key s) id)
    ∷ is_destroyed (cleans true 0 (releases key s)) id
    ∷ not (is_destroyed (cleans true 0 s) id)
    ∷ not (is_destroyed (cleans false 0 (releases key s)) id)
    ∷ not (is_destroyed (cleans true 20 (releases key s)) id)
    ∷ not (is_destroyed (cleans true 0 once) id)
    ∷ is_destroyed (cleans true 0 (releases key (cleans true 0 once))) id
    ∷ []

cleanup_test_passes : all_hold cleanup_test ≡ true
unfolding get release cleanup insertion_sort lookup insert erase bytes_beq
cleanup_test_passes = refl

abbrev old_entries_test : List Bool
old_entries_test =
    let (s1, id1, _) = gets key1 fixture in
    let (s2, id2, _) = gets key2 s1 in
    let (s3, id3, _) = gets key3 s2 in
    let cleaned = cleans true 25 (releases key3 (releases key2 (releases key1 s3))) in
    let (t1, id1', is_new1) = gets key1 cleaned in
    let (t2, id2', is_new2) = gets key2 t1 in
    let (t3, id3', is_new3) = gets key3 t2 in
    is_new1 ∷ not (id1' == id1) ∷ not is_new2 ∷ (id2' == id2) ∷ not is_new3 ∷ (id3' == id3) ∷ []

old_entries_test_passes : all_hold old_entries_test ≡ true
unfolding get release cleanup insertion_sort lookup insert erase bytes_beq
old_entries_test_passes = refl
