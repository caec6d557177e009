-- ===== src/Caches.antt =====
-- src/controller/BasicCaches.hpp: the caches of the translated files by name, with the number of
-- their users, and the removal of unused ones. The template's `Cache` is known here by its address,
-- a number, and by what `getSize` and `isFinished` answer for it; the time is an argument.
pub mod Sorting
pub mod Users
pub mod Usage
pub mod Sweep
pub mod Cleanup
pub mod Tests
use pipefs.Common.{
  ℕ, ◌+◌, ◌-◌, ◌%◌, ◌^◌, Bool, true, false, ◌&&◌, Option, none, some, List, [], ◌∷◌, ltb, ◌==◌,
  if◌then◌else◌, Bytes, bytes_eq,
}
use pipefs.Common.Dict.{Dict, lookup, insert, erase}
use Sorting.{Sorter}

pub record CacheData : Type 0 where
  pub cache : ℕ
  pub last_accessed : ℕ
  pub usage_count : ℕ

-- The member `caches`; the mutex makes each method below one step.
abbrev pub Caches : Type 0
Caches = Dict Bytes CacheData

unfoldable pub get_if_present : Caches → Bytes → Option ℕ
get_if_present caches key = elim (lookup key caches) [ none ↦ none | some data_ ↦ some data_.cache ]

-- `fresh` is the address of the `Cache` that the new `CacheData` makes.
unfoldable pub add : Caches → Bytes → ℕ → ℕ → Caches × CacheData
add caches key now fresh =
    let entry : CacheData = record { cache = fresh; last_accessed = now; usage_count = 1 } in
    (insert key entry caches, entry)

-- The cache of the file, and whether it is new. `++usageCount` wraps as an `unsigned` does.
unfoldable pub get : Caches → Bytes → ℕ → ℕ → Caches × ℕ × Bool
unfolding add
get caches key now fresh = elim (lookup key caches) [
  | none ↦ let (caches', entry) = add caches key now fresh in (caches', entry.cache, true)
  | some entry ↦ (
    insert key
        (record entry { last_accessed = now; usage_count = (entry.usage_count + 1) % 2 ^ 32 })
        caches,
    entry.cache,
    false,
  )
]

-- `none` is a failure of the assertion that the file has a user.
unfoldable pub release : Caches → Bytes → ℕ → Option Caches
release caches key now = elim (lookup key caches) [
  | none ↦ some caches
  | some entry ↦
      if entry.usage_count == 0
      then none
      else some (
          insert key (record entry { last_accessed = now; usage_count = entry.usage_count - 1 })
            caches)
]

-- What the caches answer at a time, by address.
pub record View : Type 0 where
  pub size : ℕ → ℕ
  pub finished : ℕ → Bool

-- The first loop of `cleanup`.
pub sum_sizes : (ℕ → ℕ) → ℕ → Caches → ℕ
sum_sizes size total [] = total
sum_sizes size total ((_, entry) ∷ rest) = sum_sizes size ((total + size entry.cache) % 2 ^ 64) rest

abbrev pub evictable : View → CacheData → Bool
evictable view entry = view.finished entry.cache && entry.usage_count == 0

-- `totalSize -= getSize()` wraps as a `size_t` does.
abbrev pub reduced : View → ℕ → CacheData → ℕ
reduced view total entry = (total + 2 ^ 64 - view.size entry.cache % 2 ^ 64) % 2 ^ 64

-- The loop over the sorted elements.
pub sweep : View → ℕ → ℕ → Caches → Caches → Caches
sweep view target total [] caches = caches
sweep view target total ((key, entry) ∷ rest) caches =
    let gone = evictable view entry in
    let total' = if gone then reduced view total entry else total in
    let caches' = if gone then erase key caches else caches in
    let more = sweep view target total' rest caches' in if ltb total' target then caches' else more

-- `std::sort` is a parameter. Other threads write to the caches meanwhile, so the sizes of the sum
-- are read at another time than those of the sweep.
unfoldable pub cleanup :
    Sorter Bytes CacheData (λ d. d.last_accessed) → (ℕ → ℕ) → View → Caches → ℕ → Caches
unfolding sum_sizes sweep
cleanup sorter sizes view caches target =
    let total = sum_sizes sizes 0 caches in
    if ltb target total then sweep view target total (sorter.sort caches) caches else caches
