-- ===== src/Caches/Tests.antt =====
-- BasicCaches.hpp: runs, and the theorems at concrete inputs. They take the insertion sort for
-- `std::sort`.
use pipefs.Common.{
  ℕ, ◌+◌, ◌-◌, ◌≤◌, ◌<◌, ◌≡◌, refl, ◌⊎◌, true, false, none, some, List, [], ◌∷◌, arith, Bytes,
  codes, bytes_beq, bytes_eq, if◌then◌else◌,
}
use pipefs.Common.Dict.{lookup, erase, NodupKeys}
use pipefs.Caches.{CacheData, Caches, View, get_if_present, cleanup}
use pipefs.Caches.Sorting.{Sorter, insertion_sort, insertion_sorter}
use pipefs.Caches.Cleanup.{total_size, cleanup-Kept, cleanup_oldest_first, cleanup_enough}
use pipefs.Caches.Users.{users}
use pipefs.Caches.Usage.{
  Call, gets, releases, cleans, step, run, spec_step, spec_run, Refines, run-Refines,
  step-get_if_present,
}

abbrev sorter : Sorter Bytes CacheData (λ d. d.last_accessed)
sorter = insertion_sorter (λ d. d.last_accessed)

abbrev old_entry : CacheData
old_entry = record { cache = 1; last_accessed = 3; usage_count = 0 }

abbrev new_entry : CacheData
new_entry = record { cache = 2; last_accessed = 5; usage_count = 0 }

abbrev used_entry : CacheData
used_entry = record { cache = 3; last_accessed = 1; usage_count = 2 }

-- Each cache holds ten bytes and is finished.
abbrev tens : View
tens = record { size = λ _. 10; finished = λ _. true }

abbrev three : Caches
three = (codes "b", new_entry) ∷ (codes "c", used_entry) ∷ (codes "a", old_entry) ∷ []

three_unique : NodupKeys three
unfolding lookup bytes_beq
three_unique = (refl, (refl, (refl, tt)))

-- `cleanup_cleans_up_old_entries_until_necessary`
cleans_oldest :
    cleanup sorter tens.size tens three 25 ≡ (codes "b", new_entry) ∷ (codes "c", used_entry) ∷ []
unfolding cleanup insertion_sort erase bytes_beq
cleans_oldest = refl

oldest_gone : lookup (codes "a") (cleanup sorter tens.size tens three 25) ≡ none
unfolding cleanup insertion_sort erase bytes_beq lookup
oldest_gone = refl

newest_stays : lookup (codes "b") (cleanup sorter tens.size tens three 25) ≡ some new_entry
unfolding cleanup insertion_sort erase bytes_beq lookup
newest_stays = refl

oldest_there : lookup (codes "a") three ≡ some old_entry
unfolding bytes_beq lookup
oldest_there = refl

cleanup-Kept_example :
    let r = cleanup sorter tens.size tens three 25 in
    (lookup (codes "a") r ≡ lookup (codes "a") three)
    ⊎ ((d : CacheData) × (lookup (codes "a") three ≡ some d)
        × (tens.finished d.cache ≡ true)
        × (d.usage_count ≡ 0)
        × (lookup (codes "a") r ≡ none))
cleanup-Kept_example = cleanup-Kept sorter tens three 25 three_unique tens.size (codes "a")

cleanup_oldest_first_example : 3 ≤ 5
cleanup_oldest_first_example =
    cleanup_oldest_first sorter tens three 25 three_unique tens.size (codes "a") (codes "b")
      old_entry new_entry oldest_there oldest_gone newest_stays refl refl

cleanup_enough_example :
    let r = cleanup sorter tens.size tens three 25 in
    (total_size tens.size r ≤ 25)
    ⊎ ((k : Bytes) (d : CacheData)
        → lookup k r ≡ some d
        → (tens.finished d.cache ≡ false) ⊎ (0 < d.usage_count))
unfolding total_size
cleanup_enough_example = cleanup_enough sorter tens three 25 three_unique (omega arith)

abbrev two : Caches
two = (codes "a", old_entry) ∷ (codes "b", new_entry) ∷ []

two_unique : NodupKeys two
unfolding lookup bytes_beq
two_unique = (refl, (refl, tt))

abbrev history : List Call
history =
    gets (codes "x") 1 1
    ∷ gets (codes "x") 2 2
    ∷ releases (codes "x") 3
    ∷ cleans tens.size tens 5
    ∷ []

abbrev nobody : Bytes → ℕ
nobody _ = 0

abbrev one_more : (Bytes → ℕ) → Bytes → ℕ
one_more table k = if bytes_beq (codes "x") k then table k + 1 else table k

abbrev one_less : (Bytes → ℕ) → Bytes → ℕ
one_less table k = if bytes_beq (codes "x") k then table k - 1 else table k

-- The table after the history.
abbrev one_user : Bytes → ℕ
one_user = one_less (one_more (one_more nobody))

nothing-Refines : Refines [] nobody
unfolding users lookup
nothing-Refines = record { unique = tt; counted = λ _. refl }

run-Refines_example :
    (after : Caches) × (run sorter [] history ≡ some after) × Refines after one_user
unfolding spec_run spec_step bytes_beq
run-Refines_example = run-Refines sorter history [] nobody one_user nothing-Refines refl

step-get_if_present_example :
    get_if_present (cleanup sorter tens.size tens three 25) (codes "c")
    ≡ get_if_present three (codes "c")
unfolding step users lookup bytes_beq
step-get_if_present_example =
    step-get_if_present sorter (cleans tens.size tens 25) three _ (codes "c") three_unique refl
      (omega arith)
