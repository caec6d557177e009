-- ===== src/Caches/Cleanup.antt =====
-- BasicCaches.hpp, `cleanup` as a whole.
use mathlib.Core.List.Perm
use native.Mathlib.Nat.{ℕ_set}
use pipefs.Common.{
  ℕ, ◌+◌, ◌%◌, ◌^◌, ◌≤◌, ◌<◌, ◌≡◌, refl, sym, ◌∙◌, ◌⊎◌, inl, inr, true, false, Bool-cases, none,
  some, [], ◌∷◌, arith, ltb, ltb→lt, Bytes, bytes_beq_iff, bytes_eq,
}
use pipefs.Common.Dict.{lookup, erase, NodupKeys, erase-NodupKeys}
use pipefs.Caches.{CacheData, Caches, View, evictable, reduced, sum_sizes, sweep, cleanup}
use pipefs.Caches.Sorting.{Sorter, Same, Perm-Same}
use pipefs.Caches.Sweep.{
  Within, Listed, Listed-skip, Listed-erase, Within-skip, Within-erase, sweep_cases,
  sweep-NodupKeys, sweep-Kept, sweep-Oldest,
}

-- The space that the caches take.
unfoldable pub total_size : (ℕ → ℕ) → Caches → ℕ
total_size size [] = 0
total_size size ((_, entry) ∷ rest) = size entry.cache + total_size size rest

sum_sizes-total_size :
    (size : ℕ → ℕ) (n : ℕ) (caches : Caches)
    → n + total_size size caches < 2 ^ 64
    → sum_sizes size n caches ≡ n + total_size size caches
unfolding sum_sizes total_size
sum_sizes-total_size size n [] h = omega arith
sum_sizes-total_size size n ((_, entry) ∷ rest) h =
    let e : (n + size entry.cache) % 2 ^ 64 ≡ n + size entry.cache = omega arith in
    rw e (omega (arith, sum_sizes-total_size size (n + size entry.cache) rest))

summed :
    (size : ℕ → ℕ) (caches : Caches)
    → total_size size caches < 2 ^ 64
    → sum_sizes size 0 caches ≡ total_size size caches
summed size caches h = omega (arith, sum_sizes-total_size size 0 caches)

total_size-erase :
    (size : ℕ → ℕ) (key : Bytes) (entry : CacheData) (caches : Caches)
    → lookup key caches ≡ some entry
    → total_size size (erase key caches) + size entry.cache ≡ total_size size caches
unfolding total_size lookup erase
total_size-erase size key entry [] e = cc
total_size-erase size key entry ((k, d) ∷ rest) e =
    ground (arith, total_size-erase size key entry rest)

module _ (view : View) (target : ℕ) where
  abbrev NothingLeft : Caches → Type 0
  NothingLeft caches =
      (k : Bytes) (d : CacheData) → lookup k caches ≡ some d → evictable view d ≡ false

  sweep-enough :
      (total : ℕ) (es caches : Caches)
      → NodupKeys caches
      → NodupKeys es
      → Within es caches
      → Listed view es caches
      → total ≡ total_size view.size caches
      → total < 2 ^ 64
      → (total_size view.size (sweep view target total es caches) < target)
        ⊎ NothingLeft (sweep view target total es caches)
  unfolding sweep lookup
  sweep-enough total [] caches u v w l e fits = inr λ k d found. ground (arith, l k d found)
  sweep-enough total ((key, entry) ∷ rest) caches u v w l e fits =
      let here : lookup key caches ≡ some entry =
        w key entry (rw ((bytes_beq_iff key key).1 refl, lookup) refl) in
      let left = total_size-erase view.size key entry caches here in
      let less : reduced view total entry ≡ total_size view.size (erase key caches) =
        omega (arith, left) in
      let u' = erase-NodupKeys key caches u in
      sweep_cases view target (λ r. (total_size view.size r < target) ⊎ NothingLeft r) total key
        entry rest caches
        (λ ev stop. inl (omega (arith, ltb→lt (reduced view total entry) target stop)))
        (λ ev.
          sweep-enough (reduced view total entry) rest (erase key caches) u' v.1
            (Within-erase view target key entry rest caches u v.0 w)
            (Listed-erase view target key entry rest caches u v.0 l) less (omega arith))
        (λ no_ev stop. inl (omega (arith, ltb→lt total target stop)))
        (λ no_ev.
          sweep-enough total rest caches u v.1
            (Within-skip view target key entry rest caches u v.0 w)
            (Listed-skip view target key entry rest caches u v.0 no_ev l) e fits)

CacheData-set : IsSet CacheData
CacheData-set = hlevel ℕ_set

module _ (sorter : Sorter Bytes CacheData (λ d. d.last_accessed)) (view : View) (caches : Caches)
    (target : ℕ) (u : NodupKeys caches) where
  sorted-Same : Same caches (sorter.sort caches)
  sorted-Same = Perm-Same CacheData-set (Perm.symm (sorter.sort-perm caches)) u

  swept :
      (sizes : ℕ → ℕ)
      → ltb target (sum_sizes sizes 0 caches) ≡ true
      → cleanup sorter sizes view caches target
        ≡ sweep view target (sum_sizes sizes 0 caches) (sorter.sort caches) caches
  unfolding cleanup
  swept sizes over = rw over

  unswept :
      (sizes : ℕ → ℕ)
      → ltb target (sum_sizes sizes 0 caches) ≡ false
      → cleanup sorter sizes view caches target ≡ caches
  unfolding cleanup
  unswept sizes small = rw small

  swept_oldest :
      (total : ℕ) (k k' : Bytes) (d d' : CacheData)
      → let r = sweep view target total (sorter.sort caches) caches in
        lookup k caches ≡ some d
        → lookup k r ≡ none
        → lookup k' r ≡ some d'
        → evictable view d' ≡ true
        → d.last_accessed ≤ d'.last_accessed
  swept_oldest total k k' d d' e gone stays ev =
      sweep-Oldest view target total (sorter.sort caches) caches u sorted-Same.0
        (sorter.sort-IsSorted caches) (λ j c e'. sym (sorted-Same.1 j) ∙ e') k k' d d'
        (sorted-Same.1 k ∙ e) gone (sorted-Same.1 k' ∙ there) ev stays
    where
      there : lookup k' caches ≡ some d'
      there = elim (sweep-Kept view target total (sorter.sort caches) caches k' u sorted-Same.0) [
        | inl same ↦ sym same ∙ stays
        | inr (c, _, _, gone') ↦ absurd (ground arith)
      ]

  pub cleanup-NodupKeys : (sizes : ℕ → ℕ) → NodupKeys (cleanup sorter sizes view caches target)
  unfolding cleanup
  cleanup-NodupKeys sizes = elim (Bool-cases (ltb target (sum_sizes sizes 0 caches))) [
    | inl over ↦ rw over (sweep-NodupKeys view target _ (sorter.sort caches) caches u)
    | inr fits ↦ rw fits u
  ]

  -- Whatever the sizes were when they were summed, `cleanup` leaves each entry untouched or removes
  -- it, and it removes only entries of finished caches that nobody uses.
  pub cleanup-Kept :
      (sizes : ℕ → ℕ) (k : Bytes)
      → let r = cleanup sorter sizes view caches target in
        (lookup k r ≡ lookup k caches)
        ⊎ ((d : CacheData) × (lookup k caches ≡ some d)
            × (view.finished d.cache ≡ true)
            × (d.usage_count ≡ 0)
            × (lookup k r ≡ none))
  unfolding cleanup
  cleanup-Kept sizes k = elim (Bool-cases (ltb target (sum_sizes sizes 0 caches))) [
    | inr fits ↦ rw fits (inl refl)
    | inl over ↦
        rw over
          (elim (sweep-Kept view target (sum_sizes sizes 0 caches) (sorter.sort caches) caches k u
            sorted-Same.0) [
              | inl same ↦ inl same
              | inr (d, listed, ev, gone) ↦
                  inr (d, sym (sorted-Same.1 k) ∙ listed, ground arith, ground arith, gone)
            ])
  ]

  -- Removal goes by age: an entry that is removed was last used no later than any entry that stays
  -- although it might have been removed.
  pub cleanup_oldest_first :
      (sizes : ℕ → ℕ) (k k' : Bytes) (d d' : CacheData)
      → let r = cleanup sorter sizes view caches target in
        lookup k caches ≡ some d
        → lookup k r ≡ none
        → lookup k' r ≡ some d'
        → view.finished d'.cache ≡ true
        → d'.usage_count ≡ 0
        → d.last_accessed ≤ d'.last_accessed
  unfolding cleanup
  cleanup_oldest_first sizes k k' d d' e gone stays f z =
      elim (Bool-cases (ltb target (sum_sizes sizes 0 caches))) [
        | inl over ↦
            swept_oldest (sum_sizes sizes 0 caches) k k' d d' e (rw (← swept sizes over) gone)
              (rw (← swept sizes over) stays) (ground arith)
        | inr small ↦ absurd (ground (arith, unswept sizes small))
      ]

  -- After `cleanup`, with the sizes unchanged meanwhile and a total below 2 ^ 64, the caches take at
  -- most the target, or every cache that is left is in use or unfinished.
  pub cleanup_enough :
      total_size view.size caches < 2 ^ 64
      → let r = cleanup sorter view.size view caches target in
        (total_size view.size r ≤ target)
        ⊎ ((k : Bytes) (d : CacheData)
            → lookup k r ≡ some d
            → (view.finished d.cache ≡ false) ⊎ (0 < d.usage_count))
  unfolding cleanup
  cleanup_enough fits = elim (Bool-cases (ltb target (sum_sizes view.size 0 caches))) [
    | inr small ↦ rw (unswept view.size small) (inl (ground (arith, summed view.size caches fits)))
    | inl over ↦ rw (swept view.size over) (elim swept_enough [
      | inl less ↦ inl (omega arith)
      | inr left ↦ inr (λ k d e. ground (arith, left k d e))
    ])
  ]
    where
      summed_here : sum_sizes view.size 0 caches ≡ total_size view.size caches
      summed_here = summed view.size caches fits

      swept_enough :
          (total_size view.size
              (sweep view target (sum_sizes view.size 0 caches) (sorter.sort caches) caches)
            < target)
          ⊎ NothingLeft view target
              (sweep view target (sum_sizes view.size 0 caches) (sorter.sort caches) caches)
      swept_enough =
          sweep-enough view target (sum_sizes view.size 0 caches) (sorter.sort caches) caches u
            sorted-Same.0 (λ k d e. sym (sorted-Same.1 k) ∙ e) (λ k d e _. sorted-Same.1 k ∙ e)
            summed_here (rw summed_here fits)
