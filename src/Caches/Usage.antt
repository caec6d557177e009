-- ===== src/Caches/Usage.antt =====
-- BasicCaches.hpp as a table of users: the counts that `get`, `release` and `cleanup` keep are those
-- of a table with a number for each name, and the cache of a name stays the same while it is used.
use mathlib.Core.Option.{some-injective}
use pipefs.Common.{
  ap, ℕ, ◌+◌, ◌-◌, ◌^◌, ◌<◌, ◌≡◌, refl, ◌∙◌, inl, inr, Bool-cases, Option, none, some, Option-cases,
  List, [], ◌∷◌, arith, ltb, if◌then◌else◌, Bytes, bytes_beq, bytes_eq,
}
use pipefs.Common.Dict.{NodupKeys}
use pipefs.Caches.{CacheData, Caches, View, get_if_present, get, release, cleanup}
use pipefs.Caches.Sorting.{Sorter}
use pipefs.Caches.Cleanup.{cleanup-NodupKeys, cleanup-Kept}
use pipefs.Caches.Users.{
  users, get-users, release-users, get-get_if_present, release-get_if_present, get-NodupKeys,
  release-NodupKeys,
}

-- The calls of the controller, each with the time, the address of a new cache or what the caches
-- answer.
pub data Call : Type 0 where
  gets : Bytes → ℕ → ℕ → Call
  releases : Bytes → ℕ → Call
  cleans : (ℕ → ℕ) → View → ℕ → Call

-- The table of users that the calls stand for. `none`: a name is released that has no user, or
-- has 2 ^ 32 - 1 users and gets one more.
unfoldable pub spec_step : (Bytes → ℕ) → Call → Option (Bytes → ℕ)
spec_step table (gets key _ _) =
    if ltb (table key) (2 ^ 32 - 1)
    then some (λ k. if bytes_beq key k then table k + 1 else table k)
    else none
spec_step table (releases key _) =
    if ltb 0 (table key) then some (λ k. if bytes_beq key k then table k - 1 else table k) else none
spec_step table (cleans _ _ _) = some table

unfoldable pub spec_run : (Bytes → ℕ) → List Call → Option (Bytes → ℕ)
spec_run table [] = some table
spec_run table (call ∷ calls) = elim (spec_step table call) [
  | none ↦ none
  | some after ↦ spec_run after calls
]

pub record Refines (caches : Caches) (table : Bytes → ℕ) : Type 0 where
  pub unique : NodupKeys caches
  pub counted : (k : Bytes) → users caches k ≡ table k

module _ (sorter : Sorter Bytes CacheData (λ d. d.last_accessed)) where
  pub cleanup-users :
      (sizes : ℕ → ℕ) (view : View) (caches : Caches) (target : ℕ) (k : Bytes)
      → NodupKeys caches
      → users (cleanup sorter sizes view caches target) k ≡ users caches k
  unfolding users
  cleanup-users sizes view caches target k u =
      ground (arith, cleanup-Kept sorter view caches target u sizes k)

  pub cleanup-get_if_present :
      (sizes : ℕ → ℕ) (view : View) (caches : Caches) (target : ℕ) (k : Bytes)
      → NodupKeys caches
      → 0 < users caches k
      → get_if_present (cleanup sorter sizes view caches target) k ≡ get_if_present caches k
  unfolding users get_if_present
  cleanup-get_if_present sizes view caches target k u used =
      ground (arith, cleanup-Kept sorter view caches target u sizes k)

  unfoldable pub step : Caches → Call → Option Caches
  step caches (gets key now fresh) = some (get caches key now fresh).0
  step caches (releases key now) = release caches key now
  step caches (cleans sizes view target) = some (cleanup sorter sizes view caches target)

  unfoldable pub run : Caches → List Call → Option Caches
  run caches [] = some caches
  run caches (call ∷ calls) = elim (step caches call) [ none ↦ none | some after ↦ run after calls ]

  step-Refines :
      (call : Call) (caches : Caches) (table after : Bytes → ℕ)
      → Refines caches table
      → spec_step table call ≡ some after
      → (caches' : Caches) × (step caches call ≡ some caches') × Refines caches' after
  unfolding step spec_step
  step-Refines (gets key now fresh) caches table after r e =
      elim (Bool-cases (ltb (table key) (2 ^ 32 - 1))) [
        | inr many ↦ absurd (ground arith)
        | inl few ↦
            let more = λ (k : Bytes). if bytes_beq key k then table k + 1 else table k in
            let same : some more ≡ some after = ground arith in
            (
              (get caches key now fresh).0,
              refl,
              record {
                unique = get-NodupKeys caches key now fresh r.unique;
                counted = λ k. ground (
                  arith,
                  get-users caches key now fresh k,
                  r.counted key,
                  r.counted k,
                  ap (λ (t : Bytes → ℕ). t k) (some-injective more after same),
                );
              },
            )
      ]
  step-Refines (releases key now) caches table after r e = elim (Bool-cases (ltb 0 (table key))) [
    | inr unused ↦ absurd (ground arith)
    | inl used ↦
        let fewer = λ (k : Bytes). if bytes_beq key k then table k - 1 else table k in
        let same : some fewer ≡ some after = ground arith in
        let (caches', done, counts, _) =
          release-users caches key now (ground (arith, r.counted key)) in
        (
          caches',
          done,
          record {
            unique = release-NodupKeys caches caches' key now r.unique done;
            counted = λ k. ground (
              arith,
              counts k,
              r.counted k,
              ap (λ (t : Bytes → ℕ). t k) (some-injective fewer after same),
            );
          },
        )
  ]
  step-Refines (cleans sizes view target) caches table after r e = (
    cleanup sorter sizes view caches target,
    refl,
    record {
      unique = cleanup-NodupKeys sorter view caches target r.unique sizes;
      counted = λ k.
          cleanup-users sizes view caches target k r.unique
          ∙ r.counted k
          ∙ ap (λ (t : Bytes → ℕ). t k) (some-injective table after e);
    },
  )

  -- A history of calls that releases a name only while it has a user, and gives it fewer than
  -- 2 ^ 32 of them, runs without a failed assertion and keeps the users of every name as the table
  -- does.
  pub run-Refines :
      (calls : List Call) (caches : Caches) (table after : Bytes → ℕ)
      → Refines caches table
      → spec_run table calls ≡ some after
      → (caches' : Caches) × (run caches calls ≡ some caches') × Refines caches' after
  unfolding run spec_run
  run-Refines [] caches table after r e = (
    caches,
    refl,
    record {
      unique = r.unique;
      counted = λ k. r.counted k ∙ ap (λ (t : Bytes → ℕ). t k) (some-injective table after e);
    },
  )
  run-Refines (call ∷ calls) caches table after r e = elim (Option-cases (spec_step table call)) [
    | inl bad ↦ absurd (ground arith)
    | inr (table', good) ↦
        let (caches', stepped, r') = step-Refines call caches table table' r good in
        let (caches'', ran, r'') =
          run-Refines calls caches' table' after r' (rw (good, spec_run) at e) in
        (caches'', ground arith, r'')
  ]

  -- No call that succeeds changes the cache of a name that has a user: not a `get` or `release` of
  -- this or another name, and not `cleanup`, whatever the caches answer.
  pub step-get_if_present :
      (call : Call) (caches after : Caches) (k : Bytes)
      → NodupKeys caches
      → step caches call ≡ some after
      → 0 < users caches k
      → get_if_present after k ≡ get_if_present caches k
  unfolding step
  step-get_if_present (gets key now fresh) caches after k u e used =
      rw (← some-injective _ after e) (get-get_if_present caches key now fresh k used)
  step-get_if_present (releases key now) caches after k u e used =
      release-get_if_present caches after key now k e
  step-get_if_present (cleans sizes view target) caches after k u e used =
      rw (← some-injective _ after e) (cleanup-get_if_present sizes view caches target k u used)
