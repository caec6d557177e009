-- ===== src/Controller/Release.antt =====
-- Controller.cpp with caching: a release of an open file succeeds, and keeps the users of the caches
-- in step with the files that stay open.
use pipefs.Common.{
  ℕ, ◌-◌, ◌≤◌, ◌<◌, ◌≡◌, refl, ◌∙◌, Bool, true, false, Option, none, some, arith, if◌then◌else◌,
  update, Bytes, bytes_beq, bytes_eq, ltb,
}
use pipefs.Common.Dict.{NodupKeys}
use pipefs.SystemError.{ok}
use pipefs.Caches.{View, CacheData, get_if_present, get, cleanup}
use pipefs.Caches
use pipefs.Caches.Sorting.{Sorter}
use pipefs.Caches.Cleanup.{cleanup-NodupKeys}
use pipefs.Caches.Users.{users, release-users, release-NodupKeys}
use pipefs.Caches.Usage.{cleanup-users, cleanup-get_if_present}
use pipefs.Controller.{Controller, World}
use pipefs.Controller.Access.{release, release_cached, view}
use pipefs.Controller.Session.{Session, opened_as}
use pipefs.Controller.Users.{IsServed, opened_as-update-none, opened_as-positive, open-used}

module _ (sorter : Sorter Bytes CacheData (λ d. d.last_accessed)) where
  -- The caches after `release`, with or without a limit.
  unfoldable swept_if : Bool → View → Caches.Caches → ℕ → Caches.Caches
  swept_if limited view caches target =
      if limited then cleanup sorter view.size view caches target else caches

  swept_if-users :
      (limited : Bool) (view : View) (caches : Caches.Caches) (target : ℕ)
      → NodupKeys caches
      → let left = swept_if limited view caches target in
        NodupKeys left
        × ((k : Bytes) → users left k ≡ users caches k)
        × ((k : Bytes) → 0 < users caches k → get_if_present left k ≡ get_if_present caches k)
  unfolding swept_if
  swept_if-users false view caches target u = (u, λ k. refl, λ k _. refl)
  swept_if-users true view caches target u = (
    cleanup-NodupKeys sorter view caches target u view.size,
    λ k. cleanup-users sorter view.size view caches target k u,
    λ k used. cleanup-get_if_present sorter view.size view caches target k u used,
  )

  module _ (w : World) (c : Controller) (names : ℕ → Option Bytes) (a : ℕ) (name : Bytes)
      (v : IsServed (record { controller = c; names = names })) (e : names a ≡ some name) where
    -- The state after a release, with the caches that `release` or `cleanup` leave.
    released_to : Caches.Caches → Session
    released_to caches = record {
      controller = record c { files = update c.files a none; caches = caches };
      names = update names a none;
    }

    released_to-IsServed :
        (caches : Caches.Caches)
        → NodupKeys caches
        → ((k : Bytes)
            → users caches k
              ≡ (if bytes_beq name k then users c.caches k - 1 else users c.caches k))
        → ((k : Bytes) → 0 < users caches k → get_if_present caches k ≡ get_if_present c.caches k)
        → IsServed (released_to caches)
    unfolding released_to
    released_to-IsServed caches u counts stays = record {
      caching = v.caching;
      unique = u;
      counted = counted';
      above = λ b h. ground (arith, v.above b h);
      served = λ b k named.
          let still : names b ≡ some k = ground arith in
          let (file, there, cache, its, present) = v.served b k still in
          let below : b < c.next_file = (open-used b k v still).0 in
          let used = opened_as-positive k c.next_file b (update names a none) below named in
          (file, ground arith, cache, its, stays k (omega (arith, counted' k, used)) ∙ present);
    }
      where
        counted' : (k : Bytes) → opened_as k c.next_file (update names a none) ≤ users caches k
        counted' k = ground (
          arith,
          v.counted k,
          counts k,
          opened_as-update-none k name c.next_file a names (open-used a name v e).0 e,
        )

    pub release-IsServed :
        ((release sorter w c name a).1 ≡ ok tt)
        × IsServed
            (record { controller = (release sorter w c name a).0; names = update names a none })
    unfolding release release_cached released_to swept_if
    release-IsServed =
        let (file, there, _, _, _) = v.served a name e in
        let (after, done, counts, stays) =
          release-users c.caches name w.now (open-used a name v e).1 in
        let u = release-NodupKeys c.caches after name w.now v.unique done in
        let c' = record c { files = update c.files a none } in
        let (u', kept, same) = swept_if-users (ltb 0 c.cache_size) (view c') after c.cache_size u in
        let first : release sorter w c name a ≡ release_cached sorter w c' name = ground arith in
        let second : release_cached sorter w c' name ≡ (
          record c' { caches = swept_if (ltb 0 c.cache_size) (view c') after c.cache_size },
          ok tt,
        ) =
          ground arith in
        rw (first ∙ second) (
          refl,
          released_to-IsServed _ u' (λ k. kept k ∙ counts k)
              (λ k used. same k (rw (← kept k) used) ∙ stays k),
        )
