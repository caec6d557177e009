-- ===== src/Controller/Invariant.antt =====
-- Controller.cpp with caching, in every state that a session reaches.
use pipefs.Common.{ℕ, ◌≡◌, refl, sym, ap, ◌∙◌, subst, inl, inr, none, some, arith, update, Bytes}
use pipefs.SystemError.{ok}
use pipefs.Cache
use pipefs.Caches.{CacheData, get_if_present}
use pipefs.Caches.Sorting.{Sorter}
use pipefs.Controller.{World}
use pipefs.Controller.Access.{read, release}
use pipefs.Controller.Session.{
  Session, Step, opens, fails_to_open, preloads, reads, releases, completes, runs, Reach, start,
  next, opened_as,
}
use pipefs.Controller.Users.{IsServed, Keeps, Keeps-fields, Keeps-IsServed, gotten, gotten-IsServed}
use pipefs.Controller.Frames.{run_posted-Keeps}
use pipefs.Controller.Served.{
  Opened, open_file_cached, Opened-IsServed, preload_cached, read_served,
}
use pipefs.Controller.Release.{release-IsServed}

module _ (sorter : Sorter Bytes CacheData (λ d. d.last_accessed)) where
  Step-IsServed : {s t : Session} → Step sorter s t → IsServed s → IsServed t
  Step-IsServed {s} (opens w filename fi fi' address c room e) v =
      elim (open_file_cached w s.controller filename fi v.caching) [
        | inl ((fi'', result), o) ↦
            let same : ok (s.controller.next_file, fi'') ≡ ok (address, fi') =
              sym result ∙ ap (λ x. x.1) e in
            let at : s.controller.next_file ≡ address = ground (arith, same) in
            subst
              (λ n. IsServed (record { controller = c; names = update s.names n (some filename) }))
              at
              (Opened-IsServed w s.controller c filename s.names room
                (subst (λ x. Opened w s.controller filename x) (ap (λ x. x.0) e) o) v)
        | inr ((_, result), _) ↦ absurd (ground (arith, sym result ∙ ap (λ x. x.1) e))
      ]
  Step-IsServed {s} (fails_to_open w filename fi errno c room e) v =
      elim (open_file_cached w s.controller filename fi v.caching) [
        | inl ((_, result), _) ↦ absurd (ground (arith, sym result ∙ ap (λ x. x.1) e))
        | inr (_, k) ↦
            Keeps-IsServed
              (subst (λ x. Keeps (gotten w s.controller filename) x) (ap (λ x. x.0) e) k)
              (gotten-IsServed w s.controller filename s.names room v)
      ]
  Step-IsServed {s} (preloads w filename c r room e) v =
      Keeps-IsServed
        (subst (λ x. Keeps (gotten w s.controller filename) x) (ap (λ x. x.0) e)
          (preload_cached w s.controller filename v.caching))
        (gotten-IsServed w s.controller filename s.names room v)
  Step-IsServed {s} (reads w filename address size offset c r named e) v =
      let (_, _, same) = read_served w s address size offset filename v named in
      subst (λ x. IsServed (record s { controller = x })) (ap (λ x. x.0) (sym same ∙ e)) v
  Step-IsServed {s} (releases w filename address c r named e) v =
      subst (λ x. IsServed (record { controller = x; names = update s.names address none }))
        (ap (λ x. x.0) e)
        (release-IsServed sorter w s.controller s.names address filename v named).1
  Step-IsServed {s} (completes before after stream cache failed bytes e) v =
      Keeps-IsServed (Keeps-fields refl refl refl refl) v
  Step-IsServed {s} (runs answers c e) v =
      Keeps-IsServed (run_posted-Keeps answers s.controller c e) v

  -- With caching, in every state that a session reaches, if names are opened and preloaded only while
  -- they have fewer than 2 ^ 32 - 1 users: the map has one entry for a name, each open file has the
  -- cache that the map has under its name, and a name has at least as many users as files that are
  -- open by it.
  pub Reach-IsServed :
      {cache_limit process_limit : ℕ} {s : Session}
      → Reach sorter cache_limit process_limit s
      → IsServed s
  unfolding opened_as
  Reach-IsServed (start seekable) = record {
    caching = refl;
    unique = tt;
    counted = λ name. omega arith;
    above = λ a h. refl;
    served = λ a name e. cc;
  }
  Reach-IsServed (next r st) = Step-IsServed st (Reach-IsServed r)

  -- With caching, in every state that a session reaches, if names are opened and preloaded only while
  -- they have fewer than 2 ^ 32 - 1 users, and files are released under the name that they were opened
  -- by, so that no directory above an open file is renamed: the release of an open file under that
  -- name succeeds, so the assertion on the usage count holds, and the file is still there.
  pub release_succeeds :
      {cache_limit process_limit : ℕ} {s : Session} (w : World) (address : ℕ) (filename : Bytes)
      → Reach sorter cache_limit process_limit s
      → s.names address ≡ some filename
      → (release sorter w s.controller filename address).1 ≡ ok tt
  release_succeeds {s = s} w address filename r e =
      (release-IsServed sorter w s.controller s.names address filename (Reach-IsServed r) e).0

  -- With caching, in every state that a session reaches, if names are opened and preloaded only while
  -- they have fewer than 2 ^ 32 - 1 users: a file that is open by a name is read from the cache that
  -- the map has under the name, and the read changes nothing.
  pub reads_shared :
      {cache_limit process_limit : ℕ} {s : Session} (filename : Bytes)
      → Reach sorter cache_limit process_limit s
      → (w : World) (address size offset : ℕ) → s.names address ≡ some filename
      → (cache : ℕ) × (get_if_present s.controller.caches filename ≡ some cache)
        × (read w s.controller address size offset
            ≡ (s.controller, ok (Cache.read (s.controller.read_loop.heap cache) size offset)))
  reads_shared {s = s} filename r w address size offset e =
      read_served w s address size offset filename (Reach-IsServed r) e
