-- ===== src/Caches/Sweep.antt =====
-- BasicCaches.hpp, the second loop of `cleanup`: which entries it removes.
use pipefs.Common.{
  ℕ, ◌+◌, ◌^◌, ◌≤◌, ◌<◌, ◌≡◌, refl, ◌∙◌, ◌⊎◌, inl, inr, true, false, Bool-cases, none, some, [],
  ◌∷◌, All, arith, ltb, Bytes, bytes_beq, bytes_beq_iff, bytes_eq,
}
use pipefs.Common.Dict.{lookup, erase, NodupKeys, lookup-erase, erase-NodupKeys}
use pipefs.Caches.{CacheData, Caches, View, evictable, reduced, sweep}
use pipefs.Caches.Sorting.{IsSorted}

ltb_self : (n : ℕ) → ltb n n ≡ false
ltb_self n = ground arith

-- The entries of `es` are entries of the map.
abbrev pub Within : Caches → Caches → Type 0
Within es caches = (k : Bytes) (d : CacheData) → lookup k es ≡ some d → lookup k caches ≡ some d

-- Everything in the map that may be removed is in `es`.
abbrev pub Listed : View → Caches → Caches → Type 0
Listed view es caches =
    (k : Bytes) (d : CacheData)
    → lookup k caches ≡ some d
    → evictable view d ≡ true
    → lookup k es ≡ some d

module _ (view : View) (target : ℕ) where
  -- A property of what is left of a list of elements follows from the four ways to treat the first.
  pub sweep_cases :
      (P : Caches → Type 0) (total : ℕ) (key : Bytes) (entry : CacheData) (rest caches : Caches)
      → (evictable view entry ≡ true
          → ltb (reduced view total entry) target ≡ true
          → P (erase key caches))
      → (evictable view entry ≡ true
          → P (sweep view target (reduced view total entry) rest (erase key caches)))
      → (evictable view entry ≡ false → ltb total target ≡ true → P caches)
      → (evictable view entry ≡ false → P (sweep view target total rest caches))
      → P (sweep view target total ((key, entry) ∷ rest) caches)
  unfolding sweep
  sweep_cases P total key entry rest caches gs gm ks km = elim (Bool-cases (evictable view entry)) [
    | inl gone ↦ rw gone (elim (Bool-cases (ltb (reduced view total entry) target)) [
      | inl stop ↦ rw stop (gs gone stop)
      | inr more ↦ rw more (gm gone)
    ])
    | inr stays ↦ rw stays (elim (Bool-cases (ltb total target)) [
      | inl stop ↦ rw stop (ks stays stop)
      | inr more ↦ rw more (km stays)
    ])
  ]

  pub sweep-NodupKeys :
      (total : ℕ) (es caches : Caches)
      → NodupKeys caches
      → NodupKeys (sweep view target total es caches)
  unfolding sweep
  sweep-NodupKeys total [] caches u = u
  sweep-NodupKeys total ((key, entry) ∷ rest) caches u =
      sweep_cases NodupKeys total key entry rest caches (λ _ _. erase-NodupKeys key caches u)
        (λ _.
          sweep-NodupKeys (reduced view total entry) rest (erase key caches)
            (erase-NodupKeys key caches u))
        (λ _ _. u) (λ _. sweep-NodupKeys total rest caches u)

  -- An entry stays as it is, or it was listed, might be removed, and is gone.
  abbrev pub Kept : Caches → Caches → Bytes → Caches → Type 0
  Kept es caches k result =
      (lookup k result ≡ lookup k caches)
      ⊎ ((d : CacheData) × (lookup k es ≡ some d)
          × (evictable view d ≡ true)
          × (lookup k result ≡ none))

  module _ (key : Bytes) (entry : CacheData) (rest caches : Caches) (k : Bytes)
      (fresh : lookup key rest ≡ none) where
    Kept-skip : (r : Caches) → Kept rest caches k r → Kept ((key, entry) ∷ rest) caches k r
    unfolding lookup
    Kept-skip r (inl same) = inl same
    Kept-skip r (inr (d, listed, ev, gone)) = inr (d, ground (arith, bytes_beq_iff key k), ev, gone)

    Kept-erase :
        (r : Caches)
        → NodupKeys caches
        → evictable view entry ≡ true
        → Kept rest (erase key caches) k r
        → Kept ((key, entry) ∷ rest) caches k r
    unfolding lookup
    Kept-erase r u ev (inr (d, listed, ev', gone)) =
        inr (d, ground (arith, bytes_beq_iff key k), ev', gone)
    Kept-erase r u ev (inl same) = elim (Bool-cases (bytes_beq key k)) [
      | inl hit ↦ inr (entry, rw hit, ev, ground (arith, lookup-erase k key caches u))
      | inr miss ↦ inl (ground (arith, lookup-erase k key caches u))
    ]

  pub sweep-Kept :
      (total : ℕ) (es caches : Caches) (k : Bytes)
      → NodupKeys caches
      → NodupKeys es
      → Kept es caches k (sweep view target total es caches)
  unfolding sweep
  sweep-Kept total [] caches k u v = inl refl
  sweep-Kept total ((key, entry) ∷ rest) caches k u v =
      sweep_cases (Kept ((key, entry) ∷ rest) caches k) total key entry rest caches
        (λ ev _. Kept-erase key entry rest caches k v.0 _ u ev (inl refl))
        (λ ev. Kept-erase key entry rest caches k v.0 _ u ev (
          sweep-Kept (reduced view total entry) rest (erase key caches) k
            (erase-NodupKeys key caches u) v.1))
        (λ _ _. inl refl)
        (λ _. Kept-skip key entry rest caches k v.0 _ (sweep-Kept total rest caches k u v.1))

  module _ (key : Bytes) (entry : CacheData) (rest caches : Caches) (u : NodupKeys caches)
      (fresh : lookup key rest ≡ none) where
    pub Within-skip : Within ((key, entry) ∷ rest) caches → Within rest caches
    unfolding lookup
    Within-skip w k d e = ground (arith, w k d, bytes_beq_iff key k)

    pub Within-erase : Within ((key, entry) ∷ rest) caches → Within rest (erase key caches)
    unfolding lookup
    Within-erase w k d e = ground (arith, w k d, bytes_beq_iff key k, lookup-erase k key caches u)

    pub Listed-skip :
        evictable view entry ≡ false
        → Listed view ((key, entry) ∷ rest) caches
        → Listed view rest caches
    unfolding lookup
    Listed-skip stays l k d e ev = ground (arith, l k d e ev)

    pub Listed-erase :
        Listed view ((key, entry) ∷ rest) caches → Listed view rest (erase key caches)
    unfolding lookup
    Listed-erase l k d e ev = ground (arith, l k d, lookup-erase k key caches u)

  lookup-All :
      (m : ℕ) (es : Caches) (k : Bytes) (d : CacheData)
      → All (λ e. m ≤ e.1.last_accessed) es
      → lookup k es ≡ some d
      → m ≤ d.last_accessed
  unfolding lookup
  lookup-All m [] k d a e = cc
  lookup-All m ((key, entry) ∷ rest) k d a e = ground (arith, lookup-All m rest k d a.1)

  stays_absent :
      (total : ℕ) (es caches : Caches) (k : Bytes)
      → NodupKeys caches
      → NodupKeys es
      → lookup k caches ≡ none
      → lookup k (sweep view target total es caches) ≡ none
  stays_absent total es caches k u v e = elim (sweep-Kept total es caches k u v) [
    | inl same ↦ same ∙ e
    | inr (d, _, _, gone) ↦ gone
  ]

  -- Nothing is removed before what has been used longer ago.
  abbrev pub Oldest : Caches → Caches → Type 0
  Oldest es result =
      (k k' : Bytes) (d d' : CacheData)
      → lookup k es ≡ some d
      → lookup k result ≡ none
      → lookup k' es ≡ some d'
      → evictable view d' ≡ true
      → lookup k' result ≡ some d'
      → d.last_accessed ≤ d'.last_accessed

  Oldest-more :
      (key : Bytes) (entry : CacheData) (rest r : Caches)
      → All (λ e. entry.last_accessed ≤ e.1.last_accessed) rest
      → (evictable view entry ≡ true → lookup key r ≡ none)
      → Oldest rest r
      → Oldest ((key, entry) ∷ rest) r
  unfolding lookup
  Oldest-more key entry rest r a cleared o k k' d d' e gone e' ev stays = ground (
    arith,
    lookup-All entry.last_accessed rest k' d' a,
    o k k' d d',
    bytes_beq_iff key k,
    bytes_beq_iff key k',
  )

  pub sweep-Oldest :
      (total : ℕ) (es caches : Caches)
      → NodupKeys caches
      → NodupKeys es
      → IsSorted (λ (e : CacheData). e.last_accessed) es
      → Within es caches
      → Oldest es (sweep view target total es caches)
  unfolding sweep lookup
  sweep-Oldest total [] caches u v s w = λ k k' d d' e gone e' ev stays. cc
  sweep-Oldest total ((key, entry) ∷ rest) caches u v s w =
      let u' = erase-NodupKeys key caches u in
      sweep_cases (Oldest ((key, entry) ∷ rest)) total key entry rest caches
        (λ ev _ k k' d d' e gone e' ev' stays. ground (
          arith,
          lookup-All entry.last_accessed rest k' d' s.0,
          w k d e,
          bytes_beq_iff key k,
          lookup-erase k key caches u,
          lookup-erase k' key caches u,
        ))
        (λ ev.
          Oldest-more key entry rest _ s.0
            (λ _.
              stays_absent (reduced view total entry) rest (erase key caches) key u' v.1
                (rw (lookup-erase key key caches u, (bytes_beq_iff key key).1 refl)))
            (sweep-Oldest (reduced view total entry) rest (erase key caches) u' v.1 s.1
              (Within-erase key entry rest caches u v.0 w)))
        (λ _ _ k k' d d' e gone e' ev' stays. ground (arith, w k d e))
        (λ no_ev.
          Oldest-more key entry rest _ s.0 (λ ev. absurd (ground arith))
            (sweep-Oldest total rest caches u v.1 s.1 (Within-skip key entry rest caches u v.0 w)))

  -- The loop goes on when the total has come down to exactly the target, which `cleanup` accepts
  -- when it begins: the next entry that may be removed is then removed too.
  sweep_overshoots :
      (total : ℕ) (key key' : Bytes) (entry entry' : CacheData) (rest caches : Caches)
      → NodupKeys caches
      → NodupKeys ((key, entry) ∷ (key', entry') ∷ rest)
      → total < 2 ^ 64
      → view.size entry.cache + target ≡ total
      → evictable view entry ≡ true
      → evictable view entry' ≡ true
      → lookup key' (sweep view target total ((key, entry) ∷ (key', entry') ∷ rest) caches) ≡ none
  unfolding sweep
  sweep_overshoots total key key' entry entry' rest caches u v fits exact ev ev' =
      let u' = erase-NodupKeys key caches u in
      let u'' = erase-NodupKeys key' (erase key caches) u' in
      let cleared : lookup key' (erase key' (erase key caches)) ≡ none =
        rw (lookup-erase key' key' (erase key caches) u', (bytes_beq_iff key' key').1 refl) in
      let same : reduced view total entry ≡ target = omega arith in
      rw (ev, same, ltb_self target)
        (sweep_cases (λ r. lookup key' r ≡ none) target key' entry' rest (erase key caches)
          (λ _ _. cleared)
          (λ _.
            stays_absent (reduced view target entry') rest (erase key' (erase key caches)) key' u''
              v.1.1 cleared)
          (λ no_ev _. absurd (ground arith)) (λ no_ev. absurd (ground arith)))
