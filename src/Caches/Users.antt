-- ===== src/Caches/Users.antt =====
-- BasicCaches.hpp: how many users `get` and `release` leave to each name, and which cache.
use pipefs.Common.{
  ℕ, ◌+◌, ◌-◌, ◌%◌, ◌^◌, ◌<◌, ◌≡◌, ◌⊎◌, inl, inr, true, false, none, some, Option-cases, arith,
  if◌then◌else◌, Bytes, bytes_beq, bytes_beq_iff, bytes_eq,
}
use pipefs.Common.Dict.{lookup, insert, NodupKeys, lookup-insert, insert-NodupKeys}
use pipefs.Caches.{CacheData, Caches, get_if_present, get, release}

-- The users of a name; a name without an entry has none.
unfoldable pub users : Caches → Bytes → ℕ
users caches k = elim (lookup k caches) [ none ↦ 0 | some entry ↦ entry.usage_count ]

abbrev first : ℕ → ℕ → CacheData
first now fresh = record { cache = fresh; last_accessed = now; usage_count = 1 }

abbrev again : CacheData → ℕ → CacheData
again entry now = record entry {
  last_accessed = now;
  usage_count = (entry.usage_count + 1) % 2 ^ 32;
}

abbrev dropped : CacheData → ℕ → CacheData
dropped entry now = record entry { last_accessed = now; usage_count = entry.usage_count - 1 }

pub get-users :
    (caches : Caches) (key : Bytes) (now fresh : ℕ) (k : Bytes)
    → users caches key < 2 ^ 32 - 1
    → users (get caches key now fresh).0 k
      ≡ (if bytes_beq key k then users caches k + 1 else users caches k)
unfolding get users
get-users caches key now fresh k small = elim (Option-cases (lookup key caches)) [
  | inl e ↦
      rw (e, get)
        (ground (arith, lookup-insert k key (first now fresh) caches, bytes_beq_iff key k))
  | inr (entry, e) ↦
      rw (e, get)
        (ground (arith, lookup-insert k key (again entry now) caches, bytes_beq_iff key k))
]

-- `get` answers with the cache that it leaves in the map; a name that is there keeps its cache.
pub get_lem :
    (caches : Caches) (key : Bytes) (now fresh : ℕ)
    → let (after, cache, is_new) = get caches key now fresh in
      (get_if_present after key ≡ some cache)
      × ((is_new ≡ true) ⊎ (get_if_present caches key ≡ some cache))
      × ((is_new ≡ false) ⊎ ((get_if_present caches key ≡ none) × (cache ≡ fresh)))
unfolding get get_if_present
get_lem caches key now fresh = elim (Option-cases (lookup key caches)) [
  | inl e ↦
      rw (e, get, get_if_present)
        (ground (arith, lookup-insert key key (first now fresh) caches, bytes_beq_iff key key))
  | inr (entry, e) ↦
      rw (e, get, get_if_present)
        (ground (arith, lookup-insert key key (again entry now) caches, bytes_beq_iff key key))
]

pub release-users :
    (caches : Caches) (key : Bytes) (now : ℕ)
    → 0 < users caches key
    → (after : Caches) × (release caches key now ≡ some after)
      × ((k : Bytes)
          → users after k ≡ (if bytes_beq key k then users caches k - 1 else users caches k))
      × ((k : Bytes) → get_if_present after k ≡ get_if_present caches k)
unfolding release users get_if_present
release-users caches key now used = elim (Option-cases (lookup key caches)) [
  | inl e ↦ absurd (ground arith)
  | inr (entry, e) ↦ (
    insert key (dropped entry now) caches,
    ground arith,
    λ k. ground (arith, lookup-insert k key (dropped entry now) caches, bytes_beq_iff key k),
    λ k. ground (arith, lookup-insert k key (dropped entry now) caches, bytes_beq_iff key k),
  )
]

pub get-get_if_present :
    (caches : Caches) (key : Bytes) (now fresh : ℕ) (k : Bytes)
    → 0 < users caches k
    → get_if_present (get caches key now fresh).0 k ≡ get_if_present caches k
unfolding get users get_if_present
get-get_if_present caches key now fresh k used = elim (Option-cases (lookup key caches)) [
  | inl e ↦
      rw (e, get)
        (ground (arith, lookup-insert k key (first now fresh) caches, bytes_beq_iff key k))
  | inr (entry, e) ↦
      rw (e, get)
        (ground (arith, lookup-insert k key (again entry now) caches, bytes_beq_iff key k))
]

pub release-get_if_present :
    (caches after : Caches) (key : Bytes) (now : ℕ) (k : Bytes)
    → release caches key now ≡ some after
    → get_if_present after k ≡ get_if_present caches k
unfolding release get_if_present
release-get_if_present caches after key now k h = elim (Option-cases (lookup key caches)) [
  | inl e ↦ ground arith
  | inr (entry, e) ↦
      ground (arith, lookup-insert k key (dropped entry now) caches, bytes_beq_iff key k)
]

pub get-NodupKeys :
    (caches : Caches) (key : Bytes) (now fresh : ℕ)
    → NodupKeys caches
    → NodupKeys (get caches key now fresh).0
unfolding get
get-NodupKeys caches key now fresh u = elim (Option-cases (lookup key caches)) [
  | inl e ↦ rw (e, get) (insert-NodupKeys key (first now fresh) caches u)
  | inr (entry, e) ↦ rw (e, get) (insert-NodupKeys key (again entry now) caches u)
]

pub release-NodupKeys :
    (caches after : Caches) (key : Bytes) (now : ℕ)
    → NodupKeys caches
    → release caches key now ≡ some after
    → NodupKeys after
unfolding release
release-NodupKeys caches after key now u h = elim (Option-cases (lookup key caches)) [
  | inl e ↦ ground arith
  | inr (entry, e) ↦ ground (arith, insert-NodupKeys key (dropped entry now) caches u)
]
