-- ===== src/ReadLoop/Owner.antt =====
-- BasicReadLoop.hpp: an entry of the map owns its stream, and what the addition and the removal of an
-- entry make of that.
use pipefs.Common.{ℕ, ◌≤◌, ◌≡◌, inl, inr, true, false, Bool-cases, some, Option-cases, arith, ◌==◌}
use pipefs.Common.Dict.{
  lookup, erase, NodupKeys, lookup-insert, lookup-erase, insert-NodupKeys, erase-NodupKeys,
}
use pipefs.Common.Int.{ℤ, int_eq, int_beq, int_beq_iff}
use pipefs.ReadLoop.{
  ReadLoop, CacheData, closed, is_open, destroy, emplace, open_stream, erase_entry,
}

-- An entry of the map owns the open stream of its key, and every open stream has such an entry.
pub record IsOwned (s : ReadLoop) : Type 0 where
  pub unique : NodupKeys s.caches
  pub fresh : (n : ℕ) → s.next_stream ≤ n → s.handles n ≡ closed
  pub owns :
      (fd : ℤ) (entry : CacheData)
      → lookup fd s.caches ≡ some entry
      → (s.handles entry.stream ≡ fd) × (is_open s entry.stream ≡ true)
  pub owned :
      (n : ℕ)
      → is_open s n ≡ true
      → (entry : CacheData) × (lookup (s.handles n) s.caches ≡ some entry) × (entry.stream ≡ n)

module _ (s : ReadLoop) (v : IsOwned s) where
  -- An entry leaves the map and is destroyed.
  module _ (fd : ℤ) (entry : CacheData) (e : lookup fd s.caches ≡ some entry) where
    abbrev pub without : ReadLoop
    without = destroy entry (record s { caches = erase fd s.caches })

    without-owned :
        (n : ℕ)
        → is_open without n ≡ true
        → (d : CacheData) × (lookup (without.handles n) without.caches ≡ some d) × (d.stream ≡ n)
    unfolding destroy
    without-owned n o = elim (Bool-cases (entry.stream == n)) [
      | inl same ↦ absurd (ground arith)
      | inr other ↦
          let (d, found, mine) = v.owned n (ground arith) in
          (
            d,
            ground (
              arith,
              lookup-erase (s.handles n) fd s.caches v.unique,
              int_beq_iff fd (s.handles n),
            ),
            mine,
          )
    ]

    pub without-IsOwned : IsOwned without
    unfolding destroy
    without-IsOwned = record {
      unique = erase-NodupKeys fd s.caches v.unique;
      fresh = λ n h. ground (arith, v.fresh n);
      owns = λ k d found. ground (
        arith,
        v.owns k d,
        v.owns fd entry e,
        lookup-erase k fd s.caches v.unique,
        int_beq_iff fd k,
      );
      owned = without-owned;
    }

  pub erase_entry-IsOwned : (fd : ℤ) → IsOwned (erase_entry fd s)
  unfolding erase_entry
  erase_entry-IsOwned fd = elim (Option-cases (lookup fd s.caches)) [
    | inl e ↦ rw (e, erase_entry) v
    | inr (entry, e) ↦ rw (e, erase_entry) (without-IsOwned fd entry e)
  ]

  -- A new stream gets an entry, or is closed again if its handle has one.
  module _ (starter cache : ℕ) (fd : ℤ) (opens : int_beq fd closed ≡ false) where
    abbrev pub entry_of : CacheData
    entry_of = record { cache = cache; stream = s.next_stream }

    abbrev pub added : ReadLoop
    added = emplace fd entry_of (open_stream starter fd s)

    added-owned :
        (n : ℕ)
        → is_open added n ≡ true
        → (d : CacheData) × (lookup (added.handles n) added.caches ≡ some d) × (d.stream ≡ n)
    unfolding emplace open_stream
    added-owned n o = elim (Option-cases (lookup fd s.caches)) [
      | inl free ↦ elim (Bool-cases (s.next_stream == n)) [
        | inl new ↦ (
          entry_of,
          ground (arith, lookup-insert fd fd entry_of s.caches, int_beq_iff fd fd),
          ground arith,
        )
        | inr old ↦
            let (d, found, mine) = v.owned n (ground arith) in
            (
              d,
              ground (
                arith,
                lookup-insert (s.handles n) fd entry_of s.caches,
                int_beq_iff fd (s.handles n),
              ),
              mine,
            )
      ]
      | inr (_, taken) ↦ elim (Bool-cases (s.next_stream == n)) [
        | inl new ↦ absurd (ground arith)
        | inr old ↦ let (d, found, mine) = v.owned n (ground arith) in (d, ground arith, mine)
      ]
    ]

    pub added-IsOwned : IsOwned added
    unfolding emplace open_stream
    added-IsOwned = elim (Option-cases (lookup fd s.caches)) [
      | inl free ↦ record {
        unique = ground (arith, insert-NodupKeys fd entry_of s.caches v.unique);
        fresh = λ n h. ground (arith, v.fresh n);
        owns = λ k d found. ground (
          arith,
          v.owns k d,
          lookup-insert k fd entry_of s.caches,
          int_beq_iff fd k,
          v.fresh s.next_stream,
        );
        owned = added-owned;
      }
      | inr (old, taken) ↦ record {
        unique = ground (arith, v.unique);
        fresh = λ n h. ground (arith, v.fresh n);
        owns = λ k d found. ground (arith, v.owns k d, v.fresh s.next_stream);
        owned = added-owned;
      }
    ]
