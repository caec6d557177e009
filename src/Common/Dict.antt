-- ===== src/Common/Dict.antt =====
-- `std::map`, as an association list with one entry for each key. No code of the program sees the
-- order of a map's entries but through `std::sort`, so the list is in order of insertion.
use Prim.Native.Nat.{suc, ◌+◌}
use mathlib.Core.Path.{◌≡◌, refl}
use mathlib.Core.Option.{Option, none, some}
use mathlib.Core.List.{List, [], ◌∷◌}
use native.Mathlib.Omega.{arith}
use pipefs.Common.Tests.{if◌then◌else◌}
use pipefs.Common.Lists.{length}
use pipefs.Common.Equality.{Eq}

abbrev pub Dict {ℓ κ} : Type ℓ → Type κ → Type (ℓ ⊔ κ)
Dict K V = List (K × V)

module _ {ℓ κ} {K : Type ℓ} {V : Type κ} ⦃e : Eq K⦄ where
  -- `map::find`
  unfoldable pub lookup : K → Dict K V → Option V
  lookup k [] = none
  lookup k ((j, v) ∷ d) = if e.beq j k then some v else lookup k d

  -- an assignment through an iterator, or `map::emplace` where the key is new
  unfoldable pub insert : K → V → Dict K V → Dict K V
  insert k v [] = (k, v) ∷ []
  insert k v ((j, w) ∷ d) = if e.beq j k then (k, v) ∷ d else (j, w) ∷ insert k v d

  -- `map::erase`
  unfoldable pub erase : K → Dict K V → Dict K V
  erase k [] = []
  erase k ((j, w) ∷ d) = if e.beq j k then d else (j, w) ∷ erase k d

  -- One entry for each key.
  abbrev pub NodupKeys : Dict K V → Type κ
  NodupKeys [] = Unit
  NodupKeys ((k, _) ∷ d) = (lookup k d ≡ none) × NodupKeys d

  pub lookup-insert :
      (j k : K) (v : V) (d : Dict K V)
      → lookup j (insert k v d) ≡ (if e.beq k j then some v else lookup j d)
  unfolding insert lookup
  lookup-insert j k v [] = refl
  lookup-insert j k v ((i, w) ∷ d) =
      ground (arith, lookup-insert j k v d, e.beq_iff k j, e.beq_iff i k, e.beq_iff i j)

  pub lookup-erase :
      (j k : K) (d : Dict K V)
      → NodupKeys d
      → lookup j (erase k d) ≡ (if e.beq k j then none else lookup j d)
  unfolding erase lookup
  lookup-erase j k [] _ = ground arith
  lookup-erase j k ((i, w) ∷ d) u =
      ground (arith, lookup-erase j k d u.1, e.beq_iff k j, e.beq_iff i k, e.beq_iff i j)

  pub insert-NodupKeys : (k : K) (v : V) (d : Dict K V) → NodupKeys d → NodupKeys (insert k v d)
  unfolding insert lookup
  insert-NodupKeys k v [] _ = (refl, tt)
  insert-NodupKeys k v ((i, w) ∷ d) u =
      ground
        (arith, insert-NodupKeys k v d u.1, lookup-insert i k v d, e.beq_iff k i, e.beq_iff i k)

  pub erase-NodupKeys : (k : K) (d : Dict K V) → NodupKeys d → NodupKeys (erase k d)
  unfolding erase
  erase-NodupKeys k [] _ = tt
  erase-NodupKeys k ((i, w) ∷ d) u =
      ground (arith, erase-NodupKeys k d u.1, lookup-erase i k d u.1, e.beq_iff k i)

  pub length-insert_absent :
      (k : K) (v : V) (d : Dict K V) → lookup k d ≡ none → length (insert k v d) ≡ suc (length d)
  unfolding insert lookup
  length-insert_absent k v [] h = refl
  length-insert_absent k v ((i, w) ∷ d) h = ground (arith, length-insert_absent k v d)

  pub length-erase :
      (k : K) (d : Dict K V) (v : V) → lookup k d ≡ some v → length (erase k d) + 1 ≡ length d
  unfolding erase lookup
  length-erase k [] v h = cc
  length-erase k ((i, w) ∷ d) v h = ground (arith, length-erase k d v)

  pub erase_absent : (k : K) (d : Dict K V) → lookup k d ≡ none → erase k d ≡ d
  unfolding erase lookup
  erase_absent k [] h = refl
  erase_absent k ((i, w) ∷ d) h = ground (arith, erase_absent k d)
