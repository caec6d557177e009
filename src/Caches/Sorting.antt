-- ===== src/Caches/Sorting.antt =====
-- What `cleanup` relies on of `std::sort`: a permutation in ascending order. It does not say in which
-- order equal elements come. An insertion sort shows that such a sort exists.
use mathlib.Core.List.{Perm, Permᴰ}
use mathlib.Core.List.Perm
use mathlib.Core.HLevel.{Π_prop, ×_prop, Unit-prop}
use mathlib.Core.Logic.{∥∥₁_elim}
use mathlib.Core.Path.{subst₂}
use pipefs.Common.{
  ℕ, ◌≤◌, ◌≡◌, refl, ◌∙◌, inl, inr, Option, none, List, [], ◌∷◌, All, All-map, arith, leb,
  if◌then◌else◌, Bool-cases, Eq,
}
use pipefs.Common.Dict.{Dict, lookup, NodupKeys}

module _ {K V : Type 0} (time : V → ℕ) where
  abbrev pub IsSorted : List (K × V) → Type 0
  IsSorted [] = Unit
  IsSorted ((k, v) ∷ rest) = All (λ e. time v ≤ time e.1) rest × IsSorted rest

pub record Sorter (K V : Type 0) (time : V → ℕ) : Type 0 where
  pub sort : List (K × V) → List (K × V)
  pub sort-perm : (l : List (K × V)) → Perm (sort l) l
  pub sort-IsSorted : (l : List (K × V)) → IsSorted time (sort l)

module _ {K V : Type 0} (time : V → ℕ) where
  place : K × V → List (K × V) → List (K × V)
  place e [] = e ∷ []
  place e (x ∷ xs) = if leb (time e.1) (time x.1) then e ∷ x ∷ xs else x ∷ place e xs

  unfoldable pub insertion_sort : List (K × V) → List (K × V)
  unfolding place
  insertion_sort [] = []
  insertion_sort (e ∷ es) = place e (insertion_sort es)

  place-perm : (e : K × V) (xs : List (K × V)) → Perm (place e xs) (e ∷ xs)
  unfolding place
  place-perm e [] = Perm.rfl
  place-perm e (x ∷ xs) = elim (Bool-cases (leb (time e.1) (time x.1))) [
    | inl le ↦ rw le Perm.rfl
    | inr gt ↦ rw gt (Perm.trans (Perm.cons x (place-perm e xs)) (Perm.swap e x xs))
  ]

  place-All :
      (m : ℕ) (e : K × V) (xs : List (K × V))
      → m ≤ time e.1
      → All (λ x. m ≤ time x.1) xs
      → All (λ x. m ≤ time x.1) (place e xs)
  unfolding place
  place-All m e [] h a = (h, tt)
  place-All m e (x ∷ xs) h a = ground (arith, place-All m e xs)

  place-IsSorted : (e : K × V) (xs : List (K × V)) → IsSorted time xs → IsSorted time (place e xs)
  unfolding place
  place-IsSorted e [] s = (tt, tt)
  place-IsSorted e (x ∷ xs) s = elim (Bool-cases (leb (time e.1) (time x.1))) [
    | inl le ↦ rw le ((ground arith, All-map (λ y h. ground arith) xs s.0), s)
    | inr gt ↦ rw gt (place-All (time x.1) e xs (ground arith) s.0, place-IsSorted e xs s.1)
  ]

  pub insertion_sort-perm : (l : List (K × V)) → Perm (insertion_sort l) l
  unfolding insertion_sort
  insertion_sort-perm [] = Perm.rfl
  insertion_sort-perm (e ∷ es) =
      Perm.trans (place-perm e (insertion_sort es)) (Perm.cons e (insertion_sort-perm es))

  pub insertion_sort-IsSorted : (l : List (K × V)) → IsSorted time (insertion_sort l)
  unfolding insertion_sort
  insertion_sort-IsSorted [] = tt
  insertion_sort-IsSorted (e ∷ es) =
      place-IsSorted e (insertion_sort es) (insertion_sort-IsSorted es)

  abbrev pub insertion_sorter : Sorter K V time
  insertion_sorter = record {
    sort = insertion_sort;
    sort-perm = insertion_sort-perm;
    sort-IsSorted = insertion_sort-IsSorted;
  }

option_set : {V : Type 0} → IsSet V → IsSet (Option V)
option_set V_set = hlevel V_set

-- A permutation of a map has the same entries, once each.
module _ {K V : Type 0} ⦃e : Eq K⦄ where
  abbrev pub Same : Dict K V → Dict K V → Type 0
  Same l m = NodupKeys m × ((k : K) → lookup k m ≡ lookup k l)

  swap-Same : (a b : K × V) (l : Dict K V) → NodupKeys (a ∷ b ∷ l) → Same (a ∷ b ∷ l) (b ∷ a ∷ l)
  unfolding lookup
  swap-Same a b l u = (
    ground (arith, e.beq_iff a.0 b.0, e.beq_iff b.0 a.0),
    λ k. ground (arith, e.beq_iff a.0 b.0, e.beq_iff b.0 a.0, e.beq_iff a.0 k, e.beq_iff b.0 k),
  )

  Permᴰ-Same : {l m : Dict K V} → Permᴰ l m → NodupKeys l → Same l m
  unfolding lookup
  Permᴰ-Same Permᴰ.nil u = (tt, λ k. refl)
  Permᴰ-Same (Permᴰ.cons {a} {b} eq p) u =
      let f = Permᴰ-Same p u.1 in rw (← eq) ((f.1 a.0 ∙ u.0, f.0), λ k. ground (arith, f.1 k))
  Permᴰ-Same (Permᴰ.swap {a} {b} {a'} {b'} {l} p q) u =
      subst₂ (λ x y. Same (a ∷ b ∷ l) (y ∷ x ∷ l)) p q (swap-Same a b l u)
  Permᴰ-Same (Permᴰ.trans p q) u =
      let f = Permᴰ-Same p u in let g = Permᴰ-Same q f.0 in (g.0, λ k. g.1 k ∙ f.1 k)

  module _ (V_set : IsSet V) where
    NodupKeys-prop : (d : Dict K V) → IsProp (NodupKeys d)
    NodupKeys-prop [] = Unit-prop
    NodupKeys-prop ((k, v) ∷ d) = ×_prop (option_set V_set (lookup k d) none) (NodupKeys-prop d)

    pub Perm-Same : {l m : Dict K V} → Perm l m → NodupKeys l → Same l m
    Perm-Same {l} {m} p u =
        ∥∥₁_elim p
          (×_prop (NodupKeys-prop m) (Π_prop (λ k. option_set V_set (lookup k m) (lookup k l))))
          (λ q. Permᴰ-Same q u)
