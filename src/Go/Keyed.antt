-- ===== src/Go/Keyed.antt =====
-- `map[K]V` for a key type with `==`, as an association list in the order of insertion. A `range` over
-- the map meets its entries in that order; Go leaves the order open.

use mfp.Go.Text.{text_eq_iff, text_eq, Text}
use mfp.Base.{
  Bool-cases, inr, inl, ap, ◌↔◌, arith, ◌≡◌, if◌then◌else◌, Option, List, Bool, none, true, refl,
  ◌∷◌, [], some,
}

-- A type that Go compares with `==`.
pub record Key (K : Type 0) : Type 0 where
  pub same : K → K → Bool
  pub same_iff : (a b : K) → (same a b ≡ true) ↔ (a ≡ b)

module _ {K V : Type 0} ⦃key : Key K⦄ where
  unfoldable pub at_key : List (K × V) → K → Option V
  at_key [] k = none
  at_key ((j, v) ∷ m) k = if key.same j k then some v else at_key m k

  unfoldable pub put_key : List (K × V) → K → V → List (K × V)
  put_key [] k v = (k, v) ∷ []
  put_key ((j, w) ∷ m) k v = if key.same j k then (j, v) ∷ m else (j, w) ∷ put_key m k v

  -- `delete(m, k)`
  unfoldable pub drop_key : List (K × V) → K → List (K × V)
  drop_key [] k = []
  drop_key ((j, w) ∷ m) k = if key.same j k then m else (j, w) ∷ drop_key m k

  -- The keys are pairwise different.
  abbrev pub OneEach : List (K × V) → Type 0
  OneEach [] = Unit {0}
  OneEach ((k, v) ∷ m) = (at_key m k ≡ none) × OneEach m

  pub at_key-put_key :
      (m : List (K × V)) (k j : K) (v : V)
      → at_key (put_key m k v) j ≡ (if key.same k j then some v else at_key m j)
  unfolding at_key put_key
  at_key-put_key [] k j v = refl
  at_key-put_key ((i, w) ∷ m) k j v = ground (
    arith,
    key.same_iff k j,
    key.same_iff i k,
    key.same_iff i j,
    key.same_iff j j,
    at_key-put_key m k j v,
  )

  pub at_key-drop_key :
      (m : List (K × V)) (k j : K)
      → OneEach m
      → at_key (drop_key m k) j ≡ (if key.same k j then none else at_key m j)
  unfolding at_key drop_key
  at_key-drop_key [] k j d = ground arith
  at_key-drop_key ((i, w) ∷ m) k j d = ground (
    arith,
    key.same_iff k j,
    key.same_iff i k,
    key.same_iff i j,
    at_key-drop_key m k j d.1,
    ap (at_key m),
  )

  pub put_key-OneEach : (m : List (K × V)) (k : K) (v : V) → OneEach m → OneEach (put_key m k v)
  unfolding at_key put_key
  put_key-OneEach [] k v d = (refl, tt)
  put_key-OneEach ((i, w) ∷ m) k v d = elim (Bool-cases (key.same i k)) [
    | inl e ↦ rw e d
    | inr e ↦ rw e (
      ground (arith, at_key-put_key m k i v, key.same_iff k i, key.same_iff i k),
      put_key-OneEach m k v d.1,
    )
  ]

  pub drop_key-OneEach : (m : List (K × V)) (k : K) → OneEach m → OneEach (drop_key m k)
  unfolding at_key drop_key
  drop_key-OneEach [] k d = tt
  drop_key-OneEach ((i, w) ∷ m) k d = elim (Bool-cases (key.same i k)) [
    | inl e ↦ rw e d.1
    | inr e ↦ rw e (ground (arith, at_key-drop_key m k i d.1), drop_key-OneEach m k d.1)
  ]

-- What holds of every entry.
abbrev pub Every : {K V : Type 0} → (K → V → Type 0) → List (K × V) → Type 0
Every P [] = Unit {0}
Every P ((k, v) ∷ m) = P k v × Every P m

module _ {K V : Type 0} ⦃key : Key K⦄ (P : K → V → Type 0) where
  pub Every-at_key : (m : List (K × V)) (k : K) (v : V) → Every P m → at_key m k ≡ some v → P k v
  unfolding at_key
  Every-at_key [] k v h e = cc
  Every-at_key ((j, w) ∷ m) k v h e = elim (Bool-cases (key.same j k)) [
    | inl s ↦ let found : w ≡ v = ground arith in rw (← found, ← (key.same_iff j k).0 s) h.0
    | inr s ↦ Every-at_key m k v h.1 (ground arith)
  ]

  pub Every-put_key :
      (m : List (K × V)) (k : K) (v : V) → Every P m → P k v → Every P (put_key m k v)
  unfolding put_key
  Every-put_key [] k v h p = (p, tt)
  Every-put_key ((j, w) ∷ m) k v h p = elim (Bool-cases (key.same j k)) [
    | inl s ↦ rw s (rw ((key.same_iff j k).0 s) p, h.1)
    | inr s ↦ rw s (h.0, Every-put_key m k v h.1 p)
  ]

  pub Every-drop_key : (m : List (K × V)) (k : K) → Every P m → Every P (drop_key m k)
  unfolding drop_key
  Every-drop_key [] k h = tt
  Every-drop_key ((j, w) ∷ m) k h = elim (Bool-cases (key.same j k)) [
    | inl s ↦ rw s h.1
    | inr s ↦ rw s (h.0, Every-drop_key m k h.1)
  ]

instance abbrev pub text_key : Key Text
text_key = record { same = text_eq; same_iff = text_eq_iff }
