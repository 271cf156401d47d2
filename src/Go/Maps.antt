-- ===== src/Go/Maps.antt =====
-- `map[string]V` as an association list, and `map[string]struct{}` as a list of keys. A `range`
-- over such a map meets its entries in the list's order; Go leaves the order open.
use mfp.Go.Text.{text_eq_iff, text_eq_refl, text_eq, Text}
use mfp.Base.{
  ◌++◌, true, [], ◌||◌, arith, if◌then◌else◌, ◌≡◌, ◌∷◌, Option, Bool, List, some, false, refl, none,
}

module _ {ℓ} {V : Type ℓ} where
  unfoldable pub lookup : Text → List (Text × V) → Option V
  lookup k [] = none
  lookup k ((j, v) ∷ m) = if text_eq j k then some v else lookup k m

  unfoldable pub insert : Text → V → List (Text × V) → List (Text × V)
  insert k v [] = (k, v) ∷ []
  insert k v ((j, w) ∷ m) = if text_eq j k then (j, v) ∷ m else (j, w) ∷ insert k v m

  pub lookup-insert :
      (k j : Text) (v : V) (m : List (Text × V))
      → lookup j (insert k v m) ≡ (if text_eq k j then some v else lookup j m)
  unfolding lookup insert
  lookup-insert k j v [] = refl
  lookup-insert k j v ((i, w) ∷ m) = ground (
    arith,
    text_eq_iff k j,
    text_eq_iff i k,
    text_eq_iff i j,
    text_eq_refl j,
    lookup-insert k j v m,
  )

  pub lookup-insert_self :
      (k : Text) (v : V) (m : List (Text × V)) → lookup k (insert k v m) ≡ some v
  lookup-insert_self k v m = simp (lookup-insert, text_eq_refl)

-- Whether a key is there.
abbrev pub contains : List Text → Text → Bool
contains [] k = false
contains (j ∷ s) k = text_eq j k || contains s k

-- The keys are pairwise different.
abbrev pub Distinct : List Text → Type 0
Distinct [] = Unit {0}
Distinct (k ∷ s) = (contains s k ≡ false) × Distinct s

pub contains-append :
    (ns ms : List Text) (k : Text) → contains (ns ++ ms) k ≡ (contains ns k || contains ms k)
contains-append [] ms k = refl
contains-append (n ∷ ns) ms k = ground (arith, contains-append ns ms k)

pub Distinct-apart :
    (ns ms : List Text) (k : Text)
    → Distinct (ns ++ ms)
    → contains ns k ≡ true
    → contains ms k ≡ false
Distinct-apart [] ms k d h = cc
Distinct-apart (n ∷ ns) ms k d h =
    ground (arith, text_eq_iff n k, contains-append ns ms k, Distinct-apart ns ms k d.1)

pub Distinct-drop : (ns ms : List Text) → Distinct (ns ++ ms) → Distinct ms
Distinct-drop [] ms d = d
Distinct-drop (n ∷ ns) ms d = Distinct-drop ns ms d.1
