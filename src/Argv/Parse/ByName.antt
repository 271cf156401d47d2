-- ===== src/Argv/Parse/ByName.antt =====
-- `buildByName` of argv/parser.go: the values of the options.
use mfp.Argv.Model.{option_names}
use mfp.Go.Maps.{
  Distinct-drop, contains-append, Distinct-apart, lookup-insert, insert, lookup, contains, Distinct,
}
use mfp.Argv.Options.{OptVal}
use mfp.Go.Text.{Text}
use mfp.Argv.Parse.{set_all, options_by_name}
use mfp.Base.{if◌then◌else◌, arith, ◌≡◌, ◌++◌, All, ℕ, List, false, refl, some, [], true, ◌∷◌}

abbrev pub entry_names : List (ℕ × OptVal) → List Text
entry_names [] = []
entry_names ((i, v) ∷ os) = option_names v.opt ++ entry_names os

lookup-set_all :
    (ns : List Text) (vals : List Text) (m : List (Text × List Text)) (k : Text)
    → lookup k (set_all ns vals m) ≡ (if contains ns k then some vals else lookup k m)
lookup-set_all [] vals m k = refl
lookup-set_all (n ∷ ns) vals m k =
    ground (arith, lookup-set_all ns vals (insert n vals m) k, lookup-insert n k vals m)

lookup-others :
    (os : List (ℕ × OptVal)) (m : List (Text × List Text)) (k : Text)
    → contains (entry_names os) k ≡ false
    → lookup k (options_by_name os m) ≡ lookup k m
unfolding options_by_name
lookup-others [] m k h = refl
lookup-others ((i, v) ∷ os) m k h = ground (
  arith,
  contains-append (option_names v.opt) (entry_names os) k,
  lookup-others os (set_all (option_names v.opt) v.values m) k,
  lookup-set_all (option_names v.opt) v.values m k,
)

-- Where the names of all options that were given are pairwise different, the values of each option
-- are found under each of its names and aliases, in whatever order the map of options is read.
pub options_by_name_lem :
    (os : List (ℕ × OptVal)) (m : List (Text × List Text)) (k : Text)
    → Distinct (entry_names os)
    → All
        (λ e.
          contains (option_names e.1.opt) k ≡ true
          → lookup k (options_by_name os m) ≡ some e.1.values)
        os
unfolding options_by_name
options_by_name_lem [] m k d = tt
options_by_name_lem ((i, v) ∷ os) m k d = (
  λ h. ground (
    arith,
    lookup-others os (set_all (option_names v.opt) v.values m) k
        (Distinct-apart (option_names v.opt) (entry_names os) k d h),
    lookup-set_all (option_names v.opt) v.values m k,
  ),
  options_by_name_lem os (set_all (option_names v.opt) v.values m) k
      (Distinct-drop (option_names v.opt) (entry_names os) d),
)
