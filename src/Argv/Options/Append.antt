-- ===== src/Argv/Options/Append.antt =====
-- `appendOptVal` of argv/parser.go.
use mfp.Go.Maps.{lookup}
use mfp.Go.Text.{Text}
use mfp.Argv.Model.{with_value, requires_operand, CommandOption}
use mfp.Argv.Options.{
  call_validate, check_conflict, add_all, push_value, first_some, OptVal, insert_opt, lookup_opt,
  append_opt_val, Parser,
}
use mfp.Base.{
  is_ok, ◌≢◌, ◌&&◌, Option, ◌++◌, bind-eq-ok, arith, ◌∷◌, err, true, ◌==◌, if◌then◌else◌, ◌≡◌, Bool,
  List, ℕ, [], none, some, ok, refl,
}

-- The values collected so far for the option at place `i`.
abbrev pub values_at : ℕ → Parser → List Text
values_at i p = elim (lookup_opt i p.options) [ none ↦ [] | some v ↦ v.values ]

lookup-insert_opt :
    (i j : ℕ) (v : OptVal) (m : List (ℕ × OptVal))
    → lookup_opt j (insert_opt i v m) ≡ (if i == j then some v else lookup_opt j m)
unfolding lookup_opt insert_opt
lookup-insert_opt i j v [] = refl
lookup-insert_opt i j v ((k, w) ∷ m) = ground (arith, lookup-insert_opt i j v m)

-- The parser that `appendOptVal` leaves, with the entry `v` in its place.
abbrev stored : Parser → ℕ → CommandOption → Text → OptVal → Parser
stored p i opt name v = record p {
  inv = record (p.inv) { immediate = first_some p.inv.immediate opt.immediate };
  options = insert_opt i v p.options;
  opt_conflicts = add_all name opt.conflicts p.opt_conflicts;
  opt_required = add_all name opt.requires p.opt_required;
}

-- A successful call passed every check.
record Passed (p : Parser) (i : ℕ) (opt : CommandOption) (name value : Text) (q : Parser)
    : Type 0 where
  entry : OptVal
  pushed : push_value (lookup_opt i p.options) opt name value ≡ ok entry
  unconflicted : lookup name p.opt_conflicts ≡ none
  result : q ≡ stored p i opt name entry

unconflicted_of : (c : Option Text) (name : Text) → check_conflict c name ≡ ok tt → c ≡ none
unfolding check_conflict
unconflicted_of none name h = refl
unconflicted_of (some x) name h = cc

append-Passed :
    (p : Parser) (i : ℕ) (opt : CommandOption) (name value : Text) (novalue : Bool) (q : Parser)
    → append_opt_val p i opt name value novalue ≡ ok q
    → Passed p i opt name value q
unfolding append_opt_val
append-Passed p i opt name value novalue q h =
    let (_, _, h1) =
      bind-eq-ok (if novalue && with_value opt then err (requires_operand name) else ok tt) _ h in
    let (_, _, h2) =
      bind-eq-ok (if novalue then ok tt else call_validate opt.validate name value) _ h1 in
    let (_, c, h3) = bind-eq-ok (check_conflict (lookup name p.opt_conflicts) name) _ h2 in
    let (v, e, h4) = bind-eq-ok (push_value (lookup_opt i p.options) opt name value) _ h3 in
    record {
      entry = v;
      pushed = e;
      unconflicted = unconflicted_of (lookup name p.opt_conflicts) name c;
      result = ground arith;
    }

-- A successful `appendOptVal` adds the value to those of its option and leaves the other options
-- alone. The name is in no conflict declared before, a singleton option had no value yet, the first
-- immediate callback stays, and the command, the arguments and the sub-command are unchanged.
pub append_lem :
    (p : Parser) (i : ℕ) (opt : CommandOption) (name value : Text) (novalue : Bool) (q : Parser)
    → append_opt_val p i opt name value novalue ≡ ok q
    → (values_at i q ≡ values_at i p ++ value ∷ [])
      × ((j : ℕ) → i ≢ j → lookup_opt j q.options ≡ lookup_opt j p.options)
      × (lookup name p.opt_conflicts ≡ none)
      × (opt.singleton ≡ true → lookup_opt i p.options ≡ none)
      × (q.inv.immediate ≡ first_some p.inv.immediate opt.immediate)
      × (q.inv.cmd ≡ p.inv.cmd)
      × (q.rest ≡ p.rest)
      × (q.inv.subcmd ≡ p.inv.subcmd)
unfolding push_value
append_lem p i opt name value novalue q h =
    let v = append-Passed p i opt name value novalue q h in
    (
      ground (arith, v.result, v.pushed, lookup-insert_opt i i v.entry p.options),
      λ j n. ground (arith, v.result, lookup-insert_opt i j v.entry p.options),
      v.unconflicted,
      λ s. ground (arith, v.pushed),
      ground (arith, v.result),
      ground (arith, v.result),
      ground (arith, v.result),
      ground (arith, v.result),
    )

-- Whether an option is accepted does not depend on the conflicts that it declares itself, also if
-- one of those options was already given.
pub own_conflicts_unread :
    (p : Parser) (i : ℕ) (opt : CommandOption) (name value : Text) (novalue : Bool) (ks : List Text)
    → is_ok (append_opt_val p i (record opt { conflicts = ks }) name value novalue)
      ≡ is_ok (append_opt_val p i opt name value novalue)
unfolding append_opt_val
own_conflicts_unread p i opt name value novalue ks = ground arith
