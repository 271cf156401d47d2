-- ===== src/Argv/Parse/Required.antt =====
-- `validateThings` of argv/parser.go and the whole of `parse`.
use mfp.Argv.Verify.Progress.{verify-ends}
use mfp.Argv.Verify.{Unicode}
use mathlib.Core.Path.{subst}
use mfp.Argv.Params.Progress.{handle_parameters-ends}
use mfp.Argv.Parse.Termination.{loop-ends, SameCommand, check_missed-ends}
use mfp.Go.Maps.{lookup}
use mfp.Argv.Params.{handle_parameters}
use mfp.Go.Text.{Text}
use mfp.Argv.Parse.{
  loop, start, parse_with_parent, new_parser, check_missed, validate_things, finish, check_requires,
  check_required_options, build_by_name, Loop,
}
use mfp.Argv.Options.{Parser}
use mfp.Argv.Model.{is_some, info, has_parameters, CommandOption, Command}
use mfp.Argv.Invocation.{Frame, Invocation, with_parent}
use mfp.Base.{
  ◌+◌, length, Ends-ok, ◌∙◌, ap, Ends-weaken, not, arith, ◌&&◌, Ends-bind, if◌then◌else◌,
  Bool-cases, All, ◌≡◌, Option, Ends, List, ok, some, [], none, inr, true, inl, ◌∷◌, refl,
}

abbrev Present : List (Text × List Text) → CommandOption → Type 0
Present m o = o.required ≡ true → is_some (lookup o.name m) ≡ true

abbrev RequirePresent : List (Text × List Text) → List (Text × Text) → Type 0
RequirePresent m rs = All (λ r. is_some (lookup r.0 m) ≡ true) rs

required-Present :
    (m : List (Text × List Text)) (os : List CommandOption)
    → Ends (check_required_options m os) (λ x. All (Present m) os)
unfolding check_required_options
required-Present m [] = tt
required-Present m (o ∷ os) = elim (Bool-cases (o.required && not (is_some (lookup o.name m)))) [
  | inl e ↦ rw e tt
  | inr e ↦ rw e (
      Ends-weaken (check_required_options m os) _ _ (required-Present m os)
        (λ _ k. (λ r. ground arith, k)))
]

requires-Present :
    (m : List (Text × List Text)) (rs : List (Text × Text))
    → Ends (check_requires m rs) (λ x. RequirePresent m rs)
unfolding check_requires
requires-Present m [] = tt
requires-Present m ((k, by) ∷ rs) = elim (Bool-cases (is_some (lookup k m))) [
  | inl e ↦ rw e (Ends-weaken (check_requires m rs) _ _ (requires-Present m rs) (λ _ h. (refl, h)))
  | inr e ↦ rw e tt
]

abbrev Checked : Parser → Type 0
Checked p =
    p.inv.immediate ≡ none
    → All (Present p.inv.by_name) (info p.inv.cmd).options
      × RequirePresent p.inv.by_name p.opt_required

validate-Checked : (p : Parser) → Ends (validate_things p) (λ x. Checked p)
unfolding validate_things
validate-Checked p = elim (Bool-cases (is_some p.inv.immediate)) [
  | inl e ↦ rw e (λ n. ground arith)
  | inr e ↦ rw e (
      Ends-bind (check_required_options p.inv.by_name (info p.inv.cmd).options) _
        (λ x. All (Present p.inv.by_name) (info p.inv.cmd).options) _
        (required-Present p.inv.by_name (info p.inv.cmd).options)
        (λ _ k.
          Ends-weaken (check_requires p.inv.by_name p.opt_required) _ _
            (requires-Present p.inv.by_name p.opt_required) (λ _ h _. (k, h))))
]

-- A successful parse is for the command that was given, and unless it has an immediate option, it
-- has a value for each required option of the command.
abbrev pub Complete : Command → Invocation → Type 0
Complete c i = (i.cmd ≡ c) × (i.immediate ≡ none → All (Present i.by_name) (info c).options)

build_by_name-cmd : (p : Parser) → (build_by_name p).inv.cmd ≡ p.inv.cmd
unfolding build_by_name
build_by_name-cmd p = refl

parameters-cmd :
    (l : Loop)
    → Ends
        (if has_parameters l.prs.inv.cmd then handle_parameters l.prs l.param_values else ok l.prs)
        (λ p. p.inv.cmd ≡ l.prs.inv.cmd)
parameters-cmd l = elim (Bool-cases (has_parameters l.prs.inv.cmd)) [
  | inl e ↦ rw e (
      Ends-weaken (handle_parameters l.prs l.param_values) _ _
        (handle_parameters-ends l.prs l.param_values) (λ q k. ap (λ i. i.cmd) k.0))
  | inr e ↦ rw e refl
]

with_parent-inv : (parent : Option Frame) (i : Invocation) → (with_parent parent i).inv ≡ i
unfolding with_parent
with_parent-inv none i = refl
with_parent-inv (some p) i = refl

Complete-of :
    (parent : Option Frame) (q : Parser) (c : Command) (ps : List Text)
    → q.inv.cmd ≡ c
    → Checked q
    → Complete c (with_parent parent (record (q.inv) { parameters = ps })).inv
Complete-of parent q c ps e v =
    rw (with_parent-inv parent (record (q.inv) { parameters = ps }))
      (e, λ n. subst (λ x. All (Present q.inv.by_name) (info x).options) e (v n).0)

finish-Complete :
    (parent : Option Frame) (l : Loop) (c : Command)
    → l.prs.inv.cmd ≡ c
    → Ends (finish parent l) (λ f. Complete c f.inv)
unfolding finish
finish-Complete parent l c e =
    Ends-bind (check_missed l) _ (λ x. Unit {0}) _ (check_missed-ends l)
      (λ _ _.
        Ends-bind
          (if has_parameters l.prs.inv.cmd
            then handle_parameters l.prs l.param_values
            else ok l.prs)
          _ (λ p. p.inv.cmd ≡ l.prs.inv.cmd) _ (parameters-cmd l)
          (λ p k.
            Ends-bind (validate_things (build_by_name p)) _ (λ x. Checked (build_by_name p)) _
              (validate-Checked (build_by_name p))
              (λ _ v. Complete-of parent (build_by_name p) c _ (k ∙ e) v)))

pub new_parser-start :
    (u : Unicode) (c : Command) (argv : List Text)
    → Ends (new_parser u c argv) (λ l. l ≡ start c argv)
unfolding new_parser
new_parser-start u c argv = ground (arith, verify-ends u c)

pub parse-Complete :
    (u : Unicode) (parent : Option Frame) (c : Command) (argv : List Text)
    → Ends (parse_with_parent u parent c argv) (λ f. Complete c f.inv)
unfolding parse_with_parent
parse-Complete u parent c argv =
    Ends-bind (new_parser u c argv) _ (λ l. l ≡ start c argv) _ (new_parser-start u c argv)
      (λ l e.
        Ends-bind (loop (length argv + 1) l) (finish parent) (SameCommand l) _
          (loop-ends (length argv + 1) l (rw e (omega arith)))
          (λ m k. finish-Complete parent m c (k ∙ ap (λ x. x.prs.inv.cmd) e)))

-- If a parse succeeds then the invocation is one of the given command, and if it has no immediate
-- option then it has values under the name of each required option of the command.
pub parse_required :
    (u : Unicode) (parent : Option Frame) (c : Command) (argv : List Text) (f : Frame)
    → parse_with_parent u parent c argv ≡ ok f
    → (f.inv.cmd ≡ c)
      × (f.inv.immediate ≡ none
          → All
              (λ o. o.required ≡ true → is_some (lookup o.name f.inv.by_name) ≡ true)
              (info c).options)
parse_required u parent c argv f h =
    Ends-ok (parse_with_parent u parent c argv) (λ f. Complete c f.inv) f
      (parse-Complete u parent c argv) h
