-- ===== src/Argv/Parse/Termination.antt =====
-- The loop of `parse` in argv/parser.go: each round takes an argument.
use mfp.Argv.Verify.Progress.{verify-ends}
use mfp.Argv.Params.Progress.{handle_parameters-ends}
use mfp.Argv.Params.{handle_parameters}
use mfp.Argv.Invocation.{Frame}
use mfp.Argv.Verify.{Unicode}
use mfp.Argv.Options.{handle_long_option, handle_short_option, Parser}
use mfp.Argv.Model.{Command, info, has_parameters, CommandOption, is_some, Error}
use mfp.Go.Text.{Text}
use mfp.Argv.Options.Progress.{handle_long_option-Keeps, handle_short_option-Keeps, Keeps}
use mfp.Argv.Parse.{
  new_parser, build_by_name, validate_things, parse_with_parent, finish, check_requires,
  check_required_options, check_missed, advance, with_parser, one_candidate, loop_on,
  find_sub_command, round, loop, handle_sub_command, Loop,
}
use mfp.Base.{
  ◌≤◌, ◌+◌, Ends-ne-stuck, ◌≢◌, Option, if◌then◌else◌, stuck, ◌∙◌, Ends-weaken, Ends-bind,
  Bool-cases, ◌<◌, arith, List, length, Ends, ◌≡◌, ℕ, Result, ◌∷◌, inl, suc, [], inr, ok, refl,
  zero,
}

abbrev pub Fewer : Parser → Parser → Type 0
Fewer p q = (length q.rest ≤ length p.rest) × (q.inv.cmd ≡ p.inv.cmd)

abbrev pub Lesser : Loop → Loop → Type 0
Lesser l m = Fewer l.prs m.prs

lift :
    (l : Loop) (r : Result Error Parser) → Ends r (Keeps l.prs) → Ends (with_parser l r) (Lesser l)
lift l r h =
    Ends-bind r (λ q. ok (record l { prs = q })) (Keeps l.prs) (Lesser l) h (λ q k. (k.0, k.1))

sub_command-Fewer : (p : Parser) (arg : Text) → Ends (handle_sub_command p arg) (Fewer p)
unfolding handle_sub_command find_sub_command one_candidate
sub_command-Fewer p arg = ground arith

sub_command-Lesser :
    (l : Loop) (arg : Text) → Ends (with_parser l (handle_sub_command l.prs arg)) (Lesser l)
sub_command-Lesser l arg =
    Ends-bind (handle_sub_command l.prs arg) (λ q. ok (record l { prs = q })) (Fewer l.prs)
      (Lesser l) (sub_command-Fewer l.prs arg) (λ q k. k)

pub round-Lesser : (l : Loop) (arg : Text) → Ends (round l arg) (Lesser l)
unfolding round
round-Lesser l arg = ground (
  arith,
  lift l (handle_short_option l.prs arg) (handle_short_option-Keeps l.prs arg),
  lift l (handle_long_option l.prs arg) (handle_long_option-Keeps l.prs arg),
  sub_command-Lesser l arg,
)

abbrev pub SameCommand : Loop → Loop → Type 0
SameCommand l m = m.prs.inv.cmd ≡ l.prs.inv.cmd

loop_on-ends :
    (again : Loop → Result Error Loop) (l : Loop) (rest : List Text)
    → ((m : Loop) → length m.prs.rest < length rest → Ends (again m) (SameCommand m))
    → Ends (loop_on again l rest) (SameCommand l)
unfolding loop_on
loop_on-ends again l [] h = refl
loop_on-ends again l (arg ∷ rest) h = elim (Bool-cases (is_some l.prs.inv.subcmd)) [
  | inl e ↦ rw e refl
  | inr e ↦ rw e (
      Ends-bind (round (advance l rest) arg) again (Lesser (advance l rest)) (SameCommand l)
        (round-Lesser (advance l rest) arg)
        (λ m k.
          Ends-weaken (again m) (SameCommand m) (SameCommand l) (h m (omega arith))
            (λ n x. x ∙ k.1)))
]

pub loop-ends :
    (fuel : ℕ) (l : Loop) → length l.prs.rest < fuel → Ends (loop fuel l) (SameCommand l)
unfolding loop
loop-ends zero l h = absurd (omega arith)
loop-ends (suc fuel) l h =
    loop_on-ends (loop fuel) l l.prs.rest (λ m k. loop-ends fuel m (omega arith))

pub check_missed-ends : (l : Loop) → Ends (check_missed l) (λ x. Unit {0})
unfolding check_missed
check_missed-ends l = ground arith

required-ends :
    (m : List (Text × List Text)) (os : List CommandOption)
    → Ends (check_required_options m os) (λ x. Unit {0})
unfolding check_required_options
required-ends m [] = tt
required-ends m (o ∷ os) = ground (arith, required-ends m os)

requires-ends :
    (m : List (Text × List Text)) (rs : List (Text × Text))
    → Ends (check_requires m rs) (λ x. Unit {0})
unfolding check_requires
requires-ends m [] = tt
requires-ends m ((k, by) ∷ rs) = ground (arith, requires-ends m rs)

pub validate_things-ends : (p : Parser) → Ends (validate_things p) (λ x. Unit {0})
unfolding validate_things
validate_things-ends p = elim (Bool-cases (is_some p.inv.immediate)) [
  | inl e ↦ rw e tt
  | inr e ↦ rw e (
      Ends-bind (check_required_options p.inv.by_name (info p.inv.cmd).options) _ (λ x. Unit {0}) _
        (required-ends p.inv.by_name (info p.inv.cmd).options)
        (λ _ _. requires-ends p.inv.by_name p.opt_required))
]

pub parameters-end :
    (l : Loop)
    → Ends
        (if has_parameters l.prs.inv.cmd then handle_parameters l.prs l.param_values else ok l.prs)
        (λ x. Unit {0})
parameters-end l = elim (Bool-cases (has_parameters l.prs.inv.cmd)) [
  | inl e ↦ rw e (
      Ends-weaken (handle_parameters l.prs l.param_values) _ _
        (handle_parameters-ends l.prs l.param_values) (λ _ _. tt))
  | inr e ↦ rw e tt
]

finish-ends : (parent : Option Frame) (l : Loop) → Ends (finish parent l) (λ x. Unit {0})
unfolding finish
finish-ends parent l =
    Ends-bind (check_missed l) _ (λ x. Unit {0}) _ (check_missed-ends l)
      (λ _ _.
        Ends-bind
          (if has_parameters l.prs.inv.cmd
            then handle_parameters l.prs l.param_values
            else ok l.prs)
          _ (λ x. Unit {0}) _ (parameters-end l)
          (λ p _.
            Ends-bind (validate_things (build_by_name p)) _ (λ x. Unit {0}) _
              (validate_things-ends (build_by_name p)) (λ _ _. tt)))

pub new_parser-ends :
    (u : Unicode) (c : Command) (argv : List Text)
    → Ends (new_parser u c argv) (λ l. l.prs.rest ≡ argv)
unfolding new_parser
new_parser-ends u c argv = ground (arith, verify-ends u c)

-- `ParseWithParent` comes to an end on every command line: its loop never uses up the fuel that the
-- model gives it, one round more than there are arguments.
pub parse-ne-stuck :
    (u : Unicode) (parent : Option Frame) (c : Command) (argv : List Text)
    → parse_with_parent u parent c argv ≢ stuck
unfolding parse_with_parent
parse-ne-stuck u parent c argv =
    Ends-ne-stuck (parse_with_parent u parent c argv) (λ x. Unit {0})
      (Ends-bind (new_parser u c argv) _ (λ l. l.prs.rest ≡ argv) _ (new_parser-ends u c argv)
        (λ l e.
          Ends-bind (loop (length argv + 1) l) (finish parent) (λ m. Unit {0}) _
            (Ends-weaken (loop (length argv + 1) l) (SameCommand l) _
              (loop-ends (length argv + 1) l (rw e (omega arith))) (λ _ _. tt))
            (λ m _. finish-ends parent m)))
