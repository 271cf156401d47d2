-- ===== src/Argv/Parse/Arguments.antt =====
-- The loop of `parse` in argv/parser.go and `handleSubCommand`: the arguments that are left to a
-- sub-command.

use mfp.Argv.Params.{values_of, handle_parameters}
use mfp.Argv.Verify.{Unicode}
use mfp.Argv.Model.{has_parameters, is_some, Command, Error}
use mfp.Go.Text.{Text}
use mfp.Argv.Options.{handle_long_option, handle_short_option, Parser}
use mfp.Argv.Invocation.{Frame, with_parent, Invocation}
use mfp.Argv.Parse.{
  start, finish, build_by_name, validate_things, check_missed, parse_with_parent, new_parser, loop,
  advance, one_candidate, loop_on, find_sub_command, with_parser, Loop, round, handle_sub_command,
}
use mfp.Base.{
  ◌+◌, Ends-weaken, Option, if◌then◌else◌, Ends-both, some, zero, suc, Bool-cases, List, ◌∷◌, [],
  Ends-bind, Ends, ◌⊎◌, ◌≤◌, ◌<◌, arith, ◌≡◌, ◌∙◌, length, Result, ℕ, inl, ok, inr, none, refl,
}
use mfp.Argv.Options.Progress.{Keeps, handle_short_option-Keeps, handle_long_option-Keeps}
use mfp.Argv.Params.Progress.{handle_parameters-ends}
use mfp.Argv.Parse.Required.{new_parser-start}
use mfp.Argv.Parse.Termination.{
  Lesser, round-Lesser, check_missed-ends, validate_things-ends, parameters-end,
}

-- A sub-command has fewer arguments than `n`.
abbrev pub Leaves : ℕ → Invocation → Type 0
Leaves n i = (i.subcmd ≡ none) ⊎ (length i.subargv < n)

-- The same of the parser, and at most `n` arguments are left in the loop.
abbrev Below : ℕ → Parser → Type 0
Below n p = Leaves n p.inv × (length p.rest ≤ n)

abbrev LoopBelow : ℕ → Loop → Type 0
LoopBelow n l = Below n l.prs

Keeps-Below : (n : ℕ) (p q : Parser) → Below n p → Keeps p q → Below n q
Keeps-Below n p q (inl s, h) k = (inl (k.2 ∙ s), omega arith)
Keeps-Below n p q (inr a, h) k = (inr (rw k.3 a), omega arith)

option-Below :
    (n : ℕ) (l : Loop) (r : Result Error Parser)
    → LoopBelow n l
    → Ends r (Keeps l.prs)
    → Ends (with_parser l r) (LoopBelow n)
option-Below n l r b h =
    Ends-bind r (λ q. ok (record l { prs = q })) (Keeps l.prs) (LoopBelow n) h
      (λ q k. Keeps-Below n l.prs q b k)

find-ends : (c : Command) (name : Text) → Ends (find_sub_command c name) (λ d. Unit {0})
unfolding find_sub_command one_candidate
find-ends c name = ground arith

sub_command-Below :
    (n : ℕ) (l : Loop) (arg : Text)
    → length l.prs.rest < n
    → Ends (with_parser l (handle_sub_command l.prs arg)) (LoopBelow n)
unfolding handle_sub_command
sub_command-Below n l arg h =
    Ends-bind (handle_sub_command l.prs arg) (λ q. ok (record l { prs = q })) (Below n)
      (LoopBelow n)
      (Ends-bind (find_sub_command l.prs.inv.cmd arg) _ (λ d. Unit {0}) (Below n)
        (find-ends l.prs.inv.cmd arg) (λ d _. (inr h, omega arith)))
      (λ q b. b)

round-Below :
    (n : ℕ) (l : Loop) (arg : Text)
    → LoopBelow n l
    → length l.prs.rest < n
    → Ends (round l arg) (LoopBelow n)
unfolding round
round-Below n l arg b h = ground (
  arith,
  option-Below n l (handle_short_option l.prs arg) b (handle_short_option-Keeps l.prs arg),
  option-Below n l (handle_long_option l.prs arg) b (handle_long_option-Keeps l.prs arg),
  sub_command-Below n l arg h,
)

loop_on-Below :
    (n : ℕ) (again : Loop → Result Error Loop) (l : Loop) (args : List Text)
    → l.prs.rest ≡ args
    → LoopBelow n l
    → ((m : Loop) → length m.prs.rest < length args → LoopBelow n m → Ends (again m) (LoopBelow n))
    → Ends (loop_on again l args) (LoopBelow n)
unfolding loop_on
loop_on-Below n again l [] e b k = b
loop_on-Below n again l (arg ∷ rest) e b k = elim (Bool-cases (is_some l.prs.inv.subcmd)) [
  | inl s ↦ rw s b
  | inr s ↦
      let room : length (arg ∷ rest) ≤ n = rw e at b.1 in
      rw s (
        Ends-bind (round (advance l rest) arg) again
          (λ m. LoopBelow n m × Lesser (advance l rest) m) (LoopBelow n)
          (Ends-both (round (advance l rest) arg) (LoopBelow n) (Lesser (advance l rest))
            (round-Below n (advance l rest) arg (b.0, omega arith) (omega arith))
            (round-Lesser (advance l rest) arg))
          (λ m c. k m (omega arith) c.0))
]

loop-Below :
    (n fuel : ℕ) (l : Loop)
    → length l.prs.rest < fuel
    → LoopBelow n l
    → Ends (loop fuel l) (LoopBelow n)
unfolding loop
loop-Below n zero l h b = absurd (omega arith)
loop-Below n (suc fuel) l h b =
    loop_on-Below n (loop fuel) l l.prs.rest refl b (λ m k c. loop-Below n fuel m (omega arith) c)

parameters-Leaves :
    (n : ℕ) (l : Loop)
    → Leaves n l.prs.inv
    → Ends
        (if has_parameters l.prs.inv.cmd then handle_parameters l.prs l.param_values else ok l.prs)
        (λ p. Leaves n p.inv)
parameters-Leaves n l b = elim (Bool-cases (has_parameters l.prs.inv.cmd)) [
  | inl e ↦ rw e (
      Ends-weaken (handle_parameters l.prs l.param_values) _ _
        (handle_parameters-ends l.prs l.param_values) (λ q k. rw k.0 b))
  | inr e ↦ rw e b
]

parent-Leaves :
    (n : ℕ) (parent : Option Frame) (i : Invocation)
    → Leaves n i
    → Leaves n (with_parent parent i).inv
unfolding with_parent
parent-Leaves n none i h = h
parent-Leaves n (some p) i h = h

finish-Leaves :
    (n : ℕ) (parent : Option Frame) (l : Loop)
    → Leaves n l.prs.inv
    → Ends (finish parent l) (λ f. Leaves n f.inv)
unfolding finish
finish-Leaves n parent l b =
    Ends-bind (check_missed l) _ (λ x. Unit {0}) _ (check_missed-ends l)
      (λ _ _.
        Ends-bind
          (if has_parameters l.prs.inv.cmd
            then handle_parameters l.prs l.param_values
            else ok l.prs)
          _ (λ p. Leaves n p.inv) _ (parameters-Leaves n l b)
          (λ p k.
            Ends-bind (validate_things (build_by_name p)) _ (λ x. Unit {0}) _
              (validate_things-ends (build_by_name p))
              (λ _ _.
                parent-Leaves n parent
                  (record ((build_by_name p).inv) {
                    parameters = values_of (build_by_name p).parameters;
                  })
                  (unfold build_by_name in k))))

start-Below : (c : Command) (argv : List Text) → LoopBelow (length argv) (start c argv)
start-Below c argv = (inl refl, omega arith)

-- A parsed sub-command has fewer arguments than its command had.
pub parse-Leaves :
    (u : Unicode) (parent : Option Frame) (c : Command) (argv : List Text)
    → Ends (parse_with_parent u parent c argv) (λ f. Leaves (length argv) f.inv)
unfolding parse_with_parent
parse-Leaves u parent c argv =
    Ends-bind (new_parser u c argv) _ (λ l. l ≡ start c argv) _ (new_parser-start u c argv)
      (λ l e.
        Ends-bind (loop (length argv + 1) l) (finish parent) (LoopBelow (length argv)) _
          (loop-Below (length argv) (length argv + 1) l (rw e (omega arith))
            (rw e (start-Below c argv)))
          (λ m k. finish-Leaves (length argv) parent m k.0))

-- The invocations above one that is parsed for this parent.
abbrev pub above : Option Frame → List Invocation
above none = []
above (some p) = p.inv ∷ p.ancestors

parent-above :
    (parent : Option Frame) (i : Invocation) → (with_parent parent i).ancestors ≡ above parent
unfolding with_parent
parent-above none i = refl
parent-above (some p) i = refl

finish-above :
    (parent : Option Frame) (l : Loop) → Ends (finish parent l) (λ f. f.ancestors ≡ above parent)
unfolding finish
finish-above parent l =
    Ends-bind (check_missed l) _ (λ x. Unit {0}) _ (check_missed-ends l)
      (λ _ _.
        Ends-bind
          (if has_parameters l.prs.inv.cmd
            then handle_parameters l.prs l.param_values
            else ok l.prs)
          _ (λ x. Unit {0}) _ (parameters-end l)
          (λ p _.
            Ends-bind (validate_things (build_by_name p)) _ (λ x. Unit {0}) _
              (validate_things-ends (build_by_name p)) (λ _ _. parent-above parent _)))

pub parse-above :
    (u : Unicode) (parent : Option Frame) (c : Command) (argv : List Text)
    → Ends (parse_with_parent u parent c argv) (λ f. f.ancestors ≡ above parent)
unfolding parse_with_parent
parse-above u parent c argv =
    Ends-bind (new_parser u c argv) _ (λ l. l ≡ start c argv) _ (new_parser-start u c argv)
      (λ l e.
        Ends-bind (loop (length argv + 1) l) (finish parent) (LoopBelow (length argv)) _
          (loop-Below (length argv) (length argv + 1) l (rw e (omega arith))
            (rw e (start-Below c argv)))
          (λ m _. finish-above parent m))
