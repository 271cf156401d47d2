-- ===== src/Argv/Parse.antt =====
-- The rest of argv/parser.go's parsing: `handleSubCommand`, `buildByName`, `validateThings`, the
-- loop of `parse`, and `FindSubCommand` of argv/command.go.
pub mod Termination
pub mod Required
pub mod Arguments
pub mod ByName
pub mod SubCommands
pub mod Dashes
mod Tests
use mfp.Argv.Params.{values_of, handle_parameters, params_info}
use mfp.Go.Maps.{lookup, insert}
use mfp.Argv.Invocation.{with_parent, Frame}
use mfp.Go.Text.{has_prefix, codes, text_eq, Text}
use mfp.Argv.Verify.{verify, Unicode}
use mfp.Argv.Options.{
  handle_long_option, is_long_option, handle_short_option, is_short_option, OptVal, Parser,
}
use mfp.Argv.Model.{
  has_parameters, has_sub_commands, is_some, parameter_name, option_names, info, command_names,
  sub_commands, Parameter, Error, CommandOption, Command, ambiguous_sub_command, missed_sub_command,
  missed_required, missed_parameter, unknown_sub_command, missed_option, unexpected_parameter,
}
use mfp.Base.{
  ◌||◌, get_elem?, ◌++◌, ◌+◌, ◌&&◌, not, ltb, length, if◌then◌else◌, ◌⊎◌, ◌∷◌, Bool, ℕ, Result,
  Option, List, inl, some, false, ok, err, [], none, inr, zero, true, panic, suc, stuck, ◌>>=◌,
  ◌>>◌,
}

-- `FindSubCommandCandidates`: an exact match alone, or all whose name begins so, once for each
-- such name.
candidates_names : Text → Command → List Text → List Command → List Command ⊎ List Command
candidates_names name c [] inexact = inr inexact
candidates_names name c (n ∷ ns) inexact =
    if text_eq n name
    then inl (c ∷ [])
    else candidates_names name c ns (if has_prefix n name then inexact ++ c ∷ [] else inexact)

-- The exact match ends the search; otherwise it goes on with the inexact ones.
abbrev continue_with : (List Command → List Command) → List Command ⊎ List Command → List Command
continue_with again (inl exact) = exact
continue_with again (inr inexact) = again inexact

candidates : Text → List Command → List Command → List Command
unfolding candidates_names
candidates name [] inexact = inexact
candidates name (c ∷ cs) inexact =
    continue_with (candidates name cs) (candidates_names name c (command_names c) inexact)

unfoldable pub find_sub_command_candidates : Command → Text → List Command
unfolding candidates
find_sub_command_candidates c name = candidates name (sub_commands c) []

-- `FindSubCommand`
one_candidate : Text → List Command → Result Error Command
one_candidate name [] = err (unknown_sub_command name)
one_candidate name (c ∷ []) = ok c
one_candidate name (c ∷ d ∷ cs) = err (ambiguous_sub_command name)

unfoldable pub find_sub_command : Command → Text → Result Error Command
unfolding one_candidate
find_sub_command c name = one_candidate name (find_sub_command_candidates c name)

pub handle_sub_command : Parser → Text → Result Error Parser
handle_sub_command p arg = do
  c ← find_sub_command p.inv.cmd arg
  ok (record p { inv = record (p.inv) { subcmd = some c; subargv = p.rest } })

-- `buildByName`
abbrev set_all : List Text → List Text → List (Text × List Text) → List (Text × List Text)
set_all [] vals m = m
set_all (n ∷ ns) vals m = set_all ns vals (insert n vals m)

pub options_by_name : List (ℕ × OptVal) → List (Text × List Text) → List (Text × List Text)
options_by_name [] m = m
options_by_name ((i, v) ∷ os) m = options_by_name os (set_all (option_names v.opt) v.values m)

abbrev values_or_nil : Option (List Text) → List Text
values_or_nil none = []
values_or_nil (some vs) = vs

pub parameters_by_name : List (Parameter × Text) → List (Text × List Text) → List (Text × List Text)
parameters_by_name [] m = m
parameters_by_name ((p, v) ∷ ps) m =
    let name = parameter_name p in
    parameters_by_name ps (insert name (values_or_nil (lookup name m) ++ v ∷ []) m)

pub build_by_name : Parser → Parser
unfolding options_by_name parameters_by_name
build_by_name p = record p {
  inv = record (p.inv) {
    by_name = parameters_by_name p.parameters (options_by_name p.options p.inv.by_name);
  };
}

-- `validateThings`
pub check_required_options : List (Text × List Text) → List CommandOption → Result Error (Unit {0})
check_required_options m [] = ok tt
check_required_options m (o ∷ os) =
    if o.required && not (is_some (lookup o.name m))
    then err (missed_option o.name)
    else check_required_options m os

pub check_requires : List (Text × List Text) → List (Text × Text) → Result Error (Unit {0})
check_requires m [] = ok tt
check_requires m ((required, by) ∷ rs) =
    if is_some (lookup required m) then check_requires m rs else err (missed_required required by)

pub validate_things : Parser → Result Error (Unit {0})
unfolding check_required_options check_requires
validate_things p = if is_some p.inv.immediate then ok tt else do
  check_required_options p.inv.by_name (info p.inv.cmd).options
  check_requires p.inv.by_name p.opt_required

-- The variables of the loop of `parse`.
pub record Loop : Type 0 where
  pub prs : Parser
  pub done_options : Bool
  pub param_values : List Text

abbrev with_parser : Loop → Result Error Parser → Result Error Loop
with_parser l m = m >>= λ q. ok (record l { prs = q })

-- One round, on the argument that `next` returned.
unfoldable pub round : Loop → Text → Result Error Loop
unfolding handle_sub_command
round l arg =
    let c = l.prs.inv.cmd in
    if not l.done_options && text_eq arg (codes "--")
    then ok (record l { done_options = true })
    else if not l.done_options && is_short_option arg
    then with_parser l (handle_short_option l.prs arg)
    else if not l.done_options && is_long_option arg
    then with_parser l (handle_long_option l.prs arg)
    else if has_sub_commands c
    then with_parser l (handle_sub_command l.prs arg)
    else if ltb (length l.param_values) (params_info (info c).parameters).1
    then ok (record l {
      done_options = l.done_options || (info c).no_options_after_parameters;
      param_values = l.param_values ++ arg ∷ [];
    })
    else err (unexpected_parameter arg)

-- `prs.nextarg++`
abbrev pub advance : Loop → List Text → Loop
advance l rest = record l { prs = record (l.prs) { rest = rest } }

-- The loop, on fuel; `rest` is `l.prs.rest`.
loop_on : (Loop → Result Error Loop) → Loop → List Text → Result Error Loop
loop_on again l [] = ok l
loop_on again l (arg ∷ rest) =
    if is_some l.prs.inv.subcmd then ok l else round (advance l rest) arg >>= again

pub loop : ℕ → Loop → Result Error Loop
unfolding loop_on
loop zero l = stuck
loop (suc fuel) l = loop_on (loop fuel) l l.prs.rest

-- The checks behind the loop.
check_count : Loop → Result Error (Unit {0})
check_count l =
    let params = (info l.prs.inv.cmd).parameters in
    if ltb (length l.param_values) (params_info params).0
    then elim (get_elem? params (length l.param_values)) [
      | none ↦ panic
      | some p ↦ err (missed_parameter p.name)
    ]
    else ok tt

pub check_missed : Loop → Result Error (Unit {0})
unfolding check_count
check_missed l = if is_some l.prs.inv.immediate then ok tt else do
  check_count l
  if has_sub_commands l.prs.inv.cmd && not (is_some l.prs.inv.subcmd)
      then err missed_sub_command
      else ok tt

-- What follows the loop.
pub finish : Option Frame → Loop → Result Error Frame
unfolding check_missed build_by_name validate_things
finish parent l = do
  check_missed l
  p ← (if has_parameters l.prs.inv.cmd then handle_parameters l.prs l.param_values else ok l.prs)
  let q = build_by_name p
  validate_things q
  ok (with_parent parent (record (q.inv) { parameters = values_of q.parameters }))

-- `newParser`, which panics on a command that `Verify` does not accept.
abbrev pub start : Command → List Text → Loop
start c argv = record {
  prs = record {
    inv = record {
      cmd = c;
      argv = argv;
      by_name = [];
      parameters = [];
      subcmd = none;
      subargv = [];
      immediate = none;
    };
    rest = argv;
    opt_conflicts = [];
    opt_required = [];
    options = [];
    parameters = [];
  };
  done_options = false;
  param_values = [];
}

unfoldable pub new_parser : Unicode → Command → List Text → Result Error Loop
new_parser u c argv = elim (verify u c) [
  | ok x ↦ ok (start c argv)
  | err e ↦ panic
  | panic ↦ panic
  | stuck ↦ stuck
]

-- `ParseWithParent`; each round takes an argument, so one round more than there are is enough.
unfoldable pub parse_with_parent : Unicode → Option Frame → Command → List Text → Result Error Frame
unfolding new_parser loop finish
parse_with_parent u parent c argv = do
  l ← new_parser u c argv
  done ← loop (length argv + 1) l
  finish parent done
