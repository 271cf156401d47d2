-- ===== src/Argv/Completion.antt =====
-- argv/parser.go: the completion of the last argument, with `Command.Complete` of argv/command.go.

use mfp.Argv.Candidates.{prepend, post_process}
use mfp.Argv.Strings.{common_prefix_slice}
use mfp.Argv.Parse.{find_sub_command, new_parser}
use mfp.Go.Text.{text_eq, codes, has_prefix, Text}
use mfp.Argv.Verify.{Unicode}
use mfp.Argv.Options.{find_option, split_opt_val, is_long_option, done, Split, Parser}
use mfp.Argv.Model.{
  Error, has_options, with_value, is_repeated, has_sub_commands, sub_commands, option_names, info,
  has_parameters, command_names, call_completer, Parameter, Completion, Completer, Command,
  CommandOption,
}
use mfp.Base.{
  ◌+◌, ◌>>=◌, ◌&&◌, length, ◌++◌, not, ltb, drop, Option, if◌then◌else◌, Bool, ℕ, Result, List, suc,
  true, none, false, zero, ◌∷◌, stuck, [], some, ok,
}
pub mod Joined
pub mod Rounds
pub mod Cases
pub mod Extends
mod Tests

-- `completeOptionName`: one option's names, and all options.
pub option_candidates : Text → CommandOption → List Text → List Completion
option_candidates arg opt [] = []
option_candidates arg opt (n ∷ ns) =
    let rest = option_candidates arg opt ns in
    if has_prefix n arg
    then (if with_value opt && is_long_option n
        then record { text = n ++ codes "="; no_space = true }
        else record { text = n; no_space = false })
      ∷ rest
    else rest

pub all_option_candidates : Text → List CommandOption → List Completion
unfolding option_candidates
all_option_candidates arg [] = []
all_option_candidates arg (o ∷ os) =
    option_candidates arg o (option_names o) ++ all_option_candidates arg os

pub complete_option_name : Parser → Text → List Completion
unfolding all_option_candidates post_process
complete_option_name p arg = post_process arg (all_option_candidates arg (info p.inv.cmd).options)

-- `completeOptionValue`
pub complete_option_value : CommandOption → Text → List Completion
unfolding post_process
complete_option_value opt arg = post_process arg (call_completer opt.complete arg)

-- `completeParameter`: the parameter of this number, or a repeated one in front of it.
pub find_parameter : List Parameter → ℕ → Option Parameter
find_parameter [] n = none
find_parameter (p ∷ ps) zero = some p
find_parameter (p ∷ ps) (suc n) = if is_repeated p then some p else find_parameter ps n

pub complete_parameter : Parser → Text → ℕ → List Completion
unfolding find_parameter post_process
complete_parameter p arg n = elim (find_parameter (info p.inv.cmd).parameters n) [
  | none ↦ []
  | some param ↦ post_process arg (call_completer param.complete arg)
]

-- `completeSubCommandName`
pub name_candidates : Text → List Text → List Completion
name_candidates arg [] = []
name_candidates arg (n ∷ ns) =
    if has_prefix n arg
    then record { text = n; no_space = false } ∷ name_candidates arg ns
    else name_candidates arg ns

pub sub_command_candidates : Text → List Command → List Completion
unfolding name_candidates
sub_command_candidates arg [] = []
sub_command_candidates arg (c ∷ cs) =
    name_candidates arg (command_names c) ++ sub_command_candidates arg cs

pub complete_sub_command_name : Parser → Text → List Completion
unfolding sub_command_candidates post_process
complete_sub_command_name p arg =
    post_process arg (sub_command_candidates arg (sub_commands p.inv.cmd))

-- How a round of the loop of `complete` ends: with the result, with the next round and its
-- `doneOptions` and `paramCount`, with the same behind one more argument, or in a sub-command.
pub data Next : Type 0 where
  answer : List Completion → Next
  go_on : Bool → ℕ → Next
  skip : Bool → ℕ → Next
  descend : Command → Next

-- The value of an option in an argument of its own, completed or skipped.
pub value_next : CommandOption → Bool → ℕ → List Text → Next
unfolding complete_option_value
value_next opt d n [] = go_on d n
value_next opt d n (val ∷ []) = answer (complete_option_value opt val)
value_next opt d n (val ∷ next ∷ rest) = skip d n

-- The value of an option in the same argument, and what stands before it there.
abbrev pub joined_prefix : Split → Text
joined_prefix s = if is_long_option s.name then s.name ++ codes "=" else s.name

pub joined_next : CommandOption → Split → Next
unfolding complete_option_value prepend
joined_next opt s = answer (prepend (joined_prefix s) (complete_option_value opt s.val))

-- The case of an argument that begins with `-`.
pub option_next : Parser → Bool → ℕ → Text → Next
unfolding value_next joined_next complete_option_name
option_next p d n arg =
    let s = split_opt_val arg in
    elim (find_option p s.name) [
      | none ↦
          if not (done p)
          then answer []
          else if s.novalue
          then answer (complete_option_name p arg)
          else answer []
      | some (i, opt) ↦
          if not (done p) && s.novalue && with_value opt
          then value_next opt d n p.rest
          else if done p
          then joined_next opt s
          else go_on d n
    ]

-- The case of `--`: long option names where it stands last and there are some.
pub dashes_next : ℕ → List Completion → Next
dashes_next n [] = go_on true n
dashes_next n (c ∷ cs) = answer (c ∷ cs)

pub sub_command_next : Parser → Text → Next
unfolding complete_sub_command_name
sub_command_next p arg =
    if done p
    then answer (complete_sub_command_name p arg)
    else elim (find_sub_command p.inv.cmd arg) [ ok c ↦ descend c | _ ↦ answer [] ]

-- One round of the loop; `p` is the parser behind `arg`.
pub complete_round : Parser → Bool → ℕ → Text → Next
unfolding dashes_next option_next sub_command_next complete_parameter complete_option_name
complete_round p d n arg =
    if not d && text_eq arg (codes "--")
    then dashes_next n (if done p then complete_option_name p arg else [])
    else if not d && has_prefix arg (codes "-")
    then option_next p d n arg
    else if has_sub_commands p.inv.cmd
    then sub_command_next p arg
    else if done p
    then answer (complete_parameter p arg n)
    else go_on d (n + 1)

-- What follows the loop.
pub complete_rest : Parser → ℕ → List Completion
unfolding complete_parameter complete_sub_command_name complete_option_name
complete_rest p n =
    if has_parameters p.inv.cmd
    then complete_parameter p [] n
    else if has_sub_commands p.inv.cmd
    then complete_sub_command_name p []
    else if has_options p.inv.cmd
    then complete_option_name p []
    else []

-- The rest of the completion behind a round, for the loop `again`. A sub-command has a parser of
-- its own.
pub follow :
    Unicode
    → (Parser → Bool → ℕ → Result Error (List Completion))
    → Parser
    → Next
    → Result Error (List Completion)
follow u again p (answer cs) = ok cs
follow u again p (go_on d n) = again p d n
follow u again p (skip d n) = again (record p { rest = drop 1 p.rest }) d n
follow u again p (descend c) = new_parser u c p.rest >>= λ l. again l.prs false 0

pub complete_on :
    Unicode
    → (Parser → Bool → ℕ → Result Error (List Completion))
    → Parser
    → Bool
    → ℕ
    → List Text
    → Result Error (List Completion)
unfolding follow complete_round complete_rest
complete_on u again p d n [] = ok (complete_rest p n)
complete_on u again p d n (arg ∷ rest) =
    let q = record p { rest = rest } in follow u again q (complete_round q d n arg)

-- The loop of `complete`, on fuel.
pub complete_loop : Unicode → ℕ → Parser → Bool → ℕ → Result Error (List Completion)
unfolding complete_on
complete_loop u zero p d n = stuck
complete_loop u (suc fuel) p d n = complete_on u (complete_loop u fuel) p d n p.rest

-- `Command.Complete`
pub complete : Unicode → Command → List Text → Result Error (List Completion)
unfolding complete_loop
complete u c argv = new_parser u c argv >>= λ l. complete_loop u (length argv + 1) l.prs false 0
