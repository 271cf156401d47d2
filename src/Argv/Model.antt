-- ===== src/Argv/Model.antt =====
-- The data of argv/command.go, option.go, parameter.go and completion.go, and the errors that the
-- package reports. An error value stands for its formatted message.
use mfp.Go.Text.{codes, has_suffix, has_prefix, Text}
use mfp.Base.{
  drop, ◌-◌, ◌||◌, ◌&&◌, length, take, ◌∷◌, not, if◌then◌else◌, [], ℕ, Option, List, Bool, none,
  some, true, false,
}

pub record Completion : Type 0 where
  pub text : Text
  pub no_space : Bool

-- `Completer`, and a `Validate` callback: `none` is nil, a text is the message of the error.
abbrev pub Completer : Type 0
Completer = Text → List Completion

abbrev pub Validator : Type 0
Validator = Text → Option Text

-- A handler, `func(context.Context, *Invocation) error`. Parsing only compares it with nil and
-- stores it, so a number that names the function stands for it.
abbrev pub Handler : Type 0
Handler = ℕ

-- `Option`
pub record CommandOption : Type 0 where
  pub name : Text
  pub aliases : List Text
  pub help : Text
  pub help_arg : Text
  pub conflicts : List Text
  pub requires : List Text
  pub required : Bool
  pub singleton : Bool
  pub validate : Option Validator
  pub complete : Option Completer
  pub immediate : Option Handler

pub record Parameter : Type 0 where
  pub name : Text
  pub help : Text
  pub validate : Option Validator
  pub complete : Option Completer

-- The fields of `Command` but the sub-commands.
pub record CommandInfo : Type 0 where
  pub name : Text
  pub aliases : List Text
  pub help : Text
  pub description : Text
  pub options : List CommandOption
  pub parameters : List Parameter
  pub no_options_after_parameters : Bool
  pub handler : Option Handler

mutual
  pub data Command : Type 0 where
    command : CommandInfo → Commands → Command

  pub data Commands : Type 0 where
    nil : Commands
    cons : Command → Commands → Commands

abbrev pub info : Command → CommandInfo
info (command i cs) = i

abbrev pub to_list : Commands → List Command
to_list nil = []
to_list (cons c cs) = c ∷ to_list cs

-- The field `SubCommands`.
abbrev pub sub_commands : Command → List Command
sub_commands (command i cs) = to_list cs

pub data Error : Type 0 where
  missed_command_name mutually_exclusive option_without_name parameter_without_name : Error
  missed_sub_command unhandled_command help_without_parent : Error
  in_command in_sub_command : Text → Error → Error
  duplicated_option duplicated_parameter duplicated_sub_command : Text → Error
  no_dash empty_option short_with_long missed_bracket empty_parameter : Text → Error
  invalid_option_char invalid_parameter_char : ℕ → Text → Error
  in_conflicts in_requires : Error → Error
  optional_after_repeated required_after_optional repeated_twice : Text → Text → Error
  unknown_option unexpected_parameter missed_parameter : Text → Error
  unknown_sub_command ambiguous_sub_command : Text → Error
  invalid_option_value invalid_parameter_value : Text → Text → Text → Error
  requires_operand option_repeated missed_option : Text → Error
  option_conflicts missed_required : Text → Text → Error

-- `(opt *Option) names()` and `(cmd *Command) names()`
abbrev pub option_names : CommandOption → List Text
option_names o = o.name ∷ o.aliases

abbrev pub command_names : Command → List Text
command_names c = (info c).name ∷ (info c).aliases

-- `withValue`
abbrev pub is_some {ℓ} : {A : Type ℓ} → Option A → Bool
is_some none = false
is_some (some a) = true

abbrev pub with_value : CommandOption → Bool
with_value o = is_some o.validate

-- `(opt *Option) complete` and `(param *Parameter) complete`
abbrev pub call_completer : Option Completer → Text → List Completion
call_completer none prefix = []
call_completer (some f) prefix = f prefix

-- `(param *Parameter) name()`, with `missed.StringsCutSuffix`
unfoldable pub cut_suffix : Text → Text → Text
cut_suffix s t = if has_suffix s t then take (length s - length t) s else s

unfoldable pub parameter_name : Parameter → Text
unfolding cut_suffix
parameter_name p =
    let bare =
      if has_prefix p.name (codes "[") && has_suffix p.name (codes "]")
      then take (length p.name - 2) (drop 1 p.name)
      else p.name in
    cut_suffix bare (codes "...")

abbrev pub is_optional : Parameter → Bool
is_optional p = has_prefix p.name (codes "[")

abbrev pub is_required : Parameter → Bool
is_required p = not (is_optional p)

abbrev pub is_repeated : Parameter → Bool
is_repeated p = has_suffix p.name (codes "...") || has_suffix p.name (codes "...]")

-- `hasOptions`, `hasParameters` and `hasSubCommands`
abbrev pub is_nonempty {ℓ} : {A : Type ℓ} → List A → Bool
is_nonempty [] = false
is_nonempty (x ∷ xs) = true

abbrev pub has_options : Command → Bool
has_options c = is_nonempty (info c).options

abbrev pub has_parameters : Command → Bool
has_parameters c = is_nonempty (info c).parameters

abbrev pub has_sub_commands : Command → Bool
has_sub_commands c = is_nonempty (sub_commands c)
