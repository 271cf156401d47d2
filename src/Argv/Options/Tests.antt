-- ===== src/Argv/Options/Tests.antt =====
-- The theorems on options at a command with a flag and an option with a value.

use mfp.Go.Maps.{lookup}
use mfp.Go.Text.{codes, Text}
use mfp.Argv.Options.{
  add_all, insert_opt, handle_long_option, lookup_opt, is_long_option, handle_short_option,
  find_option, append_opt_val, Parser,
}
use mfp.Base.{◌≢◌, ℕ, arith, ◌≡◌, Option, true, some, ◌∷◌, panic, refl, false, none, []}
use mfp.Argv.Model.{Validator, CommandOption, Command, nil, command}
use mfp.Argv.Options.Append.{values_at, append_lem}
use mfp.Argv.Options.Combined.{short_combined, each}
use mfp.Argv.Options.Spellings.{flag_with_value}

-- An option with no more than a name, an alias and perhaps a value.
abbrev sample_option : Text → Text → Option Validator → CommandOption
sample_option name alias validate = record {
  name = name;
  aliases = alias ∷ [];
  help = [];
  help_arg = [];
  conflicts = [];
  requires = [];
  required = false;
  singleton = false;
  validate = validate;
  complete = none;
  immediate = none;
}

abbrev short_ones : CommandOption
short_ones = sample_option (codes "-v") (codes "--verbose") none

abbrev with_output : CommandOption
with_output = sample_option (codes "-o") (codes "--output") (some (λ s. none))

abbrev sample_command : Command
sample_command =
    command
      (record {
        name = codes "convert";
        aliases = [];
        help = [];
        description = [];
        options = short_ones ∷ with_output ∷ [];
        parameters = [];
        no_options_after_parameters = false;
        handler = none;
      })
      nil

abbrev sample_parser : Parser
sample_parser = record {
  inv = record {
    cmd = sample_command;
    argv = [];
    by_name = [];
    parameters = [];
    subcmd = none;
    subargv = [];
    immediate = none;
  };
  rest = [];
  opt_conflicts = [];
  opt_required = [];
  options = [];
  parameters = [];
}

flag_with_value_example : handle_long_option sample_parser (codes "--verbose=x") ≡ panic
unfolding find_option is_long_option
flag_with_value_example =
    flag_with_value sample_parser 0 short_ones (codes "--verbose") (codes "x") refl refl refl refl

-- Also the letter that names no option is a flag here: both ways report it.
short_combined_example :
    handle_short_option sample_parser (codes "-vxv") ≡ each sample_parser (codes "vxv")
unfolding find_option
short_combined_example = short_combined sample_parser b'v' b'x' (b'v' ∷ []) (
  (omega arith, omega arith, refl),
  ((omega arith, omega arith, refl), ((omega arith, omega arith, refl), tt)),
)

-- The parser behind `-o x`.
abbrev behind_output : Parser
behind_output = record sample_parser {
  options = (1, record { opt = with_output; name = codes "-o"; values = codes "x" ∷ [] }) ∷ [];
}

append_lem_example :
    (values_at 1 behind_output ≡ codes "x" ∷ [])
    × ((j : ℕ) → 1 ≢ j → lookup_opt j behind_output.options ≡ lookup_opt j [])
    × (lookup (codes "-o") sample_parser.opt_conflicts ≡ none)
    × (false ≡ true → lookup_opt 1 [] ≡ none)
    × (behind_output.inv.immediate ≡ none)
    × (behind_output.inv.cmd ≡ sample_command)
    × (behind_output.rest ≡ [])
    × (behind_output.inv.subcmd ≡ none)
unfolding append_opt_val lookup_opt lookup insert_opt add_all
append_lem_example =
    append_lem sample_parser 1 with_output (codes "-o") (codes "x") false behind_output refl
