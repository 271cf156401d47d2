-- ===== src/Argv/Parse/Tests.antt =====
-- The theorems on parsing at a command with options and parameters, and at one with sub-commands.

use mfp.Go.Utf8.{encode_rune, runes}
use mfp.Argv.Options.{
  split_opt_val, is_short_option, next_value, add_all, insert_opt, lookup_opt, find_option,
  append_opt_val, handle_short_option,
}
use mfp.Go.Maps.{insert, lookup}
use mfp.Go.Text.{codes, Text}
use mfp.Argv.Verify.{
  verify_disposition, verify_parameter, verify_parameter_names, add_names, name_check,
  verify_name_syntax, verify_option, verify, Unicode,
}
use mfp.Argv.Parse.{round, parse_with_parent}
use mfp.Argv.Params.{handle_parameters, params_info}
use mfp.Argv.Invocation.{with_parent, Frame}
use mfp.Argv.Model.{
  parameter_name, is_some, CommandInfo, Parameter, CommandOption, Command, nil, command,
}
use mfp.Base.{◌||◌, ◌&&◌, ◌≢◌, ◌≡◌, leb, List, All, none, false, true, stuck, some, ◌∷◌, [], refl}
use mfp.Argv.Parse.Termination.{parse-ne-stuck}
use mfp.Argv.Parse.Required.{parse_required}

-- Letters of ASCII.
abbrev ascii : Unicode
ascii = record {
  is_letter = λ c. (leb b'a' c && leb c b'z') || (leb b'A' c && leb c b'Z');
  is_digit = λ c. leb b'0' c && leb c b'9';
}

abbrev output : CommandOption
output = record {
  name = codes "-o";
  aliases = codes "--output" ∷ [];
  help = [];
  help_arg = [];
  conflicts = [];
  requires = [];
  required = true;
  singleton = true;
  validate = some (λ v. none);
  complete = none;
  immediate = none;
}

abbrev named : Text → List Text → List CommandOption → List Parameter → CommandInfo
named name aliases options parameters = record {
  name = name;
  aliases = aliases;
  help = [];
  description = [];
  options = options;
  parameters = parameters;
  no_options_after_parameters = false;
  handler = none;
}

abbrev files : Parameter
files = record { name = codes "files..."; help = []; validate = none; complete = none }

abbrev convert : Command
convert = command (named (codes "convert") [] (output ∷ []) (files ∷ [])) nil

abbrev sample_argv : List Text
sample_argv = codes "-o" ∷ codes "x" ∷ codes "--" ∷ codes "-a" ∷ []

parse-ne-stuck_example : parse_with_parent ascii none convert sample_argv ≢ stuck
parse-ne-stuck_example = parse-ne-stuck ascii none convert sample_argv

abbrev sample_result : Frame
sample_result = record {
  inv = record {
    cmd = convert;
    argv = sample_argv;
    by_name =
        (codes "-o", codes "x" ∷ [])
        ∷ (codes "--output", codes "x" ∷ [])
        ∷ (codes "files", codes "-a" ∷ [])
        ∷ [];
    parameters = codes "-a" ∷ [];
    subcmd = none;
    subargv = [];
    immediate = none;
  };
  ancestors = [];
}

parse_required_example :
    (sample_result.inv.cmd ≡ convert)
    × (sample_result.inv.immediate ≡ none
        → All
            (λ o. o.required ≡ true → is_some (lookup o.name sample_result.inv.by_name) ≡ true)
            (output ∷ []))
unfolding parse_with_parent round parameter_name with_parent verify verify_option verify_name_syntax
    name_check add_names verify_parameter_names verify_parameter verify_disposition
    handle_short_option append_opt_val find_option lookup_opt insert_opt add_all next_value
    is_short_option split_opt_val params_info handle_parameters lookup insert runes encode_rune
parse_required_example = parse_required ascii none convert sample_argv sample_result refl
