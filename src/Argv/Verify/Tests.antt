-- ===== src/Argv/Verify/Tests.antt =====
-- The theorems on `Verify` at a small command.

use mfp.Go.Maps.{Distinct}
use mfp.Go.Utf8.{encode_rune, runes}
use mfp.Go.Text.{codes, Text}
use mfp.Argv.Verify.{
  verify_parameter_names, add_names, name_check, verify_name_syntax, verify_option,
  verify_disposition, verify, Unicode,
}
use mfp.Base.{◌↔◌, ◌||◌, ◌≡◌, ◌&&◌, leb, List, refl, ok, none, false, [], ◌∷◌}
use mfp.Argv.Model.{Parameter, CommandOption, Command, nil, command}
use mfp.Argv.Verify.Names.{verify-Distinct, all_names}
use mfp.Argv.Verify.Disposition.{verify_disposition_iff, IsOrdered}

-- Letters and digits of ASCII.
abbrev ascii : Unicode
ascii = record {
  is_letter = λ c. (leb b'a' c && leb c b'z') || (leb b'A' c && leb c b'Z');
  is_digit = λ c. leb b'0' c && leb c b'9';
}

abbrev sample_option : Text → Text → CommandOption
sample_option name alias = record {
  name = name;
  aliases = alias ∷ [];
  help = [];
  help_arg = [];
  conflicts = [];
  requires = [];
  required = false;
  singleton = false;
  validate = none;
  complete = none;
  immediate = none;
}

abbrev sample_options : List CommandOption
sample_options =
    sample_option (codes "-v") (codes "--verbose")
    ∷ sample_option (codes "-q") (codes "--quiet")
    ∷ []

abbrev sample_command : Command
sample_command =
    command
      (record {
        name = codes "scan";
        aliases = [];
        help = [];
        description = [];
        options = sample_options;
        parameters = [];
        no_options_after_parameters = false;
        handler = none;
      })
      nil

verify-Distinct_example : Distinct (all_names sample_options)
unfolding verify runes encode_rune verify_option verify_name_syntax name_check add_names
    verify_parameter_names verify_disposition
verify-Distinct_example = verify-Distinct ascii sample_command refl

abbrev sample_parameter : Text → Parameter
sample_parameter name = record { name = name; help = []; validate = none; complete = none }

verify_disposition_iff_example :
    (verify_disposition none none
        (sample_parameter (codes "input") ∷ sample_parameter (codes "[output]") ∷ [])
      ≡ ok tt)
    ↔ IsOrdered (sample_parameter (codes "input") ∷ sample_parameter (codes "[output]") ∷ [])
verify_disposition_iff_example =
    verify_disposition_iff
      (sample_parameter (codes "input") ∷ sample_parameter (codes "[output]") ∷ [])
