-- ===== src/Argv/Completion/Tests.antt =====
-- The theorems on `Complete` at a command with an option and two sub-commands.

use mfp.Argv.Strings.{common_prefix_slice}
use mfp.Argv.Candidates.{post_process}
use mfp.Argv.Parse.{new_parser}
use mfp.Go.Text.{has_prefix, codes, Text}
use mfp.Argv.Verify.{add_names, verify_disposition, verify_parameter_names, verify, Unicode}
use mfp.Argv.Completion.{complete}
use mfp.Argv.Model.{Completion, CommandInfo, Command, cons, nil, command}
use mfp.Base.{◌≡◌, ◌||◌, ◌≢◌, ◌&&◌, leb, All, List, ◌∷◌, none, [], true, refl, false, stuck}
use mfp.Argv.Completion.Extends.{complete-ne-stuck, complete-Extends}

-- Letters of ASCII.
abbrev ascii : Unicode
ascii = record {
  is_letter = λ c. (leb b'a' c && leb c b'z') || (leb b'A' c && leb c b'Z');
  is_digit = λ c. leb b'0' c && leb c b'9';
}

abbrev named : Text → CommandInfo
named name = record {
  name = name;
  aliases = [];
  help = [];
  description = [];
  options = [];
  parameters = [];
  no_options_after_parameters = false;
  handler = none;
}

abbrev tool : Command
tool =
    command (named (codes "tool"))
      (cons (command (named (codes "list")) nil) (cons (command (named (codes "log")) nil) nil))

complete-ne-stuck_example : complete ascii tool (codes "l" ∷ []) ≢ stuck
complete-ne-stuck_example = complete-ne-stuck ascii tool (codes "l" ∷ [])

abbrev found : List Completion
found =
    record { text = codes "list"; no_space = false }
    ∷ record { text = codes "log"; no_space = false }
    ∷ []

complete-Extends_example : All (λ x. has_prefix x.text (codes "l") ≡ true) found
unfolding complete new_parser verify verify_parameter_names verify_disposition add_names
    post_process common_prefix_slice
complete-Extends_example = complete-Extends ascii tool [] (codes "l") found refl refl
