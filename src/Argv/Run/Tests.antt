-- ===== src/Argv/Run/Tests.antt =====
-- The theorems on `Run` at a command with a sub-command that has a handler.

use mfp.Argv.Params.{params_info}
use mfp.Argv.Options.{is_long_option, is_short_option}
use mfp.Argv.Parse.{find_sub_command_candidates, find_sub_command, round, parse_with_parent}
use mfp.Go.Text.{codes, Text}
use mfp.Argv.Verify.{add_names, verify_disposition, verify_parameter_names, verify, Unicode}
use mfp.Argv.Invocation.{with_parent, Invocation, Frame}
use mfp.Argv.Model.{CommandInfo, Handler, Command, nil, command, cons}
use mfp.Base.{◌||◌, ◌&&◌, ◌≢◌, leb, Option, List, none, some, refl, [], false, stuck, ◌∷◌}
use mfp.Argv.Run.{run}
use mfp.Argv.Run.Dispatch.{run-ne-stuck, run-Linked, Linked, IsChosen, witnessed}

-- Letters of ASCII.
abbrev ascii : Unicode
ascii = record {
  is_letter = λ c. (leb b'a' c && leb c b'z') || (leb b'A' c && leb c b'Z');
  is_digit = λ c. leb b'0' c && leb c b'9';
}

abbrev named : Text → Option Handler → CommandInfo
named name handler = record {
  name = name;
  aliases = [];
  help = [];
  description = [];
  options = [];
  parameters = [];
  no_options_after_parameters = false;
  handler = handler;
}

abbrev list : Command
list = command (named (codes "list") (some 7)) nil

abbrev tool : Command
tool = command (named (codes "tool") none) (cons list nil)

run-ne-stuck_example : run ascii witnessed tool (codes "list" ∷ []) ≢ stuck
run-ne-stuck_example = run-ne-stuck ascii witnessed (λ h f e. cc) tool (codes "list" ∷ [])

abbrev invoked : Command → List Text → Option Command → Invocation
invoked c argv sub = record {
  cmd = c;
  argv = argv;
  by_name = [];
  parameters = [];
  subcmd = sub;
  subargv = [];
  immediate = none;
}

abbrev listed : Frame
listed = record {
  inv = invoked list [] none;
  ancestors = invoked tool (codes "list" ∷ []) (some list) ∷ [];
}

run-Linked_example : Linked tool listed.inv listed.ancestors × IsChosen 7 listed.inv
unfolding run parse_with_parent round find_sub_command find_sub_command_candidates verify
    verify_parameter_names verify_disposition add_names params_info is_short_option is_long_option
    with_parent
run-Linked_example = run-Linked ascii tool (codes "list" ∷ []) 7 listed refl
