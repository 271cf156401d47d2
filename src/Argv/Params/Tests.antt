-- ===== src/Argv/Params/Tests.antt =====
-- The theorems on parameters at `input`, `files...`, `output`.

use mfp.Argv.Options.{Parser}
use mfp.Go.Text.{codes, Text}
use mfp.Argv.Params.{params_of, values_of, handle_parameters, assign}
use mfp.Argv.Model.{Parameter, Command, nil, command}
use mfp.Base.{arith, ◌≡◌, List, false, refl, some, ◌∷◌, [], ok, panic, none}
use mfp.Argv.Params.TooFew.{assign_too_few}
use mfp.Argv.Params.Values.{handle_accepted, handle_repeated, AllAccepted}

abbrev sample : Text → Parameter
sample name = record { name = name; help = []; validate = some (λ v. none); complete = none }

abbrev sample_command : Command
sample_command =
    command
      (record {
        name = codes "join";
        aliases = [];
        help = [];
        description = [];
        options = [];
        parameters =
            sample (codes "input") ∷ sample (codes "files...") ∷ sample (codes "output") ∷ [];
        no_options_after_parameters = false;
        handler = none;
      })
      nil

abbrev sample_parser : List (Parameter × Text) → Parser
sample_parser params = record {
  inv = record {
    cmd = sample_command;
    argv = [];
    by_name = [];
    parameters = [];
    subcmd = none;
    subargv = [];
    immediate = none;
  };
  rest = [];
  opt_conflicts = [];
  opt_required = [];
  options = [];
  parameters = params;
}

assign_too_few_example :
    assign (sample (codes "files...") ∷ sample (codes "input") ∷ sample (codes "output") ∷ []) 1
    ≡ panic
assign_too_few_example =
    assign_too_few [] (sample (codes "files..."))
      (sample (codes "input") ∷ sample (codes "output") ∷ []) 0 tt refl (refl, (refl, tt))
      (omega arith)

abbrev sample_values : List Text
sample_values = codes "a" ∷ codes "b" ∷ codes "c" ∷ codes "d" ∷ []

abbrev sample_result : List (Parameter × Text)
sample_result =
    (sample (codes "input"), codes "a")
    ∷ (sample (codes "files..."), codes "b")
    ∷ (sample (codes "files..."), codes "c")
    ∷ (sample (codes "output"), codes "d")
    ∷ []

handle_repeated_example :
    (values_of sample_result ≡ sample_values)
    × (params_of sample_result
        ≡ sample (codes "input")
          ∷ sample (codes "files...")
          ∷ sample (codes "files...")
          ∷ sample (codes "output")
          ∷ [])
    × AllAccepted sample_result
unfolding handle_parameters
handle_repeated_example =
    handle_repeated (sample_parser []) (sample_parser sample_result) sample_values
      (sample (codes "input") ∷ []) (sample (codes "files...")) (sample (codes "output") ∷ []) 1
      refl (refl, tt) refl (refl, tt) refl refl

handle_accepted_example :
    handle_parameters (sample_parser []) sample_values ≡ ok (sample_parser sample_result)
handle_accepted_example =
    handle_accepted (sample_parser []) sample_values (sample (codes "input") ∷ [])
      (sample (codes "files...")) (sample (codes "output") ∷ []) 1 refl (refl, tt) refl (refl, tt)
      refl (refl, (refl, (refl, (refl, tt))))
