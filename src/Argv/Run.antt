-- ===== src/Argv/Run.antt =====
-- `Run`, `RunWithParent` and `handler` of argv/command.go and `DefaultHandler` of
-- argv/defauthandler.go. What a handler does is the parameter `call`; `os.Exit` behind the output
-- of the completions is a result of its own.

use mfp.Argv.Parse.{parse_with_parent}
use mfp.Argv.Options.{first_some}
use mfp.Argv.Completion.{complete}
use mfp.Go.Unicode.{is_space}
use mfp.Go.Utf8.{encode_rune, runes}
use mfp.Argv.Invocation.{Frame}
use mfp.Go.Text.{text_eq, codes, contains_byte, Text}
use mfp.Argv.Verify.{Unicode}
use mfp.Argv.Model.{info, Completer, Command, Error, Handler, Completion, unhandled_command}
use mfp.Base.{
  ◌+◌, length, ◌>>=◌, drop, Option, ◌||◌, ◌++◌, Result, if◌then◌else◌, Bool, ℕ, List, [], ◌∷◌, ok,
  zero, none, suc, false, some, stuck, err,
}
pub mod Dispatch
mod Tests

-- How a completion is printed for the shell.
abbrev pub is_escaped : ℕ → Bool
is_escaped c = contains_byte (codes "~!'\"$\\`") c || is_space c

pub escape : List ℕ → Text
escape [] = []
escape (c ∷ cs) = (if is_escaped c then codes "\\" else []) ++ (encode_rune c ++ escape cs)

pub completion_line : Completion → Text
unfolding escape
completion_line c = escape (runes c.text) ++ (if c.no_space then [] else codes " ")

abbrev pub completion_lines : List Completion → List Text
completion_lines [] = []
completion_lines (c ∷ cs) = completion_line c ∷ completion_lines cs

-- What comes of a run: the lines printed before the program exits, or what the handler returns.
pub data Ran (R : Type 0) : Type 0 where
  printed : List Text → Ran R
  returned : R → Ran R

module _ {R : Type 0} (u : Unicode) (call : Handler → Frame → Result Error R) where
  -- `handler`: the immediate callback, the handler of the command, or the default one, which runs
  -- the sub-command.
  pub run_handler : (Option Frame → Command → List Text → Result Error R) → Frame → Result Error R
  run_handler again f = elim (first_some f.inv.immediate (info f.inv.cmd).handler) [
    | some h ↦ call h f
    | none ↦ elim f.inv.subcmd [
      | some c ↦ again (some f) c f.inv.subargv
      | none ↦ err unhandled_command
    ]
  ]

  -- `RunWithParent`, on fuel for the sub-commands.
  pub run_with_parent : ℕ → Option Frame → Command → List Text → Result Error R
  unfolding run_handler
  run_with_parent zero parent c argv = stuck
  run_with_parent (suc fuel) parent c argv =
      parse_with_parent u parent c argv >>= run_handler (run_with_parent fuel)

  abbrev wants_completion : List Text → Bool
  wants_completion [] = false
  wants_completion (a ∷ argv) = text_eq a (codes "--bash-completion")

  -- The two cases of `Run`.
  print_completions : Command → List Text → Result Error (Ran R)
  unfolding completion_line
  print_completions c argv = do cs ← complete u c argv; ok (printed (completion_lines cs))

  call_handler : Command → List Text → Result Error (Ran R)
  unfolding run_with_parent
  call_handler c argv = do r ← run_with_parent (length argv + 1) none c argv; ok (returned r)

  pub run : Command → List Text → Result Error (Ran R)
  unfolding print_completions call_handler
  run c argv =
      if wants_completion argv then print_completions c (drop 1 argv) else call_handler c argv
