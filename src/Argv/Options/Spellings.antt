-- ===== src/Argv/Options/Spellings.antt =====
-- The ways of writing an option with its value, as the documentation in argv/option.go lists them.
use mfp.Argv.Options.Splitting.{split-long_alone, split-short, split-long_equals}
use mfp.Argv.Model.{with_value, CommandOption}
use mfp.Go.Text.{contains_byte, Text}
use mfp.Argv.Options.{
  next_value, is_long_option, find_option, append_opt_val, handle_short_option, handle_long_option,
  Parser,
}
use mfp.Base.{◌++◌, arith, ◌∷◌, ◌≢◌, ◌≡◌, ℕ, List, some, false, panic, [], none, true}

module _ (p : Parser) (rest : List Text) (i : ℕ) (o : CommandOption) where
  -- For a long option with a value, whose name has no `=`, and before a sub-command, the argument
  -- `--name=value` does what the two arguments `--name value` do, errors included.
  pub long_equals :
      (name v : Text)
      → is_long_option name ≡ true
      → contains_byte name b'=' ≡ false
      → p.inv.subcmd ≡ none
      → find_option p name ≡ some (i, o)
      → with_value o ≡ true
      → handle_long_option (record p { rest = rest }) (name ++ b'=' ∷ v)
        ≡ handle_long_option (record p { rest = v ∷ rest }) name
  unfolding handle_long_option find_option next_value
  long_equals name v l e s f w =
      ground (arith, split-long_equals name v l e, split-long_alone name l e)

  -- For a short option with a value, whose letter is no dash, and before a sub-command, the argument
  -- `-cvalue` does what the two arguments `-c value` do if the value is not empty, errors included.
  pub short_joined :
      (c b : ℕ) (v : Text)
      → c ≢ b'-'
      → p.inv.subcmd ≡ none
      → find_option p (b'-' ∷ c ∷ []) ≡ some (i, o)
      → with_value o ≡ true
      → handle_short_option (record p { rest = rest }) (b'-' ∷ c ∷ b ∷ v)
        ≡ handle_short_option (record p { rest = (b ∷ v) ∷ rest }) (b'-' ∷ c ∷ [])
  unfolding handle_short_option find_option next_value
  short_joined c b v n s f w = ground (arith, split-short c (b ∷ v) n, split-short c [] n)

-- If a long option that takes no value, whose name has no `=`, is given one, `--name=value`, then the
-- parser panics.
pub flag_with_value :
    (p : Parser) (i : ℕ) (o : CommandOption) (name v : Text)
    → is_long_option name ≡ true
    → contains_byte name b'=' ≡ false
    → find_option p name ≡ some (i, o)
    → with_value o ≡ false
    → handle_long_option p (name ++ b'=' ∷ v) ≡ panic
unfolding handle_long_option append_opt_val
flag_with_value p i o name v l e f w = ground (arith, split-long_equals name v l e)
