-- ===== src/Argv/Options/Found.antt =====
-- `findOption` of argv/parser.go.

use mfp.Go.Maps.{contains-append, contains}
use mfp.Argv.Model.{option_names, info, CommandOption}
use mfp.Go.Text.{Text}
use mfp.Argv.Options.{find_from, Parser, find_option}
use mfp.Base.{◌+◌, arith, ◌≡◌, List, ℕ, [], some, true, ◌∷◌}
use mfp.Argv.Verify.Names.{all_names}

find_from-contains :
    (i : ℕ) (os : List CommandOption) (n : Text) (r : ℕ × CommandOption)
    → find_from i os n ≡ some r
    → contains (all_names os) n ≡ true
unfolding find_from
find_from-contains i [] n r h = cc
find_from-contains i (o ∷ os) n r h =
    ground
      (arith, contains-append (option_names o) (all_names os) n, find_from-contains (i + 1) os n r)

pub find_option-contains :
    (p : Parser) (n : Text) (r : ℕ × CommandOption)
    → find_option p n ≡ some r
    → contains (all_names (info p.inv.cmd).options) n ≡ true
unfolding find_option
find_option-contains p n r h = find_from-contains 0 (info p.inv.cmd).options n r h
