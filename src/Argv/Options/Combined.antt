-- ===== src/Argv/Options/Combined.antt =====
-- `handleShortOption` of argv/parser.go on short options without value in one argument.
use mfp.Argv.Options.Append.{append_lem}
use mfp.Argv.Options.Splitting.{split-short}
use mfp.Argv.Model.{with_value}
use mfp.Go.Utf8.{runes_ascii, encode_rune_ascii, IsAscii}
use mfp.Go.Text.{Text}
use mfp.Argv.Options.{Outcome, handle_short_option, handle_flags, find_option, Parser}
use mfp.Base.{
  Option-cases, inl, inr, bind-cong, arith, ◌≢◌, ◌∙◌, ◌>>=◌, not, ◌≡◌, Bool, All, ℕ, List, refl, [],
  true, ◌∷◌, ok, none, some,
}

-- Each flag as an argument of its own: `-c`, then `-r`, then `-u`.
pub each : Parser → List ℕ → Outcome Parser
each p [] = ok p
each p (c ∷ cs) = handle_short_option p (b'-' ∷ c ∷ []) >>= λ q. each q cs

-- The option of this letter, if there is one, has no value.
abbrev pub is_flag : Parser → ℕ → Bool
is_flag p c = elim (find_option p (b'-' ∷ c ∷ [])) [
  | none ↦ true
  | some (i, o) ↦ not (with_value o)
]

abbrev pub FlagFits : Parser → ℕ → Type 0
FlagFits p c = IsAscii c × (c ≢ b'-') × (is_flag p c ≡ true)

find_option-cmd :
    (p q : Parser) (name : Text) → q.inv.cmd ≡ p.inv.cmd → find_option q name ≡ find_option p name
unfolding find_option
find_option-cmd p q name e = cc

FlagFits-cmd :
    (p q : Parser) (cs : List ℕ) → q.inv.cmd ≡ p.inv.cmd → All (FlagFits p) cs → All (FlagFits q) cs
FlagFits-cmd p q [] e h = tt
FlagFits-cmd p q (c ∷ cs) e h = (
  (h.0.0, h.0.1, rw (find_option-cmd p q (b'-' ∷ c ∷ []) e, is_flag) h.0.2),
  FlagFits-cmd p q cs e h.1,
)

one_flag :
    (p : Parser) (c : ℕ) (cs : List ℕ)
    → FlagFits p c
    → handle_flags p (c ∷ cs) ≡ (handle_short_option p (b'-' ∷ c ∷ []) >>= λ q. handle_flags q cs)
unfolding handle_flags handle_short_option
one_flag p c cs (a, n, f) = ground (arith, split-short c [] n, encode_rune_ascii c a)

short-cmd :
    (p q : Parser) (c : ℕ)
    → FlagFits p c
    → handle_short_option p (b'-' ∷ c ∷ []) ≡ ok q
    → q.inv.cmd ≡ p.inv.cmd
unfolding handle_short_option
short-cmd p q c (a, n, f) h = elim (Option-cases (find_option p (b'-' ∷ c ∷ []))) [
  | inl e ↦ ground (arith, split-short c [] n)
  | inr ((i, o), e) ↦
      (append_lem p i o (b'-' ∷ c ∷ []) [] true q (ground (arith, split-short c [] n))).5
]

flags-each : (cs : List ℕ) (p : Parser) → All (FlagFits p) cs → handle_flags p cs ≡ each p cs
flags-each [] p h = unfold handle_flags each in refl
flags-each (c ∷ cs) p h =
    one_flag p c cs h.0
    ∙ bind-cong (handle_short_option p (b'-' ∷ c ∷ [])) (λ q. handle_flags q cs) (λ q. each q cs)
        (λ q e. flags-each cs q (FlagFits-cmd p q cs (short-cmd p q c h.0 e) h.1))
    ∙ unfold each in refl

All-IsAscii : (p : Parser) (cs : List ℕ) → All (FlagFits p) cs → All IsAscii cs
All-IsAscii p [] h = tt
All-IsAscii p (c ∷ cs) h = (h.0.0, All-IsAscii p cs h.1)

combined_flags :
    (p : Parser) (c d : ℕ) (cs : List ℕ)
    → All (FlagFits p) (c ∷ d ∷ cs)
    → handle_short_option p (b'-' ∷ c ∷ d ∷ cs) ≡ handle_flags p (c ∷ d ∷ cs)
unfolding handle_short_option handle_flags
combined_flags p c d cs h = ground (
  arith,
  split-short c (d ∷ cs) h.0.1,
  encode_rune_ascii c h.0.0,
  runes_ascii (c ∷ d ∷ cs) (All-IsAscii p (c ∷ d ∷ cs) h),
)

-- Two or more letters in one argument, `-cru`, do what they do as arguments of their own, `-c`, `-r`
-- and `-u`, errors included, if they are ASCII, no dash is among them, and none of them names an
-- option with a value. A letter that names no option is an error in both ways.
pub short_combined :
    (p : Parser) (c d : ℕ) (cs : List ℕ)
    → All (FlagFits p) (c ∷ d ∷ cs)
    → handle_short_option p (b'-' ∷ c ∷ d ∷ cs) ≡ each p (c ∷ d ∷ cs)
short_combined p c d cs h = combined_flags p c d cs h ∙ flags-each (c ∷ d ∷ cs) p h
