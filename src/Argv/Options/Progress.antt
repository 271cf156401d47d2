-- ===== src/Argv/Options/Progress.antt =====
-- The handlers of options in argv/parser.go, and the arguments that they leave.
use mfp.Go.Utf8.{runes, encode_rune}
use mfp.Argv.Model.{with_value, CommandOption}
use mfp.Go.Text.{Text}
use mfp.Argv.Options.{
  split_opt_val, find_option, done, take_value, handle_found_short, append_taken, Split, next_value,
  handle_short_option, handle_long_option, handle_flags, append_opt_val, Parser,
}
use mfp.Base.{
  ◌++◌, drop, Ends-bind, length-drop, ◌||◌, ◌&&◌, Ends-weaken, Option-cases, Bool-cases, true, inr,
  inl, ◌≡◌, Bool, ◌≤◌, ◌∙◌, Ends, ℕ, length, arith, List, ◌∷◌, refl, [],
}

abbrev pub Keeps : Parser → Parser → Type 0
Keeps p q =
    (length q.rest ≤ length p.rest)
    × (q.inv.cmd ≡ p.inv.cmd)
    × (q.inv.subcmd ≡ p.inv.subcmd)
    × (q.inv.subargv ≡ p.inv.subargv)

append-Keeps :
    (p : Parser) (i : ℕ) (opt : CommandOption) (name value : Text) (novalue : Bool)
    → Ends (append_opt_val p i opt name value novalue) (Keeps p)
unfolding append_opt_val
append-Keeps p i opt name value novalue = ground arith

next_value-Keeps : (p : Parser) → Keeps p (next_value p).2
unfolding next_value
next_value-Keeps p = elim (Bool-cases (done p)) [
  | inl d ↦ rw d (omega arith, refl, refl, refl)
  | inr d ↦ rw d (omega (arith, length-drop 1 p.rest), refl, refl, refl)
]

Keeps-trans : (p q r : Parser) → Keeps p q → Keeps q r → Keeps p r
Keeps-trans p q r h k = (omega arith, k.1 ∙ h.1, k.2 ∙ h.2, k.3 ∙ h.3)

take_value-Keeps : (p : Parser) (opt : CommandOption) (s : Split) → Keeps p (take_value p opt s).2
take_value-Keeps p opt s = elim (Bool-cases (s.novalue && with_value opt)) [
  | inl e ↦ rw e (next_value-Keeps p)
  | inr e ↦ rw e (omega arith, refl, refl, refl)
]

append_taken-Keeps :
    (p : Parser) (i : ℕ) (opt : CommandOption) (s : Split) → Ends (append_taken p i opt s) (Keeps p)
append_taken-Keeps p i opt s =
    let (val, novalue, q) = take_value p opt s in
    Ends-weaken (append_opt_val q i opt s.name val novalue) (Keeps q) (Keeps p)
      (append-Keeps q i opt s.name val novalue)
      (λ r k. Keeps-trans p q r (take_value-Keeps p opt s) k)

handle_flags-Keeps : (cs : List ℕ) (p : Parser) → Ends (handle_flags p cs) (Keeps p)
unfolding handle_flags
handle_flags-Keeps [] p = (omega arith, refl, refl, refl)
handle_flags-Keeps (c ∷ cs) p = elim (Option-cases (find_option p (b'-' ∷ encode_rune c))) [
  | inl e ↦ rw (e, handle_flags) tt
  | inr ((i, o), e) ↦
      rw (e, handle_flags)
        (Ends-bind (append_opt_val p i o (b'-' ∷ encode_rune c) [] true) (λ q. handle_flags q cs)
          (Keeps p) (Keeps p) (append-Keeps p i o (b'-' ∷ encode_rune c) [] true)
          (λ q k.
            Ends-weaken (handle_flags q cs) (Keeps q) (Keeps p) (handle_flags-Keeps cs q)
              (λ r. Keeps-trans p q r k)))
]

found_short-Keeps :
    (p : Parser) (i : ℕ) (opt : CommandOption) (s : Split)
    → Ends (handle_found_short p i opt s) (Keeps p)
unfolding handle_found_short
found_short-Keeps p i opt s = elim (Bool-cases (s.novalue || with_value opt)) [
  | inl e ↦ rw e (append_taken-Keeps p i opt s)
  | inr e ↦ rw e (handle_flags-Keeps (runes (drop 1 s.name ++ s.val)) p)
]

pub handle_short_option-Keeps :
    (p : Parser) (arg : Text) → Ends (handle_short_option p arg) (Keeps p)
unfolding handle_short_option
handle_short_option-Keeps p arg = elim (Option-cases (find_option p (split_opt_val arg).name)) [
  | inl e ↦ rw (e, handle_short_option) tt
  | inr ((i, o), e) ↦ rw (e, handle_short_option) (found_short-Keeps p i o (split_opt_val arg))
]

pub handle_long_option-Keeps : (p : Parser) (arg : Text) → Ends (handle_long_option p arg) (Keeps p)
unfolding handle_long_option
handle_long_option-Keeps p arg = elim (Option-cases (find_option p (split_opt_val arg).name)) [
  | inl e ↦ rw (e, handle_long_option) tt
  | inr ((i, o), e) ↦ rw (e, handle_long_option) (append_taken-Keeps p i o (split_opt_val arg))
]
