-- ===== src/Argv/Completion/Rounds.antt =====
-- One round of the loop of `complete` in argv/parser.go.

use mfp.Argv.Candidates.{prepend}
use mfp.Argv.Completion.{
  joined_prefix, complete_option_value, value_next, option_next, joined_next, complete_option_name,
  Next, go_on, descend, skip, answer,
}
use mfp.Argv.Completion.Joined.{known-Whole}
use mfp.Argv.Options.Found.{find_option-contains}
use mfp.Argv.Verify.Syntax.{verify-syntax}
use mfp.Argv.Options.{split_opt_val, find_option, done, Parser}
use mfp.Argv.Model.{with_value, call_completer, is_nonempty, CommandOption, Completion}
use mfp.Go.Text.{codes, text_eq, has_prefix, Text}
use mfp.Argv.Verify.{verify, Unicode}
use mfp.Base.{
  ◌&&◌, Bool-cases, Option-cases, inr, inl, some, ◌∙◌, ℕ, drop, arith, Bool, All, ◌≡◌, ◌++◌, List,
  false, refl, ◌∷◌, [], true, none, ok,
}
use mfp.Argv.Candidates.PostProcess.{Extends, post_process-Extends}

-- All completions begin with the last argument, unless that is `--`.
abbrev pub LastExtends : List Text → List Completion → Type 0
LastExtends [] cs = Unit {0}
LastExtends (a ∷ []) cs = text_eq a (codes "--") ≡ false → All (Extends a) cs
LastExtends (a ∷ b ∷ rest) cs = LastExtends (b ∷ rest) cs

-- The round on `arg` gives such completions, or leaves arguments for the next round.
abbrev pub Fits : Text → List Text → Next → Type 0
Fits arg rest (answer cs) = LastExtends (arg ∷ rest) cs
Fits arg rest (go_on d n) = is_nonempty rest ≡ false → text_eq arg (codes "--") ≡ true
Fits arg rest (skip d n) = is_nonempty (drop 1 rest) ≡ true
Fits arg rest (descend c) = is_nonempty rest ≡ true

pub none-LastExtends : (args : List Text) → LastExtends args []
none-LastExtends [] = tt
none-LastExtends (a ∷ []) = λ _. tt
none-LastExtends (a ∷ b ∷ rest) = none-LastExtends (b ∷ rest)

-- What holds of the parser during completion.
pub record Ready (u : Unicode) (p : Parser) : Type 0 where
  pub no_sub_command : p.inv.subcmd ≡ none
  pub verified : verify u p.inv.cmd ≡ ok tt

value_next-Fits :
    (opt : CommandOption) (d : Bool) (n : ℕ) (arg : Text) (rest : List Text)
    → is_nonempty rest ≡ true
    → Fits arg rest (value_next opt d n rest)
unfolding value_next complete_option_value
value_next-Fits opt d n arg [] h = cc
value_next-Fits opt d n arg (v ∷ []) h = λ _. post_process-Extends v (call_completer opt.complete v)
value_next-Fits opt d n arg (v ∷ w ∷ rest) h = refl

has_prefix-both : (a s t : Text) → has_prefix (a ++ s) (a ++ t) ≡ has_prefix s t
has_prefix-both [] s t = refl
has_prefix-both (c ∷ a) s t = ground (arith, has_prefix-both a s t)

has_prefix-weaken : (s a t : Text) → has_prefix s (a ++ t) ≡ true → has_prefix s a ≡ true
has_prefix-weaken s [] t h = refl
has_prefix-weaken [] (c ∷ a) t h = cc
has_prefix-weaken (b ∷ s) (c ∷ a) t h = ground (arith, has_prefix-weaken s a t)

prepend-Extends :
    (pre v arg tail : Text) (cs : List Completion)
    → pre ++ v ≡ arg ++ tail
    → All (Extends v) cs
    → All (Extends arg) (prepend pre cs)
unfolding prepend
prepend-Extends pre v arg tail [] e h = tt
prepend-Extends pre v arg tail (c ∷ cs) e h = (
  has_prefix-weaken (pre ++ c.text) arg tail (rw (← e) (has_prefix-both pre c.text v ∙ h.0)),
  prepend-Extends pre v arg tail cs e h.1,
)

pub done-nil : (p : Parser) → p.rest ≡ [] → done p ≡ true
done-nil p e = rw e refl

pub done-cons :
    (u : Unicode) (p : Parser) (v : Text) (vs : List Text)
    → Ready u p
    → p.rest ≡ v ∷ vs
    → done p ≡ false
done-cons u p v vs r e = rw (e, r.no_sub_command) refl

joined_next-Fits :
    (u : Unicode) (p : Parser) (arg : Text) (i : ℕ) (opt : CommandOption)
    → Ready u p
    → has_prefix arg (codes "-") ≡ true
    → text_eq arg (codes "--") ≡ false
    → find_option p (split_opt_val arg).name ≡ some (i, opt)
    → Fits arg [] (joined_next opt (split_opt_val arg))
unfolding joined_next complete_option_value
joined_next-Fits u p arg i opt r h n f =
    let s = split_opt_val arg in
    let k =
      verify-syntax u p.inv.cmd s.name r.verified (find_option-contains p s.name (i, opt) f) in
    let (tail, e) = known-Whole u arg h n k in
    λ _. prepend-Extends (joined_prefix s) s.val arg tail _ e (post_process-Extends s.val _)

pub option_name-Fits : (p : Parser) (arg : Text) → All (Extends arg) (complete_option_name p arg)
unfolding complete_option_name
option_name-Fits p arg = post_process-Extends arg _

pub option_next-Fits :
    (u : Unicode) (p : Parser) (d : Bool) (n : ℕ) (arg : Text) (rest : List Text)
    → p.rest ≡ rest
    → Ready u p
    → has_prefix arg (codes "-") ≡ true
    → text_eq arg (codes "--") ≡ false
    → Fits arg rest (option_next p d n arg)
unfolding option_next
option_next-Fits u p d n arg [] e r h t =
    let o = done-nil p e in
    elim (Option-cases (find_option p (split_opt_val arg).name)) [
      | inl f ↦ elim (Bool-cases (split_opt_val arg).novalue) [
        | inl v ↦
            let q : option_next p d n arg ≡ answer (complete_option_name p arg) = ground arith in
            rw q (λ _. option_name-Fits p arg)
        | inr v ↦ let q : option_next p d n arg ≡ answer [] = ground arith in rw q (λ _. tt)
      ]
      | inr ((i, opt), f) ↦
          let q : option_next p d n arg ≡ joined_next opt (split_opt_val arg) = ground arith in
          rw q (joined_next-Fits u p arg i opt r h t f)
    ]
option_next-Fits u p d n arg (w ∷ ws) e r h t =
    let o = done-cons u p w ws r e in
    elim (Option-cases (find_option p (split_opt_val arg).name)) [
      | inl f ↦
          let q : option_next p d n arg ≡ answer [] = ground arith in
          rw q (none-LastExtends (arg ∷ w ∷ ws))
      | inr ((i, opt), f) ↦ elim (Bool-cases ((split_opt_val arg).novalue && with_value opt)) [
        | inl v ↦
            let q : option_next p d n arg ≡ value_next opt d n (w ∷ ws) = ground arith in
            rw q (value_next-Fits opt d n arg (w ∷ ws) refl)
        | inr v ↦ let q : option_next p d n arg ≡ go_on d n = ground arith in rw q (λ h. cc)
      ]
    ]
