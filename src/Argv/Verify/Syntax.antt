-- ===== src/Argv/Verify/Syntax.antt =====
-- `Option.verify` of argv/option.go: the syntax of the names that `Verify` accepts.

use mfp.Go.Maps.{contains-append, contains}
use mfp.Go.Text.{text_eq_iff, text_eq, Text}
use mfp.Argv.Verify.{
  wrap, add_names, verify_name_syntax, verify, verify_syntax_all, verify_options, verify_option,
  Unicode,
}
use mfp.Argv.Model.{option_names, info, Error, CommandOption, Command, duplicated_option}
use mfp.Base.{arith, bind-eq-ok, Bool-cases, ◌≡◌, List, ok, true, inr, ◌∷◌, inl, []}
use mfp.Argv.Verify.Names.{verify-parts, all_names, wrap-ok}

syntax_all-each :
    (u : Unicode) (f : Error → Error) (ns : List Text) (n : Text)
    → verify_syntax_all u f ns ≡ ok tt
    → contains ns n ≡ true
    → verify_name_syntax u n ≡ ok tt
unfolding verify_syntax_all
syntax_all-each u f [] n h c = cc
syntax_all-each u f (m ∷ ms) n h c =
    let (_, a, b) = bind-eq-ok (wrap f (verify_name_syntax u m)) _ h in
    elim (Bool-cases (text_eq m n)) [
      | inl e ↦
          let k : m ≡ n = (text_eq_iff m n).0 e in rw (← k) (wrap-ok f (verify_name_syntax u m) a)
      | inr e ↦ syntax_all-each u f ms n b (ground arith)
    ]

option-syntax :
    (u : Unicode) (o : CommandOption) (n : Text)
    → verify_option u o ≡ ok tt
    → contains (option_names o) n ≡ true
    → verify_name_syntax u n ≡ ok tt
unfolding verify_option
option-syntax u o n h c = elim (Bool-cases (text_eq o.name [])) [
  | inl e ↦ absurd (ground arith)
  | inr e ↦
      let all = verify_syntax_all u (λ e. e) (option_names o) in
      let (_, a, b) = bind-eq-ok all _ (rw e at h) in
      syntax_all-each u (λ e. e) (option_names o) n a c
]

options-syntax :
    (u : Unicode) (seen : List Text) (os : List CommandOption) (n : Text)
    → verify_options u seen os ≡ ok tt
    → contains (all_names os) n ≡ true
    → verify_name_syntax u n ≡ ok tt
unfolding verify_options
options-syntax u seen [] n h c = cc
options-syntax u seen (o ∷ os) n h c =
    let (_, a, h1) = bind-eq-ok (verify_option u o) _ h in
    let (seen', _, h2) = bind-eq-ok (add_names duplicated_option seen (option_names o)) _ h1 in
    elim (Bool-cases (contains (option_names o) n)) [
      | inl e ↦ option-syntax u o n a e
      | inr e ↦
          options-syntax u seen' os n h2
            (ground (arith, contains-append (option_names o) (all_names os) n))
    ]

pub verify-syntax :
    (u : Unicode) (c : Command) (n : Text)
    → verify u c ≡ ok tt
    → contains (all_names (info c).options) n ≡ true
    → verify_name_syntax u n ≡ ok tt
verify-syntax u c n h k = options-syntax u [] (info c).options n (verify-parts u c h).2 k
