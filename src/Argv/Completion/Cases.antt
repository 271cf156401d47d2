-- ===== src/Argv/Completion/Cases.antt =====
-- The cases of a round of the loop of `complete` in argv/parser.go.

use mfp.Argv.Completion.{
  option_next, find_parameter, complete_sub_command_name, complete_option_name, sub_command_next,
  dashes_next, complete_round, complete_parameter, descend, go_on, answer,
}
use mfp.Argv.Parse.{find_sub_command}
use mfp.Argv.Model.{has_sub_commands, call_completer, info, is_nonempty, Command, Error, Completion}
use mfp.Argv.Options.{done, Parser}
use mfp.Go.Text.{has_prefix, codes, text_eq, Text}
use mfp.Argv.Verify.{Unicode}
use mfp.Base.{
  and_right, ◌&&◌, not, Bool-cases, Option-cases, All, inr, inl, ◌+◌, Result, if◌then◌else◌, arith,
  ◌≡◌, ℕ, Bool, List, err, panic, ◌∷◌, ok, [], refl, stuck, true,
}
use mfp.Argv.Candidates.PostProcess.{Extends, post_process-Extends}
use mfp.Argv.Completion.Rounds.{
  option_next-Fits, Fits, Ready, none-LastExtends, done-nil, done-cons,
}

dashes-Fits :
    (arg : Text) (rest : List Text) (n : ℕ) (cs : List Completion)
    → text_eq arg (codes "--") ≡ true
    → (is_nonempty rest ≡ true → cs ≡ [])
    → Fits arg rest (dashes_next n cs)
unfolding dashes_next
dashes-Fits arg rest n [] h k = λ _. h
dashes-Fits arg [] n (c ∷ cs) h k = λ f. cc
dashes-Fits arg (v ∷ vs) n (c ∷ cs) h k = let e : c ∷ cs ≡ [] = k refl in cc

sub_command-Fits :
    (u : Unicode) (p : Parser) (arg : Text) (rest : List Text)
    → p.rest ≡ rest
    → Ready u p
    → Fits arg rest (sub_command_next p arg)
unfolding sub_command_next complete_sub_command_name
sub_command-Fits u p arg [] e r =
    let o = done-nil p e in
    let q : sub_command_next p arg ≡ answer (complete_sub_command_name p arg) = ground arith in
    rw q (λ _. post_process-Extends arg _)
sub_command-Fits u p arg (v ∷ vs) e r =
    let o = done-cons u p v vs r e in found (find_sub_command p.inv.cmd arg) refl
  where
    found :
        (m : Result Error Command)
        → find_sub_command p.inv.cmd arg ≡ m
        → Fits arg (v ∷ vs) (sub_command_next p arg)
    found (ok c) f = let q : sub_command_next p arg ≡ descend c = ground arith in rw q refl
    found (err x) f =
        let q : sub_command_next p arg ≡ answer [] = ground arith in
        rw q (none-LastExtends (arg ∷ v ∷ vs))
    found panic f =
        let q : sub_command_next p arg ≡ answer [] = ground arith in
        rw q (none-LastExtends (arg ∷ v ∷ vs))
    found stuck f =
        let q : sub_command_next p arg ≡ answer [] = ground arith in
        rw q (none-LastExtends (arg ∷ v ∷ vs))

complete_parameter-Extends :
    (p : Parser) (arg : Text) (n : ℕ) → All (Extends arg) (complete_parameter p arg n)
unfolding complete_parameter
complete_parameter-Extends p arg n =
    elim (Option-cases (find_parameter (info p.inv.cmd).parameters n)) [
      | inl e ↦ rw (e, complete_parameter) tt
      | inr (param, e) ↦
          rw (e, complete_parameter) (post_process-Extends arg (call_completer param.complete arg))
    ]

parameter-Fits :
    (u : Unicode) (p : Parser) (d : Bool) (n : ℕ) (arg : Text) (rest : List Text)
    → p.rest ≡ rest
    → Ready u p
    → Fits arg rest (if done p then answer (complete_parameter p arg n) else go_on d (n + 1))
parameter-Fits u p d n arg [] e r = rw (done-nil p e) (λ _. complete_parameter-Extends p arg n)
parameter-Fits u p d n arg (v ∷ vs) e r = rw (done-cons u p v vs r e) (λ h. cc)

pub round-Fits :
    (u : Unicode) (p : Parser) (d : Bool) (n : ℕ) (arg : Text) (rest : List Text)
    → p.rest ≡ rest
    → Ready u p
    → Fits arg rest (complete_round p d n arg)
unfolding complete_round
round-Fits u p d n arg rest e r = elim (Bool-cases (not d && text_eq arg (codes "--"))) [
  | inl a ↦
      let cs = if done p then complete_option_name p arg else [] in
      let q : complete_round p d n arg ≡ dashes_next n cs = ground arith in
      rw q (dashes-Fits arg rest n cs (and_right (not d) _ a) (no_names rest e))
  | inr a ↦ elim (Bool-cases (not d && has_prefix arg (codes "-"))) [
    | inl b ↦
        let q : complete_round p d n arg ≡ option_next p d n arg = ground arith in
        rw q (option_next-Fits u p d n arg rest e r (and_right (not d) _ b) (ground arith))
    | inr b ↦ elim (Bool-cases (has_sub_commands p.inv.cmd)) [
      | inl s ↦
          let q : complete_round p d n arg ≡ sub_command_next p arg = ground arith in
          rw q (sub_command-Fits u p arg rest e r)
      | inr s ↦
          let q : complete_round p d n arg
              ≡ (if done p then answer (complete_parameter p arg n) else go_on d (n + 1)) =
            ground arith in
          rw q (parameter-Fits u p d n arg rest e r)
    ]
  ]
]
  where
    no_names :
        (vs : List Text)
        → p.rest ≡ vs
        → is_nonempty vs ≡ true
        → (if done p then complete_option_name p arg else []) ≡ []
    no_names [] f h = cc
    no_names (v ∷ vs) f h = rw (done-cons u p v vs r f) refl
