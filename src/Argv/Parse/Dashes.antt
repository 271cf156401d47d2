-- ===== src/Argv/Parse/Dashes.antt =====
-- The loop of `parse` (argv/parser.go) behind the argument `--`.
use mfp.Argv.Params.{params_info}
use mfp.Argv.Model.{Error, info, has_sub_commands}
use mfp.Go.Text.{Text}
use mfp.Argv.Parse.{round, advance, loop_on, Loop, loop}
use mfp.Base.{
  ◌>>=◌, Result, append_assoc, length-append, ap, append-nil, sym, ◌∙◌, arith, ◌++◌, ◌<◌, ◌≤◌, ◌+◌,
  length, ◌≡◌, ℕ, List, true, ◌∷◌, ok, false, refl, [], none, zero, suc,
}

-- The loop after a round.
abbrev taken : Loop → Text → List Text → Loop
taken l a args = record (advance l args) {
  done_options = true;
  param_values = l.param_values ++ a ∷ [];
}

one_round :
    (l : Loop) (a : Text) (args : List Text)
    → l.done_options ≡ true
    → has_sub_commands l.prs.inv.cmd ≡ false
    → length l.param_values < (params_info (info l.prs.inv.cmd).parameters).1
    → round (advance l args) a ≡ ok (taken l a args)
unfolding round
one_round l a args d c room = ground arith

loop_on-round :
    (again : Loop → Result Error Loop) (l : Loop) (a : Text) (args : List Text)
    → l.prs.inv.subcmd ≡ none
    → loop_on again l (a ∷ args) ≡ (round (advance l args) a >>= again)
unfolding loop_on
loop_on-round again l a args s = ground arith

-- In a command without sub-commands, with room for all that is left and fuel for each argument, a loop
-- that reads no more options comes to an end with all the arguments moved to the parameters as they
-- are, whatever they look like, and leaves the invocation unchanged.
pub loop-done_options :
    (args vals : List Text) (fuel : ℕ) (l : Loop)
    → l.prs.rest ≡ args
    → l.param_values ≡ vals
    → l.done_options ≡ true
    → l.prs.inv.subcmd ≡ none
    → has_sub_commands l.prs.inv.cmd ≡ false
    → length vals + length args ≤ (params_info (info l.prs.inv.cmd).parameters).1
    → length args < fuel
    → (m : Loop) × (loop fuel l ≡ ok m)
      × (m.param_values ≡ vals ++ args)
      × (m.prs.rest ≡ [])
      × (m.prs.inv ≡ l.prs.inv)
unfolding loop
loop-done_options args vals zero l r v d s c room h = absurd (omega arith)
loop-done_options [] vals (suc fuel) l r v d s c room h =
    (l, ap (loop_on (loop fuel) l) r, v ∙ sym (append-nil vals), r, refl)
loop-done_options (a ∷ args) vals (suc fuel) l r v d s c room h =
    let l' : Loop = taken l a args in
    let (m, e, pv, rest, inv) =
      loop-done_options args (vals ++ a ∷ []) fuel l' refl (ap (λ x. x ++ a ∷ []) v) refl s c
        (omega (arith, length-append vals (a ∷ []))) (omega arith) in
    (
      m,
      ap (loop_on (loop fuel) l) r
          ∙ loop_on-round (loop fuel) l a args s
          ∙ ap (λ x. x >>= loop fuel)
              (one_round l a args d c
                (let k : length l.param_values ≡ length vals = ap length v in omega arith))
          ∙ e,
      pv ∙ append_assoc vals (a ∷ []) args,
      rest,
      inv,
    )
