-- ===== src/Argv/Completion/Extends.antt =====
-- The loop of `complete` in argv/parser.go, and `Command.Complete` of argv/command.go.

use mfp.Argv.Completion.Cases.{round-Fits}
use mfp.Argv.Completion.{
  complete_round, Next, follow, complete_on, complete_loop, complete, descend, answer, go_on, skip,
}
use mfp.Argv.Verify.Progress.{verify-ends}
use mfp.Argv.Parse.{start, new_parser}
use mfp.Argv.Model.{Command, Error, Completion}
use mfp.Argv.Options.{Parser}
use mfp.Go.Text.{has_prefix, codes, text_eq, Text}
use mfp.Argv.Verify.{verify, Unicode}
use mfp.Base.{
  ◌≤◌, ◌≢◌, Ends-ok, ◌++◌, suc, zero, ◌∙◌, Ends-bind, ap, drop, Ends-weaken, Ends-ne-stuck, ◌<◌,
  Ends, length, false, All, ◌+◌, Result, arith, ◌≡◌, ℕ, Bool, List, err, panic, ◌∷◌, ok, [], refl,
  stuck, true,
}
use mfp.Argv.Candidates.PostProcess.{Extends}
use mfp.Argv.Completion.Rounds.{LastExtends, Fits, Ready}

-- What the loop promises for the arguments that are left.
abbrev Promises : Unicode → ℕ → (Parser → Bool → ℕ → Result Error (List Completion)) → Type 0
Promises u fuel again =
    (p : Parser) (d : Bool) (n : ℕ) (args : List Text)
    → p.rest ≡ args
    → Ready u p
    → length args < fuel
    → Ends (again p d n) (LastExtends args)

start-Ready :
    (u : Unicode) (c : Command) (argv : List Text) → verify u c ≡ ok tt → Ready u (start c argv).prs
start-Ready u c argv h = record { no_sub_command = refl; verified = h }

new_parser-Ready :
    (u : Unicode) (c : Command) (argv : List Text)
    → Ends (new_parser u c argv) (λ l. (l.prs.rest ≡ argv) × Ready u l.prs)
unfolding new_parser
new_parser-Ready u c argv = go (verify u c) refl
  where
    go :
        (m : Result Error (Unit {0}))
        → verify u c ≡ m
        → Ends (new_parser u c argv) (λ l. (l.prs.rest ≡ argv) × Ready u l.prs)
    go (ok x) h =
        let q : new_parser u c argv ≡ ok (start c argv) = ground arith in
        rw q (refl, start-Ready u c argv h)
    go (err e) h = let q : new_parser u c argv ≡ panic = ground arith in rw q tt
    go panic h = let q : new_parser u c argv ≡ panic = ground arith in rw q tt
    go stuck h = absurd (Ends-ne-stuck (verify u c) (λ x. Unit {0}) (verify-ends u c) h)

follow-Extends :
    (u : Unicode) (fuel : ℕ) (again : Parser → Bool → ℕ → Result Error (List Completion))
    (q : Parser) (next : Next) (arg : Text) (rest : List Text)
    → Promises u fuel again
    → q.rest ≡ rest
    → Ready u q
    → length rest < fuel
    → Fits arg rest next
    → Ends (follow u again q next) (LastExtends (arg ∷ rest))
unfolding follow
follow-Extends u fuel again q (answer cs) arg rest k e r h f = f
follow-Extends u fuel again q (go_on d n) arg [] k e r h f =
    Ends-weaken (again q d n) (LastExtends []) _ (k q d n [] e r h)
      (λ cs _ g. let t : text_eq arg (codes "--") ≡ true = f refl in cc)
follow-Extends u fuel again q (go_on d n) arg (v ∷ vs) k e r h f = k q d n (v ∷ vs) e r h
follow-Extends u fuel again q (skip d n) arg [] k e r h f = cc
follow-Extends u fuel again q (skip d n) arg (v ∷ []) k e r h f = cc
follow-Extends u fuel again q (skip d n) arg (v ∷ w ∷ vs) k e r h f =
    k (record q { rest = drop 1 q.rest }) d n (w ∷ vs) (ap (drop 1) e)
      (record { no_sub_command = r.no_sub_command; verified = r.verified }) (omega arith)
follow-Extends u fuel again q (descend c) arg [] k e r h f = cc
follow-Extends u fuel again q (descend c) arg (v ∷ vs) k e r h f =
    Ends-bind (new_parser u c q.rest) (λ l. again l.prs false 0)
      (λ l. (l.prs.rest ≡ q.rest) × Ready u l.prs) _ (new_parser-Ready u c q.rest)
      (λ l m. k l.prs false 0 (v ∷ vs) (m.0 ∙ e) m.1 h)

complete_on-Extends :
    (u : Unicode) (fuel : ℕ) (again : Parser → Bool → ℕ → Result Error (List Completion))
    (p : Parser) (d : Bool) (n : ℕ) (args : List Text)
    → Promises u fuel again
    → Ready u p
    → length args ≤ fuel
    → Ends (complete_on u again p d n args) (LastExtends args)
unfolding complete_on
complete_on-Extends u fuel again p d n [] k r h = tt
complete_on-Extends u fuel again p d n (arg ∷ rest) k r h =
    let q = record p { rest = rest } in
    let s : Ready u q = record { no_sub_command = r.no_sub_command; verified = r.verified } in
    follow-Extends u fuel again q (complete_round q d n arg) arg rest k refl s (omega arith)
      (round-Fits u q d n arg rest refl s)

loop-Promises : (u : Unicode) (fuel : ℕ) → Promises u fuel (complete_loop u fuel)
unfolding complete_loop
loop-Promises u zero p d n args e r h = absurd (omega arith)
loop-Promises u (suc fuel) p d n args e r h = rw e (
    complete_on-Extends u fuel (complete_loop u fuel) p d n args (loop-Promises u fuel) r
      (omega arith))

complete-Ends :
    (u : Unicode) (c : Command) (argv : List Text) → Ends (complete u c argv) (LastExtends argv)
unfolding complete
complete-Ends u c argv =
    Ends-bind (new_parser u c argv) (λ l. complete_loop u (length argv + 1) l.prs false 0)
      (λ l. (l.prs.rest ≡ argv) × Ready u l.prs) _ (new_parser-Ready u c argv)
      (λ l m. loop-Promises u (length argv + 1) l.prs false 0 argv m.0 m.1 (omega arith))

-- `Command.Complete` comes to an end on every command line: its loop, with those of the sub-commands
-- that it enters, never uses up the fuel that the model gives it, one round more than there are
-- arguments.
pub complete-ne-stuck : (u : Unicode) (c : Command) (argv : List Text) → complete u c argv ≢ stuck
complete-ne-stuck u c argv =
    Ends-ne-stuck (complete u c argv) (LastExtends argv) (complete-Ends u c argv)

last-Extends :
    (args : List Text) (last : Text) (cs : List Completion)
    → LastExtends (args ++ last ∷ []) cs
    → text_eq last (codes "--") ≡ false
    → All (Extends last) cs
last-Extends [] last cs h = h
last-Extends (a ∷ []) last cs h = h
last-Extends (a ∷ b ∷ rest) last cs h = last-Extends (b ∷ rest) last cs h

-- Whatever the callbacks of options and parameters propose, every completion that
-- `Command.Complete` returns for a command line begins with the last argument, unless that is `--`.
pub complete-Extends :
    (u : Unicode) (c : Command) (args : List Text) (last : Text) (cs : List Completion)
    → complete u c (args ++ last ∷ []) ≡ ok cs
    → text_eq last (codes "--") ≡ false
    → All (λ x. has_prefix x.text last ≡ true) cs
complete-Extends u c args last cs e n =
    last-Extends args last cs
      (Ends-ok (complete u c (args ++ last ∷ [])) (LastExtends (args ++ last ∷ [])) cs
        (complete-Ends u c (args ++ last ∷ [])) e)
      n
