-- ===== src/Argv/Run/Dispatch.antt =====
-- `RunWithParent` of argv/command.go: the handler that is called, and its invocation.

use mfp.Argv.Completion.Extends.{complete-ne-stuck}
use mfp.Argv.Completion.{complete}
use mfp.Argv.Parse.{parse_with_parent}
use mfp.Go.Text.{Text}
use mfp.Argv.Run.{wants_completion, run, Ran, printed, returned, run_with_parent, run_handler}
use mfp.Argv.Options.{first_some}
use mfp.Argv.Invocation.{Invocation, Frame}
use mfp.Argv.Verify.{Unicode}
use mfp.Argv.Model.{info, Error, Handler, Command}
use mfp.Base.{
  ◌+◌, drop, Bool-cases, Ends-ok, Ends-ne-stuck, ◌≢◌, stuck, refl, ok, panic, err, Ends-both,
  Ends-bind, arith, Option-cases, ◌<◌, length, ℕ, sym, ap, Ends, ◌∙◌, ◌≡◌, Result, List, Option,
  some, suc, [], ◌∷◌, none, inr, zero, inl,
}
use mfp.Argv.Parse.Arguments.{Leaves, parse-Leaves, above, parse-above}
use mfp.Argv.Parse.Required.{Complete, parse-Complete}

-- The invocation belongs to `c`, and the command of each one is the sub-command of the one above it.
abbrev pub Linked : Command → Invocation → List Invocation → Type 0
Linked c i [] = i.cmd ≡ c
Linked c i (j ∷ js) = (j.subcmd ≡ some i.cmd) × Linked c j js

-- The handler that belongs to the invocation.
abbrev pub IsChosen : Handler → Invocation → Type 0
IsChosen h i = first_some i.immediate (info i.cmd).handler ≡ some h

-- `d` is the command to run below this parent.
abbrev Below : Command → Option Frame → Command → Type 0
Below c none d = d ≡ c
Below c (some p) d = (p.inv.subcmd ≡ some d) × Linked c p.inv p.ancestors

Below-Linked :
    (c d : Command) (parent : Option Frame) (i : Invocation)
    → Below c parent d
    → i.cmd ≡ d
    → Linked c i (above parent)
Below-Linked c d none i b e = e ∙ b
Below-Linked c d (some p) i b e = (b.0 ∙ ap some (sym e), b.1)

module _ {R : Type 0} (u : Unicode) (call : Handler → Frame → Result Error R) (Q : R → Type 0)
    (c : Command)
    (called : (h : Handler) (f : Frame)
      → Linked c f.inv f.ancestors
      → IsChosen h f.inv
      → Ends (call h f) Q) where
  handler-Ends :
      (n : ℕ) (again : Option Frame → Command → List Text → Result Error R) (f : Frame)
      → Leaves n f.inv
      → Linked c f.inv f.ancestors
      → ((d : Command) (argv : List Text)
          → Below c (some f) d
          → length argv < n
          → Ends (again (some f) d argv) Q)
      → Ends (run_handler u call again f) Q
  unfolding run_handler
  handler-Ends n again f l b k =
      elim (Option-cases (first_some f.inv.immediate (info f.inv.cmd).handler)) [
        | inr (h, e) ↦ rw (e, run_handler) (called h f b e)
        | inl e ↦ elim (Option-cases f.inv.subcmd) [
          | inl s ↦ rw (e, s, run_handler) tt
          | inr (d, s) ↦ rw (e, s, run_handler) (k d f.inv.subargv (s, b) (fewer d s l))
        ]
      ]
    where
      fewer : (d : Command) → f.inv.subcmd ≡ some d → Leaves n f.inv → length f.inv.subargv < n
      fewer d s (inl x) = cc
      fewer d s (inr x) = x

  pub run_with_parent-Ends :
      (fuel : ℕ) (parent : Option Frame) (d : Command) (argv : List Text)
      → Below c parent d
      → length argv < fuel
      → Ends (run_with_parent u call fuel parent d argv) Q
  unfolding run_with_parent
  run_with_parent-Ends zero parent d argv b h = absurd (omega arith)
  run_with_parent-Ends (suc fuel) parent d argv b h =
      let m = parse_with_parent u parent d argv in
      Ends-bind m (run_handler u call (run_with_parent u call fuel))
        (λ f. Leaves (length argv) f.inv × ((f.ancestors ≡ above parent) × Complete d f.inv)) Q
        (Ends-both m (λ f. Leaves (length argv) f.inv) _ (parse-Leaves u parent d argv)
          (Ends-both m (λ f. f.ancestors ≡ above parent) _ (parse-above u parent d argv)
            (parse-Complete u parent d argv)))
        (λ f l.
          handler-Ends (length argv) (run_with_parent u call fuel) f l.0
            (rw l.1.0 (Below-Linked c d parent f.inv b l.1.1.0))
            (λ e args k less. run_with_parent-Ends fuel (some f) e args k (omega arith)))

Ends-of : {R : Type 0} (m : Result Error R) → m ≢ stuck → Ends m (λ r. Unit {0})
Ends-of (ok r) h = tt
Ends-of (err e) h = tt
Ends-of panic h = tt
Ends-of stuck h = h refl

-- What holds of all that handlers return holds of what `Run` returns.
Returns : {R : Type 0} → (R → Type 0) → Ran R → Type 0
Returns Q (printed lines) = Unit {0}
Returns Q (returned r) = Q r

run-Ends :
    {R : Type 0} (u : Unicode) (call : Handler → Frame → Result Error R) (Q : R → Type 0)
    (c : Command)
    → ((h : Handler) (f : Frame)
        → Linked c f.inv f.ancestors
        → IsChosen h f.inv
        → Ends (call h f) Q)
    → (argv : List Text) → Ends (run u call c argv) (Returns Q)
unfolding run Returns
run-Ends u call Q c called argv = elim (Bool-cases (wants_completion u call argv)) [
  | inl e ↦
      rw (e, run)
        (Ends-bind (complete u c (drop 1 argv)) _ (λ r. Unit {0}) _
          (Ends-of (complete u c (drop 1 argv)) (complete-ne-stuck u c (drop 1 argv))) (λ cs _. tt))
  | inr e ↦
      rw (e, run)
        (Ends-bind (run_with_parent u call (length argv + 1) none c argv) _ Q _
          (run_with_parent-Ends u call Q c called (length argv + 1) none c argv refl (omega arith))
          (λ r q. q))
]

-- If every handler returns then `Run` comes to an end on every command line: the fuel of the model,
-- one more than there are arguments, is enough for the sub-commands below one another.
pub run-ne-stuck :
    {R : Type 0} (u : Unicode) (call : Handler → Frame → Result Error R)
    → ((h : Handler) (f : Frame) → call h f ≢ stuck)
    → (c : Command) (argv : List Text) → run u call c argv ≢ stuck
run-ne-stuck {R} u call returns c argv =
    Ends-ne-stuck (run u call c argv) (Returns (λ r. Unit {0}))
      (run-Ends u call (λ r. Unit {0}) c (λ h f _ _. Ends-of (call h f) (returns h f)) argv)

-- A handler that returns what it was called with.
abbrev pub witnessed : Handler → Frame → Result Error (Handler × Frame)
witnessed h f = ok (h, f)

-- `Run` calls the handler that belongs to the invocation it passes, the immediate callback if there
-- is one and else the handler of the command; the invocation is one of the command that is run, or of
-- the sub-command of the invocation above it, and so on up to the command that is run. (Here a
-- handler returns what it was called with.)
pub run-Linked :
    (u : Unicode) (c : Command) (argv : List Text) (h : Handler) (f : Frame)
    → run u witnessed c argv ≡ ok (returned (h, f))
    → Linked c f.inv f.ancestors × IsChosen h f.inv
unfolding Returns
run-Linked u c argv h f e =
    Ends-ok (run u witnessed c argv)
      (Returns (λ r. Linked c r.1.inv r.1.ancestors × IsChosen r.0 r.1.inv)) (returned (h, f))
      (run-Ends u witnessed (λ r. Linked c r.1.inv r.1.ancestors × IsChosen r.0 r.1.inv) c
        (λ h f l k. (l, k)) argv)
      e
