-- ===== src/Argv/Candidates/PostProcess.antt =====
-- `completePostProcess` of argv/parser.go.

use mfp.Argv.Candidates.{texts, post_process, keep_begins, join_common}
use mfp.Argv.Strings.{common_prefix_slice}
use mfp.Argv.Model.{Completion}
use mfp.Go.Text.{has_prefix, Text}
use mfp.Base.{length, ltb, ◌≡◌, Bool-cases, All, List, inr, inl, [], true, ◌∷◌}
use mfp.Argv.Strings.CommonPrefix.{common_prefix_slice_iff}

-- The completion begins with `arg`.
abbrev pub Extends : Text → Completion → Type 0
Extends arg c = has_prefix c.text arg ≡ true

keep_begins-Extends : (arg : Text) (cs : List Completion) → All (Extends arg) (keep_begins arg cs)
unfolding keep_begins
keep_begins-Extends arg [] = tt
keep_begins-Extends arg (c ∷ cs) = elim (Bool-cases (has_prefix c.text arg)) [
  | inl e ↦ rw e (e, keep_begins-Extends arg cs)
  | inr e ↦ rw e (keep_begins-Extends arg cs)
]

texts-Extends :
    (arg : Text) (cs : List Completion)
    → All (Extends arg) cs
    → All (λ t. has_prefix t arg ≡ true) (texts cs)
texts-Extends arg [] h = tt
texts-Extends arg (c ∷ cs) h = (h.0, texts-Extends arg cs h.1)

join_common-Extends :
    (arg : Text) (cs : List Completion)
    → All (Extends arg) cs
    → All (Extends arg) (join_common arg cs)
unfolding join_common
join_common-Extends arg [] h = tt
join_common-Extends arg (c ∷ []) h = h
join_common-Extends arg (c ∷ d ∷ cs) h =
    let prefix = common_prefix_slice (texts (c ∷ d ∷ cs)) in
    let (_, up) = common_prefix_slice_iff c.text (texts (d ∷ cs)) arg in
    let k : has_prefix prefix arg ≡ true = up (texts-Extends arg (c ∷ d ∷ cs) h) in
    elim (Bool-cases (ltb (length arg) (length prefix))) [ inl e ↦ rw e (k, tt) | inr e ↦ rw e h ]

pub post_process-Extends :
    (arg : Text) (cs : List Completion) → All (Extends arg) (post_process arg cs)
unfolding post_process
post_process-Extends arg cs =
    join_common-Extends arg (keep_begins arg cs) (keep_begins-Extends arg cs)
