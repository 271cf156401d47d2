-- ===== src/Argv/Candidates/Covered.antt =====
-- `completePostProcess` of argv/parser.go and `CompleteStrings` of argv/completers.go: which
-- candidates are there, and that none is lost.

use mfp.Argv.Candidates.{texts, post_process, keep_begins, join_common, complete_strings}
use mfp.Go.Maps.{contains}
use mfp.Argv.Strings.{common_prefix_slice}
use mfp.Argv.Model.{Completion}
use mfp.Go.Text.{text_eq_iff, text_eq, text_eq_refl, has_prefix_refl, has_prefix, Text}
use mfp.Base.{
  ◌++◌, ◌≤◌, if◌then◌else◌, refl, and_right, arith, ◌&&◌, ◌<◌, ltb, ◌⊎◌, length, Bool-cases, ◌≡◌,
  All, ◌↔◌, List, ◌∷◌, [], inr, true, inl,
}
use mfp.Argv.Strings.CommonPrefix.{common_prefix_slice_iff}

-- There is a completion with this text.
abbrev pub Among : Text → List Completion → Type 0
Among t [] = ⊥
Among t (c ∷ cs) = (c.text ≡ t) ⊎ Among t cs

-- There is a completion that leads towards this text.
abbrev pub Covered : Text → List Completion → Type 0
Covered t [] = ⊥
Covered t (c ∷ cs) = (has_prefix t c.text ≡ true) ⊎ Covered t cs

keep_begins-Among :
    (arg t : Text) (cs : List Completion)
    → Among t cs
    → has_prefix t arg ≡ true
    → Among t (keep_begins arg cs)
unfolding keep_begins
keep_begins-Among arg t [] h k = h
keep_begins-Among arg t (c ∷ cs) (inl e) k =
    let m : has_prefix c.text arg ≡ true = rw e k in rw m (inl e)
keep_begins-Among arg t (c ∷ cs) (inr h) k = elim (Bool-cases (has_prefix c.text arg)) [
  | inl e ↦ rw e (inr (keep_begins-Among arg t cs h k))
  | inr e ↦ rw e (keep_begins-Among arg t cs h k)
]

Among-Covered : (t : Text) (cs : List Completion) → Among t cs → Covered t cs
Among-Covered t [] h = h
Among-Covered t (c ∷ cs) (inl e) = inl (rw e (has_prefix_refl t))
Among-Covered t (c ∷ cs) (inr h) = inr (Among-Covered t cs h)

All-Among :
    (p t : Text) (cs : List Completion)
    → All (λ s. has_prefix s p ≡ true) (texts cs)
    → Among t cs
    → has_prefix t p ≡ true
All-Among p t [] h k = absurd k
All-Among p t (c ∷ cs) h (inl e) = rw (← e) h.0
All-Among p t (c ∷ cs) h (inr k) = All-Among p t cs h.1 k

join_common-Covered :
    (arg t : Text) (cs : List Completion) → Among t cs → Covered t (join_common arg cs)
unfolding join_common
join_common-Covered arg t [] h = h
join_common-Covered arg t (c ∷ []) h = Among-Covered t (c ∷ []) h
join_common-Covered arg t (c ∷ d ∷ cs) h =
    let prefix = common_prefix_slice (texts (c ∷ d ∷ cs)) in
    let (down, _) = common_prefix_slice_iff c.text (texts (d ∷ cs)) prefix in
    elim (Bool-cases (ltb (length arg) (length prefix))) [
      | inl e ↦ rw e (inl (All-Among prefix t (c ∷ d ∷ cs) (down (has_prefix_refl prefix)) h))
      | inr e ↦ rw e (Among-Covered t (c ∷ d ∷ cs) h)
    ]

-- The candidates that begin with the argument.
abbrev pub beginning : Text → List Completion → List Completion
beginning arg [] = []
beginning arg (c ∷ cs) = (if has_prefix c.text arg then c ∷ [] else []) ++ beginning arg cs

keep_begins_lem : (arg : Text) (cs : List Completion) → keep_begins arg cs ≡ beginning arg cs
unfolding keep_begins
keep_begins_lem arg [] = refl
keep_begins_lem arg (c ∷ cs) = ground (arith, keep_begins_lem arg cs)

-- A prefix of every one of these texts.
abbrev pub IsCommon : Text → List Completion → Type 0
IsCommon q cs = All (λ t. has_prefix t q ≡ true) (texts cs)

-- The greatest prefix of these texts.
abbrev pub Greatest : Text → List Completion → Type 0
Greatest p cs = (q : Text) → IsCommon q cs ↔ (has_prefix p q ≡ true)

-- The candidates as they are, for there is at most one, or nothing to add to the argument; or the
-- greatest common prefix of several, which is longer than the argument and is not followed by a space.
abbrev pub Outcome : Text → List Completion → List Completion → Type 0
Outcome arg cs result =
    ((result ≡ cs) × ((length cs ≤ 1) ⊎ ((p : Text) × Greatest p cs × (length p ≤ length arg))))
    ⊎ ((p : Text) × (result ≡ record { text = p; no_space = true } ∷ [])
        × (2 ≤ length cs)
        × Greatest p cs
        × (length arg < length p))

join_common-Outcome : (arg : Text) (cs : List Completion) → Outcome arg cs (join_common arg cs)
unfolding join_common
join_common-Outcome arg [] = inl (refl, inl (omega arith))
join_common-Outcome arg (c ∷ []) = inl (refl, inl (omega arith))
join_common-Outcome arg (c ∷ d ∷ cs) =
    let prefix = common_prefix_slice (texts (c ∷ d ∷ cs)) in
    let greatest : Greatest prefix (c ∷ d ∷ cs) =
      λ q. let (down, up) = common_prefix_slice_iff c.text (texts (d ∷ cs)) q in (up, down) in
    elim (Bool-cases (ltb (length arg) (length prefix))) [
      | inl e ↦ rw e (inr (prefix, refl, omega arith, greatest, ground arith))
      | inr e ↦ rw e (inl (refl, inr (prefix, greatest, ground arith)))
    ]

-- `completePostProcess` keeps the candidates that begin with the argument, in their order. If there are several, and their
-- greatest common prefix is longer than the argument, it gives that prefix alone in place of them, without a
-- space behind it; otherwise it gives them as they are. In each case no candidate that begins with the
-- argument is lost: one of the completions is a prefix of it.
pub post_process-Covered :
    (arg : Text) (cs : List Completion)
    → Outcome arg (beginning arg cs) (post_process arg cs)
      × ((t : Text) → Among t cs → has_prefix t arg ≡ true → Covered t (post_process arg cs))
unfolding post_process
post_process-Covered arg cs = (
  rw (keep_begins_lem arg cs) (join_common-Outcome arg (beginning arg cs)),
  λ t h k. join_common-Covered arg t (keep_begins arg cs) (keep_begins-Among arg t cs h k),
)

-- The completer of `CompleteStrings` proposes exactly those of its strings that are longer than what
-- was typed and begin with it.
pub complete_strings_iff :
    (ss : List Text) (arg t : Text)
    → Among t (complete_strings ss arg)
      ↔ ((contains ss t ≡ true) × (length arg < length t) × (has_prefix t arg ≡ true))
unfolding complete_strings
complete_strings_iff [] arg t = (λ h. absurd h, λ h. cc)
complete_strings_iff (s ∷ ss) arg t =
    let (down, up) = complete_strings_iff ss arg t in
    elim (Bool-cases (ltb (length arg) (length s) && has_prefix s arg)) [
      | inl e ↦ rw e (
        λ h. elim h [
          | inl k ↦ rw (← k) (rw (text_eq_refl s), ground arith, and_right _ _ e)
          | inr k ↦ let m = down k in (ground arith, m.1, m.2)
        ],
        λ h. elim (Bool-cases (text_eq s t)) [
          | inl k ↦ inl ((text_eq_iff s t).0 k)
          | inr k ↦ inr (up (ground arith, h.1, h.2))
        ],
      )
      | inr e ↦ rw e (
        λ k. let m = down k in (ground arith, m.1, m.2),
        λ h. elim (Bool-cases (text_eq s t)) [
          | inl k ↦ let x : s ≡ t = (text_eq_iff s t).0 k in absurd (ground arith)
          | inr k ↦ up (ground arith, h.1, h.2)
        ],
      )
    ]
