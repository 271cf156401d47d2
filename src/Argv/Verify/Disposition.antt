-- ===== src/Argv/Verify/Disposition.antt =====
-- `verifyParameters` of argv/command.go, its second loop: the orders of parameters.
use mfp.Argv.Verify.{verify_disposition}
use mfp.Argv.Model.{is_some, is_repeated, is_optional, Parameter}
use mfp.Base.{
  and_both, and_right, ◌∙◌, sym, and_left, refl, ◌&&◌, arith, ◌↔◌, ◌||◌, ◌≡◌, not, All, ◌∷◌,
  if◌then◌else◌, Bool, Option, List, true, ok, [], none, some,
}

-- `q` may stand somewhere behind `p`: nothing required behind an optional parameter, and nothing
-- optional or repeated behind a repeated one.
abbrev pub may_follow : Parameter → Parameter → Bool
may_follow p q =
    (not (is_optional p) || is_optional q)
    && not (is_repeated p && (is_optional q || is_repeated q))

abbrev pub IsOrdered : List Parameter → Type 0
IsOrdered [] = Unit {0}
IsOrdered (p ∷ ps) = All (λ q. may_follow p q ≡ true) ps × IsOrdered ps

-- The same against what the loop has kept of the parameters behind it.
abbrev may_come : Option Parameter → Option Parameter → Parameter → Bool
may_come repeated optional q =
    (not (is_some optional) || is_optional q)
    && not (is_some repeated && (is_optional q || is_repeated q))

abbrev next_repeated : Option Parameter → Parameter → Option Parameter
next_repeated repeated p = if is_repeated p then some p else repeated

abbrev next_optional : Option Parameter → Parameter → Option Parameter
next_optional optional p = if is_optional p then some p else optional

round :
    (repeated optional : Option Parameter) (p : Parameter) (ps : List Parameter)
    → (verify_disposition repeated optional (p ∷ ps) ≡ ok tt) ↔ (
        (may_come repeated optional p ≡ true)
        × (verify_disposition (next_repeated repeated p) (next_optional optional p) ps ≡ ok tt))
unfolding verify_disposition
round none none p ps = (λ h. ground arith, λ h. ground arith)
round none (some o) p ps = (λ h. ground arith, λ h. ground arith)
round (some r) none p ps = (λ h. ground arith, λ h. ground arith)
round (some r) (some o) p ps = (λ h. ground arith, λ h. ground arith)

may_come_next :
    (repeated optional : Option Parameter) (p q : Parameter)
    → may_come (next_repeated repeated p) (next_optional optional p) q
      ≡ (may_come repeated optional q && may_follow p q)
may_come_next repeated optional p q = ground arith

All-next :
    (repeated optional : Option Parameter) (p : Parameter) (ps : List Parameter)
    → All (λ q. may_come (next_repeated repeated p) (next_optional optional p) q ≡ true) ps
      ↔ (All (λ q. may_come repeated optional q ≡ true) ps × All (λ q. may_follow p q ≡ true) ps)
All-next repeated optional p [] = (λ h. (tt, tt), λ h. tt)
All-next repeated optional p (q ∷ ps) =
    let (to, from) = All-next repeated optional p ps in
    let e = may_come_next repeated optional p q in
    (
      λ h. ((and_left _ _ (sym e ∙ h.0), (to h.1).0), (and_right _ _ (sym e ∙ h.0), (to h.1).1)),
      λ h. (e ∙ and_both _ _ h.0.0 h.1.0, from (h.0.1, h.1.1)),
    )

loop_iff :
    (ps : List Parameter) (repeated optional : Option Parameter)
    → (verify_disposition repeated optional ps ≡ ok tt)
      ↔ (All (λ q. may_come repeated optional q ≡ true) ps × IsOrdered ps)
loop_iff [] repeated optional = (λ h. (tt, tt), λ h. unfold verify_disposition in refl)
loop_iff (p ∷ ps) repeated optional =
    let (to, from) = round repeated optional p ps in
    let (down, up) = loop_iff ps (next_repeated repeated p) (next_optional optional p) in
    let (out, back) = All-next repeated optional p ps in
    (
      λ h.
          let (now, later) = to h in
          let (all, ordered) = down later in
          let (mine, its) = out all in ((now, mine), (its, ordered)),
      λ h. from (h.0.0, up (back (h.0.1, h.1.0), h.1.1)),
    )

All-come : (ps : List Parameter) → All (λ q. may_come none none q ≡ true) ps
All-come [] = tt
All-come (p ∷ ps) = (refl, All-come ps)

-- `verifyParameters` accepts an order of parameters exactly when no required parameter stands
-- behind an optional one, and no optional and no repeated one behind a repeated one.
pub verify_disposition_iff :
    (ps : List Parameter) → (verify_disposition none none ps ≡ ok tt) ↔ IsOrdered ps
verify_disposition_iff ps =
    let (down, up) = loop_iff ps none none in (λ h. (down h).1, λ h. up (All-come ps, h))
