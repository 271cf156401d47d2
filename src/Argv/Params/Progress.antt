-- ===== src/Argv/Params/Progress.antt =====
-- `handleParameters` of argv/parser.go: its loops.
use mfp.Go.Text.{Text}
use mfp.Argv.Model.{is_repeated, info, Validator, Parameter}
use mfp.Argv.Options.{Parser}
use mfp.Argv.Params.{
  fill_rest, check_value, Descs, validate_all, handle_parameters, front_loop, back_loop, assign,
}
use mfp.Base.{
  ◌+◌, set, replicate, ◌>>=◌, Bool-cases, length, get_elem?, ◌≡◌, arith, Option-cases, Option,
  Ends-bind, Ends, ℕ, List, ok, inr, inl, refl, zero, some, ◌∷◌, [], none, suc,
}

front-ends :
    (n i : ℕ) (ps : List Parameter) (ds : Descs) → Ends (front_loop n i ps ds) (λ r. Unit {0})
unfolding front_loop
front-ends zero i ps ds = tt
front-ends (suc n) i ps ds = elim (Option-cases (get_elem? ps i)) [
  | inl e ↦ rw (e, front_loop) tt
  | inr (p, e) ↦ elim (Bool-cases (is_repeated p)) [
    | inl r ↦ rw (e, r, front_loop) tt
    | inr r ↦ rw (e, r, front_loop) (front-ends n (i + 1) ps (set ds i (some p)))
  ]
]

back-ends :
    (j i : ℕ) (ps : List Parameter) (ds : Descs) → Ends (back_loop j i ps ds) (λ r. Unit {0})
unfolding back_loop
back-ends zero i ps ds = tt
back-ends (suc j) zero ps ds = ground arith
back-ends (suc j) (suc i) ps ds = elim (Option-cases (get_elem? ps j)) [
  | inl e ↦ rw (e, back_loop) tt
  | inr (p, e) ↦ elim (Bool-cases (is_repeated p)) [
    | inl r ↦ rw (e, r, back_loop) tt
    | inr r ↦ rw (e, r, back_loop) (back-ends j i ps (set ds i (some p)))
  ]
]

rest-ends : (n r : ℕ) (ds : Descs) → Ends (fill_rest n r ds) (λ r. Unit {0})
unfolding fill_rest
rest-ends n r ds = ground arith

assign-ends : (ps : List Parameter) (n : ℕ) → Ends (assign ps n) (λ r. Unit {0})
unfolding assign
assign-ends ps n =
    Ends-bind (front_loop n 0 ps (replicate n none)) _ (λ r. Unit {0}) (λ r. Unit {0})
      (front-ends n 0 ps (replicate n none)) λ (ds, r) _. after ds r
  where
    after :
        (ds : Descs) (r : Option ℕ)
        → Ends
            (elim r [ none ↦ ok ds | some k ↦ back_loop (length ps) n ps ds >>= fill_rest n k ])
            (λ r. Unit {0})
    after ds none = tt
    after ds (some k) =
        Ends-bind (back_loop (length ps) n ps ds) (fill_rest n k) (λ r. Unit {0}) (λ r. Unit {0})
          (back-ends (length ps) n ps ds) (λ full _. rest-ends n k full)

check_value-ends :
    (p : Parameter) (f : Option Validator) (v : Text) → Ends (check_value p f v) (λ r. Unit {0})
unfolding check_value
check_value-ends p none v = tt
check_value-ends p (some f) v = ground arith

validate_all-ends : (ds : Descs) (vs : List Text) → Ends (validate_all ds vs) (λ r. Unit {0})
unfolding validate_all
validate_all-ends [] [] = tt
validate_all-ends (d ∷ ds) [] = tt
validate_all-ends [] (v ∷ vs) = tt
validate_all-ends (none ∷ ds) (v ∷ vs) = tt
validate_all-ends (some p ∷ ds) (v ∷ vs) =
    Ends-bind (check_value p p.validate v) _ (λ r. Unit {0}) (λ r. Unit {0})
      (check_value-ends p p.validate v)
      (λ _ _.
        Ends-bind (validate_all ds vs) _ (λ r. Unit {0}) (λ r. Unit {0}) (validate_all-ends ds vs)
          (λ _ _. tt))

pub handle_parameters-ends :
    (p : Parser) (vals : List Text)
    → Ends
        (handle_parameters p vals)
        (λ q. (q.inv ≡ p.inv) × (q.options ≡ p.options) × (q.opt_required ≡ p.opt_required))
unfolding handle_parameters
handle_parameters-ends p vals =
    Ends-bind (assign (info p.inv.cmd).parameters (length vals)) _ (λ r. Unit {0}) _
      (assign-ends (info p.inv.cmd).parameters (length vals))
      (λ descs _.
        Ends-bind (validate_all descs vals) _ (λ r. Unit {0}) _ (validate_all-ends descs vals)
          (λ ps _. (refl, refl, refl)))
