-- ===== src/Argv/Params/Values.antt =====
-- `handleParameters` of argv/parser.go: the values with their parameters.
use mfp.Argv.Params.Descriptions.{assign_repeated}
use mfp.Argv.Params.Assign.{NotRepeated}
use mfp.Argv.Options.{Parser}
use mathlib.Core.Path.{ap₂}
use mathlib.Core.List.{map-append}
use mfp.Go.Text.{Text}
use mfp.Argv.Model.{is_repeated, info, is_some, Validator, Parameter}
use mfp.Argv.Params.{
  assign, handle_parameters, params_of, values_of, check_value, Descs, validate_all,
}
use mfp.Base.{
  length-map, length-replicate, length-append, map-replicate, ap, ◌∙◌, sym, replicate, ◌+◌, ◌++◌, ℕ,
  suc, bind-eq-ok, map, not, length, arith, ◌≡◌, Bool, Option, List, some, ok, true, [], none, ◌∷◌,
  refl,
}

-- The callback of the parameter, if there is one, accepts the value.
abbrev accepts : Option Validator → Text → Bool
accepts none v = true
accepts (some f) v = not (is_some (f v))

abbrev pub AllAccepted : List (Parameter × Text) → Type 0
AllAccepted [] = Unit {0}
AllAccepted ((p, v) ∷ ps) = (accepts p.validate v ≡ true) × AllAccepted ps

check_value-accepts :
    (p : Parameter) (f : Option Validator) (v : Text)
    → check_value p f v ≡ ok tt
    → accepts f v ≡ true
unfolding check_value
check_value-accepts p none v h = refl
check_value-accepts p (some f) v h = ground arith

validate_all-ok :
    (descs : Descs) (vals : List Text) (ps : List (Parameter × Text))
    → validate_all descs vals ≡ ok ps
    → length descs ≡ length vals
    → (values_of ps ≡ vals) × (descs ≡ map some (params_of ps)) × AllAccepted ps
unfolding validate_all
validate_all-ok [] [] ps h l =
    let e : ◌≡◌ {A = List (Parameter × Text)} [] ps = cc in rw (← e) (refl, refl, tt)
validate_all-ok (d ∷ ds) [] ps h l = absurd (omega arith)
validate_all-ok [] (v ∷ vs) ps h l = cc
validate_all-ok (none ∷ ds) (v ∷ vs) ps h l = cc
validate_all-ok (some p ∷ ds) (v ∷ vs) ps h l =
    let (_, c, h1) = bind-eq-ok (check_value p p.validate v) _ h in
    let (rest, e, h2) = bind-eq-ok (validate_all ds vs) _ h1 in
    let ih = validate_all-ok ds vs rest e (omega arith) in
    let e2 : (p, v) ∷ rest ≡ ps = cc in
    rw (← e2)
      (ap (◌∷◌ v) ih.0, ap (◌∷◌ (some p)) ih.1, (check_value-accepts p p.validate v c, ih.2))

handle-ok :
    (p q : Parser) (vals : List Text) (descs : Descs)
    → handle_parameters p vals ≡ ok q
    → assign (info p.inv.cmd).parameters (length vals) ≡ ok descs
    → validate_all descs vals ≡ ok q.parameters
unfolding handle_parameters
handle-ok p q vals descs h a = ground arith

map-some-injective : (xs ys : List Parameter) → map some xs ≡ map (λ p. some p) ys → xs ≡ ys
map-some-injective [] [] h = refl
map-some-injective [] (y ∷ ys) h = cc
map-some-injective (x ∷ xs) [] h = cc
map-some-injective (x ∷ xs) (y ∷ ys) h =
    let a : x ≡ y = cc in
    let b : map some xs ≡ map (λ p. some p) ys = cc in
    ap₂ (λ p ps. p ∷ ps) a (map-some-injective xs ys b)

-- A command with parameters `front`, a repeated `r`, and `back`, none of them repeated, and values
-- enough for all: if `handleParameters` succeeds then it stores the values in their order, the first
-- ones with `front`, the last ones with `back` and those between, at least one, with `r`, and each
-- value is accepted by the callback of its parameter.
pub handle_repeated :
    (p q : Parser) (vals : List Text) (front : List Parameter) (r : Parameter)
    (back : List Parameter) (k : ℕ)
    → (info p.inv.cmd).parameters ≡ front ++ r ∷ back
    → NotRepeated front
    → is_repeated r ≡ true
    → NotRepeated back
    → length vals ≡ length front + (suc k + length back)
    → handle_parameters p vals ≡ ok q
    → (values_of q.parameters ≡ vals)
      × (params_of q.parameters ≡ front ++ (replicate (suc k) r ++ back))
      × AllAccepted q.parameters
handle_repeated p q vals front r back k e hf hr hb l h =
    let descs = map some front ++ (replicate (suc k) (some r) ++ map some back) in
    let a : assign (info p.inv.cmd).parameters (length vals) ≡ ok descs =
      rw (e, l) (assign_repeated front r back k hf hr hb) in
    let m : descs ≡ map some (front ++ (replicate (suc k) r ++ back)) =
      simp (map-append, map-replicate) in
    let n : length descs ≡ length vals = omega (
      arith,
      length-append (map some front) (replicate (suc k) (some r) ++ map some back),
      length-append (replicate (suc k) (some r)) (map some back),
      length-replicate {A = Option Parameter} (suc k) (some r),
      length-map {B = Option Parameter} front some,
      length-map {B = Option Parameter} back some,
    ) in
    let v = validate_all-ok descs vals q.parameters (handle-ok p q vals descs h a) n in
    (v.0, map-some-injective _ _ (sym v.1 ∙ m), v.2)

-- The values with their parameters, in order.
abbrev pub paired : List Parameter → List Text → List (Parameter × Text)
paired [] vs = []
paired (p ∷ ps) [] = []
paired (p ∷ ps) (v ∷ vs) = (p, v) ∷ paired ps vs

accepts-check_value :
    (p : Parameter) (f : Option Validator) (v : Text)
    → accepts f v ≡ true
    → check_value p f v ≡ ok tt
unfolding check_value
accepts-check_value p none v h = refl
accepts-check_value p (some f) v h = ground arith

validate_all-paired :
    (ps : List Parameter) (vals : List Text)
    → length ps ≡ length vals
    → AllAccepted (paired ps vals)
    → validate_all (map some ps) vals ≡ ok (paired ps vals)
unfolding validate_all
validate_all-paired [] [] l h = refl
validate_all-paired [] (v ∷ vs) l h = absurd (omega arith)
validate_all-paired (p ∷ ps) [] l h = absurd (omega arith)
validate_all-paired (p ∷ ps) (v ∷ vs) l h =
    rw (accepts-check_value p p.validate v h.0, validate_all-paired ps vs (omega arith) h.1) refl

handle_assigned :
    (p : Parser) (vals : List Text) (descs : Descs) (params : List (Parameter × Text))
    → assign (info p.inv.cmd).parameters (length vals) ≡ ok descs
    → validate_all descs vals ≡ ok params
    → handle_parameters p vals ≡ ok (record p { parameters = params })
unfolding handle_parameters
handle_assigned p vals descs params a v = rw (a, v) refl

-- In a command with parameters `front`, a repeated `r`, and `back`, none of them repeated, and values
-- enough for all: if each value is accepted by the callback of its parameter, with `r` taking all
-- between the first and the last ones, then `handleParameters` succeeds and stores these pairs.
pub handle_accepted :
    (p : Parser) (vals : List Text) (front : List Parameter) (r : Parameter) (back : List Parameter)
    (k : ℕ)
    → (info p.inv.cmd).parameters ≡ front ++ r ∷ back
    → NotRepeated front
    → is_repeated r ≡ true
    → NotRepeated back
    → length vals ≡ length front + (suc k + length back)
    → AllAccepted (paired (front ++ (replicate (suc k) r ++ back)) vals)
    → handle_parameters p vals
      ≡ ok (record p { parameters = paired (front ++ (replicate (suc k) r ++ back)) vals })
handle_accepted p vals front r back k e hf hr hb l h =
    let params = front ++ (replicate (suc k) r ++ back) in
    let a : assign (info p.inv.cmd).parameters (length vals) ≡ ok (map some params) =
      rw (e, l)
        (assign_repeated front r back k hf hr hb
          ∙ ap ok (sym (simp (map-append, map-replicate)))) in
    let n : length params ≡ length vals = omega (
      arith,
      length-append front (replicate (suc k) r ++ back),
      length-append (replicate (suc k) r) back,
      length-replicate (suc k) r,
    ) in
    handle_assigned p vals (map some params) (paired params vals) a
      (validate_all-paired params vals n h)
