-- ===== src/Argv/Params.antt =====
-- The part of argv/parser.go that reads positional parameters: `paramsInfo` and `handleParameters`.
-- `paramDescs` is a list of options, `none` for a nil pointer; an index out of range is a panic.
mod Assign
mod Tests
pub mod Descriptions
pub mod TooFew
pub mod Values
pub mod Progress
use mfp.Go.Text.{Text}
use mfp.Argv.Options.{Parser}
use mfp.Argv.Model.{
  info, is_required, is_repeated, Validator, Error, Parameter, invalid_parameter_value,
}
use mfp.Base.{
  set, ◌||◌, replicate, get_elem?, ◌-◌, ◌+◌, length, ◌∷◌, ◌^◌, if◌then◌else◌, Result, Option, Bool,
  ℕ, List, err, suc, false, none, ok, some, [], zero, true, panic, ◌>>=◌, ◌>>◌,
}

-- math.MaxInt on a 64-bit machine
abbrev pub max_int : ℕ
max_int = 2 ^ 63 - 1

abbrev pub count_required : List Parameter → ℕ
count_required [] = 0
count_required (p ∷ ps) = (if is_required p then 1 else 0) + count_required ps

abbrev pub has_repeated : List Parameter → Bool
has_repeated [] = false
has_repeated (p ∷ ps) = is_repeated p || has_repeated ps

-- `paramsInfo`: the least and the greatest count of values.
unfoldable pub params_info : List Parameter → ℕ × ℕ
params_info ps = (count_required ps, if has_repeated ps then max_int else length ps)

abbrev pub Descs : Type 0
Descs = List (Option Parameter)

-- The first loop, with the count of rounds left: it stops at the repeated parameter.
pub front_loop : ℕ → ℕ → List Parameter → Descs → Result Error (Descs × Option ℕ)
front_loop zero i params descs = ok (descs, none)
front_loop (suc n) i params descs = elim (get_elem? params i) [
  | none ↦ panic
  | some p ↦
      if is_repeated p
      then ok (set descs i (some p), some i)
      else front_loop n (i + 1) params (set descs i (some p))
]

-- The loop backwards from the last parameter; the numbers are `j + 1` and `i + 1`.
pub back_loop : ℕ → ℕ → List Parameter → Descs → Result Error Descs
back_loop zero i1 params descs = panic
back_loop (suc j) i1 params descs = elim (get_elem? params j) [
  | none ↦ panic
  | some p ↦ elim (is_repeated p) [
    | true ↦ ok descs
    | false ↦ elim i1 [ zero ↦ panic | suc i ↦ back_loop j i params (set descs i (some p)) ]
  ]
]

-- The loop that gives the places still nil, behind the repeated parameter, to it.
pub fill_loop : ℕ → ℕ → Option Parameter → Descs → Descs
fill_loop zero i rept descs = descs
fill_loop (suc n) i rept descs =
    fill_loop n (i + 1) rept (elim (get_elem? descs i) [ some none ↦ set descs i rept | _ ↦ descs ])

-- The last loop from behind the repeated parameter, whose place is `r`, for `n` values.
fill_rest : ℕ → ℕ → Descs → Result Error Descs
unfolding fill_loop
fill_rest n r descs = elim (get_elem? descs r) [
  | none ↦ panic
  | some p ↦ ok (fill_loop (n - (r + 1)) (r + 1) p descs)
]

-- The three loops: the descriptions of `n` values.
pub assign : List Parameter → ℕ → Result Error Descs
unfolding front_loop back_loop fill_rest
assign params n = do
  (descs, rept) ← front_loop n 0 params (replicate n none)
  elim rept [
    | none ↦ ok descs
    | some r ↦ back_loop (length params) n params descs >>= fill_rest n r
  ]

-- `desc.Validate(val)`, unless the callback is nil.
check_value : Parameter → Option Validator → Text → Result Error (Unit {0})
check_value p none val = ok tt
check_value p (some f) val = elim (f val) [
  | none ↦ ok tt
  | some e ↦ err (invalid_parameter_value p.name e val)
]

-- The loop over the values with their descriptions, and the parameters that it leaves. A nil
-- description panics.
pub validate_all : Descs → List Text → Result Error (List (Parameter × Text))
unfolding check_value
validate_all descs [] = ok []
validate_all [] (v ∷ vs) = panic
validate_all (none ∷ ds) (v ∷ vs) = panic
validate_all (some p ∷ ds) (v ∷ vs) = do
  check_value p p.validate v
  rest ← validate_all ds vs
  ok ((p, v) ∷ rest)

unfoldable pub handle_parameters : Parser → List Text → Result Error Parser
unfolding assign validate_all
handle_parameters p vals = do
  descs ← assign (info p.inv.cmd).parameters (length vals)
  params ← validate_all descs vals
  ok (record p { parameters = params })

-- The values and the descriptions that `handleParameters` has stored.
abbrev pub values_of : List (Parameter × Text) → List Text
values_of [] = []
values_of ((p, v) ∷ ps) = v ∷ values_of ps

abbrev pub params_of : List (Parameter × Text) → List Parameter
params_of [] = []
params_of ((p, v) ∷ ps) = p ∷ params_of ps
