-- ===== src/Argv/Verify/Progress.antt =====
-- `Command.Verify` of argv/command.go: its loops.
use mfp.Go.Text.{codes, text_eq, Text}
use mfp.Argv.Verify.{
  verify_sub_commands, check_required, verify_parameters, verify_parameter_chars,
  verify_option_chars, verify, check_repeated, check_optional, wrap, verify_syntax_all, Unicode,
  verify_parameter_names, verify_parameter, verify_options, verify_option, verify_name_syntax,
  verify_disposition, add_names,
}
use mfp.Argv.Model.{
  command_names, Commands, to_list, is_nonempty, is_repeated, is_optional, cut_suffix, Command,
  in_conflicts, nil, duplicated_sub_command, cons, in_requires, in_command, command, in_sub_command,
  option_names, Parameter, CommandOption, Error, duplicated_option, duplicated_parameter,
}
use mfp.Base.{
  ◌-◌, ◌&&◌, length, take, Bool, if◌then◌else◌, drop, Bool-cases, none, inl, true, inr, false,
  Option, arith, Ends-bind, ◌>>◌, List, Ends, Result, [], panic, ok, err, stuck, ◌∷◌,
}

abbrev Ending : Result Error (Unit {0}) → Type 0
Ending m = Ends m (λ x. Unit {0})

wrap-ends : (f : Error → Error) (m : Result Error (Unit {0})) → Ending m → Ending (wrap f m)
wrap-ends f (ok x) h = tt
wrap-ends f (err e) h = tt
wrap-ends f panic h = tt
wrap-ends f stuck h = h

seq-ends : (m k : Result Error (Unit {0})) → Ending m → Ending k → Ending (m >> k)
seq-ends m k h h' = Ends-bind m (λ _. k) (λ x. Unit {0}) (λ x. Unit {0}) h (λ _ _. h')

chars-end :
    (u : Unicode) (short : Bool) (name check : Text)
    → Ending (verify_option_chars u short name check)
unfolding verify_option_chars
chars-end u short name [] = tt
chars-end u short name (b ∷ bs) = ground arith

syntax-ends : (u : Unicode) (n : Text) → Ending (verify_name_syntax u n)
unfolding verify_name_syntax
syntax-ends u n = ground (arith, chars-end u false n (drop 2 n), chars-end u true n (drop 1 n))

all-ends : (u : Unicode) (f : Error → Error) (ns : List Text) → Ending (verify_syntax_all u f ns)
unfolding verify_syntax_all
all-ends u f [] = tt
all-ends u f (n ∷ ns) =
    seq-ends (wrap f (verify_name_syntax u n)) (verify_syntax_all u f ns)
      (wrap-ends f (verify_name_syntax u n) (syntax-ends u n)) (all-ends u f ns)

option-ends : (u : Unicode) (o : CommandOption) → Ending (verify_option u o)
unfolding verify_option
option-ends u o = elim (Bool-cases (text_eq o.name [])) [
  | inl e ↦ rw e tt
  | inr e ↦ rw e (
      seq-ends (verify_syntax_all u (λ x. x) (option_names o)) _
        (all-ends u (λ x. x) (option_names o))
        (seq-ends (verify_syntax_all u in_conflicts o.conflicts) _
          (all-ends u in_conflicts o.conflicts) (all-ends u in_requires o.requires)))
]

add-ends : (dup : Text → Error) (ns seen : List Text) → Ends (add_names dup seen ns) (λ x. Unit {0})
unfolding add_names
add-ends dup [] seen = tt
add-ends dup (n ∷ ns) seen = ground (arith, add-ends dup ns (n ∷ seen))

options-end :
    (u : Unicode) (os : List CommandOption) (seen : List Text) → Ending (verify_options u seen os)
unfolding verify_options
options-end u [] seen = tt
options-end u (o ∷ os) seen = seq-ends (verify_option u o) _ (option-ends u o) (
    Ends-bind (add_names duplicated_option seen (option_names o)) _ (λ x. Unit {0}) _
      (add-ends duplicated_option (option_names o) seen) (λ s _. options-end u os s))

parameter_chars-end : (u : Unicode) (name s : Text) → Ending (verify_parameter_chars u name s)
unfolding verify_parameter_chars
parameter_chars-end u name [] = tt
parameter_chars-end u name (b ∷ bs) = ground arith

parameter-ends : (u : Unicode) (p : Parameter) → Ending (verify_parameter u p)
unfolding verify_parameter
parameter-ends u p = ground (
  arith,
  parameter_chars-end u p.name
      (cut_suffix (take (length p.name - 2) (drop 1 p.name)) (codes "...")),
  parameter_chars-end u p.name (cut_suffix p.name (codes "...")),
)

names-end :
    (u : Unicode) (ps : List Parameter) (seen : List Text)
    → Ending (verify_parameter_names u seen ps)
unfolding verify_parameter_names
names-end u [] seen = tt
names-end u (p ∷ ps) seen = seq-ends (verify_parameter u p) _ (parameter-ends u p) (
    Ends-bind (add_names duplicated_parameter seen (p.name ∷ [])) _ (λ x. Unit {0}) _
      (add-ends duplicated_parameter (p.name ∷ []) seen) (λ s _. names-end u ps s))

first-ends :
    (r o : Option Parameter) (p : Parameter)
    → Ending (if is_optional p then check_optional r p else check_required o p)
unfolding check_optional check_required
first-ends r o p = ground arith

second-ends :
    (r : Option Parameter) (p : Parameter)
    → Ending (if is_repeated p then check_repeated r p else ok tt)
unfolding check_repeated
second-ends r p = ground arith

disposition-ends :
    (ps : List Parameter) (r o : Option Parameter) → Ending (verify_disposition r o ps)
unfolding verify_disposition
disposition-ends [] r o = tt
disposition-ends (p ∷ ps) r o =
    seq-ends (if is_optional p then check_optional r p else check_required o p) _ (first-ends r o p)
      (seq-ends (if is_repeated p then check_repeated r p else ok tt) _ (second-ends r p)
        (disposition-ends ps _ _))

parameters-end : (u : Unicode) (ps : List Parameter) → Ending (verify_parameters u ps)
unfolding verify_parameters
parameters-end u ps =
    seq-ends (verify_parameter_names u [] ps) (verify_disposition none none ps) (names-end u ps [])
      (disposition-ends ps none none)

mutual
  unfolding verify

  verify_ends : (u : Unicode) (c : Command) → Ending (verify u c)
  verify_ends u (command i subs) = elim (Bool-cases (text_eq i.name [])) [
    | inl e ↦ rw e tt
    | inr e ↦ elim (Bool-cases (is_nonempty i.parameters && is_nonempty (to_list subs))) [
      | inl f ↦ rw (e, f) tt
      | inr f ↦
          rw (e, f)
            (seq-ends
              (wrap (in_command i.name)
                (verify_options u [] i.options >> verify_parameters u i.parameters))
              _
              (wrap-ends (in_command i.name) _ (
                seq-ends (verify_options u [] i.options) (verify_parameters u i.parameters)
                  (options-end u i.options []) (parameters-end u i.parameters)))
              (wrap-ends (in_sub_command i.name) (verify_sub_commands u [] subs)
                (sub_commands-end u [] subs)))
    ]
  ]

  sub_commands-end :
      (u : Unicode) (seen : List Text) (cs : Commands) → Ending (verify_sub_commands u seen cs)
  sub_commands-end u seen nil = tt
  sub_commands-end u seen (cons c cs) =
      Ends-bind (add_names duplicated_sub_command seen (command_names c)) _ (λ x. Unit {0}) _
        (add-ends duplicated_sub_command (command_names c) seen)
        (λ s _.
          seq-ends (verify u c) (verify_sub_commands u s cs) (verify_ends u c)
            (sub_commands-end u s cs))

pub verify-ends : (u : Unicode) (c : Command) → Ends (verify u c) (λ x. Unit {0})
verify-ends u c = verify_ends u c
