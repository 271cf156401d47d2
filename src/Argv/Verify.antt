-- ===== src/Argv/Verify.antt =====
-- `Command.Verify` and what it calls: argv/command.go, option.go, parameter.go and name.go.
use mfp.Go.Maps.{contains}
use mfp.Go.Utf8.{runes}
use mfp.Go.Text.{has_suffix, codes, text_eq, has_prefix, Text}
use mfp.Argv.Model.{
  command_names, Commands, to_list, is_repeated, is_nonempty, is_optional, option_names, Parameter,
  cut_suffix, Error, CommandOption, Command, in_conflicts, empty_option, invalid_option_char,
  in_requires, invalid_parameter_char, command, in_command, nil, duplicated_option,
  optional_after_repeated, cons, no_dash, duplicated_parameter, short_with_long, in_sub_command,
  missed_command_name, required_after_optional, duplicated_sub_command, missed_bracket,
  empty_parameter, parameter_without_name, option_without_name, repeated_twice, mutually_exclusive,
}
pub mod Names
pub mod Syntax
mod Tests
pub mod Progress
pub mod Disposition
use mfp.Base.{
  ◌-◌, take, length, drop, ◌==◌, ltb, ◌||◌, ◌&&◌, if◌then◌else◌, [], ◌∷◌, Result, ℕ, Option, List,
  Bool, err, ok, false, some, stuck, true, none, panic, ◌>>=◌, ◌>>◌,
}

-- unicode.IsLetter and unicode.IsDigit: tables of the Unicode standard, which the model takes as
-- they come.
pub record Unicode : Type 0 where
  pub is_letter : ℕ → Bool
  pub is_digit : ℕ → Bool

-- `nameCheck`, on the runes of the name; the flag is `i > 0` and `none` stands for -1.
unfoldable pub name_check : Unicode → Bool → List ℕ → Option ℕ
name_check u later [] = none
name_check u later (c ∷ cs) =
    if u.is_letter c || u.is_digit c || (later && c == b'-') then name_check u true cs else some c

-- `(opt *Option) verifyNameSyntax`, behind the dashes.
verify_option_chars : Unicode → Bool → Text → Text → Result Error (Unit {0})
verify_option_chars u short name [] = err (empty_option name)
verify_option_chars u short name (b ∷ bs) = elim (name_check u false (runes (b ∷ bs))) [
  | some c ↦ err (invalid_option_char c name)
  | none ↦ if short && ltb 1 (length (b ∷ bs)) then err (short_with_long name) else ok tt
]

unfoldable pub verify_name_syntax : Unicode → Text → Result Error (Unit {0})
unfolding verify_option_chars
verify_name_syntax u name =
    if has_prefix name (codes "--")
    then verify_option_chars u false name (drop 2 name)
    else if has_prefix name (codes "-")
    then verify_option_chars u true name (drop 1 name)
    else err (no_dash name)

-- `fmt.Errorf("Conflicts: %w", err)` and the like.
abbrev pub wrap : (Error → Error) → Result Error (Unit {0}) → Result Error (Unit {0})
wrap f (ok x) = ok x
wrap f (err e) = err (f e)
wrap f panic = panic
wrap f stuck = stuck

verify_syntax_all : Unicode → (Error → Error) → List Text → Result Error (Unit {0})
verify_syntax_all u f [] = ok tt
verify_syntax_all u f (n ∷ ns) = do wrap f (verify_name_syntax u n); verify_syntax_all u f ns

-- `(opt *Option) verify`
unfoldable pub verify_option : Unicode → CommandOption → Result Error (Unit {0})
unfolding verify_syntax_all
verify_option u o = if text_eq o.name [] then err option_without_name else do
  verify_syntax_all u (λ e. e) (option_names o)
  verify_syntax_all u in_conflicts o.conflicts
  verify_syntax_all u in_requires o.requires

-- The names of one option or command join those that were seen.
unfoldable pub add_names : (Text → Error) → List Text → List Text → Result Error (List Text)
add_names dup seen [] = ok seen
add_names dup seen (n ∷ ns) = if contains seen n then err (dup n) else add_names dup (n ∷ seen) ns

-- `verifyOptions`
unfoldable pub verify_options : Unicode → List Text → List CommandOption → Result Error (Unit {0})
verify_options u seen [] = ok tt
verify_options u seen (o ∷ os) = do
  verify_option u o
  seen' ← add_names duplicated_option seen (option_names o)
  verify_options u seen' os

-- `(param *Parameter) verify`: the name without its brackets, then without the ellipsis.
verify_parameter_chars : Unicode → Text → Text → Result Error (Unit {0})
verify_parameter_chars u name [] = err (empty_parameter name)
verify_parameter_chars u name (b ∷ bs) = elim (name_check u false (runes (b ∷ bs))) [
  | some c ↦ err (invalid_parameter_char c name)
  | none ↦ ok tt
]

unfoldable pub verify_parameter : Unicode → Parameter → Result Error (Unit {0})
unfolding verify_parameter_chars cut_suffix
verify_parameter u p =
    if text_eq p.name []
    then err parameter_without_name
    else if has_prefix p.name (codes "[")
    then if has_suffix p.name (codes "]")
      then verify_parameter_chars u p.name
          (cut_suffix (take (length p.name - 2) (drop 1 p.name)) (codes "..."))
      else err (missed_bracket p.name)
    else verify_parameter_chars u p.name (cut_suffix p.name (codes "..."))

-- `verifyParameters`, its first loop.
unfoldable pub verify_parameter_names :
    Unicode → List Text → List Parameter → Result Error (Unit {0})
verify_parameter_names u seen [] = ok tt
verify_parameter_names u seen (p ∷ ps) = do
  verify_parameter u p
  seen' ← add_names duplicated_parameter seen (p.name ∷ [])
  verify_parameter_names u seen' ps

-- One round of its second loop: the parameter against the last repeated and the last optional one.
check_optional : Option Parameter → Parameter → Result Error (Unit {0})
check_optional none p = ok tt
check_optional (some r) p = err (optional_after_repeated p.name r.name)

check_required : Option Parameter → Parameter → Result Error (Unit {0})
check_required none p = ok tt
check_required (some o) p = err (required_after_optional p.name o.name)

check_repeated : Option Parameter → Parameter → Result Error (Unit {0})
check_repeated none p = ok tt
check_repeated (some r) p = err (repeated_twice r.name p.name)

unfoldable pub verify_disposition :
    Option Parameter → Option Parameter → List Parameter → Result Error (Unit {0})
unfolding check_optional check_required check_repeated
verify_disposition repeated optional [] = ok tt
verify_disposition repeated optional (p ∷ ps) =
    let optional' = if is_optional p then some p else optional in
    let repeated' = if is_repeated p then some p else repeated in
    let rest = verify_disposition repeated' optional' ps in
    do
      if is_optional p then check_optional repeated p else check_required optional p
      if is_repeated p then check_repeated repeated p else ok tt
      rest

unfoldable pub verify_parameters : Unicode → List Parameter → Result Error (Unit {0})
verify_parameters u ps = do verify_parameter_names u [] ps; verify_disposition none none ps

-- `Verify` and `verifySubCommands`.
unfoldable mutual
  unfolding verify_options verify_parameters

  pub verify : Unicode → Command → Result Error (Unit {0})
  verify u (command i subs) =
      if text_eq i.name []
      then err missed_command_name
      else if is_nonempty i.parameters && is_nonempty (to_list subs)
      then err mutually_exclusive
      else do
        wrap (in_command i.name)
            (do verify_options u [] i.options; verify_parameters u i.parameters)
        wrap (in_sub_command i.name) (verify_sub_commands u [] subs)

  pub verify_sub_commands : Unicode → List Text → Commands → Result Error (Unit {0})
  verify_sub_commands u seen nil = ok tt
  verify_sub_commands u seen (cons c cs) = do
    seen' ← add_names duplicated_sub_command seen (command_names c)
    verify u c
    verify_sub_commands u seen' cs
