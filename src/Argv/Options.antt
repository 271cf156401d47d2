-- ===== src/Argv/Options.antt =====
-- The part of argv/parser.go that reads options: the parser's state, `splitOptVal`, `findOption`,
-- `appendOptVal`, `handleShortOption` and `handleLongOption`.
pub mod Splitting
pub mod Progress
pub mod Combined
pub mod Append
pub mod Found
mod Tests
pub mod Spellings
use mfp.Go.Utf8.{runes, encode_rune}
use mfp.Go.Maps.{insert, lookup, contains}
use mfp.Go.Text.{text_eq, Text}
use mfp.Argv.Invocation.{first_or_empty, Invocation}
use mfp.Argv.Model.{
  with_value, option_names, is_some, is_nonempty, info, Validator, Parameter, Error, CommandOption,
  option_conflicts, option_repeated, requires_operand, unknown_option, invalid_option_value,
}
use mfp.Base.{
  ◌+◌, ◌||◌, ◌==◌, ◌++◌, ◌&&◌, length, drop, ◌∷◌, take, not, leb, if◌then◌else◌, get_elem?, ℕ,
  Result, Option, List, Bool, false, err, some, [], true, ok, panic, suc, none, ◌>>=◌, ◌>>◌,
}
use mathlib.Core.Option

-- `parserOptVal`
pub record OptVal : Type 0 where
  pub opt : CommandOption
  pub name : Text
  pub values : List Text

-- `parser`. The map keyed by `*Option` is keyed by the option's place in the command's list, and
-- `rest` is what `argv[nextarg:]` holds.
pub record Parser : Type 0 where
  pub inv : Invocation
  pub rest : List Text
  pub opt_conflicts : List (Text × Text)
  pub opt_required : List (Text × Text)
  pub options : List (ℕ × OptVal)
  pub parameters : List (Parameter × Text)

abbrev pub Outcome {ℓ} : Type ℓ → Type ℓ
Outcome A = Result Error A

-- `done`, `next` and `nextValue`. `next` is called only where there is an argument.
abbrev pub done : Parser → Bool
done p = not (is_nonempty p.rest) || is_some p.inv.subcmd

unfoldable pub next_value : Parser → Text × Bool × Parser
next_value p =
    if done p
    then ([], true, p)
    else (first_or_empty p.rest, false, record p { rest = drop 1 p.rest })

abbrev byte_at : ℕ → Text → ℕ → Bool
byte_at i s c = elim (get_elem? s i) [ some b ↦ b == c | none ↦ false ]

unfoldable pub is_short_option : Text → Bool
is_short_option arg = leb 2 (length arg) && byte_at 0 arg b'-' && not (byte_at 1 arg b'-')

unfoldable pub is_long_option : Text → Bool
is_long_option arg = leb 3 (length arg) && byte_at 0 arg b'-' && byte_at 1 arg b'-'

-- `strings.IndexByte`
unfoldable pub index_byte : Text → ℕ → Option ℕ
index_byte [] c = none
index_byte (b ∷ s) c = if b == c then some 0 else Option.map suc (index_byte s c)

-- `splitOptVal`: the name, the value and `novalue`.
pub record Split : Type 0 where
  pub name : Text
  pub val : Text
  pub novalue : Bool

split_long : Text → Option ℕ → Split
split_long arg (some i) = record { name = take i arg; val = drop (i + 1) arg; novalue = false }
split_long arg none = record { name = arg; val = []; novalue = true }

unfoldable pub split_opt_val : Text → Split
unfolding is_short_option is_long_option split_long
split_opt_val arg =
    if is_short_option arg
    then record { name = take 2 arg; val = drop 2 arg; novalue = text_eq (drop 2 arg) [] }
    else if is_long_option arg
    then split_long arg (index_byte arg b'=')
    else record { name = []; val = []; novalue = true }

-- `findOption`: the place of the option, and the option.
find_from : ℕ → List CommandOption → Text → Option (ℕ × CommandOption)
find_from i [] name = none
find_from i (o ∷ os) name =
    if contains (option_names o) name then some (i, o) else find_from (i + 1) os name

unfoldable pub find_option : Parser → Text → Option (ℕ × CommandOption)
unfolding find_from
find_option p name = find_from 0 (info p.inv.cmd).options name

-- `prs.options[opt]`, and the entry that `appendOptVal` leaves there.
unfoldable pub lookup_opt : ℕ → List (ℕ × OptVal) → Option OptVal
lookup_opt i [] = none
lookup_opt i ((j, v) ∷ m) = if j == i then some v else lookup_opt i m

unfoldable pub insert_opt : ℕ → OptVal → List (ℕ × OptVal) → List (ℕ × OptVal)
insert_opt i v [] = (i, v) ∷ []
insert_opt i v ((j, w) ∷ m) = if j == i then (i, v) ∷ m else (j, w) ∷ insert_opt i v m

-- The loops over `opt.Conflicts` and `opt.Requires`: the first option that names another stays.
unfoldable pub add_all : Text → List Text → List (Text × Text) → List (Text × Text)
add_all name [] m = m
add_all name (k ∷ ks) m =
    add_all name ks (elim (lookup k m) [ some v ↦ m | none ↦ insert k name m ])

-- `err := opt.Validate(value)`: a nil callback is called, which panics.
call_validate : Option Validator → Text → Text → Outcome (Unit {0})
call_validate none name value = panic
call_validate (some f) name value = elim (f value) [
  | none ↦ ok tt
  | some e ↦ err (invalid_option_value e name value)
]

-- The option's entry with the value added.
push_value : Option OptVal → CommandOption → Text → Text → Outcome OptVal
push_value none opt name value = ok (record { opt = opt; name = name; values = value ∷ [] })
push_value (some v) opt name value =
    if opt.singleton
    then err (option_repeated opt.name)
    else ok (record v { values = v.values ++ value ∷ [] })

-- `if opt.Immediate != nil && prs.inv.immediate == nil`
abbrev pub first_some {ℓ} : {A : Type ℓ} → Option A → Option A → Option A
first_some (some a) b = some a
first_some none b = b

check_conflict : Option Text → Text → Outcome (Unit {0})
check_conflict none name = ok tt
check_conflict (some c) name = err (option_conflicts name c)

unfoldable pub append_opt_val : Parser → ℕ → CommandOption → Text → Text → Bool → Outcome Parser
unfolding call_validate push_value check_conflict
append_opt_val p i opt name value novalue = do
  (if novalue && with_value opt then err (requires_operand name) else ok tt)
  (if novalue then ok tt else call_validate opt.validate name value)
  check_conflict (lookup name p.opt_conflicts) name
  v ← push_value (lookup_opt i p.options) opt name value
  ok (record p {
    inv = record (p.inv) { immediate = first_some p.inv.immediate opt.immediate };
    options = insert_opt i v p.options;
    opt_conflicts = add_all name opt.conflicts p.opt_conflicts;
    opt_required = add_all name opt.requires p.opt_required;
  })

-- `handleShortOption`, its loop over combined options.
unfoldable pub handle_flags : Parser → List ℕ → Outcome Parser
handle_flags p [] = ok p
handle_flags p (c ∷ cs) =
    let name = b'-' ∷ encode_rune c in
    elim (find_option p name) [
      | none ↦ err (unknown_option name)
      | some (i, opt) ↦ append_opt_val p i opt name [] true >>= λ q. handle_flags q cs
    ]

-- The value of an option: its own, or the next argument where it wants one and has none.
abbrev take_value : Parser → CommandOption → Split → Text × Bool × Parser
take_value p opt s = if s.novalue && with_value opt then next_value p else (s.val, s.novalue, p)

abbrev pub append_taken : Parser → ℕ → CommandOption → Split → Outcome Parser
append_taken p i opt s =
    let (val, novalue, q) = take_value p opt s in append_opt_val q i opt s.name val novalue

pub handle_found_short : Parser → ℕ → CommandOption → Split → Outcome Parser
unfolding handle_flags
handle_found_short p i opt s =
    if s.novalue || with_value opt
    then append_taken p i opt s
    else handle_flags p (runes (drop 1 s.name ++ s.val))

unfoldable pub handle_short_option : Parser → Text → Outcome Parser
unfolding handle_found_short
handle_short_option p arg =
    let s = split_opt_val arg in
    elim (find_option p s.name) [
      | none ↦ err (unknown_option s.name)
      | some (i, opt) ↦ handle_found_short p i opt s
    ]

unfoldable pub handle_long_option : Parser → Text → Outcome Parser
handle_long_option p arg =
    let s = split_opt_val arg in
    elim (find_option p s.name) [
      | none ↦ err (unknown_option s.name)
      | some (i, opt) ↦ append_taken p i opt s
    ]
