-- ===== src/Argv/Invocation.antt =====
-- argv/invocation.go: what parsing a command line produces, and its accessors.
-- The `parent` and `root` pointers are the list of the invocations above, nearest first, that a
-- `Frame` keeps beside the invocation.
use mfp.Go.Maps.{lookup}
use mfp.Go.Text.{Text}
use mfp.Argv.Model.{is_some, Handler, Command}
use mfp.Base.{◌∷◌, length, get_elem?, Bool, ℕ, Option, List, some, true, false, none, []}

pub record Invocation : Type 0 where
  pub cmd : Command
  pub argv : List Text
  pub by_name : List (Text × List Text)
  pub parameters : List Text
  pub subcmd : Option Command
  pub subargv : List Text
  pub immediate : Option Handler

pub record Frame : Type 0 where
  pub inv : Invocation
  pub ancestors : List Invocation

-- `Parent` and `Root`
unfoldable pub parent : Frame → Option Frame
parent f = elim f.ancestors [ [] ↦ none | i ∷ is ↦ some (record { inv = i; ancestors = is }) ]

abbrev last_or : Invocation → List Invocation → Invocation
last_or i [] = i
last_or i (j ∷ js) = last_or j js

unfoldable pub root : Frame → Invocation
root f = last_or f.inv f.ancestors

-- The statements of `parse` that set `parent` and `root`.
unfoldable pub with_parent : Option Frame → Invocation → Frame
with_parent none i = record { inv = i; ancestors = [] }
with_parent (some p) i = record { inv = i; ancestors = p.inv ∷ p.ancestors }

abbrev pub first_or_empty : List Text → Text
first_or_empty [] = []
first_or_empty (v ∷ vs) = v

-- `Get`: the first value, and whether the name is there.
unfoldable pub get : Invocation → Text → Text × Bool
get i name = elim (lookup name i.by_name) [
  | none ↦ ([], false)
  | some vals ↦ (first_or_empty vals, true)
]

-- `Values`, where nil is the empty list.
unfoldable pub values : Invocation → Text → List Text
values i name = elim (lookup name i.by_name) [ none ↦ [] | some vals ↦ vals ]

unfoldable pub param_count : Invocation → ℕ
param_count i = length i.parameters

-- `ParamGet`
unfoldable pub param_get : Invocation → ℕ → Text
param_get i n = elim (get_elem? i.parameters n) [ none ↦ [] | some p ↦ p ]

-- `IsImmediate` and `SubCommand`, which gives nil and no arguments where there is none.
abbrev pub is_immediate : Invocation → Bool
is_immediate inv = is_some inv.immediate

abbrev pub sub_command : Invocation → Option Command × List Text
sub_command inv = (inv.subcmd, inv.subargv)
