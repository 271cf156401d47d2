-- ===== src/Argv/Parse/SubCommands.antt =====
-- `FindSubCommand` of argv/command.go: exact names and abbreviations.
use mathlib.Core.Path.{subst}
use mfp.Go.Maps.{Distinct-drop, Distinct-apart, contains-append, Distinct, contains}
use mfp.Go.Text.{text_eq, has_prefix_refl, text_eq_iff, has_prefix, Text}
use mfp.Argv.Parse.{
  continue_with, one_candidate, find_sub_command_candidates, candidates_names, candidates,
  find_sub_command,
}
use mfp.Argv.Model.{sub_commands, command_names, Command}
use mfp.Base.{
  All-append, ap, Bool-cases, sym, All, ◌∙◌, ◌||◌, ◌⊎◌, ◌++◌, arith, ◌≡◌, if◌then◌else◌, Bool, List,
  inl, false, refl, inr, true, [], ok, ◌∷◌,
}

abbrev pub Occurs : Command → List Command → Type 0
Occurs d [] = ⊥
Occurs d (c ∷ cs) = (c ≡ d) ⊎ Occurs d cs

abbrev pub all_command_names : List Command → List Text
all_command_names [] = []
all_command_names (c ∷ cs) = command_names c ++ all_command_names cs

-- A name of the command begins so.
abbrev pub begins : List Text → Text → Bool
begins [] name = false
begins (n ∷ ns) name = has_prefix n name || begins ns name

exact :
    (name : Text) (c : Command) (ns : List Text) (inexact : List Command)
    → contains ns name ≡ true
    → candidates_names name c ns inexact ≡ inl (c ∷ [])
unfolding candidates_names
exact name c [] inexact h = cc
exact name c (n ∷ ns) inexact h =
    ground (arith, exact name c ns (if has_prefix n name then inexact ++ c ∷ [] else inexact))

-- Without an exact name the command joins the inexact matches, or not.
inexact_of : Text → Command → List Text → List Command → List Command
inexact_of name c [] inexact = inexact
inexact_of name c (n ∷ ns) inexact =
    inexact_of name c ns (if has_prefix n name then inexact ++ c ∷ [] else inexact)

not_exact :
    (name : Text) (c : Command) (ns : List Text) (inexact : List Command)
    → contains ns name ≡ false
    → candidates_names name c ns inexact ≡ inr (inexact_of name c ns inexact)
unfolding candidates_names inexact_of
not_exact name c [] inexact h = refl
not_exact name c (n ∷ ns) inexact h =
    ground (arith, not_exact name c ns (if has_prefix n name then inexact ++ c ∷ [] else inexact))

Occurs-contains :
    (d : Command) (cs : List Command) (name : Text)
    → Occurs d cs
    → contains (command_names d) name ≡ true
    → contains (all_command_names cs) name ≡ true
Occurs-contains d [] name o h = absurd o
Occurs-contains d (c ∷ cs) name (inl e) h =
    contains-append (command_names c) (all_command_names cs) name ∙ rw e (ground arith)
Occurs-contains d (c ∷ cs) name (inr o) h =
    contains-append (command_names c) (all_command_names cs) name
    ∙ rw (Occurs-contains d cs name o h) (ground arith)

candidates_exact :
    (d : Command) (cs : List Command) (name : Text) (inexact : List Command)
    → Distinct (all_command_names cs)
    → Occurs d cs
    → contains (command_names d) name ≡ true
    → candidates name cs inexact ≡ d ∷ []
unfolding candidates
candidates_exact d [] name inexact u o h = absurd o
candidates_exact d (c ∷ cs) name inexact u (inl e) h =
    let here = subst (λ x. contains (command_names x) name ≡ true) (sym e) h in
    ap (continue_with (candidates name cs)) (exact name c (command_names c) inexact here)
    ∙ ap (λ x. x ∷ []) e
candidates_exact d (c ∷ cs) name inexact u (inr o) h =
    elim (Bool-cases (contains (command_names c) name)) [
      | inl here ↦ cc (
        Distinct-apart (command_names c) (all_command_names cs) name u here,
        Occurs-contains d cs name o h,
      )
      | inr away ↦
          ap (continue_with (candidates name cs)) (not_exact name c (command_names c) inexact away)
          ∙ candidates_exact d cs name (inexact_of name c (command_names c) inexact)
              (Distinct-drop (command_names c) (all_command_names cs) u) o h
    ]

-- Where all names of the sub-commands differ, an exact name or alias finds its command, also if it
-- is an abbreviation of other names.
pub find_exact :
    (c d : Command) (name : Text)
    → Distinct (all_command_names (sub_commands c))
    → Occurs d (sub_commands c)
    → contains (command_names d) name ≡ true
    → find_sub_command c name ≡ ok d
unfolding find_sub_command find_sub_command_candidates
find_exact c d name u o h = rw (candidates_exact d (sub_commands c) name [] u o h)

contains-begins : (ns : List Text) (name : Text) → contains ns name ≡ true → begins ns name ≡ true
contains-begins [] name h = h
contains-begins (n ∷ ns) name h =
    ground (arith, text_eq_iff n name, has_prefix_refl name, contains-begins ns name)

-- What is claimed of a found command, against the list of all.
abbrev Fits : List Command → Text → Command → Type 0
Fits all name s = Occurs s all × (begins (command_names s) name ≡ true)

abbrev EitherFits : List Command → Text → List Command ⊎ List Command → Type 0
EitherFits all name (inl exact) = All (Fits all name) exact
EitherFits all name (inr inexact) = All (Fits all name) inexact

names-Fits :
    (all : List Command) (name : Text) (c : Command) (ns : List Text) (inexact : List Command)
    → Occurs c all
    → (begins ns name ≡ true → begins (command_names c) name ≡ true)
    → All (Fits all name) inexact
    → EitherFits all name (candidates_names name c ns inexact)
unfolding candidates_names
names-Fits all name c [] inexact o b h = h
names-Fits all name c (n ∷ ns) inexact o b h = elim (Bool-cases (text_eq n name)) [
  | inl e ↦ rw e ((o, b (contains-begins (n ∷ ns) name (rw e))), tt)
  | inr e ↦ elim (Bool-cases (has_prefix n name)) [
    | inl p ↦
        rw (e, p)
          (names-Fits all name c ns (inexact ++ c ∷ []) o (λ k. b (ground arith))
            (All-append (Fits all name) inexact (c ∷ []) h ((o, b (ground arith)), tt)))
    | inr p ↦ rw (e, p) (names-Fits all name c ns inexact o (λ k. b (ground arith)) h)
  ]
]

continue-Fits :
    (all : List Command) (name : Text) (again : List Command → List Command)
    (r : List Command ⊎ List Command)
    → EitherFits all name r
    → ((cs : List Command) → All (Fits all name) cs → All (Fits all name) (again cs))
    → All (Fits all name) (continue_with again r)
continue-Fits all name again (inl exact) h k = h
continue-Fits all name again (inr inexact) h k = k inexact h

candidates-Fits :
    (all : List Command) (name : Text) (cs inexact : List Command)
    → All (λ c. Occurs c all) cs
    → All (Fits all name) inexact
    → All (Fits all name) (candidates name cs inexact)
unfolding candidates
candidates-Fits all name [] inexact o h = h
candidates-Fits all name (c ∷ cs) inexact o h =
    continue-Fits all name (candidates name cs) (candidates_names name c (command_names c) inexact)
      (names-Fits all name c (command_names c) inexact o.0 (λ k. k) h)
      (λ more k. candidates-Fits all name cs more o.1 k)

Occurs-weaken :
    (c : Command) (cs ds : List Command)
    → All (λ d. Occurs d cs) ds
    → All (λ d. Occurs d (c ∷ cs)) ds
Occurs-weaken c cs [] h = tt
Occurs-weaken c cs (d ∷ ds) h = (inr h.0, Occurs-weaken c cs ds h.1)

Occurs-All : (cs : List Command) → All (λ c. Occurs c cs) cs
Occurs-All [] = tt
Occurs-All (c ∷ cs) = (inl refl, Occurs-weaken c cs cs (Occurs-All cs))

only :
    (P : Command → Type 0) (name : Text) (cs : List Command) (s : Command)
    → All P cs
    → one_candidate name cs ≡ ok s
    → P s
unfolding one_candidate
only P name [] s h e = cc
only P name (c ∷ []) s h e = let x : c ≡ s = cc in rw (← x) h.0
only P name (c ∷ d ∷ cs) s h e = cc

-- The command that `FindSubCommand` returns is one of the sub-commands, and one of its names or
-- aliases begins with the name that was looked for.
pub find_sub_command-Occurs :
    (c s : Command) (name : Text)
    → find_sub_command c name ≡ ok s
    → Occurs s (sub_commands c) × (begins (command_names s) name ≡ true)
unfolding find_sub_command find_sub_command_candidates
find_sub_command-Occurs c s name e =
    let subs = sub_commands c in
    only (Fits subs name) name (candidates name subs []) s
      (candidates-Fits subs name subs [] (Occurs-All subs) tt) e
