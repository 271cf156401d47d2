-- ===== src/Argv/Verify/Names.antt =====
-- `verifyOptions` of argv/command.go: the names of the options.
use mfp.Go.Maps.{contains, Distinct}
use mfp.Go.Text.{text_eq, text_eq_refl, text_eq_iff, Text}
use mfp.Argv.Verify.{
  verify_parameters, wrap, verify_option, verify_options, verify, add_names, Unicode,
}
use mfp.Argv.Model.{
  has_sub_commands, has_parameters, in_command, option_names, info, Error, CommandOption, Command,
  command, duplicated_option,
}
use mfp.Base.{
  ◌>>◌, ◌&&◌, Result, err, stuck, panic, bind-eq-ok, arith, ◌≡◌, ◌∷◌, ◌++◌, List, false, true, refl,
  ok, [],
}

abbrev pub all_names : List CommandOption → List Text
all_names [] = []
all_names (o ∷ os) = option_names o ++ all_names os

-- Each name is in none of the lists before it.
abbrev Fresh : List Text → List Text → Type 0
Fresh seen [] = Unit {0}
Fresh seen (n ∷ ns) = (contains seen n ≡ false) × Fresh (n ∷ seen) ns

abbrev onto : List Text → List Text → List Text
onto [] seen = seen
onto (n ∷ ns) seen = onto ns (n ∷ seen)

add_names-ok :
    (dup : Text → Error) (ns seen seen' : List Text)
    → add_names dup seen ns ≡ ok seen'
    → Fresh seen ns × (seen' ≡ onto ns seen)
unfolding add_names
add_names-ok dup [] seen seen' h = (tt, ground arith)
add_names-ok dup (n ∷ ns) seen seen' h = ground (arith, add_names-ok dup ns (n ∷ seen) seen')

Fresh-append :
    (ns ms seen : List Text) → Fresh seen ns → Fresh (onto ns seen) ms → Fresh seen (ns ++ ms)
Fresh-append [] ms seen h k = k
Fresh-append (n ∷ ns) ms seen h k = (h.0, Fresh-append ns ms (n ∷ seen) h.1 k)

verify_options-Fresh :
    (u : Unicode) (os : List CommandOption) (seen : List Text)
    → verify_options u seen os ≡ ok tt
    → Fresh seen (all_names os)
unfolding verify_options
verify_options-Fresh u [] seen h = tt
verify_options-Fresh u (o ∷ os) seen h =
    let (x, _, h1) = bind-eq-ok (verify_option u o) _ h in
    let (seen', e, h2) = bind-eq-ok (add_names duplicated_option seen (option_names o)) _ h1 in
    let (fresh, same) = add_names-ok duplicated_option (option_names o) seen seen' e in
    Fresh-append (option_names o) (all_names os) seen fresh
      (verify_options-Fresh u os (onto (option_names o) seen) (rw same at h2))

-- A fresh name is no key that was seen.
Fresh-unseen :
    (ns seen : List Text) (k : Text)
    → Fresh seen ns
    → contains seen k ≡ true
    → contains ns k ≡ false
Fresh-unseen [] seen k h c = refl
Fresh-unseen (n ∷ ns) seen k h c = ground (arith, text_eq_iff n k, Fresh-unseen ns (n ∷ seen) k h.1)

Fresh-Distinct : (ns seen : List Text) → Fresh seen ns → Distinct ns
Fresh-Distinct [] seen h = tt
Fresh-Distinct (n ∷ ns) seen h = (
  Fresh-unseen ns (n ∷ seen) n h.1 (ground (arith, text_eq_refl n)),
  Fresh-Distinct ns (n ∷ seen) h.1,
)

pub wrap-ok : (f : Error → Error) (m : Result Error (Unit {0})) → wrap f m ≡ ok tt → m ≡ ok tt
wrap-ok f (ok x) h = h
wrap-ok f (err e) h = cc
wrap-ok f panic h = h
wrap-ok f stuck h = h

-- What `Verify` has checked of a command that it accepts.
pub verify-parts :
    (u : Unicode) (c : Command)
    → verify u c ≡ ok tt
    → (text_eq (info c).name [] ≡ false)
      × ((has_parameters c && has_sub_commands c) ≡ false)
      × (verify_options u [] (info c).options ≡ ok tt)
      × (verify_parameters u (info c).parameters ≡ ok tt)
unfolding verify
verify-parts u (command i subs) h =
    let options = verify_options u [] i.options in
    let both = options >> verify_parameters u i.parameters in
    ground (
      arith,
      wrap-ok (in_command i.name) both,
      bind-eq-ok options (λ _. verify_parameters u i.parameters),
    )

-- In a command that `Verify` accepts the names and aliases of all options are pairwise different.
pub verify-Distinct :
    (u : Unicode) (c : Command) → verify u c ≡ ok tt → Distinct (all_names (info c).options)
verify-Distinct u c h =
    Fresh-Distinct _ [] (verify_options-Fresh u (info c).options [] (verify-parts u c h).2)
