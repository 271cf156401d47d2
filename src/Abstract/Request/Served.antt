-- ===== src/Abstract/Request/Served.antt =====
-- What Validate promises of a request that it accepts.

use mfp.Abstract.Request.Chosen.{choose_inputs-Asked, AllAsked, Asked}
use Prim.Native.String.{String}
use mfp.Abstract.Capabilities.{
  resolution_valid, supports, region_valid, region_is_zero, fits_capabilities, allows_ccd_channel,
  resolution_is_zero, and_then, allows_color_mode, allows_resolution, SettingsProfile,
  ScannerCapabilities, Region, InputCapabilities,
}
use mfp.Abstract.Request.{
  invalid, nothing_gathered, unsupported, gather, check_modes, choose_inputs, Inputs, Error,
  validate, some_profile_serves, some_input_serves, profile_serves, fits_some, check_resolution,
  check_region, ScannerRequest,
}
use mfp.Base.{
  Settles-ok, All, ◌&&◌, not, arith, Bool-cases, bind-eq-ok, ◌≡◌, if◌then◌else◌, ◌⊎◌, Result, List,
  Bool, false, [], inl, inr, stuck, refl, ◌∷◌, true, err, panic, ok, ◌>>=◌,
}

-- Some element has the property.
abbrev pub Some : {A : Type 0} → (A → Type 0) → List A → Type 0
Some P [] = ⊥
Some P (x ∷ xs) = P x ⊎ Some P xs

-- A profile that allows the color mode with its depth or rendering, the CCD channel and the
-- resolution.
abbrev pub Serves : ScannerRequest → SettingsProfile → Type 0
Serves req prof =
    (allows_color_mode {E = Error} prof req.color_mode req.color_depth req.binary_rendering
      ≡ ok true)
    × ((allows_ccd_channel {E = Error} prof req.ccd_channel ≡ ok true)
        × (supports prof.resolutions req.resolution ≡ true))

all_allow :
    (m c : Result Error Bool) (r : Bool)
    → (m >>= (λ mode. and_then mode c >>= (λ ccd. ok (ccd && r)))) ≡ ok true
    → (m ≡ ok true) × ((c ≡ ok true) × (r ≡ true))
all_allow (ok true) (ok true) true h = (refl, (refl, refl))
all_allow (ok true) (ok true) false h = cc
all_allow (ok true) (ok false) r h = cc
all_allow (ok true) (err e) r h = cc
all_allow (ok true) panic r h = cc
all_allow (ok true) stuck r h = cc
all_allow (ok false) c r h = cc
all_allow (err e) c r h = cc
all_allow panic c r h = cc
all_allow stuck c r h = cc

profile_serves-Serves :
    (req : ScannerRequest) (prof : SettingsProfile)
    → resolution_is_zero req.resolution ≡ false
    → profile_serves req prof ≡ ok true
    → Serves req prof
unfolding profile_serves allows_resolution
profile_serves-Serves req prof z h =
    let (mode, (ccd, res)) =
      all_allow (allows_color_mode prof req.color_mode req.color_depth req.binary_rendering)
        (allows_ccd_channel prof req.ccd_channel) (allows_resolution prof req.resolution) h in
    (mode, (ccd, ground arith))

-- A loop over the rest, behind a test that may end it.
found_or :
    (m rest : Result Error Bool)
    → (m >>= (λ found. if found then ok true else rest)) ≡ ok true
    → (m ≡ ok true) ⊎ (rest ≡ ok true)
found_or (ok true) rest h = inl refl
found_or (ok false) rest h = inr h
found_or (err e) rest h = cc
found_or panic rest h = cc
found_or stuck rest h = cc

some_profile_serves-Serves :
    (req : ScannerRequest) (profs : List SettingsProfile)
    → resolution_is_zero req.resolution ≡ false
    → some_profile_serves req profs ≡ ok true
    → Some (Serves req) profs
unfolding some_profile_serves
some_profile_serves-Serves req [] z h = cc
some_profile_serves-Serves req (prof ∷ profs) z h =
    elim (found_or (profile_serves req prof) (some_profile_serves req profs) h) [
      | inl e ↦ inl (profile_serves-Serves req prof z e)
      | inr e ↦ inr (some_profile_serves-Serves req profs z e)
    ]

abbrev pub ServesInput : ScannerRequest → InputCapabilities → Type 0
ServesInput req inp = Some (Serves req) inp.profiles

some_input_serves-Serves :
    (req : ScannerRequest) (inputs : Inputs)
    → resolution_is_zero req.resolution ≡ false
    → some_input_serves req inputs ≡ ok true
    → Some (ServesInput req) inputs
unfolding some_input_serves
some_input_serves-Serves req [] z h = cc
some_input_serves-Serves req (inp ∷ inps) z h =
    elim (found_or (some_profile_serves req inp.profiles) (some_input_serves req inps) h) [
      | inl e ↦ inl (some_profile_serves-Serves req inp.profiles z e)
      | inr e ↦ inr (some_input_serves-Serves req inps z e)
    ]

fits_some-Some :
    (g : Region) (inputs : Inputs)
    → fits_some g inputs ≡ true
    → Some (λ inp. fits_capabilities g inp ≡ true) inputs
unfolding fits_some
fits_some-Some g [] h = cc
fits_some-Some g (inp ∷ inps) h = elim (Bool-cases (fits_capabilities g inp)) [
  | inl e ↦ inl e
  | inr e ↦ inr (fits_some-Some g inps (ground arith))
]

check_region_ok :
    (req : ScannerRequest) (inputs : Inputs)
    → check_region req inputs ≡ ok tt
    → region_is_zero req.region ≡ false
    → (region_valid req.region ≡ true)
      × Some (λ inp. fits_capabilities req.region inp ≡ true) inputs
unfolding check_region
check_region_ok req inputs h z = (ground arith, fits_some-Some req.region inputs (ground arith))

found_or_unsupported :
    (m : Result Error Bool) (name : String)
    → (m >>= (λ found. if found then ok tt else unsupported name)) ≡ ok tt
    → m ≡ ok true
found_or_unsupported (ok true) name h = refl
found_or_unsupported (ok false) name h = cc
found_or_unsupported (err e) name h = cc
found_or_unsupported panic name h = cc
found_or_unsupported stuck name h = cc

past_guards :
    (a b : Bool) (name : String) (rest : Result Error (Unit {0}))
    → (if a then ok tt else if b then invalid name else rest) ≡ ok tt
    → a ≡ false
    → rest ≡ ok tt
past_guards true b name rest h z = cc
past_guards false true name rest h z = cc
past_guards false false name rest h z = h

check_resolution_ok :
    (req : ScannerRequest) (inputs : Inputs)
    → check_resolution req inputs ≡ ok tt
    → resolution_is_zero req.resolution ≡ false
    → some_input_serves req inputs ≡ ok true
unfolding check_resolution
check_resolution_ok req inputs h z =
    found_or_unsupported (some_input_serves req inputs) "Resolution" (
      past_guards (resolution_is_zero req.resolution) (not (resolution_valid req.resolution))
        "Resolution" _ h z)

-- If a request is accepted, inputs of the scanner are chosen for it, each of which it asks for or
-- leaves open: the platen, or the document feeder in simplex or in duplex mode. A region that it gives is
-- valid, and fits one of these inputs. For a resolution that it gives, one of these inputs has a profile that
-- allows the resolution together with the color mode, its depth or rendering, and the CCD channel.
pub validate-Serves :
    (req : ScannerRequest) (caps : ScannerCapabilities)
    → validate req caps ≡ ok tt
    → (inputs : Inputs) × ((choose_inputs req caps ≡ ok inputs)
        × All (Asked req caps) inputs
        × ((region_is_zero req.region ≡ false
              → (region_valid req.region ≡ true)
                × Some (λ inp. fits_capabilities req.region inp ≡ true) inputs)
            × (resolution_is_zero req.resolution ≡ false → Some (ServesInput req) inputs)))
unfolding validate
validate-Serves req caps h =
    let (inputs, chosen, h₁) = bind-eq-ok (choose_inputs req caps) _ h in
    let (u₁, modes, h₂) = bind-eq-ok (check_modes req caps (gather nothing_gathered inputs)) _ h₁ in
    let (u₂, fits, h₃) = bind-eq-ok (check_region req inputs) _ h₂ in
    let (u₃, serves, h₄) = bind-eq-ok (check_resolution req inputs) _ h₃ in
    (
      inputs,
      (
        chosen,
        Settles-ok (choose_inputs req caps) (AllAsked req caps) inputs
            (choose_inputs-Asked req caps) chosen,
        (
          (λ z. check_region_ok req inputs fits z),
          λ z. some_input_serves-Serves req inputs z (check_resolution_ok req inputs serves z),
        ),
      ),
    )
