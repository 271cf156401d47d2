-- ===== src/Abstract/Request/Outcome.antt =====
-- Which requests Validate comes back from.

use mfp.Abstract.Request.Settled.{
  check_modes-InRange, allows_ccd_channel-Done, and_then-Done, Done-if, choose_inputs-Done,
  check_range-Done, allows_color_mode-Done, found-Done, Done, ModesInRange,
}
use mfp.Abstract.Request.{
  invalid, nothing_gathered, gather, unsupported, check_modes, choose_inputs, check_range,
  some_profile_serves, some_input_serves, Inputs, Error, validate, profile_serves, check_resolution,
  check_region, check_processing, ScannerRequest,
}
use mfp.Abstract.Capabilities.{
  color_mode_color, resolution_valid, and_then, resolution_is_zero, allows_color_mode,
  SettingsProfile, ScannerCapabilities, allows_ccd_channel,
}
use mfp.Go.Int.{int_eq, int_lt, ◌≤ℤ◌, pos}
use mfp.Base.{
  ◌⊎◌, Bool, inr, inl, not, if◌then◌else◌, Settles_cases, ◌≢◌, ◌≡◌, ◌>>◌, ◌>>=◌, arith,
  Settles-bind, List, Result, refl, [], panic, false, ◌∷◌, stuck, true, ok,
}

-- The resolution's tests, where the CCD channel may be asked for.
module _ (req : ScannerRequest) (modes : ModesInRange req) (ccd : pos 0 ≤ℤ req.ccd_channel) where
  profile_serves-Done : (prof : SettingsProfile) → Done (profile_serves req prof)
  unfolding profile_serves
  profile_serves-Done prof =
      Settles-bind (allows_color_mode prof req.color_mode req.color_depth req.binary_rendering) _
        (λ _. Unit {0}) (λ _. Unit {0}) (allows_color_mode-Done req prof modes)
        (λ mode _ _.
          Settles-bind (and_then mode (allows_ccd_channel prof req.ccd_channel)) _ (λ _. Unit {0})
            (λ _. Unit {0})
            (and_then-Done mode (allows_ccd_channel prof req.ccd_channel)
              (allows_ccd_channel-Done prof req.ccd_channel ccd))
            (λ _ _ _. tt))

  some_profile_serves-Done : (profs : List SettingsProfile) → Done (some_profile_serves req profs)
  unfolding some_profile_serves
  some_profile_serves-Done [] = tt
  some_profile_serves-Done (prof ∷ profs) =
      found-Done (profile_serves req prof) (ok true) (some_profile_serves req profs)
        (profile_serves-Done prof) tt (some_profile_serves-Done profs)

  some_input_serves-Done : (inputs : Inputs) → Done (some_input_serves req inputs)
  unfolding some_input_serves
  some_input_serves-Done [] = tt
  some_input_serves-Done (inp ∷ inps) =
      found-Done (some_profile_serves req inp.profiles) (ok true) (some_input_serves req inps)
        (some_profile_serves-Done inp.profiles) tt (some_input_serves-Done inps)

  check_resolution-Done : (inputs : Inputs) → Done (check_resolution req inputs)
  unfolding check_resolution
  check_resolution-Done inputs =
      let serves = some_input_serves req inputs >>= λ found.
      if found then ok tt else unsupported "Resolution" in
      Done-if (resolution_is_zero req.resolution) (ok tt)
        (if not (resolution_valid req.resolution) then invalid "Resolution" else serves) tt
        (Done-if (not (resolution_valid req.resolution)) (invalid "Resolution") serves tt (
          found-Done (some_input_serves req inputs) (ok tt) (unsupported "Resolution")
            (some_input_serves-Done inputs) tt tt))

check_region-Done : (req : ScannerRequest) (inputs : Inputs) → Done (check_region req inputs)
unfolding check_region
check_region-Done req inputs = ground arith

seq-Done : (m n : Result Error (Unit {0})) → Done m → Done n → Done (m >> n)
seq-Done m n h k = Settles-bind m (λ _. n) (λ _. Unit {0}) (λ _. Unit {0}) h (λ _ _ _. k)

check_processing-Done :
    (req : ScannerRequest) (caps : ScannerCapabilities) → Done (check_processing req caps)
unfolding check_processing
check_processing-Done req caps =
    seq-Done (check_range "Brightness" caps.brightness_range req.brightness) _
      (check_range-Done _ _ _)
      (seq-Done (check_range "Contrast" caps.contrast_range req.contrast) _ (check_range-Done _ _ _)
        (seq-Done (check_range "Gamma" caps.gamma_range req.gamma) _ (check_range-Done _ _ _) (
          seq-Done (check_range "Highlight" caps.highlight_range req.highlight) _
            (check_range-Done _ _ _)
            (seq-Done (check_range "NoiseRemoval" caps.noise_removal_range req.noise_removal) _
              (check_range-Done _ _ _)
              (seq-Done (check_range "Shadow" caps.shadow_range req.shadow) _
                (check_range-Done _ _ _)
                (seq-Done (check_range "Sharpen" caps.sharpen_range req.sharpen) _
                  (check_range-Done _ _ _)
                  (check_range-Done "Compression" caps.compression_range req.compression)))))))

-- The check of the resolution decides whether validation comes back.
validate-Done :
    (req : ScannerRequest) (caps : ScannerCapabilities)
    → (ModesInRange req → (inputs : Inputs) → Done (check_resolution req inputs))
    → (validate req caps ≢ panic) × (validate req caps ≢ stuck)
unfolding validate
validate-Done req caps resolved =
    let done : Unit {0} → Type 0 = λ _. Unit {0} in
    Settles_cases (validate req caps) done (
      Settles-bind (choose_inputs req caps) _ (λ _. Unit {0}) done (choose_inputs-Done req caps)
        (λ inputs _ _.
          Settles-bind (check_modes req caps (gather nothing_gathered inputs)) _
            (λ _. ModesInRange req) done
            (check_modes-InRange req caps (gather nothing_gathered inputs))
            (λ _ _ modes. seq-Done (check_region req inputs) _ (check_region-Done req inputs) (
              seq-Done (check_resolution req inputs) _ (resolved modes inputs)
                (check_processing-Done req caps)))))

-- If the CCD channel of a request is not negative, its validation does not panic: it accepts the request or
-- returns an error, whatever the other parameters of the request and the scanner's capabilities are.
pub validate-Settles :
    (req : ScannerRequest) (caps : ScannerCapabilities)
    → pos 0 ≤ℤ req.ccd_channel
    → (validate req caps ≢ panic) × (validate req caps ≢ stuck)
validate-Settles req caps ccd =
    validate-Done req caps (λ modes. check_resolution-Done req modes ccd)

-- In all color modes but one the CCD channel is checked before the profiles are asked.
other_mode-Done :
    (req : ScannerRequest) (inputs : Inputs)
    → int_eq req.color_mode color_mode_color ≡ false
    → ModesInRange req
    → Done (check_resolution req inputs)
other_mode-Done req inputs c (mode, (rendering, (depth, channel))) =
    check_resolution-Done req (mode, (rendering, (depth, channel))) ((channel (ground arith)).0)
      inputs

-- A resolution that is not given, or is not valid.
no_resolution-Done :
    (req : ScannerRequest) (inputs : Inputs)
    → (resolution_is_zero req.resolution ≡ true) ⊎ (resolution_valid req.resolution ≡ false)
    → Done (check_resolution req inputs)
unfolding check_resolution
no_resolution-Done req inputs (inl z) = rw z tt
no_resolution-Done req inputs (inr v) =
    rw v (Done-if (resolution_is_zero req.resolution) (ok tt) (invalid "Resolution") tt tt)

-- What is true unless it would lead to a contradiction.
must_be : (b : Bool) → (b ≡ false → ⊥) → b ≡ true
must_be true h = refl
must_be false h = absurd (h refl)

-- Validation panics only for a request in color, whose CCD channel is negative and which gives a
-- valid resolution.
pub validate-panic_only :
    (req : ScannerRequest) (caps : ScannerCapabilities)
    → validate req caps ≡ panic
    → (int_eq req.color_mode color_mode_color ≡ true)
      × (int_lt req.ccd_channel (pos 0) ≡ true)
      × (resolution_is_zero req.resolution ≡ false)
      × (resolution_valid req.resolution ≡ true)
validate-panic_only req caps p =
    let given : not (resolution_is_zero req.resolution) ≡ true =
      must_be (not (resolution_is_zero req.resolution)) (λ z.
        (validate-Done req caps (λ _ inputs. no_resolution-Done req inputs (inl (ground arith)))).0
          p) in
    (
      must_be (int_eq req.color_mode color_mode_color)
          (λ c. (validate-Done req caps (λ modes inputs. other_mode-Done req inputs c modes)).0 p),
      must_be (int_lt req.ccd_channel (pos 0))
          (λ n. (validate-Settles req caps (ground arith)).0 p),
      ground arith,
      must_be (resolution_valid req.resolution)
          (λ v. (validate-Done req caps (λ _ inputs. no_resolution-Done req inputs (inr v))).0 p),
    )
