-- ===== src/Abstract/Request.antt =====
-- abstract/scanrequest.go: requests for a scan, and ScannerRequest.Validate.

pub mod Outcome
pub mod Served
pub mod Chosen
pub mod Settled
pub mod Tests
use mfp.Go.Text.{codes, Text}
use mfp.Abstract.Capabilities.{
  allows_resolution, color_mode_color, resolution_valid, region_valid, color_mode_mono,
  allows_ccd_channel, color_mode_binary, and_then, within, unset, resolution_is_zero,
  region_is_zero, fits_capabilities, allows_color_mode, Resolution, Range, InputCapabilities,
  SettingsProfile, ScannerCapabilities, Region,
}
use mfp.Abstract.Bitset.{set_contains, set_union, Bitset}
use Prim.Native.String.{String}
use mfp.Go.Int.{int_le, int_lt, int_eq, ℤ, pos}
use mfp.Base.{
  ◌&&◌, ◌||◌, ◌++◌, not, ℕ, if◌then◌else◌, Bool, Result, Option, List, true, err, none, ok, ◌∷◌,
  false, some, [], ◌>>=◌, ◌>>◌,
}

pub record ScannerRequest : Type 0 where
  pub input : ℤ
  pub adf_mode : ℤ
  pub color_mode : ℤ
  pub color_depth : ℤ
  pub binary_rendering : ℤ
  pub ccd_channel : ℤ
  pub document_format : Text
  pub region : Region
  pub resolution : Resolution
  pub intent : ℤ
  pub brightness : Option ℤ
  pub contrast : Option ℤ
  pub gamma : Option ℤ
  pub highlight : Option ℤ
  pub noise_removal : Option ℤ
  pub shadow : Option ℤ
  pub sharpen : Option ℤ
  pub threshold : Option ℤ
  pub compression : Option ℤ

-- ErrParam, without the value.
pub data Error : Type 0 where
  unsupported_param : Text → Error
  invalid_param : Text → Error

abbrev pub Inputs : Type 0
Inputs = List InputCapabilities

abbrev pub as_list : Option InputCapabilities → Inputs
as_list none = []
as_list (some inp) = inp ∷ []

abbrev pub unsupported : {A : Type 0} → String → Result Error A
unsupported name = err (unsupported_param (codes name))

abbrev pub invalid : {A : Type 0} → String → Result Error A
invalid name = err (invalid_param (codes name))

-- The capability, or an error where there is none.
abbrev pub or_unsupported : String → Option InputCapabilities → Result Error Inputs
or_unsupported name none = unsupported name
or_unsupported name (some inp) = ok (inp ∷ [])

abbrev pub some_input : Inputs → Result Error Inputs
some_input [] = unsupported "Input"
some_input (inp ∷ inps) = ok (inp ∷ inps)

unfoldable pub choose_adf : ScannerRequest → ScannerCapabilities → Result Error Inputs
choose_adf req caps = elim caps.adf_simplex [
  | none ↦ elim caps.adf_duplex [
    | none ↦ unsupported "Input"
    | some duplex ↦
        if int_eq req.adf_mode (pos 0)
        then ok (duplex ∷ [])
        else if int_eq req.adf_mode (pos 1)
        then unsupported "ADFMode"
        else if int_eq req.adf_mode (pos 2)
        then ok (duplex ∷ [])
        else invalid "ADFMode"
  ]
  | some simplex ↦
      if int_eq req.adf_mode (pos 0) || int_eq req.adf_mode (pos 1)
      then ok (simplex ∷ [])
      else if int_eq req.adf_mode (pos 2)
      then or_unsupported "ADFMode" caps.adf_duplex
      else invalid "ADFMode"
]

-- InputUnset, InputPlaten and InputADF are 0, 1 and 2.
unfoldable pub choose_inputs : ScannerRequest → ScannerCapabilities → Result Error Inputs
choose_inputs req caps =
    if int_eq req.input (pos 0)
    then some_input (as_list caps.platen ++ (as_list caps.adf_simplex ++ as_list caps.adf_duplex))
    else if int_eq req.input (pos 1)
    then or_unsupported "Input" caps.platen
    else if int_eq req.input (pos 2)
    then choose_adf req caps
    else invalid "Input"

pub record Gathered : Type 0 where
  pub intents : Bitset
  pub color_modes : Bitset
  pub depths : Bitset
  pub binrend : Bitset
  pub ccd_channels : Bitset

unfoldable pub gather_profiles : Gathered → List SettingsProfile → Gathered
gather_profiles g [] = g
gather_profiles g (prof ∷ profs) =
    gather_profiles
      (record g {
        color_modes = set_union g.color_modes prof.color_modes;
        depths = set_union g.depths prof.depths;
        binrend = set_union g.binrend prof.binary_renderings;
        ccd_channels = set_union g.ccd_channels prof.ccd_channels;
      })
      profs

unfoldable pub gather : Gathered → Inputs → Gathered
gather g [] = g
gather g (inp ∷ inps) =
    gather (gather_profiles (record g { intents = set_union g.intents inp.intents }) inp.profiles)
      inps

abbrev pub nothing_gathered : Gathered
nothing_gathered = record {
  intents = 0;
  color_modes = 0;
  depths = 0;
  binrend = 0;
  ccd_channels = 0;
}

-- The check of one enumeration: unset, out of its range, or not in the set.
unfoldable pub check_member : String → Bitset → ℕ → ℤ → Result Error (Unit {0})
check_member name set limit v =
    if int_eq v unset
    then ok tt
    else if int_lt v (pos 0) || int_le (pos limit) v
    then invalid name
    else set_contains set v >>= λ found. if found then ok tt else unsupported name

abbrev pub is_among : ℤ → ℤ → ℤ → ℤ → Bool
is_among v a b c = int_eq v a || int_eq v b || int_eq v c

-- Range.validate
unfoldable pub check_range : String → Range → Option ℤ → Result Error (Unit {0})
check_range name r none = ok tt
check_range name r (some v) = if within r v then ok tt else unsupported name

unfoldable pub check_modes :
    ScannerRequest → ScannerCapabilities → Gathered → Result Error (Unit {0})
check_modes req caps g = do
  check_member "ColorMode" g.color_modes 4 req.color_mode
  if is_among req.color_mode unset color_mode_binary color_mode_binary
      then check_member "BinaryRendering" g.binrend 3 req.binary_rendering
        >> check_range "Threshold" caps.threshold_range req.threshold
      else ok tt
  if is_among req.color_mode unset color_mode_mono color_mode_color
      then check_member "ColorDepth" g.depths 3 req.color_depth
      else ok tt
  if is_among req.color_mode unset color_mode_binary color_mode_mono
      then check_member "CCDChannel" g.ccd_channels 7 req.ccd_channel
      else ok tt
  check_member "Intent" g.intents 7 req.intent

unfoldable pub fits_some : Region → Inputs → Bool
fits_some g [] = false
fits_some g (inp ∷ inps) = fits_capabilities g inp || fits_some g inps

unfoldable pub check_region : ScannerRequest → Inputs → Result Error (Unit {0})
check_region req inputs =
    if region_is_zero req.region
    then ok tt
    else if not (region_valid req.region)
    then invalid "Region"
    else if fits_some req.region inputs
    then ok tt
    else unsupported "Region"

-- The test of one profile, and the loops that stop at the first that passes.
unfoldable pub profile_serves : ScannerRequest → SettingsProfile → Result Error Bool
profile_serves req prof = do
  mode ← allows_color_mode prof req.color_mode req.color_depth req.binary_rendering
  ccd ← and_then mode (allows_ccd_channel prof req.ccd_channel)
  ok (ccd && allows_resolution prof req.resolution)

unfoldable pub some_profile_serves : ScannerRequest → List SettingsProfile → Result Error Bool
some_profile_serves req [] = ok false
some_profile_serves req (prof ∷ profs) =
    let rest = some_profile_serves req profs in
    profile_serves req prof >>= λ found. if found then ok true else rest

unfoldable pub some_input_serves : ScannerRequest → Inputs → Result Error Bool
some_input_serves req [] = ok false
some_input_serves req (inp ∷ inps) =
    let rest = some_input_serves req inps in
    some_profile_serves req inp.profiles >>= λ found. if found then ok true else rest

unfoldable pub check_resolution : ScannerRequest → Inputs → Result Error (Unit {0})
check_resolution req inputs =
    if resolution_is_zero req.resolution
    then ok tt
    else if not (resolution_valid req.resolution)
    then invalid "Resolution"
    else some_input_serves req inputs >>= λ found. if found then ok tt else unsupported "Resolution"

unfoldable pub check_processing : ScannerRequest → ScannerCapabilities → Result Error (Unit {0})
check_processing req caps = do
  check_range "Brightness" caps.brightness_range req.brightness
  check_range "Contrast" caps.contrast_range req.contrast
  check_range "Gamma" caps.gamma_range req.gamma
  check_range "Highlight" caps.highlight_range req.highlight
  check_range "NoiseRemoval" caps.noise_removal_range req.noise_removal
  check_range "Shadow" caps.shadow_range req.shadow
  check_range "Sharpen" caps.sharpen_range req.sharpen
  check_range "Compression" caps.compression_range req.compression

unfoldable pub validate : ScannerRequest → ScannerCapabilities → Result Error (Unit {0})
validate req caps = choose_inputs req caps >>= λ inputs.
    check_modes req caps (gather nothing_gathered inputs)
    >> (check_region req inputs >> (check_resolution req inputs >> check_processing req caps))
