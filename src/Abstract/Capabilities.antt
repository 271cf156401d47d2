-- ===== src/Abstract/Capabilities.antt =====
-- abstract/range.go, region.go, resolution.go, settingsprofile.go, inputcapabilities.go and
-- scannercapabilities.go.

pub mod Ranges
use mfp.Go.Text.{Text}
use mfp.Abstract.Bitset.{set_contains, Bitset}
use mfp.Go.Int.{int_sub, pos_part, int_add, divides, int_lt, int_le, int_eq, ℤ, pos}
use mfp.Base.{
  ◌>>=◌, ◌&&◌, ◌||◌, if◌then◌else◌, Result, Option, List, Bool, ◌∷◌, true, ok, false, [],
}

abbrev pub zero_int : ℤ
zero_int = pos 0

pub record Range : Type 0 where
  pub low : ℤ
  pub high : ℤ
  pub normal : ℤ
  pub step : ℤ

abbrev pub range_is_zero : Range → Bool
range_is_zero r =
    int_eq r.low zero_int
    && int_eq r.high zero_int
    && int_eq r.normal zero_int
    && int_eq r.step zero_int

unfoldable pub within : Range → ℤ → Bool
within r v =
    if range_is_zero r
    then false
    else if int_lt v r.low || int_lt r.high v
    then false
    else if int_le r.step (pos 1)
    then true
    else divides (pos_part r.step) (int_sub v r.low)

pub record Region : Type 0 where
  pub x_offset : ℤ
  pub y_offset : ℤ
  pub width : ℤ
  pub height : ℤ

abbrev pub region_is_zero : Region → Bool
region_is_zero g =
    int_eq g.x_offset zero_int
    && int_eq g.y_offset zero_int
    && int_eq g.width zero_int
    && int_eq g.height zero_int

abbrev pub region_valid : Region → Bool
region_valid g =
    region_is_zero g
    || int_le zero_int g.x_offset
      && int_le zero_int g.y_offset
      && int_lt zero_int g.width
      && int_lt zero_int g.height

pub record Resolution : Type 0 where
  pub x_resolution : ℤ
  pub y_resolution : ℤ

abbrev pub resolution_is_zero : Resolution → Bool
resolution_is_zero r = int_eq r.x_resolution zero_int && int_eq r.y_resolution zero_int

abbrev pub resolution_valid : Resolution → Bool
resolution_valid r =
    resolution_is_zero r || int_lt zero_int r.x_resolution && int_lt zero_int r.y_resolution

pub record ResolutionRange : Type 0 where
  pub x_min : ℤ
  pub x_max : ℤ
  pub x_step : ℤ
  pub x_normal : ℤ
  pub y_min : ℤ
  pub y_max : ℤ
  pub y_step : ℤ
  pub y_normal : ℤ

pub record SettingsProfile : Type 0 where
  pub color_modes : Bitset
  pub depths : Bitset
  pub binary_renderings : Bitset
  pub ccd_channels : Bitset
  pub resolutions : List Resolution
  pub resolution_range : ResolutionRange

pub record InputCapabilities : Type 0 where
  pub min_width : ℤ
  pub max_width : ℤ
  pub min_height : ℤ
  pub max_height : ℤ
  pub max_x_offset : ℤ
  pub max_y_offset : ℤ
  pub max_optical_x_resolution : ℤ
  pub max_optical_y_resolution : ℤ
  pub risky_left_margins : ℤ
  pub risky_right_margins : ℤ
  pub risky_top_margins : ℤ
  pub risky_bottom_margins : ℤ
  pub intents : Bitset
  pub profiles : List SettingsProfile

pub record ScannerCapabilities : Type 0 where
  pub uuid : Text
  pub make_and_model : Text
  pub serial_number : Text
  pub manufacturer : Text
  pub admin_uri : Text
  pub icon_uri : Text
  pub document_formats : List Text
  pub compression_range : Range
  pub adf_capacity : ℤ
  pub brightness_range : Range
  pub contrast_range : Range
  pub gamma_range : Range
  pub highlight_range : Range
  pub noise_removal_range : Range
  pub shadow_range : Range
  pub sharpen_range : Range
  pub threshold_range : Range
  pub platen : Option InputCapabilities
  pub adf_simplex : Option InputCapabilities
  pub adf_duplex : Option InputCapabilities

unfoldable pub fits_capabilities : Region → InputCapabilities → Bool
fits_capabilities g caps =
    int_le caps.min_width g.width
    && int_le g.width caps.max_width
    && int_le caps.min_height g.height
    && int_le g.height caps.max_height
    && int_le g.x_offset caps.max_x_offset
    && int_le g.y_offset caps.max_y_offset
    && int_le (int_add g.x_offset g.width) caps.max_width
    && int_le (int_add g.y_offset g.height) caps.max_height

-- `iota` constants
abbrev pub unset : ℤ
unset = pos 0

abbrev pub color_mode_binary : ℤ
color_mode_binary = pos 1

abbrev pub color_mode_mono : ℤ
color_mode_mono = pos 2

abbrev pub color_mode_color : ℤ
color_mode_color = pos 3

-- `a || b` and `a && b` where `b` may panic.
abbrev pub or_else : {E : Type 0} → Bool → Result E Bool → Result E Bool
or_else true m = ok true
or_else false m = m

abbrev pub and_then : {E : Type 0} → Bool → Result E Bool → Result E Bool
and_then true m = m
and_then false m = ok false

unfoldable pub allows_color_mode : {E : Type 0} → SettingsProfile → ℤ → ℤ → ℤ → Result E Bool
allows_color_mode prof cm d r =
    if int_eq cm unset
    then ok true
    else (set_contains prof.color_modes cm >>= λ allowed. and_then allowed (
        if int_eq cm color_mode_binary
        then or_else (int_eq r unset) (set_contains prof.binary_renderings r)
        else or_else (int_eq d unset) (set_contains prof.depths d)))

unfoldable pub allows_ccd_channel : {E : Type 0} → SettingsProfile → ℤ → Result E Bool
allows_ccd_channel prof ccd = or_else (int_eq ccd unset) (set_contains prof.ccd_channels ccd)

unfoldable pub supports : List Resolution → Resolution → Bool
supports [] res = false
supports (s ∷ rest) res =
    int_eq res.x_resolution s.x_resolution && int_eq res.y_resolution s.y_resolution
    || supports rest res

unfoldable pub allows_resolution : SettingsProfile → Resolution → Bool
allows_resolution prof res = resolution_is_zero res || supports prof.resolutions res
