-- ===== src/Abstract/Request/Tests.antt =====
-- Requests to a scanner with a platen, and runs of the definitions on them.

use mfp.Abstract.Request.Chosen.{Asked}
use mfp.Go.Text.{codes}
use mfp.Abstract.Bitset.{set_union, set_contains}
use mfp.Abstract.Request.Served.{validate-Serves, ServesInput, Some}
use mfp.Abstract.Capabilities.Ranges.{within_iff, Admits}
use mfp.Abstract.Request.Outcome.{validate-panic_only, validate-Settles}
use mfp.Abstract.Request.{
  check_range, check_processing, profile_serves, some_profile_serves, some_input_serves,
  check_resolution, gather_profiles, fits_some, check_member, unsupported, gather, validate,
  choose_inputs, check_region, check_modes, ScannerRequest, Inputs,
}
use mfp.Abstract.Capabilities.{
  resolution_valid, allows_ccd_channel, supports, resolution_is_zero, fits_capabilities,
  region_valid, region_is_zero, color_mode_color, within, allows_resolution, allows_color_mode,
  SettingsProfile, ScannerCapabilities, ResolutionRange, Resolution, Range, InputCapabilities,
}
use mfp.Go.Int.{int_lt, int_eq, int_sub, wrap_int, int_add, pos, negsuc}
use mfp.Base.{All, arith, ◌↔◌, ◌≢◌, ◌≡◌, refl, stuck, ◌∷◌, some, none, true, false, ok, [], panic}

abbrev no_range : Range
no_range = record { low = pos 0; high = pos 0; normal = pos 0; step = pos 0 }

-- 0 to 100 in steps of 10.
abbrev percent : Range
percent = record { low = pos 0; high = pos 100; normal = pos 50; step = pos 10 }

abbrev no_resolutions : ResolutionRange
no_resolutions = record {
  x_min = pos 0;
  x_max = pos 0;
  x_step = pos 0;
  x_normal = pos 0;
  y_min = pos 0;
  y_max = pos 0;
  y_step = pos 0;
  y_normal = pos 0;
}

abbrev dpi300 : Resolution
dpi300 = record { x_resolution = pos 300; y_resolution = pos 300 }

-- In color with 8 bits, at 300 DPI.
abbrev color8 : SettingsProfile
color8 = record {
  color_modes = 8;
  depths = 2;
  binary_renderings = 0;
  ccd_channels = 0;
  resolutions = dpi300 ∷ [];
  resolution_range = no_resolutions;
}

-- In shades of gray with 16 bits, at 300 DPI.
abbrev mono16 : SettingsProfile
mono16 = record color8 { color_modes = 4; depths = 4; ccd_channels = 2 }

-- 210 by 297 mm.
abbrev platen_caps : InputCapabilities
platen_caps = record {
  min_width = pos 0;
  max_width = pos 21000;
  min_height = pos 0;
  max_height = pos 29700;
  max_x_offset = pos 21000;
  max_y_offset = pos 29700;
  max_optical_x_resolution = pos 600;
  max_optical_y_resolution = pos 600;
  risky_left_margins = pos 0;
  risky_right_margins = pos 0;
  risky_top_margins = pos 0;
  risky_bottom_margins = pos 0;
  intents = 0;
  profiles = color8 ∷ mono16 ∷ [];
}

abbrev scanner : ScannerCapabilities
scanner = record {
  uuid = [];
  make_and_model = codes "Kyocera M2040dn";
  serial_number = [];
  manufacturer = [];
  admin_uri = [];
  icon_uri = [];
  document_formats = [];
  compression_range = no_range;
  adf_capacity = pos 0;
  brightness_range = percent;
  contrast_range = no_range;
  gamma_range = no_range;
  highlight_range = no_range;
  noise_removal_range = no_range;
  shadow_range = no_range;
  sharpen_range = no_range;
  threshold_range = no_range;
  platen = some platen_caps;
  adf_simplex = none;
  adf_duplex = none;
}

abbrev photo : ScannerRequest
photo = record {
  input = pos 1;
  adf_mode = pos 0;
  color_mode = color_mode_color;
  color_depth = pos 1;
  binary_rendering = pos 0;
  ccd_channel = pos 0;
  document_format = [];
  region = record { x_offset = pos 0; y_offset = pos 0; width = pos 10000; height = pos 15000 };
  resolution = dpi300;
  intent = pos 0;
  brightness = some (pos 70);
  contrast = none;
  gamma = none;
  highlight = none;
  noise_removal = none;
  shadow = none;
  sharpen = none;
  threshold = none;
  compression = none;
}

accepted : validate photo scanner ≡ ok tt
unfolding validate choose_inputs check_modes check_member set_contains gather gather_profiles
    set_union check_region fits_some fits_capabilities int_add int_sub wrap_int check_resolution
    some_input_serves some_profile_serves profile_serves allows_ccd_channel allows_color_mode
    allows_resolution supports within check_processing check_range
accepted = refl

uneven : validate (record photo { brightness = some (pos 75) }) scanner ≡ unsupported "Brightness"
unfolding validate choose_inputs check_modes check_member set_contains gather gather_profiles
    set_union check_region fits_some fits_capabilities int_add int_sub wrap_int check_resolution
    some_input_serves some_profile_serves profile_serves allows_ccd_channel allows_color_mode
    allows_resolution supports within check_processing check_range
uneven = refl

too_wide :
    validate
      (record photo {
        region = record {
          x_offset = pos 12000;
          y_offset = pos 0;
          width = pos 10000;
          height = pos 15000;
        };
      })
      scanner
    ≡ unsupported "Region"
unfolding validate choose_inputs check_modes check_member set_contains gather gather_profiles
    set_union check_region fits_some fits_capabilities int_add int_sub wrap_int check_resolution
    some_input_serves some_profile_serves profile_serves allows_ccd_channel allows_color_mode
    allows_resolution supports within check_processing check_range
too_wide = refl

-- 16 bits in color, which no profile allows: refused with the resolution, accepted without it.
deep_refused : validate (record photo { color_depth = pos 2 }) scanner ≡ unsupported "Resolution"
unfolding validate choose_inputs check_modes check_member set_contains gather gather_profiles
    set_union check_region fits_some fits_capabilities int_add int_sub wrap_int check_resolution
    some_input_serves some_profile_serves profile_serves allows_ccd_channel allows_color_mode
    allows_resolution supports within check_processing check_range
deep_refused = refl

deep_accepted :
    validate
      (record photo {
        color_depth = pos 2;
        resolution = record { x_resolution = pos 0; y_resolution = pos 0 };
      })
      scanner
    ≡ ok tt
unfolding validate choose_inputs check_modes check_member set_contains gather gather_profiles
    set_union check_region fits_some fits_capabilities int_add int_sub wrap_int check_resolution
    some_input_serves some_profile_serves profile_serves allows_ccd_channel allows_color_mode
    allows_resolution supports within check_processing check_range
deep_accepted = refl

-- A resolution of the profile's range, which is not read.
in_range_refused :
    allows_resolution
      (record color8 {
        resolutions = [];
        resolution_range = record {
          x_min = pos 100;
          x_max = pos 600;
          x_step = pos 1;
          x_normal = pos 300;
          y_min = pos 100;
          y_max = pos 600;
          y_step = pos 1;
          y_normal = pos 300;
        };
      })
      dpi300
    ≡ false
unfolding allows_resolution supports
in_range_refused = refl

validate-Serves_example :
    (inputs : Inputs) × ((choose_inputs photo scanner ≡ ok inputs)
      × All (Asked photo scanner) inputs
      × ((region_is_zero photo.region ≡ false
            → (region_valid photo.region ≡ true)
              × Some (λ inp. fits_capabilities photo.region inp ≡ true) inputs)
          × (resolution_is_zero photo.resolution ≡ false → Some (ServesInput photo) inputs)))
validate-Serves_example = validate-Serves photo scanner accepted

validate-Settles_example : (validate photo scanner ≢ panic) × (validate photo scanner ≢ stuck)
validate-Settles_example = validate-Settles photo scanner (omega arith)

abbrev no_channel : ScannerRequest
no_channel = record photo { ccd_channel = negsuc 0 }

negative_channel : validate no_channel scanner ≡ panic
unfolding validate choose_inputs check_modes check_member set_contains gather gather_profiles
    set_union check_region fits_some fits_capabilities int_add int_sub wrap_int check_resolution
    some_input_serves some_profile_serves profile_serves allows_ccd_channel allows_color_mode
    allows_resolution supports within check_processing check_range
negative_channel = refl

validate-panic_only_example :
    (int_eq no_channel.color_mode color_mode_color ≡ true)
    × (int_lt no_channel.ccd_channel (pos 0) ≡ true)
    × (resolution_is_zero no_channel.resolution ≡ false)
    × (resolution_valid no_channel.resolution ≡ true)
validate-panic_only_example = validate-panic_only no_channel scanner negative_channel

within_iff_example : (within percent (pos 70) ≡ true) ↔ Admits percent (pos 70)
within_iff_example = within_iff percent (pos 70) (omega arith)
