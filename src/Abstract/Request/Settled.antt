-- ===== src/Abstract/Request/Settled.antt =====
-- The choice of inputs and the checks of the modes, which come back with a value or an error.

use mfp.Abstract.Capabilities.{
  color_mode_color, color_mode_mono, color_mode_binary, unset, SettingsProfile, allows_color_mode,
  allows_ccd_channel, InputCapabilities, within, or_else, and_then, ScannerCapabilities, Range,
}
use Prim.Native.String.{String}
use mfp.Abstract.Request.{
  Gathered, is_among, invalid, check_modes, some_input, or_unsupported, as_list, Inputs,
  unsupported, ScannerRequest, Error, choose_inputs, choose_adf, check_range, check_member,
}
use mfp.Abstract.Bitset.{Bitset, set_contains}
use mfp.Go.Int.{int_le, int_eq, int_lt, ◌≤ℤ◌, ℤ, negsuc, pos}
use mfp.Base.{
  ◌>>◌, ◌||◌, Settles-weaken, refl, ◌++◌, ◌∷◌, [], ◌≡◌, arith, Settles-bind, Option, ◌>>=◌,
  if◌then◌else◌, Settles, ℕ, Result, Bool, ok, some, none, true, false, ◌<◌,
}

abbrev pub Done : {A : Type 0} → Result Error A → Type 0
Done {A} m = Settles m (λ a. Unit {0})

abbrev pub InRange : ℕ → ℤ → Type 0
InRange limit v = (pos 0 ≤ℤ v) × (int_lt v (pos limit) ≡ true)

pub Done-if :
    {A : Type 0} (b : Bool) (m n : Result Error A) → Done m → Done n → Done (if b then m else n)
Done-if true m n h k = h
Done-if false m n h k = k

cases-Done :
    {A : Type 0} (b : Bool) (m n : Result Error A)
    → (b ≡ true → Done m)
    → (b ≡ false → Done n)
    → Done (if b then m else n)
cases-Done true m n h k = h refl
cases-Done false m n h k = k refl

contains-Done : (set : Bitset) (v : ℤ) → pos 0 ≤ℤ v → Done (set_contains set v)
unfolding set_contains
contains-Done set (pos n) h = tt
contains-Done set (negsuc n) h = absurd (omega arith)

or_else-Done : (b : Bool) (m : Result Error Bool) → Done m → Done (or_else b m)
or_else-Done true m h = tt
or_else-Done false m h = h

pub and_then-Done : (b : Bool) (m : Result Error Bool) → Done m → Done (and_then b m)
and_then-Done true m h = h
and_then-Done false m h = tt

pub found-Done :
    {A : Type 0} (m : Result Error Bool) (x y : Result Error A)
    → Done m
    → Done x
    → Done y
    → Done (m >>= λ found. if found then x else y)
found-Done m x y h k l = Settles-bind m _ (λ _. Unit) (λ _. Unit) h (λ b _ _. Done-if b x y k l)

-- A test that is skipped for an unset value, behind one for values that are out of range.
member-Settles :
    (b c : Bool) (P : Type 0) (name : String) (m : Result Error (Unit {0}))
    → (b ≡ true → P)
    → (b ≡ false → c ≡ false → Settles m (λ u. P))
    → Settles (if b then ok tt else if c then invalid name else m) (λ u. P)
member-Settles true c P name m h k = h refl
member-Settles false true P name m h k = tt
member-Settles false false P name m h k = k refl refl

found-Settles :
    (P : Type 0) (name : String) (b : Bool)
    → P
    → Settles (if b then ok tt else unsupported name) (λ u. P)
found-Settles P name true p = p
found-Settles P name false p = tt

check_member-InRange :
    (name : String) (set : Bitset) (limit : ℕ) (v : ℤ)
    → 0 < limit
    → Settles (check_member name set limit v) (λ u. InRange limit v)
unfolding check_member
check_member-InRange name set limit v h =
    member-Settles (int_eq v unset) (int_lt v (pos 0) || int_le (pos limit) v) (InRange limit v)
      name _ (λ e. (ground arith, ground arith))
      (λ e f.
        Settles-bind (set_contains set v) _ (λ b. Unit {0}) (λ u. InRange limit v)
          (contains-Done set v (ground arith))
          (λ b _ _. found-Settles (InRange limit v) name b (ground arith, ground arith)))

member_Done :
    (name : String) (set : Bitset) (limit : ℕ) (v : ℤ)
    → 0 < limit
    → Done (check_member name set limit v)
member_Done name set limit v h =
    Settles-weaken (check_member name set limit v) (λ u. InRange limit v) (λ u. Unit {0})
      (check_member-InRange name set limit v h) (λ _ _. tt)

pub check_range-Done : (name : String) (r : Range) (v : Option ℤ) → Done (check_range name r v)
unfolding check_range
check_range-Done name r none = tt
check_range-Done name r (some v) = Done-if (within r v) (ok tt) (unsupported name) tt tt

or_unsupported-Done : (name : String) (o : Option InputCapabilities) → Done (or_unsupported name o)
or_unsupported-Done name none = tt
or_unsupported-Done name (some inp) = tt

some_input-Done : (inputs : Inputs) → Done (some_input inputs)
some_input-Done [] = tt
some_input-Done (inp ∷ inps) = tt

choose_adf-Done : (req : ScannerRequest) (caps : ScannerCapabilities) → Done (choose_adf req caps)
unfolding choose_adf
choose_adf-Done req caps = ground arith

pub choose_inputs-Done :
    (req : ScannerRequest) (caps : ScannerCapabilities) → Done (choose_inputs req caps)
unfolding choose_inputs
choose_inputs-Done req caps = ground (
  arith,
  some_input-Done (as_list caps.platen ++ (as_list caps.adf_simplex ++ as_list caps.adf_duplex)),
  or_unsupported-Done "Input" caps.platen,
  choose_adf-Done req caps,
)

check_if :
    (P : Type 0) (c : Bool) (m : Result Error (Unit {0}))
    → Settles m (λ u. P)
    → Settles (if c then m else ok tt) (λ u. c ≡ true → P)
check_if P true m h = Settles-weaken m _ _ h (λ u p _. p)
check_if P false m h = λ e. cc

-- The checks of the modes leave values that the profiles can be asked for.
abbrev pub ModesInRange : ScannerRequest → Type 0
ModesInRange req =
    InRange 4 req.color_mode
    × ((is_among req.color_mode unset color_mode_binary color_mode_binary ≡ true
          → InRange 3 req.binary_rendering)
        × ((is_among req.color_mode unset color_mode_mono color_mode_color ≡ true
              → InRange 3 req.color_depth)
            × (is_among req.color_mode unset color_mode_binary color_mode_mono ≡ true
                → InRange 7 req.ccd_channel)))

seq_Settles :
    (P : Type 0) (m n : Result Error (Unit {0}))
    → Settles m (λ u. P)
    → Done n
    → Settles (m >> n) (λ u. P)
seq_Settles P m n h k =
    Settles-bind m (λ _. n) (λ u. P) (λ u. P) h
      (λ _ _ p. Settles-weaken n (λ u. Unit {0}) (λ u. P) k (λ _ _. p))

pub check_modes-InRange :
    (req : ScannerRequest) (caps : ScannerCapabilities) (g : Gathered)
    → Settles (check_modes req caps g) (λ u. ModesInRange req)
unfolding check_modes
check_modes-InRange req caps g =
    let binary = is_among req.color_mode unset color_mode_binary color_mode_binary in
    let deep = is_among req.color_mode unset color_mode_mono color_mode_color in
    let single = is_among req.color_mode unset color_mode_binary color_mode_mono in
    let rendering = check_member "BinaryRendering" g.binrend 3 req.binary_rendering in
    let threshold = check_range "Threshold" caps.threshold_range req.threshold in
    let depth = check_member "ColorDepth" g.depths 3 req.color_depth in
    let ccd = check_member "CCDChannel" g.ccd_channels 7 req.ccd_channel in
    let intent = check_member "Intent" g.intents 7 req.intent in
    let all : Unit {0} → Type 0 = λ u. ModesInRange req in
    Settles-bind (check_member "ColorMode" g.color_modes 4 req.color_mode) _
      (λ u. InRange 4 req.color_mode) all
      (check_member-InRange "ColorMode" g.color_modes 4 req.color_mode (omega arith))
      (λ _ _ m.
        Settles-bind (if binary then rendering >> threshold else ok tt) _
          (λ u. binary ≡ true → InRange 3 req.binary_rendering) all
          (check_if _ binary _ (
            seq_Settles _ rendering threshold
              (check_member-InRange "BinaryRendering" g.binrend 3 req.binary_rendering
                (omega arith))
              (check_range-Done "Threshold" caps.threshold_range req.threshold)))
          (λ _ _ r.
            Settles-bind (if deep then depth else ok tt) _
              (λ u. deep ≡ true → InRange 3 req.color_depth) all
              (check_if _ deep depth
                (check_member-InRange "ColorDepth" g.depths 3 req.color_depth (omega arith)))
              (λ _ _ d.
                Settles-bind (if single then ccd else ok tt) _
                  (λ u. single ≡ true → InRange 7 req.ccd_channel) all
                  (check_if _ single ccd (
                    check_member-InRange "CCDChannel" g.ccd_channels 7 req.ccd_channel
                      (omega arith)))
                  (λ _ _ h.
                    Settles-weaken intent (λ u. Unit {0}) all
                      (member_Done "Intent" g.intents 7 req.intent (omega arith))
                      (λ _ _. (m, (r, (d, h))))))))

pub allows_color_mode-Done :
    (req : ScannerRequest) (prof : SettingsProfile)
    → ModesInRange req
    → Done (allows_color_mode prof req.color_mode req.color_depth req.binary_rendering)
unfolding allows_color_mode
allows_color_mode-Done req prof (mode, (rendering, (depth, channel))) =
    let modes = set_contains prof.color_modes req.color_mode in
    let renderings =
      or_else (int_eq req.binary_rendering unset)
        (set_contains prof.binary_renderings req.binary_rendering) in
    let depths =
      or_else (int_eq req.color_depth unset) (set_contains prof.depths req.color_depth) in
    let binary = int_eq req.color_mode color_mode_binary in
    let fitting = if binary then renderings else depths in
    cases-Done (int_eq req.color_mode unset) (ok true) (modes >>= (λ a. and_then a fitting))
      (λ _. tt)
      (λ e.
        Settles-bind modes (λ a. and_then a fitting) (λ _. Unit {0}) (λ _. Unit {0})
          (contains-Done prof.color_modes req.color_mode mode.0)
          (λ a _ _. and_then-Done a fitting (
            cases-Done binary renderings depths
              (λ f. or_else-Done _ _ (
                contains-Done prof.binary_renderings req.binary_rendering
                  ((rendering (ground arith)).0)))
              (λ f.
                or_else-Done _ _
                  (contains-Done prof.depths req.color_depth ((depth (ground arith)).0))))))

pub allows_ccd_channel-Done :
    (prof : SettingsProfile) (ccd : ℤ) → pos 0 ≤ℤ ccd → Done (allows_ccd_channel prof ccd)
unfolding allows_ccd_channel
allows_ccd_channel-Done prof ccd h =
    or_else-Done (int_eq ccd unset) (set_contains prof.ccd_channels ccd)
      (contains-Done prof.ccd_channels ccd h)
