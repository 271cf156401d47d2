-- ===== src/Discovery/Output/Complete.antt =====
-- Generate gives devices, whatever units with the parameters of their services it is given.

use mfp.Discovery.Export.Total.{export_device-Total, Total}
use mfp.Discovery.Merge.Fitting.{merged-FitGroups, FitUnits, FitGroups}
use mfp.Discovery.Model.{Device, UnitInfo, UnitGroup}
use mfp.Discovery.Merge.{Net}
use mfp.Discovery.Output.{Output, merged, export_devices, generate}
use mfp.Base.{bind-eq-ok, ◌≡◌, ℕ, List, some, ok, [], ◌∷◌, refl}

export_devices-Total :
    {E : Type 0} (gs : List UnitGroup) → FitGroups gs → Total {E = E} (export_devices gs)
unfolding export_devices
export_devices-Total [] h = ([], refl)
export_devices-Total {E} (g ∷ gs) h =
    let d = export_device-Total {E = E} g h.0 in
    let rest = export_devices-Total {E = E} gs h.1 in (d.0 ∷ rest.0, rw (d.1, rest.1))

-- The devices are there, and the output keeps them.
pub generate-total :
    {E : Type 0} (net : Net) (ttl : ℕ) (us : List UnitInfo)
    → FitUnits us
    → (devices : List Device) × (generate {E = E} net ttl us
        ≡ ok (devices, record { devices = some devices; ttl = ttl }))
unfolding generate
generate-total {E} net ttl us h =
    let made = export_devices-Total {E = E} (merged net us) (merged-FitGroups net us h) in
    (made.0, rw made.1)

-- What Generate gives it also keeps.
pub generate_kept :
    {E : Type 0} (net : Net) (ttl : ℕ) (us : List UnitInfo) (devices : List Device) (out : Output)
    → generate {E = E} net ttl us ≡ ok (devices, out)
    → out ≡ record { devices = some devices; ttl = ttl }
unfolding generate
generate_kept {E} net ttl us devices out h =
    let made = bind-eq-ok (export_devices {E = E} (merged net us)) _ h in cc (made.2)
