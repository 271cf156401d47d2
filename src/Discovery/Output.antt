-- ===== src/Discovery/Output.antt =====
-- discovery/output.go: the output that the cache keeps, and the making of it.

pub mod Complete
use mfp.Discovery.Export.{export_device}
use mfp.Discovery.Model.{UnitInfo, UnitGroup, Device}
use mfp.Discovery.Merge.{
  gen_extract_ip_addresses, gen_merge_unit_variants, gen_merge_devices_by_name_uuid,
  gen_merge_devices_by_uuid, Net,
}
use mfp.Base.{ltb, not, if◌then◌else◌, Result, ℕ, Option, List, none, ◌∷◌, [], some, ok, ◌>>=◌}

-- Time is a count of nanoseconds, and 0 is Go's zero time.
pub record Output : Type 0 where
  pub devices : Option (List Device)
  pub ttl : ℕ

-- Cached tests `!out.ttl.After(now)`.
unfoldable pub cached : Output → ℕ → Option (List Device)
cached out now = elim out.devices [
  | none ↦ none
  | some devices ↦ if not (ltb now out.ttl) then some devices else none
]

abbrev pub invalidate : Output → Output
invalidate out = record out { devices = none }

export_devices : {E : Type 0} → List UnitGroup → Result E (List Device)
export_devices [] = ok []
export_devices (g ∷ gs) = do d ← export_device g; rest ← export_devices gs; ok (d ∷ rest)

abbrev pub merged : Net → List UnitInfo → List UnitGroup
merged net units =
    gen_merge_devices_by_uuid (
      gen_merge_devices_by_name_uuid (gen_merge_unit_variants (gen_extract_ip_addresses net units)))

-- The devices, and the output that keeps them.
unfoldable pub generate : {E : Type 0} → Net → ℕ → List UnitInfo → Result E (List Device × Output)
unfolding export_devices
generate net ttl units = do
  devices ← export_devices (merged net units)
  ok (devices, record { devices = some devices; ttl = ttl })
