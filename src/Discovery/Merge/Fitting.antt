-- ===== src/Discovery/Merge/Fitting.antt =====
-- Merging changes neither the service nor the parameters of a unit.

use mfp.Go.Text.{Text}
use mfp.Discovery.Merge.{
  without_variant, join_groups, gen_merge_unit_variants, gen_merge_devices_by_name_uuid,
  sort_groups, or_empty, map_values, insert_group, group_into, group_all, gen_merge_devices_by_uuid,
  device_key, without_zone, gen_merge_unit_cross_zones, Net, merge_units, merge_into, group_of,
  gen_extract_ip_addresses, classify,
}
use mfp.Discovery.Model.{merge_unit, UnitId, UnitGroup, Fits, UnitInfo, unit_id_key}
use mfp.Go.Keyed.{put_key, Every-at_key, Every-put_key, at_key, Every, text_key}
use mfp.Base.{
  All-append, ◌++◌, ltb, Bool-cases, map, ◌≡◌, Option-cases, All, List, inl, inr, ◌∷◌, [], refl,
}

abbrev pub FitsUnit : UnitInfo → Type 0
FitsUnit u = Fits u.id.svc_type u.params

abbrev pub FitUnits : List UnitInfo → Type 0
FitUnits = All FitsUnit

abbrev pub FitGroups : List UnitGroup → Type 0
FitGroups = All (λ g. FitUnits g.units)

gen_extract_ip_addresses-FitUnits :
    (net : Net) (us : List UnitInfo) → FitUnits us → FitUnits (gen_extract_ip_addresses net us)
unfolding gen_extract_ip_addresses
gen_extract_ip_addresses-FitUnits net [] h = tt
gen_extract_ip_addresses-FitUnits net (u ∷ us) h =
    (h.0, gen_extract_ip_addresses-FitUnits net us h.1)

All-map_values :
    {K V : Type 0} (P : V → Type 0) (m : List (K × V)) → Every (λ k. P) m → All P (map_values m)
All-map_values P [] h = tt
All-map_values P ((k, v) ∷ m) h = (h.0, All-map_values P m h.1)

merge_into-FitUnits :
    (pad : List (UnitId × UnitInfo)) (u : UnitInfo)
    → Every (λ k. FitsUnit) pad
    → FitsUnit u
    → Every (λ k. FitsUnit) (merge_into pad u)
unfolding merge_into
merge_into-FitUnits pad u h k = elim (Option-cases (at_key pad u.id)) [
  | inl e ↦ rw (e, Every) (Every-put_key (λ k. FitsUnit) pad u.id u h k)
  | inr (prev, e) ↦
      rw (e, Every)
        (Every-put_key (λ k. FitsUnit) pad u.id (merge_unit prev u) h
          (unfold merge_unit in Every-at_key (λ k. FitsUnit) pad u.id prev h e))
]

merge_units-FitUnits :
    (strip : UnitId → UnitId)
    → ((id : UnitId) → (strip id).svc_type ≡ id.svc_type)
    → (pad : List (UnitId × UnitInfo)) (us : List UnitInfo) → Every (λ k. FitsUnit) pad
    → FitUnits us
    → FitUnits (map_values (merge_units strip pad us))
unfolding merge_units
merge_units-FitUnits strip s pad [] h k = All-map_values FitsUnit pad h
merge_units-FitUnits strip s pad (u ∷ us) h k =
    merge_units-FitUnits strip s (merge_into pad (record u { id = strip u.id })) us
      (merge_into-FitUnits pad (record u { id = strip u.id }) h (rw (s u.id) k.0)) k.1

so_far :
    (pad : List (UnitId × List UnitInfo)) (key : UnitId)
    → Every (λ k. FitUnits) pad
    → FitUnits (or_empty (at_key pad key))
so_far pad key h = elim (Option-cases (at_key pad key)) [
  | inl e ↦ rw e tt
  | inr (us, e) ↦ rw e (Every-at_key (λ k. FitUnits) pad key us h e)
]

classify-FitUnits :
    (pad : List (UnitId × List UnitInfo)) (us : List UnitInfo)
    → Every (λ k. FitUnits) pad
    → FitUnits us
    → Every (λ k. FitUnits) (classify pad us)
unfolding classify
classify-FitUnits pad [] h k = h
classify-FitUnits pad (u ∷ us) h k =
    let key = device_key u.id in
    classify-FitUnits (put_key pad key (or_empty (at_key pad key) ++ u ∷ [])) us
      (Every-put_key (λ k. FitUnits) pad key _ h
        (All-append FitsUnit (or_empty (at_key pad key)) (u ∷ []) (so_far pad key h) (k.0, tt)))
      k.1

group_of-FitUnits :
    (k : UnitId) (us : List UnitInfo) → FitUnits us → FitUnits (group_of (k, us)).units
unfolding group_of gen_merge_unit_cross_zones
group_of-FitUnits k us h = merge_units-FitUnits without_zone (λ id. refl) [] us tt h

map-group_of-FitGroups :
    (m : List (UnitId × List UnitInfo)) → Every (λ k. FitUnits) m → FitGroups (map group_of m)
map-group_of-FitGroups [] h = tt
map-group_of-FitGroups ((k, us) ∷ m) h = (group_of-FitUnits k us h.0, map-group_of-FitGroups m h.1)

insert_group-FitGroups :
    (g : UnitGroup) (gs : List UnitGroup)
    → FitUnits g.units
    → FitGroups gs
    → FitGroups (insert_group g gs)
unfolding insert_group
insert_group-FitGroups g [] h k = (h, tt)
insert_group-FitGroups g (x ∷ gs) h k = elim (Bool-cases (ltb x.realm g.realm)) [
  | inl e ↦ rw e (k.0, insert_group-FitGroups g gs h k.1)
  | inr e ↦ rw e (h, k)
]

sort_groups-FitGroups : (gs : List UnitGroup) → FitGroups gs → FitGroups (sort_groups gs)
unfolding sort_groups
sort_groups-FitGroups [] h = tt
sort_groups-FitGroups (g ∷ gs) h =
    insert_group-FitGroups g (sort_groups gs) h.0 (sort_groups-FitGroups gs h.1)

abbrev FitGroup : UnitGroup → Type 0
FitGroup g = FitUnits g.units

group_into-FitGroups :
    (pad : List (Text × UnitGroup)) (g : UnitGroup)
    → Every (λ k. FitGroup) pad
    → FitGroup g
    → Every (λ k. FitGroup) (group_into pad g)
unfolding group_into
group_into-FitGroups pad g h k = elim (Option-cases (at_key pad g.uuid)) [
  | inl e ↦ rw (e, Every) (Every-put_key (λ k. FitGroup) pad g.uuid g h k)
  | inr (prev, e) ↦
      rw (e, Every)
        (Every-put_key (λ k. FitGroup) pad g.uuid (join_groups prev g) h
          (All-append FitsUnit prev.units g.units (Every-at_key (λ k. FitGroup) pad g.uuid prev h e)
            k))
]

group_all-FitGroups :
    (pad : List (Text × UnitGroup)) (gs : List UnitGroup)
    → Every (λ k. FitGroup) pad
    → FitGroups gs
    → FitGroups (map_values (group_all pad gs))
unfolding group_all
group_all-FitGroups pad [] h k = All-map_values FitGroup pad h
group_all-FitGroups pad (g ∷ gs) h k =
    group_all-FitGroups (group_into pad g) gs (group_into-FitGroups pad g h k.0) k.1

-- The groups that Generate makes of units with the parameters of their services are of such units.
pub merged-FitGroups :
    (net : Net) (us : List UnitInfo)
    → FitUnits us
    → FitGroups (
        gen_merge_devices_by_uuid (
          gen_merge_devices_by_name_uuid
            (gen_merge_unit_variants (gen_extract_ip_addresses net us))))
unfolding gen_merge_devices_by_uuid gen_merge_devices_by_name_uuid gen_merge_unit_variants
merged-FitGroups net us h =
    let extracted = gen_extract_ip_addresses net us in
    let variants = map_values (merge_units without_variant [] extracted) in
    let fit =
      merge_units-FitUnits without_variant (λ id. refl) [] extracted tt
        (gen_extract_ip_addresses-FitUnits net us h) in
    let classes = classify [] variants in
    group_all-FitGroups [] (sort_groups (map group_of classes)) tt (
      sort_groups-FitGroups (map group_of classes)
        (map-group_of-FitGroups classes (classify-FitUnits [] variants tt fit)))
