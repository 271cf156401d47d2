-- ===== src/Discovery/Merge.antt =====
-- discovery/output.go, with addrsFromEndpoints of addrs.go: how units are merged into devices.

pub mod Fitting
use mfp.Go.Keyed.{put_key, text_key, at_key}
use mfp.Discovery.Collection.{addrs_merge}
use mfp.Go.Text.{has_suffix, codes, text_eq, has_prefix, Text}
use mfp.Go.Netip.{unmap, ip_less, Ip}
use mfp.Discovery.Model.{
  unit_id_key, merge_unit, realm_invalid, UnitInfo, UnitId, UnitGroup, service_printer, service_ipp,
}
use mfp.Base.{
  drop, ◌-◌, length, ◌||◌, ◌&&◌, ◌==◌, ◌++◌, take, ltb, ℕ, map, if◌then◌else◌, Bool, Option, List,
  some, none, suc, true, false, ◌∷◌, [],
}

-- What is not in the package: `url.Parse`, which gives the scheme and the host of a URL, and
-- `netip.ParseAddr`.
pub record Net : Type 0 where
  pub parse_url : Text → Option (Text × Text)
  pub parse_addr : Text → Option Ip

-- `strings.LastIndex` for one byte.
abbrev last_index : Text → ℕ → Option ℕ
last_index [] c = none
last_index (b ∷ s) c = elim (last_index s c) [
  | some i ↦ some (suc i)
  | none ↦ if b == c then some 0 else none
]

abbrev is_after : Option ℕ → Option ℕ → Bool
is_after none b = false
is_after (some i) none = true
is_after (some i) (some j) = ltb j i

abbrev front_to : Text → Option ℕ → Text
front_to s none = s
front_to s (some i) = take i s

-- The host without a port, then without square brackets.
drop_port : Text → Text
drop_port host =
    let colon_at = last_index host b':' in
    if is_after colon_at (last_index host b']') then front_to host colon_at else host

drop_brackets : Text → Text
drop_brackets host =
    if has_prefix host (codes "[") && has_suffix host (codes "]")
    then take (length host - 2) (drop 1 host)
    else host

is_ip_scheme : Text → Bool
is_ip_scheme scheme =
    text_eq scheme (codes "ipp")
    || text_eq scheme (codes "ipps")
    || text_eq scheme (codes "lpd")
    || text_eq scheme (codes "socket")
    || text_eq scheme (codes "http")
    || text_eq scheme (codes "https")

-- The address of one endpoint, if it has one.
endpoint_addr : Net → Text → Option Ip
unfolding drop_port drop_brackets is_ip_scheme
endpoint_addr net endpoint = elim (net.parse_url endpoint) [
  | none ↦ none
  | some (scheme, host) ↦
      if is_ip_scheme scheme
      then elim (net.parse_addr (drop_brackets (drop_port host))) [
        | none ↦ none
        | some addr ↦ some (unmap addr)
      ]
      else none
]

-- `sort.Slice` by `Addr.Less`
insert_ip : Ip → List Ip → List Ip
insert_ip a [] = a ∷ []
insert_ip a (b ∷ l) = if ip_less b a then b ∷ insert_ip a l else a ∷ b ∷ l

addrs_from : Net → List Text → List Ip
unfolding insert_ip
addrs_from net [] = []
addrs_from net (e ∷ es) = elim (endpoint_addr net e) [
  | none ↦ addrs_from net es
  | some a ↦ insert_ip a (addrs_from net es)
]

unfoldable pub addrs_from_endpoints : Net → List Text → List Ip
unfolding addrs_from endpoint_addr
addrs_from_endpoints = addrs_from

pub with_addrs : Net → UnitInfo → UnitInfo
unfolding addrs_from_endpoints
with_addrs net u = record u { addrs = addrs_from_endpoints net u.endpoints }

unfoldable pub gen_extract_ip_addresses : Net → List UnitInfo → List UnitInfo
unfolding with_addrs
gen_extract_ip_addresses net = map (with_addrs net)

abbrev pub map_values {ℓ} : {K : Type 0} {V : Type ℓ} → List (K × V) → List V
map_values [] = []
map_values ((k, v) ∷ m) = v ∷ map_values m

-- One unit more: the first of those with the same key is kept, with the endpoints of all.
pub merge_into : List (UnitId × UnitInfo) → UnitInfo → List (UnitId × UnitInfo)
merge_into pad u = elim (at_key pad u.id) [
  | some prev ↦ put_key pad u.id (merge_unit prev u)
  | none ↦ put_key pad u.id u
]

-- The loop of genMergeUnitVariants and genMergeUnitCrossZones, which differ in the field of the ID
-- that they empty.
pub merge_units :
    (UnitId → UnitId) → List (UnitId × UnitInfo) → List UnitInfo → List (UnitId × UnitInfo)
unfolding merge_into
merge_units strip pad [] = pad
merge_units strip pad (u ∷ us) =
    merge_units strip (merge_into pad (record u { id = strip u.id })) us

abbrev pub without_variant : UnitId → UnitId
without_variant id = record id { variant = [] }

abbrev pub without_zone : UnitId → UnitId
without_zone id = record id { zone = [] }

unfoldable pub gen_merge_unit_variants : List UnitInfo → List UnitInfo
unfolding merge_units
gen_merge_unit_variants us = map_values (merge_units without_variant [] us)

unfoldable pub gen_merge_unit_cross_zones : List UnitInfo → List UnitInfo
unfolding merge_units
gen_merge_unit_cross_zones us = map_values (merge_units without_zone [] us)

-- The key of a device: name, UUID and realm, with zero map_values for the rest.
abbrev device_key : UnitId → UnitId
device_key id = record {
  dnssd_name = id.dnssd_name;
  uuid = id.uuid;
  queue = [];
  realm = id.realm;
  zone = [];
  variant = [];
  svc_type = service_printer;
  svc_proto = service_ipp;
  usb_serial = [];
}

abbrev or_empty {ℓ} : {A : Type ℓ} → Option (List A) → List A
or_empty none = []
or_empty (some l) = l

pub classify : List (UnitId × List UnitInfo) → List UnitInfo → List (UnitId × List UnitInfo)
classify pad [] = pad
classify pad (u ∷ us) =
    let key = device_key u.id in classify (put_key pad key (or_empty (at_key pad key) ++ u ∷ [])) us

unit_addrs : List Ip → List UnitInfo → List Ip
unit_addrs addrs [] = addrs
unit_addrs addrs (u ∷ us) = unit_addrs (addrs_merge addrs u.addrs) us

pub group_of : UnitId × List UnitInfo → UnitGroup
unfolding unit_addrs
group_of (key, us) = record {
  realm = key.realm;
  uuid = key.uuid;
  units = gen_merge_unit_cross_zones us;
  addrs = unit_addrs [] us;
}

-- `sort.SliceStable` by the realm
pub insert_group : UnitGroup → List UnitGroup → List UnitGroup
insert_group g [] = g ∷ []
insert_group g (h ∷ hs) = if ltb h.realm g.realm then h ∷ insert_group g hs else g ∷ h ∷ hs

pub sort_groups : List UnitGroup → List UnitGroup
unfolding insert_group
sort_groups [] = []
sort_groups (g ∷ gs) = insert_group g (sort_groups gs)

unfoldable pub gen_merge_devices_by_name_uuid : List UnitInfo → List UnitGroup
unfolding classify group_of sort_groups
gen_merge_devices_by_name_uuid us = sort_groups (map group_of (classify [] us))

abbrev pub join_groups : UnitGroup → UnitGroup → UnitGroup
join_groups g h = record g {
  realm = realm_invalid;
  units = g.units ++ h.units;
  addrs = addrs_merge g.addrs h.addrs;
}

pub group_into : List (Text × UnitGroup) → UnitGroup → List (Text × UnitGroup)
group_into pad g = elim (at_key pad g.uuid) [
  | some prev ↦ put_key pad g.uuid (join_groups prev g)
  | none ↦ put_key pad g.uuid g
]

pub group_all : List (Text × UnitGroup) → List UnitGroup → List (Text × UnitGroup)
unfolding group_into
group_all pad [] = pad
group_all pad (g ∷ gs) = group_all (group_into pad g) gs

unfoldable pub gen_merge_devices_by_uuid : List UnitGroup → List UnitGroup
unfolding group_all
gen_merge_devices_by_uuid gs = map_values (group_all [] gs)
