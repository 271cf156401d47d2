-- ===== src/Discovery/Cache.antt =====
-- discovery/cache.go: the cache of units. An operation that reads the clock takes the time; a pointer
-- to an entry is the entry that is stored back.

pub mod Invariant
pub mod Operations
pub mod Exports
pub mod Publishing
use mfp.Go.Keyed.{drop_key, at_key, put_key}
use mfp.Go.Text.{Text}
use mfp.Discovery.Output.{generate, Output, invalidate, cached}
use mfp.Discovery.Merge.{Net}
use mfp.Discovery.Collection.{endpoints_add, endpoints_del, endpoints_contain, endpoints_merge}
use mfp.Discovery.Model.{
  unit_id_key, type_code, fixup, Device, ScannerParameters, PrinterParameters, UnitInfo, UnitId,
  ServiceType, service_scanner, scanner_params, service_printer, printer_params, service_faxout,
  no_params,
}
use mfp.Base.{
  ◌||◌, ◌==◌, ltb, ◌+◌, ◌*◌, ◌&&◌, not, if◌then◌else◌, Result, ℕ, Option, List, Bool, ◌∷◌, none, [],
  ok, true, err, false, some, ◌>>=◌,
}

-- const.go, in nanoseconds
abbrev pub warm_up_time : ℕ
warm_up_time = 5 * 1000000000

abbrev pub stabilization_time : ℕ
stabilization_time = 1000000000

-- 365 days
abbrev pub far_future : ℕ
far_future = 365 * 24 * 3600 * 1000000000

pub record CacheEnt : Type 0 where
  pub unit : UnitInfo
  pub has_params : Bool
  pub staging_endpoints : List Text
  pub staging_done_at : ℕ

abbrev pub Entries : Type 0
Entries = List (UnitId × CacheEnt)

pub record Cache : Type 0 where
  pub ready_at : ℕ
  pub entries : Entries
  pub out : Output

pub data Error : Type 0 where
  unit_already_added : Error
  unknown_unit_id : Error
  unit_must_be : ServiceType → ServiceType → Error
  endpoint_already_added : Error
  unknown_endpoint : Error

pub data Mode : Type 0 where
  mode_normal : Mode
  mode_wait_incomplete : Mode
  mode_snapshot : Mode

unfoldable pub new_cache : ℕ → Cache
new_cache now = record {
  ready_at = now + warm_up_time;
  entries = [];
  out = record { devices = none; ttl = 0 };
}

abbrev pub staging_in_progress : CacheEnt → Bool
staging_in_progress ent = not (ent.staging_done_at == 0)

unfoldable pub staging_begin : CacheEnt → ℕ → CacheEnt
staging_begin ent now =
    if staging_in_progress ent
    then ent
    else record ent { staging_done_at = now + stabilization_time }

unfoldable pub staging_end : CacheEnt → CacheEnt
staging_end ent = record ent {
  unit = record (ent.unit) { endpoints = endpoints_merge ent.unit.endpoints ent.staging_endpoints };
  staging_endpoints = [];
  staging_done_at = 0;
}

unfoldable pub staging_check : CacheEnt → ℕ → CacheEnt
unfolding staging_end
staging_check ent now =
    if staging_in_progress ent && not (ltb now ent.staging_done_at) then staging_end ent else ent

abbrev pub is_nonempty {ℓ} : {A : Type ℓ} → List A → Bool
is_nonempty [] = false
is_nonempty (x ∷ l) = true

-- Whether the entry may be exported, and the entry after its staging was checked.
unfoldable pub ready : CacheEnt → ℕ → CacheEnt × Bool
unfolding staging_check
ready ent now =
    let ent' = staging_check ent now in
    if ent.has_params then (ent', is_nonempty ent'.unit.endpoints) else (ent, false)

unfoldable pub snapshot_ent : CacheEnt → Option UnitInfo
snapshot_ent ent =
    let endpoints = endpoints_merge ent.unit.endpoints ent.staging_endpoints in
    if ent.has_params && is_nonempty endpoints
    then some (record (ent.unit) { endpoints = endpoints })
    else none

abbrev pub time_latest : ℕ → ℕ → ℕ
time_latest t u = if ltb u t then t else u

abbrev pub time_earliest : ℕ → ℕ → ℕ
time_earliest t u = if ltb t u then t else u

-- The loop of ReadyAt: the time and the entries.
unfoldable pub ready_loop : ℕ → Entries → ℕ → ℕ × Entries
ready_loop time [] now = (time, [])
ready_loop time ((id, ent) ∷ es) now =
    let ent' = staging_check ent now in
    let time' = if staging_in_progress ent' then time_latest time ent'.staging_done_at else time in
    let rest = ready_loop time' es now in (rest.0, (id, ent') ∷ rest.1)

unfoldable pub ready_at : Cache → Mode → ℕ → ℕ × Cache
ready_at c mode_normal now = (c.ready_at, c)
ready_at c mode_snapshot now = (0, c)
ready_at c mode_wait_incomplete now = elim (cached c.out now) [
  | some devices ↦ (0, c)
  | none ↦ let r = ready_loop c.ready_at c.entries now in (r.0, record c { entries = r.1 })
]

-- The loop of Export: the units, the time to live and the entries.
unfoldable pub export_loop : ℕ → Entries → ℕ → List UnitInfo × ℕ × Entries
export_loop ttl [] now = ([], ttl, [])
export_loop ttl ((id, ent) ∷ es) now =
    let (ent', is_ready) = ready ent now in
    let waits = is_ready && staging_in_progress ent' in
    let rest = export_loop (if waits then time_earliest ttl ent'.staging_done_at else ttl) es now in
    (if is_ready then ent'.unit ∷ rest.0 else rest.0, rest.1, (id, ent') ∷ rest.2)

unfoldable pub export : Net → Cache → ℕ → Result Error (List Device × Cache)
export net c now = elim (cached c.out now) [
  | some devices ↦ ok (devices, c)
  | none ↦
      let r = export_loop (now + far_future) c.entries now in
      generate net r.1 r.0 >>= λ made. ok (made.0, record c { entries = r.2; out = made.1 })
]

unfoldable pub snapshot_units : Entries → List UnitInfo
snapshot_units [] = []
snapshot_units ((id, ent) ∷ es) = elim (snapshot_ent ent) [
  | some u ↦ u ∷ snapshot_units es
  | none ↦ snapshot_units es
]

unfoldable pub take_snapshot : Net → Cache → ℕ → Result Error (List Device)
take_snapshot net c now =
    generate net (now + far_future) (snapshot_units c.entries) >>= λ made. ok made.0

-- A change of the entries, which drops the output.
abbrev pub changed : Cache → Entries → Cache
changed c es = record c { entries = es; out = invalidate c.out }

-- A unit of which nothing but its ID is known.
abbrev pub blank_unit : UnitId → UnitInfo
blank_unit id = record {
  id = id;
  make_model = [];
  location = [];
  admin_url = [];
  icon_url = [];
  ppd_manufacturer = [];
  ppd_model = [];
  params = no_params;
  endpoints = [];
  addrs = [];
}

unfoldable pub add_unit : Cache → UnitId → Result Error Cache
add_unit c id = elim (at_key c.entries id) [
  | some ent ↦ err unit_already_added
  | none ↦ ok (
      changed c (
        put_key c.entries id (record {
          unit = blank_unit id;
          has_params = false;
          staging_endpoints = [];
          staging_done_at = 0;
        })))
]

unfoldable pub del_unit : Cache → UnitId → Result Error Cache
del_unit c id = elim (at_key c.entries id) [
  | none ↦ err unknown_unit_id
  | some ent ↦ ok (changed c (drop_key c.entries id))
]

unfoldable pub set_parameters_begin : Cache → UnitId → ServiceType → Result Error CacheEnt
set_parameters_begin c id must_be = elim (at_key c.entries id) [
  | none ↦ err unknown_unit_id
  | some ent ↦
      if type_code ent.unit.id.svc_type == type_code must_be
      then ok ent
      else err (unit_must_be ent.unit.id.svc_type must_be)
]

abbrev pub set_parameters_commit : Cache → UnitId → CacheEnt → Cache
set_parameters_commit c id ent = changed c (put_key c.entries id (record ent { has_params = true }))

-- The descriptions that come with parameters.
pub record Described : Type 0 where
  pub make_model : Text
  pub location : Text
  pub admin_url : Text
  pub icon_url : Text
  pub ppd_manufacturer : Text
  pub ppd_model : Text

unfoldable pub set_printer_parameters :
    Cache → UnitId → Described → PrinterParameters → Result Error Cache
set_printer_parameters c id d p = do
  ent ← set_parameters_begin c id service_printer
  ok (
      set_parameters_commit c id (record ent {
        unit = record (ent.unit) {
          make_model = d.make_model;
          location = d.location;
          admin_url = d.admin_url;
          icon_url = d.icon_url;
          ppd_manufacturer = d.ppd_manufacturer;
          ppd_model = d.ppd_model;
          params = printer_params (fixup p);
        };
      }))

-- A scanner's event has no PPD names.
unfoldable pub set_scanner_parameters :
    Cache → UnitId → Described → ScannerParameters → Result Error Cache
set_scanner_parameters c id d p = do
  ent ← set_parameters_begin c id service_scanner
  ok (
      set_parameters_commit c id (record ent {
        unit = record (ent.unit) {
          make_model = d.make_model;
          location = d.location;
          admin_url = d.admin_url;
          icon_url = d.icon_url;
          params = scanner_params p;
        };
      }))

unfoldable pub set_faxout_parameters :
    Cache → UnitId → Described → PrinterParameters → Result Error Cache
set_faxout_parameters c id d p = do
  ent ← set_parameters_begin c id service_faxout
  ok (
      set_parameters_commit c id (record ent {
        unit = record (ent.unit) {
          make_model = d.make_model;
          location = d.location;
          admin_url = d.admin_url;
          icon_url = d.icon_url;
          ppd_manufacturer = d.ppd_manufacturer;
          ppd_model = d.ppd_model;
          params = printer_params (fixup p);
        };
      }))

-- The entry with an endpoint more in staging.
unfoldable pub add_to_ent : CacheEnt → Text → ℕ → Result Error CacheEnt
add_to_ent ent endpoint now =
    let started = staging_begin ent now in
    if endpoints_contain ent.unit.endpoints endpoint
      || endpoints_contain ent.staging_endpoints endpoint
    then err endpoint_already_added
    else ok (record started {
      staging_endpoints = (endpoints_add started.staging_endpoints endpoint).0;
    })

unfoldable pub add_endpoint : Cache → UnitId → Text → ℕ → Result Error Cache
unfolding add_to_ent
add_endpoint c id endpoint now = elim (at_key c.entries id) [
  | none ↦ err unknown_unit_id
  | some ent ↦ add_to_ent ent endpoint now >>= λ ent'. ok (changed c (put_key c.entries id ent'))
]

unfoldable pub del_from_ent : CacheEnt → Text → Result Error CacheEnt
del_from_ent ent endpoint =
    if endpoints_contain ent.unit.endpoints endpoint
    then ok (record ent {
      unit = record (ent.unit) { endpoints = (endpoints_del ent.unit.endpoints endpoint).0 };
    })
    else if endpoints_contain ent.staging_endpoints endpoint
    then ok (record ent { staging_endpoints = (endpoints_del ent.staging_endpoints endpoint).0 })
    else err unknown_endpoint

unfoldable pub del_endpoint : Cache → UnitId → Text → Result Error Cache
unfolding del_from_ent
del_endpoint c id endpoint = elim (at_key c.entries id) [
  | none ↦ err unknown_unit_id
  | some ent ↦ del_from_ent ent endpoint >>= λ ent'. ok (changed c (put_key c.entries id ent'))
]
