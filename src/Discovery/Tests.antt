-- ===== src/Discovery/Tests.antt =====
-- A printer that is found at two addresses, and runs of the definitions on it.

use mfp.Discovery.Export.{units_of, export_device}
use mfp.Discovery.Collection.Laws.{collection_as_set, Ascending, same, has}
use mfp.Discovery.Client.Reachable.{Reach-export_total, Reach-IsValid}
use mfp.Discovery.Cache.Publishing.{export_stale}
use mfp.Discovery.Client.Published.{add_endpoint_published, report_endpoints}
use mfp.Go.Keyed.{put_key, at_key}
use mfp.Discovery.Output.{generate, cached}
use mfp.Discovery.Cache.Invariant.{IsValid}
use mfp.Discovery.Client.{dispatch, Step, next_event, Reach, add_unit_event}
use mfp.Go.Text.{Text, text_eq, codes}
use mfp.Discovery.Merge.{
  gen_merge_unit_cross_zones, gen_extract_ip_addresses, gen_merge_unit_variants,
  gen_merge_devices_by_name_uuid, gen_merge_devices_by_uuid, Net,
}
use mfp.Discovery.Cache.{
  add_to_ent, ready, export_loop, staging_begin, new_cache, ready_at, mode_wait_incomplete, Error,
  blank_unit, export, add_endpoint, Described, CacheEnt, Cache,
}
use mfp.Discovery.Model.{
  export_unit, unit_id_eq, Device, nil_uuid, UnitId, PrinterParameters, printer_params,
  service_printer, service_ipp, unit_id_key,
}
use mfp.Discovery.Collection.{
  collection_del, collection_merge, collection_add, collection_contain, text_order,
}
use mfp.Base.{
  ◌&&◌, not, ◌||◌, arith, ◌≡◌, ◌+◌, refl, ok, List, if◌then◌else◌, ◌*◌, Result, ℕ, ◌∷◌, [], true,
  none, some, false,
}

-- Every endpoint is at the same host, which is 10.0.0.1.
abbrev net : Net
net = record {
  parse_url = λ s. some (codes "ipp", codes "10.0.0.1:631");
  parse_addr = λ s.
      if text_eq s (codes "10.0.0.1")
      then some (record { is6 = false; value = 0x0a000001; zone = [] })
      else none;
}

abbrev printer : UnitId
printer = record {
  dnssd_name = codes "Kyocera";
  uuid = nil_uuid;
  queue = [];
  realm = 1;
  zone = [];
  variant = [];
  svc_type = service_printer;
  svc_proto = service_ipp;
  usb_serial = [];
}

abbrev described : Described
described = record {
  make_model = codes "Kyocera M2040dn";
  location = [];
  admin_url = [];
  icon_url = [];
  ppd_manufacturer = [];
  ppd_model = [];
}

abbrev parameters : PrinterParameters
parameters = record {
  auth = 0;
  paper = 2;
  media = 0;
  bind = 0;
  collate = 0;
  color = 2;
  copies = 0;
  duplex = 2;
  punch = 0;
  sorting = 0;
  staple = 0;
  ps_product = [];
  pdl = [];
  queue = [];
  priority = 0;
}

abbrev second : ℕ
second = 1000000000

abbrev ent : CacheEnt
ent = record {
  unit = record (blank_unit printer) {
    make_model = codes "Kyocera M2040dn";
    params = printer_params parameters;
    endpoints = codes "ipp://a" ∷ [];
  };
  has_params = true;
  staging_endpoints = [];
  staging_done_at = 0;
}

abbrev cache : Cache
cache = record {
  ready_at = 5 * second;
  entries = (printer, ent) ∷ [];
  out = record { devices = none; ttl = 0 };
}

abbrev second_url : Text
second_url = codes "ipp://b"

abbrev cache_of : Result Error (List Device × Cache) → Cache
cache_of (ok r) = r.1
cache_of _ = cache

abbrev devices_of : Result Error (List Device × Cache) → List Device
devices_of (ok r) = r.0
devices_of _ = []

abbrev staged_ent : CacheEnt
staged_ent = record ent { staging_endpoints = second_url ∷ []; staging_done_at = 11 * second }

-- The cache with the second endpoint in staging, due one second later.
abbrev staging : Cache
staging = record {
  ready_at = 5 * second;
  entries = (printer, staged_ent) ∷ [];
  out = record { devices = none; ttl = 0 };
}

adds : add_endpoint cache printer second_url (10 * second) ≡ ok staging
unfolding add_endpoint at_key unit_id_eq collection_contain put_key staging_begin collection_add
adds = refl

-- Two more endpoints come before the second is due, one of them a second time.
abbrev later_ones : List (UnitId × Text × ℕ)
later_ones =
    (printer, codes "ipp://c", 10 * second + 5) ∷ (printer, second_url, 10 * second + 7) ∷ []

-- It is read before the endpoint is due, and when it is.
early : Result Error (List Device × Cache)
unfolding export
early = export net staging (10 * second + 1)

due : Result Error (List Device × Cache)
unfolding export
due = export net (report_endpoints staging later_ones) (11 * second)

reads_early : export net staging (10 * second + 1) ≡ ok (devices_of early, cache_of early)
unfolding export early cached generate gen_merge_devices_by_uuid gen_merge_devices_by_name_uuid
    gen_merge_unit_variants gen_extract_ip_addresses export_loop ready at_key put_key export_device
    units_of gen_merge_unit_cross_zones export_unit
reads_early = refl

reads_due :
    export net (report_endpoints staging later_ones) (11 * second)
    ≡ ok (devices_of due, cache_of due)
unfolding export due next_event dispatch add_endpoint add_to_ent staging_begin collection_contain
    collection_add unit_id_eq cached generate gen_merge_devices_by_uuid
    gen_merge_devices_by_name_uuid gen_merge_unit_variants gen_extract_ip_addresses export_loop
    ready collection_merge at_key put_key export_device units_of gen_merge_unit_cross_zones
    export_unit
reads_due = refl

found : at_key cache.entries printer ≡ some ent
unfolding at_key unit_id_eq
found = refl

add_endpoint_published_example :
    (ent' : CacheEnt) × (at_key (cache_of due).entries printer ≡ some ent')
    × (has ent'.unit.endpoints second_url ≡ true)
    × (ent'.staging_endpoints ≡ [])
add_endpoint_published_example =
    add_endpoint_published net cache staging (cache_of due) printer ent second_url (10 * second)
      (11 * second) later_ones (devices_of due) found refl (omega arith) adds (omega arith)
      reads_due

not_kept : cached staging.out (10 * second + 1) ≡ none
unfolding cached
not_kept = refl

waiting : at_key staging.entries printer ≡ some staged_ent
unfolding at_key unit_id_eq
waiting = refl

export_stale_example :
    (export net (cache_of early) (11 * second) ≡ ok (devices_of early, cache_of early))
    × (at_key (cache_of early).entries printer ≡ some staged_ent)
export_stale_example =
    export_stale net staging (cache_of early) printer staged_ent (10 * second + 1) (11 * second)
      (devices_of early) waiting refl refl (omega arith) not_kept reads_early (omega arith)

-- A unit is announced, then the cache is asked when it is ready.
abbrev announced : Cache
announced = next_event (new_cache second) (add_unit_event printer) (2 * second)

abbrev asked : Cache
asked = (ready_at announced mode_wait_incomplete (3 * second)).1

abbrev path : Reach net (new_cache second) asked
path =
    Reach.next (Reach.next Reach.here (Step.event (add_unit_event printer) (2 * second)))
      (Step.look mode_wait_incomplete (3 * second))

Reach-IsValid_example : IsValid asked
Reach-IsValid_example = Reach-IsValid second path

Reach-export_total_example :
    (devices : List Device) × ((c' : Cache) × (export net asked (3 * second) ≡ ok (devices, c')))
Reach-export_total_example = Reach-export_total second path (3 * second)

abbrev urls : List Text
urls = codes "ipp://a" ∷ codes "ipp://c" ∷ []

merges :
    collection_merge urls (second_url ∷ []) ≡ codes "ipp://a" ∷ second_url ∷ codes "ipp://c" ∷ []
unfolding collection_merge
merges = refl

collection_as_set_example :
    ((collection_contain urls second_url ≡ has urls second_url)
      × (has (collection_add urls second_url).0 second_url
          ≡ (same second_url second_url || has urls second_url))
      × (has (collection_del urls second_url).0 second_url
          ≡ (not (same second_url second_url) && has urls second_url))
      × (has (collection_merge urls (second_url ∷ [])) second_url
          ≡ (has urls second_url || has (second_url ∷ []) second_url)))
    × (Ascending (collection_add urls second_url).0
        × Ascending (collection_del urls second_url).0
        × Ascending (collection_merge urls (second_url ∷ [])))
collection_as_set_example =
    collection_as_set urls (second_url ∷ []) second_url second_url ((refl, tt), (tt, tt)) (tt, tt)
