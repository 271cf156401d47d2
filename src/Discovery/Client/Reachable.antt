-- ===== src/Discovery/Client/Reachable.antt =====
-- What holds of every cache that a client can reach.

use mfp.Discovery.Model.{Device}
use mfp.Discovery.Cache.Operations.{
  del_endpoint-IsValid, add_endpoint-IsValid, set_faxout_parameters-IsValid,
  set_scanner_parameters-IsValid, set_printer_parameters-IsValid, del_unit-IsValid,
  new_cache-IsValid, add_unit-IsValid,
}
use mfp.Discovery.Cache.Exports.{export-total, ready_at-IsValid}
use mfp.Discovery.Cache.Invariant.{IsValid}
use mfp.Discovery.Cache.{export, new_cache, Error, Cache}
use mfp.Discovery.Merge.{Net}
use mfp.Discovery.Client.{
  Step, Reach, Event, next_event, dispatch, del_endpoint_event, faxout_parameters_event,
  scanner_parameters_event, add_endpoint_event, add_unit_event, printer_parameters_event,
  del_unit_event,
}
use mfp.Base.{◌≡◌, List, Ends, ℕ, Result, err, panic, stuck, ok}

dispatch-IsValid :
    (c : Cache) (evnt : Event) (now : ℕ) → IsValid c → Ends (dispatch c evnt now) IsValid
unfolding dispatch
dispatch-IsValid c (add_unit_event id) now v = add_unit-IsValid c v id
dispatch-IsValid c (del_unit_event id) now v = del_unit-IsValid c v id
dispatch-IsValid c (printer_parameters_event id d p) now v =
    set_printer_parameters-IsValid c v id d p
dispatch-IsValid c (scanner_parameters_event id d p) now v =
    set_scanner_parameters-IsValid c v id d p
dispatch-IsValid c (faxout_parameters_event id d p) now v = set_faxout_parameters-IsValid c v id d p
dispatch-IsValid c (add_endpoint_event id e) now v = add_endpoint-IsValid c v id e now
dispatch-IsValid c (del_endpoint_event id e) now v = del_endpoint-IsValid c v id e

settled :
    (m : Result Error Cache) (c : Cache)
    → Ends m IsValid
    → IsValid c
    → let d : Cache = elim m [ ok c' ↦ c' | _ ↦ c ] in IsValid d
settled (ok c') c h v = h
settled (err e) c h v = v
settled panic c h v = v
settled stuck c h v = v

next_event-IsValid :
    (c : Cache) (evnt : Event) (now : ℕ) → IsValid c → IsValid (next_event c evnt now)
unfolding next_event
next_event-IsValid c evnt now v = settled (dispatch c evnt now) c (dispatch-IsValid c evnt now v) v

Step-IsValid : {net : Net} {c c' : Cache} → Step net c c' → IsValid c → IsValid c'
Step-IsValid (Step.event evnt now) v = next_event-IsValid _ evnt now v
Step-IsValid (Step.look m now) v = ready_at-IsValid _ m now v
Step-IsValid {net} {c} {c'} (Step.read now e) v =
    let r = export-total net c now v in
    let same : r.1.0 ≡ c' = cc (r.1.1.0, e) in rw (← same) r.1.1.1

-- Whatever events come, in any order and at any times, and whenever the cache is asked or read: it
-- has one entry for each ID, under the ID of its unit; the endpoints of an entry are sorted, and none
-- is both published and in staging; what is in staging has a time at which it is due; and the
-- parameters of a unit are those of its service.
pub Reach-IsValid : {net : Net} (start : ℕ) {c : Cache} → Reach net (new_cache start) c → IsValid c
Reach-IsValid start Reach.here = new_cache-IsValid start
Reach-IsValid start (Reach.next r s) = Step-IsValid s (Reach-IsValid start r)

-- Export gives devices for every cache that a client can reach: its type assertions do not panic.
pub Reach-export_total :
    {net : Net} (start : ℕ) {c : Cache}
    → Reach net (new_cache start) c
    → (now : ℕ) → (devices : List Device) × ((c' : Cache) × (export net c now ≡ ok (devices, c')))
Reach-export_total {net} start {c} r now =
    let t = export-total net c now (Reach-IsValid start r) in (t.0, (t.1.0, t.1.1.0))
