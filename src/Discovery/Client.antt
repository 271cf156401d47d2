-- ===== src/Discovery/Client.antt =====
-- discovery/client.go and event.go: the events that backends send, and what the client does with them.

pub mod Reachable
pub mod Published
use mfp.Go.Text.{Text}
use mfp.Discovery.Model.{Device, ScannerParameters, PrinterParameters, UnitId}
use mfp.Discovery.Merge.{Net}
use mfp.Discovery.Cache.{
  del_endpoint, add_endpoint, set_faxout_parameters, set_scanner_parameters, set_printer_parameters,
  export, del_unit, add_unit, ready_at, Error, Mode, Described, Cache,
}
use mfp.Base.{◌≡◌, List, Result, ℕ, ok}

pub data Event : Type 0 where
  add_unit_event : UnitId → Event
  del_unit_event : UnitId → Event
  printer_parameters_event : UnitId → Described → PrinterParameters → Event
  scanner_parameters_event : UnitId → Described → ScannerParameters → Event
  faxout_parameters_event : UnitId → Described → PrinterParameters → Event
  add_endpoint_event : UnitId → Text → Event
  del_endpoint_event : UnitId → Text → Event

unfoldable pub dispatch : Cache → Event → ℕ → Result Error Cache
dispatch c (add_unit_event id) now = add_unit c id
dispatch c (del_unit_event id) now = del_unit c id
dispatch c (printer_parameters_event id d p) now = set_printer_parameters c id d p
dispatch c (scanner_parameters_event id d p) now = set_scanner_parameters c id d p
dispatch c (faxout_parameters_event id d p) now = set_faxout_parameters c id d p
dispatch c (add_endpoint_event id e) now = add_endpoint c id e now
dispatch c (del_endpoint_event id e) now = del_endpoint c id e

-- An error is logged and the cache stays as it is.
unfoldable pub next_event : Cache → Event → ℕ → Cache
unfolding dispatch
next_event c evnt now = elim (dispatch c evnt now) [ ok c' ↦ c' | _ ↦ c ]

-- GetDevices asks when the cache is ready, waits, and reads it; other calls and events may come in
-- between. These are the steps of all that goes on.
pub data Step (net : Net) : Cache → Cache → Type 0 where
  event : {c : Cache} (evnt : Event) (now : ℕ) → Step net c (next_event c evnt now)
  look : {c : Cache} (m : Mode) (now : ℕ) → Step net c (ready_at c m now).1
  read :
      {c : Cache} {devices : List Device} {c' : Cache} (now : ℕ)
      → export net c now ≡ ok (devices, c')
      → Step net c c'

pub data Reach (net : Net) (start : Cache) : Cache → Type 0 where
  here : Reach net start start
  next : {c c' : Cache} → Reach net start c → Step net c c' → Reach net start c'
