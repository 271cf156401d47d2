-- ===== src/Discovery/Export.antt =====
-- discovery/device.go: Device.Export, from units that belong together to the device that a client sees.

pub mod Total
use mfp.Uuid.{nil_uuid}
use mfp.Go.Netip.{Ip}
use mfp.Go.Text.{text_eq, Text}
use mfp.Discovery.Model.{
  proto_code, type_code, export_unit, ScanUnit, PrintUnit, FaxoutUnit, UnitInfo, ServiceProto,
  UnitGroup, ServiceType, Exported, Device, exported_scan, service_escl, service_printer,
  service_app_socket, service_ipp, service_lpd, service_faxout, exported_faxout, service_usb,
  service_scanner, exported_print, service_wsd,
}
use mfp.Base.{
  ◌==◌, ◌&&◌, ◌++◌, not, if◌then◌else◌, Result, Bool, List, false, ok, true, panic, ◌∷◌, [], ◌>>=◌,
}

-- The units of one service type and protocol.
unfoldable pub units_of : ServiceType → ServiceProto → List UnitInfo → List UnitInfo
units_of t p [] = []
units_of t p (u ∷ us) =
    if type_code u.id.svc_type == type_code t && proto_code u.id.svc_proto == proto_code p
    then u ∷ units_of t p us
    else units_of t p us

-- The type assertions, which panic on another type.
abbrev as_print : {E : Type 0} → Exported → Result E PrintUnit
as_print (exported_print p) = ok p
as_print _ = panic

abbrev as_scan : {E : Type 0} → Exported → Result E ScanUnit
as_scan (exported_scan p) = ok p
as_scan _ = panic

abbrev as_faxout : {E : Type 0} → Exported → Result E FaxoutUnit
as_faxout (exported_faxout p) = ok p
as_faxout _ = panic

pub export_all : {E A : Type 0} → (Exported → Result E A) → List UnitInfo → Result E (List A)
export_all assert [] = ok []
export_all assert (u ∷ us) = do
  a ← assert (export_unit u)
  rest ← export_all assert us
  ok (a ∷ rest)

abbrev empty_device : List Ip → Device
empty_device addrs = record {
  make_model = [];
  location = [];
  dnssd_name = [];
  dnssd_uuid = nil_uuid;
  print_admin_url = [];
  scan_admin_url = [];
  faxout_admin_url = [];
  icon_url = [];
  ppd_manufacturer = [];
  ppd_model = [];
  usb_serial = [];
  addrs = addrs;
  print_units = [];
  scan_units = [];
  faxout_units = [];
}

abbrev is_empty : Text → Bool
is_empty [] = true
is_empty (b ∷ s) = false

-- The loops over the units that fill in the metadata, one after the other.
set_make_model : Device → List UnitInfo → Device
set_make_model d [] = d
set_make_model d (u ∷ us) =
    if is_empty u.make_model then set_make_model d us else record d { make_model = u.make_model }

set_ppd : Device → List UnitInfo → Device
set_ppd d [] = d
set_ppd d (u ∷ us) =
    if not (is_empty u.ppd_manufacturer) && not (is_empty u.ppd_model)
    then record d { ppd_manufacturer = u.ppd_manufacturer; ppd_model = u.ppd_model }
    else set_ppd d us

set_dnssd : Device → List UnitInfo → Device
set_dnssd d [] = d
set_dnssd d (u ∷ us) =
    if not (is_empty u.id.dnssd_name) && not (text_eq u.id.uuid nil_uuid)
    then record d { dnssd_name = u.id.dnssd_name; dnssd_uuid = u.id.uuid }
    else set_dnssd d us

abbrev first_of : Text → Text → Text
first_of old new = if is_empty old then new else old

abbrev admin_url : Device → Text → ServiceType → Device
admin_url d url service_printer = record d { print_admin_url = first_of d.print_admin_url url }
admin_url d url service_scanner = record d { scan_admin_url = first_of d.scan_admin_url url }
admin_url d url service_faxout = record d { faxout_admin_url = first_of d.faxout_admin_url url }

set_admin_urls : Device → List UnitInfo → Device
set_admin_urls d [] = d
set_admin_urls d (u ∷ us) = set_admin_urls (admin_url d u.admin_url u.id.svc_type) us

set_place : Device → List UnitInfo → Device
set_place d [] = d
set_place d (u ∷ us) =
    let d' = record d {
      location = first_of d.location u.location;
      icon_url = first_of d.icon_url u.icon_url;
    } in
    let rest = set_place d' us in
    if not (is_empty d'.location) && not (is_empty d'.icon_url) then d' else rest

set_rest : Device → List UnitInfo → Device
set_rest d [] = d
set_rest d (u ∷ us) =
    set_rest
      (record d {
        make_model = first_of d.make_model u.make_model;
        dnssd_uuid = if text_eq d.dnssd_uuid nil_uuid then u.id.uuid else d.dnssd_uuid;
        usb_serial = if is_empty u.id.usb_serial then d.usb_serial else u.id.usb_serial;
      })
      us

abbrev pub print_class : List UnitInfo → List UnitInfo
print_class us =
    units_of service_printer service_ipp us
    ++ (units_of service_printer service_lpd us
        ++ (units_of service_printer service_app_socket us
            ++ (units_of service_printer service_wsd us
                ++ units_of service_printer service_usb us)))

abbrev pub scan_class : List UnitInfo → List UnitInfo
scan_class us =
    units_of service_scanner service_ipp us
    ++ (units_of service_scanner service_escl us ++ units_of service_scanner service_wsd us)

abbrev pub faxout_class : List UnitInfo → List UnitInfo
faxout_class us = units_of service_faxout service_ipp us

abbrev dnssd_units : List UnitInfo → List UnitInfo
dnssd_units us =
    units_of service_printer service_ipp us
    ++ (units_of service_printer service_lpd us
        ++ (units_of service_printer service_app_socket us
            ++ (units_of service_scanner service_ipp us
                ++ (units_of service_scanner service_escl us
                    ++ units_of service_faxout service_ipp us))))

abbrev classes : List UnitInfo → List UnitInfo
classes us = print_class us ++ (scan_class us ++ faxout_class us)

-- The metadata. It does not touch the lists of units.
describe : List UnitInfo → Device → Device
unfolding set_make_model set_ppd set_dnssd set_admin_urls set_place set_rest
describe us d =
    let named = set_make_model d (dnssd_units us) in
    let driver = set_ppd named (classes us) in
    let known = set_dnssd driver (dnssd_units us) in
    let admin = set_admin_urls known (dnssd_units us) in
    let placed = set_place admin (classes us) in set_rest placed (classes us)

unfoldable pub export_device : {E : Type 0} → UnitGroup → Result E Device
unfolding export_all describe
export_device g = do
  prints ← export_all as_print (print_class g.units)
  scans ← export_all as_scan (scan_class g.units)
  faxouts ← export_all as_faxout (faxout_class g.units)
  ok (
      describe g.units (record (empty_device g.addrs) {
        print_units = prints;
        scan_units = scans;
        faxout_units = faxouts;
      }))
