-- ===== src/Discovery/Model.antt =====
-- discovery/unit.go, device.go, printer.go, scanner.go, service.go, realm.go: units and devices. The
-- bit sets and enumerations that the package only passes on are numbers.

use mfp.Go.Netip.{Ip}
use mfp.Go.Text.{text_eq_refl, text_eq_iff, text_eq, Text}
use mfp.Go.Keyed.{Key}
use mfp.Discovery.Collection.{addrs_merge, endpoints_merge}
use mfp.Base.{
  and_right, ==_refl, and_left, ◌||◌, ◌&&◌, ◌↔◌, ◌==◌, replicate, arith, ◌≡◌, ℕ, if◌then◌else◌,
  List, Bool, true,
}

pub data ServiceType : Type 0 where
  service_printer : ServiceType
  service_scanner : ServiceType
  service_faxout : ServiceType

pub data ServiceProto : Type 0 where
  service_ipp : ServiceProto
  service_escl : ServiceProto
  service_lpd : ServiceProto
  service_app_socket : ServiceProto
  service_wsd : ServiceProto
  service_usb : ServiceProto

abbrev pub type_code : ServiceType → ℕ
type_code service_printer = 0
type_code service_scanner = 1
type_code service_faxout = 2

abbrev pub proto_code : ServiceProto → ℕ
proto_code service_ipp = 0
proto_code service_escl = 1
proto_code service_lpd = 2
proto_code service_app_socket = 3
proto_code service_wsd = 4
proto_code service_usb = 5

-- SearchRealm, an int
abbrev pub realm_invalid : ℕ
realm_invalid = 0

pub record UnitId : Type 0 where
  pub dnssd_name : Text
  pub uuid : Text
  pub queue : Text
  pub realm : ℕ
  pub zone : Text
  pub variant : Text
  pub svc_type : ServiceType
  pub svc_proto : ServiceProto
  pub usb_serial : Text

-- uuid.NilUUID
abbrev pub nil_uuid : Text
nil_uuid = replicate 16 0

-- `==`, in two parts
abbrev NamesEq : UnitId → UnitId → Type 0
NamesEq a b =
    (a.dnssd_name ≡ b.dnssd_name)
    × (a.uuid ≡ b.uuid)
    × (a.queue ≡ b.queue)
    × (a.zone ≡ b.zone)
    × (a.variant ≡ b.variant)

names_eq : UnitId → UnitId → Bool
names_eq a b =
    text_eq a.dnssd_name b.dnssd_name
    && text_eq a.uuid b.uuid
    && text_eq a.queue b.queue
    && text_eq a.zone b.zone
    && text_eq a.variant b.variant

service_eq : UnitId → UnitId → Bool
service_eq a b =
    a.realm == b.realm
    && type_code a.svc_type == type_code b.svc_type
    && proto_code a.svc_proto == proto_code b.svc_proto
    && text_eq a.usb_serial b.usb_serial

unfoldable pub unit_id_eq : UnitId → UnitId → Bool
unfolding names_eq service_eq
unit_id_eq a b = names_eq a b && service_eq a b

unfoldable pub same_device : UnitId → UnitId → Bool
same_device a b =
    text_eq a.uuid b.uuid
    || text_eq a.dnssd_name b.dnssd_name && a.realm == b.realm && text_eq a.zone b.zone

unfoldable pub same_service : UnitId → UnitId → Bool
same_service a b = type_code a.svc_type == type_code b.svc_type && same_device a b

unfoldable pub same_unit : UnitId → UnitId → Bool
same_unit a b = text_eq a.queue b.queue && same_service a b

pub record PrinterParameters : Type 0 where
  pub auth : ℕ
  pub paper : ℕ
  pub media : ℕ
  pub bind : ℕ
  pub collate : ℕ
  pub color : ℕ
  pub copies : ℕ
  pub duplex : ℕ
  pub punch : ℕ
  pub sorting : ℕ
  pub staple : ℕ
  pub ps_product : Text
  pub pdl : List Text
  pub queue : Text
  pub priority : ℕ

-- AuthNone and MediaOther are both the bit 1.
unfoldable pub fixup : PrinterParameters → PrinterParameters
fixup p = record p {
  auth = if p.auth == 0 then 1 else p.auth;
  media = if p.media == 0 then 1 else p.media;
}

pub record ScannerParameters : Type 0 where
  pub duplex : ℕ
  pub sources : ℕ
  pub colors : ℕ
  pub pdl : List Text

-- `any`: nil, PrinterParameters or ScannerParameters
pub data Params : Type 0 where
  no_params : Params
  printer_params : PrinterParameters → Params
  scanner_params : ScannerParameters → Params

pub record UnitInfo : Type 0 where
  pub id : UnitId
  pub make_model : Text
  pub location : Text
  pub admin_url : Text
  pub icon_url : Text
  pub ppd_manufacturer : Text
  pub ppd_model : Text
  pub params : Params
  pub endpoints : List Text
  pub addrs : List Ip

pub record PrintUnit : Type 0 where
  pub proto : ServiceProto
  pub params : PrinterParameters
  pub endpoints : List Text

pub record ScanUnit : Type 0 where
  pub proto : ServiceProto
  pub params : ScannerParameters
  pub endpoints : List Text

pub record FaxoutUnit : Type 0 where
  pub proto : ServiceProto
  pub params : PrinterParameters
  pub endpoints : List Text

-- What `unit.Export` gives as `any`.
pub data Exported : Type 0 where
  exported_nil : Exported
  exported_print : PrintUnit → Exported
  exported_scan : ScanUnit → Exported
  exported_faxout : FaxoutUnit → Exported

unfoldable pub merge_unit : UnitInfo → UnitInfo → UnitInfo
merge_unit u v = record u {
  endpoints = endpoints_merge u.endpoints v.endpoints;
  addrs = addrs_merge u.addrs v.addrs;
}

abbrev pub export_params : UnitInfo → ServiceType → Params → Exported
export_params u service_printer (printer_params p) =
    exported_print (record { proto = u.id.svc_proto; params = p; endpoints = u.endpoints })
export_params u service_faxout (printer_params p) =
    exported_faxout (record { proto = u.id.svc_proto; params = p; endpoints = u.endpoints })
export_params u t (scanner_params p) =
    exported_scan (record { proto = u.id.svc_proto; params = p; endpoints = u.endpoints })
export_params u t p = exported_nil

unfoldable pub export_unit : UnitInfo → Exported
export_unit u = export_params u u.id.svc_type u.params

pub record Device : Type 0 where
  pub make_model : Text
  pub location : Text
  pub dnssd_name : Text
  pub dnssd_uuid : Text
  pub print_admin_url : Text
  pub scan_admin_url : Text
  pub faxout_admin_url : Text
  pub icon_url : Text
  pub ppd_manufacturer : Text
  pub ppd_model : Text
  pub usb_serial : Text
  pub addrs : List Ip
  pub print_units : List PrintUnit
  pub scan_units : List ScanUnit
  pub faxout_units : List FaxoutUnit

-- The struct `device`: units that are found to belong together.
pub record UnitGroup : Type 0 where
  pub realm : ℕ
  pub uuid : Text
  pub units : List UnitInfo
  pub addrs : List Ip

pub type_code_inj : (s t : ServiceType) → type_code s ≡ type_code t → s ≡ t
type_code_inj s t e = ground arith

proto_code_inj : (s t : ServiceProto) → proto_code s ≡ proto_code t → s ≡ t
proto_code_inj s t e = ground arith

names_eq-NamesEq : (a b : UnitId) → names_eq a b ≡ true → NamesEq a b
unfolding names_eq
names_eq-NamesEq a b h = (
  ground (arith, text_eq_iff a.dnssd_name b.dnssd_name),
  ground (arith, text_eq_iff a.uuid b.uuid),
  ground (arith, text_eq_iff a.queue b.queue),
  ground (arith, text_eq_iff a.zone b.zone),
  ground (arith, text_eq_iff a.variant b.variant),
)

service_eq_parts :
    (a b : UnitId)
    → service_eq a b ≡ true
    → (a.realm ≡ b.realm)
      × (a.svc_type ≡ b.svc_type)
      × (a.svc_proto ≡ b.svc_proto)
      × (a.usb_serial ≡ b.usb_serial)
unfolding service_eq
service_eq_parts a b h = (
  ground arith,
  type_code_inj a.svc_type b.svc_type (ground arith),
  proto_code_inj a.svc_proto b.svc_proto (ground arith),
  ground (arith, text_eq_iff a.usb_serial b.usb_serial),
)

unit_id_eq_refl : (a : UnitId) → unit_id_eq a a ≡ true
unfolding unit_id_eq names_eq service_eq
unit_id_eq_refl a = simp (text_eq_refl, ==_refl)

pub unit_id_eq_iff : (a b : UnitId) → (unit_id_eq a b ≡ true) ↔ (a ≡ b)
unit_id_eq_iff a b = (
  λ h.
      let n =
        names_eq-NamesEq a b (unfold unit_id_eq in and_left (names_eq a b) (service_eq a b) h) in
      let t =
        service_eq_parts a b (unfold unit_id_eq in and_right (names_eq a b) (service_eq a b) h) in
      cc,
  λ e. rw e (unit_id_eq_refl b),
)

instance abbrev pub unit_id_key : Key UnitId
unit_id_key = record { same = unit_id_eq; same_iff = unit_id_eq_iff }

-- The parameters are those of the service.
abbrev pub Fits : ServiceType → Params → Type 0
Fits service_printer (printer_params p) = Unit {0}
Fits service_faxout (printer_params p) = Unit {0}
Fits service_scanner (scanner_params p) = Unit {0}
Fits _ _ = ⊥
