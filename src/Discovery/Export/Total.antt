-- ===== src/Discovery/Export/Total.antt =====
-- The type assertions of Device.Export do not panic on units with the parameters of their services.

use mfp.Discovery.Merge.Fitting.{FitsUnit, FitUnits}
use mfp.Discovery.Export.{
  empty_device, describe, faxout_class, scan_class, print_class, export_device, as_scan, as_faxout,
  as_print, units_of, export_all,
}
use mfp.Discovery.Model.{
  export_params, UnitGroup, Fits, Params, service_escl, printer_params, service_usb, service_wsd,
  service_ipp, no_params, scanner_params, service_scanner, service_faxout, service_app_socket,
  service_lpd, type_code_inj, proto_code, type_code, UnitInfo, ServiceProto, Exported, export_unit,
  ServiceType, service_printer,
}
use mfp.Base.{
  All-append, ◌++◌, arith, ◌&&◌, ◌==◌, Bool-cases, All, ◌≡◌, List, Result, inl, refl, inr, [], ◌∷◌,
  ok,
}

abbrev pub Total {ℓ κ} : {E : Type ℓ} {A : Type κ} → Result E A → Type (ℓ ⊔ κ)
Total {A} m = (a : A) × (m ≡ ok a)

-- Units of one service, with its parameters.
abbrev OfType : ServiceType → List UnitInfo → Type 0
OfType t = All (λ u. FitsUnit u × (u.id.svc_type ≡ t))

units_of-OfType :
    (t : ServiceType) (p : ServiceProto) (us : List UnitInfo)
    → FitUnits us
    → OfType t (units_of t p us)
unfolding units_of
units_of-OfType t p [] h = tt
units_of-OfType t p (u ∷ us) h =
    elim (Bool-cases
      (type_code u.id.svc_type == type_code t && proto_code u.id.svc_proto == proto_code p)) [
        | inl e ↦
            rw e ((h.0, type_code_inj u.id.svc_type t (ground arith)), units_of-OfType t p us h.1)
        | inr e ↦ rw e (units_of-OfType t p us h.1)
      ]

OfType-append :
    (t : ServiceType) (us vs : List UnitInfo) → OfType t us → OfType t vs → OfType t (us ++ vs)
OfType-append t us vs h k = All-append (λ u. FitsUnit u × (u.id.svc_type ≡ t)) us vs h k

print_class-OfType : (us : List UnitInfo) → FitUnits us → OfType service_printer (print_class us)
print_class-OfType us h =
    let of = λ (p : ServiceProto). units_of-OfType service_printer p us h in
    let join = OfType-append service_printer in
    join _ _ (of service_ipp) (
      join _ _ (of service_lpd)
        (join _ _ (of service_app_socket) (join _ _ (of service_wsd) (of service_usb))))

scan_class-OfType : (us : List UnitInfo) → FitUnits us → OfType service_scanner (scan_class us)
scan_class-OfType us h =
    let of = λ (p : ServiceProto). units_of-OfType service_scanner p us h in
    let join = OfType-append service_scanner in
    join _ _ (of service_ipp) (join _ _ (of service_escl) (of service_wsd))

module _ {E : Type 0} where
  export_all-Total :
      {A : Type 0} (assert : Exported → Result E A) (us : List UnitInfo)
      → All (λ u. Total (assert (export_unit u))) us
      → Total (export_all assert us)
  unfolding export_all
  export_all-Total assert [] h = ([], refl)
  export_all-Total assert (u ∷ us) h =
      let rest = export_all-Total assert us h.1 in (h.0.0 ∷ rest.0, rw (h.0.1, rest.1))

  print_params :
      (u : UnitInfo) (t : ServiceType) (p : Params)
      → t ≡ service_printer
      → Fits t p
      → Total {E = E} (as_print (export_params u t p))
  print_params u service_printer no_params e f = absurd f
  print_params u service_printer (printer_params p) e f = (_, refl)
  print_params u service_printer (scanner_params p) e f = absurd f
  print_params u service_scanner p e f = cc
  print_params u service_faxout p e f = cc

  prints-Total :
      (us : List UnitInfo) → OfType service_printer us → Total {E = E} (export_all as_print us)
  unfolding export_unit
  prints-Total us h = export_all-Total as_print us (each us h)
    where
      each :
          (us : List UnitInfo)
          → OfType service_printer us
          → All (λ u. Total {E = E} (as_print (export_unit u))) us
      each [] h = tt
      each (u ∷ us) h = (print_params u u.id.svc_type u.params h.0.1 h.0.0, each us h.1)

  scan_params :
      (u : UnitInfo) (t : ServiceType) (p : Params)
      → t ≡ service_scanner
      → Fits t p
      → Total {E = E} (as_scan (export_params u t p))
  scan_params u service_printer p e f = cc
  scan_params u service_scanner no_params e f = absurd f
  scan_params u service_scanner (printer_params p) e f = absurd f
  scan_params u service_scanner (scanner_params p) e f = (_, refl)
  scan_params u service_faxout p e f = cc

  scans-Total :
      (us : List UnitInfo) → OfType service_scanner us → Total {E = E} (export_all as_scan us)
  unfolding export_unit
  scans-Total us h = export_all-Total as_scan us (each us h)
    where
      each :
          (us : List UnitInfo)
          → OfType service_scanner us
          → All (λ u. Total {E = E} (as_scan (export_unit u))) us
      each [] h = tt
      each (u ∷ us) h = (scan_params u u.id.svc_type u.params h.0.1 h.0.0, each us h.1)

  faxout_params :
      (u : UnitInfo) (t : ServiceType) (p : Params)
      → t ≡ service_faxout
      → Fits t p
      → Total {E = E} (as_faxout (export_params u t p))
  faxout_params u service_printer p e f = cc
  faxout_params u service_scanner p e f = cc
  faxout_params u service_faxout no_params e f = absurd f
  faxout_params u service_faxout (printer_params p) e f = (_, refl)
  faxout_params u service_faxout (scanner_params p) e f = absurd f

  faxouts-Total :
      (us : List UnitInfo) → OfType service_faxout us → Total {E = E} (export_all as_faxout us)
  unfolding export_unit
  faxouts-Total us h = export_all-Total as_faxout us (each us h)
    where
      each :
          (us : List UnitInfo)
          → OfType service_faxout us
          → All (λ u. Total {E = E} (as_faxout (export_unit u))) us
      each [] h = tt
      each (u ∷ us) h = (faxout_params u u.id.svc_type u.params h.0.1 h.0.0, each us h.1)

  pub export_device-Total : (g : UnitGroup) → FitUnits g.units → Total {E = E} (export_device g)
  unfolding export_device
  export_device-Total g h =
      let prints = prints-Total (print_class g.units) (print_class-OfType g.units h) in
      let scans = scans-Total (scan_class g.units) (scan_class-OfType g.units h) in
      let faxouts =
        faxouts-Total (faxout_class g.units)
          (units_of-OfType service_faxout service_ipp g.units h) in
      (
        describe g.units (record (empty_device g.addrs) {
          print_units = prints.0;
          scan_units = scans.0;
          faxout_units = faxouts.0;
        }),
        rw (prints.1, scans.1, faxouts.1),
      )
