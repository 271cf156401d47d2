-- ===== src/Discovery/Cache/Operations.antt =====
-- Every operation of the cache keeps its invariant.

use mfp.Go.Keyed.{
  Every-at_key, Every-put_key, Every-drop_key, put_key-OneEach, drop_key-OneEach, put_key, at_key,
}
use mfp.Go.Text.{Text}
use mfp.Discovery.Cache.Invariant.{
  del_from_ent-EntIsValid, add_to_ent-EntIsValid, EntIsValid, IsValid,
}
use mfp.Discovery.Cache.{
  Described, set_scanner_parameters, set_printer_parameters, set_faxout_parameters, del_from_ent,
  del_endpoint, add_to_ent, changed, set_parameters_begin, del_unit, add_unit, add_endpoint,
  CacheEnt, new_cache, Cache,
}
use mfp.Discovery.Model.{
  Fits, type_code_inj, fixup, type_code, ScannerParameters, PrinterParameters, Params,
  scanner_params, service_printer, service_scanner, printer_params, service_faxout, ServiceType,
  UnitId, unit_id_key,
}
use mfp.Base.{
  ==_iff, ◌∙◌, sym, ap, ◌==◌, arith, Ends_from, ◌≢◌, Ends-bind, Bool-cases, true, stuck, ◌≡◌,
  Option-cases, Ends, ℕ, refl, inl, inr,
}

add_to_ent-ne-stuck : (ent : CacheEnt) (e : Text) (now : ℕ) → add_to_ent ent e now ≢ stuck
unfolding add_to_ent
add_to_ent-ne-stuck ent e now h = ground arith

del_from_ent-ne-stuck : (ent : CacheEnt) (e : Text) → del_from_ent ent e ≢ stuck
unfolding del_from_ent
del_from_ent-ne-stuck ent e h = ground arith

put-IsValid :
    (c : Cache) (id : UnitId) (ent : CacheEnt)
    → IsValid c
    → EntIsValid id ent
    → IsValid (changed c (put_key c.entries id ent))
put-IsValid c id ent v w = record {
  one_each = put_key-OneEach c.entries id ent v.one_each;
  every = Every-put_key EntIsValid c.entries id ent v.every w;
}

pub new_cache-IsValid : (now : ℕ) → IsValid (new_cache now)
unfolding new_cache
new_cache-IsValid now = record { one_each = tt; every = tt }

module _ (c : Cache) (v : IsValid c) (id : UnitId) where
  pub add_unit-IsValid : Ends (add_unit c id) IsValid
  unfolding add_unit
  add_unit-IsValid = elim (Option-cases (at_key c.entries id)) [
    | inl e ↦
        rw (e, Ends)
          (put-IsValid c id _ v (record {
            same_id = refl;
            published = tt;
            staged = tt;
            disjoint = λ e h. cc;
            timed = λ h. cc;
            typed = λ h. cc;
          }))
    | inr (ent, e) ↦ rw (e, Ends) tt
  ]

  pub del_unit-IsValid : Ends (del_unit c id) IsValid
  unfolding del_unit
  del_unit-IsValid = elim (Option-cases (at_key c.entries id)) [
    | inl e ↦ rw (e, Ends) tt
    | inr (ent, e) ↦
        rw (e, Ends)
          (record {
            one_each = drop_key-OneEach c.entries id v.one_each;
            every = Every-drop_key EntIsValid c.entries id v.every;
          })
  ]

  described :
      (ent : CacheEnt)
      → EntIsValid id ent
      → (p : Params) (mm loc admin icon ppdm ppdn : Text) → Fits id.svc_type p
      → EntIsValid id (record ent {
        unit = record (ent.unit) {
          make_model = mm;
          location = loc;
          admin_url = admin;
          icon_url = icon;
          ppd_manufacturer = ppdm;
          ppd_model = ppdn;
          params = p;
        };
        has_params = true;
      })
  described ent w p mm loc admin icon ppdm ppdn f = record {
    same_id = w.same_id;
    published = w.published;
    staged = w.staged;
    disjoint = w.disjoint;
    timed = w.timed;
    typed = λ h. f;
  }

  -- The entry that is found is valid, and its unit has the service.
  begun :
      (t : ServiceType)
      → Ends (set_parameters_begin c id t) (λ ent. EntIsValid id ent × (id.svc_type ≡ t))
  unfolding set_parameters_begin
  begun t = elim (Option-cases (at_key c.entries id)) [
    | inl e ↦ rw (e, Ends) tt
    | inr (ent, e) ↦
        let w = Every-at_key EntIsValid c.entries id ent v.every e in
        elim (Bool-cases (type_code ent.unit.id.svc_type == type_code t)) [
          | inl s ↦
              rw (e, Ends)
                (rw (s, Ends)
                  (
                    w,
                    ap UnitId.svc_type (sym w.same_id)
                        ∙ type_code_inj ent.unit.id.svc_type t ((==_iff _ _).0 s),
                  ))
          | inr s ↦ rw (e, Ends) (rw (s, Ends) tt)
        ]
  ]

  pub set_printer_parameters-IsValid :
      (d : Described) (p : PrinterParameters) → Ends (set_printer_parameters c id d p) IsValid
  unfolding set_printer_parameters
  set_printer_parameters-IsValid d p =
      Ends-bind (set_parameters_begin c id service_printer) _ _ IsValid (begun service_printer)
        (λ ent w. put-IsValid c id _ v (
          described ent w.0 (printer_params (fixup p)) d.make_model d.location d.admin_url
            d.icon_url d.ppd_manufacturer d.ppd_model (rw w.1 tt)))

  pub set_faxout_parameters-IsValid :
      (d : Described) (p : PrinterParameters) → Ends (set_faxout_parameters c id d p) IsValid
  unfolding set_faxout_parameters
  set_faxout_parameters-IsValid d p =
      Ends-bind (set_parameters_begin c id service_faxout) _ _ IsValid (begun service_faxout)
        (λ ent w. put-IsValid c id _ v (
          described ent w.0 (printer_params (fixup p)) d.make_model d.location d.admin_url
            d.icon_url d.ppd_manufacturer d.ppd_model (rw w.1 tt)))

  pub set_scanner_parameters-IsValid :
      (d : Described) (p : ScannerParameters) → Ends (set_scanner_parameters c id d p) IsValid
  unfolding set_scanner_parameters
  set_scanner_parameters-IsValid d p =
      Ends-bind (set_parameters_begin c id service_scanner) _ _ IsValid (begun service_scanner)
        (λ ent w. put-IsValid c id _ v (
          described ent w.0 (scanner_params p) d.make_model d.location d.admin_url d.icon_url
            ent.unit.ppd_manufacturer ent.unit.ppd_model (rw w.1 tt)))

  pub add_endpoint-IsValid : (e : Text) (now : ℕ) → Ends (add_endpoint c id e now) IsValid
  unfolding add_endpoint
  add_endpoint-IsValid endpoint now = elim (Option-cases (at_key c.entries id)) [
    | inl e ↦ rw (e, Ends) tt
    | inr (ent, e) ↦
        let w = Every-at_key EntIsValid c.entries id ent v.every e in
        rw (e, Ends)
          (Ends-bind (add_to_ent ent endpoint now) _ (EntIsValid id) IsValid
            (Ends_from (add_to_ent ent endpoint now) (EntIsValid id)
              (add_to_ent-ne-stuck ent endpoint now) (add_to_ent-EntIsValid id ent w endpoint now))
            (λ ent' w'. put-IsValid c id ent' v w'))
  ]

  pub del_endpoint-IsValid : (e : Text) → Ends (del_endpoint c id e) IsValid
  unfolding del_endpoint
  del_endpoint-IsValid endpoint = elim (Option-cases (at_key c.entries id)) [
    | inl e ↦ rw (e, Ends) tt
    | inr (ent, e) ↦
        let w = Every-at_key EntIsValid c.entries id ent v.every e in
        rw (e, Ends)
          (Ends-bind (del_from_ent ent endpoint) _ (EntIsValid id) IsValid
            (Ends_from (del_from_ent ent endpoint) (EntIsValid id)
              (del_from_ent-ne-stuck ent endpoint) (del_from_ent-EntIsValid id ent w endpoint))
            (λ ent' w'. put-IsValid c id ent' v w'))
  ]
