-- ===== src/Discovery/Cache/Exports.antt =====
-- ReadyAt and Export keep the invariant, and Export gives devices for every valid cache.

use mfp.Discovery.Output.Complete.{generate-total}
use mfp.Discovery.Merge.{Net}
use mathlib.Core.Path.{subst}
use mfp.Discovery.Output.{cached}
use mfp.Discovery.Merge.Fitting.{FitsUnit, FitUnits}
use mfp.Discovery.Cache.Invariant.{staging_check-EntIsValid, ready-EntIsValid, EntIsValid, IsValid}
use mfp.Go.Keyed.{OneEach, Every, at_key}
use mfp.Discovery.Cache.{
  Error, far_future, export, time_latest, time_earliest, staging_in_progress, CacheEnt, staging_end,
  Mode, Entries, staging_check, Cache, ready_loop, ready_at, ready, export_loop, mode_snapshot,
  mode_wait_incomplete, mode_normal,
}
use mfp.Discovery.Model.{Device, UnitInfo, Fits, UnitId, unit_id_key}
use mfp.Base.{
  ◌+◌, sym, List, ok, false, some, ◌&&◌, if◌then◌else◌, arith, Bool, ◌≡◌, Option-cases, ℕ, inl,
  true, ◌∷◌, inr, refl, none, [],
}

-- What the loops carry from one entry to the next.
abbrev next_time : ℕ → CacheEnt → ℕ
next_time time ent = if staging_in_progress ent then time_latest time ent.staging_done_at else time

abbrev pub next_ttl : ℕ → CacheEnt × Bool → ℕ
next_ttl ttl r =
    if r.1 && staging_in_progress r.0 then time_earliest ttl r.0.staging_done_at else ttl

ready_loop-none :
    (es : Entries) (time now : ℕ) (k : UnitId)
    → at_key es k ≡ none
    → at_key (ready_loop time es now).1 k ≡ none
unfolding ready_loop at_key
ready_loop-none [] time now k h = refl
ready_loop-none ((id, ent) ∷ es) time now k h =
    ground (arith, ready_loop-none es (next_time time (staging_check ent now)) now k)

ready_loop-OneEach : (es : Entries) (time now : ℕ) → OneEach es → OneEach (ready_loop time es now).1
unfolding ready_loop
ready_loop-OneEach [] time now h = tt
ready_loop-OneEach ((id, ent) ∷ es) time now h = (
  ready_loop-none es (next_time time (staging_check ent now)) now id h.0,
  ready_loop-OneEach es (next_time time (staging_check ent now)) now h.1,
)

ready_loop-Every :
    (es : Entries) (time now : ℕ)
    → Every EntIsValid es
    → Every EntIsValid (ready_loop time es now).1
unfolding ready_loop
ready_loop-Every [] time now h = tt
ready_loop-Every ((id, ent) ∷ es) time now h = (
  staging_check-EntIsValid id ent h.0 now,
  ready_loop-Every es (next_time time (staging_check ent now)) now h.1,
)

pub ready_at-IsValid : (c : Cache) (m : Mode) (now : ℕ) → IsValid c → IsValid (ready_at c m now).1
unfolding ready_at
ready_at-IsValid c mode_normal now v = v
ready_at-IsValid c mode_snapshot now v = v
ready_at-IsValid c mode_wait_incomplete now v = elim (Option-cases (cached c.out now)) [
  | inl e ↦
      rw (e, ready_at)
        (record {
          one_each = ready_loop-OneEach c.entries c.ready_at now v.one_each;
          every = ready_loop-Every c.entries c.ready_at now v.every;
        })
  | inr (ds, e) ↦ rw (e, ready_at) v
]

export_loop-none :
    (es : Entries) (ttl now : ℕ) (k : UnitId)
    → at_key es k ≡ none
    → at_key (export_loop ttl es now).2 k ≡ none
unfolding export_loop at_key
export_loop-none [] ttl now k h = refl
export_loop-none ((id, ent) ∷ es) ttl now k h =
    ground (arith, export_loop-none es (next_ttl ttl (ready ent now)) now k)

export_loop-OneEach : (es : Entries) (ttl now : ℕ) → OneEach es → OneEach (export_loop ttl es now).2
unfolding export_loop
export_loop-OneEach [] ttl now h = tt
export_loop-OneEach ((id, ent) ∷ es) ttl now h = (
  export_loop-none es (next_ttl ttl (ready ent now)) now id h.0,
  export_loop-OneEach es (next_ttl ttl (ready ent now)) now h.1,
)

export_loop-Every :
    (es : Entries) (ttl now : ℕ) → Every EntIsValid es → Every EntIsValid (export_loop ttl es now).2
unfolding export_loop
export_loop-Every [] ttl now h = tt
export_loop-Every ((id, ent) ∷ es) ttl now h =
    (ready-EntIsValid id ent h.0 now, export_loop-Every es (next_ttl ttl (ready ent now)) now h.1)

ready_has_params :
    (ent : CacheEnt) (now : ℕ) → (ready ent now).1 ≡ true → (ready ent now).0.has_params ≡ true
unfolding ready staging_check staging_end
ready_has_params ent now h = ground arith

ready-FitsUnit :
    (id : UnitId) (ent : CacheEnt) (now : ℕ)
    → EntIsValid id ent
    → (ready ent now).1 ≡ true
    → FitsUnit (ready ent now).0.unit
ready-FitsUnit id ent now v h =
    let w = ready-EntIsValid id ent v now in
    subst (λ (i : UnitId). Fits i.svc_type (ready ent now).0.unit.params) (sym w.same_id)
      (w.typed (ready_has_params ent now h))

FitUnits-if :
    (b : Bool) (u : UnitInfo) (us : List UnitInfo)
    → (b ≡ true → FitsUnit u)
    → FitUnits us
    → FitUnits (if b then u ∷ us else us)
FitUnits-if true u us h k = (h refl, k)
FitUnits-if false u us h k = k

export_loop-FitUnits :
    (es : Entries) (ttl now : ℕ) → Every EntIsValid es → FitUnits (export_loop ttl es now).0
unfolding export_loop
export_loop-FitUnits [] ttl now h = tt
export_loop-FitUnits ((id, ent) ∷ es) ttl now h =
    FitUnits-if (ready ent now).1 (ready ent now).0.unit _ (ready-FitsUnit id ent now h.0)
      (export_loop-FitUnits es (next_ttl ttl (ready ent now)) now h.1)

-- Export gives devices, and a valid cache.
pub export-total :
    (net : Net) (c : Cache) (now : ℕ)
    → IsValid c
    → (devices : List Device) × ((c' : Cache) × ((export net c now ≡ ok (devices, c'))
          × IsValid c'))
unfolding export
export-total net c now v = elim (Option-cases (cached c.out now)) [
  | inl e ↦
      let r = export_loop (now + far_future) c.entries now in
      let made =
        generate-total {E = Error} net r.1 r.0
          (export_loop-FitUnits c.entries (now + far_future) now v.every) in
      (
        made.0,
        (
          record c { entries = r.2; out = record { devices = some made.0; ttl = r.1 } },
          (
            rw (e, export, made.1),
            record {
              one_each = export_loop-OneEach c.entries (now + far_future) now v.one_each;
              every = export_loop-Every c.entries (now + far_future) now v.every;
            },
          ),
        ),
      )
  | inr (ds, e) ↦ (ds, (c, (rw (e, export), v)))
]
