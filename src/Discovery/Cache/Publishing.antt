-- ===== src/Discovery/Cache/Publishing.antt =====
-- When the endpoints of a unit are published, and the output that Export keeps.

use mfp.Discovery.Cache.Invariant.{add_to_ent_ok, with_staged}
use mfp.Discovery.Collection.Laws.{same_iff, has-collection_add, has-collection_merge, has}
use mfp.Go.Text.{Text}
use mfp.Discovery.Cache.Exports.{next_ttl}
use mfp.Discovery.Output.Complete.{generate_kept}
use mfp.Go.Keyed.{put_key, at_key}
use mfp.Discovery.Merge.{Net}
use mfp.Discovery.Output.{Output, generate, cached}
use mfp.Discovery.Cache.{
  is_nonempty, add_to_ent, staging_begin, changed, staging_in_progress, add_endpoint, staging_end,
  stabilization_time, staging_check, ready, CacheEnt, far_future, Entries, export_loop, Cache,
  export,
}
use mfp.Discovery.Model.{unit_id_eq_iff, unit_id_eq, UnitId, Device, unit_id_key}
use mfp.Discovery.Collection.{text_order}
use mfp.Base.{
  ltb, not, ◌&&◌, false, Bool, if◌then◌else◌, Option, refl, ◌||◌, ◌∙◌, sym, true, ap, Bool-cases,
  ◌+◌, bind-eq-ok, [], inl, inr, ◌∷◌, arith, ◌≤◌, ◌≡◌, ℕ, List, none, some, ok, ◌<◌,
}

-- The output is kept back as long as it is valid, and given out when it is no longer.
cached_expired :
    (out : Output) (devices : List Device) (now : ℕ)
    → out.devices ≡ some devices
    → (now < out.ttl → cached out now ≡ none) × (out.ttl ≤ now → cached out now ≡ some devices)
unfolding cached
cached_expired out devices now e = (λ h. rw e (ground arith), λ h. rw e (ground arith))

-- A fresh export: the output that it keeps, and its entries.
pub fresh :
    (net : Net) (c c' : Cache) (now : ℕ) (devices : List Device)
    → cached c.out now ≡ none
    → export net c now ≡ ok (devices, c')
    → (c'.out.devices ≡ some devices)
      × (c'.entries ≡ (export_loop (now + far_future) c.entries now).2)
      × (c'.out.ttl ≡ (export_loop (now + far_future) c.entries now).1)
unfolding export
fresh net c c' now devices n e =
    let r = export_loop (now + far_future) c.entries now in
    let made = bind-eq-ok (generate net r.1 r.0) _ (rw (n, export) at e) in
    let kept = generate_kept net r.1 r.0 made.0.0 made.0.1 made.1 in
    let given : made.0.0 ≡ devices = cc (made.2) in
    let after : record c { entries = r.2; out = made.0.1 } ≡ c' = cc (made.2) in
    (
      sym (ap (λ (x : Cache). x.out.devices) after) ∙ ap Output.devices kept ∙ ap some given,
      sym (ap Cache.entries after),
      sym (ap (λ (x : Cache). x.out.ttl) after) ∙ ap Output.ttl kept,
    )

pub export_loop-at_key :
    (es : Entries) (ttl now : ℕ) (id : UnitId) (ent : CacheEnt)
    → at_key es id ≡ some ent
    → at_key (export_loop ttl es now).2 id ≡ some (ready ent now).0
unfolding export_loop at_key
export_loop-at_key [] ttl now id ent h = cc
export_loop-at_key ((k, x) ∷ es) ttl now id ent h = elim (Bool-cases (unit_id_eq k id)) [
  | inl e ↦
      let same : x ≡ ent = ground arith in rw e (ap (λ (y : CacheEnt). some (ready y now).0) same)
  | inr e ↦ rw e (export_loop-at_key es (next_ttl ttl (ready x now)) now id ent (ground arith))
]

-- The time to live is never after the start, nor after the time at which the staging of a ready
-- entry is due.
export_loop_ttl : (es : Entries) (ttl now : ℕ) → (export_loop ttl es now).1 ≤ ttl
unfolding export_loop
export_loop_ttl [] ttl now = omega arith
export_loop_ttl ((k, x) ∷ es) ttl now =
    ground (arith, export_loop_ttl es (next_ttl ttl (ready x now)) now)

next_ttl_due :
    (ttl : ℕ) (r : CacheEnt × Bool)
    → r.1 ≡ true
    → staging_in_progress r.0 ≡ true
    → next_ttl ttl r ≤ r.0.staging_done_at
next_ttl_due ttl r h k = ground arith

export_loop_due :
    (es : Entries) (ttl now : ℕ) (id : UnitId) (ent : CacheEnt)
    → at_key es id ≡ some ent
    → (ready ent now).1 ≡ true
    → staging_in_progress (ready ent now).0 ≡ true
    → (export_loop ttl es now).1 ≤ (ready ent now).0.staging_done_at
unfolding export_loop at_key
export_loop_due [] ttl now id ent h r w = cc
export_loop_due ((k, x) ∷ es) ttl now id ent h r w = elim (Bool-cases (unit_id_eq k id)) [
  | inl e ↦
      let same : x ≡ ent = ground arith in
      let rest = export_loop_ttl es (next_ttl ttl (ready ent now)) now in
      let first = next_ttl_due ttl (ready ent now) r w in rw same (omega arith)
  | inr e ↦ export_loop_due es (next_ttl ttl (ready x now)) now id ent (ground arith) r w
]

-- An entry that has published endpoints and whose staging is not due.
ready_waiting :
    (ent : CacheEnt) (now : ℕ)
    → ent.has_params ≡ true
    → is_nonempty ent.unit.endpoints ≡ true
    → now < ent.staging_done_at
    → ready ent now ≡ (ent, true)
unfolding ready staging_check
ready_waiting ent now p n d =
    let kept : (staging_in_progress ent && not (ltb now ent.staging_done_at)) ≡ false =
      ground arith in
    rw (p, kept, n) refl

-- A unit with parameters has published endpoints and a staging that is in progress and not due yet, and
-- a client reads the devices, when no output is kept. If it reads them again when the staging is due or
-- later, and no event came in between, then it gets the same devices, and the entry of the unit is as it
-- was, with its endpoints in staging not published.
pub export_stale :
    (net : Net) (c c' : Cache) (id : UnitId) (ent : CacheEnt) (now later : ℕ)
    (devices : List Device)
    → at_key c.entries id ≡ some ent
    → ent.has_params ≡ true
    → is_nonempty ent.unit.endpoints ≡ true
    → now < ent.staging_done_at
    → cached c.out now ≡ none
    → export net c now ≡ ok (devices, c')
    → ent.staging_done_at ≤ later
    → (export net c' later ≡ ok (devices, c')) × (at_key c'.entries id ≡ some ent)
unfolding export
export_stale net c c' id ent now later devices f p ne w n x due =
    let made = fresh net c c' now devices n x in
    let waiting = ready_waiting ent now p ne w in
    let same : (ready ent now).0 ≡ ent = ap (λ (r : CacheEnt × Bool). r.0) waiting in
    let ttl : c'.out.ttl ≤ ent.staging_done_at =
      let bound =
        export_loop_due c.entries (now + far_future) now id ent f
          (ap (λ (r : CacheEnt × Bool). r.1) waiting) (rw same (ground arith)) in
      rw made.2 (rw same at bound) in
    (
      rw ((cached_expired c'.out devices later made.0).1 (omega arith), export),
      ap (λ m. at_key m id) made.1
          ∙ (export_loop-at_key c.entries (now + far_future) now id ent f ∙ ap some same),
    )

-- An entry whose staging is over has all its endpoints published.
pub ready_published :
    (ent : CacheEnt) (now : ℕ) (e : Text)
    → ent.has_params ≡ true
    → staging_in_progress ent ≡ true
    → ent.staging_done_at ≤ now
    → (has (ready ent now).0.unit.endpoints e
        ≡ (has ent.unit.endpoints e || has ent.staging_endpoints e))
      × ((ready ent now).0.staging_endpoints ≡ [])
unfolding ready staging_check staging_end
ready_published ent now e h p d =
    (ground (arith, has-collection_merge ent.unit.endpoints ent.staging_endpoints e), ground arith)

-- What a successful AddEndpoint leaves in the cache.
pub added :
    (c c' : Cache) (id : UnitId) (ent : CacheEnt) (e : Text) (now : ℕ)
    → at_key c.entries id ≡ some ent
    → add_endpoint c id e now ≡ ok c'
    → c' ≡ changed c (put_key c.entries id (with_staged ent e now))
unfolding add_endpoint
added c c' id ent e now f a =
    let step = bind-eq-ok (add_to_ent ent e now) _ (rw (f, add_endpoint) at a) in
    let entry = add_to_ent_ok ent e now step.0 step.1 in
    let after : changed c (put_key c.entries id step.0) ≡ c' = cc (step.2) in
    sym after ∙ ap (λ (x : CacheEnt). changed c (put_key c.entries id x)) (sym entry)

pub with_staged_due :
    (ent : CacheEnt) (e : Text) (now : ℕ)
    → ent.staging_done_at ≤ now + stabilization_time
    → (with_staged ent e now).staging_done_at ≤ now + stabilization_time
unfolding staging_begin
with_staged_due ent e now h = ground arith

pub with_staged_params :
    (ent : CacheEnt) (e : Text) (now : ℕ) → (with_staged ent e now).has_params ≡ ent.has_params
unfolding staging_begin
with_staged_params ent e now = ground arith

pub with_staged-has :
    (ent : CacheEnt) (e : Text) (now : ℕ) → has (with_staged ent e now).staging_endpoints e ≡ true
with_staged-has ent e now =
    ground (
      arith,
      has-collection_add (staging_begin ent now).staging_endpoints e e,
      (same_iff e e).1 refl,
    )

-- A change leaves no output.
pub changed-cached : (c : Cache) (es : Entries) (now : ℕ) → cached (changed c es).out now ≡ none
unfolding cached
changed-cached c es now = refl

pub stored :
    (id : UnitId) (ent : CacheEnt) (o : Option CacheEnt)
    → (if unit_id_eq id id then some ent else o) ≡ some ent
stored id ent o = rw ((unit_id_eq_iff id id).1 refl)
