-- ===== src/Discovery/Client/Published.antt =====
-- When an endpoint that a backend reports is published, whatever other endpoints are reported after it.

use mfp.Discovery.Merge.{Net}
use mfp.Go.Keyed.{at_key-put_key, put_key, at_key}
use mfp.Discovery.Collection.Laws.{has-collection_add, has}
use mfp.Discovery.Cache.Invariant.{staging_begin_in_progress, add_to_ent_ok, with_staged}
use mfp.Discovery.Output.{cached}
use mfp.Go.Text.{Text}
use mfp.Discovery.Model.{Device, unit_id_eq_iff, unit_id_eq, UnitId}
use mfp.Discovery.Cache.{
  unknown_unit_id, ready, far_future, export, stabilization_time, add_to_ent, Error, changed,
  staging_in_progress, CacheEnt, add_endpoint, staging_begin, Cache,
}
use mfp.Discovery.Client.{dispatch, next_event, add_endpoint_event}
use mfp.Discovery.Cache.Publishing.{
  fresh, export_loop-at_key, ready_published, added, changed-cached, stored, with_staged_due,
  with_staged_params, with_staged-has,
}
use mfp.Discovery.Model.{unit_id_key}
use mfp.Discovery.Collection.{text_order}
use mathlib.Core.Path.{subst}
use mfp.Base.{
  Option, ap, ◌∙◌, arith, ◌+◌, sym, ◌>>=◌, Bool-cases, Result, stuck, refl, inl, err, ok, panic,
  inr, ◌≤◌, ◌≡◌, ℕ, List, [], ◌∷◌, true, none, some,
}

-- Endpoints of any units, each with the time at which the client handles its event.
abbrev pub report_endpoints : Cache → List (UnitId × Text × ℕ) → Cache
report_endpoints c [] = c
report_endpoints c ((id, e, now) ∷ rest) =
    report_endpoints (next_event c (add_endpoint_event id e) now) rest

-- The unit has the endpoint in staging, which is due by a given time, and no output is kept.
abbrev Staged : UnitId → Text → ℕ → CacheEnt → Type 0
Staged id e due ent =
    (ent.has_params ≡ true)
    × (has ent.staging_endpoints e ≡ true)
    × (staging_in_progress ent ≡ true)
    × (ent.staging_done_at ≤ due)

abbrev Waits : UnitId → Text → ℕ → Cache → Type 0
Waits id e due c =
    ((later : ℕ) → cached c.out later ≡ none)
    × ((ent : CacheEnt) × ((at_key c.entries id ≡ some ent) × Staged id e due ent))

-- Another endpoint does not start the time again.
more-Staged :
    (id : UnitId) (e f : Text) (due now : ℕ) (ent : CacheEnt)
    → Staged id e due ent
    → Staged id e due (with_staged ent f now)
unfolding staging_begin
more-Staged id e f due now ent (p, h, t, d) =
    let same : staging_begin ent now ≡ ent = rw t refl in
    let kept = has-collection_add ent.staging_endpoints f e in
    rw same (p, ground (arith, kept), t, d)

-- What an event leaves, whether or not its entry is stored.
handled :
    (P : Cache → Type 0) (m : Result Error CacheEnt) (c : Cache) (k : UnitId)
    → P c
    → ((x : CacheEnt) → m ≡ ok x → P (changed c (put_key c.entries k x)))
    → let r : Result Error Cache = m >>= λ x. ok (changed c (put_key c.entries k x)) in
      let d : Cache = elim r [ ok c' ↦ c' | _ ↦ c ] in P d
handled P (ok x) c k p q = q x refl
handled P (err e) c k p q = p
handled P panic c k p q = p
handled P stuck c k p q = p

-- The entry of the unit behind an endpoint that is added to some unit.
put-Waits :
    (id : UnitId) (e : Text) (due : ℕ) (c : Cache) (k : UnitId) (f : Text) (now : ℕ) (x : CacheEnt)
    → Waits id e due c
    → at_key c.entries k ≡ some x
    → Waits id e due (changed c (put_key c.entries k (with_staged x f now)))
put-Waits id e due c k f now x (n, (ent, (h, s))) there =
    let es = put_key c.entries k (with_staged x f now) in
    (
      changed-cached c es,
      elim (Bool-cases (unit_id_eq k id)) [
        | inl b ↦
            let i : k ≡ id = (unit_id_eq_iff k id).0 b in
            let same : x ≡ ent =
              let found = sym there ∙ (ap (λ j. at_key c.entries j) i ∙ h) in cc in
            (
              with_staged x f now,
              (
                at_key-put_key c.entries k id (with_staged x f now) ∙ rw b refl,
                rw same (more-Staged id e f due now ent s),
              ),
            )
        | inr b ↦ (ent, (at_key-put_key c.entries k id (with_staged x f now) ∙ rw b h, s))
      ],
    )

handled_report :
    (P : Cache → Type 0) (o : Option CacheEnt) (c : Cache) (k : UnitId) (f : Text) (now : ℕ)
    → P c
    → ((x y : CacheEnt)
        → o ≡ some x
        → add_to_ent x f now ≡ ok y
        → P (changed c (put_key c.entries k y)))
    → let r : Result Error Cache = elim o [
      | none ↦ err unknown_unit_id
      | some x ↦ add_to_ent x f now >>= λ y. ok (changed c (put_key c.entries k y))
    ] in
      let d : Cache = elim r [ ok c' ↦ c' | _ ↦ c ] in P d
handled_report P none c k f now p q = p
handled_report P (some x) c k f now p q = handled P (add_to_ent x f now) c k p (λ y m. q x y refl m)

next-Waits :
    (id : UnitId) (e : Text) (due : ℕ) (c : Cache) (k : UnitId) (f : Text) (now : ℕ)
    → Waits id e due c
    → Waits id e due (next_event c (add_endpoint_event k f) now)
unfolding next_event dispatch add_endpoint
next-Waits id e due c k f now w =
    handled_report (Waits id e due) (at_key c.entries k) c k f now w (λ x y h m.
      let entry : with_staged x f now ≡ y = add_to_ent_ok x f now y m in
      subst (λ (z : CacheEnt). Waits id e due (changed c (put_key c.entries k z))) entry
        (put-Waits id e due c k f now x w h))

reported-Waits :
    (id : UnitId) (e : Text) (due : ℕ) (rest : List (UnitId × Text × ℕ)) (c : Cache)
    → Waits id e due c
    → Waits id e due (report_endpoints c rest)
reported-Waits id e due [] c w = w
reported-Waits id e due ((k, f, now) ∷ rest) c w =
    reported-Waits id e due rest (next_event c (add_endpoint_event k f) now)
      (next-Waits id e due c k f now w)

added-Waits :
    (c c' : Cache) (id : UnitId) (ent : CacheEnt) (e : Text) (now : ℕ)
    → at_key c.entries id ≡ some ent
    → ent.has_params ≡ true
    → ent.staging_done_at ≤ now + stabilization_time
    → add_endpoint c id e now ≡ ok c'
    → Waits id e (now + stabilization_time) c'
added-Waits c c' id ent e now f p s a =
    let staged = with_staged ent e now in
    let es = put_key c.entries id staged in
    rw (added c c' id ent e now f a) (
      changed-cached c es,
      (
        staged,
        (
          at_key-put_key c.entries id id staged ∙ stored id staged (at_key c.entries id),
          (
            with_staged_params ent e now ∙ p,
            with_staged-has ent e now,
            staging_begin_in_progress ent now,
            with_staged_due ent e now s,
          ),
        ),
      ),
    )

-- An endpoint is added to a unit with parameters, whose staging, if one is in progress, began no
-- later. Then any number of endpoints are reported, of any units and at any times, those that the cache
-- refuses included, and no other event comes and no devices are read. The first Export that is made when
-- the stabilization time since the first endpoint is over publishes that
-- endpoint: the entry of the unit then lists it, and has nothing in staging. The later endpoints
-- do not put this off.
pub add_endpoint_published :
    (net : Net) (c c' c'' : Cache) (id : UnitId) (ent : CacheEnt) (e : Text) (now later : ℕ)
    (rest : List (UnitId × Text × ℕ)) (devices : List Device)
    → at_key c.entries id ≡ some ent
    → ent.has_params ≡ true
    → ent.staging_done_at ≤ now + stabilization_time
    → add_endpoint c id e now ≡ ok c'
    → now + stabilization_time ≤ later
    → export net (report_endpoints c' rest) later ≡ ok (devices, c'')
    → (ent' : CacheEnt) × (at_key c''.entries id ≡ some ent')
      × (has ent'.unit.endpoints e ≡ true)
      × (ent'.staging_endpoints ≡ [])
add_endpoint_published net c c' c'' id ent e now later rest devices f p s a l x =
    let due = now + stabilization_time in
    let d = report_endpoints c' rest in
    let (none_kept, (staged, (there, (params, has_e, running, by_due)))) =
      reported-Waits id e due rest c' (added-Waits c c' id ent e now f p s a) in
    let entries = (fresh net d c'' later devices (none_kept later) x).1 in
    let found =
      ap (λ m. at_key m id) entries
      ∙ export_loop-at_key d.entries (later + far_future) later id staged there in
    let done = ready_published staged later e params running (omega arith) in
    ((ready staged later).0, found, ground (arith, done.0, has_e), done.1)
