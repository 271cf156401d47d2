-- ===== src/Discovery/Cache/Invariant.antt =====
-- The invariant of the cache, and that every operation keeps it.

use mfp.Discovery.Collection.{endpoints_contain, endpoints_del, endpoints_add, text_order}
use mfp.Argv.Model.{is_nonempty}
use mfp.Go.Text.{Text}
use mfp.Discovery.Collection.Laws.{
  has-same, collection_contain-eq-has, has-collection_add, collection_del_nonempty,
  has-collection_del, collection_del-Ascending, collection_add-Ascending, has,
  collection_merge-Ascending, Ascending,
}
use mfp.Go.Keyed.{Every, OneEach}
use mfp.Discovery.Cache.{
  Error, endpoint_already_added, unknown_endpoint, del_from_ent, add_to_ent, staging_in_progress,
  staging_end, staging_check, staging_begin, ready, CacheEnt, Cache,
}
use mfp.Discovery.Model.{Fits, UnitInfo, unit_id_key, UnitId}
use mathlib.Core.Path.{subst}
use mfp.Base.{
  ◌⊎◌, Result, ap, ◌||◌, err, refl, if◌then◌else◌, Bool, ok, ltb, not, ◌&&◌, arith, Bool-cases, ◌≡◌,
  ℕ, inl, true, false, inr,
}

pub record EntIsValid (id : UnitId) (ent : CacheEnt) : Type 0 where
  pub same_id : ent.unit.id ≡ id
  pub published : Ascending ent.unit.endpoints
  pub staged : Ascending ent.staging_endpoints
  -- An endpoint is published or in staging, and not both.
  pub disjoint : (e : Text) → has ent.staging_endpoints e ≡ true → has ent.unit.endpoints e ≡ false
  -- What is in staging has a time at which it is due.
  pub timed : is_nonempty ent.staging_endpoints ≡ true → staging_in_progress ent ≡ true
  pub typed : ent.has_params ≡ true → Fits id.svc_type ent.unit.params

pub record IsValid (c : Cache) : Type 0 where
  pub one_each : OneEach c.entries
  pub every : Every EntIsValid c.entries

either :
    (P : CacheEnt → Type 0) (b : Bool) (x y : CacheEnt × Bool)
    → P x.0
    → P y.0
    → let r : CacheEnt × Bool = if b then x else y in P r.0
either P true x y h k = h
either P false x y h k = k

module _ (id : UnitId) (ent : CacheEnt) (v : EntIsValid id ent) (now : ℕ) where
  staging_end-EntIsValid : EntIsValid id (staging_end ent)
  unfolding staging_end
  staging_end-EntIsValid = record {
    same_id = v.same_id;
    published =
        collection_merge-Ascending ent.unit.endpoints ent.staging_endpoints v.published v.staged;
    staged = tt;
    disjoint = λ e h. cc;
    timed = λ h. cc;
    typed = v.typed;
  }

  pub staging_check-EntIsValid : EntIsValid id (staging_check ent now)
  unfolding staging_check
  staging_check-EntIsValid =
      elim (Bool-cases (staging_in_progress ent && not (ltb now ent.staging_done_at))) [
        | inl h ↦ rw h (unfold staging_end in staging_end-EntIsValid)
        | inr h ↦ rw h v
      ]

  pub ready-EntIsValid : EntIsValid id (ready ent now).0
  unfolding ready
  ready-EntIsValid = either (EntIsValid id) ent.has_params _ _ staging_check-EntIsValid v

  pub staging_begin-EntIsValid : EntIsValid id (staging_begin ent now)
  unfolding staging_begin
  staging_begin-EntIsValid = elim (Bool-cases (staging_in_progress ent)) [
    | inl h ↦ rw h v
    | inr h ↦ rw h (record {
      same_id = v.same_id;
      published = v.published;
      staged = v.staged;
      disjoint = v.disjoint;
      timed = λ n. ground arith;
      typed = v.typed;
    })
  ]

staging_begin-unit : (ent : CacheEnt) (now : ℕ) → (staging_begin ent now).unit ≡ ent.unit
unfolding staging_begin
staging_begin-unit ent now = ground arith

pub staging_begin_in_progress :
    (ent : CacheEnt) (now : ℕ) → staging_in_progress (staging_begin ent now) ≡ true
unfolding staging_begin
staging_begin_in_progress ent now = ground arith

-- The entries that the operations on endpoints store.
abbrev pub with_staged : CacheEnt → Text → ℕ → CacheEnt
with_staged ent endpoint now = record (staging_begin ent now) {
  staging_endpoints = (endpoints_add (staging_begin ent now).staging_endpoints endpoint).0;
}

abbrev less_published : CacheEnt → Text → CacheEnt
less_published ent endpoint = record ent {
  unit = record (ent.unit) { endpoints = (endpoints_del ent.unit.endpoints endpoint).0 };
}

abbrev less_staged : CacheEnt → Text → CacheEnt
less_staged ent endpoint = record ent {
  staging_endpoints = (endpoints_del ent.staging_endpoints endpoint).0;
}

-- What a success behind a test says.
guarded :
    (b : Bool) (e : Error) (x y : CacheEnt)
    → let r : Result Error CacheEnt = if b then err e else ok x in r ≡ ok y → (b ≡ false) × (x ≡ y)
guarded true e x y h = cc
guarded false e x y h = (refl, cc)

-- The entry that an added endpoint leaves.
pub add_to_ent_ok :
    (ent : CacheEnt) (endpoint : Text) (now : ℕ) (ent' : CacheEnt)
    → add_to_ent ent endpoint now ≡ ok ent'
    → with_staged ent endpoint now ≡ ent'
unfolding add_to_ent
add_to_ent_ok ent endpoint now ent' h =
    let test =
      endpoints_contain ent.unit.endpoints endpoint
      || endpoints_contain ent.staging_endpoints endpoint in
    (guarded test endpoint_already_added (with_staged ent endpoint now) ent' h).1

chosen :
    (b : Bool) (x y : CacheEnt) (m : Result Error CacheEnt)
    → let r : Result Error CacheEnt = if b then ok x else m in r ≡ ok y → (x ≡ y) ⊎ (m ≡ ok y)
chosen true x y m h = inl cc
chosen false x y m h = inr h

module _ (id : UnitId) (ent : CacheEnt) (v : EntIsValid id ent) (endpoint : Text) where
  added_ent :
      (now : ℕ)
      → endpoints_contain ent.unit.endpoints endpoint ≡ false
      → EntIsValid id (with_staged ent endpoint now)
  added_ent now h =
      let started = staging_begin ent now in
      let w = staging_begin-EntIsValid id ent v now in
      record {
        same_id = w.same_id;
        published = w.published;
        staged = collection_add-Ascending started.staging_endpoints endpoint w.staged;
        disjoint = λ e k. ground (
          arith,
          has-collection_add started.staging_endpoints endpoint e,
          w.disjoint e,
          collection_contain-eq-has ent.unit.endpoints endpoint v.published,
          has-same ent.unit.endpoints endpoint e,
          ap UnitInfo.endpoints (staging_begin-unit ent now),
          ap (λ (u : UnitInfo). has u.endpoints e) (staging_begin-unit ent now),
        );
        timed = λ n. staging_begin_in_progress ent now;
        typed = w.typed;
      }

  pub add_to_ent-EntIsValid :
      (now : ℕ) (ent' : CacheEnt) → add_to_ent ent endpoint now ≡ ok ent' → EntIsValid id ent'
  unfolding add_to_ent
  add_to_ent-EntIsValid now ent' h =
      let test =
        endpoints_contain ent.unit.endpoints endpoint
        || endpoints_contain ent.staging_endpoints endpoint in
      let g = guarded test endpoint_already_added (with_staged ent endpoint now) ent' h in
      subst (EntIsValid id) g.1 (added_ent now (ground arith))

  published_ent : EntIsValid id (less_published ent endpoint)
  published_ent = record {
    same_id = v.same_id;
    published = collection_del-Ascending ent.unit.endpoints endpoint v.published;
    staged = v.staged;
    disjoint = λ e k.
        ground (arith, has-collection_del ent.unit.endpoints endpoint e v.published, v.disjoint e);
    timed = v.timed;
    typed = v.typed;
  }

  staged_ent : EntIsValid id (less_staged ent endpoint)
  staged_ent = record {
    same_id = v.same_id;
    published = v.published;
    staged = collection_del-Ascending ent.staging_endpoints endpoint v.staged;
    disjoint = λ e k.
        ground (arith, has-collection_del ent.staging_endpoints endpoint e v.staged, v.disjoint e);
    timed = λ n. v.timed (ground (arith, collection_del_nonempty ent.staging_endpoints endpoint));
    typed = v.typed;
  }

  pub del_from_ent-EntIsValid :
      (ent' : CacheEnt) → del_from_ent ent endpoint ≡ ok ent' → EntIsValid id ent'
  unfolding del_from_ent
  del_from_ent-EntIsValid ent' h =
      let published = endpoints_contain ent.unit.endpoints endpoint in
      let staged = endpoints_contain ent.staging_endpoints endpoint in
      let rest : Result Error CacheEnt =
        if staged then ok (less_staged ent endpoint) else err unknown_endpoint in
      elim (chosen published (less_published ent endpoint) ent' rest h) [
        | inl e ↦ subst (EntIsValid id) e published_ent
        | inr k ↦ elim (chosen staged (less_staged ent endpoint) ent' (err unknown_endpoint) k) [
          | inl e ↦ subst (EntIsValid id) e staged_ent
          | inr f ↦ cc
        ]
      ]
