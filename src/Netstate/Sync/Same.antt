-- ===== src/Netstate/Sync/Same.antt =====
-- `Sync` against `Equal`.

use mfp.Go.Netip.{bool_eq_iff}
use mfp.Netstate.Addr.{unmasked}
use mfp.Netstate.Order.{less_irrefl}
use mfp.Netstate.Sync.{
  added, dropped, del_events, add_events, count_interfaces, Event, change_events, Counts, sync_from,
  sync,
}
use mfp.Netstate.Snapshot.{
  snapshot_addr_eq_iff, snapshot_addr_eq, Snapshot, less_unmasked, equal, SnapshotAddr,
}
use mfp.Base.{◌≢◌, arith, ◌↔◌, List, ◌≡◌, refl, ◌∷◌, true, false, []}

less_unmasked_irrefl : (x : SnapshotAddr) → less_unmasked x x ≡ false
unfolding less_unmasked
less_unmasked_irrefl x = less_irrefl (unmasked x.addr)

equal_iff : (s t : Snapshot) → (equal s t ≡ true) ↔ (s ≡ t)
unfolding equal
equal_iff [] [] = (λ _. refl, λ _. refl)
equal_iff [] (y ∷ t) = ground arith
equal_iff (x ∷ s) [] = ground arith
equal_iff (x ∷ s) (y ∷ t) = ground (arith, snapshot_addr_eq_iff x y, equal_iff s t)

sync_from_self : (s : Snapshot) (c : Counts) → sync_from s s c ≡ []
unfolding sync_from change_events
sync_from_self [] c = refl
sync_from_self (x ∷ s) c =
    ground (arith, less_unmasked_irrefl x, snapshot_addr_eq_iff x x, sync_from_self s c)

module _ (x y : SnapshotAddr) (c : Counts) (es : List Event) where
  del_events-ne-nil : del_events x c es ≢ []
  unfolding del_events
  del_events-ne-nil e = ground arith

  add_events-ne-nil : add_events x c es ≢ []
  unfolding add_events
  add_events-ne-nil e = ground arith

  change_events_nil : change_events x y es ≡ [] → (snapshot_addr_eq x y ≡ true) × (es ≡ [])
  unfolding change_events
  change_events_nil e = (ground (arith, bool_eq_iff x.primary y.primary), ground arith)

sync_from_nil : (s t : Snapshot) (c : Counts) → sync_from s t c ≡ [] → equal s t ≡ true
unfolding sync_from equal
sync_from_nil [] [] c e = refl
sync_from_nil (x ∷ s) [] c e = absurd (del_events-ne-nil x x c _ e)
sync_from_nil [] (y ∷ t) c e = absurd (add_events-ne-nil y y c _ e)
sync_from_nil (x ∷ s) (y ∷ t) c e = ground (
  arith,
  del_events-ne-nil x y c (sync_from s (y ∷ t) (dropped x c)),
  add_events-ne-nil y x c (sync_from (x ∷ s) t (added y c)),
  change_events_nil x y c (sync_from s t c),
  sync_from_nil s t c,
)

-- Sync has no event to report exactly when the snapshots are Equal.
pub sync-nil_iff : (s t : Snapshot) → (sync s t ≡ []) ↔ (equal s t ≡ true)
unfolding sync
sync-nil_iff s t = (
  sync_from_nil s t (count_interfaces s),
  λ h. rw (← (equal_iff s t).0 h) (sync_from_self s (count_interfaces s)),
)
