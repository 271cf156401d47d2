-- ===== src/Netstate/Sync/Flags.antt =====
-- `Sync` where only the flags of an interface change.

use mfp.Go.Text.{text_lt}
use mfp.Go.Order.{text_lt_irrefl}
use mfp.Netstate.Sync.Replay.{apply_if}
use mfp.Netstate.Addr.{addr_eq, netif_eq_iff, netif_less, unmasked, less}
use mfp.Netstate.Sync.Protocol.{apply, Allowed, Leads, view, View}
use mfp.Netstate.Sync.{
  count_interfaces, add_address, del_primary_address, del_address, add_primary_address, when,
  sync_from, Event, sync, change_events,
}
use mfp.Netstate.Snapshot.{
  Snapshot, snapshot_addr_eq, has_interface, interfaces, SnapshotAddr, less_unmasked,
}
use mfp.Base.{refl, not, if◌then◌else◌, ap, sym, arith, ◌≢◌, ◌≡◌, List, Bool, ◌∷◌, false, true}

Leads-Allowed : {v w : View} {e : Event} {es : List Event} → Leads v (e ∷ es) w → Allowed e v
Leads-Allowed (Leads.fire a l) = a

Leads-rest :
    {v w : View} {e : Event} {es : List Event} → Leads v (e ∷ es) w → Leads (apply e v) es w
Leads-rest (Leads.fire a l) = l

Leads-when_rest :
    (b : Bool) (e : Event) {es : List Event} {v w : View}
    → Leads v (when b e es) w
    → Leads (apply_if b e v) es w
Leads-when_rest true e l = Leads-rest l
Leads-when_rest false e l = l

Leads-else :
    (b : Bool) (es : List Event) {ds : List Event} {v w : View}
    → b ≡ false
    → Leads v (if b then es else ds) w
    → Leads v ds w
Leads-else true es h l = cc
Leads-else false es h l = l

Leads-unless :
    (b : Bool) (e : Event) {es : List Event} {v w : View}
    → b ≡ false
    → Leads v (when (not b) e es) w
    → Leads v (e ∷ es) w
Leads-unless true e h l = cc
Leads-unless false e h l = l

-- Two addresses of interfaces that differ in nothing but flags are in no order.
unordered :
    (x y : SnapshotAddr)
    → x.addr.nif.index ≡ y.addr.nif.index
    → x.addr.nif.name ≡ y.addr.nif.name
    → x.addr.nif ≢ y.addr.nif
    → less_unmasked x y ≡ false
unfolding less_unmasked less unmasked netif_less
unordered x y i n d = ground (
  arith,
  netif_eq_iff x.addr.nif y.addr.nif,
  text_lt_irrefl x.addr.nif.name,
  ap (text_lt x.addr.nif.name) n,
)

-- The new address arrives on an interface that the receiver has not heard of.
change_not_allowed :
    (x y : SnapshotAddr) (v w : View) (es : List Event)
    → v.interfaces y.addr.nif ≡ false
    → x.addr.nif ≢ y.addr.nif
    → ¬ Leads v (change_events x y es) w
unfolding change_events
change_not_allowed x y v w es h d l =
    let differ : addr_eq x.addr y.addr ≡ false =
      ground (arith, netif_eq_iff x.addr.nif y.addr.nif) in
    let changed : snapshot_addr_eq x y ≡ false =
      ground (arith, netif_eq_iff x.addr.nif y.addr.nif) in
    let dropped = Leads-when_rest x.primary _ (Leads-else (snapshot_addr_eq x y) es changed l) in
    let deleted = Leads-rest (Leads-unless (addr_eq x.addr y.addr) _ differ dropped) in
    let arrives = Leads-Allowed (Leads-unless (addr_eq x.addr y.addr) _ differ deleted) in
    ground arith

-- The events of the round, written out: the old address goes and the new one comes, with nothing
-- that announces its interface.
change_written :
    (x y : SnapshotAddr) (es : List Event)
    → x.addr.nif ≢ y.addr.nif
    → change_events x y es
      ≡ when x.primary (del_primary_address x.addr) (
          del_address x.addr
          ∷ (add_address y.addr ∷ when y.primary (add_primary_address y.addr) es))
unfolding change_events
change_written x y es d =
    let differ : addr_eq x.addr y.addr ≡ false =
      ground (arith, netif_eq_iff x.addr.nif y.addr.nif) in
    let changed : snapshot_addr_eq x y ≡ false =
      ground (arith, netif_eq_iff x.addr.nif y.addr.nif) in
    rw (changed, differ) refl

-- The first addresses of two snapshots are of an interface that keeps its index and its name and
-- changes its flags, and the old snapshot has no address of the interface with the new flags. Then
-- Sync deletes the old address and adds the new one with no event in between, so that
-- the address is added to an interface that was never added, and the events as a whole break the protocol.
pub sync_flags-not-Leads :
    (x y : SnapshotAddr) (prev following : Snapshot)
    → x.addr.nif.index ≡ y.addr.nif.index
    → x.addr.nif.name ≡ y.addr.nif.name
    → x.addr.nif ≢ y.addr.nif
    → has_interface y.addr.nif (interfaces (x ∷ prev)) ≡ false
    → ((es : List Event) × (sync (x ∷ prev) (y ∷ following)
          ≡ when x.primary (del_primary_address x.addr) (
              del_address x.addr
              ∷ (add_address y.addr ∷ when y.primary (add_primary_address y.addr) es))))
      × (¬ Leads (view (x ∷ prev)) (sync (x ∷ prev) (y ∷ following)) (view (y ∷ following)))
unfolding sync sync_from view
sync_flags-not-Leads x y prev following i n d new =
    let a = unordered x y i n d in
    let b = unordered y x (sym i) (sym n) (λ e. d (sym e)) in
    let c = count_interfaces (x ∷ prev) in
    let es = sync_from prev following c in
    (
      (es, rw (a, b) (change_written x y es d)),
      λ l.
          change_not_allowed x y (view (x ∷ prev)) (view (y ∷ following)) es new d (rw (a, b) at l),
    )
