-- ===== src/Netstate/Sync/Refines.antt =====
-- `Sync` refines the protocol of its events, round by round.

use mathlib.Core.Path.{fun_ext}
use mfp.Go.Order.{text_lt_total}
use mfp.Netstate.Sync.Replay.{
  change-Tracks, change_view, change-Leads, add_view, del_view, add-Tracks, add-Leads, del-Tracks,
  del-Leads,
}
use mfp.Netstate.Sync.Counting.{has_interface-interfaces_from, Tracks}
use mfp.Netstate.Sync.Protocol.{count_primary, Leads, count_addr, View, view}
use mfp.Netstate.Sync.{added, sync, dropped, Counts, sync_from, count_interfaces}
use mfp.Netstate.Snapshot.{has_interface, interfaces, SnapshotAddr, less_unmasked, Snapshot}
use mfp.Netstate.Addr.{Agree, netif_eq_iff, netif_eq, netif_less, unmasked, less, Addr, NetIf}
use mfp.Base.{refl, Bool-cases, ◌+◌, arith, ◌≡◌, All, [], inl, ◌∷◌, inr, false}

abbrev pub Steady : Snapshot → Snapshot → Type 0
Steady s t = All (λ x. All (λ y. Agree x.addr.nif y.addr.nif) t) s

Steady-tail : (s : Snapshot) (y : SnapshotAddr) (t : Snapshot) → Steady s (y ∷ t) → Steady s t
Steady-tail [] y t h = tt
Steady-tail (x ∷ s) y t h = (h.0.1, Steady-tail s y t h.1)

-- Two addresses of which neither comes first belong to one interface.
unordered_nif :
    (x y : SnapshotAddr)
    → less_unmasked x y ≡ false
    → less_unmasked y x ≡ false
    → Agree x.addr.nif y.addr.nif
    → x.addr.nif ≡ y.addr.nif
unfolding less_unmasked less unmasked netif_less
unordered_nif x y h k a = elim (Bool-cases (netif_eq x.addr.nif y.addr.nif)) [
  | inl e ↦ (netif_eq_iff x.addr.nif y.addr.nif).0 e
  | inr e ↦ ground (
    arith,
    netif_eq_iff x.addr.nif y.addr.nif,
    netif_eq_iff y.addr.nif x.addr.nif,
    text_lt_total x.addr.nif.name y.addr.nif.name,
  )
]

-- What has been passed on, with what is still to come, is the second snapshot.
record Passed (done next t : Snapshot) : Type 0 where
  known : (a : Addr) → count_addr done a + count_addr next a ≡ count_addr t a
  primaries : (a : Addr) → count_primary done a + count_primary next a ≡ count_primary t a
  counts : (n : NetIf) → count_interfaces done n + count_interfaces next n ≡ count_interfaces t n

Passed-step :
    (done : Snapshot) (y : SnapshotAddr) (next t : Snapshot)
    → Passed done (y ∷ next) t
    → Passed (y ∷ done) next t
unfolding count_interfaces
Passed-step done y next t p = record {
  known = λ a. omega (arith, p.known a);
  primaries = λ a. omega (arith, p.primaries a);
  counts = λ n. omega (arith, p.counts n);
}

-- With nothing left the receiver has the view of the second snapshot.
arrived :
    (done t : Snapshot) (c : Counts) (v : View) → Tracks [] done c v → Passed done [] t → v ≡ view t
unfolding view count_interfaces interfaces has_interface
arrived done t c v h p =
    let known : v.known ≡ (view t).known = fun_ext (λ a. omega (arith, h.known a, p.known a)) in
    let primaries : v.primaries ≡ (view t).primaries =
      fun_ext (λ a. omega (arith, h.primaries a, p.primaries a)) in
    let listed : v.interfaces ≡ (view t).interfaces = fun_ext (λ n.
      ground (arith, h.listed n, h.counts n, p.counts n, has_interface-interfaces_from [] t n)) in
    cc

sync_from-Leads :
    (prev next done t : Snapshot) (c : Counts) (v : View)
    → Tracks prev done c v
    → Passed done next t
    → Steady prev next
    → Leads v (sync_from prev next c) (view t)
unfolding sync_from
sync_from-Leads [] [] done t c v h p a = Leads.here (arrived done t c v h p)
sync_from-Leads (x ∷ prev) [] done t c v h p a =
    del-Leads x prev done c v h
      (sync_from-Leads prev [] done t _ _ (del-Tracks x prev done c v h) p a.1)
sync_from-Leads [] (y ∷ next) done t c v h p a = add-Leads y [] done c v h (
    sync_from-Leads [] next (y ∷ done) t _ _ (add-Tracks y [] done c v h)
      (Passed-step done y next t p) tt)
sync_from-Leads (x ∷ prev) (y ∷ next) done t c v h p a = elim (Bool-cases (less_unmasked x y)) [
  | inl del ↦ rw del (
      del-Leads x prev done c v h (
        sync_from-Leads prev (y ∷ next) done t (dropped x c) (del_view x c v)
          (del-Tracks x prev done c v h) p a.1))
  | inr not_del ↦ elim (Bool-cases (less_unmasked y x)) [
    | inl add ↦
        rw (not_del, add)
          (add-Leads y (x ∷ prev) done c v h (
            sync_from-Leads (x ∷ prev) next (y ∷ done) t (added y c) (add_view y c v)
              (add-Tracks y (x ∷ prev) done c v h) (Passed-step done y next t p)
              (Steady-tail (x ∷ prev) y next a)))
    | inr not_add ↦
        let e = unordered_nif x y not_del not_add a.0.0 in
        rw (not_del, not_add)
          (change-Leads x y prev done c v h e (
            sync_from-Leads prev next (y ∷ done) t c (change_view x y v)
              (change-Tracks x y prev done c v h e) (Passed-step done y next t p)
              (Steady-tail prev y next a.1)))
  ]
]

-- The events that Sync makes of two snapshots keep the protocol, from the view of the first: each
-- interface is added before its addresses and deleted when it has none, each address is added before
-- it is primary and deleted when it is primary no longer, and nothing is deleted that is not there.
-- They lead to the view of the second, with its interfaces, its addresses and its primary addresses.
-- This is for snapshots in which interfaces of the same index and name have the same flags.
pub sync-Leads : (s t : Snapshot) → Steady s t → Leads (view s) (sync s t) (view t)
unfolding sync view interfaces has_interface count_interfaces
sync-Leads s t a =
    sync_from-Leads s t [] t _ _
      (record {
        known = λ n. omega arith;
        primaries = λ n. omega arith;
        counts = λ n. omega arith;
        listed = λ n. has_interface-interfaces_from [] s n refl;
      })
      (record { known = λ n. omega arith; primaries = λ n. omega arith; counts = λ n. omega arith })
      a
