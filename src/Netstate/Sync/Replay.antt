-- ===== src/Netstate/Sync/Replay.antt =====
-- `Sync` against the protocol of its events: the receiver of the events for two snapshots gets from
-- the view of the first to that of the second.
use mfp.Netstate.Addr.{netif_eq, addr_eq, netif_eq_iff, addr_eq_iff}
use mfp.Netstate.Sync.Counting.{count_addr-le, count_primary-le, Tracks}
use mfp.Netstate.Sync.Protocol.{Leads, Allowed, apply, View}
use mfp.Netstate.Snapshot.{snapshot_addr_eq, snapshot_addr_eq_iff, Snapshot, SnapshotAddr}
use mfp.Base.{if◌then◌else◌, not, ap, arith, ◌≡◌, ◌==◌, List, Bool, ◌∷◌, refl, true, false}
use mfp.Netstate.Sync.{
  change_events, added, add_events, add_primary_address, add_interface, add_address, when, dropped,
  del_events, count_interfaces, Event, Counts, del_primary_address, del_interface, del_address,
}

abbrev pub apply_if : Bool → Event → View → View
apply_if true e v = apply e v
apply_if false e v = v

Leads-when :
    (b : Bool) (e : Event) {es : List Event} {v w : View}
    → (b ≡ true → Allowed e v)
    → Leads (apply_if b e v) es w
    → Leads v (when b e es) w
Leads-when true e h l = Leads.fire (h refl) l
Leads-when false e h l = l

Leads-if :
    (b : Bool) {es ds : List Event} {v u w : View}
    → Leads (if b then v else u) es w
    → (Leads u es w → Leads v ds w)
    → Leads v (if b then es else ds) w
Leads-if true l k = l
Leads-if false l k = k l

-- One address less.
abbrev pub del_view : SnapshotAddr → Counts → View → View
del_view x c v =
    apply_if (c x.addr.nif == 1) (del_interface x.addr.nif)
      (apply (del_address x.addr) (apply_if x.primary (del_primary_address x.addr) v))

module _ (x : SnapshotAddr) (prev done : Snapshot) (c : Counts) (v : View)
    (t : Tracks (x ∷ prev) done c v) where
  pub del-Tracks : Tracks prev done (dropped x c) (del_view x c v)
  unfolding count_interfaces
  del-Tracks = record {
    known = λ a. ground (arith, t.known a, addr_eq_iff x.addr a);
    primaries = λ a. ground (arith, t.primaries a, addr_eq_iff x.addr a);
    counts = λ n. ground (arith, t.counts n, netif_eq_iff x.addr.nif n);
    listed = λ n. ground (arith, t.listed n, t.counts n, netif_eq_iff x.addr.nif n);
  }

  pub del-Leads :
      {es : List Event} {w : View} → Leads (del_view x c v) es w → Leads v (del_events x c es) w
  unfolding del_events count_interfaces
  del-Leads l =
      Leads-when x.primary _ (λ p. ground (arith, t.primaries x.addr, addr_eq_iff x.addr x.addr))
        (Leads.fire
          (ground (
            arith,
            t.primaries x.addr,
            t.known x.addr,
            addr_eq_iff x.addr x.addr,
            count_primary-le prev x.addr,
            count_primary-le done x.addr,
          ))
          (Leads-when (c x.addr.nif == 1) _
            (λ p. (
              ground (arith, t.listed x.addr.nif),
              λ a e. ground (
                arith,
                ap c e,
                t.known a,
                t.counts x.addr.nif,
                netif_eq_iff x.addr.nif x.addr.nif,
                addr_eq_iff x.addr a,
                count_addr-le prev a,
                count_addr-le done a,
                ap (count_interfaces prev) e,
                ap (count_interfaces done) e,
              ),
            ))
            l))

-- One address more.
abbrev pub add_view : SnapshotAddr → Counts → View → View
add_view y c v =
    apply_if y.primary (add_primary_address y.addr)
      (apply (add_address y.addr) (apply_if (c y.addr.nif == 0) (add_interface y.addr.nif) v))

module _ (y : SnapshotAddr) (prev done : Snapshot) (c : Counts) (v : View)
    (t : Tracks prev done c v) where
  pub add-Tracks : Tracks prev (y ∷ done) (added y c) (add_view y c v)
  unfolding count_interfaces
  add-Tracks = record {
    known = λ a. ground (arith, t.known a, addr_eq_iff y.addr a);
    primaries = λ a. ground (arith, t.primaries a, addr_eq_iff y.addr a);
    counts = λ n. ground (arith, t.counts n, netif_eq_iff y.addr.nif n);
    listed = λ n. ground (arith, t.listed n, t.counts n, netif_eq_iff y.addr.nif n);
  }

  pub add-Leads :
      {es : List Event} {w : View} → Leads (add_view y c v) es w → Leads v (add_events y c es) w
  unfolding add_events
  add-Leads l =
      Leads-when (c y.addr.nif == 0) _ (λ p. ground (arith, t.listed y.addr.nif))
        (Leads.fire (ground (arith, t.listed y.addr.nif, netif_eq_iff y.addr.nif y.addr.nif)) (
          Leads-when y.primary _
            (λ p. ground (
              arith,
              t.primaries y.addr,
              t.known y.addr,
              addr_eq_iff y.addr y.addr,
              count_primary-le prev y.addr,
              count_primary-le done y.addr,
            ))
            l))

-- One address in place of another, of the same interface.
abbrev pub change_view : SnapshotAddr → SnapshotAddr → View → View
change_view x y v =
    let new = not (addr_eq x.addr y.addr) in
    if snapshot_addr_eq x y
    then v
    else apply_if y.primary (add_primary_address y.addr) (
        apply_if new (add_address y.addr)
          (apply_if new (del_address x.addr) (apply_if x.primary (del_primary_address x.addr) v)))

module _ (x y : SnapshotAddr) (prev done : Snapshot) (c : Counts) (v : View)
    (t : Tracks (x ∷ prev) done c v) (e : x.addr.nif ≡ y.addr.nif) where
  pub change-Tracks : Tracks prev (y ∷ done) c (change_view x y v)
  unfolding count_interfaces
  change-Tracks = record {
    known = λ a. ground (
      arith,
      t.known a,
      snapshot_addr_eq_iff x y,
      addr_eq_iff x.addr y.addr,
      addr_eq_iff x.addr a,
      addr_eq_iff y.addr a,
    );
    primaries = λ a. ground (
      arith,
      t.primaries a,
      snapshot_addr_eq_iff x y,
      addr_eq_iff x.addr y.addr,
      addr_eq_iff x.addr a,
      addr_eq_iff y.addr a,
    );
    counts = λ n. ground (arith, t.counts n, ap (λ m. netif_eq m n) e);
    listed = λ n. ground (arith, t.listed n);
  }

  pub change-Leads :
      {es : List Event} {w : View}
      → Leads (change_view x y v) es w
      → Leads v (change_events x y es) w
  unfolding change_events count_interfaces
  change-Leads l =
      let new = not (addr_eq x.addr y.addr) in
      let same = addr_eq_iff x.addr y.addr in
      let self = addr_eq_iff x.addr x.addr in
      let less = count_primary-le prev x.addr in
      let passed = count_primary-le done x.addr in
      Leads-if (snapshot_addr_eq x y) l (λ k.
        Leads-when x.primary _ (λ p. ground (arith, t.primaries x.addr, self))
          (Leads-when new _
            (λ p. ground (arith, t.primaries x.addr, t.known x.addr, self, less, passed))
            (Leads-when new _
              (λ p. ground (
                arith,
                t.listed x.addr.nif,
                t.counts x.addr.nif,
                netif_eq_iff x.addr.nif x.addr.nif,
                ap v.interfaces e,
              ))
              (Leads-when y.primary _
                (λ p. ground (
                  arith,
                  t.primaries y.addr,
                  t.known y.addr,
                  same,
                  addr_eq_iff y.addr y.addr,
                  count_primary-le prev y.addr,
                  count_primary-le done y.addr,
                ))
                k))))
