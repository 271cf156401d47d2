-- ===== src/Netstate/Sync/Counting.antt =====
-- The counts that `Sync` keeps, against the addresses that it has yet to pass and has passed.

use mfp.Netstate.Sync.Protocol.{count_primary, count_addr, View}
use mfp.Netstate.Addr.{netif_eq_iff, addr_eq_iff, NetIf, Addr}
use mfp.Netstate.Sync.{Counts, count_interfaces}
use mfp.Netstate.Snapshot.{interfaces_from, has_interface, Snapshot}
use mfp.Base.{◌+◌, ltb, arith, ◌≤◌, ◌≡◌, List, [], refl, ◌∷◌, false}

-- `prev` is left, `done` is passed on already: what the receiver's view is by now.
pub record Tracks (prev done : Snapshot) (c : Counts) (v : View) : Type 0 where
  pub known : (a : Addr) → v.known a ≡ count_addr prev a + count_addr done a
  pub primaries : (a : Addr) → v.primaries a ≡ count_primary prev a + count_primary done a
  pub counts : (n : NetIf) → c n ≡ count_interfaces prev n + count_interfaces done n
  pub listed : (n : NetIf) → v.interfaces n ≡ ltb 0 (c n)

pub count_primary-le : (s : Snapshot) (a : Addr) → count_primary s a ≤ count_addr s a
count_primary-le [] a = omega arith
count_primary-le (x ∷ s) a = ground (arith, count_primary-le s a)

pub count_addr-le : (s : Snapshot) (a : Addr) → count_addr s a ≤ count_interfaces s a.nif
unfolding count_interfaces
count_addr-le [] a = omega arith
count_addr-le (x ∷ s) a =
    ground (arith, count_addr-le s a, addr_eq_iff x.addr a, netif_eq_iff x.addr.nif a.nif)

-- An interface is among those found exactly when an address of the snapshot belongs to it.
pub has_interface-interfaces_from :
    (found : List NetIf) (s : Snapshot) (n : NetIf)
    → has_interface n found ≡ false
    → has_interface n (interfaces_from found s) ≡ ltb 0 (count_interfaces s n)
unfolding has_interface interfaces_from count_interfaces
has_interface-interfaces_from found [] n h = refl
has_interface-interfaces_from found (x ∷ s) n h = ground (
  arith,
  netif_eq_iff x.addr.nif n,
  has_interface-interfaces_from found s n,
  has_interface-interfaces_from (x.addr.nif ∷ found) s n,
)
