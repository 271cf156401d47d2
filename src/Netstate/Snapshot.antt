-- ===== src/Netstate/Snapshot.antt =====
-- internal/netstate/snapshot.go: a snapshot, made from a list of addresses.

use mfp.Go.Netip.{bool_eq}
use mfp.Netstate.Addr.{
  addr_eq_iff, unmasked, same_interface, netif_eq, narrower, less, addr_eq, NetIf, Addr,
}
use mfp.Base.{
  ◌||◌, arith, ◌↔◌, ◌++◌, ◌&&◌, not, length, if◌then◌else◌, ◌≡◌, ℕ, List, Bool, false, ◌∷◌, true,
  [], suc, zero,
}

pub record SnapshotAddr : Type 0 where
  pub addr : Addr
  pub primary : Bool

abbrev pub Snapshot : Type 0
Snapshot = List SnapshotAddr

-- `==`
abbrev pub snapshot_addr_eq : SnapshotAddr → SnapshotAddr → Bool
snapshot_addr_eq x y = addr_eq x.addr y.addr && bool_eq x.primary y.primary

unfoldable pub less_unmasked : SnapshotAddr → SnapshotAddr → Bool
less_unmasked x y = less (unmasked x.addr) (unmasked y.addr)

-- `sort.Slice` by `less`. Its contract is a sorted permutation; this one moves no equal elements.
unfoldable pub insert_addr : Addr → List Addr → List Addr
insert_addr a [] = a ∷ []
insert_addr a (b ∷ bs) = if less b a then b ∷ insert_addr a bs else a ∷ b ∷ bs

unfoldable pub sort_addrs : List Addr → List Addr
sort_addrs [] = []
sort_addrs (a ∷ as') = insert_addr a (sort_addrs as')

-- The addresses at the front that share the interface of `a`, and those behind them.
unfoldable pub same_front : Addr → List Addr → List Addr
same_front a [] = []
same_front a (b ∷ bs) = if same_interface a b then b ∷ same_front a bs else []

unfoldable pub behind_front : Addr → List Addr → List Addr
behind_front a [] = []
behind_front a (b ∷ bs) = if same_interface a b then behind_front a bs else b ∷ bs

-- Whether an address of the group has a wider mask. An address is not narrower than itself, so the
-- test `i != j` changes nothing.
unfoldable pub is_inner : Addr → List Addr → Bool
is_inner a [] = false
is_inner a (b ∷ bs) = narrower a b || is_inner a bs

unfoldable pub mark_group : List Addr → List Addr → Snapshot
mark_group group [] = []
mark_group group (a ∷ rest) =
    record { addr = a; primary = not (is_inner a group) } ∷ mark_group group rest

-- Each round takes one group, so the count of addresses is fuel enough.
unfoldable pub mark : ℕ → List Addr → Snapshot
mark zero addrs = []
mark (suc fuel) [] = []
mark (suc fuel) (a ∷ rest) =
    let group = a ∷ same_front a rest in mark_group group group ++ mark fuel (behind_front a rest)

unfoldable pub snapshot_from_addrs : List Addr → Snapshot
snapshot_from_addrs addrs = mark (length addrs) (sort_addrs addrs)

unfoldable pub equal : Snapshot → Snapshot → Bool
equal [] [] = true
equal [] (y ∷ t) = false
equal (x ∷ s) [] = false
equal (x ∷ s) (y ∷ t) = snapshot_addr_eq x y && equal s t

-- Whether an interface is among those found.
unfoldable pub has_interface : NetIf → List NetIf → Bool
has_interface n [] = false
has_interface n (m ∷ ms) = netif_eq m n || has_interface n ms

-- The interfaces, in the order of their first addresses, behind those found so far.
unfoldable pub interfaces_from : List NetIf → Snapshot → List NetIf
interfaces_from found [] = []
interfaces_from found (x ∷ s) =
    let n = x.addr.nif in
    let skip = interfaces_from found s in
    let add = n ∷ interfaces_from (n ∷ found) s in if has_interface n found then skip else add

unfoldable pub interfaces : Snapshot → List NetIf
interfaces = interfaces_from []

unfoldable pub addrs : Snapshot → List Addr
addrs [] = []
addrs (x ∷ s) = x.addr ∷ addrs s

unfoldable pub primary_addrs : Snapshot → List Addr
primary_addrs [] = []
primary_addrs (x ∷ s) = if x.primary then x.addr ∷ primary_addrs s else primary_addrs s

pub snapshot_addr_eq_iff : (x y : SnapshotAddr) → (snapshot_addr_eq x y ≡ true) ↔ (x ≡ y)
snapshot_addr_eq_iff x y = ground (arith, addr_eq_iff x.addr y.addr)
