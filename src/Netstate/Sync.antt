-- ===== src/Netstate/Sync.antt =====
-- internal/netstate/event.go and snapshot.Sync: the events that turn one snapshot into another.

pub mod Protocol
pub mod Counting
pub mod Replay
pub mod Refines
pub mod Same
pub mod Flags
use mfp.Netstate.Snapshot.{snapshot_addr_eq, less_unmasked, SnapshotAddr, Snapshot}
use mfp.Netstate.Addr.{addr_eq, netif_eq, Addr, NetIf}
use mfp.Base.{not, ◌==◌, ◌-◌, ◌+◌, ℕ, if◌then◌else◌, List, Bool, ◌∷◌, true, [], false}

-- `EventError` comes from the operating system's notifier and not from `Sync`.
pub data Event : Type 0 where
  add_interface : NetIf → Event
  del_interface : NetIf → Event
  add_address : Addr → Event
  del_address : Addr → Event
  add_primary_address : Addr → Event
  del_primary_address : Addr → Event

-- `map[NetIf]int`: a missing key counts 0.
abbrev pub Counts : Type 0
Counts = NetIf → ℕ

abbrev pub set_count : Counts → NetIf → ℕ → Counts
set_count c n k m = if netif_eq n m then k else c m

unfoldable pub count_interfaces : Snapshot → Counts
count_interfaces [] n = 0
count_interfaces (x ∷ s) n = (if netif_eq x.addr.nif n then 1 else 0) + count_interfaces s n

-- `if cond { events = append(events, e) }`, with the events that follow.
abbrev pub when : Bool → Event → List Event → List Event
when true e es = e ∷ es
when false e es = es

-- One address less, one more, and one in place of another; `es` are the events of later rounds. No
-- count goes below 0, since each address of `prev` was counted.
unfoldable pub del_events : SnapshotAddr → Counts → List Event → List Event
del_events x c es =
    when x.primary (del_primary_address x.addr)
      (del_address x.addr ∷ when (c x.addr.nif == 1) (del_interface x.addr.nif) es)

unfoldable pub add_events : SnapshotAddr → Counts → List Event → List Event
add_events y c es =
    when (c y.addr.nif == 0) (add_interface y.addr.nif)
      (add_address y.addr ∷ when y.primary (add_primary_address y.addr) es)

unfoldable pub change_events : SnapshotAddr → SnapshotAddr → List Event → List Event
change_events x y es =
    if snapshot_addr_eq x y
    then es
    else when x.primary (del_primary_address x.addr) (
        when (not (addr_eq x.addr y.addr)) (del_address x.addr) (
          when (not (addr_eq x.addr y.addr)) (add_address y.addr)
            (when y.primary (add_primary_address y.addr) es)))

-- The counts behind a round that drops an address, and behind one that adds an address.
abbrev pub dropped : SnapshotAddr → Counts → Counts
dropped x c = set_count c x.addr.nif (c x.addr.nif - 1)

abbrev pub added : SnapshotAddr → Counts → Counts
added y c = set_count c y.addr.nif (c y.addr.nif + 1)

-- Each round of the loop shortens one list or both.
unfoldable pub sync_from : Snapshot → Snapshot → Counts → List Event
sync_from [] [] c = []
sync_from (x ∷ prev) [] c = del_events x c (sync_from prev [] (dropped x c))
sync_from [] (y ∷ next) c = add_events y c (sync_from [] next (added y c))
sync_from (x ∷ prev) (y ∷ next) c =
    let del = del_events x c (sync_from prev (y ∷ next) (dropped x c)) in
    let add = add_events y c (sync_from (x ∷ prev) next (added y c)) in
    let change = change_events x y (sync_from prev next c) in
    if less_unmasked x y then del else if less_unmasked y x then add else change

unfoldable pub sync : Snapshot → Snapshot → List Event
unfolding sync_from
sync prev next = sync_from prev next (count_interfaces prev)
