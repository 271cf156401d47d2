-- ===== src/Netstate/Sync/Protocol.antt =====
-- What internal/netstate/event.go promises to the receiver of events: a view of the network that
-- each event may change, and the order in which events may come.

use mfp.Netstate.Snapshot.{interfaces, has_interface, Snapshot}
use mfp.Netstate.Addr.{netif_eq, addr_eq, NetIf, Addr}
use mfp.Netstate.Sync.{
  Event, del_primary_address, del_interface, add_interface, add_address, add_primary_address,
  del_address,
}
use mfp.Base.{◌-◌, ◌+◌, ◌&&◌, ◌≡◌, ℕ, if◌then◌else◌, List, Bool, [], ◌∷◌, true, false, ◌<◌}

-- How often an address is known, and known as primary: order is forgotten.
pub record View : Type 0 where
  pub interfaces : NetIf → Bool
  pub known : Addr → ℕ
  pub primaries : Addr → ℕ

abbrev pub set_interface : (NetIf → Bool) → NetIf → Bool → NetIf → Bool
set_interface f n b m = if netif_eq n m then b else f m

abbrev pub put : (Addr → ℕ) → Addr → Addr → ℕ
put f a b = if addr_eq a b then f b + 1 else f b

abbrev pub take_out : (Addr → ℕ) → Addr → Addr → ℕ
take_out f a b = if addr_eq a b then f b - 1 else f b

abbrev pub apply : Event → View → View
apply (add_interface n) v = record v { interfaces = set_interface v.interfaces n true }
apply (del_interface n) v = record v { interfaces = set_interface v.interfaces n false }
apply (add_address a) v = record v { known = put v.known a }
apply (del_address a) v = record v { known = take_out v.known a }
apply (add_primary_address a) v = record v { primaries = put v.primaries a }
apply (del_primary_address a) v = record v { primaries = take_out v.primaries a }

-- An interface arrives before its addresses and leaves when it has none, an address arrives before
-- it becomes primary and leaves when it is primary no longer, and nothing is deleted that is not
-- there.
abbrev pub Allowed : Event → View → Type 0
Allowed (add_interface n) v = v.interfaces n ≡ false
Allowed (del_interface n) v = (v.interfaces n ≡ true) × ((a : Addr) → a.nif ≡ n → v.known a ≡ 0)
Allowed (add_address a) v = v.interfaces a.nif ≡ true
Allowed (del_address a) v = v.primaries a < v.known a
Allowed (add_primary_address a) v = v.primaries a < v.known a
Allowed (del_primary_address a) v = 0 < v.primaries a

-- The events, each allowed where it comes, lead from one view to the other.
pub data Leads : View → List Event → View → Type 0 where
  here : {v w : View} → v ≡ w → Leads v [] w
  fire :
      {v w : View} {e : Event} {es : List Event}
      → Allowed e v
      → Leads (apply e v) es w
      → Leads v (e ∷ es) w

-- The view that a snapshot stands for.
abbrev pub one_if : Bool → ℕ
one_if true = 1
one_if false = 0

abbrev pub count_addr : Snapshot → Addr → ℕ
count_addr [] a = 0
count_addr (x ∷ s) a = one_if (addr_eq x.addr a) + count_addr s a

abbrev pub count_primary : Snapshot → Addr → ℕ
count_primary [] a = 0
count_primary (x ∷ s) a = one_if (x.primary && addr_eq x.addr a) + count_primary s a

unfoldable pub view : Snapshot → View
view s = record {
  interfaces = λ n. has_interface n (interfaces s);
  known = count_addr s;
  primaries = count_primary s;
}
