-- ===== src/Netstate/Tests.antt =====
-- Snapshots of a machine with two interfaces, and runs of the definitions on them.

use mfp.Go.Netip.{masked, prefix_overlaps, ip_less, prefix_from, ip_eq}
use mfp.Netstate.Sync.Same.{sync-nil_iff}
use mfp.Netstate.Sorted.{Sorted}
use mfp.Netstate.Groups.{entry}
use mfp.Netstate.Sync.Refines.{sync-Leads}
use mfp.Netstate.Sync.Flags.{sync_flags-not-Leads}
use mfp.Netstate.Primary.{snapshot_from_addrs_lem, occurrences}
use mfp.Go.Text.{codes}
use mfp.Netstate.Sync.Protocol.{view, Leads}
use mfp.Netstate.Snapshot.{
  interfaces_from, interfaces, has_interface, less_unmasked, mark_group, is_inner, behind_front,
  same_front, mark, equal, insert_addr, sort_addrs, snapshot_from_addrs, SnapshotAddr, Snapshot,
}
use mfp.Netstate.Addr.{
  netif_less, overlaps, narrower, addr_ip, unmasked, is4, less, NetIf, Agree, Addr,
}
use mfp.Netstate.Sync.{
  Event, add_events, count_interfaces, del_events, change_events, sync, add_primary_address,
  add_address, del_primary_address, del_address, add_interface,
}
use mfp.Base.{List, ap, ◌↔◌, map, ◌≡◌, arith, [], false, true, ◌∷◌, refl}

abbrev eth0 : NetIf
eth0 = record { index = 2; name = codes "eth0"; flags = 5 }

abbrev wlan0 : NetIf
wlan0 = record { index = 3; name = codes "wlan0"; flags = 5 }

-- 192.168.0.1/24, 192.168.0.65/26 and 192.168.0.1/16 of eth0, and 10.0.0.1/8 of wlan0
abbrev inner : Addr
inner = record {
  prefix = record { is6 = false; value = 0xc0a80041; bits_plus_one = 27 };
  nif = eth0;
}

abbrev outer : Addr
outer = record {
  prefix = record { is6 = false; value = 0xc0a80001; bits_plus_one = 25 };
  nif = eth0;
}

abbrev resized : Addr
resized = record {
  prefix = record { is6 = false; value = 0xc0a80001; bits_plus_one = 17 };
  nif = eth0;
}

abbrev wireless : Addr
wireless = record {
  prefix = record { is6 = false; value = 0x0a000001; bits_plus_one = 9 };
  nif = wlan0;
}

abbrev wired : Snapshot
wired = record { addr = outer; primary = true } ∷ record { addr = inner; primary = false } ∷ []

abbrev roaming : Snapshot
roaming =
    record { addr = resized; primary = true } ∷ record { addr = wireless; primary = true } ∷ []

abbrev same : Agree eth0 eth0
same = λ i n. refl

abbrev apart : Agree eth0 wlan0
apart = λ i n. absurd (omega arith)

marked : snapshot_from_addrs (inner ∷ outer ∷ []) ≡ wired
unfolding snapshot_from_addrs sort_addrs insert_addr mark same_front behind_front is_inner
    mark_group less is4 ip_eq addr_ip ip_less narrower overlaps prefix_overlaps masked
marked = refl

events :
    sync wired roaming
    ≡ del_primary_address outer
      ∷ del_address outer
      ∷ add_address resized
      ∷ add_primary_address resized
      ∷ del_address inner
      ∷ add_interface wlan0
      ∷ add_address wireless
      ∷ add_primary_address wireless
      ∷ []
unfolding sync less_unmasked less unmasked is4 prefix_from addr_ip ip_eq narrower overlaps
    prefix_overlaps change_events netif_less del_events count_interfaces add_events
events = refl

sync-Leads_example : Leads (view wired) (sync wired roaming) (view roaming)
sync-Leads_example = sync-Leads wired roaming (((same, (apart, tt)), ((same, (apart, tt)), tt)))

sync-nil_iff_example : (sync wired wired ≡ []) ↔ (equal wired wired ≡ true)
sync-nil_iff_example = sync-nil_iff wired wired

snapshot_from_addrs_lem_example :
    (snapshot_from_addrs (inner ∷ outer ∷ [])
      ≡ map (entry (inner ∷ outer ∷ [])) (sort_addrs (inner ∷ outer ∷ [])))
    × Sorted (sort_addrs (inner ∷ outer ∷ []))
    × ((a : Addr)
        → occurrences a (sort_addrs (inner ∷ outer ∷ [])) ≡ occurrences a (inner ∷ outer ∷ []))
snapshot_from_addrs_lem_example =
    snapshot_from_addrs_lem (inner ∷ outer ∷ [])
      (omega arith, ((same, tt), (omega arith, (tt, tt))))

abbrev neighbour : Addr
neighbour = record {
  prefix = record { is6 = false; value = 0xc0a80002; bits_plus_one = 25 };
  nif = eth0;
}

-- Both addresses of one network are primary.
both_primary :
    snapshot_from_addrs (outer ∷ neighbour ∷ [])
    ≡ record { addr = outer; primary = true } ∷ record { addr = neighbour; primary = true } ∷ []
unfolding snapshot_from_addrs mark sort_addrs insert_addr less is4 ip_eq addr_ip ip_less mark_group
    is_inner same_front narrower behind_front overlaps prefix_overlaps masked
both_primary = refl

abbrev wireless_primary : SnapshotAddr
wireless_primary = record { addr = wireless; primary = true }

abbrev moved : SnapshotAddr
moved = record { addr = record outer { nif = record eth0 { flags = 1 } }; primary = true }

abbrev stayed : SnapshotAddr
stayed = record { addr = outer; primary = true }

sync_flags-not-Leads_example :
    ((es : List Event) × (sync (stayed ∷ []) (moved ∷ wireless_primary ∷ [])
        ≡ del_primary_address outer
          ∷ del_address outer
          ∷ add_address moved.addr
          ∷ add_primary_address moved.addr
          ∷ es))
    × (¬ Leads
        (view (stayed ∷ []))
        (sync (stayed ∷ []) (moved ∷ wireless_primary ∷ []))
        (view (moved ∷ wireless_primary ∷ [])))
unfolding has_interface interfaces interfaces_from
sync_flags-not-Leads_example =
    sync_flags-not-Leads stayed moved [] (wireless_primary ∷ []) refl refl
      (λ e. absurd (omega (arith, ap NetIf.flags e))) refl
