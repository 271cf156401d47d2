-- ===== src/Netstate/Addr.antt =====
-- internal/netstate/netif.go and internal/netstate/addr.go: network interfaces, their addresses, and
-- the order in which a snapshot keeps them.

use mfp.Go.Text.{text_lt, text_eq_iff, text_eq, Text}
use mfp.Go.Netip.{
  unmap, ip_less, prefix_eq_iff, ip_eq, prefix_overlaps, is_link_local_6, is_4_in_6, bool_eq,
  prefix_eq, bit_len, prefix_from, Prefix, Ip,
}
use mfp.Base.{◌||◌, arith, ◌↔◌, ◌==◌, ◌&&◌, not, ltb, if◌then◌else◌, ◌≡◌, ℕ, Bool, true, []}

-- The index is a positive number; the flags are an int of three bits.
pub record NetIf : Type 0 where
  pub index : ℕ
  pub name : Text
  pub flags : ℕ

-- `==`
abbrev pub netif_eq : NetIf → NetIf → Bool
netif_eq n m = n.index == m.index && text_eq n.name m.name && n.flags == m.flags

unfoldable pub netif_less : NetIf → NetIf → Bool
netif_less n m = ltb n.index m.index || n.index == m.index && text_lt n.name m.name

pub record Addr : Type 0 where
  pub prefix : Prefix
  pub nif : NetIf

-- `==`
abbrev pub addr_eq : Addr → Addr → Bool
addr_eq a b = prefix_eq a.prefix b.prefix && netif_eq a.nif b.nif

-- The IP address, with the interface's name as its zone if it is link-local.
unfoldable pub addr_ip : Addr → Ip
addr_ip a = record {
  is6 = a.prefix.is6;
  value = a.prefix.value;
  zone = if a.prefix.is6 && is_link_local_6 a.prefix.value then a.nif.name else [];
}

unfoldable pub addr_from_ip_net : Ip → ℕ → NetIf → Addr
addr_from_ip_net ip ones nif = record { prefix = prefix_from (unmap ip) ones; nif = nif }

abbrev pub same_interface : Addr → Addr → Bool
same_interface a b = netif_eq a.nif b.nif

unfoldable pub overlaps : Addr → Addr → Bool
overlaps a b = same_interface a b && prefix_overlaps a.prefix b.prefix

-- `addr.Bits() > addr2.Bits()`: the counts of bits in the same order as they are kept.
unfoldable pub narrower : Addr → Addr → Bool
narrower a b = overlaps a b && ltb b.prefix.bits_plus_one a.prefix.bits_plus_one

abbrev pub wider : Addr → Addr → Bool
wider a b = narrower b a

unfoldable pub is4 : Addr → Bool
is4 a = not a.prefix.is6 || is_4_in_6 a.prefix.is6 a.prefix.value

unfoldable pub less : Addr → Addr → Bool
less a b =
    if not (same_interface a b)
    then netif_less a.nif b.nif
    else if not (bool_eq (is4 a) (is4 b))
    then is4 a
    else if not (ip_eq (addr_ip a) (addr_ip b))
    then ip_less (addr_ip a) (addr_ip b)
    else narrower a b

unfoldable pub unmasked : Addr → Addr
unmasked a = record { prefix = prefix_from (addr_ip a) (bit_len a.prefix.is6); nif = a.nif }

unfoldable pub similar : Addr → Addr → Bool
similar a b = addr_eq (unmasked a) (unmasked b)

pub netif_eq_iff : (n m : NetIf) → (netif_eq n m ≡ true) ↔ (n ≡ m)
netif_eq_iff n m = ground (arith, text_eq_iff n.name m.name)

pub addr_eq_iff : (a b : Addr) → (addr_eq a b ≡ true) ↔ (a ≡ b)
addr_eq_iff a b = ground (arith, prefix_eq_iff a.prefix b.prefix, netif_eq_iff a.nif b.nif)

-- Interfaces with the same index and name have the same flags too.
abbrev pub Agree : NetIf → NetIf → Type 0
Agree n m = n.index ≡ m.index → n.name ≡ m.name → n ≡ m
