-- ===== src/Netstate/Order.antt =====
-- The order of addresses, `Addr.Less`: strict on all addresses, and total on valid ones.

use mfp.Go.Order.{text_lt_trans, text_lt_total, text_lt_irrefl}
use mfp.Go.Netip.{
  ip_less_trans, ip_less_irrefl, ip_less_total, masked, ip_eq_iff, prefix_eq_iff, bool_eq_iff,
  prefix_overlaps, Ip,
}
use mfp.Netstate.Addr.{
  Agree, is4, netif_eq_iff, netif_eq, addr_ip, overlaps, NetIf, netif_less, narrower, less, Addr,
}
use mfp.Base.{ap, ◌∙◌, ltb, arith, ◌≡◌, true, false, ◌<◌}

netif_less_trans :
    (n m k : NetIf) → netif_less n m ≡ true → netif_less m k ≡ true → netif_less n k ≡ true
unfolding netif_less
netif_less_trans n m k h h' = ground (arith, text_lt_trans n.name m.name k.name)

netif_less_irrefl : (n : NetIf) → netif_less n n ≡ false
unfolding netif_less
netif_less_irrefl n = ground (arith, text_lt_irrefl n.name)

-- Its mask has a valid count of bits.
abbrev pub IsValid : Addr → Type 0
IsValid a = 0 < a.prefix.bits_plus_one

-- Addresses of one interface with the same IP address differ by their masks alone.
narrower_same_ip :
    (a b : Addr)
    → a.nif ≡ b.nif
    → addr_ip a ≡ addr_ip b
    → IsValid a
    → IsValid b
    → narrower a b ≡ ltb b.prefix.bits_plus_one a.prefix.bits_plus_one
unfolding narrower overlaps prefix_overlaps addr_ip
narrower_same_ip a b n i v w = ground (
  arith,
  netif_eq_iff a.nif b.nif,
  prefix_eq_iff a.prefix b.prefix,
  ap Ip.value i,
  ap Ip.is6 i,
  ap (λ (x : Ip). masked x.is6 x.value) i,
)

narrower-IsValid : (a b : Addr) → narrower a b ≡ true → IsValid a × IsValid b
unfolding narrower overlaps prefix_overlaps
narrower-IsValid a b h = (ground arith, ground arith)

pub narrower_irrefl : (a : Addr) → narrower a a ≡ false
unfolding narrower
narrower_irrefl a = ground arith

pub narrower_nif : (a b : Addr) → narrower a b ≡ true → netif_eq a.nif b.nif ≡ true
unfolding narrower overlaps
narrower_nif a b h = ground arith

narrower_trans :
    (a b c : Addr)
    → a.nif ≡ b.nif
    → b.nif ≡ c.nif
    → addr_ip a ≡ addr_ip b
    → addr_ip b ≡ addr_ip c
    → narrower a b ≡ true
    → narrower b c ≡ true
    → narrower a c ≡ true
narrower_trans a b c n m i j h k =
    let v = narrower-IsValid a b h in
    let w = narrower-IsValid b c k in
    ground (
      arith,
      narrower_same_ip a b n i v.0 v.1,
      narrower_same_ip b c m j w.0 w.1,
      narrower_same_ip a c (n ∙ m) (i ∙ j) v.0 w.1,
    )

pub less_irrefl : (a : Addr) → less a a ≡ false
unfolding less
less_irrefl a = ground (
  arith,
  narrower_irrefl a,
  netif_eq_iff a.nif a.nif,
  bool_eq_iff (is4 a) (is4 a),
  ip_eq_iff (addr_ip a) (addr_ip a),
)

pub less_trans : (a b c : Addr) → less a b ≡ true → less b c ≡ true → less a c ≡ true
unfolding less
less_trans a b c h k = ground (
  arith,
  netif_eq_iff a.nif b.nif,
  netif_eq_iff b.nif c.nif,
  netif_eq_iff a.nif c.nif,
  netif_less_trans a.nif b.nif c.nif,
  netif_less_irrefl a.nif,
  ip_eq_iff (addr_ip a) (addr_ip b),
  ip_eq_iff (addr_ip b) (addr_ip c),
  ip_eq_iff (addr_ip a) (addr_ip c),
  ip_less_trans (addr_ip a) (addr_ip b) (addr_ip c),
  ip_less_irrefl (addr_ip a),
  narrower_trans a b c,
)

same_parts :
    (a b : Addr)
    → a.nif ≡ b.nif
    → addr_ip a ≡ addr_ip b
    → a.prefix.bits_plus_one ≡ b.prefix.bits_plus_one
    → a ≡ b
unfolding addr_ip
same_parts a b n i e = ground (arith, ap Ip.value i, ap Ip.is6 i)

-- Of two different addresses one comes first.
pub less_total :
    (a b : Addr)
    → Agree a.nif b.nif
    → IsValid a
    → IsValid b
    → less a b ≡ false
    → less b a ≡ false
    → a ≡ b
unfolding less netif_less
less_total a b g v w h k = ground (
  arith,
  netif_eq_iff a.nif b.nif,
  netif_eq_iff b.nif a.nif,
  text_lt_total a.nif.name b.nif.name,
  bool_eq_iff (is4 a) (is4 b),
  ip_eq_iff (addr_ip a) (addr_ip b),
  ip_eq_iff (addr_ip b) (addr_ip a),
  ip_less_total (addr_ip a) (addr_ip b),
  narrower_same_ip a b,
  narrower_same_ip b a,
  same_parts a b,
)
