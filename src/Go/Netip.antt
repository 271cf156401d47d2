-- ===== src/Go/Netip.antt =====
-- net/netip, as the program uses it: an address is its family and its value, with a zone; a
-- prefix keeps the count of its mask's bits plus one, and 0 there if that count is not valid.

use mfp.Go.Order.{text_lt_trans, text_lt_total, text_lt_irrefl}
use mfp.Go.Text.{text_lt, text_eq_iff, text_eq, Text}
use mfp.Base.{
  ◌%◌, [], ◌-◌, ◌+◌, ◌||◌, ◌^◌, ◌==◌, ltb, leb, arith, ◌↔◌, ◌/◌, ◌&&◌, not, if◌then◌else◌, ◌≡◌, ℕ,
  Bool, false, true,
}

pub record Ip : Type 0 where
  pub is6 : Bool
  pub value : ℕ
  pub zone : Text

pub record Prefix : Type 0 where
  pub is6 : Bool
  pub value : ℕ
  pub bits_plus_one : ℕ

abbrev pub bool_eq : Bool → Bool → Bool
bool_eq true b = b
bool_eq false b = not b

-- `Addr.BitLen`
abbrev pub bit_len : Bool → ℕ
bit_len true = 128
bit_len false = 32

-- `netip.PrefixFrom`, which drops the zone.
unfoldable pub prefix_from : Ip → ℕ → Prefix
prefix_from ip bits = record {
  is6 = ip.is6;
  value = ip.value;
  bits_plus_one = if leb bits (bit_len ip.is6) then bits + 1 else 0;
}

-- `Addr.Is4In6`: the first 80 bits are 0 and the next 16 are 1.
abbrev pub is_4_in_6 : Bool → ℕ → Bool
is_4_in_6 is6 value = is6 && value / 2 ^ 32 == 0xffff

-- `Addr.Unmap`
unfoldable pub unmap : Ip → Ip
unmap ip =
    if is_4_in_6 ip.is6 ip.value
    then record { is6 = false; value = ip.value % 2 ^ 32; zone = [] }
    else ip

-- `Addr.IsLinkLocalUnicast` of an IPv6 address: fe80::/10.
abbrev pub is_link_local_6 : ℕ → Bool
is_link_local_6 value = value / 2 ^ 118 == 0x3fa

-- `==`
unfoldable pub ip_eq : Ip → Ip → Bool
ip_eq a b = bool_eq a.is6 b.is6 && a.value == b.value && text_eq a.zone b.zone

abbrev pub prefix_eq : Prefix → Prefix → Bool
prefix_eq p q = bool_eq p.is6 q.is6 && p.value == q.value && p.bits_plus_one == q.bits_plus_one

-- `Addr.Less`: by family, then by value, then by zone.
unfoldable pub ip_less : Ip → Ip → Bool
ip_less a b =
    not a.is6 && b.is6
    || bool_eq a.is6 b.is6 && (ltb a.value b.value || a.value == b.value && text_lt a.zone b.zone)

-- The first `bits` bits of an address.
unfoldable pub masked : Bool → ℕ → ℕ → ℕ
masked is6 value bits = value / 2 ^ (bit_len is6 - bits)

-- `Prefix.Overlaps`
unfoldable pub prefix_overlaps : Prefix → Prefix → Bool
prefix_overlaps p q =
    let bits =
      (if ltb p.bits_plus_one q.bits_plus_one then p.bits_plus_one else q.bits_plus_one) - 1 in
    if p.bits_plus_one == 0 || q.bits_plus_one == 0
    then false
    else if prefix_eq p q
    then true
    else if not (bool_eq p.is6 q.is6)
    then false
    else if bits == 0
    then true
    else masked p.is6 p.value bits == masked q.is6 q.value bits

pub bool_eq_iff : (a b : Bool) → (bool_eq a b ≡ true) ↔ (a ≡ b)
bool_eq_iff a b = ground arith

pub ip_eq_iff : (a b : Ip) → (ip_eq a b ≡ true) ↔ (a ≡ b)
unfolding ip_eq
ip_eq_iff a b = ground (arith, text_eq_iff a.zone b.zone)

pub prefix_eq_iff : (p q : Prefix) → (prefix_eq p q ≡ true) ↔ (p ≡ q)
prefix_eq_iff p q = ground arith

pub ip_less_trans : (a b c : Ip) → ip_less a b ≡ true → ip_less b c ≡ true → ip_less a c ≡ true
unfolding ip_less
ip_less_trans a b c h k = ground (arith, text_lt_trans a.zone b.zone c.zone)

pub ip_less_irrefl : (a : Ip) → ip_less a a ≡ false
unfolding ip_less
ip_less_irrefl a = ground (arith, text_lt_irrefl a.zone)

pub ip_less_total : (a b : Ip) → ip_less a b ≡ false → ip_less b a ≡ false → a ≡ b
unfolding ip_less
ip_less_total a b h k = ground (arith, text_lt_total a.zone b.zone)
