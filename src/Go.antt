-- ===== src/Go.antt =====
-- What the program uses of Go itself: strings as byte lists, runes, and string-keyed maps.
pub mod Text
pub mod Utf8
pub mod Unicode
pub mod Bits
pub mod Maps
pub mod Order
pub mod Netip
pub mod Keyed
pub mod Int
