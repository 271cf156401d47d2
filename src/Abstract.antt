-- ===== src/Abstract.antt =====
-- abstract: the capabilities of a scanner, requests for a scan, and their validation.
pub mod Bitset
pub mod Capabilities
pub mod Dimension
pub mod Request
