-- ===== src/Netstate.antt =====
-- internal/netstate: addresses of network interfaces, snapshots of them, and the events that bring a
-- client from one snapshot to the next.
pub mod Addr
pub mod Snapshot
pub mod Sync
pub mod Order
pub mod Sorted
pub mod Groups
pub mod Primary
pub mod Tests
