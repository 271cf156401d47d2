-- ===== src/Discovery.antt =====
-- discovery: the cache of the print, scan and fax units that backends report, and the devices that
-- are made of them.
pub mod Collection
pub mod Model
pub mod Merge
pub mod Export
pub mod Output
pub mod Cache
pub mod Client
pub mod Tests
