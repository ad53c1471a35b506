-- ===== src/Format.antt =====
-- crates/core/src/format.rs: the wire records of the v2 format, one module for each.
pub mod Constants
pub mod Enums
pub mod Lengths
pub mod SnapshotHeader
pub mod SegmentHeader
pub mod SegmentRecord
pub mod FileRecord
pub mod PathSlot
pub mod PageRecord
pub mod BlockRef
pub mod Page
mod Tests
