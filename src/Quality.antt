-- ===== src/Quality.antt =====
-- The quality that a device announces of its clock: proto-standard/bmc_clock_quality.c.
pub mod Tables
pub mod Update
pub mod Lookup
pub mod Bounds
pub mod Follow
pub mod Worst
pub mod History
pub mod Defaults
