-- ===== src/Bmc.antt =====
-- proto-standard/bmc.c: the best master clock algorithm. The functions that take an instance only to
-- reach the globals take the globals here. The compile-time code optimisations are off, as by default.
pub mod Compare
pub mod Order
pub mod DataSets
pub mod Slave
pub mod Table
pub mod Add
pub mod Select
pub mod Decision
pub mod Apply
pub mod Remove
pub mod Safety
pub mod Choice
pub mod Invariant
pub mod Arrival
pub mod Known
pub mod Qualify
