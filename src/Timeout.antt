-- ===== src/Timeout.antt =====
-- timeout.c and include/ppsi/timeout_prot.h: the counters of every instance and of the whole program.
-- A counter that does not depend on the instance is kept in instance 0. `unsigned long` has 64 bits.
pub mod Clock
pub mod Defs
pub mod Reset
pub mod Expiry
pub mod Bounds
pub mod Owner
pub mod Frame
pub mod Ports
