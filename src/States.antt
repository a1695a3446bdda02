-- ===== src/States.antt =====
-- The actions of the states: proto-standard/state-*.c with proto-standard/common-fun.c.
pub mod World
pub mod Common
pub mod Slave
pub mod Total
pub mod Exact
pub mod Answer
pub mod Waiting
pub mod Tables
pub mod Forgotten
pub mod Lost
pub mod Interval
