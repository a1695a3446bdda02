-- ===== src/Servo.antt =====
-- The servo of a slave: proto-standard/servo.c.
pub mod Product
pub mod Exact
pub mod Shift
pub mod Halves
pub mod Expansion
pub mod Port
pub mod Control
pub mod Bounds
pub mod Drift
pub mod Steps
pub mod Update
pub mod Calls
pub mod Output
pub mod Delays
pub mod Instances
