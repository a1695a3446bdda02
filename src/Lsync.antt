-- ===== src/Lsync.antt =====
-- proto-ext-l1sync: the state machine of the L1Sync extension (annex L of IEEE 1588-2019), and its
-- message.
pub mod Port
pub mod Events
pub mod Steps
pub mod Order
pub mod Run
pub mod Packing
pub mod Peer
