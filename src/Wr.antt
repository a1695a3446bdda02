-- ===== src/Wr.antt =====
-- proto-ext-whiterabbit: the handshake of the White Rabbit extension.
pub mod Port
pub mod Signaling
pub mod Packing
pub mod Common
pub mod Steps
pub mod Run
pub mod Retry
pub mod Ticking
pub mod GiveUp
pub mod Order
pub mod Edges
pub mod Handshake
