-- ===== src/Msg.antt =====
-- proto-standard/msg.c: the packing and unpacking of messages.
pub mod Bytes
pub mod Octets
pub mod Header
pub mod Announce
pub mod Timestamp
pub mod RoundTrip
pub mod Events
pub mod Exact
pub mod Answer
pub mod Issue
pub mod Pair
pub mod Signaling
