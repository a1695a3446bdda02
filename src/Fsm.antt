-- ===== src/Fsm.antt =====
-- The protocol state machine of fsm.c, which runs a port's state, its extension and the best master
-- clock algorithm.
pub mod Link
pub mod Frame
pub mod Machine
pub mod Filter
pub mod Change
