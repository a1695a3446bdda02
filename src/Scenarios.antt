-- ===== src/Scenarios.antt =====
-- Devices, masters and messages on which the theorems are applied and the definitions run.
mod Device
mod Clocks
mod Masters
mod Decisions
mod Frames
mod Messages
mod Handshake
mod Link
mod Times
mod Servos
mod Qualities
mod Actions
