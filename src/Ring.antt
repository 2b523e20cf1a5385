-- ===== src/Ring.antt =====
-- src/ring.rs: the fixed-slot ring transport, a module for each part.
pub mod Types
pub mod Image
pub mod Send
pub mod Regions
pub mod Slots
pub mod Ack
pub mod Layout
pub mod Construct
pub mod Poll
