-- ===== src/Compare.antt =====
-- examples/compare.rs: the benchmark of the ring against point-to-point messages.
pub mod Rtt
pub mod PointToPoint
pub mod Payload
pub mod Stream
pub mod Duo
pub mod Turns
pub mod Acts
pub mod Delivered
