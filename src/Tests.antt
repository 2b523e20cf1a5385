-- ===== src/Tests.antt =====
-- Runs of the modelled code of src/ring.rs and src/window.rs on small inputs, and each result that
-- has hypotheses applied to such an input.
mod Setup
mod Windows
mod Images
mod Lanes
mod Allocations
mod Layouts
mod Protocols
mod RawLanes
mod Segments
mod Soaks
mod Refinements
mod Streams
mod Networks
mod Verdicts
