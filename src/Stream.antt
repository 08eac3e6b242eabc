-- ===== src/Stream.antt =====
-- src/stream_conventions.rs: byte ranges, the keys of cached windows, and how far a player reads
-- ahead. A child module for each.
pub mod Range
pub mod WindowKey
pub mod Prefetch
mod Tests
