-- ===== src/Retrieval.antt =====
-- src/retrieval_conventions.rs: generations, cancellation, admission, hedge demand and the
-- singleflight registry of chunk retrieval. A child module for each.
pub mod Generation
pub mod Cancel
pub mod Admission
pub mod Hedge
pub mod Singleflight
mod Tests
