-- ===== src/Erasure.antt =====
-- src/erasure_coding.rs: redundancy levels, the shape of the chunk tree, the resource bundle, and
-- Reed-Solomon coding over GF(256). A child module for each of these.
pub mod Level
pub mod Span
pub mod Tree
pub mod Layout
pub mod Bundle
pub mod Slices
pub mod MatrixCache
pub mod BinaryField
pub mod Gf256
pub mod Gauss
pub mod Coding
pub mod Reconstruct
pub mod ReedSolomon
mod Tests
