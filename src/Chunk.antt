-- ===== src/Chunk.antt =====
-- src/conventions.rs: chunks and their addresses. `Keccak` is the hash, `Bmt` the binary Merkle
-- tree over a chunk, `Address` what is computed from both,
-- `Signer` the single owner chunks, and `Proximity` the order of addresses.
pub mod Keccak
pub mod Bmt
pub mod Address
pub mod Signer
pub mod Proximity
mod Tests
