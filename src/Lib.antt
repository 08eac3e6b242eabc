-- ===== src/Lib.antt =====
-- A verification library for weeb-3, a Swarm light node that runs in a browser.
--
-- The parts of the program and how they interact. A retrieval (src/retrieval.rs) asks peers for a
-- chunk. Requests for the same chunk share a flight of the singleflight registry; a stream cancels
-- its older requests by generation numbers; an admission bounds the physical exchanges of one
-- retrieval (src/retrieval_conventions.rs). Each exchange first reserves its price at the peer's
-- account, and settles or cancels it afterwards (src/accounting.rs). Chunks form a tree whose
-- groups carry parity chunks (src/erasure_coding.rs), and uploads of several files travel in a
-- resource bundle. A collection is a tree of manifest nodes, which a resolution walks under shared
-- budgets (src/manifest.rs).
--
-- The files:
--   Prelude.antt and Prelude/: words of 64 and of 32 bits with the source's saturating, checked and
--     wrapping operations, bytes, lists, UTF-8 and association lists.
--   Accounting/: src/accounting.rs and `PeerAccounting` of src/conventions.rs. An account is the
--     record `Account`; an operation maps a `Session` (the account, the channel of instructions,
--     the notifications) to the next one. `Flight` and `Ownership` are step relations over them.
--   Erasure/: src/erasure_coding.rs. `Level` has the tables, `Span` the level byte, `Tree` the
--     chunk count of an upload, `Layout` the references of an intermediate chunk, `Bundle` the
--     resource bundle.
--   Erasure/MatrixCache.antt: the cache of coding matrices.
--   Erasure/Gf256.antt and below: multiplication in GF(256), and its laws. `BinaryField` is the
--     interface: the operations and laws of a field in which every element is its own negative.
--     `Gf256.Instance` has bytes for it, and the rest is over any such field.
--   Erasure/Gauss.antt and below: `gauss_jordan`. `Rows` has its steps on rows, `Pivot` the trade
--     of rows, `Round`, `Forward` and `Backward` the two loops, `Solve` the solutions.
--   Erasure/Coding.antt and below: the coding matrix and the rows that decode a selection.
--     `Polynomials` and `RootPoly` have what a Vandermonde matrix computes, `Inverse`, `Systematic`
--     and `Matrix` the coding matrix, `Decode` and `Selected` the decoding rows.
--   Erasure/Reconstruct.antt and below: `ParityEncoder` and `reconstruct_data_indices`.
--   Erasure/ReedSolomon.antt: all of this for bytes.
--   Erasure/Slices.antt: the windows in which a file is read for an upload.
--   Retrieval/: src/retrieval_conventions.rs. A child for each of its parts.
--   Progress/: src/events.rs, the store of progress rows that the page polls.
--   Stream/: parts of src/stream_conventions.rs: `Range` the byte ranges of requests, `WindowKey`
--     the keys of cached windows, `Prefetch` the stages of reading ahead.
--   Chain/: src/on_chain_conventions.rs, the words of contract calls and answers.
--   Manifest/: src/manifest.rs, and the writing of nodes in src/manifest_upload.rs. `Fork` has the
--     entries of a node, `Node` how a node is written, `Parse` how it is read, `Guard` the budgets
--     that all branches of a resolution share, `Prefix` how paths are cut into edges.
--   Chunk/: src/conventions.rs. `Keccak` is the hash as it is written, `Bmt` the binary Merkle tree
--     over a chunk, `Address` the addresses of chunks, with those of feed entries of src/feed.rs,
--     `Signer` single owner chunks, `Proximity` the order of addresses.
--   Feed/: src/feed.rs, the search for the last entry of a feed, whose probes run in waves.
--
-- Choices. A usize has 32 bits, as on wasm32, and a u64 has 64. Times are milliseconds as numbers,
-- with 0 for none, where the source has an f64. The channel of refreshment instructions is a list,
-- and whether it takes one more is a parameter; so is whether the allocator grants a buffer. Maps
-- are association lists, and keys are any type with a decidable equality. An operation that does
-- not await is one step, since the runtime is single-threaded. Strings are their bytes.
-- What serde_json makes of the metadata of a node is a parameter, and so are random bytes, the
-- curve of k256, what a probe of a feed finds at an index, and the order in which the probes of a wave
-- complete, of which only that it loses and adds none is assumed.
--
-- Fuel. The loop of `reference_layout` has 64 rounds; a branching of at least 2 passes 2 ^ 64
-- before that. The loop of `upload_tree_chunk_count` has the source's own bound of 7 levels. The
-- loop of `decode_resource_bundle` has as many rounds as the input has bytes; a round reads 24 at
-- least. The loop of `split_prefix_bytes` has as many rounds as the path has bytes, and takes one
-- at least in each. An entry of `GF_MUL` is reached from its factor by steps to smaller ones, of
-- which 256 are more than there are. The search over a feed needs as many rounds as the feed has entries.
--
-- Not modelled: the drivers and everything that talks to libp2p, to web3 or to the browser, and for
-- now the replicas of a root chunk, the tree of manifest nodes over the paths of an upload, and that
-- `keccak256` is the standard function.
pub mod Accounting
pub mod Chain
pub mod Chunk
pub mod Erasure
pub mod Feed
pub mod Manifest
pub mod Prelude
pub mod Progress
pub mod Retrieval
pub mod Stream
