-- ===== src/Manifest.antt =====
-- src/manifest.rs and the serializer of src/manifest_upload.rs: Mantaray nodes. `Fork` has the
-- entries of a node, `Node` how a node is written, `Parse` how it is read, `Guard` the budgets of
-- a resolution, and `Prefix` how paths are cut into edges.
pub mod Prefix
pub mod Fork
pub mod Node
pub mod Parse
pub mod Guard
mod Tests
