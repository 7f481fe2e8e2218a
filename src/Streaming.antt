-- ===== src/Streaming.antt =====
-- litecast/streaming.py: `Members` is the canonical membership of the middles, `Owners` the
-- placement of shards on them.
pub mod Members
pub mod Owners
pub mod Membership
pub mod Selection
pub mod Diversity
pub mod Placement
pub mod Locality
pub mod Merkle
pub mod Hex
pub mod Levels
pub mod Binding
mod Tests
pub mod Manifest
pub mod Description
mod ManifestTests
