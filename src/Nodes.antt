-- ===== src/Nodes.antt =====
-- litecast/client_node.py: `Client` is the download of a version from several middles.
-- litecast/middle_node.py: `Middle` is the shards that a middle fetches.
pub mod Download
pub mod Peers
pub mod Client
pub mod Authentic
pub mod Coverage
pub mod Batches
pub mod Grouping
pub mod Selected
mod Tests
pub mod Middle
pub mod Assignment
mod MiddleTests
