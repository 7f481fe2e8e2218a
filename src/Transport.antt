-- ===== src/Transport.antt =====
-- litecast/transport/ucxx.py: `Wire` is what both sides share, `Client` the requests of
-- `UCXXTransport`, `Server` the replies of `UCXXServer`.
pub mod Wire
pub mod Client
pub mod Shards
pub mod Batch
pub mod Sessions
pub mod Server
pub mod Metadata
pub mod Integrity
pub mod Partition
pub mod Later
pub mod Lifecycle
pub mod Failures
pub mod Returns
pub mod Delivery
pub mod Fixtures
mod Tests
