-- ===== src/Store.antt =====
-- litecast/store.py: the capacity-bounded store of checkpoint versions. `Types` is its state,
-- `Checks` the validation of arguments, `Write` the calls that change the state and `Read` those
-- that do not; the other modules hold the proofs.
pub mod Types
pub mod Checks
pub mod Write
pub mod Read
pub mod Totals
pub mod Invariant
pub mod Whole
pub mod Partial
pub mod Insert
pub mod Calls
pub mod Begin
pub mod Commands
pub mod Slices
pub mod Contents
pub mod Eviction
pub mod Shards
pub mod Uploads
mod Tests
