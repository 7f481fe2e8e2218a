-- ===== src/Endpoints.antt =====
-- litecast/endpoints.py: the discovery metadata of a middle. `Types` is its state and `to_dict`,
-- `Parse` what a reader accepts.
pub mod Types
pub mod Parse
pub mod Files
pub mod Dictionary
pub mod RoundTrip
pub mod Stable
pub mod Bounds
mod Tests
