-- ===== src/Registry.antt =====
-- litecast/registry: `Bundles` are the adapter bundles and their publications, in
-- litecast/registry/protocol.py.
pub mod Bundles
pub mod RoundTrip
mod Tests
