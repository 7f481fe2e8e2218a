-- ===== src/Protocol.antt =====
-- litecast/protocol.py: the frames of the data plane. `Words` packs numbers, `Frames` is the
-- header and the frame, `Messages` the payloads, `Stream` the incremental decoder.
pub mod Words
pub mod Json
pub mod Frames
pub mod RoundTrip
pub mod Stream
pub mod Chunks
pub mod Feeding
pub mod Delivery
pub mod Indices
pub mod Messages
pub mod Requests
pub mod Batches
mod Tests
