-- ===== src/Protocol/Stream.antt =====
-- litecast/protocol.py: `FrameDecoder`, which decodes frames from a stream in arbitrary pieces, and
-- `decode_frames`.
use litecast.Common.{
  ℕ, zero, suc, ◌+◌, List, [], ◌∷◌, ◌++◌, Bytes, ℤ, pos, length, take, drop, slice, ltb, is_empty,
  Outcome, ok, raise, ◌>>=◌, if◌then◌else◌,
}
use litecast.Protocol.Frames.{
  WireError, protocol_error, Frame, Header, validate_limit, current_version, header_size,
  decode_header,
}

-- What one round of the loop of `feed` does with the buffer: it waits for more, it raises and
-- leaves a buffer, or it takes a frame off.
pub data Next : Type 0 where
  wait : Next
  fail : WireError → Bytes → Next
  emit : Frame → Bytes → Next

pub record FrameDecoder : Type 0 where
  pub maximum : ℕ
  pub buffer : Bytes

unfoldable pub new_decoder : ℤ → Outcome WireError FrameDecoder
unfolding validate_limit
new_decoder max_payload_size = do
  maximum ← validate_limit max_payload_size
  ok (record { maximum = maximum; buffer = [] })

abbrev pub buffered_bytes : FrameDecoder → ℕ
buffered_bytes d = length d.buffer

abbrev pub Fed : Type 0
Fed = Outcome WireError (List Frame) × Bytes

-- `frames.append(frame)` before the rest of the loop.
unfoldable pub prepend : List Frame → Fed → Fed
prepend frames (ok later, buffer) = (ok (frames ++ later), buffer)
prepend frames (raise e, buffer) = (raise e, buffer)

unfoldable pub frame_of : Header → Bytes → Frame
frame_of header body = record {
  message_type = header.kind;
  payload = body;
  flags = header.flags;
  protocol_version = current_version;
}

module _ (validate_message : Frame → Outcome WireError (Unit {0})) (maximum : ℕ) where
  -- The frame leaves the buffer before it is validated.
  unfoldable pub checked : Frame → Bytes → Next
  checked frame rest = elim (validate_message frame) [
    | raise e ↦ fail e rest
    | ok _ ↦ emit frame rest
  ]

  unfoldable pub next_body : Header → Bytes → Next
  next_body header buffer =
      let frame_size = header_size + header.payload_size in
      if ltb (length buffer) frame_size
      then wait
      else checked (frame_of header (slice header_size frame_size buffer)) (drop frame_size buffer)

  unfoldable pub next_frame : Bytes → Next
  next_frame buffer =
      if ltb (length buffer) header_size
      then wait
      else elim (decode_header (take header_size buffer) (pos maximum)) [
        | raise e ↦ fail e buffer
        | ok header ↦ next_body header buffer
      ]

  -- The loop of `feed`. Each round takes sixteen bytes or more, so as much fuel as bytes is enough.
  unfoldable pub drain : ℕ → Bytes → Fed
  unfolding prepend
  drain zero buffer = (ok [], buffer)
  drain (suc fuel) buffer = elim (next_frame buffer) [
    | wait ↦ (ok [], buffer)
    | fail e rest ↦ (raise e, rest)
    | emit frame rest ↦ prepend (frame ∷ []) (drain fuel rest)
  ]

module _ (validate_message : Frame → Outcome WireError (Unit {0})) where
  unfoldable pub feed : FrameDecoder → Bytes → Outcome WireError (List Frame) × FrameDecoder
  feed d incoming =
      let buffer = d.buffer ++ incoming in
      let (frames, left) = drain validate_message d.maximum (length buffer) buffer in
      (frames, record d { buffer = left })

  -- All the bytes at once, with nothing left over.
  unfoldable pub decode_frames : Bytes → ℤ → Outcome WireError (List Frame)
  unfolding new_decoder feed is_empty
  decode_frames raw max_payload_size = do
    decoder ← new_decoder max_payload_size
    let (frames, left) = feed decoder raw
    found ← frames
    if is_empty left.buffer then ok found else raise protocol_error
