-- ===== src/Protocol/Delivery.antt =====
-- Streams of frames: cut anywhere, and written by `encode_frame`.
use litecast.Common.{
  ◌-◌, ℕ, suc, ◌+◌, ◌^◌, ◌≤◌, ◌<◌, ◌≡◌, refl, sym, ap, ◌∙◌, List, [], ◌∷◌, ◌++◌, append_assoc,
  Bytes, false, ℤ, pos, length, take, drop, slice, length-append, take-append, drop-append, Outcome,
  ok, raise, ◌>>=◌, arith, ltb,
}
use litecast.Protocol.Frames.{
  WireError, Frame, Header, type_code, encode_frame, current_version, header_size, decode_header,
}
use litecast.Protocol.RoundTrip.{
  header_bytes, length-header_bytes, decode_header-header_bytes, encode_frame-eq,
}
use litecast.Protocol.Stream.{
  emit, FrameDecoder, Fed, prepend, frame_of, checked, next_body, next_frame, drain, feed,
  decode_frames,
}
use litecast.Protocol.Feeding.{drain-append, drain-emit, drain-wait, next-nil}

-- The frames of an earlier piece before those of a later one.
abbrev pub after :
    List Frame
    → Outcome WireError (List Frame) × FrameDecoder
    → Outcome WireError (List Frame) × FrameDecoder
after fs (ok gs, d) = (ok (fs ++ gs), d)
after fs (raise e, d) = (raise e, d)

with_buffer : FrameDecoder → Fed → Outcome WireError (List Frame) × FrameDecoder
with_buffer d (r, left) = (r, record d { buffer = left })

with_buffer-prepend :
    (d : FrameDecoder) (fs : List Frame) (r : Fed)
    → with_buffer d (prepend fs r) ≡ after fs (with_buffer d r)
unfolding with_buffer prepend
with_buffer-prepend d fs (ok gs, b) = refl
with_buffer-prepend d fs (raise e, b) = refl

module _ (validate_message : Frame → Outcome WireError (Unit {0})) where
  -- Where `feed` returns on the front of a stream, the whole stream at once gives the frames of the
  -- front and then those of the rest, or the error of the rest, and the same buffer.
  pub feed-append :
      (d : FrameDecoder) (front rest : Bytes) (fs : List Frame)
      → (feed validate_message d front).0 ≡ ok fs
      → feed validate_message d (front ++ rest)
        ≡ after fs (feed validate_message (feed validate_message d front).1 rest)
  unfolding feed with_buffer
  feed-append d front rest fs returned =
      let buffer = d.buffer ++ front in
      let first = drain validate_message d.maximum (length buffer) buffer in
      let done : first ≡ (ok fs, first.1) =
        ap (λ (r : Outcome WireError (List Frame)). let p : Fed = (r, first.1) in p) returned in
      let whole : drain validate_message d.maximum (length (d.buffer ++ (front ++ rest)))
            (d.buffer ++ (front ++ rest))
          ≡ prepend fs
              (drain validate_message d.maximum (length (first.1 ++ rest)) (first.1 ++ rest)) =
        rw (← append_assoc d.buffer front rest) (
          drain-append validate_message d.maximum (length buffer) (length (buffer ++ rest))
            (length (first.1 ++ rest)) buffer rest first.1 fs (omega arith) (omega arith)
            (omega arith) done) in
      ap (with_buffer d) whole ∙ with_buffer-prepend d fs _

-- What a sender writes for a list of frames.
unfoldable pub encode_frames : ℤ → List Frame → Outcome WireError Bytes
encode_frames limit [] = ok []
encode_frames limit (f ∷ fs) = do
  raw ←
      encode_frame (type_code f.message_type) f.payload (pos f.flags) (pos f.protocol_version) limit
  rest ← encode_frames limit fs
  ok (raw ++ rest)

-- What a receiver with the limit needs of a frame, beyond what `encode_frame` tests: the only
-- version that `decode_header` accepts, and a payload that is valid.
pub record IsSendable (validate_message : Frame → Outcome WireError (Unit {0})) (limit : ℕ)
    (f : Frame) : Type 0 where
  pub versioned : f.protocol_version ≡ current_version
  pub flagged : f.flags ≤ 0xffff
  pub sized : length f.payload ≤ limit
  pub wide : length f.payload < 2 ^ 64
  pub valid : validate_message f ≡ ok tt

module _ (validate_message : Frame → Outcome WireError (Unit {0})) (limit : ℕ) where
  abbrev pub AllSendable : List Frame → Type 0
  AllSendable [] = Unit
  AllSendable (f ∷ fs) = IsSendable validate_message limit f × AllSendable fs

  abbrev written : Frame → Bytes
  written f = header_bytes f.message_type f.flags (length f.payload) ++ f.payload

  next_frame-eq :
      (buffer : Bytes) (h : Header)
      → 16 ≤ length buffer
      → decode_header (take header_size buffer) (pos limit) ≡ ok h
      → next_frame validate_message limit buffer ≡ next_body validate_message limit h buffer
  unfolding next_frame
  next_frame-eq buffer h long read =
      let enough : ltb (length buffer) header_size ≡ false = ground arith in rw (enough, read)

  next_body-eq :
      (buffer body rest : Bytes) (h : Header)
      → header_size + h.payload_size ≤ length buffer
      → slice header_size (header_size + h.payload_size) buffer ≡ body
      → drop (header_size + h.payload_size) buffer ≡ rest
      → next_body validate_message limit h buffer
        ≡ checked validate_message limit (frame_of h body) rest
  unfolding next_body
  next_body-eq buffer body rest h long front behind =
      let enough : ltb (length buffer) (header_size + h.payload_size) ≡ false = ground arith in
      rw (enough, front, behind)

  checked-eq :
      (h : Header) (f : Frame) (rest : Bytes)
      → h.kind ≡ f.message_type
      → h.flags ≡ f.flags
      → IsSendable validate_message limit f
      → checked validate_message limit (frame_of h f.payload) rest ≡ emit f rest
  unfolding checked frame_of
  checked-eq h f rest kind flags c =
      let same : frame_of h f.payload ≡ f = λ i. record {
        message_type = kind i;
        payload = f.payload;
        flags = flags i;
        protocol_version = sym c.versioned i;
      } in
      let valid : validate_message (frame_of h f.payload) ≡ ok tt =
        ap validate_message same ∙ c.valid in
      rw (valid, checked) (ap (λ (g : Frame). emit g rest) same)

  -- A round on a frame that was written takes that frame off.
  next_frame-written :
      (f : Frame) (rest : Bytes)
      → IsSendable validate_message limit f
      → next_frame validate_message limit (written f ++ rest) ≡ emit f rest
  next_frame-written f rest c =
      let head = header_bytes f.message_type f.flags (length f.payload) in
      let head_size = length-header_bytes f.message_type f.flags (length f.payload) in
      let total : length (written f ++ rest) ≡ 16 + length f.payload + length rest =
        omega (arith, length-append (written f) rest, length-append head f.payload, head_size) in
      let split : written f ++ rest ≡ head ++ (f.payload ++ rest) =
        append_assoc head f.payload rest in
      let front : take header_size (written f ++ rest) ≡ head =
        rw split (take-append 16 head (f.payload ++ rest) head_size) in
      let behind : drop header_size (written f ++ rest) ≡ f.payload ++ rest =
        rw split (drop-append 16 head (f.payload ++ rest) head_size) in
      let body : slice header_size (header_size + length f.payload) (written f ++ rest)
          ≡ f.payload =
        rw behind (take-append _ f.payload rest (omega arith)) in
      let left : drop (header_size + length f.payload) (written f ++ rest) ≡ rest =
        drop-append _ (written f) rest (omega (arith, length-append head f.payload, head_size)) in
      let h : Header = record {
        kind = f.message_type;
        flags = f.flags;
        payload_size = length f.payload;
      } in
      let read : decode_header (take header_size (written f ++ rest)) (pos limit) ≡ ok h =
        rw front (
          decode_header-header_bytes f.message_type f.flags (length f.payload) limit c.flagged
            c.sized c.wide) in
      next_frame-eq (written f ++ rest) h (omega arith) read
      ∙ next_body-eq (written f ++ rest) f.payload rest h (omega arith) body left
      ∙ checked-eq h f rest refl refl c

  encode_frame-written :
      (f : Frame)
      → IsSendable validate_message limit f
      → encode_frame
          (type_code f.message_type)
          f.payload
          (pos f.flags)
          (pos f.protocol_version)
          (pos limit)
        ≡ ok (written f)
  encode_frame-written f c =
      rw c.versioned
        (encode_frame-eq f.message_type f.payload f.flags limit c.flagged c.sized c.wide)

  encode_frames-cons :
      (f : Frame) (fs : List Frame) (rest : Bytes)
      → IsSendable validate_message limit f
      → encode_frames (pos limit) fs ≡ ok rest
      → encode_frames (pos limit) (f ∷ fs) ≡ ok (written f ++ rest)
  unfolding encode_frames
  encode_frames-cons f fs rest c there = rw (encode_frame-written f c, there)

  -- The run of the loop over the written frames: all of them, and nothing is left.
  drain-written :
      (fs : List Frame)
      → AllSendable fs
      → (raw : Bytes) × (encode_frames (pos limit) fs ≡ ok raw)
        × ((n : ℕ) → length raw ≤ n → drain validate_message limit n raw ≡ (ok fs, []))
  unfolding encode_frames prepend
  drain-written [] c =
      ([], refl, λ n h. drain-wait validate_message limit n [] (next-nil validate_message limit))
  drain-written (f ∷ fs) c =
      let (rest, there, loop) = drain-written fs c.1 in
      (
        written f ++ rest,
        encode_frames-cons f fs rest c.0 there,
        λ n h.
            let total : length (written f ++ rest) ≡ 16 + length f.payload + length rest = omega (
              arith,
              length-append (written f) rest,
              length-append (header_bytes f.message_type f.flags (length f.payload)) f.payload,
              length-header_bytes f.message_type f.flags (length f.payload),
            ) in
            let some_fuel : n ≡ suc (n - 1) = omega arith in
            ap (λ (k : ℕ). drain validate_message limit k (written f ++ rest)) some_fuel
            ∙ drain-emit validate_message limit (n - 1) (written f ++ rest) f rest
                (next_frame-written f rest c.0)
            ∙ ap (prepend (f ∷ [])) (loop (n - 1) (omega arith)),
      )

-- Frames that a receiver accepts are encoded, and the bytes of all of them in a row are decoded to
-- these frames in their order.
pub decode_frames-encode_frames :
    (validate_message : Frame → Outcome WireError (Unit {0})) (limit : ℕ) (fs : List Frame)
    → AllSendable validate_message limit fs
    → (raw : Bytes) × (encode_frames (pos limit) fs ≡ ok raw)
      × (decode_frames validate_message raw (pos limit) ≡ ok fs)
unfolding decode_frames
decode_frames-encode_frames validate_message limit fs c =
    let (raw, sent, loop) = drain-written validate_message limit fs c in
    (raw, sent, rw (loop (length raw) (omega arith)))
