-- ===== src/Protocol/Chunks.antt =====
-- litecast/protocol.py: the frames of a decoder, and the pieces of the stream.
use litecast.Common.{
  length-drop, ℕ, zero, suc, ◌+◌, ◌-◌, ◌≤◌, ◌≡◌, refl, ap, ◌⊎◌, inl, inr, false, [], ◌∷◌, ◌++◌,
  Bytes, pos, length, length-append, take, drop, slice, ltb, ltb_false→le, Bool-cases, Outcome,
  Outcome-cases, arith,
}
use litecast.Protocol.Frames.{WireError, Frame, Header, header_size, decode_header}
use litecast.Protocol.Stream.{Next, wait, fail, emit, frame_of, checked, next_body, next_frame}

-- A longer buffer has the same front, and the same rest with more behind.
take-append_le : (n : ℕ) (xs ys : Bytes) → n ≤ length xs → take n (xs ++ ys) ≡ take n xs
take-append_le zero xs ys h = refl
take-append_le (suc n) [] ys h = absurd (omega arith)
take-append_le (suc n) (x ∷ xs) ys h = ap (◌∷◌ x) (take-append_le n xs ys (omega arith))

drop-append_le : (n : ℕ) (xs ys : Bytes) → n ≤ length xs → drop n (xs ++ ys) ≡ drop n xs ++ ys
drop-append_le zero xs ys h = refl
drop-append_le (suc n) [] ys h = absurd (omega arith)
drop-append_le (suc n) (x ∷ xs) ys h = drop-append_le n xs ys (omega arith)

-- What a round does with more bytes behind the buffer, unless it waited.
abbrev pub extend : Next → Bytes → Next
extend wait more = wait
extend (fail e rest) more = fail e (rest ++ more)
extend (emit frame rest) more = emit frame (rest ++ more)

module _ (validate_message : Frame → Outcome WireError (Unit {0})) (maximum : ℕ) where
  checked-append :
      (frame : Frame) (rest more : Bytes)
      → checked validate_message maximum frame (rest ++ more)
        ≡ extend (checked validate_message maximum frame rest) more
  unfolding checked
  checked-append frame rest more = ground arith

  next_body-append :
      (header : Header) (buffer more : Bytes)
      → 16 ≤ length buffer
      → (next_body validate_message maximum header buffer ≡ wait)
        ⊎ (next_body validate_message maximum header (buffer ++ more)
            ≡ extend (next_body validate_message maximum header buffer) more)
  unfolding next_body
  next_body-append header buffer more long =
      let size = header_size + header.payload_size in
      elim (Bool-cases (ltb (length buffer) size)) [
        | inl missing ↦ inl (rw missing)
        | inr there ↦
            let enough = ltb_false→le _ _ there in
            let longer : ltb (length (buffer ++ more)) size ≡ false =
              ground (arith, length-append buffer more) in
            let body : slice header_size size (buffer ++ more) ≡ slice header_size size buffer =
              rw (drop-append_le header_size buffer more long) (
                take-append_le (size - header_size) (drop header_size buffer) more
                  (omega (arith, length-drop header_size buffer))) in
            let rest = drop-append_le size buffer more enough in
            inr (
              rw (there, longer, body, rest)
                (checked-append (frame_of header (slice header_size size buffer)) (drop size buffer)
                  more))
      ]

  -- A round that does not wait does the same with more bytes behind.
  pub next_frame-append :
      (buffer more : Bytes)
      → (next_frame validate_message maximum buffer ≡ wait)
        ⊎ (next_frame validate_message maximum (buffer ++ more)
            ≡ extend (next_frame validate_message maximum buffer) more)
  unfolding next_frame
  next_frame-append buffer more = elim (Bool-cases (ltb (length buffer) header_size)) [
    | inl short ↦ inl (rw short)
    | inr long ↦
        let enough = ltb_false→le _ _ long in
        let front = take-append_le header_size buffer more enough in
        let longer : ltb (length (buffer ++ more)) header_size ≡ false =
          ground (arith, length-append buffer more) in
        elim (Outcome-cases (decode_header (take header_size buffer) (pos maximum))) [
          | inl (e, refused) ↦ inr (rw (long, longer, front, refused))
          | inr (header, read) ↦
              rw (long, longer, front, read) (next_body-append header buffer more enough)
        ]
  ]

  next_body-shrinks :
      (header : Header) (buffer rest : Bytes) (frame : Frame)
      → next_body validate_message maximum header buffer ≡ emit frame rest
      → length rest + 16 ≤ length buffer
  unfolding next_body checked
  next_body-shrinks header buffer rest frame h =
      let size = header_size + header.payload_size in ground (arith, length-drop size buffer)

  pub next_frame-shrinks :
      (buffer rest : Bytes) (frame : Frame)
      → next_frame validate_message maximum buffer ≡ emit frame rest
      → length rest + 16 ≤ length buffer
  unfolding next_frame
  next_frame-shrinks buffer rest frame h =
      elim (Outcome-cases (decode_header (take header_size buffer) (pos maximum))) [
        | inl (e, refused) ↦ ground arith
        | inr (header, read) ↦ ground (arith, next_body-shrinks header buffer rest frame)
      ]
