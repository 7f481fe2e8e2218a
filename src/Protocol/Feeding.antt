-- ===== src/Protocol/Feeding.antt =====
-- `feed` on a stream in two pieces, and on the frames that `encode_frame` writes.
use litecast.Common.{
  ◌-◌, ℕ, zero, suc, ◌+◌, ◌≤◌, ◌≡◌, refl, sym, ap, ◌∙◌, ◌⊎◌, inl, inr, List, [], ◌∷◌, ◌++◌,
  append_assoc, Bytes, length, length-append, Outcome, ok, raise, arith,
}
use litecast.Protocol.Frames.{WireError, Frame}
use litecast.Protocol.Stream.{Next, wait, fail, emit, Fed, prepend, next_frame, drain}
use litecast.Protocol.Chunks.{extend, next_frame-append, next_frame-shrinks}

Next-cases :
    (n : Next)
    → (n ≡ wait)
      ⊎ ((e : WireError) × (rest : Bytes) × (n ≡ fail e rest))
      ⊎ ((f : Frame) × (rest : Bytes) × (n ≡ emit f rest))
Next-cases wait = inl refl
Next-cases (fail e rest) = inr (inl (e, rest, refl))
Next-cases (emit f rest) = inr (inr (f, rest, refl))

prepend-nil : (r : Fed) → prepend [] r ≡ r
unfolding prepend
prepend-nil (ok fs, b) = refl
prepend-nil (raise e, b) = refl

prepend-append : (fs gs : List Frame) (r : Fed) → prepend fs (prepend gs r) ≡ prepend (fs ++ gs) r
unfolding prepend
prepend-append fs gs (ok hs, b) = rw append_assoc
prepend-append fs gs (raise e, b) = refl

-- What is left after a run that returned.
prepend-eq-ok :
    (f : Frame) (r : Fed) (fs : List Frame) (b : Bytes)
    → prepend (f ∷ []) r ≡ (ok fs, b)
    → (gs : List Frame) × (r ≡ (ok gs, b)) × (fs ≡ f ∷ gs)
unfolding prepend
prepend-eq-ok f (ok gs, b') fs b h = (gs, ground arith, ground arith)
prepend-eq-ok f (raise e, b') fs b h = ground arith

module _ (validate_message : Frame → Outcome WireError (Unit {0})) (maximum : ℕ) where
  abbrev pub run : ℕ → Bytes → Fed
  run = drain validate_message maximum

  abbrev pub next : Bytes → Next
  next = next_frame validate_message maximum

  -- The rounds of the loop.
  pub drain-wait : (n : ℕ) (buffer : Bytes) → next buffer ≡ wait → run n buffer ≡ (ok [], buffer)
  unfolding drain
  drain-wait zero buffer h = refl
  drain-wait (suc n) buffer h = rw (drain, h)

  drain-fail :
      (n : ℕ) (buffer : Bytes) (e : WireError) (rest : Bytes)
      → next buffer ≡ fail e rest
      → run (suc n) buffer ≡ (raise e, rest)
  unfolding drain
  drain-fail n buffer e rest h = rw (drain, h)

  pub drain-emit :
      (n : ℕ) (buffer : Bytes) (f : Frame) (rest : Bytes)
      → next buffer ≡ emit f rest
      → run (suc n) buffer ≡ prepend (f ∷ []) (run n rest)
  unfolding drain
  drain-emit n buffer f rest h = rw (drain, h)

  pub next-nil : next [] ≡ wait
  unfolding next_frame
  next-nil = refl

  -- Any fuel that is at least the length of the buffer gives the same.
  pub drain-fuel :
      (n m : ℕ) (buffer : Bytes)
      → length buffer ≤ n
      → length buffer ≤ m
      → run n buffer ≡ run m buffer
  drain-fuel zero m [] h k = drain-wait 0 [] next-nil ∙ sym (drain-wait m [] next-nil)
  drain-fuel zero m (x ∷ buffer) h k = absurd (omega arith)
  drain-fuel (suc n) zero [] h k = drain-wait (suc n) [] next-nil ∙ sym (drain-wait 0 [] next-nil)
  drain-fuel (suc n) zero (x ∷ buffer) h k = absurd (omega arith)
  drain-fuel (suc n) (suc m) buffer h k = elim (Next-cases (next buffer)) [
    | inl waits ↦ drain-wait (suc n) buffer waits ∙ sym (drain-wait (suc m) buffer waits)
    | inr (inl (e, rest, fails)) ↦
        drain-fail n buffer e rest fails ∙ sym (drain-fail m buffer e rest fails)
    | inr (inr (f, rest, takes)) ↦
        let less = next_frame-shrinks validate_message maximum buffer rest f takes in
        drain-emit n buffer f rest takes
        ∙ ap (prepend (f ∷ [])) (drain-fuel n m rest (omega arith) (omega arith))
        ∙ sym (drain-emit m buffer f rest takes)
  ]

  emit-append :
      (buffer more : Bytes) (f : Frame) (rest : Bytes)
      → next buffer ≡ emit f rest
      → next (buffer ++ more) ≡ emit f (rest ++ more)
  emit-append buffer more f rest takes =
      elim (next_frame-append validate_message maximum buffer more) [
        | inl waits ↦ cc (waits, takes)
        | inr same ↦ same ∙ ap (λ (r : Next). extend r more) takes
      ]

  drain-emit_more :
      (k : ℕ) (buffer more : Bytes) (f : Frame) (rest : Bytes)
      → next buffer ≡ emit f rest
      → length rest + 16 ≤ length buffer
      → length (buffer ++ more) ≤ k
      → run k (buffer ++ more) ≡ prepend (f ∷ []) (run (k - 1) (rest ++ more))
  drain-emit_more k buffer more f rest takes less hk =
      let some_fuel : k ≡ suc (k - 1) = omega (arith, length-append buffer more) in
      ap (λ (n : ℕ). run n (buffer ++ more)) some_fuel
      ∙ drain-emit (k - 1) (buffer ++ more) f (rest ++ more) (emit-append buffer more f rest takes)

  -- A run that stopped and waits goes on with more bytes as if it had not stopped.
  resume :
      (k j : ℕ) (buffer more left : Bytes) (fs : List Frame)
      → length (buffer ++ more) ≤ k
      → length (left ++ more) ≤ j
      → ◌≡◌ {A = Fed} (ok [], buffer) (ok fs, left)
      → run k (buffer ++ more) ≡ prepend fs (run j (left ++ more))
  resume k j buffer more left fs hk hj done =
      let none_yet : [] ≡ fs = ground arith in
      let same : buffer ≡ left = ap (λ (r : Fed). r.1) done in
      rw (← none_yet, prepend-nil, ← same) (drain-fuel k j (buffer ++ more) hk (rw same hj))

  -- A run that returned, with more bytes behind: the same frames, and then those of what was left.
  pub drain-append :
      (n k j : ℕ) (buffer more left : Bytes) (fs : List Frame)
      → length buffer ≤ n
      → length (buffer ++ more) ≤ k
      → length (left ++ more) ≤ j
      → run n buffer ≡ (ok fs, left)
      → run k (buffer ++ more) ≡ prepend fs (run j (left ++ more))
  drain-append zero k j [] more left fs h hk hj done =
      resume k j [] more left fs hk hj (sym (drain-wait 0 [] next-nil) ∙ done)
  drain-append zero k j (x ∷ buffer) more left fs h hk hj done = absurd (omega arith)
  drain-append (suc n) k j buffer more left fs h hk hj done = elim (Next-cases (next buffer)) [
    | inl waits ↦
        resume k j buffer more left fs hk hj (sym (drain-wait (suc n) buffer waits) ∙ done)
    | inr (inl (e, rest, fails)) ↦ cc (drain-fail n buffer e rest fails, done)
    | inr (inr (f, rest, takes)) ↦
        let less = next_frame-shrinks validate_message maximum buffer rest f takes in
        let (gs, inner, outer) =
          prepend-eq-ok f (run n rest) fs left (sym (drain-emit n buffer f rest takes) ∙ done) in
        drain-emit_more k buffer more f rest takes less hk
        ∙ ap (prepend (f ∷ [])) (
            drain-append n (k - 1) j rest more left gs (omega arith)
              (omega (arith, length-append buffer more, length-append rest more)) hj inner)
        ∙ prepend-append (f ∷ []) gs (run j (left ++ more))
        ∙ ap (λ hs. prepend hs (run j (left ++ more))) (sym outer)
  ]
