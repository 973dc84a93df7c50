-- ===== src/Frame/RoundTrip.antt =====
-- `try_decode_frame` reads what `encode_frame` writes, however much of it has arrived.
use tactical_gateway.Base.{
  ℕ, ◌+◌, ◌^◌, ◌<◌, ◌≡◌, refl, ap, ◌∙◌, sym, ◌⊎◌, inl, inr, List, [], ◌∷◌, ◌++◌, length, take, drop,
  length-append, append_assoc, append-nil, take-length-append, drop-length-append, arith,
}
use tactical_gateway.Base.Order.{lt_wf}
use tactical_gateway.Frame.{
  FrameError, varint_loop, encode_frame, read_varint, read_payload, try_decode_frame, ended,
  Decoded, frame, incomplete, malformed, magic,
}
use tactical_gateway.Frame.Varint.{read_varint-varint_loop}
use tactical_gateway.Frame.Prefix.{
  try_decode_frame-append_frame, try_decode_frame-append_malformed, try_decode_frame_bounds,
}

abbrev varint : ℕ → List ℕ
varint n = varint_loop n (lt_wf.apply n)

-- The frame's bytes as the header, up to the second magic byte, and the payload.
module _ (p more : List ℕ) where
  abbrev header : List ℕ
  header = (magic ∷ varint (length p)) ++ (magic ∷ [])

  regroup : encode_frame p ++ more ≡ header ++ (p ++ more)
  unfolding encode_frame
  regroup =
      ap (λ t. magic ∷ t)
        (append_assoc (varint (length p)) (magic ∷ p) more
          ∙ sym (append_assoc (varint (length p)) (magic ∷ []) (p ++ more)))

  read_exact :
      (head rest : List ℕ) (i : ℕ)
      → length head ≡ i + 1
      → read_payload (head ++ (p ++ more)) (ended (length p) i (magic ∷ rest))
        ≡ frame p (i + 1 + length p)
  unfolding read_payload
  read_exact head rest i e =
      ground (arith, length-append head (p ++ more), length-append p more, slice)
    where
      slice : take (length p) (drop (i + 1) (head ++ (p ++ more))) ≡ p
      slice = rw (← e, drop-length-append head (p ++ more)) (take-length-append p more)

  frame_size : length (encode_frame p) ≡ 1 + length (varint (length p)) + 1 + length p
  unfolding encode_frame
  frame_size = omega (arith, length-append (varint (length p)) (magic ∷ p))

  header_read :
      length p < 2 ^ 42
      → read_varint (varint (length p) ++ (magic ∷ (p ++ more))) 0 0 1
        ≡ ended (length p) (1 + length (varint (length p))) (magic ∷ (p ++ more))
  header_read h =
      rw
        (read_varint-varint_loop 5 (length p) 0 0 1 (lt_wf.apply (length p)) (magic ∷ (p ++ more))
          (omega arith) (omega arith) (omega arith))
        (ap (λ t. ended t (1 + length (varint (length p))) (magic ∷ (p ++ more))) (omega arith))

-- A payload shorter than 2 ^ 42 bytes comes back from its frame, whatever follows the frame, and
-- exactly the frame's bytes are consumed.
pub try_decode_frame-encode_frame :
    (p more : List ℕ)
    → length p < 2 ^ 42
    → try_decode_frame (encode_frame p ++ more) ≡ frame p (length (encode_frame p))
unfolding try_decode_frame
try_decode_frame-encode_frame p more h =
    let size : length (header p more) ≡ 1 + length (varint (length p)) + 1 =
      omega (arith, length-append (magic ∷ varint (length p)) (magic ∷ [])) in
    let body : read_payload (header p more ++ (p ++ more))
          (read_varint (varint (length p) ++ (magic ∷ (p ++ more))) 0 0 1)
        ≡ frame p (1 + length (varint (length p)) + 1 + length p) =
      rw (header_read p more h)
        (read_exact p more (header p more) (p ++ more) (1 + length (varint (length p))) size) in
    rw
      (regroup p more, frame_size p more, append_assoc (varint (length p)) (magic ∷ []) (p ++ more))
      (rw (append_assoc (varint (length p)) (magic ∷ []) (p ++ more)) at body)

-- The three kinds of answer.
pub Decoded-cases :
    (d : Decoded)
    → (d ≡ incomplete)
      ⊎ ((p : List ℕ) × (n : ℕ) × (d ≡ frame p n))
      ⊎ ((x : FrameError) × (d ≡ malformed x))
Decoded-cases incomplete = inl refl
Decoded-cases (frame p n) = inr (inl (p, n, refl))
Decoded-cases (malformed x) = inr (inr (x, refl))

-- Before the last byte of a frame has arrived the decoder asks for more and reports no error: every
-- proper front part of a frame is incomplete.
pub try_decode_frame_waits :
    (p front back : List ℕ) (x : ℕ)
    → length p < 2 ^ 42
    → encode_frame p ≡ front ++ (x ∷ back)
    → try_decode_frame front ≡ incomplete
try_decode_frame_waits p front back x h e = elim (Decoded-cases (try_decode_frame front)) [
  | inl waiting ↦ waiting
  | inr (inl (q, n, r)) ↦
      let early = try_decode_frame-append_frame front (x ∷ back) q n r in
      let (fits, _, _) = try_decode_frame_bounds front q n r in
      absurd (ground (arith, whole, early, length-append front (x ∷ back)))
  | inr (inr (y, r)) ↦ cc (whole, try_decode_frame-append_malformed front (x ∷ back) y r)
]
  where
    whole : try_decode_frame (front ++ (x ∷ back)) ≡ frame p (length (front ++ (x ∷ back)))
    whole = rw (append-nil, e) at (try_decode_frame-encode_frame p [] h)
