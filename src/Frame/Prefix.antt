-- ===== src/Frame/Prefix.antt =====
-- `try_decode_frame` on a buffer that grows: an answer other than "incomplete" is final.
use tactical_gateway.Base.{
  ℕ, ◌+◌, ◌*◌, ◌-◌, ◌^◌, ◌≤◌, ◌<◌, ◌≡◌, refl, ap, ◌∙◌, ◌⊎◌, inl, inr, List, [], ◌∷◌, ◌++◌, bit_and,
  bit_or, length, take, drop, length-append, length-drop, take-append_le, drop-append_le,
  Bool-cases, false, ◌==◌, length-take_le, arith,
}
use tactical_gateway.Frame.{
  read_varint, read_payload, try_decode_frame, VarintEnd, cut, ended, too_long, FrameError,
  second_magic, varint_too_long, frame, malformed, magic,
}

abbrev next_len : ℕ → ℕ → ℕ → ℕ
next_len len b shift = bit_or len (bit_and b 0x7f * 2 ^ shift)

read_varint-append_ended :
    (src more : List ℕ) (len shift i n j : ℕ) (rest : List ℕ)
    → read_varint src len shift i ≡ ended n j rest
    → read_varint (src ++ more) len shift i ≡ ended n j (rest ++ more)
unfolding read_varint
read_varint-append_ended [] more len shift i n j rest e = cc
read_varint-append_ended (b ∷ src) more len shift i n j rest e =
    ground
      (arith, read_varint-append_ended src more (next_len len b shift) (shift + 7) (i + 1) n j rest)

read_varint-append_too_long :
    (src more : List ℕ) (len shift i : ℕ)
    → read_varint src len shift i ≡ too_long
    → read_varint (src ++ more) len shift i ≡ too_long
unfolding read_varint
read_varint-append_too_long [] more len shift i e = cc
read_varint-append_too_long (b ∷ src) more len shift i e =
    ground (arith, read_varint-append_too_long src more (next_len len b shift) (shift + 7) (i + 1))

-- The index counts the bytes that the loop has passed.
read_varint_index :
    (src : List ℕ) (len shift i n j : ℕ) (rest : List ℕ)
    → read_varint src len shift i ≡ ended n j rest
    → (j + length rest ≡ i + length src) × (i < j)
unfolding read_varint
read_varint_index [] len shift i n j rest e = cc
read_varint_index (b ∷ src) len shift i n j rest e =
    ground (arith, read_varint_index src (next_len len b shift) (shift + 7) (i + 1) n j rest)

read_payload_takes :
    (buf : List ℕ) (v : VarintEnd) (p : List ℕ) (n : ℕ)
    → read_payload buf v ≡ frame p n
    → (len i m : ℕ) × (rest : List ℕ) × (v ≡ ended len i (m ∷ rest))
      × (m ≡ magic)
      × (n ≡ i + 1 + len)
      × (n ≤ length buf)
      × (p ≡ take len (drop (i + 1) buf))
unfolding read_payload
read_payload_takes buf cut p n e = cc
read_payload_takes buf too_long p n e = cc
read_payload_takes buf (ended len i []) p n e = cc
read_payload_takes buf (ended len i (m ∷ rest)) p n e =
    (len, i, m, rest, refl, ground arith, ground arith, ground arith, ground arith)

read_payload-append_frame :
    (buf more : List ℕ) (v w : VarintEnd) (p : List ℕ) (n : ℕ)
    → ((len i : ℕ) (rest : List ℕ) → v ≡ ended len i rest → w ≡ ended len i (rest ++ more))
    → read_payload buf v ≡ frame p n
    → read_payload (buf ++ more) w ≡ frame p n
unfolding read_payload
read_payload-append_frame buf more v w p n grows e =
    let (len, i, m, rest, ev, em, en, fits, ep) = read_payload_takes buf v p n e in
    rw (grows len i (m ∷ rest) ev) (
      ground (
        arith,
        length-append buf more,
        length-drop (i + 1) buf,
        drop-append_le (i + 1) buf more,
        take-append_le len (drop (i + 1) buf) more,
      ))

-- A decoded frame lies in the buffer: it ends within it, its payload is the buffer's bytes up to
-- there, and at least three bytes (two magic bytes and the length) go with it.
pub try_decode_frame_bounds :
    (buf p : List ℕ) (n : ℕ)
    → try_decode_frame buf ≡ frame p n
    → (n ≤ length buf) × (length p + 3 ≤ n) × (p ≡ take (length p) (drop (n - length p) buf))
unfolding try_decode_frame
try_decode_frame_bounds [] p n e = cc
try_decode_frame_bounds (b ∷ src) p n e =
    let (len, i, m, rest, ev, em, en, fits, ep) = found in
    let index : (i + length (m ∷ rest) ≡ 1 + length src) × (1 < i) =
      read_varint_index src 0 0 1 len i (m ∷ rest) ev in
    let size : length p ≡ len =
      ap length ep
      ∙ length-take_le len (drop (i + 1) (b ∷ src))
          (omega (arith, length-drop (i + 1) (b ∷ src))) in
    let at : n - length p ≡ i + 1 = omega arith in (fits, omega arith, rw (at, size) ep)
  where
    found :
        (len i m : ℕ) × (rest : List ℕ) × (read_varint src 0 0 1 ≡ ended len i (m ∷ rest))
        × (m ≡ magic)
        × (n ≡ i + 1 + len)
        × (n ≤ length (b ∷ src))
        × (p ≡ take len (drop (i + 1) (b ∷ src)))
    found = read_payload_takes (b ∷ src) (read_varint src 0 0 1) p n (ground arith)

-- More bytes behind a buffer that holds a frame leave the answer as it is.
pub try_decode_frame-append_frame :
    (buf more p : List ℕ) (n : ℕ)
    → try_decode_frame buf ≡ frame p n
    → try_decode_frame (buf ++ more) ≡ frame p n
unfolding try_decode_frame
try_decode_frame-append_frame [] more p n e = cc
try_decode_frame-append_frame (b ∷ src) more p n e = ground (
  arith,
  read_payload-append_frame (b ∷ src) more (read_varint src 0 0 1) (read_varint (src ++ more) 0 0 1)
      p n (λ len i rest. read_varint-append_ended src more 0 0 1 len i rest),
)

read_payload_fails :
    (buf : List ℕ) (v : VarintEnd) (x : FrameError)
    → read_payload buf v ≡ malformed x
    → ((v ≡ too_long) × (x ≡ varint_too_long))
      ⊎ ((len i m : ℕ) × (rest : List ℕ) × (v ≡ ended len i (m ∷ rest))
          × ((m == magic) ≡ false)
          × (x ≡ second_magic))
unfolding read_payload
read_payload_fails buf cut x e = cc
read_payload_fails buf too_long x e = inl (refl, ground arith)
read_payload_fails buf (ended len i []) x e = cc
read_payload_fails buf (ended len i (m ∷ rest)) x e =
    inr (len, i, m, rest, refl, ground arith, ground arith)

-- Nor do they mend malformed framing.
pub try_decode_frame-append_malformed :
    (buf more : List ℕ) (x : FrameError)
    → try_decode_frame buf ≡ malformed x
    → try_decode_frame (buf ++ more) ≡ malformed x
unfolding try_decode_frame
try_decode_frame-append_malformed [] more x e = cc
try_decode_frame-append_malformed (b ∷ src) more x e = elim (Bool-cases (b == magic)) [
  | inr other ↦ ground arith
  | inl same ↦ elim (read_payload_fails (b ∷ src) (read_varint src 0 0 1) x (ground arith)) [
    | inl (ev, ex) ↦
        unfold read_payload in rw (same, read_varint-append_too_long src more 0 0 1 ev, ex)
    | inr (len, i, m, rest, ev, em, ex) ↦
        unfold read_payload in
        rw (same, read_varint-append_ended src more 0 0 1 len i (m ∷ rest) ev, em, ex)
  ]
]
