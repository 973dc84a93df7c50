-- ===== src/Frame/Samples.antt =====
-- Runs of the framing at concrete inputs, and its theorems there.
use native.Mathlib.Decide.{dec_lt}
use tactical_gateway.Base.{
  ℕ, List, ◌+◌, ◌-◌, ◌≤◌, ◌≡◌, refl, arith, [], ◌∷◌, ◌++◌, length, take, drop, replicate,
}
use tactical_gateway.Base.Order.{lt_wf}
use tactical_gateway.Frame.{
  encode_frame, try_decode_frame, varint_loop, read_varint, read_payload, frame, incomplete,
  malformed, varint_too_long, leading_magic,
}
use tactical_gateway.Frame.Prefix.{try_decode_frame_bounds, try_decode_frame-append_malformed}
use tactical_gateway.Frame.RoundTrip.{try_decode_frame-encode_frame, try_decode_frame_waits}

encode_two : encode_frame (7 ∷ 8 ∷ []) ≡ 0xbf ∷ 2 ∷ 0xbf ∷ 7 ∷ 8 ∷ []
unfolding encode_frame varint_loop lt_wf dec_lt
encode_two = refl

decode_two : try_decode_frame (0xbf ∷ 2 ∷ 0xbf ∷ 7 ∷ 8 ∷ 9 ∷ []) ≡ frame (7 ∷ 8 ∷ []) 5
unfolding try_decode_frame read_varint read_payload
decode_two = refl

decode_long : try_decode_frame (0xbf ∷ replicate 6 0xff) ≡ malformed varint_too_long
unfolding try_decode_frame read_varint read_payload
decode_long = refl

decode_xml : try_decode_frame (b'<' ∷ []) ≡ malformed leading_magic
unfolding try_decode_frame
decode_xml = refl

encode_300 : try_decode_frame (encode_frame (replicate 300 1)) ≡ frame (replicate 300 1) 304
unfolding encode_frame varint_loop lt_wf dec_lt try_decode_frame read_varint read_payload
encode_300 = refl

try_decode_frame-encode_frame_example :
    try_decode_frame (encode_frame (7 ∷ 8 ∷ []) ++ (9 ∷ []))
    ≡ frame (7 ∷ 8 ∷ []) (length (encode_frame (7 ∷ 8 ∷ [])))
try_decode_frame-encode_frame_example =
    try_decode_frame-encode_frame (7 ∷ 8 ∷ []) (9 ∷ []) (omega arith)

try_decode_frame_waits_example : try_decode_frame (0xbf ∷ 2 ∷ 0xbf ∷ 7 ∷ []) ≡ incomplete
try_decode_frame_waits_example =
    try_decode_frame_waits (7 ∷ 8 ∷ []) (0xbf ∷ 2 ∷ 0xbf ∷ 7 ∷ []) [] 8 (omega arith) encode_two

try_decode_frame_bounds_example :
    (5 ≤ 6)
    × (2 + 3 ≤ 5)
    × (◌≡◌ {A = List ℕ} (7 ∷ 8 ∷ []) (take 2 (drop (5 - 2) (0xbf ∷ 2 ∷ 0xbf ∷ 7 ∷ 8 ∷ 9 ∷ []))))
try_decode_frame_bounds_example =
    try_decode_frame_bounds (0xbf ∷ 2 ∷ 0xbf ∷ 7 ∷ 8 ∷ 9 ∷ []) (7 ∷ 8 ∷ []) 5 decode_two

longer_xml : try_decode_frame (b'<' ∷ 0xbf ∷ []) ≡ malformed leading_magic
longer_xml = try_decode_frame-append_malformed (b'<' ∷ []) (0xbf ∷ []) leading_magic decode_xml
