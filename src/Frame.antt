-- ===== src/Frame.antt =====
-- The TAK wire framing of services/gateway/normalizers/cot_pb.py: `encode_frame` and
-- `try_decode_frame`. A buffer is the list of its bytes.
pub mod Varint
pub mod Prefix
pub mod RoundTrip
mod Samples
use mathlib.Core.Logic.{dite}
use mathlib.Core.WellFounded.{Acc}
use native.Mathlib.Decide.{dec_lt}
use tactical_gateway.Base.{
  ℕ, ◌+◌, ◌*◌, ◌/◌, ◌^◌, ◌<◌, bit_and, bit_or, List, [], ◌∷◌, ◌++◌, ltb, ◌==◌, if◌then◌else◌,
  length, take, drop, arith,
}
use tactical_gateway.Base.Order.{lt_wf}

abbrev pub magic : ℕ
magic = 0xbf

pub shift_shrinks : (n : ℕ) → 0 < n / 128 → n / 128 < n
shift_shrinks n h = omega arith

-- The loop of `encode_frame` over `n`; what it returns is appended to `out`.
unfoldable pub varint_loop : (n : ℕ) → Acc ◌<◌ n → List ℕ
varint_loop n (Acc.intro _ smaller) =
    let b = bit_and n 0x7f in
    dite (dec_lt 0 (n / 128))
      (λ more. bit_or b 0x80 ∷ varint_loop (n / 128) (smaller _ (shift_shrinks n more)))
      (λ _. b ∷ [])

unfoldable pub encode_frame : List ℕ → List ℕ
encode_frame payload =
    magic ∷ (varint_loop (length payload) (lt_wf.apply (length payload)) ++ (magic ∷ payload))

-- The `CoTPbError`s that the decoder raises.
pub data FrameError : Type 0 where
  leading_magic second_magic varint_too_long : FrameError

-- What a call returns or raises: `(None, 0)`, `(payload, consumed)`, or an error.
pub data Decoded : Type 0 where
  incomplete : Decoded
  frame : List ℕ → ℕ → Decoded
  malformed : FrameError → Decoded

-- How the loop over the varint ends: out of bytes, with the length and the bytes behind it, or too
-- long.
pub data VarintEnd : Type 0 where
  cut : VarintEnd
  ended : ℕ → ℕ → List ℕ → VarintEnd
  too_long : VarintEnd

-- The loop of `try_decode_frame` at `i`; the list is `buf[i:]`.
unfoldable pub read_varint : List ℕ → ℕ → ℕ → ℕ → VarintEnd
read_varint [] len shift i = cut
read_varint (b ∷ rest) len shift i =
    let len' = bit_or len (bit_and b 0x7f * 2 ^ shift) in
    let next = read_varint rest len' (shift + 7) (i + 1) in
    if bit_and b 0x80 == 0
    then ended len' (i + 1) rest
    else if ltb 35 (shift + 7)
    then too_long
    else next

-- What follows the varint: the second magic byte at `i`, then `len` bytes of payload.
unfoldable pub read_payload : List ℕ → VarintEnd → Decoded
read_payload buf cut = incomplete
read_payload buf too_long = malformed varint_too_long
read_payload buf (ended len i []) = incomplete
read_payload buf (ended len i (m ∷ _)) =
    if m == magic
    then (if ltb (length buf) (i + 1 + len)
        then incomplete
        else frame (take len (drop (i + 1) buf)) (i + 1 + len))
    else malformed second_magic

unfoldable pub try_decode_frame : List ℕ → Decoded
try_decode_frame [] = incomplete
try_decode_frame (m ∷ rest) =
    if m == magic then read_payload (m ∷ rest) (read_varint rest 0 0 1) else malformed leading_magic
