-- ===== src/Frame/Varint.antt =====
-- The varint loops of the framing: what `encode_frame` writes for a length below 2 ^ 42,
-- `try_decode_frame` reads back. Six bytes of seven bits are the most that the decoder takes.
use mathlib.Core.WellFounded.{Acc}
use native.Mathlib.Nat.{div-add-mod}
use native.Mathlib.Numerals.{towards_suc}
use tactical_gateway.Base.{
  ℕ, zero, suc, ◌+◌, ◌*◌, ◌/◌, ◌%◌, ◌^◌, ◌≤◌, ◌<◌, ◌≡◌, ap, List, ◌∷◌, ◌++◌, bit_and, bit_or,
  length, arith,
}
use tactical_gateway.Base.Bits.{top_bit, set_top_bit, and_mask, or_fields}
use tactical_gateway.Frame.{varint_loop, read_varint, ended}

low_seven : (n : ℕ) → bit_and n 0x7f ≡ n % 128
low_seven n = and_mask 7 n

add_group :
    (acc b shift : ℕ)
    → acc < 2 ^ shift
    → bit_or acc (bit_and b 0x7f * 2 ^ shift) ≡ acc + b % 128 * 2 ^ shift
add_group acc b shift h = rw (low_seven b) (or_fields shift acc (b % 128) h)

read_last :
    (w acc shift i : ℕ) (rest : List ℕ)
    → w < 128
    → acc < 2 ^ shift
    → read_varint (w ∷ rest) acc shift i ≡ ended (acc + w * 2 ^ shift) (i + 1) rest
unfolding read_varint
read_last w acc shift i rest hw ha = ground (arith, top_bit w, add_group acc w shift ha, small)
  where
    small : w % 128 ≡ w
    small = omega arith

read_inner :
    (g acc shift i : ℕ) (rest : List ℕ)
    → g < 128
    → acc < 2 ^ shift
    → shift + 7 ≤ 35
    → read_varint ((g + 128) ∷ rest) acc shift i
      ≡ read_varint rest (acc + g * 2 ^ shift) (shift + 7) (i + 1)
unfolding read_varint
read_inner g acc shift i rest hg ha hs =
    ground (arith, top_bit (g + 128), add_group acc (g + 128) shift ha, small)
  where
    small : (g + 128) % 128 ≡ g
    small = omega arith

shift_seven : (s : ℕ) → 2 ^ (s + 7) ≡ 128 * 2 ^ s
shift_seven s = simp towards_suc (omega arith)

split_group : (n s : ℕ) → n * 2 ^ s ≡ n % 128 * 2 ^ s + n / 128 * 2 ^ (s + 7)
split_group n s = omega (
  arith,
  ap (λ (t : ℕ). t * 2 ^ s) (div-add-mod n 128),
  ap (λ (t : ℕ). n / 128 * t) (shift_seven s),
)

group_fits : (g acc s : ℕ) → g < 128 → acc < 2 ^ s → acc + g * 2 ^ s < 2 ^ (s + 7)
group_fits g acc s hg ha = rw (shift_seven s) (grind arith)

pub read_varint-varint_loop :
    (k n acc shift i : ℕ) (w : Acc ◌<◌ n) (rest : List ℕ)
    → n < 128 ^ suc k
    → acc < 2 ^ shift
    → shift + 7 * k ≤ 35
    → read_varint (varint_loop n w ++ rest) acc shift i
      ≡ ended (acc + n * 2 ^ shift) (i + length (varint_loop n w)) rest
unfolding varint_loop
read_varint-varint_loop zero n acc shift i (Acc.intro _ smaller) rest hn ha hs =
    ground (arith, low_seven n, read_last n acc shift i rest)
read_varint-varint_loop (suc k) n acc shift i (Acc.intro _ smaller) rest hn ha hs = grind (
  arith,
  low_seven n,
  set_top_bit (n % 128),
  read_last n acc shift i rest,
  split_group n shift,
  group_fits (n % 128) acc shift,
  λ (w : Acc ◌<◌ (n / 128)). read_inner (n % 128) acc shift i (varint_loop (n / 128) w ++ rest),
  λ (w : Acc ◌<◌ (n / 128)).
      read_varint-varint_loop k (n / 128) (acc + n % 128 * 2 ^ shift) (shift + 7) (i + 1) w rest
        (omega arith),
)
