-- ===== src/Base/Bits.antt =====
-- `&`, `|` and shifts as arithmetic: by a table over a byte, and by the binary digits at any width.
use Prim.Native.Nat.{
  ℕ, zero, suc, ◌+◌, ◌*◌, ◌/◌, ◌%◌, ◌^◌, ◌≤◌, ◌<◌, ◌-◌, min, max, bit_and, bit_or, bitwise, digits,
  bit_and-bitwise, bit_or-bitwise,
}
use mathlib.Core.Path.{◌≡◌, refl, ap, ◌∙◌}
use mathlib.Core.Bool.{Bool, true, ◌&&◌}
use native.Mathlib.Nat.{pow-suc, one-le-pow}
use native.Mathlib.Omega.{arith}
use tactical_gateway.Base.Tests.{◌==◌}

module _ (f g : ℕ → ℕ) where
  same_below : ℕ → Bool
  same_below zero = true
  same_below (suc n) = (f n == g n) && same_below n

  same_below_sound : (n : ℕ) → same_below n ≡ true → (i : ℕ) → i < n → f i ≡ g i
  unfolding same_below
  same_below_sound zero e i h = absurd (omega arith)
  same_below_sound (suc n) e i h = ground (arith, same_below_sound n (ground arith) i)

-- `b & 0x80` and `b | 0x80` on a byte.
pub top_bit : (b : ℕ) → b < 256 → bit_and b 0x80 ≡ b / 128 * 128
unfolding same_below
top_bit = same_below_sound _ _ 256 refl

pub set_top_bit : (b : ℕ) → b < 128 → bit_or b 0x80 ≡ b + 128
unfolding same_below
set_top_bit = same_below_sound _ _ 128 refl

-- The native operations stand for a recursion on binary digits with fuel; more fuel changes nothing.
module _ (z : ℕ → ℕ) (f : ℕ → ℕ → ℕ) where
  enough_digits : (n m a b : ℕ) → a ≤ n → a ≤ m → digits z f n a b ≡ digits z f m a b
  enough_digits zero zero a b p q = refl
  enough_digits (suc n) zero zero b p q = refl
  enough_digits (suc n) zero (suc a) b p q = absurd (omega arith)
  enough_digits zero (suc m) zero b p q = refl
  enough_digits zero (suc m) (suc a) b p q = absurd (omega arith)
  enough_digits (suc n) (suc m) zero b p q = refl
  enough_digits (suc n) (suc m) (suc a) b p q =
      ap (λ (t : ℕ). t * 2 + f (suc a % 2) (b % 2))
        (enough_digits n m (suc a / 2) (b / 2) (omega arith) (omega arith))

  bitwise_halves :
      (a b : ℕ)
      → bitwise z f (suc a) b ≡ bitwise z f (suc a / 2) (b / 2) * 2 + f (suc a % 2) (b % 2)
  bitwise_halves a b =
      ap (λ (t : ℕ). t * 2 + f (suc a % 2) (b % 2))
        (enough_digits a (suc a / 2) (suc a / 2) (b / 2) (omega arith) (omega arith))

or_halves : (a b : ℕ) → bit_or a b ≡ bit_or (a / 2) (b / 2) * 2 + max (a % 2) (b % 2)
or_halves zero b = simp bit_or-bitwise (omega arith)
or_halves (suc a) b = simp bit_or-bitwise (bitwise_halves (λ y. y) max a b)

and_halves : (a b : ℕ) → bit_and a b ≡ bit_and (a / 2) (b / 2) * 2 + min (a % 2) (b % 2)
and_halves zero b = simp bit_and-bitwise (omega arith)
and_halves (suc a) b = simp bit_and-bitwise (bitwise_halves (λ y. 0) min a b)

or_nothing : (b : ℕ) → bit_or 0 b ≡ b
or_nothing b = simp bit_or-bitwise (refl)

and_nothing : (n a : ℕ) → a ≤ n → bit_and a 0 ≡ 0
and_nothing n zero h = refl
and_nothing zero (suc a) h = absurd (omega arith)
and_nothing (suc n) (suc a) h =
    omega (arith, and_halves (suc a) 0, and_nothing n (suc a / 2) (omega arith))

double_pow : (q k : ℕ) → q * 2 ^ suc k ≡ 2 * (q * 2 ^ k)
double_pow q k = omega (arith, ap (λ (t : ℕ). q * t) (pow-suc 2 k))

-- `r | (q << k)` is a sum where `r` fits in `k` bits.
pub or_fields : (k r q : ℕ) → r < 2 ^ k → bit_or r (q * 2 ^ k) ≡ r + q * 2 ^ k
or_fields zero r q fits = let e : r ≡ 0 = omega arith in rw e (or_nothing (q * 1) ∙ omega arith)
or_fields (suc k) r q fits = ground (
  arith,
  or_halves r (q * 2 ^ suc k),
  double_pow q k,
  pow-suc 2 k,
  or_fields k (r / 2) q (omega (arith, pow-suc 2 k)),
)

or_nothing_right : (n a : ℕ) → a ≤ n → bit_or a 0 ≡ a
or_nothing_right n zero h = or_nothing 0
or_nothing_right zero (suc a) h = absurd (omega arith)
or_nothing_right (suc n) (suc a) h =
    omega (arith, or_halves (suc a) 0, or_nothing_right n (suc a / 2) (omega arith))

-- `(q << k) | r` likewise.
pub or_shifted : (k r q : ℕ) → r < 2 ^ k → bit_or (q * 2 ^ k) r ≡ q * 2 ^ k + r
or_shifted zero r q fits =
    let e : r ≡ 0 = omega arith in
    rw e (or_nothing_right (q * 1) (q * 1) (omega arith) ∙ omega arith)
or_shifted (suc k) r q fits = ground (
  arith,
  or_halves (q * 2 ^ suc k) r,
  double_pow q k,
  pow-suc 2 k,
  or_shifted k (r / 2) q (omega (arith, pow-suc 2 k)),
)

mod_double : (m a : ℕ) → 0 < m → a % (2 * m) ≡ (a / 2 % m) * 2 + a % 2
mod_double m a h = grind arith

-- `a & (2 ** k - 1)` keeps the low `k` bits.
pub and_mask : (k a : ℕ) → bit_and a (2 ^ k - 1) ≡ a % 2 ^ k
and_mask zero a = and_nothing a a (omega arith) ∙ omega arith
and_mask (suc k) a = ground (
  arith,
  and_halves a (2 ^ suc k - 1),
  pow-suc 2 k,
  one-le-pow k 2,
  mod_double (2 ^ k) a,
  halved,
  and_mask k (a / 2),
)
  where
    halved : (2 ^ suc k - 1) / 2 ≡ 2 ^ k - 1
    halved = omega (arith, pow-suc 2 k, one-le-pow k 2)
