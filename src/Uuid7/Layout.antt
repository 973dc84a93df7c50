-- ===== src/Uuid7/Layout.antt =====
-- The fields of a UUID v7 do not overlap.
use tactical_gateway.Base.{ℕ, ◌+◌, ◌*◌, ◌/◌, ◌%◌, ◌^◌, ◌<◌, ◌≡◌, refl, ◌∙◌, bit_or, some, arith}
use tactical_gateway.Base.Bits.{or_shifted, and_mask}
use tactical_gateway.Uuid7.{uuid7, uuid7_timestamp_ms}

-- The fields of the number, from the highest.
abbrev pub fields : ℕ → ℕ → ℕ → ℕ
fields ts a b = ts * 2 ^ 80 + 7 * 2 ^ 76 + a * 2 ^ 64 + 2 * 2 ^ 62 + b

or_version : (ts : ℕ) → bit_or (ts * 2 ^ 80) (7 * 2 ^ 76) ≡ (ts * 16 + 7) * 2 ^ 76
or_version ts = or_shifted 80 (7 * 2 ^ 76) ts (omega arith) ∙ omega arith

or_random : (v a : ℕ) → a < 2 ^ 12 → bit_or (v * 2 ^ 76) (a * 2 ^ 64) ≡ (v * 2 ^ 12 + a) * 2 ^ 64
or_random v a h = or_shifted 76 (a * 2 ^ 64) v (omega (arith, h)) ∙ omega arith

or_variant : (v : ℕ) → bit_or (v * 2 ^ 64) (2 * 2 ^ 62) ≡ (v * 4 + 2) * 2 ^ 62
or_variant v = or_shifted 64 (2 * 2 ^ 62) v (omega arith) ∙ omega arith

or_fields_lem :
    (ts a b : ℕ)
    → a < 2 ^ 12
    → b < 2 ^ 62
    → bit_or (bit_or (bit_or (bit_or (ts * 2 ^ 80) (7 * 2 ^ 76)) (a * 2 ^ 64)) (2 * 2 ^ 62)) b
      ≡ fields ts a b
or_fields_lem ts a b ha hb = rw (or_version ts) (
    rw (or_random (ts * 16 + 7) a ha) (
      rw (or_variant ((ts * 16 + 7) * 2 ^ 12 + a))
        (or_shifted 62 b (((ts * 16 + 7) * 2 ^ 12 + a) * 4 + 2) hb ∙ omega arith)))

-- A UUID is the sum of its fields: 48 bits of the clock, the version 7, 12 random bits, the variant
-- 2 and 62 random bits.
pub uuid7-fields :
    (ms random2 random8 : ℕ)
    → uuid7 ms random2 random8 ≡ fields (ms % 2 ^ 48) (random2 % 2 ^ 12) (random8 % 2 ^ 62)
unfolding uuid7
uuid7-fields ms random2 random8 = rw (and_mask 48 ms) (
    rw (and_mask 12 random2) (
      rw (and_mask 62 random8) (
        or_fields_lem (ms % 2 ^ 48) (random2 % 2 ^ 12) (random8 % 2 ^ 62) (omega arith)
          (omega arith))))

-- The timestamp of a UUID is the clock modulo 2 ^ 48 milliseconds, whatever the random bytes are, and
-- no UUID of the generator is refused.
pub uuid7_timestamp_ms-uuid7 :
    (ms random2 random8 : ℕ) → uuid7_timestamp_ms (uuid7 ms random2 random8) ≡ some (ms % 2 ^ 48)
unfolding uuid7_timestamp_ms
uuid7_timestamp_ms-uuid7 ms random2 random8 =
    rw (uuid7-fields ms random2 random8)
      (read (ms % 2 ^ 48) (random2 % 2 ^ 12) (random8 % 2 ^ 62) (omega arith) (omega arith))
  where
    read : (ts a b : ℕ) → a < 2 ^ 12 → b < 2 ^ 62 → uuid7_timestamp_ms (fields ts a b) ≡ some ts
    read ts a b ha hb =
        let v : fields ts a b / 2 ^ 76 % 16 ≡ 7 = omega (arith, ha, hb) in
        let r : fields ts a b / 2 ^ 62 % 4 ≡ 2 = omega (arith, ha, hb) in
        let t : fields ts a b / 2 ^ 80 ≡ ts = omega (arith, ha, hb) in rw (r, v, t) refl

-- UUIDs of a later millisecond are greater, up to the end of the 48 bits.
pub uuid7_sorted : (ms ms' x y x' y' : ℕ) → ms < ms' → ms' < 2 ^ 48 → uuid7 ms x y < uuid7 ms' x' y'
uuid7_sorted ms ms' x y x' y' earlier fits =
    rw (uuid7-fields ms x y, uuid7-fields ms' x' y')
      (before (ms % 2 ^ 48) (ms' % 2 ^ 48) (x % 2 ^ 12) (y % 2 ^ 62) (x' % 2 ^ 12) (y' % 2 ^ 62)
        (omega arith) (omega arith) (omega arith))
  where
    before : (s t a b a' b' : ℕ) → s < t → a < 2 ^ 12 → b < 2 ^ 62 → fields s a b < fields t a' b'
    before s t a b a' b' h ha hb = omega (arith, h, ha, hb)
