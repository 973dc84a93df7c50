-- ===== src/Uuid7.antt =====
-- libs/cto_schema/src/cto_schema/uuid7.py: the layout of a UUID v7 as a number of 128 bits.
pub mod Layout
mod Samples
use tactical_gateway.Base.{
  ℕ, ◌*◌, ◌/◌, ◌%◌, ◌^◌, bit_and, bit_or, Bool, false, Option, none, some, ◌==◌, if◌then◌else◌,
}

-- `uuid7` at the clock `ms` in milliseconds, with the numbers that `os.urandom` gives.
unfoldable pub uuid7 : ℕ → ℕ → ℕ → ℕ
uuid7 ms random2 random8 =
    let ts_ms = bit_and ms 0xFFFFFFFFFFFF in
    let rand_a = bit_and random2 0x0FFF in
    let rand_b = bit_and random8 0x3FFFFFFFFFFFFFFF in
    bit_or (bit_or (bit_or (bit_or (ts_ms * 2 ^ 80) (7 * 2 ^ 76)) (rand_a * 2 ^ 64)) (2 * 2 ^ 62))
      rand_b

-- The property `version` of `uuid.UUID`: there is one for the variant of RFC 4122 only.
unfoldable pub version : ℕ → Option ℕ
version uid = if uid / 2 ^ 62 % 4 == 2 then some (uid / 2 ^ 76 % 16) else none

abbrev pub is_version : ℕ → Option ℕ → Bool
is_version n none = false
is_version n (some v) = v == n

-- `uuid7_timestamp_ms`; `none` is the ValueError.
unfoldable pub uuid7_timestamp_ms : ℕ → Option ℕ
unfolding version
uuid7_timestamp_ms uid = if is_version 7 (version uid) then some (uid / 2 ^ 80) else none
