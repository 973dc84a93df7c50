-- ===== src/Capture/Keys.antt =====
-- The keys of the bucket: a manifest is no message, and equal days have one manifest.
use tactical_gateway.Base.{◌≡◌, ◌≢◌, ap, Text, length, length-append, take, arith, ◌∷◌, ◌++◌}
use tactical_gateway.HashChain.{Datetime}
use tactical_gateway.Capture.{object_key_for, manifest_key_for, day_key_for}

-- A message with a digest of 64 digits is never stored over a manifest.
pub object_key_ne_manifest_key :
    (t u : Datetime) (protocol sha256 : Text)
    → length sha256 ≡ 64
    → object_key_for t protocol sha256 ≢ manifest_key_for u
unfolding object_key_for manifest_key_for
object_key_ne_manifest_key t u protocol sha256 n e =
    let lens = ap length e in
    absurd (
      omega (
        arith,
        lens,
        length-append protocol (b'/' ∷ (take 2 sha256 ++ (b'/' ∷ sha256))),
        length-append (take 2 sha256) (b'/' ∷ sha256),
      ))

-- The day decides the manifest.
pub manifest_key_of_day :
    (t u : Datetime) → day_key_for t ≡ day_key_for u → manifest_key_for t ≡ manifest_key_for u
unfolding day_key_for manifest_key_for
manifest_key_of_day t u e = cc
