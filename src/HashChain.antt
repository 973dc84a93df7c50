-- ===== src/HashChain.antt =====
-- libs/cto_schema/src/cto_schema/hashchain.py: the entries of the hash chain and its verification.
-- SHA-256, UTF-8 and `isoformat` are parameters; a digest is the text of its hex digits.
pub mod Verify
pub mod Tamper
pub mod Samples
use tactical_gateway.Base.{
  ℕ, ◌+◌, ◌≡◌, Bool, true, false, Option, none, some, List, [], ◌∷◌, ◌++◌, Text, text_eq, length,
  take, replicate, if◌then◌else◌, All, ◌≢◌, not,
}

-- A UTC time: the date by which captures are filed, and the microseconds since midnight.
pub record Datetime : Type 0 where
  pub year : ℕ
  pub month : ℕ
  pub day : ℕ
  pub micros : ℕ

abbrev pub newline : ℕ
newline = 10

-- What the chain uses of `hashlib`, of UTF-8 and of `datetime`.
pub record Hashing : Type 0 where
  pub sha256_hex : List ℕ → Text
  pub utf8 : Text → List ℕ
  pub isoformat : Datetime → Text
  -- A hex digest has 64 digits, UTF-8 loses nothing, and an ISO time is one line.
  pub length-sha256_hex : (b : List ℕ) → length (sha256_hex b) ≡ 64
  pub utf8_injective : (s t : Text) → utf8 s ≡ utf8 t → s ≡ t
  pub isoformat_line : (d : Datetime) → All (λ c. c ≢ newline) (isoformat d)

abbrev pub genesis_prev_hash : Text
genesis_prev_hash = replicate 64 b'0'

pub record ChainEntry : Type 0 where
  pub sha256 : Text
  pub prev_hash : Text
  pub entry_hash : Text
  pub captured_at : Datetime
  pub object_key : Text
  pub size_bytes : ℕ
  pub protocol : Text

-- What `verify_chain` reports: the entry's index and the heads of the two hashes.
pub data ChainError : Type 0 where
  prev_hash_mismatch : ℕ → Text → Text → ChainError
  entry_hash_mismatch : ℕ → ChainError

module _ (h : Hashing) where
  unfoldable pub chain_payload : Text → Text → Datetime → Text
  chain_payload prev_hash sha256 captured_at =
      prev_hash ++ (newline ∷ (sha256 ++ (newline ∷ h.isoformat captured_at)))

  unfoldable pub compute_entry_hash : Text → Text → Datetime → Text
  unfolding chain_payload
  compute_entry_hash prev_hash sha256 captured_at =
      h.sha256_hex (h.utf8 (chain_payload prev_hash sha256 captured_at))

  unfoldable pub make_entry : Text → List ℕ → Datetime → Text → Text → ChainEntry
  make_entry prev_hash raw_bytes captured_at object_key protocol =
      let sha = h.sha256_hex raw_bytes in
      record {
        sha256 = sha;
        prev_hash = prev_hash;
        entry_hash = compute_entry_hash prev_hash sha captured_at;
        captured_at = captured_at;
        object_key = object_key;
        size_bytes = length raw_bytes;
        protocol = protocol;
      }

  -- The loop of `verify_chain` at entry `i`, with the hash that the entry must link to.
  unfoldable pub verify_from : ℕ → Text → List ChainEntry → Bool × Option ChainError
  verify_from i prev [] = (true, none)
  verify_from i prev (e ∷ es) =
      let rest = verify_from (i + 1) e.entry_hash es in
      if not (text_eq e.prev_hash prev)
      then (false, some (prev_hash_mismatch i (take 16 prev) (take 16 e.prev_hash)))
      else if not (text_eq e.entry_hash (compute_entry_hash e.prev_hash e.sha256 e.captured_at))
      then (false, some (entry_hash_mismatch i))
      else rest

  unfoldable pub verify_chain : List ChainEntry → Bool × Option ChainError
  unfolding verify_from
  verify_chain entries = verify_from 0 genesis_prev_hash entries
