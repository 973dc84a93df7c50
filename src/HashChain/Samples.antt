-- ===== src/HashChain/Samples.antt =====
-- A concrete digest, and the chain's theorems at two entries.
use mathlib.Core.List.{reverse}
use tactical_gateway.Base.{
  ℕ, ◌+◌, ◌≡◌, refl, ◌≢◌, ◌↔◌, ◌⊎◌, true, false, none, some, List, [], ◌∷◌, ◌++◌, Text, codes,
  text_eq, length, take, replicate, length-take_le, length-append, All, arith,
}
use tactical_gateway.HashChain.{
  Datetime, Hashing, ChainEntry, genesis_prev_hash, compute_entry_hash, chain_payload, make_entry,
  verify_chain, ChainError, prev_hash_mismatch,
}
use tactical_gateway.HashChain.Verify.{Linked, FirstBad, verify_chain_iff, verify_chain_blames}
use tactical_gateway.HashChain.Tamper.{Collision, AllSame, verify_chain_tamper}

-- The last 64 bytes, last first, filled up with zeros: no good hash, but one of the right shape.
abbrev pub tail_digest : List ℕ → Text
tail_digest b = take 64 (reverse b ++ replicate 64 b'0')

pub length-tail_digest : (b : List ℕ) → length (tail_digest b) ≡ 64
length-tail_digest b =
    length-take_le 64 (reverse b ++ replicate 64 b'0')
      (omega (arith, length-append (reverse b) (replicate 64 b'0')))

abbrev pub plain_iso : Datetime → Text
plain_iso d = (d.year + 48) ∷ (d.month + 48) ∷ (d.day + 48) ∷ (d.micros + 48) ∷ []

pub plain_iso_line : (d : Datetime) → All (λ c. c ≢ 10) (plain_iso d)
plain_iso_line d = omega arith

abbrev pub hashing : Hashing
hashing = record {
  sha256_hex = tail_digest;
  utf8 = λ t. t;
  isoformat = plain_iso;
  length-sha256_hex = length-tail_digest;
  utf8_injective = λ s t e. e;
  isoformat_line = plain_iso_line;
}

abbrev pub noon : Datetime
noon = record { year = 2026; month = 5; day = 20; micros = 0 }

abbrev first_entry : ChainEntry
first_entry = make_entry hashing genesis_prev_hash (1 ∷ 2 ∷ []) noon (codes "k1") (codes "cot_xml")

abbrev second_entry : ChainEntry
second_entry =
    make_entry hashing first_entry.entry_hash (3 ∷ []) noon (codes "k2") (codes "cot_xml")

-- The same message filed under another key and size.
abbrev renamed_entry : ChainEntry
renamed_entry = record first_entry { object_key = codes "k9"; size_bytes = 77 }

one_entry_verifies : verify_chain hashing (first_entry ∷ []) ≡ (true, none)
unfolding verify_chain make_entry compute_entry_hash text_eq
one_entry_verifies = refl

verify_chain_iff_example :
    (verify_chain hashing (first_entry ∷ []) ≡ (true, none))
    ↔ Linked hashing genesis_prev_hash (first_entry ∷ [])
verify_chain_iff_example = verify_chain_iff hashing (first_entry ∷ [])

abbrev bad_link : ChainEntry
bad_link = record second_entry { prev_hash = codes "x" }

abbrev bad_link_error : ChainError
bad_link_error = prev_hash_mismatch 1 (take 16 first_entry.entry_hash) (codes "x")

bad_link_found : verify_chain hashing (first_entry ∷ bad_link ∷ []) ≡ (false, some bad_link_error)
unfolding verify_chain make_entry compute_entry_hash text_eq
bad_link_found = refl

verify_chain_blames_example :
    FirstBad hashing 0 genesis_prev_hash (first_entry ∷ bad_link ∷ []) bad_link_error
verify_chain_blames_example =
    verify_chain_blames hashing (first_entry ∷ bad_link ∷ []) bad_link_error bad_link_found

verify_chain_tamper_example :
    Collision hashing ⊎ AllSame hashing (first_entry ∷ []) (renamed_entry ∷ [])
unfolding make_entry compute_entry_hash verify_chain text_eq chain_payload
verify_chain_tamper_example =
    verify_chain_tamper hashing (first_entry ∷ []) (renamed_entry ∷ []) refl refl refl refl
