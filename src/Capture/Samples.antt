-- ===== src/Capture/Samples.antt =====
-- Captures at concrete messages, and the theorems of the writer there.
use tactical_gateway.Base.{
  ◌≡◌, ◌≢◌, refl, Bool, true, false, none, some, List, [], ◌∷◌, ◌++◌, Text, codes, text_eq, arith,
}
use tactical_gateway.HashChain.{
  Datetime, genesis_prev_hash, make_entry, compute_entry_hash, verify_chain,
}
use tactical_gateway.HashChain.Samples.{hashing, noon}
use tactical_gateway.Capture.{
  State, ok, err, s3_error, new_writer, capture, chain_entry, day_key_for, manifest_key_for,
  object_key_for, object_key_for, is_day, splitlines, line_step,
}
use tactical_gateway.Capture.Format.{format}
use tactical_gateway.Capture.Steps.{Holds, manifest_of, pointer_to}
use tactical_gateway.Capture.Chain.{next_entry, capture_extends, capture_other_day, capture_restart}
use tactical_gateway.Capture.Faults.{Current, capture_object_fault, capture_manifest_fault}

abbrev cot : Text
cot = codes "cot_xml"

abbrev next_day : Datetime
next_day = record noon { day = 21 }

abbrev empty_bucket : State
empty_bucket = new_writer (λ k. none) []

empty-Holds : (d : Datetime) → Holds format d [] empty_bucket
empty-Holds d = record { linked = tt; stored = refl; current = λ e. cc }

noon_key : manifest_key_for noon ≡ codes "raw/2026/05/20/manifest.jsonl"
unfolding manifest_key_for
noon_key = refl

message_key : object_key_for noon cot (codes "abcd") ≡ codes "raw/2026/05/20/cot_xml/ab/abcd"
unfolding object_key_for
message_key = refl

crlf_lines : splitlines (codes "a" ++ (13 ∷ 10 ∷ codes "b")) ≡ codes "a" ∷ codes "b" ∷ []
unfolding splitlines line_step
crlf_lines = refl

capture_extends_example :
    let e = next_entry format [] (1 ∷ 2 ∷ []) cot noon in
    (s' : State) × (capture format (1 ∷ 2 ∷ []) cot noon empty_bucket
      ≡ (ok (pointer_to format e noon, e), s'))
    × Holds format noon (e ∷ []) s'
    × (s'.objects e.object_key ≡ some (1 ∷ 2 ∷ []))
    × ((k : Text) → k ≢ e.object_key → k ≢ manifest_key_for noon → s'.objects k ≡ none)
    × (s'.faults ≡ [])
    × (is_day s'.chain_day (day_key_for noon) ≡ true)
capture_extends_example =
    capture_extends format (1 ∷ 2 ∷ []) cot noon [] empty_bucket refl (empty-Holds noon)

other_key : manifest_key_for next_day ≢ manifest_key_for noon
unfolding manifest_key_for
other_key e = absurd (ground arith)

capture_other_day_example :
    Holds format next_day [] (capture format (1 ∷ 2 ∷ []) cot noon empty_bucket).1
capture_other_day_example =
    capture_other_day format (1 ∷ 2 ∷ []) cot noon next_day [] [] empty_bucket refl
      (empty-Holds noon) (empty-Holds next_day) other_key

capture_restart_example :
    ((capture format (3 ∷ []) cot noon (new_writer (λ k. none) [])).0
      ≡ (capture format (3 ∷ []) cot noon empty_bucket).0)
    × ((capture format (3 ∷ []) cot noon (new_writer (λ k. none) [])).1.objects
        ≡ (capture format (3 ∷ []) cot noon empty_bucket).1.objects)
capture_restart_example =
    capture_restart format (3 ∷ []) cot noon [] empty_bucket refl (empty-Holds noon)

abbrev with_faults : List Bool → State
with_faults faults = record {
  chain_day = some (codes "2026-05-20");
  chain_tip = genesis_prev_hash;
  manifest_lines = [];
  objects = λ k. none;
  faults = faults;
}

today : (faults : List Bool) → Current format noon [] (with_faults faults)
unfolding day_key_for text_eq
today faults = (refl, refl, refl)

capture_object_fault_example :
    capture format (3 ∷ []) cot noon (with_faults (true ∷ [])) ≡ (err s3_error, with_faults [])
capture_object_fault_example =
    capture_object_fault format (3 ∷ []) cot noon [] (with_faults (true ∷ [])) []
      (today (true ∷ [])) refl

no_fixpoint : (next_entry format [] (3 ∷ []) cot noon).entry_hash ≢ genesis_prev_hash
unfolding chain_entry make_entry compute_entry_hash
no_fixpoint e = absurd (ground arith)

capture_manifest_fault_example :
    let e = next_entry format [] (3 ∷ []) cot noon in
    let e' = next_entry format [] (4 ∷ []) cot noon in
    let (r, s1) = capture format (3 ∷ []) cot noon (with_faults (false ∷ true ∷ [])) in
    let (r', s2) = capture format (4 ∷ []) cot noon s1 in
    (r ≡ err s3_error)
    × (r' ≡ ok (pointer_to format e' noon, e'))
    × (s2.objects (manifest_key_for noon) ≡ manifest_of format (e ∷ e' ∷ []))
    × (verify_chain hashing (e ∷ e' ∷ []) ≢ (true, none))
capture_manifest_fault_example =
    capture_manifest_fault format (3 ∷ []) (4 ∷ []) cot cot noon []
      (with_faults (false ∷ true ∷ [])) (today (false ∷ true ∷ [])) refl no_fixpoint
