-- ===== src/Capture/Steps.antt =====
-- What the writer holds of a day's chain, and what loading and recording do to it.
use tactical_gateway.Base.{
  ℕ, ◌≡◌, refl, ap, inl, inr, true, Option, none, some, List, [], ◌∷◌, ◌++◌, Text, last_or, map,
  arith, Bool-cases, text_eq_refl,
}
use tactical_gateway.HashChain.{Datetime, ChainEntry, genesis_prev_hash}
use tactical_gateway.HashChain.Verify.{Linked, tip}
use tactical_gateway.Capture.{
  ManifestFormat, State, ok, Action, RawPointer, is_day, join_lines, manifest_key_for, day_key_for,
  to_jsonl, start_chain, load_chain, roll_chain_if_needed, put, record_entry, ◌>>=◌, then_do,
}
use tactical_gateway.Capture.Lines.{
  splitlines-join_lines, from_jsonl-to_jsonl, to_jsonl_lines, last_or-map, tip-last_or,
}

-- A bind whose first call returns.
pub bind_ok :
    {A B : Type 0} (m : Action A) (k : A → Action B) (s s' : State) (a : A)
    → m s ≡ (ok a, s')
    → (m >>= k) s ≡ k a s'
bind_ok m k s s' a e = ap (then_do k) e

module _ (f : ManifestFormat) where
  -- The manifest object of a chain; an empty chain has none.
  abbrev pub manifest_of : List ChainEntry → Option (List ℕ)
  manifest_of [] = none
  manifest_of (e ∷ es) = some (f.hashing.utf8 (join_lines (map (to_jsonl f) (e ∷ es))))

  -- The bucket holds the chain `es` of the day `d`, and the writer's fields agree with it if they
  -- are that day's.
  pub record Holds (d : Datetime) (es : List ChainEntry) (s : State) : Type 0 where
    pub linked : Linked f.hashing genesis_prev_hash es
    pub stored : s.objects (manifest_key_for d) ≡ manifest_of es
    pub current :
        is_day s.chain_day (day_key_for d) ≡ true
        → (s.manifest_lines ≡ map (to_jsonl f) es)
          × (s.chain_tip ≡ tip f.hashing genesis_prev_hash es)

  -- The fields once the chain `es` of the day `d` is loaded.
  abbrev pub loaded : Datetime → List ChainEntry → State → State
  loaded d es s = record s {
    chain_day = some (day_key_for d);
    chain_tip = tip f.hashing genesis_prev_hash es;
    manifest_lines = map (to_jsonl f) es;
  }

  start_chain_lem :
      (e : ChainEntry) (es : List ChainEntry) (s : State)
      → start_chain f (manifest_of (e ∷ es)) s ≡ (
        ok tt,
        record s {
          chain_tip = tip f.hashing genesis_prev_hash (e ∷ es);
          manifest_lines = map (to_jsonl f) (e ∷ es);
        },
      )
  unfolding start_chain
  start_chain_lem e es s = simp (
    f.decode_utf8-utf8 (join_lines (map (to_jsonl f) (e ∷ es))),
    splitlines-join_lines (to_jsonl f e) (map (to_jsonl f) es) (to_jsonl_lines f (e ∷ es)),
    last_or-map f e es,
    from_jsonl-to_jsonl f (last_or e es),
    tip-last_or f genesis_prev_hash e es,
  )

  load_chain_lem :
      (d : Datetime) (es : List ChainEntry) (s : State)
      → s.faults ≡ []
      → s.objects (manifest_key_for d) ≡ manifest_of es
      → load_chain f d s ≡ (ok tt, loaded d es s)
  unfolding load_chain
  load_chain_lem d [] s nf st = rw (nf, st) refl
  load_chain_lem d (e ∷ es) s nf st = ground (arith, start_chain_lem e es s)

  -- After the roll the fields are those of the day's chain, and the bucket is as it was.
  pub roll_lem :
      (d : Datetime) (es : List ChainEntry) (s : State)
      → s.faults ≡ []
      → Holds d es s
      → (s' : State) × (roll_chain_if_needed f d s ≡ (ok tt, s'))
        × (is_day s'.chain_day (day_key_for d) ≡ true)
        × (s'.manifest_lines ≡ map (to_jsonl f) es)
        × (s'.chain_tip ≡ tip f.hashing genesis_prev_hash es)
        × (s'.objects ≡ s.objects)
        × (s'.faults ≡ [])
  unfolding roll_chain_if_needed
  roll_lem d es s nf h = elim (Bool-cases (is_day s.chain_day (day_key_for d))) [
    | inl same ↦ (s, rw same refl, same, (h.current same).0, (h.current same).1, refl, nf)
    | inr other ↦ (
      loaded d es s,
      rw other (load_chain_lem d es s nf h.stored),
      text_eq_refl _,
      refl,
      refl,
      refl,
      nf,
    )
  ]

  -- What recording an entry leaves when no call of MinIO raises.
  abbrev pub recorded : List ℕ → Datetime → ChainEntry → State → State
  recorded raw d entry s = record s {
    chain_tip = entry.entry_hash;
    manifest_lines = s.manifest_lines ++ (to_jsonl f entry ∷ []);
    objects =
        put (manifest_key_for d)
          (f.hashing.utf8 (join_lines (s.manifest_lines ++ (to_jsonl f entry ∷ []))))
          (put entry.object_key raw s.objects);
  }

  abbrev pub pointer_to : ChainEntry → Datetime → RawPointer
  pointer_to entry d = record {
    sha256 = entry.sha256;
    object_key = entry.object_key;
    size_bytes = entry.size_bytes;
    captured_at = d;
  }

  pub record_entry_lem :
      (raw : List ℕ) (protocol : Text) (d : Datetime) (entry : ChainEntry) (s : State)
      → s.faults ≡ []
      → record_entry f raw protocol d entry s
        ≡ (ok (pointer_to entry d, entry), recorded raw d entry s)
  unfolding record_entry
  record_entry_lem raw protocol d entry s nf = ground arith
