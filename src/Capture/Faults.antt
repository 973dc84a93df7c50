-- ===== src/Capture/Faults.antt =====
-- What a failed call of MinIO leaves behind in the writer.
use mathlib.Core.List.{map-append}
use tactical_gateway.Base.{
  ℕ, ◌≡◌, ◌≢◌, refl, ap, sym, ◌∙◌, Bool, true, false, none, some, List, [], ◌∷◌, ◌++◌, Text,
  text_eq_refl, map, arith, append_assoc,
}
use tactical_gateway.HashChain.{Datetime, ChainEntry, genesis_prev_hash, verify_chain}
use tactical_gateway.HashChain.Verify.{Linked, tip, verify_chain_iff}
use tactical_gateway.Capture.{
  ManifestFormat, State, ok, err, s3_error, is_day, put, join_lines, manifest_key_for, day_key_for,
  to_jsonl, chain_entry, capture, roll_chain_if_needed, record_entry,
}
use tactical_gateway.Capture.Steps.{bind_ok, manifest_of, pointer_to}
use tactical_gateway.Capture.Chain.{
  next_entry, manifest_of-append, capture_rolled, next_entry_linked,
}

module _ (f : ManifestFormat) where
  -- The writer's fields are those of the chain `es` of the day `d`.
  abbrev pub Current : Datetime → List ChainEntry → State → Type 0
  Current d es s =
      (is_day s.chain_day (day_key_for d) ≡ true)
      × (s.manifest_lines ≡ map (to_jsonl f) es)
      × (s.chain_tip ≡ tip f.hashing genesis_prev_hash es)

  roll_nothing :
      (d : Datetime) (s : State)
      → is_day s.chain_day (day_key_for d) ≡ true
      → roll_chain_if_needed f d s ≡ (ok tt, s)
  unfolding roll_chain_if_needed
  roll_nothing d s same = rw same refl

  capture-Current :
      (raw : List ℕ) (protocol : Text) (d : Datetime) (es : List ChainEntry) (s : State)
      → Current d es s
      → capture f raw protocol d s
        ≡ record_entry f raw protocol d (next_entry f es raw protocol d) s
  unfolding capture
  capture-Current raw protocol d es s c =
      bind_ok (roll_chain_if_needed f d) _ s s tt (roll_nothing d s c.0)
      ∙ ap (λ t. record_entry f raw protocol d (chain_entry f t raw protocol d) s) c.2

  -- With the chain of the day in memory, a message whose own write fails leaves no trace: the call
  -- raises, and the fields and the bucket are as before.
  pub capture_object_fault :
      (raw : List ℕ) (protocol : Text) (d : Datetime) (es : List ChainEntry) (s : State)
      (fs : List Bool)
      → Current d es s
      → s.faults ≡ true ∷ fs
      → capture f raw protocol d s ≡ (err s3_error, record s { faults = fs })
  capture_object_fault raw protocol d es s fs c nf =
      capture-Current raw protocol d es s c ∙ unfold record_entry in ground arith

  -- The state after a capture whose manifest could not be written: the line is kept, the tip is not.
  abbrev after_fault : List ℕ → ChainEntry → State → State
  after_fault raw e s = record s {
    manifest_lines = s.manifest_lines ++ (to_jsonl f e ∷ []);
    objects = put e.object_key raw s.objects;
    faults = [];
  }

  manifest_fault :
      (raw : List ℕ) (protocol : Text) (d : Datetime) (es : List ChainEntry) (s : State)
      → Current d es s
      → s.faults ≡ false ∷ true ∷ []
      → capture f raw protocol d s
        ≡ (err s3_error, after_fault raw (next_entry f es raw protocol d) s)
  manifest_fault raw protocol d es s c nf =
      capture-Current raw protocol d es s c ∙ unfold record_entry in ground arith

  Linked-last :
      (p : Text) (es : List ChainEntry) (e x : ChainEntry)
      → Linked f.hashing p (es ++ (e ∷ x ∷ []))
      → x.prev_hash ≡ e.entry_hash
  Linked-last p [] e x l = l.2.0
  Linked-last p (y ∷ es) e x l = Linked-last y.entry_hash es e x l.2

  -- With the chain of the day in memory, and if the hash of the first entry differs from the tip: when
  -- the write of the manifest fails after that of the message, the capture raises, but its line stays
  -- in the writer. A second capture at the same time then publishes a manifest with both entries, each
  -- linked to the old tip, and `verify_chain` rejects that manifest.
  pub capture_manifest_fault :
      (raw raw' : List ℕ) (protocol protocol' : Text) (d : Datetime) (es : List ChainEntry)
      (s : State)
      → Current d es s
      → s.faults ≡ false ∷ true ∷ []
      → (next_entry f es raw protocol d).entry_hash ≢ tip f.hashing genesis_prev_hash es
      → let e = next_entry f es raw protocol d in
        let e' = next_entry f es raw' protocol' d in
        let (r, s1) = capture f raw protocol d s in
        let (r', s2) = capture f raw' protocol' d s1 in
        (r ≡ err s3_error)
        × (r' ≡ ok (pointer_to f e' d, e'))
        × (s2.objects (manifest_key_for d) ≡ manifest_of f (es ++ (e ∷ e' ∷ [])))
        × (verify_chain f.hashing (es ++ (e ∷ e' ∷ [])) ≢ (true, none))
  capture_manifest_fault raw raw' protocol protocol' d es s c nf ne =
      let second =
        capture_rolled f raw' protocol' d e' (after_fault raw e s) (after_fault raw e s)
          (roll_nothing d (after_fault raw e s) c.0)
          (ap (λ t. chain_entry f t raw' protocol' d) c.2) refl in
      rw (manifest_fault raw protocol d es s c nf, second)
        (
          refl,
          refl,
          rw (text_eq_refl (manifest_key_for d)) published,
          λ v. ne (
              sym (Linked-last genesis_prev_hash es e e' ((verify_chain_iff f.hashing _).0 v))
              ∙ next_entry_linked f es raw' protocol' d),
        )
    where
      e : ChainEntry
      e = next_entry f es raw protocol d

      e' : ChainEntry
      e' = next_entry f es raw' protocol' d

      published :
          some (
            f.hashing.utf8
              (join_lines ((s.manifest_lines ++ (to_jsonl f e ∷ [])) ++ (to_jsonl f e' ∷ []))))
          ≡ manifest_of f (es ++ (e ∷ e' ∷ []))
      published =
          rw c.1 (
            ap (λ l. some (f.hashing.utf8 (join_lines (l ++ (to_jsonl f e' ∷ [])))))
              (sym (map-append (to_jsonl f) es (e ∷ []))))
          ∙ sym (manifest_of-append f (es ++ (e ∷ [])) e')
          ∙ ap (manifest_of f) (append_assoc es (e ∷ []) (e' ∷ []))
