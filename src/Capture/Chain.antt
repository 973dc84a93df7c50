-- ===== src/Capture/Chain.antt =====
-- Captures extend the day's chain, across restarts of the process and changes of the day.
use mathlib.Core.List.{map-append}
use tactical_gateway.Base.{
  ℕ, ◌≡◌, ◌≢◌, refl, ap, sym, ◌∙◌, true, false, Option, none, some, List, [], ◌∷◌, ◌++◌, Text,
  text_eq, text_eq_refl, text_eq_ne, text_eq_iff, map,
}
use tactical_gateway.HashChain.{Datetime, ChainEntry, genesis_prev_hash, make_entry}
use tactical_gateway.HashChain.Verify.{Linked, Linked-append, tip, IsSealed}
use tactical_gateway.Capture.{
  ManifestFormat, State, ok, is_day, join_lines, manifest_key_for, day_key_for, to_jsonl,
  chain_entry, capture, roll_chain_if_needed, record_entry, new_writer,
}
use tactical_gateway.Capture.Keys.{object_key_ne_manifest_key, manifest_key_of_day}
use tactical_gateway.Capture.Steps.{
  bind_ok, Holds, manifest_of, recorded, pointer_to, roll_lem, record_entry_lem,
}

module _ (f : ManifestFormat) where
  pub manifest_of-append :
      (es : List ChainEntry) (e : ChainEntry)
      → manifest_of f (es ++ (e ∷ []))
        ≡ some (f.hashing.utf8 (join_lines (map (to_jsonl f) es ++ (to_jsonl f e ∷ []))))
  manifest_of-append [] e = refl
  manifest_of-append (x ∷ es) e =
      ap (λ ls. some (f.hashing.utf8 (join_lines (to_jsonl f x ∷ ls))))
        (map-append (to_jsonl f) es (e ∷ []))

  pub tip-append :
      (p : Text) (es : List ChainEntry) (e : ChainEntry)
      → tip f.hashing p (es ++ (e ∷ [])) ≡ e.entry_hash
  tip-append p [] e = refl
  tip-append p (x ∷ es) e = tip-append x.entry_hash es e

  -- The entry that the next capture makes.
  abbrev pub next_entry : List ChainEntry → List ℕ → Text → Datetime → ChainEntry
  next_entry es raw protocol d = chain_entry f (tip f.hashing genesis_prev_hash es) raw protocol d

  next_entry-IsSealed :
      (es : List ChainEntry) (raw : List ℕ) (protocol : Text) (d : Datetime)
      → IsSealed f.hashing (next_entry es raw protocol d)
  unfolding chain_entry make_entry
  next_entry-IsSealed es raw protocol d = refl

  pub next_entry_linked :
      (es : List ChainEntry) (raw : List ℕ) (protocol : Text) (d : Datetime)
      → (next_entry es raw protocol d).prev_hash ≡ tip f.hashing genesis_prev_hash es
  unfolding chain_entry make_entry
  next_entry_linked es raw protocol d = refl

  next_entry_key :
      (es : List ChainEntry) (raw : List ℕ) (protocol : Text) (d u : Datetime)
      → text_eq (next_entry es raw protocol d).object_key (manifest_key_for u) ≡ false
  unfolding chain_entry make_entry
  next_entry_key es raw protocol d u = text_eq_ne _ _ (
      object_key_ne_manifest_key d u protocol (f.hashing.sha256_hex raw)
        (f.hashing.length-sha256_hex raw))

  recorded-Holds :
      (es : List ChainEntry) (raw : List ℕ) (d : Datetime) (e : ChainEntry) (s : State)
      → Linked f.hashing genesis_prev_hash (es ++ (e ∷ []))
      → s.manifest_lines ≡ map (to_jsonl f) es
      → Holds f d (es ++ (e ∷ [])) (recorded f raw d e s)
  recorded-Holds es raw d e s l lines = record {
    linked = l;
    stored = rw (text_eq_refl (manifest_key_for d), lines) (sym (manifest_of-append es e));
    current = λ _. (
      rw lines (sym (map-append (to_jsonl f) es (e ∷ []))),
      sym (tip-append genesis_prev_hash es e),
    );
  }

  pub capture_rolled :
      (raw : List ℕ) (protocol : Text) (d : Datetime) (e : ChainEntry) (s s' : State)
      → roll_chain_if_needed f d s ≡ (ok tt, s')
      → chain_entry f s'.chain_tip raw protocol d ≡ e
      → s'.faults ≡ []
      → capture f raw protocol d s ≡ (ok (pointer_to f e d, e), recorded f raw d e s')
  unfolding capture
  capture_rolled raw protocol d e s s' rolled made nf =
      bind_ok (roll_chain_if_needed f d) _ s s' tt rolled
      ∙ ap (λ x. record_entry f raw protocol d x s') made
      ∙ record_entry_lem f raw protocol d e s' nf

  -- While MinIO answers, a capture on a day whose chain is `es` returns the next entry of that
  -- chain and its pointer, stores the message under the pointer's key, and leaves a bucket and a
  -- writer that hold the longer chain; every other object but the manifest stays.
  pub capture_extends :
      (raw : List ℕ) (protocol : Text) (d : Datetime) (es : List ChainEntry) (s : State)
      → s.faults ≡ []
      → Holds f d es s
      → let e = next_entry es raw protocol d in
        (s' : State) × (capture f raw protocol d s ≡ (ok (pointer_to f e d, e), s'))
        × Holds f d (es ++ (e ∷ [])) s'
        × (s'.objects e.object_key ≡ some raw)
        × ((k : Text) → k ≢ e.object_key → k ≢ manifest_key_for d → s'.objects k ≡ s.objects k)
        × (s'.faults ≡ [])
        × (is_day s'.chain_day (day_key_for d) ≡ true)
  unfolding capture
  capture_extends raw protocol d es s nf h =
      let (s', rolled, same, lines, hash, objs, nf') = roll_lem f d es s nf h in
      let e = next_entry es raw protocol d in
      (
        recorded f raw d e s',
        capture_rolled raw protocol d e s s' rolled (ap (λ t. chain_entry f t raw protocol d) hash)
            nf',
        recorded-Holds es raw d e s'
            (Linked-append f.hashing genesis_prev_hash es e h.linked
              (next_entry_linked es raw protocol d) (next_entry-IsSealed es raw protocol d))
            lines,
        rw (next_entry_key es raw protocol d d, text_eq_refl e.object_key) refl,
        (λ k nk nm.
            rw (text_eq_ne k (manifest_key_for d) nm, text_eq_ne k e.object_key nk)
              (ap (λ o. o k) objs)),
        nf',
        same,
      )

  is_day_same : (o : Option Text) (a b : Text) → is_day o a ≡ true → is_day o b ≡ true → a ≡ b
  is_day_same none a b p q = cc
  is_day_same (some k) a b p q = (text_eq_iff a k).0 p ∙ sym ((text_eq_iff b k).0 q)

  -- While MinIO answers, and if the capture's own day and the other day have chains that are stored,
  -- linked and, for the day of the writer, the one in memory: the other day, whose manifest is not the
  -- capture's own, keeps its chain.
  pub capture_other_day :
      (raw : List ℕ) (protocol : Text) (d u : Datetime) (es fs : List ChainEntry) (s : State)
      → s.faults ≡ []
      → Holds f d es s
      → Holds f u fs s
      → manifest_key_for u ≢ manifest_key_for d
      → Holds f u fs (capture f raw protocol d s).1
  capture_other_day raw protocol d u es fs s nf h hu ne =
      let (s', run, _, _, others, _, today) = capture_extends raw protocol d es s nf h in
      let e = next_entry es raw protocol d in
      let no_clash : manifest_key_for u ≢ e.object_key =
        λ p. cc (next_entry_key es raw protocol d u, text_eq_refl e.object_key, p) in
      rw run (record {
        linked = hu.linked;
        stored = others (manifest_key_for u) no_clash ne ∙ hu.stored;
        current = λ p. absurd (ne (manifest_key_of_day u d (is_day_same s'.chain_day _ _ p today)));
      })

  -- While MinIO answers, and if the chain of the day is stored, linked and, for the day of the writer,
  -- the one in memory: a process that starts anew on the same bucket goes on with the same chain. The
  -- capture returns the same entry and pointer and leaves the same objects.
  pub capture_restart :
      (raw : List ℕ) (protocol : Text) (d : Datetime) (es : List ChainEntry) (s : State)
      → s.faults ≡ []
      → Holds f d es s
      → ((capture f raw protocol d (new_writer s.objects [])).0 ≡ (capture f raw protocol d s).0)
        × ((capture f raw protocol d (new_writer s.objects [])).1.objects
            ≡ (capture f raw protocol d s).1.objects)
  capture_restart raw protocol d es s nf h =
      let fresh : Holds f d es (new_writer s.objects []) = record {
        linked = h.linked;
        stored = h.stored;
        current = λ p. cc;
      } in
      let (s1, r1, _, l1, t1, o1, n1) = roll_lem f d es s nf h in
      let (s2, r2, _, l2, t2, o2, n2) = roll_lem f d es (new_writer s.objects []) refl fresh in
      let e = next_entry es raw protocol d in
      rw
        (
          capture_rolled raw protocol d e s s1 r1 (ap (λ t. chain_entry f t raw protocol d) t1) n1,
          capture_rolled raw protocol d e (new_writer s.objects []) s2 r2
              (ap (λ t. chain_entry f t raw protocol d) t2) n2,
        )
        (refl, rw (l1, l2, o1, o2) refl)
