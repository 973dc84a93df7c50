-- ===== src/HashChain/Tamper.antt =====
-- What the hash chain protects: the digest, the link and the time of every entry, down from the tip.
use tactical_gateway.Base.{
  ℕ, ◌≡◌, refl, sym, ap, ◌∙◌, ◌≢◌, ◌⊎◌, inl, inr, true, none, List, [], ◌∷◌, ◌++◌, Text, text_eq,
  text_eq_iff, text_ne, length, arith, Bool-cases, All, append_injective, cons_injective,
}
use tactical_gateway.HashChain.{
  Datetime, Hashing, ChainEntry, newline, genesis_prev_hash, chain_payload, compute_entry_hash,
  verify_chain,
}
use tactical_gateway.HashChain.Verify.{IsSealed, Linked, tip, verify_chain_iff}

abbrev IsLine : Text → Type 0
IsLine = All (λ c. c ≢ newline)

not_line : (t v : Text) → IsLine (t ++ (newline ∷ v)) → ⊥
not_line [] v l = l.0 refl
not_line (c ∷ t) v l = not_line t v l.1

-- A text splits in one way at its last newline.
last_line :
    (s t u v : Text)
    → IsLine u
    → IsLine v
    → s ++ (newline ∷ u) ≡ t ++ (newline ∷ v)
    → (s ≡ t) × (u ≡ v)
last_line [] [] u v lu lv e = (refl, (cons_injective e).1)
last_line [] (c ∷ t) u v lu lv e =
    let (_, r) = cons_injective e in absurd (not_line t v (rw r at lu))
last_line (c ∷ s) [] u v lu lv e =
    let (_, r) = cons_injective e in absurd (not_line s u (rw (← r) at lv))
last_line (c ∷ s) (d ∷ t) u v lu lv e =
    let (x, r) = cons_injective e in let (a, b) = last_line s t u v lu lv r in (cc, b)

module _ (h : Hashing) where
  open h use {sha256_hex, utf8, isoformat, length-sha256_hex, utf8_injective, isoformat_line}

  -- Two different byte strings with one digest.
  abbrev pub Collision : Type 0
  Collision = (a b : List ℕ) × (a ≢ b) × (sha256_hex a ≡ sha256_hex b)

  -- The two entries agree in all that the entry hash covers, and in the hash.
  abbrev pub SameCovered : ChainEntry → ChainEntry → Type 0
  SameCovered e f =
      (e.sha256 ≡ f.sha256)
      × (e.prev_hash ≡ f.prev_hash)
      × (e.entry_hash ≡ f.entry_hash)
      × (isoformat e.captured_at ≡ isoformat f.captured_at)

  abbrev pub AllSame : List ChainEntry → List ChainEntry → Type 0
  AllSame [] [] = Unit
  AllSame (e ∷ es) (f ∷ fs) = SameCovered e f × AllSame es fs
  AllSame [] (f ∷ fs) = ⊥
  AllSame (e ∷ es) [] = ⊥

  payload_injective :
      (p q s t : Text) (c d : Datetime)
      → length p ≡ length q
      → chain_payload h p s c ≡ chain_payload h q t d
      → (p ≡ q) × (s ≡ t) × (isoformat c ≡ isoformat d)
  unfolding chain_payload
  payload_injective p q s t c d n e =
      let (pq, r) = append_injective p q _ _ n e in
      let (_, r') = cons_injective r in
      let (st, cd) =
        last_line s t (isoformat c) (isoformat d) (isoformat_line c) (isoformat_line d) r' in
      (pq, st, cd)

  -- Equal entry hashes come from equal inputs, or from a collision.
  same_hash :
      (p q s t : Text) (c d : Datetime)
      → length p ≡ length q
      → compute_entry_hash h p s c ≡ compute_entry_hash h q t d
      → Collision ⊎ ((p ≡ q) × (s ≡ t) × (isoformat c ≡ isoformat d))
  unfolding compute_entry_hash
  same_hash p q s t c d n e =
      elim (Bool-cases (text_eq (chain_payload h p s c) (chain_payload h q t d))) [
        | inl same ↦ inr (payload_injective p q s t c d n ((text_eq_iff _ _).0 same))
        | inr differ ↦ inl (
          utf8 (chain_payload h p s c),
          utf8 (chain_payload h q t d),
          (λ b. text_ne _ _ differ (utf8_injective _ _ b)),
          e,
        )
      ]

  same_chain :
      (p q : Text) (es fs : List ChainEntry)
      → length p ≡ 64
      → length q ≡ 64
      → Linked h p es
      → Linked h q fs
      → length es ≡ length fs
      → tip h p es ≡ tip h q fs
      → Collision ⊎ (AllSame es fs × (p ≡ q))
  same_chain p q [] [] np nq le lf n t = inr (tt, t)
  same_chain p q [] (f ∷ fs) np nq le lf n t = absurd (omega arith)
  same_chain p q (e ∷ es) [] np nq le lf n t = absurd (omega arith)
  same_chain p q (e ∷ es) (f ∷ fs) np nq (ep, es_, el) (fp, fs_, fl) n t =
      elim (same_chain e.entry_hash f.entry_hash es fs (sealed_size e es_) (sealed_size f fs_) el fl
        (omega arith) t) [
          | inl found ↦ inl found
          | inr (rest, hashes) ↦
              elim (same_hash e.prev_hash f.prev_hash e.sha256 f.sha256 e.captured_at f.captured_at
                (ap length ep ∙ np ∙ sym nq ∙ ap length (sym fp)) (sym es_ ∙ hashes ∙ fs_)) [
                  | inl found ↦ inl found
                  | inr (pq, st, cd) ↦ inr (((st, pq, hashes, cd), rest), sym ep ∙ pq ∙ fp)
                ]
        ]
    where
      sealed_size : (x : ChainEntry) → IsSealed h x → length x.entry_hash ≡ 64
      sealed_size x s = unfold compute_entry_hash in ap length s ∙ length-sha256_hex _

  -- Two accepted chains of the same length that end in the same hash agree, entry by entry, in the
  -- digest, the link, the entry hash and the printed time, or they exhibit a collision of SHA-256.
  pub verify_chain_tamper :
      (es fs : List ChainEntry)
      → verify_chain h es ≡ (true, none)
      → verify_chain h fs ≡ (true, none)
      → length es ≡ length fs
      → tip h genesis_prev_hash es ≡ tip h genesis_prev_hash fs
      → Collision ⊎ AllSame es fs
  verify_chain_tamper es fs oe of n t =
      elim (same_chain genesis_prev_hash genesis_prev_hash es fs refl refl
        ((verify_chain_iff h es).0 oe) ((verify_chain_iff h fs).0 of) n t) [
          | inl found ↦ inl found
          | inr (same, _) ↦ inr same
        ]
