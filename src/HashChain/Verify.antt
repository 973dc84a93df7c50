-- ===== src/HashChain/Verify.antt =====
-- What `verify_chain` decides: the relation `Linked`, and the first entry that breaks it.
use tactical_gateway.Base.{
  ℕ, ap, text_ne, false, ◌+◌, ◌≡◌, refl, ◌≢◌, ◌↔◌, inl, inr, true, false, none, some, List, [], ◌∷◌,
  ◌++◌, Text, text_eq, text_eq_iff, length, take, arith, Bool-cases,
}
use mathlib.Core.Path.{subst}
use native.Mathlib.Nat.{add-zero}
use tactical_gateway.HashChain.{
  Hashing, ChainEntry, ChainError, prev_hash_mismatch, entry_hash_mismatch, genesis_prev_hash,
  compute_entry_hash, verify_from, verify_chain,
}

module _ (h : Hashing) where
  -- The entry's own hash is right.
  abbrev pub IsSealed : ChainEntry → Type 0
  IsSealed e = e.entry_hash ≡ compute_entry_hash h e.prev_hash e.sha256 e.captured_at

  -- Each entry is sealed and links to the one before it, the first to `prev`.
  abbrev pub Linked : Text → List ChainEntry → Type 0
  Linked prev [] = Unit
  Linked prev (e ∷ es) = (e.prev_hash ≡ prev) × IsSealed e × Linked e.entry_hash es

  -- The hash that the next entry has to link to.
  abbrev pub tip : Text → List ChainEntry → Text
  tip prev [] = prev
  tip prev (e ∷ es) = tip e.entry_hash es

  verify_from_sound :
      (i : ℕ) (prev : Text) (es : List ChainEntry)
      → verify_from h i prev es ≡ (true, none)
      → Linked prev es
  unfolding verify_from
  verify_from_sound i prev [] ok = tt
  verify_from_sound i prev (e ∷ es) ok = ground (
    arith,
    text_eq_iff e.prev_hash prev,
    text_eq_iff e.entry_hash (compute_entry_hash h e.prev_hash e.sha256 e.captured_at),
    verify_from_sound (i + 1) e.entry_hash es,
  )

  verify_from_complete :
      (i : ℕ) (prev : Text) (es : List ChainEntry)
      → Linked prev es
      → verify_from h i prev es ≡ (true, none)
  unfolding verify_from
  verify_from_complete i prev [] ok = refl
  verify_from_complete i prev (e ∷ es) ok = ground (
    arith,
    text_eq_iff e.prev_hash prev,
    text_eq_iff e.entry_hash (compute_entry_hash h e.prev_hash e.sha256 e.captured_at),
    verify_from_complete (i + 1) e.entry_hash es,
  )

  -- `verify_chain` accepts exactly the lists whose entries are sealed and linked from the genesis
  -- hash on.
  pub verify_chain_iff :
      (es : List ChainEntry) → (verify_chain h es ≡ (true, none)) ↔ Linked genesis_prev_hash es
  unfolding verify_chain
  verify_chain_iff es =
      (verify_from_sound 0 genesis_prev_hash es, verify_from_complete 0 genesis_prev_hash es)

  pub Linked-append :
      (prev : Text) (es : List ChainEntry) (e : ChainEntry)
      → Linked prev es
      → e.prev_hash ≡ tip prev es
      → IsSealed e
      → Linked prev (es ++ (e ∷ []))
  Linked-append prev [] e l p s = (p, s, tt)
  Linked-append prev (x ∷ es) e l p s = (l.0, l.1, Linked-append x.entry_hash es e l.2 p s)

  -- What is wrong with entry number `i`, whose predecessor's hash is `prev`.
  abbrev pub Blames : ℕ → Text → ChainEntry → ChainError → Type 0
  Blames i prev e (prev_hash_mismatch j want got) =
      (j ≡ i) × (e.prev_hash ≢ prev) × (want ≡ take 16 prev) × (got ≡ take 16 e.prev_hash)
  Blames i prev e (entry_hash_mismatch j) = (j ≡ i) × (e.prev_hash ≡ prev) × ¬ IsSealed e

  -- The entries before number `i` are good, and it is not.
  abbrev pub FirstBad : ℕ → Text → List ChainEntry → ChainError → Type 0
  FirstBad i prev es x =
      (good rest : List ChainEntry) × (e : ChainEntry) × (es ≡ good ++ (e ∷ rest))
      × Linked prev good
      × Blames (i + length good) (tip prev good) e x

  abbrev hash_of : ChainEntry → Text
  hash_of e = compute_entry_hash h e.prev_hash e.sha256 e.captured_at

  -- The three ways through a round of the loop.
  Blames-link :
      (i : ℕ) (prev : Text) (e : ChainEntry) (x : ChainError)
      → text_eq e.prev_hash prev ≡ false
      → x ≡ prev_hash_mismatch i (take 16 prev) (take 16 e.prev_hash)
      → Blames i prev e x
  Blames-link i prev e (prev_hash_mismatch j w g) ne q =
      (ground arith, text_ne _ _ ne, ground arith, ground arith)
  Blames-link i prev e (entry_hash_mismatch j) ne q = cc

  Blames-seal :
      (i : ℕ) (prev : Text) (e : ChainEntry) (x : ChainError)
      → text_eq e.prev_hash prev ≡ true
      → text_eq e.entry_hash (hash_of e) ≡ false
      → x ≡ entry_hash_mismatch i
      → Blames i prev e x
  Blames-seal i prev e (prev_hash_mismatch j w g) eq ne q = cc
  Blames-seal i prev e (entry_hash_mismatch j) eq ne q =
      (ground arith, (text_eq_iff _ _).0 eq, text_ne _ _ ne)

  verify_from_fails :
      (i : ℕ) (prev : Text) (es : List ChainEntry) (x : ChainError)
      → verify_from h i prev es ≡ (false, some x)
      → FirstBad i prev es x
  unfolding verify_from
  verify_from_fails i prev [] x bad = cc
  verify_from_fails i prev (e ∷ es) x bad = elim (Bool-cases (text_eq e.prev_hash prev)) [
    | inr unlinked ↦
        ([], es, e, refl, tt, rw add-zero (Blames-link i prev e x unlinked (ground arith)))
    | inl linked ↦ elim (Bool-cases (text_eq e.entry_hash (hash_of e))) [
      | inr unsealed ↦
          ([], es, e, refl, tt, rw add-zero (Blames-seal i prev e x linked unsealed (ground arith)))
      | inl sealed ↦
          let (good, rest, b, split, ok, blamed) =
            verify_from_fails (i + 1) e.entry_hash es x (ground arith) in
          (
            e ∷ good,
            rest,
            b,
            ap (λ t. e ∷ t) split,
            ((text_eq_iff _ _).0 linked, (text_eq_iff _ _).0 sealed, ok),
            subst (λ n. Blames n (tip e.entry_hash good) b x) (omega arith) blamed,
          )
    ]
  ]

  -- A failed verification names the first bad entry and what is wrong with it: the entries before
  -- it are sealed and linked, and it does not link to their last hash, or does but is not sealed.
  pub verify_chain_blames :
      (es : List ChainEntry) (x : ChainError)
      → verify_chain h es ≡ (false, some x)
      → FirstBad 0 genesis_prev_hash es x
  unfolding verify_chain
  verify_chain_blames es x bad = verify_from_fails 0 genesis_prev_hash es x bad
