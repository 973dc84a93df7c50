-- ===== src/Capture/Lines.antt =====
-- The manifest's lines: what is printed is read back.
use tactical_gateway.Base.{
  ℕ, ◌≡◌, refl, ap, ◌∙◌, false, some, List, [], ◌∷◌, ◌++◌, Text, text_eq, last_or, map, All, arith,
  ◌==◌,
}
use tactical_gateway.HashChain.{ChainEntry, newline}
use tactical_gateway.HashChain.Verify.{tip}
use tactical_gateway.Capture.{
  ManifestFormat, is_line_end, splitlines, line_step, join_lines, entry_object, to_jsonl,
  from_object, from_jsonl,
}

abbrev pub IsLine : Text → Type 0
IsLine = All (λ c. is_line_end c ≡ false)

splitlines_line : (l t : Text) → IsLine l → splitlines (l ++ (newline ∷ t)) ≡ l ∷ splitlines t
unfolding splitlines line_step
splitlines_line [] t h = refl
splitlines_line (c ∷ l) t h = rw (splitlines_line l t h.1, h.0, not_return c h.0) refl
  where
    not_return : (c : ℕ) → is_line_end c ≡ false → (c == 13) ≡ false
    not_return c e = ground arith

-- `splitlines` undoes the joining of lines that hold no line end.
pub splitlines-join_lines :
    (l : Text) (ls : List Text) → All IsLine (l ∷ ls) → splitlines (join_lines (l ∷ ls)) ≡ l ∷ ls
unfolding join_lines splitlines
splitlines-join_lines l [] h = splitlines_line l [] h.0
splitlines-join_lines l (k ∷ ls) h =
    splitlines_line l (join_lines (k ∷ ls)) h.0 ∙ ap (λ t. l ∷ t) (splitlines-join_lines k ls h.1)

module _ (f : ManifestFormat) where
  -- A manifest line gives back the entry that was printed on it.
  pub from_jsonl-to_jsonl : (e : ChainEntry) → from_jsonl f (to_jsonl f e) ≡ some e
  unfolding to_jsonl from_jsonl text_eq
  from_jsonl-to_jsonl e = rw (f.loads-dumps (entry_object f e)) (read e)
    where
      read : (e : ChainEntry) → from_object f (entry_object f e) ≡ some e
      read e = rw (f.fromisoformat-isoformat e.captured_at) refl

  pub to_jsonl_lines : (es : List ChainEntry) → All IsLine (map (to_jsonl f) es)
  unfolding to_jsonl
  to_jsonl_lines [] = tt
  to_jsonl_lines (e ∷ es) = (f.dumps_line (entry_object f e), to_jsonl_lines es)

  pub last_or-map :
      (e : ChainEntry) (es : List ChainEntry)
      → last_or (to_jsonl f e) (map (to_jsonl f) es) ≡ to_jsonl f (last_or e es)
  last_or-map e [] = refl
  last_or-map e (x ∷ es) = last_or-map x es

  pub tip-last_or :
      (p : Text) (e : ChainEntry) (es : List ChainEntry)
      → tip f.hashing p (e ∷ es) ≡ (last_or e es).entry_hash
  tip-last_or p e [] = refl
  tip-last_or p e (x ∷ es) = tip-last_or e.entry_hash x es
