-- ===== src/XmlStream/Exact.antt =====
-- An event is returned byte for byte.
use tactical_gateway.Base.{
  and_true, ==_iff, ◌==◌, ℕ, ◌≡◌, refl, ap, ◌∙◌, inl, inr, Bool, true, false, Option, none, some,
  List, [], ◌∷◌, ◌++◌, codes, text_eq, drop, length, concat, starts_with, arith, Bool-cases, All,
  append_assoc, if◌then◌else◌,
}
use tactical_gateway.XmlStream.{
  close_tag, XmlRead, event, no_more, broken, read_raised, RootTag, root_named, parse_error,
  parser_raised, put_first, split_event, is_gap, skip_gaps, all_blank, checked, at_eof, found,
  read_one_xml_event,
}

-- The bytes of an event and what is left make up the stream `s`, but for white space between them.
abbrev pub Exact : List ℕ → XmlRead → Type 0
Exact s (event payload buf chunks) =
    (gap : List ℕ) × (All (λ c. is_gap c ≡ true) gap)
    × (s ≡ payload ++ (gap ++ (buf ++ concat chunks)))
Exact s no_more = Unit {0}
Exact s broken = Unit {0}
Exact s read_raised = Unit {0}

starts_with-drop : (p s : List ℕ) → starts_with s p ≡ true → s ≡ p ++ drop (length p) s
unfolding starts_with
starts_with-drop [] s h = refl
starts_with-drop (x ∷ p) [] h = absurd (ground (arith, h))
starts_with-drop (x ∷ p) (y ∷ s) h =
    let (here, rest) = and_true (y == x) (starts_with s p) h in
    let same : y ≡ x = (==_iff y x).0 here in rw same (ap (λ t. x ∷ t) (starts_with-drop p s rest))

-- The event and the rest are the buffer.
abbrev Splits : List ℕ → Option (List ℕ × List ℕ) → Type 0
Splits s none = Unit {0}
Splits s (some (t, r)) = s ≡ t ++ r

Splits-put_first :
    (c : ℕ) (s : List ℕ) (o : Option (List ℕ × List ℕ))
    → Splits s o
    → Splits (c ∷ s) (put_first c o)
Splits-put_first c s none h = tt
Splits-put_first c s (some (t, r)) h = ap (λ x. c ∷ x) h

split_event-Splits : (s : List ℕ) → Splits s (split_event s)
unfolding split_event
split_event-Splits [] = tt
split_event-Splits (c ∷ s) = elim (Bool-cases (starts_with (c ∷ s) close_tag)) [
  | inl yes_ ↦ rw yes_ (starts_with-drop close_tag (c ∷ s) yes_)
  | inr no_ ↦ rw no_ (Splits-put_first c s (split_event s) (split_event-Splits s))
]

skip_gaps_lem :
    (s : List ℕ) → (gap : List ℕ) × (All (λ c. is_gap c ≡ true) gap) × (s ≡ gap ++ skip_gaps s)
unfolding skip_gaps
skip_gaps_lem [] = ([], tt, refl)
skip_gaps_lem (c ∷ s) = elim (Bool-cases (is_gap c)) [
  | inl yes_ ↦
      let (gap, all, same) = skip_gaps_lem s in rw yes_ (c ∷ gap, (yes_, all), ap (λ x. c ∷ x) same)
  | inr no_ ↦ rw no_ ([], tt, refl)
]

module _ (root_tag : List ℕ → RootTag) where
  found-Exact :
      (s buf : List ℕ) (chunks : List (List ℕ)) (o : Option (List ℕ × List ℕ)) (more : XmlRead)
      → Splits buf o
      → s ≡ buf ++ concat chunks
      → Exact s more
      → Exact s (found root_tag o chunks more)
  unfolding found checked
  found-Exact s buf chunks none more h e m = m
  found-Exact s buf chunks (some (t, r)) more h e m = tagged (root_tag t)
    where
      tagged : (tag : RootTag) → Exact s (checked root_tag t r chunks tag)
      tagged parse_error = tt
      tagged parser_raised = tt
      tagged (root_named tag) = elim (Bool-cases (text_eq tag (codes "event"))) [
        | inl yes_ ↦
            let (gap, all, same) = skip_gaps_lem r in
            rw yes_ (
              gap,
              all,
              e
                  ∙ (ap (λ x. x ++ concat chunks) h
                      ∙ (append_assoc t r (concat chunks)
                          ∙ ap (λ x. t ++ x)
                              (ap (λ x. x ++ concat chunks) same
                                ∙ append_assoc gap (skip_gaps r) (concat chunks)))),
            )
        | inr no_ ↦ rw no_ tt
      ]

  at_eof-Exact : (s buf : List ℕ) → Exact s (at_eof root_tag buf)
  at_eof-Exact s buf = ended (all_blank buf)
    where
      ended : (b : Bool) → Exact s (if◌then◌else◌ {A = XmlRead} b no_more broken)
      ended true = tt
      ended false = tt

  -- An event that is returned, the white space behind it, the buffer that is kept and the chunks that
  -- are still to come are together the bytes of the stream, in their order and without a change.
  pub read_one_xml_event-Exact :
      (buf : List ℕ) (chunks : List (List ℕ))
      → Exact (buf ++ concat chunks) (read_one_xml_event root_tag buf chunks)
  unfolding read_one_xml_event
  read_one_xml_event-Exact buf [] =
      found-Exact _ buf [] (split_event buf) _ (split_event-Splits buf) refl (at_eof-Exact _ buf)
  read_one_xml_event-Exact buf ([] ∷ chunks) =
      found-Exact _ buf ([] ∷ chunks) (split_event buf) _ (split_event-Splits buf) refl
        (at_eof-Exact _ buf)
  read_one_xml_event-Exact buf ((c ∷ chunk) ∷ chunks) =
      found-Exact _ buf ((c ∷ chunk) ∷ chunks) (split_event buf) _ (split_event-Splits buf) refl (
        rw⁻¹ (append_assoc buf (c ∷ chunk) (concat chunks))
          (read_one_xml_event-Exact (buf ++ (c ∷ chunk)) chunks))
