-- ===== src/Recognize/Laws.antt =====
-- What `recognize` promises: a result for every label, and a SIDC that says the same as the result.
use tactical_gateway.Base.{
  ℕ, ◌≡◌, ◌≢◌, refl, inl, inr, Bool, Option, none, some, List, [], ◌∷◌, ◌++◌, Text, codes, length,
  All, lower, has_substring, arith, Bool-cases,
}
use tactical_gateway.Recognize.{matches, matches_target, matches_route}
use tactical_gateway.Recognize.Table.{
  Status, clean, best_effort, PrefixEntry, WordEntry, prefix_table, word_table, GeometryShape,
  point, line_string, polygon, target_designator_sidc, route_sidc,
}
use tactical_gateway.Recognize.Affiliate.{
  Affiliation, friend, hostile, neutral, unknown, suspect, assumed_friend, pending, affil_char,
  with_char, affil_table, affil_from_sidc, chosen_affiliation, apply_affiliation,
}
use tactical_gateway.Recognize.Letters.{
  Letter, affil_char-Letter, Wanted, chosen_affiliation-Wanted,
}
use tactical_gateway.Recognize.Pipeline.{
  RecognitionResult, Choice, MatchedLayer, prefix_layer, target_layer, word_layer, route_layer,
  geometry_fallback_layer, no_label_layer, find_prefix, find_word, fallback_choice, route_choice,
  word_choice, target_choice, prefix_choice, choose, finish, recognize, working_label,
  suspected_note, or_empty, ◌>>=◌,
}

-- The characters tell the affiliations apart.
pub with_char-affil_char : (a : Affiliation) → with_char (affil_char a) affil_table ≡ some a
unfolding with_char
with_char-affil_char friend = refl
with_char-affil_char hostile = refl
with_char-affil_char neutral = refl
with_char-affil_char unknown = refl
with_char-affil_char suspect = refl
with_char-affil_char assumed_friend = refl
with_char-affil_char pending = refl

-- What a layer may choose: a clean status only in the first two layers, no kind only in the
-- fallback, and never the layer that no code names.
abbrev pub LayerFits : MatchedLayer → Status → Option Text → Type 0
LayerFits prefix_layer s k = k ≢ none
LayerFits target_layer s k = (s ≡ clean) × (k ≢ none)
LayerFits word_layer s k = (s ≡ best_effort) × (k ≢ none)
LayerFits route_layer s k = (s ≡ best_effort) × (k ≢ none)
LayerFits geometry_fallback_layer s k = (s ≡ best_effort) × (k ≡ none)
LayerFits no_label_layer s k = ⊥

abbrev IsGood : Choice → Type 0
IsGood c = (length c.template ≡ 15) × LayerFits c.layer c.how c.kind

abbrev Good : Option Choice → Type 0
Good none = ⊥
Good (some c) = IsGood c

abbrev AllRows {ℓ} : {A : Type ℓ} → (A → Type 0) → Option (List A) → Type 0
AllRows P none = ⊥
AllRows P (some l) = All P l

prefix_rows : AllRows (λ e. length e.sidc_template ≡ 15) prefix_table
unfolding prefix_table
prefix_rows = omega arith

word_rows : AllRows (λ w. (length w.sidc_template ≡ 15) × (w.status ≡ best_effort)) word_table
unfolding word_table
word_rows = ground arith

some-ne-none {ℓ} : {A : Type ℓ} (a : A) → ◌≢◌ {A = Option A} (some a) none
some-ne-none a e = cc

fallback-Good : (s : GeometryShape) (why : List Text) → Good (fallback_choice s why)
unfolding fallback_choice
fallback-Good point why = (refl, (refl, refl))
fallback-Good line_string why = (refl, (refl, refl))
fallback-Good polygon why = (refl, (refl, refl))

route-Good : (s : GeometryShape) (label : Text) → Good (route_choice s label)
unfolding route_choice route_sidc
route-Good s label = elim (Bool-cases (matches_route label)) [
  | inl yes_ ↦ rw yes_ (refl, (refl, some-ne-none _))
  | inr no_ ↦ rw no_ (fallback-Good s _)
]

find_word-Good :
    (s : GeometryShape) (label low : Text) (ws : List WordEntry)
    → All (λ w. (length w.sidc_template ≡ 15) × (w.status ≡ best_effort)) ws
    → Good (word_choice s label (find_word ws low))
unfolding find_word word_choice
find_word-Good s label low [] h = route-Good s label
find_word-Good s label low (w ∷ ws) h = elim (Bool-cases (has_substring low w.word_of)) [
  | inl yes_ ↦ rw yes_ (h.0.0, (h.0.1, some-ne-none _))
  | inr no_ ↦ rw no_ (find_word-Good s label low ws h.1)
]

words-Good :
    (s : GeometryShape) (label : Text) (t : Option (List WordEntry))
    → AllRows (λ w. (length w.sidc_template ≡ 15) × (w.status ≡ best_effort)) t
    → Good (do table ← t; word_choice s label (find_word table (lower label)))
words-Good s label none h = elim h [ ]
words-Good s label (some ws) h = find_word-Good s label (lower label) ws h

target-Good : (s : GeometryShape) (label : Text) → Good (target_choice s label)
unfolding target_choice target_designator_sidc
target-Good s label = elim (Bool-cases (matches_target label)) [
  | inl yes_ ↦ rw yes_ (refl, (refl, some-ne-none _))
  | inr no_ ↦ rw no_ (words-Good s label word_table word_rows)
]

find_prefix-Good :
    (s : GeometryShape) (label : Text) (es : List PrefixEntry)
    → All (λ e. length e.sidc_template ≡ 15) es
    → Good (prefix_choice s label (find_prefix es label))
unfolding find_prefix prefix_choice
find_prefix-Good s label [] h = target-Good s label
find_prefix-Good s label (e ∷ es) h = elim (Bool-cases (matches e.pattern_of label)) [
  | inl yes_ ↦ rw yes_ (h.0, some-ne-none _)
  | inr no_ ↦ rw no_ (find_prefix-Good s label es h.1)
]

prefixes-Good :
    (s : GeometryShape) (label : Text) (t : Option (List PrefixEntry))
    → AllRows (λ e. length e.sidc_template ≡ 15) t
    → Good (do table ← t; prefix_choice s label (find_prefix table label))
prefixes-Good s label none h = elim h [ ]
prefixes-Good s label (some es) h = find_prefix-Good s label es h

pub choose-Good : (s : GeometryShape) (label : Text) → Good (choose s label)
unfolding choose
choose-Good s [] = fallback-Good s _
choose-Good s (c ∷ label) = prefixes-Good s (c ∷ label) prefix_table prefix_rows

-- What a result says of itself, of the affiliation that was asked for, and of its layer.
abbrev pub ResultFits : Option Text → Text → Bool → RecognitionResult → Type 0
ResultFits env description suspected r =
    (length r.sidc ≡ 15)
    × ((c : ℕ) × (first : ℕ) × (rest : Text) × (r.sidc ≡ first ∷ c ∷ rest) × Letter c r.affiliation)
    × Wanted env description suspected r.affiliation r.affiliation_source
    × (r.suspected_modifier ≡ suspected)
    × LayerFits r.matched_layer r.status r.doctrinal_kind

abbrev choice_of : Text → Option Text → Status → MatchedLayer → List Text → Choice
choice_of t k s l why = record { template = t; kind = k; how = s; layer = l; why = why }

finish_pieces :
    (env : Option Text) (description : Text) (suspected : Bool) (t : Text) (k : Option Text)
    (s : Status) (l : MatchedLayer) (why : List Text)
    → length t ≡ 15
    → LayerFits l s k
    → (r : RecognitionResult) × (finish env description suspected (choice_of t k s l why) ≡ some r)
      × ResultFits env description suspected r
unfolding finish apply_affiliation affil_from_sidc
finish_pieces env description suspected [] k s l why long fits =
    let no_ : ⊥ = omega arith in elim no_ [ ]
finish_pieces env description suspected (a ∷ []) k s l why long fits =
    let no_ : ⊥ = omega arith in elim no_ [ ]
finish_pieces env description suspected (a ∷ b ∷ t) k s l why long fits =
    let wanted = chosen_affiliation env description suspected in
    let same = with_char-affil_char wanted.0 in
    (
      record {
        sidc = a ∷ affil_char wanted.0 ∷ t;
        affiliation = wanted.0;
        affiliation_source = wanted.1;
        doctrinal_kind = k;
        status = s;
        matched_layer = l;
        suspected_modifier = suspected;
        reasons = why ++ suspected_note suspected;
      },
      rw (long, same) refl,
      (
        long,
        (affil_char wanted.0, a, t, refl, affil_char-Letter wanted.0),
        chosen_affiliation-Wanted env description suspected,
        refl,
        fits,
      ),
    )

pub recognize_total :
    (env label description : Option Text) (shape : GeometryShape)
    → (r : RecognitionResult) × (recognize env label description shape ≡ some r)
      × ResultFits env (or_empty description) (working_label label).1 r
unfolding recognize
recognize_total env label description shape =
    chosen (choose shape (working_label label).0) (choose-Good shape (working_label label).0)
  where
    chosen :
        (c : Option Choice)
        → Good c
        → (r : RecognitionResult) × ((c
              >>= finish env (or_empty description) (working_label label).1)
            ≡ some r)
          × ResultFits env (or_empty description) (working_label label).1 r
    chosen none h = elim h [ ]
    chosen (some c) h =
        finish_pieces env (or_empty description) (working_label label).1 c.template c.kind c.how
          c.layer c.why h.0 h.1

abbrev boundary_template : Text
boundary_template = codes "GUGPGLB--------"

-- Every label that starts with BNDRY is taken for a boundary, whatever follows without a gap.
pub choose_bndry :
    (shape : GeometryShape) (rest : Text)
    → choose shape (codes "BNDRY" ++ rest)
      ≡ some (record {
        template = boundary_template;
        kind = some (codes "boundary");
        how = best_effort;
        layer = prefix_layer;
        why = codes "boundary echelon not derivable from label" ∷ [];
      })
unfolding choose prefix_table find_prefix prefix_choice matches
choose_bndry shape rest = refl
