-- ===== src/Recognize/Pipeline.antt =====
-- `recognize` of services/gateway/kmz_recognize.py: the layers in their order. `none` is a raise.
use tactical_gateway.Base.{
  Bool, true, false, Option, none, some, List, [], ◌∷◌, ◌++◌, Text, codes, lower, strip,
  has_substring, if◌then◌else◌,
}
use tactical_gateway.Recognize.{matches, matches_route, matches_target, suspected_rest}
use tactical_gateway.Recognize.Table.{
  Status, clean, best_effort, PrefixEntry, WordEntry, prefix_table, word_table, GeometryShape,
  geometry_fallback_sidc, target_designator_sidc, route_sidc,
}
use tactical_gateway.Recognize.Affiliate.{
  Affiliation, AffiliationSource, apply_affiliation, affil_from_sidc,
}

pub data MatchedLayer : Type 0 where
  prefix_layer target_layer word_layer route_layer geometry_fallback_layer no_label_layer :
      MatchedLayer

pub record RecognitionResult : Type 0 where
  pub sidc : Text
  pub affiliation : Affiliation
  pub affiliation_source : AffiliationSource
  pub doctrinal_kind : Option Text
  pub status : Status
  pub matched_layer : MatchedLayer
  pub suspected_modifier : Bool
  pub reasons : List Text

infixl 5 ◌>>=◌
abbrev pub ◌>>=◌ {ℓ κ} : {A : Type ℓ} {B : Type κ} → Option A → (A → Option B) → Option B
none >>= k = none
some a >>= k = k a

-- The label without white space around it and without its "Suspected " prefix.
abbrev pub or_label : Text → Option Text → Text × Bool
or_label label none = (label, false)
or_label label (some rest) = (strip rest, true)

unfoldable pub working_label : Option Text → Text × Bool
unfolding strip suspected_rest
working_label none = or_label [] (suspected_rest [])
working_label (some label) = or_label (strip label) (suspected_rest (strip label))

abbrev pub suspected_note : Bool → List Text
suspected_note true = codes "'Suspected ' prefix detected; identity set accordingly" ∷ []
suspected_note false = []

abbrev pub note : Text → List Text
note [] = []
note (c ∷ t) = (c ∷ t) ∷ []

unfoldable pub find_prefix : List PrefixEntry → Text → Option PrefixEntry
unfolding matches
find_prefix [] label = none
find_prefix (e ∷ r) label = if matches e.pattern_of label then some e else find_prefix r label

unfoldable pub find_word : List WordEntry → Text → Option WordEntry
unfolding has_substring
find_word [] label = none
find_word (w ∷ r) label = if has_substring label w.word_of then some w else find_word r label

-- What one layer hands on: the template and the fields that it decides.
pub record Choice : Type 0 where
  pub template : Text
  pub kind : Option Text
  pub how : Status
  pub layer : MatchedLayer
  pub why : List Text

unfoldable pub fallback_choice : GeometryShape → List Text → Option Choice
unfolding geometry_fallback_sidc
fallback_choice shape reasons = do
  t ← geometry_fallback_sidc shape
  some (record {
    template = t;
    kind = none;
    how = best_effort;
    layer = geometry_fallback_layer;
    why = reasons;
  })

unfoldable pub route_choice : GeometryShape → Text → Option Choice
route_choice shape label =
    if matches_route label
    then (do
      t ← route_sidc
      some (record {
        template = t;
        kind = some (codes "route");
        how = best_effort;
        layer = route_layer;
        why = codes "route label preserved verbatim; no further normalization" ∷ [];
      }))
    else fallback_choice shape (
        codes "no doctrinal/target/word/route pattern matched; generic geometry SIDC assigned" ∷ [])

unfoldable pub word_choice : GeometryShape → Text → Option WordEntry → Option Choice
word_choice shape label none = route_choice shape label
word_choice shape label (some w) = some (record {
  template = w.sidc_template;
  kind = some w.doctrinal_kind;
  how = w.status;
  layer = word_layer;
  why = w.notes ∷ [];
})

unfoldable pub target_choice : GeometryShape → Text → Option Choice
target_choice shape label =
    if matches_target label
    then (do
      t ← target_designator_sidc
      some (record {
        template = t;
        kind = some (codes "target_reference_point");
        how = clean;
        layer = target_layer;
        why = [];
      }))
    else (do table ← word_table; word_choice shape label (find_word table (lower label)))

unfoldable pub prefix_choice : GeometryShape → Text → Option PrefixEntry → Option Choice
prefix_choice shape label none = target_choice shape label
prefix_choice shape label (some e) = some (record {
  template = e.sidc_template;
  kind = some e.doctrinal_kind;
  how = e.status;
  layer = prefix_layer;
  why = note e.notes;
})

unfoldable pub choose : GeometryShape → Text → Option Choice
choose shape [] = fallback_choice shape (codes "label was empty or whitespace only" ∷ [])
choose shape (c ∷ label) = do
  table ← prefix_table
  prefix_choice shape (c ∷ label) (find_prefix table (c ∷ label))

-- The result that each layer builds from its choice.
unfoldable pub finish : Option Text → Text → Bool → Choice → Option RecognitionResult
unfolding apply_affiliation affil_from_sidc
finish env description suspected c = do
  (new_sidc, source) ← apply_affiliation env c.template description suspected
  affil ← affil_from_sidc new_sidc
  some (record {
    sidc = new_sidc;
    affiliation = affil;
    affiliation_source = source;
    doctrinal_kind = c.kind;
    status = c.how;
    matched_layer = c.layer;
    suspected_modifier = suspected;
    reasons = c.why ++ suspected_note suspected;
  })

abbrev pub or_empty : Option Text → Text
or_empty none = []
or_empty (some t) = t

unfoldable pub recognize :
    Option Text → Option Text → Option Text → GeometryShape → Option RecognitionResult
recognize env label description shape =
    let (text, suspected) = working_label label in
    choose shape text >>= finish env (or_empty description) suspected
