-- ===== src/Recognize/Samples.antt =====
-- Runs of the label recognizer of services/gateway/kmz_recognize.py.
use tactical_gateway.Base.{
  ◌≡◌, refl, true, false, Option, none, some, [], ◌∷◌, Text, codes, lower_char,
}
use tactical_gateway.Recognize.{matches, matches_target, hostile_desc, friendly_desc}
use tactical_gateway.Recognize.Table.{best_effort, prefix_table, line_string, polygon}
use tactical_gateway.Recognize.Affiliate.{friend, default_affiliation}
use tactical_gateway.Recognize.Pipeline.{
  RecognitionResult, recognize, working_label, choose, find_prefix, prefix_choice, finish,
  prefix_layer,
}
use tactical_gateway.Recognize.Laws.{choose_bndry}

target_label : matches_target (codes "AB123 x") ≡ true
unfolding matches_target
target_label = refl

long_target_label : matches_target (codes "AB12345") ≡ false
unfolding matches_target
long_target_label = refl

hostile_text : hostile_desc (codes "the Red  force") ≡ true
unfolding hostile_desc
hostile_text = refl

reinforce_is_not_own : friendly_desc (codes "unknown owner") ≡ false
unfolding friendly_desc
reinforce_is_not_own = refl

default_name : default_affiliation (some (codes " Friend ")) ≡ friend
unfolding default_affiliation lower_char
default_name = refl

abbrev sidc_of : Option RecognitionResult → Option Text
sidc_of none = none
sidc_of (some r) = some r.sidc

suspected_objective :
    sidc_of (recognize none (some (codes " Suspected OBJ IRON ")) (some (codes "opfor")) polygon)
    ≡ some (codes "GSGPOAO--------")
unfolding recognize working_label choose prefix_table find_prefix prefix_choice matches finish
    lower_char
suspected_objective = refl

choose_bndry_example :
    choose line_string (codes "BNDRYLINE")
    ≡ some (record {
      template = codes "GUGPGLB--------";
      kind = some (codes "boundary");
      how = best_effort;
      layer = prefix_layer;
      why = codes "boundary echelon not derivable from label" ∷ [];
    })
choose_bndry_example = choose_bndry line_string (codes "LINE")
