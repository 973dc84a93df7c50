-- ===== src/Recognize/Table.antt =====
-- services/gateway/kmz_prefix_table.py: the tables of the label recognizer, row by row.
use tactical_gateway.Base.{
  ◌-◌, Option, none, some, List, [], ◌∷◌, ◌++◌, Text, codes, length, replicate, ltb, if◌then◌else◌,
}
use tactical_gateway.Recognize.{Pattern, prefix, prefix_word}

pub data Status : Type 0 where
  clean best_effort : Status

pub record PrefixEntry : Type 0 where
  pub pattern_of : Pattern
  pub sidc_template : Text
  pub doctrinal_kind : Text
  pub status : Status
  pub notes : Text

pub record WordEntry : Type 0 where
  pub word_of : Text
  pub sidc_template : Text
  pub doctrinal_kind : Text
  pub status : Status
  pub notes : Text

-- `_g`: a template of 15 characters, or a raise on a function code that is too long.
unfoldable pub g : Text → Option Text
g function_code =
    if ltb 6 (length function_code)
    then none
    else some (
        codes "GUGP"
        ++ (function_code ++ (replicate (6 - length function_code) b'-' ++ replicate 5 b'-')))

abbrev pub prefix_entry : Pattern → Text → Text → Status → Text → Option PrefixEntry
prefix_entry p code kind status notes = with_template (g code)
  where
    with_template : Option Text → Option PrefixEntry
    with_template none = none
    with_template (some t) = some (record {
      pattern_of = p;
      sidc_template = t;
      doctrinal_kind = kind;
      status = status;
      notes = notes;
    })

abbrev pub word_entry : Text → Text → Text → Status → Text → Option WordEntry
word_entry w code kind status notes = with_template (g code)
  where
    with_template : Option Text → Option WordEntry
    with_template none = none
    with_template (some t) = some (record {
      word_of = w;
      sidc_template = t;
      doctrinal_kind = kind;
      status = status;
      notes = notes;
    })

-- The rows, if none raises.
abbrev pub add_row {ℓ} : {A : Type ℓ} → A → Option (List A) → Option (List A)
add_row a none = none
add_row a (some l) = some (a ∷ l)

abbrev pub rows {ℓ} : {A : Type ℓ} → List (Option A) → Option (List A)
rows [] = some []
rows (none ∷ _) = none
rows (some a ∷ r) = add_row a (rows r)

unfoldable pub prefix_table : Option (List PrefixEntry)
unfolding g
prefix_table = rows (
    prefix_entry (prefix (codes "PL")) (codes "GLP") (codes "phase_line") best_effort
      (codes "phase line variant inferred; planner may have meant a specific PL type")
    ∷ prefix_entry (prefix (codes "LDLC")) (codes "GLF") (codes "ld_lc") clean (codes "")
    ∷ prefix_entry (prefix (codes "LD")) (codes "GLL") (codes "line_of_departure") clean (codes "")
    ∷ prefix_entry (prefix (codes "LOA")) (codes "OLAA") (codes "limit_of_advance") clean (codes "")
    ∷ prefix_entry (prefix (codes "FEBA")) (codes "OLF") (codes "feba") clean (codes "")
    ∷ prefix_entry (prefix (codes "FLOT")) (codes "OLT") (codes "flot") clean (codes "")
    ∷ prefix_entry (prefix_word (codes "BNDRY") (codes "BOUNDARY")) (codes "GLB") (codes "boundary")
        best_effort (codes "boundary echelon not derivable from label")
    ∷ prefix_entry (prefix (codes "AO")) (codes "GAG") (codes "area_of_operations") clean (codes "")
    ∷ prefix_entry (prefix (codes "EA")) (codes "OAE") (codes "engagement_area") clean (codes "")
    ∷ prefix_entry (prefix (codes "AA")) (codes "GAA") (codes "assembly_area") clean (codes "")
    ∷ prefix_entry (prefix (codes "BP")) (codes "DAB") (codes "battle_position") clean (codes "")
    ∷ prefix_entry (prefix (codes "HA")) (codes "OAH") (codes "holding_area") clean (codes "")
    ∷ prefix_entry (prefix (codes "SBF")) (codes "OAS") (codes "support_by_fire") clean (codes "")
    ∷ prefix_entry (prefix (codes "ATK")) (codes "OAK") (codes "attack_position") clean (codes "")
    ∷ prefix_entry (prefix (codes "SP")) (codes "OPP") (codes "start_point") clean (codes "")
    ∷ prefix_entry (prefix (codes "RP")) (codes "OPR") (codes "release_point") clean (codes "")
    ∷ prefix_entry (prefix (codes "MSR")) (codes "OLLS") (codes "main_supply_route") clean
        (codes "")
    ∷ prefix_entry (prefix (codes "ASR")) (codes "OLLA") (codes "alt_supply_route") clean (codes "")
    ∷ prefix_entry (prefix (codes "CCP")) (codes "OPCC") (codes "casualty_collection_point") clean
        (codes "")
    ∷ prefix_entry (prefix (codes "CP")) (codes "OPC") (codes "contact_point") clean (codes "")
    ∷ prefix_entry (prefix (codes "OBJ")) (codes "OAO") (codes "objective") clean (codes "")
    ∷ prefix_entry (prefix (codes "TAI")) (codes "GPRI") (codes "target_area_of_interest") clean
        (codes "")
    ∷ prefix_entry (prefix (codes "NAI")) (codes "GPRN") (codes "named_area_of_interest") clean
        (codes "")
    ∷ prefix_entry (prefix (codes "TRP")) (codes "DPT") (codes "target_reference_point") clean
        (codes "")
    ∷ prefix_entry (prefix (codes "FSCL")) (codes "LF") (codes "fscl") clean (codes "")
    ∷ prefix_entry (prefix (codes "CFL")) (codes "LC") (codes "cfl") clean (codes "")
    ∷ prefix_entry (prefix (codes "RFL")) (codes "LR") (codes "rfl") clean (codes "")
    ∷ prefix_entry (prefix (codes "NFL")) (codes "LN") (codes "nfl") clean (codes "")
    ∷ prefix_entry (prefix (codes "NFA")) (codes "AN") (codes "no_fire_area") clean (codes "")
    ∷ prefix_entry (prefix (codes "RFA")) (codes "AR") (codes "restrictive_fire_area") clean
        (codes "")
    ∷ prefix_entry (prefix (codes "ROZ")) (codes "ARZ") (codes "roz") clean (codes "")
    ∷ prefix_entry (prefix (codes "PZ")) (codes "PPZ") (codes "pickup_zone") clean (codes "")
    ∷ prefix_entry (prefix (codes "LZ")) (codes "PPL") (codes "landing_zone") clean (codes "")
    ∷ prefix_entry (prefix (codes "DZ")) (codes "PPD") (codes "drop_zone") clean (codes "")
    ∷ [])

unfoldable pub word_table : Option (List WordEntry)
unfolding g
word_table = rows (
    word_entry (codes "checkpoint") (codes "OPCK") (codes "checkpoint") best_effort
      (codes "matched by word; specific checkpoint variant not derivable")
    ∷ word_entry (codes "control point") (codes "OPC") (codes "control_point") best_effort
        (codes "matched by word; generic control point assigned")
    ∷ word_entry (codes "bridge") (codes "EBB") (codes "bridge") best_effort
        (codes "matched by word; bridge feature, affiliation may need review")
    ∷ word_entry (codes "objective") (codes "OAO") (codes "objective") best_effort
        (codes "matched by word; prefer 'OBJ ' prefix for clean match")
    ∷ [])

pub data GeometryShape : Type 0 where
  point line_string polygon : GeometryShape

unfoldable pub geometry_fallback_sidc : GeometryShape → Option Text
unfolding g
geometry_fallback_sidc point = g (codes "GPP")
geometry_fallback_sidc line_string = g (codes "GLG")
geometry_fallback_sidc polygon = g (codes "GAG")

unfoldable pub target_designator_sidc : Option Text
unfolding g
target_designator_sidc = g (codes "DPT")

unfoldable pub route_sidc : Option Text
unfolding g
route_sidc = g (codes "OLR")
