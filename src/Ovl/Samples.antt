-- ===== src/Ovl/Samples.antt =====
-- Runs of the overlay decoder of services/gateway/ovl. A float is its text.
use tactical_gateway.Base.{
  ℕ, ◌≡◌, ◌↔◌, ◌⊎◌, refl, true, false, none, some, List, [], ◌∷◌, ◌++◌, Text, codes, text_eq, map,
}
use tactical_gateway.Base.Dict.{lookup}
use tactical_gateway.Xml.{Element, element, Elements, nil, cons}
use tactical_gateway.Schema.{folder}
use tactical_gateway.Schema.Records.{Cto}
use tactical_gateway.Schema.TextFloats.{text_floats}
use tactical_gateway.Ingest.{Services, captured, parsed}
use tactical_gateway.Ovl.Sidc.{linear, function_geometry, function_code, classify_geometry}
use tactical_gateway.Ovl.Prefix.{IsLongest, classify_geometry_iff}
use tactical_gateway.Ovl.Model.{Position, OvlModel, parse_model, parse_position}
use tactical_gateway.Ovl.Decode.{Request, is_valid, ovl_to_ctos}
use tactical_gateway.Ovl.Shape.{drawn, vertices, is_valid-drawn, vertices-drawn}
use tactical_gateway.Ovl.Overlay.{Shows, ovl_to_ctos-Shows}

abbrev phase_line : Text
phase_line = codes "GFGPGLP--------"

line_class : classify_geometry phase_line ≡ some linear
unfolding classify_geometry function_code function_geometry lookup
line_class = refl

-- A code that the table lacks has the class of its front part.
front_class : classify_geometry (codes "GFGPOLAAX------") ≡ some linear
unfolding classify_geometry function_code function_geometry lookup
front_class = refl

classify_geometry_iff_example :
    (classify_geometry phase_line ≡ some linear)
    ↔ ((k : ℕ) × IsLongest (function_code phase_line) k linear)
classify_geometry_iff_example = classify_geometry_iff phase_line linear

abbrev at : Text → Position Text
at t = record { lat = t; lon = codes "7" }

abbrev triangle : List (Position Text)
triangle = at (codes "1") ∷ at (codes "2") ∷ at (codes "1") ∷ []

is_valid-drawn_example : is_valid text_floats (drawn text_floats triangle phase_line) ≡ false
unfolding text_eq
is_valid-drawn_example = is_valid-drawn text_floats triangle phase_line

vertices-drawn_example :
    (vertices text_floats (drawn text_floats triangle phase_line)
      ≡ map (λ p. (p.lon, p.lat)) triangle)
    ⊎ ((p : Position Text) × (rest : List (Position Text)) × (triangle ≡ p ∷ rest)
        × (vertices text_floats (drawn text_floats triangle phase_line)
            ≡ map (λ p. (p.lon, p.lat)) triangle ++ ((p.lon, p.lat) ∷ [])))
vertices-drawn_example = vertices-drawn text_floats triangle phase_line

abbrev leaf : Text → Text → Element
leaf tag t = element tag [] (some t) nil

abbrev overlay : Elements → Element
overlay fields =
    element (codes "MODEL") [] none (cons (element (codes "milbobject") [] none fields) nil)

abbrev line_root : Element
line_root = overlay (
    cons (leaf (codes "MIL_ID") phase_line) (
      cons (leaf (codes "NAME") (codes " PL RED ")) (
        cons (leaf (codes "POSITION") (codes "1 2"))
          (cons (leaf (codes "POSITION") (codes "3 4")) nil))))

abbrev bare_root : Element
bare_root = overlay (cons (leaf (codes "NAME") (codes "NOWHERE")) nil)

abbrev model_of : Text → Text → List (Position Text) → OvlModel Text
model_of sidc name ps = record {
  name = [];
  create_time = none;
  modified_time = none;
  objects =
      record {
        mil_id = sidc;
        name = name;
        visibility = true;
        modifiers = [];
        label_position = none;
        line_color = none;
        fill_color = none;
        size = none;
        positions = ps;
      }
      ∷ [];
}

abbrev line_model : OvlModel Text
line_model =
    model_of phase_line (codes "PL RED") (
      record { lat = codes "1"; lon = codes "2" }
      ∷ record { lat = codes "3"; lon = codes "4" }
      ∷ [])

abbrev bare_model : OvlModel Text
bare_model = model_of [] (codes "NOWHERE") []

line_parses : parse_model text_floats line_root ≡ some line_model
unfolding parse_model parse_position
line_parses = refl

abbrev request : Text → Request
request key = record {
  filename = codes "plan.ovl";
  source_system = codes "folder:/inbox";
  received_at = 5;
  raw_pointer = record { sha256 = codes "aa"; object_key = key; size_bytes = 3; captured_at = 5 };
  ingest_source = folder;
  uuid = λ n. n ∷ [];
}

abbrev message : List ℕ → Text
message b = codes "no element found"

ovl_to_ctos-Shows_example :
    (cs : List (Cto Text)) × (ovl_to_ctos text_floats
        (λ b. some line_root)
        message
        (request (codes "k"))
        []
      ≡ parsed cs)
    × Shows text_floats line_model.objects cs
ovl_to_ctos-Shows_example =
    ovl_to_ctos-Shows text_floats (λ b. some line_root) message [] line_root line_model refl
      line_parses (request (codes "k")) refl

abbrev services : Services ℕ (Cto Text)
services = record {
  sha256_hex = λ b. codes "aa";
  capture = λ b protocol w. (captured (codes "raw/ovl"), w);
  publish_cto = λ c w. (true, w);
  has_conflict = λ c. false;
}

abbrev bare_bytes : List ℕ
bare_bytes = codes "<MODEL><milbobject/></MODEL>"
