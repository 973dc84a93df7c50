-- ===== src/Ovl/Decode.antt =====
-- The second half of services/gateway/ovl/parser.py: the geometry of an object, its attributes, and
-- the objects of an overlay as CTOs.
use tactical_gateway.Base.{
  ℕ, ◌+◌, Bool, true, false, ◌&&◌, not, Option, none, some, List, [], ◌∷◌, ◌++◌, Text, codes,
  last_or, ◌||◌, cons_option, map, if◌then◌else◌, ◌>>=ₒ◌,
}
use tactical_gateway.Schema.{
  point, line_string, polygon, GeometryType, validate_coordinates, ovl, graphic, IngestSource,
  unclassified,
}
use tactical_gateway.Schema.Records.{
  Floats, Geometry, point_at, line_of, polygon_of, geometry_type, coordinates, Json, null, boolean,
  integer, float, string, array, object, empty, item, Members, end, member, Cto, RawPointer,
}
use tactical_gateway.Recognize.Affiliate
use tactical_gateway.Xml.{Element}
use tactical_gateway.Ingest.{Parsed, parsed, parse_error, other_error}
use tactical_gateway.Ovl.Sidc.{
  Affiliation, friend, hostile, neutral, unknown, GeometryClass, point_class, linear, area,
  classify_affiliation, classify_geometry, function_code, is_known,
}
use tactical_gateway.Ovl.Model.{Position, Modifier, MilbObject, OvlModel, parse_model, text_or_none}

abbrev pub same_class : GeometryClass → GeometryClass → Bool
same_class point_class point_class = true
same_class point_class linear = false
same_class point_class area = false
same_class linear point_class = false
same_class linear linear = true
same_class linear area = false
same_class area point_class = false
same_class area linear = false
same_class area area = true

abbrev pub is_class : GeometryClass → Option GeometryClass → Bool
is_class c none = false
is_class c (some d) = same_class d c

abbrev pub class_value : GeometryClass → Text
class_value point_class = codes "point"
class_value linear = codes "linear"
class_value area = codes "area"

abbrev pub affiliation_value : Affiliation → Text
affiliation_value friend = codes "friend"
affiliation_value hostile = codes "hostile"
affiliation_value neutral = codes "neutral"
affiliation_value unknown = codes "unknown"

-- The class of a drawn shape.
abbrev pub actual_class : GeometryType → GeometryClass
actual_class point = point_class
actual_class line_string = linear
actual_class polygon = area

abbrev pub disagrees : GeometryType → Option GeometryClass → Bool
disagrees t none = false
disagrees t (some c) = not (same_class c (actual_class t))

abbrev pub members : {F : Type 0} → List (Text × Json F) → Members F
members [] = end
members ((k, v) ∷ d) = member k v (members d)

-- What a call of `ovl_to_ctos` is given, with the UUIDs that `uuid7` gives.
pub record Request : Type 0 where
  pub filename : Text
  pub source_system : Text
  pub received_at : ℕ
  pub raw_pointer : RawPointer
  pub ingest_source : IngestSource
  pub uuid : ℕ → Text

module _ {F : Type 0} (floats : Floats F) where
  abbrev pub is_closed : Position F → Position F → Bool
  is_closed p q = floats.same p.lat q.lat && floats.same p.lon q.lon

  unfoldable pub infer_actual_geometry : List (Position F) → Text → GeometryType
  infer_actual_geometry [] sidc = point
  infer_actual_geometry (p ∷ []) sidc = point
  infer_actual_geometry (p ∷ q ∷ []) sidc = line_string
  infer_actual_geometry (p ∷ q ∷ r ∷ ps) sidc =
      if is_class area (classify_geometry sidc) || is_closed p (last_or r ps)
      then polygon
      else line_string

  -- `resolve_geometry`: the drawn type, the class of the code, and whether they disagree.
  unfoldable pub resolve_geometry :
      List (Position F) → Text → GeometryType × Option GeometryClass × Bool
  unfolding infer_actual_geometry
  resolve_geometry ps sidc =
      let actual = infer_actual_geometry ps sidc in
      (actual, classify_geometry sidc, disagrees actual (classify_geometry sidc))

  abbrev pub swap : Position F → F × F
  swap p = (p.lon, p.lat)

  abbrev pub same_pair : F × F → F × F → Bool
  same_pair (x, y) (x', y') = floats.same x x' && floats.same y y'

  unfoldable pub close_ring : List (F × F) → List (F × F)
  close_ring [] = []
  close_ring (c ∷ cs) = if same_pair c (last_or c cs) then c ∷ cs else c ∷ (cs ++ (c ∷ []))

  -- The geometry of the dictionary; `none` is a point whose coordinates are None.
  unfoldable pub drawn_geometry : GeometryType → List (F × F) → Option (Geometry F)
  unfolding close_ring
  drawn_geometry point [] = none
  drawn_geometry point (c ∷ _) = some (point_at c)
  drawn_geometry line_string cs = some (line_of cs)
  drawn_geometry polygon cs = some (polygon_of (close_ring cs ∷ []))

  abbrev pub object_geometry : MilbObject F → Option (Geometry F)
  object_geometry obj =
      drawn_geometry (infer_actual_geometry obj.positions obj.mil_id) (map swap obj.positions)

  abbrev pub modifier_values : List (Text × Modifier) → Members F
  modifier_values [] = end
  modifier_values ((k, m) ∷ ms) =
      member k
        (object (members ((codes "value", string m.value) ∷ (codes "vis", boolean m.vis) ∷ [])))
        (modifier_values ms)

  abbrev pub optional : Text → Option (Json F) → List (Text × Json F)
  optional k none = []
  optional k (some v) = (k, v) ∷ []

  abbrev pub text_value : Option Text → Option (Json F)
  text_value none = none
  text_value (some t) = some (string t)

  abbrev pub position_value : Option (Position F) → Option (Json F)
  position_value none = none
  position_value (some p) = some (array (item (float p.lon) (item (float p.lat) empty)))

  abbrev pub class_json : Option GeometryClass → Json F
  class_json none = null
  class_json (some c) = string (class_value c)

  -- The attributes of `milbobject_to_cto_dict`.
  unfoldable pub object_attributes : MilbObject F → Text → List (Text × Json F)
  object_attributes obj parent_ovl_uri =
      let (actual, sidc_class, conflict) = resolve_geometry obj.positions obj.mil_id in
      (codes "sidc", string obj.mil_id)
      ∷ (codes "affiliation", string (affiliation_value (classify_affiliation obj.mil_id)))
      ∷ (codes "function_code", string (function_code obj.mil_id))
      ∷ (codes "sidc_geometry_class", class_json sidc_class)
      ∷ (codes "geometry_conflict", boolean conflict)
      ∷ (codes "sidc_known", boolean (is_known obj.mil_id))
      ∷ (codes "visibility", boolean obj.visibility)
      ∷ (codes "modifiers", object (modifier_values obj.modifiers))
      ∷ (optional (codes "label_position") (position_value obj.label_position)
          ++ (optional (codes "line_color") (text_value obj.line_color)
              ++ (optional (codes "fill_color") (text_value obj.fill_color)
                  ++ (optional (codes "size") (text_value obj.size)
                      ++ optional (codes "parent_ovl_uri")
                          (text_value (text_or_none parent_ovl_uri))))))

  -- `Geometry(**…)`: `false` is a ValidationError.
  abbrev pub is_valid : Option (Geometry F) → Bool
  is_valid none = false
  is_valid (some g) = validate_coordinates (geometry_type g) (coordinates floats g)

  abbrev pub checked_geometry : Option (Geometry F) → Option (Geometry F)
  checked_geometry none = none
  checked_geometry (some g) = if is_valid (some g) then some g else none

  abbrev pub to_cto_affiliation : Affiliation → Affiliate.Affiliation
  to_cto_affiliation friend = Affiliate.friend
  to_cto_affiliation hostile = Affiliate.hostile
  to_cto_affiliation neutral = Affiliate.neutral
  to_cto_affiliation unknown = Affiliate.unknown

  -- One object of the loop, the `idx`th; `none` is a ValidationError.
  unfoldable pub object_cto : Request → Text → ℕ → MilbObject F → Option (Cto F)
  object_cto q overlay idx obj = checked_geometry (object_geometry obj) >>=ₒ λ g. some (record {
    uid = q.uuid idx;
    source_uid = text_or_none obj.name;
    source_system = q.source_system;
    source_protocol = ovl;
    ingest_source = q.ingest_source;
    received_at = q.received_at;
    event_time = q.received_at;
    valid_from = none;
    valid_to = none;
    classification = unclassified;
    object_class = graphic;
    symbology = record {
      cot_type = none;
      sidc_2525c = text_or_none obj.mil_id;
      affiliation = some (to_cto_affiliation (classify_affiliation obj.mil_id));
      battle_dimension = none;
    };
    geometry = g;
    altitude = none;
    kinematics = none;
    callsign = none;
    label = text_or_none obj.name;
    remarks = none;
    attributes = members (
        object_attributes obj q.raw_pointer.object_key
        ++ ((codes "overlay_name", string overlay)
            ∷ (codes "source_filename", string q.filename)
            ∷ (codes "ovl_object_index", integer idx)
            ∷ []));
    raw_pointer = some q.raw_pointer;
    provenance =
        record {
          step = codes "ovl_to_cto";
          actor = codes "gateway.ovl_parser";
          at = q.received_at;
          notes = none;
          lossy_fields = [];
        }
        ∷ [];
  })

  unfoldable pub object_ctos : Request → Text → ℕ → List (MilbObject F) → Option (List (Cto F))
  object_ctos q overlay idx [] = some []
  object_ctos q overlay idx (obj ∷ objs) =
      cons_option (object_cto q overlay idx obj) (object_ctos q overlay (idx + 1) objs)

  abbrev pub parsed_or_error : Option (List (Cto F)) → Parsed (Cto F)
  parsed_or_error none = other_error
  parsed_or_error (some ctos) = parsed ctos

  abbrev pub model_ctos : Request → Text → Option (OvlModel F) → Parsed (Cto F)
  model_ctos q message none = parse_error message
  model_ctos q message (some model) = parsed_or_error (object_ctos q model.name 0 model.objects)

  abbrev pub root_ctos : Request → Text → Option Element → Parsed (Cto F)
  root_ctos q message none = parse_error message
  root_ctos q message (some root) = model_ctos q message (parse_model floats root)

  -- `from_string` is the parser of the XML, and `message` the text of its exception or of a ValueError.
  unfoldable pub ovl_to_ctos :
      (List ℕ → Option Element) → (List ℕ → Text) → Request → List ℕ → Parsed (Cto F)
  ovl_to_ctos from_string message q data_ = root_ctos q (message data_) (from_string data_)
