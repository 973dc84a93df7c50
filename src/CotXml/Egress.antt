-- ===== src/CotXml/Egress.antt =====
-- `cto_to_cot_xml` of services/gateway/normalizers/cot_xml.py: a CTO as an event.
use tactical_gateway.Base.{
  ℕ, ◌-◌, true, false, Option, none, some, is_some, List, [], ◌∷◌, ◌++◌, Text, codes, ends_with,
  length, take, if◌then◌else◌, ◌>>=ₒ◌,
}
use tactical_gateway.Base.Dict.{lookup}
use tactical_gateway.Xml.{Element, element, Elements, nil, cons, tag_of}
use tactical_gateway.Schema.Records.{
  Floats, Altitude, Kinematics, Symbology, Json, boolean, integer, float, string, object, Members,
  end, member, attribute, Geometry, point_at, line_of, polygon_of, Cto,
}
use tactical_gateway.CotXml.Types.{synthesize_type}
use tactical_gateway.CotXml.Detail.{append_elements, emit_detail_node, string_value}
use tactical_gateway.CotXml.Ingest.{Times, is_in}

abbrev pub with_z : Text → Text
with_z s = if ends_with s (codes "+00:00") then take (length s - 6) s ++ codes "Z" else s

-- `none` is the OverflowError.
abbrev pub format_iso : Times → ℕ → Option Text
format_iso times t = times.iso t >>=ₒ λ s. some (with_z s)

-- The three times of an event, as they are written.
pub record Stamps : Type 0 where
  pub time : Text
  pub start : Text
  pub stale : Text

-- `a or b` on texts.
abbrev pub text_or : Option Text → Text → Text
text_or none b = b
text_or (some []) b = b
text_or (some (c ∷ t)) b = c ∷ t

abbrev pub time_or : Option ℕ → ℕ → ℕ
time_or none b = b
time_or (some a) b = a

abbrev pub type_of : Symbology → Text
type_of s = text_or s.cot_type (synthesize_type s.affiliation s.battle_dimension)

-- The lossy field of a type that is made up.
abbrev pub type_lossy : Option Text → List Text
type_lossy none = codes "cot_type_synthesized" ∷ []
type_lossy (some []) = codes "cot_type_synthesized" ∷ []
type_lossy (some (c ∷ t)) = []

abbrev pub geometry_lossy : {F : Type 0} → Geometry F → List Text
geometry_lossy (point_at _) = []
geometry_lossy (line_of _) = codes "geometry_not_point" ∷ []
geometry_lossy (polygon_of _) = codes "geometry_not_point" ∷ []

-- `float(coords[0]), float(coords[1])`; `none` is a TypeError or an IndexError.
abbrev pub point_coordinates : {F : Type 0} → Geometry F → Option (F × F)
point_coordinates (point_at p) = some p
point_coordinates (line_of _) = none
point_coordinates (polygon_of _) = none

abbrev pub text_child : Text → Option Text → Elements
text_child tag none = nil
text_child tag (some []) = nil
text_child tag (some (c ∷ t)) = cons (element tag [] (some (c ∷ t)) nil) nil

abbrev pub callsign_child : Option Text → Elements
callsign_child none = nil
callsign_child (some []) = nil
callsign_child (some (c ∷ t)) =
    cons (element (codes "contact") ((codes "callsign", c ∷ t) ∷ []) none nil) nil

abbrev pub track_child : List (Text × Text) → Elements
track_child [] = nil
track_child (x ∷ xs) = cons (element (codes "track") (x ∷ xs) none nil) nil

abbrev pub tags_of : Elements → List Text
tags_of nil = []
tags_of (cons e es) = tag_of e ∷ tags_of es

abbrev pub with_attribute : Text → Option Text → List (Text × Text) → List (Text × Text)
with_attribute k none a = a
with_attribute k (some v) a = a ++ ((k, v) ∷ [])

module _ {F : Type 0} where
  abbrev add_absent : Text → Json F → List (Text × Text) → List (Text × Text)
  add_absent k (string v) a = if is_some (lookup k a) then a else a ++ ((k, v) ∷ [])
  add_absent k _ a = a

  -- The loop over the extras.
  unfoldable pub add_extras : Members F → List (Text × Text) → List (Text × Text)
  unfolding lookup
  add_extras end a = a
  add_extras (member k v d) a = add_extras d (add_absent k v a)

  abbrev pub restore_extras : Option (Json F) → List (Text × Text) → List (Text × Text)
  restore_extras (some (object d)) a = add_extras d a
  restore_extras _ a = a

  -- The stored elements whose tags are not in the detail already.
  unfoldable pub emit_stored : List Text → Members F → Elements
  unfolding is_in emit_detail_node
  emit_stored already end = nil
  emit_stored already (member tag node d) =
      let rest = emit_stored already d in
      if is_in tag already then rest else append_elements (emit_detail_node tag node) rest

  abbrev pub stored_detail : Option (Json F) → List Text → Elements
  stored_detail (some (object d)) already = emit_stored already d
  stored_detail _ already = nil

module _ {F : Type 0} (floats : Floats F) where
  -- `float(ce)` if it is an int or a float, and a bool is an int.
  abbrev pub number_of : Option (Json F) → Option F
  number_of (some (float x)) = some x
  number_of (some (integer n)) = some (floats.of_integer n)
  number_of (some (boolean true)) = some (floats.of_integer 1)
  number_of (some (boolean false)) = some (floats.of_integer 0)
  number_of _ = none

module _ {F : Type 0} (floats : Floats F) (times : Times) where
  -- The times of the CTO; `none` if one of them cannot be written.
  unfoldable pub stamps_of : Cto F → Option Stamps
  unfolding ends_with
  stamps_of c = format_iso times c.event_time >>=ₒ λ time.
      format_iso times (time_or c.valid_from c.event_time) >>=ₒ λ start.
      format_iso times (time_or c.valid_to c.event_time) >>=ₒ λ stale.
      some (record { time = time; start = start; stale = stale })

  abbrev pub fixed_attributes : Stamps → Cto F → List (Text × Text)
  fixed_attributes w c =
      (codes "version", codes "2.0")
      ∷ (codes "uid", text_or c.source_uid c.uid)
      ∷ (codes "type", type_of c.symbology)
      ∷ (codes "time", w.time)
      ∷ (codes "start", w.start)
      ∷ (codes "stale", w.stale)
      ∷ []

  abbrev pub event_attrs : Stamps → Cto F → List (Text × Text)
  event_attrs w c = restore_extras (attribute (codes "cot_event_extras") c.attributes) (
      with_attribute (codes "how") (string_value (attribute (codes "cot_how") c.attributes))
        (fixed_attributes w c))

  abbrev optional_fixed : ℕ → Option F → Text
  optional_fixed n none = codes "9999999"
  optional_fixed n (some x) = floats.fixed n x

  abbrev altitude_attrs : Option (Altitude F) → List (Text × Text)
  altitude_attrs none = (codes "hae", codes "9999999") ∷ (codes "le", codes "9999999") ∷ []
  altitude_attrs (some a) =
      (codes "hae", floats.fixed 2 a.value_m) ∷ (codes "le", optional_fixed 2 a.accuracy_m) ∷ []

  abbrev pub point_element : Cto F → F × F → Element
  point_element c (lon, lat) =
      element (codes "point")
        ((codes "lat", floats.fixed 7 lat)
          ∷ (codes "lon", floats.fixed 7 lon)
          ∷ (altitude_attrs c.altitude
              ++ ((
                codes "ce",
                optional_fixed 2
                    (number_of floats (attribute (codes "cot_horizontal_accuracy_m") c.attributes)),
              )
                  ∷ [])))
        none nil

  abbrev pub fixed_attr : Text → Option F → List (Text × Text)
  fixed_attr k none = []
  fixed_attr k (some x) = (k, floats.fixed 2 x) ∷ []

  abbrev pub track_attrs : Option (Kinematics F) → List (Text × Text)
  track_attrs none = []
  track_attrs (some k) =
      fixed_attr (codes "course") k.course_deg ++ fixed_attr (codes "speed") k.speed_mps

  -- The children of the detail that the fields of the CTO give.
  abbrev pub typed_children : Cto F → Elements
  typed_children c = append_elements (callsign_child c.callsign) (
      append_elements (track_child (track_attrs c.kinematics))
        (text_child (codes "remarks") c.remarks))

  abbrev pub detail_element : Cto F → Element
  detail_element c =
      let typed = typed_children c in
      element (codes "detail") [] none (
        append_elements typed
          (stored_detail (attribute (codes "cot_detail") c.attributes) (tags_of typed)))

  abbrev pub event_element : Stamps → Cto F → F × F → Element
  event_element w c p =
      element (codes "event") (event_attrs w c) none
        (cons (point_element c p) (cons (detail_element c) nil))

  -- The event and the lossy fields; `none` is an exception.
  unfoldable pub cto_event : Cto F → Option (Element × List Text)
  unfolding synthesize_type add_extras emit_stored attribute stamps_of
  cto_event c = stamps_of c >>=ₒ λ w. point_coordinates c.geometry >>=ₒ λ p.
      some (event_element w c p, type_lossy c.symbology.cot_type ++ geometry_lossy c.geometry)

  -- `to_string` stands for `ET.tostring`.
  unfoldable pub cto_to_cot_xml : (Element → List ℕ) → Cto F → Option (List ℕ × List Text)
  cto_to_cot_xml to_string c = cto_event c >>=ₒ λ (e, lossy). some (to_string e, lossy)
