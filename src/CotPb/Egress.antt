-- ===== src/CotPb/Egress.antt =====
-- `cto_to_cot_pb` of services/gateway/normalizers/cot_pb.py.
use tactical_gateway.Base.{ℕ, Option, none, some, List, [], ◌∷◌, ◌++◌, Text, codes, ◌>>=ₒ◌}
use tactical_gateway.Xml.{Element, Elements, nil, cons}
use tactical_gateway.Schema.Records.{Floats, Altitude, Kinematics, Json, attribute, Cto}
use tactical_gateway.CotXml.Detail.{string_value, emit_detail_node}
use tactical_gateway.CotXml.Egress.{
  text_or, time_or, type_lossy, geometry_lossy, point_coordinates, number_of, stored_detail,
}
use tactical_gateway.CotPb.{Contact, Track, Detail, CotEvent, Millis}

-- `_emit_detail_for_pb` has the text of `_emit_detail_node`.
abbrev pub emit_detail_for_pb : {F : Type 0} → Text → Json F → Elements
emit_detail_for_pb = emit_detail_node

abbrev pub contact_of : Option Text → Option Contact
contact_of none = none
contact_of (some []) = none
contact_of (some (c ∷ t)) = some (record { endpoint = []; callsign = c ∷ t })

-- `"".join(ET.tostring(child) for child in root)`; `to_text` stands for `ET.tostring`.
unfoldable pub join_elements : (Element → Text) → Elements → Text
join_elements to_text nil = []
join_elements to_text (cons e es) = to_text e ++ join_elements to_text es

abbrev pub text_or_empty : Option Text → Text
text_or_empty none = []
text_or_empty (some t) = t

module _ {F : Type 0} (floats : Floats F) where
  abbrev pub or_zero : Option F → F
  or_zero none = floats.of_integer 0
  or_zero (some x) = x

  -- The track has a field for each value that is there, and is set with the first of them.
  abbrev pub track_of : Option (Kinematics F) → Option (Track F)
  track_of none = none
  track_of (some k) = elim k.course_deg [
    | none ↦ elim k.speed_mps [
      | none ↦ none
      | some s ↦ some (record { speed = s; course = floats.of_integer 0 })
    ]
    | some c ↦ some (record { speed = or_zero k.speed_mps; course = c })
  ]

  -- The detail is set with the first of its fields; an empty text is no field.
  abbrev pub detail_of : Option Contact → Option (Track F) → Text → Option (Detail F)
  detail_of none none [] = none
  detail_of contact track inner = some (record {
    xml_detail = inner;
    contact = contact;
    group = none;
    precision_location = none;
    battery = none;
    takv = none;
    track = track;
  })

  abbrev altitude_hae : Option (Altitude F) → F
  altitude_hae none = floats.of_integer 0
  altitude_hae (some a) = a.value_m

  abbrev altitude_le : Option (Altitude F) → F
  altitude_le none = floats.of_integer 0
  altitude_le (some a) = or_zero a.accuracy_m

  module _ (to_text : Element → Text) (millis : Millis) where
    abbrev pub inner_xml : Cto F → Text
    inner_xml c = join_elements to_text (
        stored_detail (attribute (codes "cot_detail") c.attributes)
          (codes "contact" ∷ codes "track" ∷ []))

    abbrev pub point_event : Cto F → F × F → CotEvent F
    point_event c (lon, lat) = record {
      type_ = text_or c.symbology.cot_type (codes "a-u-G");
      uid = text_or c.source_uid c.uid;
      send_time = millis.to_millis c.event_time;
      start_time = millis.to_millis (time_or c.valid_from c.event_time);
      stale_time = millis.to_millis (time_or c.valid_to c.event_time);
      how = text_or_empty (string_value (attribute (codes "cot_how") c.attributes));
      lat = lat;
      lon = lon;
      hae = altitude_hae c.altitude;
      ce = or_zero (number_of floats (attribute (codes "cot_horizontal_accuracy_m") c.attributes));
      le = altitude_le c.altitude;
      detail = detail_of (contact_of c.callsign) (track_of c.kinematics) (inner_xml c);
    }

    -- The event and the lossy fields; `none` is an exception.
    unfoldable pub cto_pb_event : Cto F → Option (CotEvent F × List Text)
    unfolding join_elements
    cto_pb_event c = point_coordinates c.geometry >>=ₒ λ p.
        some (point_event c p, type_lossy c.symbology.cot_type ++ geometry_lossy c.geometry)

    -- `serialize` stands for `SerializeToString`.
    unfoldable pub cto_to_cot_pb : (CotEvent F → List ℕ) → Cto F → Option (List ℕ × List Text)
    cto_to_cot_pb serialize c = cto_pb_event c >>=ₒ λ (ev, lossy). some (serialize ev, lossy)
