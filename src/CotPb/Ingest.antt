-- ===== src/CotPb/Ingest.antt =====
-- `cot_pb_to_cto` of services/gateway/normalizers/cot_pb.py.
use tactical_gateway.Base.{
  ℕ, ◌&&◌, not, Option, none, some, List, [], ◌∷◌, ◌++◌, Text, codes, if◌then◌else◌,
}
use tactical_gateway.Xml.{Element, children_of}
use tactical_gateway.Schema.{unknown_source, cot_protobuf, stream, track, unclassified}
use tactical_gateway.Schema.Records.{
  Floats, Altitude, Kinematics, Json, string, object, float, Members, end, member, attribute,
  set_attribute, Cto, point_at,
}
use tactical_gateway.CotXml.Types.{parse_cot_type}
use tactical_gateway.CotXml.Detail.{detail_to_attributes}
use tactical_gateway.CotXml.Ingest.{Normalized, normalized, ◌>>=ₙ◌, Source, or_refused, or_raised}
use tactical_gateway.CotPb.{
  Contact, Group, PrecisionLocation, Takv, Track, Detail, CotEvent, Millis,
}

abbrev pub some_text : Text → Option Text
some_text [] = none
some_text (c ∷ t) = some (c ∷ t)

abbrev pub contact_callsign : Option Contact → Option Text
contact_callsign none = none
contact_callsign (some c) = some_text c.callsign

module _ {F : Type 0} where
  abbrev set_default_at : Option (Json F) → Text → Json F → Members F → Members F
  set_default_at none k v d = set_attribute k v d
  set_default_at (some _) k v d = d

  -- `d.setdefault(k, v)`
  abbrev pub set_default : Text → Json F → Members F → Members F
  set_default k v d = set_default_at (attribute k d) k v d

  abbrev pub default_in : Option (Json F) → Text → Json F → Members F → Members F
  default_in none tag node d = set_attribute (codes "cot_detail") (object (member tag node end)) d
  default_in (some (object s)) tag node d =
      set_attribute (codes "cot_detail") (object (set_default tag node s)) d
  default_in (some _) tag node d = d

  -- `attributes.setdefault("cot_detail", {}).setdefault(tag, node)`; `cot_detail` is a dictionary.
  abbrev pub default_detail : Text → Json F → Members F → Members F
  default_detail tag node d = default_in (attribute (codes "cot_detail") d) tag node d

  abbrev pub texts : List (Text × Text) → Json F
  texts a = object (go a)
    where
      go : List (Text × Text) → Members F
      go [] = end
      go ((k, v) ∷ r) = member k (string v) (go r)

  -- The subtree that the message has as text, and its parse, if there is one.
  abbrev pub raw_detail : (Text → Option Element) → Text → Option Element → Members F
  raw_detail from_text raw none = member (codes "cot_xml_detail_raw") (string raw) end
  raw_detail from_text raw (some e) =
      member (codes "cot_xml_detail_raw") (string raw)
        (member (codes "cot_detail") (object (detail_to_attributes (children_of e))) end)

  abbrev pub xml_attributes : (Text → Option Element) → Text → Members F
  xml_attributes from_text [] = end
  xml_attributes from_text (c ∷ t) =
      raw_detail from_text (c ∷ t) (from_text (codes "<detail>" ++ ((c ∷ t) ++ codes "</detail>")))

  abbrev pub with_group : Option Group → Members F → Members F
  with_group none d = d
  with_group (some g) d =
      default_detail (codes "__group")
        (texts ((codes "name", g.name) ∷ (codes "role", g.role) ∷ [])) d

  abbrev pub with_status : Option Text → Members F → Members F
  with_status none d = d
  with_status (some []) d = d
  with_status (some (c ∷ t)) d =
      default_detail (codes "status") (texts ((codes "battery", c ∷ t) ∷ [])) d

  abbrev pub with_takv : Option Takv → Members F → Members F
  with_takv none d = d
  with_takv (some t) d =
      default_detail (codes "takv")
        (texts (
          (codes "device", t.device)
          ∷ (codes "platform", t.platform)
          ∷ (codes "os", t.os)
          ∷ (codes "version", t.version)
          ∷ []))
        d

  abbrev pub with_precision : Option PrecisionLocation → Members F → Members F
  with_precision none d = d
  with_precision (some p) d =
      default_detail (codes "precisionlocation")
        (texts ((codes "geopointsrc", p.geopointsrc) ∷ (codes "altsrc", p.altsrc) ∷ [])) d

  -- The attributes that the detail gives.
  unfoldable pub detail_members : (Text → Option Element) → Option (Detail F) → Members F
  unfolding attribute set_attribute
  detail_members from_text none = end
  detail_members from_text (some d) = with_precision d.precision_location (
      with_takv d.takv
        (with_status d.battery (with_group d.group (xml_attributes from_text d.xml_detail))))

  abbrev pub with_how : Text → Members F → Members F
  with_how [] d = d
  with_how (c ∷ t) d = set_attribute (codes "cot_how") (string (c ∷ t)) d

  abbrev pub detail_callsign : Option (Detail F) → Option Text
  detail_callsign none = none
  detail_callsign (some d) = contact_callsign d.contact

module _ {F : Type 0} (floats : Floats F) where
  abbrev pub nonzero : F → Option F
  nonzero x = if floats.is_zero x then none else some x

  -- `x if x and x < 9999999 else None`
  abbrev pub known : F → Option F
  known x = if not (floats.is_zero x) && floats.is_known x then some x else none

  abbrev pub altitude_of : CotEvent F → Option (Altitude F)
  altitude_of ev =
      if floats.is_zero ev.hae && floats.is_zero ev.le
      then none
      else some (record { value_m = ev.hae; source = unknown_source; accuracy_m = known ev.le })

  abbrev track_kinematics : Option (Track F) → Option (Kinematics F)
  track_kinematics none = none
  track_kinematics (some t) = some (record {
    course_deg = nonzero t.course;
    speed_mps = nonzero t.speed;
    vertical_rate_mps = none;
  })

  abbrev pub kinematics_of : Option (Detail F) → Option (Kinematics F)
  kinematics_of none = none
  kinematics_of (some d) = track_kinematics d.track

  abbrev pub with_accuracy : Option F → Members F → Members F
  with_accuracy none d = d
  with_accuracy (some x) d = set_attribute (codes "cot_horizontal_accuracy_m") (float x) d

  unfoldable pub event_attributes : (Text → Option Element) → CotEvent F → Members F
  unfolding set_attribute detail_members
  event_attributes from_text ev =
      with_accuracy (known ev.ce) (with_how ev.how (detail_members from_text ev.detail))

  module _ (from_text : Text → Option Element) (millis : Millis) (src : Source) where
    abbrev pub event_cto : CotEvent F → ℕ → ℕ → ℕ → Cto F
    event_cto ev sent start stale = record {
      uid = src.uid;
      source_uid = some ev.uid;
      source_system = src.source_system;
      source_protocol = cot_protobuf;
      ingest_source = stream;
      received_at = src.received_at;
      event_time = sent;
      valid_from = some start;
      valid_to = some stale;
      classification = unclassified;
      object_class = track;
      symbology = record {
        cot_type = some ev.type_;
        sidc_2525c = none;
        affiliation = (parse_cot_type ev.type_).0;
        battle_dimension = (parse_cot_type ev.type_).1;
      };
      geometry = point_at (ev.lon, ev.lat);
      altitude = altitude_of ev;
      kinematics = kinematics_of ev.detail;
      callsign = detail_callsign ev.detail;
      label = none;
      remarks = none;
      attributes = event_attributes from_text ev;
      raw_pointer = some src.raw_pointer;
      provenance =
          record {
            step = codes "cot_pb_to_cto";
            actor = codes "gateway.normalizers.cot_pb";
            at = src.received_at;
            notes = none;
            lossy_fields = [];
          }
          ∷ [];
    }

    unfoldable pub event_to_cto : CotEvent F → Normalized (Cto F)
    event_to_cto ev = or_raised (millis.from_millis ev.send_time) >>=ₙ λ sent.
        or_raised (millis.from_millis ev.start_time) >>=ₙ λ start.
        or_raised (millis.from_millis ev.stale_time) >>=ₙ λ stale.
        normalized (event_cto ev sent start stale)

    -- `parse` stands for `ParseFromString` and `HasField`: a message that does not parse is a
    -- DecodeError, which is no `CoTPbError`; one without an event is refused.
    unfoldable pub cot_pb_to_cto :
        (List ℕ → Option (Option (CotEvent F))) → List ℕ → Normalized (Cto F)
    cot_pb_to_cto parse pb_bytes =
        or_raised (parse pb_bytes) >>=ₙ λ msg. or_refused msg >>=ₙ event_to_cto
