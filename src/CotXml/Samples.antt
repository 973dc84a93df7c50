-- ===== src/CotXml/Samples.antt =====
-- Runs of the CoT XML normalizer. A float is its text, and a time is what stands in its place.
use tactical_gateway.Base.{
  ◌≡◌, refl, false, true, none, some, List, [], ◌∷◌, Text, codes, text_eq, strip, starts_with,
  ends_with,
}
use tactical_gateway.Base.Dict.{lookup}
use tactical_gateway.Xml.{Element, element, Elements, nil, cons, get, find}
use tactical_gateway.Schema.{land, air, cot_xml, stream, track, unclassified}
use tactical_gateway.Schema.Records.{Cto, point_at}
use tactical_gateway.Schema.TextFloats.{text_floats}
use tactical_gateway.Recognize.Affiliate.{friend, hostile}
use tactical_gateway.CotXml.Types.{parse_cot_type, synthesize_type, parse_cot_type-synthesize_type}
use tactical_gateway.CotXml.Detail.{detail_to_attributes, emit_members, append_elements}
use tactical_gateway.CotXml.RoundTrip.{is_plain, emit_members-detail_to_attributes}
use tactical_gateway.CotXml.Ingest.{
  normalized, Times, Source, is_in, event_attributes, event_cto, root_to_cto,
}
use tactical_gateway.CotXml.Egress.{cto_event, detail_element, tags_of}
use tactical_gateway.CotXml.Event.{rewritten, get-cto_event}
use tactical_gateway.CotXml.Stored.{
  without_tags, FieldsFit, detail_element_lem, detail_element-root_to_cto,
}

parse_cot_type-synthesize_type_example :
    parse_cot_type (synthesize_type (some hostile) (some air)) ≡ (some hostile, some air)
parse_cot_type-synthesize_type_example = parse_cot_type-synthesize_type (some hostile) (some air)

-- A joker is read as a friend, and written back as one.
joker :
    parse_cot_type (codes "a-J-g-U") ≡ parse_cot_type (synthesize_type (some friend) (some land))
unfolding parse_cot_type synthesize_type
joker = refl

abbrev attr : Text → Text → List (Text × Text)
attr k v = (k, v) ∷ []

abbrev group : Element
group = element (codes "__group") (attr (codes "name") (codes "Blue")) none nil

abbrev usericon : Element
usericon =
    element (codes "link") (attr (codes "uid") (codes "A")) (some (codes "x y")) (cons group nil)

abbrev detail_elements : Elements
detail_elements =
    cons
      (element (codes "contact")
        ((codes "callsign", codes "HAMMER-6") ∷ (codes "endpoint", codes "*:-1:stcp") ∷ []) none
        nil)
      (cons group (cons usericon nil))

emit_members-detail_to_attributes_example :
    emit_members (detail_to_attributes {F = Text} detail_elements) ≡ detail_elements
unfolding is_plain find text_eq strip starts_with
emit_members-detail_to_attributes_example =
    emit_members-detail_to_attributes Text detail_elements refl

abbrev times : Times
times = record {
  from_iso = λ t. some (7, true);
  iso = λ n. some (codes "2026-05-20T12:00:00+00:00");
}

abbrev source : Source
source = record {
  source_system = codes "cot-xml-tcp:1.2.3.4:5";
  received_at = 9;
  raw_pointer = record {
    sha256 = codes "aa";
    object_key = codes "raw/1";
    size_bytes = 3;
    captured_at = 9;
  };
  uid = codes "0190";
}

abbrev sample_point : Element
sample_point =
    element (codes "point") ((codes "lat", codes "34.5") ∷ (codes "lon", codes "-77.4") ∷ []) none
      nil

abbrev root : Element
root =
    element (codes "event")
      ((codes "version", codes "2.0")
        ∷ (codes "uid", codes "ANDROID-1")
        ∷ (codes "type", codes "a-f-G")
        ∷ (codes "time", codes "t")
        ∷ (codes "start", codes "t")
        ∷ (codes "stale", codes "t")
        ∷ (codes "how", codes "m-g")
        ∷ (codes "access", codes "Undefined")
        ∷ [])
      none (cons sample_point (cons (element (codes "detail") [] none detail_elements) nil))

abbrev sample : Cto Text
sample = record {
  uid = codes "0190";
  source_uid = some (codes "ANDROID-1");
  source_system = codes "cot-xml-tcp:1.2.3.4:5";
  source_protocol = cot_xml;
  ingest_source = stream;
  received_at = 9;
  event_time = 7;
  valid_from = some 7;
  valid_to = some 7;
  classification = unclassified;
  object_class = track;
  symbology = record {
    cot_type = some (codes "a-f-G");
    sidc_2525c = none;
    affiliation = some friend;
    battle_dimension = some land;
  };
  geometry = point_at (codes "-77.4", codes "34.5");
  altitude = none;
  kinematics = none;
  callsign = some (codes "HAMMER-6");
  label = none;
  remarks = none;
  attributes = event_attributes text_floats root none;
  raw_pointer = some source.raw_pointer;
  provenance =
      record {
        step = codes "cot_xml_to_cto";
        actor = codes "gateway.normalizers.cot_xml";
        at = 9;
        notes = none;
        lossy_fields = [];
      }
      ∷ [];
}

sample_read : root_to_cto text_floats times source root ≡ normalized sample
unfolding root_to_cto event_cto parse_cot_type lookup find ends_with
sample_read = refl

get-cto_event_example :
    (e : Element) × (cto_event text_floats times sample ≡ some (e, []))
    × ((k : Text) → is_in k rewritten ≡ false → get k e ≡ get k root)
unfolding lookup text_eq
get-cto_event_example =
    get-cto_event text_floats times source root sample sample_read refl refl refl refl refl

detail_element-root_to_cto_example :
    (fields : Elements) × FieldsFit text_floats sample fields
    × (detail_element text_floats times sample
        ≡ element
            (codes "detail")
            []
            none
            (append_elements fields (without_tags (tags_of fields) detail_elements)))
unfolding is_plain find text_eq strip starts_with
detail_element-root_to_cto_example =
    detail_element-root_to_cto text_floats times source root sample sample_read refl

-- The contact loses its endpoint.
endpoint_lost :
    detail_element text_floats times sample
    ≡ element (codes "detail") [] none (
        cons
          (element (codes "contact") (attr (codes "callsign") (codes "HAMMER-6")) none nil)
          (cons group (cons usericon nil)))
unfolding without_tags is_in is_plain find text_eq strip starts_with
endpoint_lost = detail_element_lem text_floats times source root sample sample_read refl
