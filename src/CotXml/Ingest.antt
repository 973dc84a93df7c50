-- ===== src/CotXml/Ingest.antt =====
-- `cot_xml_to_cto` of services/gateway/normalizers/cot_xml.py: an event as a CTO.
use tactical_gateway.Base.{
  ℕ, ◌-◌, Bool, false, ◌&&◌, ◌||◌, not, Option, none, some, List, [], ◌∷◌, ◌++◌, Text, codes,
  text_eq, strip, ends_with, length, take, if◌then◌else◌, ◌>>=ₒ◌,
}
use tactical_gateway.Xml.{
  Element, Elements, nil, tag_of, attrib_of, text_of, children_of, get, find,
}
use tactical_gateway.Schema.{unknown_source, cot_xml, stream, track, unclassified}
use tactical_gateway.Schema.Records.{
  Floats, Altitude, Kinematics, RawPointer, string, object, float, Members, end, member, Cto,
  point_at,
}
use tactical_gateway.CotXml.Types.{parse_cot_type}
use tactical_gateway.CotXml.Detail.{attrib_members, detail_to_attributes}

-- The end of a normalizer: a CTO, its own error (`CoTXmlParseError`), or another exception.
pub data Normalized {ℓ} (A : Type ℓ) : Type ℓ where
  normalized : A → Normalized A
  refused : Normalized A
  raised : Normalized A

infixl 5 ◌>>=ₙ◌
abbrev pub ◌>>=ₙ◌ {ℓ κ} :
    {A : Type ℓ} {B : Type κ} → Normalized A → (A → Normalized B) → Normalized B
normalized a >>=ₙ f = f a
refused >>=ₙ f = refused
raised >>=ₙ f = raised

-- What the code uses of dates: `fromisoformat`, with whether the time has an offset, and
-- `astimezone().isoformat()`, which raises at the ends of the calendar (`none`).
pub record Times : Type 0 where
  pub from_iso : Text → Option (ℕ × Bool)
  pub iso : ℕ → Option Text

-- What a call is given beside the event, and the UUID that `uuid7` gives.
pub record Source : Type 0 where
  pub source_system : Text
  pub received_at : ℕ
  pub raw_pointer : RawPointer
  pub uid : Text

abbrev pub or_refused {ℓ} : {A : Type ℓ} → Option A → Normalized A
or_refused none = refused
or_refused (some a) = normalized a

abbrev pub or_raised {ℓ} : {A : Type ℓ} → Option A → Normalized A
or_raised none = raised
or_raised (some a) = normalized a

abbrev pub require_attr : Element → Text → Normalized Text
require_attr e k = or_refused (get k e)

abbrev pub parse_iso : Times → Text → Normalized (ℕ × Bool)
parse_iso times v = or_raised (
    times.from_iso (if ends_with v (codes "Z") then take (length v - 1) v ++ codes "+00:00" else v))

abbrev pub known_event_attrs : List Text
known_event_attrs =
    codes "version"
    ∷ codes "uid"
    ∷ codes "type"
    ∷ codes "time"
    ∷ codes "start"
    ∷ codes "stale"
    ∷ codes "how"
    ∷ []

unfoldable pub is_in : Text → List Text → Bool
unfolding text_eq
is_in k [] = false
is_in k (k' ∷ ks) = text_eq k' k || is_in k ks

-- The attributes of the event that are not known.
unfoldable pub extras_of : List (Text × Text) → List (Text × Text)
unfolding is_in
extras_of [] = []
extras_of ((k, v) ∷ a) =
    let rest = extras_of a in if is_in k known_event_attrs then rest else (k, v) ∷ rest

abbrev pub stripped_remarks : Option Text → Option Text
stripped_remarks none = none
stripped_remarks (some []) = none
stripped_remarks (some (c ∷ t)) = some (strip (c ∷ t))

abbrev pub detail_callsign : Elements → Option Text
detail_callsign es = find (codes "contact") es >>=ₒ get (codes "callsign")

abbrev pub detail_remarks : Elements → Option Text
detail_remarks es = find (codes "remarks") es >>=ₒ λ e. stripped_remarks (text_of e)

abbrev pub detail_children : Option Element → Elements
detail_children none = nil
detail_children (some e) = children_of e

module _ {F : Type 0} where
  abbrev pub with_detail : Option Element → Members F → Members F
  with_detail none d = d
  with_detail (some e) d =
      member (codes "cot_detail") (object (detail_to_attributes (children_of e))) d

  abbrev pub with_extras : List (Text × Text) → Members F → Members F
  with_extras [] d = d
  with_extras (x ∷ xs) d = member (codes "cot_event_extras") (object (attrib_members (x ∷ xs))) d

  abbrev pub with_how : Option Text → Members F → Members F
  with_how none d = d
  with_how (some h) d = member (codes "cot_how") (string h) d

module _ {F : Type 0} (floats : Floats F) where
  -- `float(le)` below the sentinel; the outer `none` is a ValueError.
  abbrev pub accuracy_of : Option Text → Option (Option F)
  accuracy_of none = some none
  accuracy_of (some t) = floats.parse t >>=ₒ λ x. some (if floats.is_known x then some x else none)

  abbrev pub altitude_of : Option Text → Option Text → Option (Altitude F)
  altitude_of none le = none
  altitude_of (some t) le = floats.parse t >>=ₒ λ hae. accuracy_of le >>=ₒ λ acc.
      some (record { value_m = hae; source = unknown_source; accuracy_m = acc })

  abbrev pub float_or_none : Option Text → Option (Option F)
  float_or_none none = some none
  float_or_none (some []) = some none
  float_or_none (some (c ∷ t)) = floats.parse (c ∷ t) >>=ₒ λ x. some (some x)

  abbrev pub kinematics_of : Option Element → Option (Kinematics F)
  kinematics_of none = none
  kinematics_of (some e) = float_or_none (get (codes "course") e) >>=ₒ λ course.
      float_or_none (get (codes "speed") e) >>=ₒ λ speed.
      some (record { course_deg = course; speed_mps = speed; vertical_rate_mps = none })

  abbrev accuracy_member : Option F → Members F
  accuracy_member none = end
  accuracy_member (some x) =
      if floats.is_known x then member (codes "cot_horizontal_accuracy_m") (float x) end else end

  abbrev pub horizontal_accuracy : Option Text → Members F
  horizontal_accuracy none = end
  horizontal_accuracy (some t) = accuracy_member (floats.parse t)

  -- The attributes, in the order in which the code sets them.
  abbrev pub event_attributes : Element → Option Text → Members F
  event_attributes root ce = with_detail (find (codes "detail") (children_of root)) (
      with_extras (extras_of (attrib_of root))
        (with_how (get (codes "how") root) (horizontal_accuracy ce)))

  -- The CTO of an event and its point; a time without an offset is a ValidationError.
  unfoldable pub event_cto :
      Source
      → Element
      → Element
      → Text
      → Text
      → ℕ × Bool
      → ℕ × Bool
      → ℕ × Bool
      → F
      → F
      → Normalized (Cto F)
  unfolding find
  event_cto src root point cot_type source_uid (time, aware) (start, aware') (stale, aware'') lat
        lon =
      let inner = detail_children (find (codes "detail") (children_of root)) in
      if not (aware && (aware' && aware''))
      then raised
      else normalized (record {
        uid = src.uid;
        source_uid = some source_uid;
        source_system = src.source_system;
        source_protocol = cot_xml;
        ingest_source = stream;
        received_at = src.received_at;
        event_time = time;
        valid_from = some start;
        valid_to = some stale;
        classification = unclassified;
        object_class = track;
        symbology = record {
          cot_type = some cot_type;
          sidc_2525c = none;
          affiliation = (parse_cot_type cot_type).0;
          battle_dimension = (parse_cot_type cot_type).1;
        };
        geometry = point_at (lon, lat);
        altitude = altitude_of (get (codes "hae") point) (get (codes "le") point);
        kinematics = kinematics_of (find (codes "track") inner);
        callsign = detail_callsign inner;
        label = none;
        remarks = detail_remarks inner;
        attributes = event_attributes root (get (codes "ce") point);
        raw_pointer = some src.raw_pointer;
        provenance =
            record {
              step = codes "cot_xml_to_cto";
              actor = codes "gateway.normalizers.cot_xml";
              at = src.received_at;
              notes = none;
              lossy_fields = [];
            }
            ∷ [];
      })

  unfoldable pub root_to_cto : Times → Source → Element → Normalized (Cto F)
  unfolding text_eq find
  root_to_cto times src root =
      if not (text_eq (tag_of root) (codes "event"))
      then refused
      else (require_attr root (codes "type") >>=ₙ λ cot_type.
          require_attr root (codes "uid") >>=ₙ λ source_uid.
          require_attr root (codes "time") >>=ₙ parse_iso times >>=ₙ λ time.
          require_attr root (codes "start") >>=ₙ parse_iso times >>=ₙ λ start.
          require_attr root (codes "stale") >>=ₙ parse_iso times >>=ₙ λ stale.
          or_refused (find (codes "point") (children_of root)) >>=ₙ λ point.
          require_attr point (codes "lat") >>=ₙ λ lat_text.
          or_raised (floats.parse lat_text) >>=ₙ λ lat.
          require_attr point (codes "lon") >>=ₙ λ lon_text.
          or_raised (floats.parse lon_text) >>=ₙ λ lon.
          event_cto src root point cot_type source_uid time start stale lat lon)

  -- `from_string` is the parser of the XML: a root, the ParseError that is caught (`refused`), or
  -- another exception (`raised`).
  unfoldable pub cot_xml_to_cto :
      (List ℕ → Normalized Element) → Times → Source → List ℕ → Normalized (Cto F)
  cot_xml_to_cto from_string times src data_ = from_string data_ >>=ₙ root_to_cto times src
