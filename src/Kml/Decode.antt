-- ===== src/Kml/Decode.antt =====
-- `_placemark_to_cto` and `kmz_to_ctos` of services/gateway/kmz_parser.py.
use tactical_gateway.Base.{
  ℕ, ◌+◌, Bool, true, false, Option, none, some, is_some, List, [], ◌∷◌, ◌++◌, Text, codes, strip,
  lower, lower_char, ends_with, if◌then◌else◌, ◌>>=ₒ◌,
}
use tactical_gateway.Base.Dict.{lookup}
use tactical_gateway.Xml.{Element, text_of, get}
use tactical_gateway.Schema.{
  GeometryType, point, line_string, polygon, IngestSource, kmz, graphic, unclassified,
}
use tactical_gateway.Schema.Records.{
  Floats, Geometry, geometry_type, RawPointer, string, integer, object, Members, end, member, Cto,
}
use tactical_gateway.Opstore.Columns.{ingest_source_value}
use tactical_gateway.Recognize.Affiliate.{Affiliation, affiliation_from_explicit_sidc}
use tactical_gateway.Recognize.Table
use tactical_gateway.Recognize.Table.{GeometryShape}
use tactical_gateway.Recognize.Pipeline.{RecognitionResult, recognize}
use tactical_gateway.CotXml.Ingest.{Normalized, normalized, ◌>>=ₙ◌, or_refused, or_raised}
use tactical_gateway.CotXml.Detail.{attrib_members}
use tactical_gateway.Kml.Tree.{named, iter, direct_find_ns}
use tactical_gateway.Kml.Placemark.{placemark_geometry, placemark_extended_data}

-- What a call of `kmz_to_ctos` is given, with the UUIDs that `uuid7` gives, the configured default
-- affiliation, and `json.dumps` of the notes on the recognition, which
-- also say whether a code was given and whether the affiliation is that of the code.
pub record Request : Type 0 where
  pub filename : Text
  pub source_system : Text
  pub received_at : ℕ
  pub raw_pointer : RawPointer
  pub ingest_source : IngestSource
  pub uuid : ℕ → Text
  pub default_affiliation : Option Text
  pub notes : RecognitionResult → Bool → Bool → Text

abbrev pub shape_of : GeometryType → GeometryShape
shape_of point = Table.point
shape_of line_string = Table.line_string
shape_of polygon = Table.polygon

-- The text of an element without white space at its ends, if that is not empty.
abbrev nonempty_text : Text → Option Text
nonempty_text [] = none
nonempty_text (c ∷ t) = some (c ∷ t)

abbrev pub label_text : Option Element → Option Text
label_text o = o >>=ₒ λ e. text_of e >>=ₒ λ t. nonempty_text (strip t)

-- `a or b`
abbrev pub or_text : Option Text → Option Text → Option Text
or_text none b = b
or_text (some []) b = b
or_text (some (c ∷ t)) b = some (c ∷ t)

abbrev pub explicit_sidc : List (Text × Text) → Option Text
explicit_sidc d = or_text (lookup (codes "sidc") d) (lookup (codes "SIDC") d)

abbrev pub effective_sidc : Option Text → Text → Text
effective_sidc none sidc = sidc
effective_sidc (some []) sidc = sidc
effective_sidc (some (c ∷ t)) sidc = c ∷ t

abbrev pub or_recognized : Option Affiliation → Affiliation → Affiliation × Bool
or_recognized none a = (a, false)
or_recognized (some b) a = (b, true)

-- The affiliation, and whether it is that of the explicit code.
abbrev pub effective_affiliation : Option Text → Affiliation → Affiliation × Bool
effective_affiliation none a = (a, false)
effective_affiliation (some []) a = (a, false)
effective_affiliation (some (c ∷ t)) a = or_recognized (affiliation_from_explicit_sidc (c ∷ t)) a

abbrev sidc_lossy : Option Text → List Text
sidc_lossy none = codes "sidc_2525c" ∷ []
sidc_lossy (some []) = codes "sidc_2525c" ∷ []
sidc_lossy (some (c ∷ t)) = []

abbrev pub recognition_lossy : Option Text → Bool → List Text
recognition_lossy explicit from_explicit =
    sidc_lossy explicit ++ (if from_explicit then [] else codes "affiliation" ∷ [])

module _ {F : Type 0} where
  abbrev with_text : Text → Option Text → Members F → Members F
  with_text k none d = d
  with_text k (some []) d = d
  with_text k (some (c ∷ t)) d = member k (string (c ∷ t)) d

  abbrev with_extended : List (Text × Text) → Members F → Members F
  with_extended [] d = d
  with_extended (x ∷ xs) d = member (codes "kmz_extended_data") (object (attrib_members (x ∷ xs))) d

  abbrev pub placemark_attributes :
      Request → ℕ → List (Text × Text) → Option Text → Option Text → Option Text → Members F
  placemark_attributes q idx ext kind description id =
      member (codes "kmz_feature_index") (integer idx) (
        member (codes "parent_kmz_uri") (string q.raw_pointer.object_key) (
          member (codes "parent_kmz_filename") (string q.filename) (
            member (codes "parent_kmz_source") (string (ingest_source_value q.ingest_source)) (
              with_extended ext (
                with_text (codes "graphic_kind") kind (
                  with_text (codes "kmz_description") description
                    (with_text (codes "kmz_placemark_id") id end)))))))

  abbrev pub recognized_cto : Request → ℕ → Element → Geometry F → RecognitionResult → Cto F
  recognized_cto q idx placemark g r =
      let name = label_text (direct_find_ns (codes "name") placemark) in
      let description = label_text (direct_find_ns (codes "description") placemark) in
      let ext = placemark_extended_data placemark in
      let explicit = explicit_sidc ext in
      let (affiliation, from_explicit) = effective_affiliation explicit r.affiliation in
      record {
        uid = q.uuid idx;
        source_uid = get (codes "id") placemark;
        source_system = q.source_system;
        source_protocol = kmz;
        ingest_source = q.ingest_source;
        received_at = q.received_at;
        event_time = q.received_at;
        valid_from = none;
        valid_to = none;
        classification = unclassified;
        object_class = graphic;
        symbology = record {
          cot_type = none;
          sidc_2525c = some (effective_sidc explicit r.sidc);
          affiliation = some affiliation;
          battle_dimension = none;
        };
        geometry = g;
        altitude = none;
        kinematics = none;
        callsign = none;
        label = name;
        remarks = description;
        attributes =
            placemark_attributes q idx ext r.doctrinal_kind description
              (get (codes "id") placemark);
        raw_pointer = some q.raw_pointer;
        provenance =
            record {
              step = codes "kmz_to_cto";
              actor = codes "gateway.kmz_parser";
              at = q.received_at;
              notes = none;
              lossy_fields = [];
            }
            ∷ record {
              step = codes "kmz_label_recognized";
              actor = codes "gateway.kmz_recognizer";
              at = q.received_at;
              notes = some (q.notes r (is_some explicit) from_explicit);
              lossy_fields = recognition_lossy explicit from_explicit;
            }
            ∷ [];
      }

  -- A placemark without a geometry is skipped.
  abbrev pub geometry_to_cto :
      Request → ℕ → Element → Option (Geometry F) → Normalized (Option (Cto F))
  geometry_to_cto q idx placemark none = normalized none
  geometry_to_cto q idx placemark (some g) =
      or_raised (
        recognize q.default_affiliation (label_text (direct_find_ns (codes "name") placemark))
          (label_text (direct_find_ns (codes "description") placemark))
          (shape_of (geometry_type g)))
      >>=ₙ λ r. normalized (some (recognized_cto q idx placemark g r))

  abbrev pub prepend : Option (Cto F) → List (Cto F) → List (Cto F)
  prepend none cs = cs
  prepend (some c) cs = c ∷ cs

-- The entry of an archive with the primary document: doc.kml, or else the first one that ends in
-- .kml. The bytes are missing where `zf.read` raises.
unfoldable pub first_kml : List (Text × Option (List ℕ)) → Option (Option (List ℕ))
unfolding ends_with lower_char
first_kml [] = none
first_kml ((name, data_) ∷ entries) =
    if ends_with (lower name) (codes ".kml") then some data_ else first_kml entries

abbrev doc_or_first :
    Option (Option (List ℕ)) → List (Text × Option (List ℕ)) → Option (Option (List ℕ))
doc_or_first none entries = first_kml entries
doc_or_first (some d) entries = some d

unfoldable pub read_primary_kml : List (Text × Option (List ℕ)) → Normalized (List ℕ)
unfolding lookup first_kml
read_primary_kml entries =
    or_refused (doc_or_first (lookup (codes "doc.kml") entries) entries) >>=ₙ or_raised

module _ {F : Type 0} (floats : Floats F) where
  unfoldable pub placemark_to_cto : Request → ℕ → Element → Normalized (Option (Cto F))
  unfolding strip lookup
  placemark_to_cto q idx placemark =
      placemark_geometry floats placemark >>=ₙ geometry_to_cto q idx placemark

  -- The loop over the placemarks, from the `idx`th on.
  unfoldable pub placemark_ctos : Request → ℕ → List Element → Normalized (List (Cto F))
  unfolding placemark_to_cto
  placemark_ctos q idx [] = normalized []
  placemark_ctos q idx (p ∷ ps) =
      let rest = placemark_ctos q (idx + 1) ps in
      placemark_to_cto q idx p >>=ₙ λ o. rest >>=ₙ λ cs. normalized (prepend o cs)

  -- `unzip` gives the entries of the archive, if it is one, and `from_string` is the parser of the XML.
  unfoldable pub kmz_to_ctos :
      (List ℕ → Option (List (Text × Option (List ℕ))))
      → (List ℕ → Option Element)
      → Request
      → List ℕ
      → Normalized (List (Cto F))
  unfolding named iter
  kmz_to_ctos unzip from_string q kmz_bytes =
      or_refused (unzip kmz_bytes) >>=ₙ read_primary_kml >>=ₙ λ kml.
      or_refused (from_string kml) >>=ₙ λ root.
      placemark_ctos q 0 (named (codes "Placemark") (iter root))
