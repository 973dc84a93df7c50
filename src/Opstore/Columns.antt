-- ===== src/Opstore/Columns.antt =====
-- The columns that `_cto_insert_sql_and_params` of services/opstore/writer.py fills from the fields of
-- a CTO, and these fields (libs/cto_schema/src/cto_schema/models.py). `F` is the type of floats.
use tactical_gateway.Base.{ℕ, Option, none, some, List, [], Text, codes, ◌>>=ₒ◌}
use tactical_gateway.Base.Dict.{lookup}
use tactical_gateway.Schema.{
  SourceProtocol, cot_xml, cot_protobuf, kmz, ovl, oth_gold, usmtf, other_protocol, IngestSource,
  folder, upload, stream, other_source, ObjectClass, track, area, route, point_class, graphic,
  BattleDimension, land, air, sea_surface, sea_subsurface, space, sof, unknown_dimension,
  AltitudeSource, gps, barometric, derived, unknown_source, Classification, classification_to_db,
  GeometryType, Values, geometry_to_wkt,
}
use tactical_gateway.Schema.Records.{Altitude, Kinematics, Symbology, RawPointer, ProvenanceEntry}
use tactical_gateway.Recognize.Affiliate.{affil_name}
use tactical_gateway.Opstore.{Cto, Attributes}

unfoldable pub source_protocol_value : SourceProtocol → Text
source_protocol_value cot_xml = codes "cot_xml"
source_protocol_value cot_protobuf = codes "cot_protobuf"
source_protocol_value kmz = codes "kmz"
source_protocol_value ovl = codes "ovl"
source_protocol_value oth_gold = codes "oth_gold"
source_protocol_value usmtf = codes "usmtf"
source_protocol_value other_protocol = codes "other"

unfoldable pub ingest_source_value : IngestSource → Text
ingest_source_value folder = codes "folder"
ingest_source_value upload = codes "upload"
ingest_source_value stream = codes "stream"
ingest_source_value other_source = codes "other"

unfoldable pub object_class_value : ObjectClass → Text
object_class_value track = codes "track"
object_class_value area = codes "area"
object_class_value route = codes "route"
object_class_value point_class = codes "point"
object_class_value graphic = codes "graphic"

unfoldable pub battle_dimension_value : BattleDimension → Text
battle_dimension_value land = codes "land"
battle_dimension_value air = codes "air"
battle_dimension_value sea_surface = codes "sea_surface"
battle_dimension_value sea_subsurface = codes "sea_subsurface"
battle_dimension_value space = codes "space"
battle_dimension_value sof = codes "sof"
battle_dimension_value unknown_dimension = codes "unknown"

unfoldable pub altitude_source_value : AltitudeSource → Text
altitude_source_value gps = codes "gps"
altitude_source_value barometric = codes "barometric"
altitude_source_value derived = codes "derived"
altitude_source_value unknown_source = codes "unknown"

-- The fields of a CTO but those that the write path reads one by one.
pub record Fields (F : Type 0) : Type 0 where
  pub source_uid : Option Text
  pub source_protocol : SourceProtocol
  pub ingest_source : IngestSource
  pub event_time : ℕ
  pub valid_from : Option ℕ
  pub classification : Classification
  pub object_class : ObjectClass
  pub symbology : Symbology
  pub geometry_type : GeometryType
  pub coordinates : Values
  pub altitude : Option (Altitude F)
  pub kinematics : Option (Kinematics F)
  pub callsign : Option Text
  pub label : Option Text
  pub remarks : Option Text
  pub raw_pointer : Option RawPointer
  pub provenance : List ProvenanceEntry

-- The columns.
pub record Columns (F : Type 0) : Type 0 where
  pub source_uid : Option Text
  pub source_system : Text
  pub source_protocol : Text
  pub received_at : ℕ
  pub event_time : ℕ
  pub valid_from : Option ℕ
  pub classification : Text
  pub object_class : Text
  pub geom_wkt : Text
  pub altitude_m : Option F
  pub altitude_source : Option Text
  pub altitude_accuracy_m : Option F
  pub course_deg : Option F
  pub speed_mps : Option F
  pub vertical_rate_mps : Option F
  pub sidc_2525d : Option Text
  pub cot_type : Option Text
  pub affiliation : Option Text
  pub battle_dimension : Option Text
  pub callsign : Option Text
  pub label : Option Text
  pub remarks : Option Text
  pub attributes : Text
  pub provenance : Text
  pub raw_sha256 : Text
  pub raw_object_key : Text
  pub raw_size_bytes : ℕ
  pub raw_captured_at : ℕ
  pub ingest_source : Text
  pub parent_kmz_uri : Option Text

abbrev pub pointer_or_empty : ℕ → Option RawPointer → RawPointer
pointer_or_empty received_at none = record {
  sha256 = [];
  object_key = [];
  size_bytes = 0;
  captured_at = received_at;
}
pointer_or_empty received_at (some p) = p

abbrev pub map_option {ℓ κ} : {A : Type ℓ} {B : Type κ} → (A → B) → Option A → Option B
map_option f none = none
map_option f (some a) = some (f a)

-- `shown` is a list in an f-string; the other two stand for `json.dumps`.
module _ {F : Type 0} (shown : Values → Text) (attributes_json : Attributes → Text)
    (provenance_json : List ProvenanceEntry → Text) where
  -- `none` is the raise of `_geometry_to_wkt`.
  unfoldable pub columns : Cto (Fields F) → Option (Columns F)
  columns cto =
      let f = cto.rest in
      let rp = pointer_or_empty cto.received_at f.raw_pointer in
      geometry_to_wkt shown f.geometry_type f.coordinates >>=ₒ λ wkt. some (record {
        source_uid = f.source_uid;
        source_system = cto.source_system;
        source_protocol = source_protocol_value f.source_protocol;
        received_at = cto.received_at;
        event_time = f.event_time;
        valid_from = f.valid_from;
        classification = classification_to_db f.classification;
        object_class = object_class_value f.object_class;
        geom_wkt = wkt;
        altitude_m = map_option (λ (a : Altitude F). a.value_m) f.altitude;
        altitude_source =
            map_option (λ (a : Altitude F). altitude_source_value a.source) f.altitude;
        altitude_accuracy_m = f.altitude >>=ₒ λ (a : Altitude F). a.accuracy_m;
        course_deg = f.kinematics >>=ₒ λ (k : Kinematics F). k.course_deg;
        speed_mps = f.kinematics >>=ₒ λ (k : Kinematics F). k.speed_mps;
        vertical_rate_mps = f.kinematics >>=ₒ λ (k : Kinematics F). k.vertical_rate_mps;
        sidc_2525d = f.symbology.sidc_2525c;
        cot_type = f.symbology.cot_type;
        affiliation = map_option affil_name f.symbology.affiliation;
        battle_dimension = map_option battle_dimension_value f.symbology.battle_dimension;
        callsign = f.callsign;
        label = f.label;
        remarks = f.remarks;
        attributes = attributes_json cto.attributes;
        provenance = provenance_json f.provenance;
        raw_sha256 = rp.sha256;
        raw_object_key = rp.object_key;
        raw_size_bytes = rp.size_bytes;
        raw_captured_at = rp.captured_at;
        ingest_source = ingest_source_value f.ingest_source;
        parent_kmz_uri = lookup (codes "parent_kmz_uri") cto.attributes;
      })
