-- ===== src/Schema/Records.antt =====
-- The records of libs/cto_schema/src/cto_schema/models.py, and the values that a dictionary of
-- attributes holds. `F` is the type of floats, and a time is a number.
use tactical_gateway.Base.{ℕ, Bool, Option, none, some, List, [], ◌∷◌, Text, if◌then◌else◌, text_eq}
use tactical_gateway.Schema.{
  SourceProtocol, IngestSource, ObjectClass, BattleDimension, AltitudeSource, Classification,
  GeometryType, point, line_string, polygon, Value, number, items, Values, nil, cons,
}
use tactical_gateway.Recognize.Affiliate.{Affiliation}

-- What the code uses of floats: parsing, `==`, the text in an f-string and with `n` decimals, the
-- tests against zero and against the sentinel 9999999 of CoT, and `float` of an integer.
pub record Floats (F : Type 0) : Type 0 where
  pub parse : Text → Option F
  pub same : F → F → Bool
  pub shown : F → Text
  pub fixed : ℕ → F → Text
  pub is_zero : F → Bool
  pub is_known : F → Bool
  pub of_integer : ℕ → F

pub record Altitude (F : Type 0) : Type 0 where
  pub value_m : F
  pub source : AltitudeSource
  pub accuracy_m : Option F

pub record Kinematics (F : Type 0) : Type 0 where
  pub course_deg : Option F
  pub speed_mps : Option F
  pub vertical_rate_mps : Option F

pub record Symbology : Type 0 where
  pub cot_type : Option Text
  pub sidc_2525c : Option Text
  pub affiliation : Option Affiliation
  pub battle_dimension : Option BattleDimension

pub record RawPointer : Type 0 where
  pub sha256 : Text
  pub object_key : Text
  pub size_bytes : ℕ
  pub captured_at : ℕ

pub record ProvenanceEntry : Type 0 where
  pub step : Text
  pub actor : Text
  pub at : ℕ
  pub notes : Option Text
  pub lossy_fields : List Text

-- The values of `attributes`.
mutual
  pub data Json (F : Type 0) : Type 0 where
    null : Json F
    boolean : Bool → Json F
    integer : ℕ → Json F
    float : F → Json F
    string : Text → Json F
    array : Items F → Json F
    object : Members F → Json F

  pub data Items (F : Type 0) : Type 0 where
    empty : Items F
    item : Json F → Items F → Items F

  pub data Members (F : Type 0) : Type 0 where
    end : Members F
    member : Text → Json F → Members F → Members F

-- A geometry of pairs of longitude and latitude.
pub data Geometry (F : Type 0) : Type 0 where
  point_at : F × F → Geometry F
  line_of : List (F × F) → Geometry F
  polygon_of : List (List (F × F)) → Geometry F

pub record Cto (F : Type 0) : Type 0 where
  pub uid : Text
  pub source_uid : Option Text
  pub source_system : Text
  pub source_protocol : SourceProtocol
  pub ingest_source : IngestSource
  pub received_at : ℕ
  pub event_time : ℕ
  pub valid_from : Option ℕ
  pub valid_to : Option ℕ
  pub classification : Classification
  pub object_class : ObjectClass
  pub symbology : Symbology
  pub geometry : Geometry F
  pub altitude : Option (Altitude F)
  pub kinematics : Option (Kinematics F)
  pub callsign : Option Text
  pub label : Option Text
  pub remarks : Option Text
  pub attributes : Members F
  pub raw_pointer : Option RawPointer
  pub provenance : List ProvenanceEntry

module _ {F : Type 0} where
  abbrev pub geometry_type : Geometry F → GeometryType
  geometry_type (point_at _) = point
  geometry_type (line_of _) = line_string
  geometry_type (polygon_of _) = polygon

  -- `d.get(k)` on a dictionary of attributes.
  unfoldable pub attribute : Text → Members F → Option (Json F)
  unfolding text_eq
  attribute k end = none
  attribute k (member k' v d) = if text_eq k' k then some v else attribute k d

  -- `d[k] = v`
  unfoldable pub set_attribute : Text → Json F → Members F → Members F
  unfolding text_eq
  set_attribute k v end = member k v end
  set_attribute k v (member k' w d) =
      if text_eq k' k then member k' v d else member k' w (set_attribute k v d)

module _ {F : Type 0} (floats : Floats F) where
  -- The coordinates as they stand in the dictionary of a geometry.
  abbrev pub pair_value : F × F → Value
  pair_value (x, y) = items (cons (number (floats.shown x)) (cons (number (floats.shown y)) nil))

  unfoldable pub pair_values : List (F × F) → Values
  pair_values [] = nil
  pair_values (p ∷ ps) = cons (pair_value p) (pair_values ps)

  unfoldable pub ring_values : List (List (F × F)) → Values
  unfolding pair_values
  ring_values [] = nil
  ring_values (r ∷ rs) = cons (items (pair_values r)) (ring_values rs)

  unfoldable pub coordinates : Geometry F → Values
  unfolding pair_values ring_values
  coordinates (point_at (x, y)) =
      cons (number (floats.shown x)) (cons (number (floats.shown y)) nil)
  coordinates (line_of ps) = pair_values ps
  coordinates (polygon_of rs) = ring_values rs
