-- ===== src/Schema.antt =====
-- libs/cto_schema/src/cto_schema/models.py: the enumerations and the check of a geometry, with
-- `_geometry_to_wkt` of services/opstore/writer.py, which relies on it.
pub mod Wkt
pub mod Records
pub mod TextFloats
pub mod Pairs
mod Samples
use tactical_gateway.Base.{
  ℕ, suc, Bool, true, false, ◌&&◌, Option, none, some, List, [], ◌∷◌, ◌++◌, Text, codes, leb,
  if◌then◌else◌, ◌>>=ₒ◌,
}

pub data SourceProtocol : Type 0 where
  cot_xml cot_protobuf kmz ovl oth_gold usmtf other_protocol : SourceProtocol

pub data IngestSource : Type 0 where
  folder upload stream other_source : IngestSource

pub data ObjectClass : Type 0 where
  track area route point_class graphic : ObjectClass

pub data BattleDimension : Type 0 where
  land air sea_surface sea_subsurface space sof unknown_dimension : BattleDimension

pub data AltitudeSource : Type 0 where
  gps barometric derived unknown_source : AltitudeSource

pub data Classification : Type 0 where
  unclassified cui confidential secret top_secret : Classification

-- `_classification_to_db` on the values of the enumeration.
unfoldable pub classification_to_db : Classification → Text
classification_to_db unclassified = codes "U"
classification_to_db cui = codes "CUI"
classification_to_db confidential = codes "C"
classification_to_db secret = codes "S"
classification_to_db top_secret = codes "TS"

pub data GeometryType : Type 0 where
  point line_string polygon : GeometryType

-- A JSON value: a number with its text in an f-string, a list, a text, or something else.
mutual
  pub data Value : Type 0 where
    number : Text → Value
    items : Values → Value
    text : Text → Value
    other : Text → Value

  pub data Values : Type 0 where
    nil : Values
    cons : Value → Values → Values

unfoldable pub length : Values → ℕ
length nil = 0
length (cons v vs) = suc (length vs)

abbrev pub is_number : Value → Bool
is_number (number _) = true
is_number (items _) = false
is_number (text _) = false
is_number (other _) = false

-- A list of at least `n` values.
unfoldable pub is_list_of : ℕ → Value → Bool
unfolding length
is_list_of n (number _) = false
is_list_of n (items vs) = leb n (length vs)
is_list_of n (text _) = false
is_list_of n (other _) = false

unfoldable pub all_values : (Value → Bool) → Values → Bool
all_values p nil = true
all_values p (cons v vs) = p v && all_values p vs

abbrev pub two_numbers : Values → Bool
two_numbers nil = false
two_numbers (cons v nil) = false
two_numbers (cons v (cons w _)) = is_number v && is_number w

-- `validate_coordinates` of `Geometry`: `false` is a ValueError.
unfoldable pub validate_coordinates : GeometryType → Values → Bool
unfolding is_list_of all_values length
validate_coordinates point vs = two_numbers vs
validate_coordinates line_string vs = leb 2 (length vs) && all_values (is_list_of 2) vs
validate_coordinates polygon vs =
    leb 1 (length vs) && all_values (is_list_of 0) vs && all_values (is_list_of 4) vs

-- `shown` is the text of a list in an f-string.
module _ (shown : Values → Text) where
  abbrev pub text_of : Value → Text
  text_of (number t) = t
  text_of (items vs) = shown vs
  text_of (text t) = t
  text_of (other t) = t

  -- `f"{p[0]} {p[1]}"`; `none` is an IndexError or a TypeError.
  unfoldable pub pair_text : Value → Option Text
  pair_text (number _) = none
  pair_text (other _) = none
  pair_text (text []) = none
  pair_text (text (_ ∷ [])) = none
  pair_text (text (c ∷ d ∷ _)) = some (c ∷ (codes " " ++ (d ∷ [])))
  pair_text (items nil) = none
  pair_text (items (cons x nil)) = none
  pair_text (items (cons x (cons y _))) = some (text_of x ++ (codes " " ++ text_of y))

  -- `", ".join` of what `f` makes of the values.
  unfoldable pub join_with : (Value → Option Text) → Values → Option Text
  join_with f nil = some []
  join_with f (cons v nil) = f v
  join_with f (cons v (cons w ws)) =
      f v >>=ₒ λ s. join_with f (cons w ws) >>=ₒ λ t. some (s ++ (codes ", " ++ t))

  abbrev pub ring_text : Value → Option Text
  ring_text (number _) = none
  ring_text (other _) = none
  ring_text (text []) = some (codes "()")
  ring_text (text (_ ∷ _)) = none
  ring_text (items ps) = join_with pair_text ps >>=ₒ λ t. some (codes "(" ++ (t ++ codes ")"))

  unfoldable pub geometry_to_wkt : GeometryType → Values → Option Text
  unfolding pair_text join_with
  geometry_to_wkt point vs =
      pair_text (items vs) >>=ₒ λ t. some (codes "SRID=4326;POINT(" ++ (t ++ codes ")"))
  geometry_to_wkt line_string vs =
      join_with pair_text vs >>=ₒ λ t. some (codes "SRID=4326;LINESTRING(" ++ (t ++ codes ")"))
  geometry_to_wkt polygon vs =
      join_with ring_text vs >>=ₒ λ t. some (codes "SRID=4326;POLYGON(" ++ (t ++ codes ")"))
