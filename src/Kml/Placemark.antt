-- ===== src/Kml/Placemark.antt =====
-- `_placemark_geometry` and `_placemark_extended_data` of services/gateway/kmz_parser.py.
use tactical_gateway.Base.{
  Bool, ◌||◌, ◌&&◌, Option, none, some, List, [], ◌∷◌, ◌++◌, Text, codes, text_eq, strip, last_or,
  leb, length, if◌then◌else◌, ◌>>=ₒ◌,
}
use tactical_gateway.Base.Dict.{store}
use tactical_gateway.Xml.{Element, element, Elements, nil, cons, tag_of, text_of, children_of, get}
use tactical_gateway.Schema.{polygon, validate_coordinates}
use tactical_gateway.Schema.Records.{Floats, Geometry, point_at, line_of, polygon_of, ring_values}
use tactical_gateway.CotXml.Ingest.{Normalized, normalized, refused, raised, ◌>>=ₙ◌, or_refused}
use tactical_gateway.Kml.Tree.{strip_ns, findall_ns, find_ns, direct_find_ns}
use tactical_gateway.Kml.Coordinates.{parse_coordinates}

abbrev nonempty : Option Text → Option Text
nonempty none = none
nonempty (some []) = none
nonempty (some (c ∷ t)) = some (c ∷ t)

-- The text of the `coordinates` child, if it is not empty.
abbrev pub coordinates_text : Element → Option Text
coordinates_text e = direct_find_ns (codes "coordinates") e >>=ₒ λ c. nonempty (text_of c)

abbrev pub is_shape : Element → Bool
is_shape e =
    let tag = strip_ns (tag_of e) in
    text_eq tag (codes "Point")
    || (text_eq tag (codes "LineString") || text_eq tag (codes "Polygon"))

unfoldable pub first_shape : Elements → Option Element
unfolding strip_ns text_eq
first_shape nil = none
first_shape (cons e es) = if is_shape e then some e else first_shape es

-- One pair of `Data`, if it has a name and a value.
abbrev store_pair : Option Text → Option Text → List (Text × Text) → List (Text × Text)
store_pair (some k) (some v) d = store k (strip v) d
store_pair _ _ d = d

abbrev value_text : Element → Option Text
value_text item = direct_find_ns (codes "value") item >>=ₒ λ v. nonempty (text_of v)

unfoldable pub extended_pairs : List Element → List (Text × Text) → List (Text × Text)
unfolding store strip
extended_pairs [] d = d
extended_pairs (item ∷ items) d =
    extended_pairs items (store_pair (nonempty (get (codes "name") item)) (value_text item) d)

abbrev extended_of : Option Element → List (Text × Text)
extended_of none = []
extended_of (some ext) = extended_pairs (findall_ns (codes "Data") ext) []

unfoldable pub placemark_extended_data : Element → List (Text × Text)
unfolding extended_pairs
placemark_extended_data placemark = extended_of (direct_find_ns (codes "ExtendedData") placemark)

module _ {F : Type 0} (floats : Floats F) where
  -- The points of a shape; without coordinates there are none, and `refused` is a KmzParseError.
  abbrev points_in : Option Text → Normalized (List (F × F))
  points_in none = normalized []
  points_in (some t) = or_refused (parse_coordinates floats t)

  abbrev pub shape_points : Option Element → Normalized (List (F × F))
  shape_points none = normalized []
  shape_points (some e) = points_in (coordinates_text e)

  abbrev pub point_geometry : List (F × F) → Normalized (Option (Geometry F))
  point_geometry [] = normalized none
  point_geometry (p ∷ _) = normalized (some (point_at p))

  abbrev pub line_geometry : List (F × F) → Normalized (Option (Geometry F))
  line_geometry ps = if leb 2 (length ps) then normalized (some (line_of ps)) else normalized none

  abbrev same_pair : F × F → F × F → Bool
  same_pair (x, y) (x', y') = floats.same x x' && floats.same y y'

  unfoldable pub closed_ring : List (F × F) → List (F × F)
  closed_ring [] = []
  closed_ring (p ∷ ps) = if same_pair p (last_or p ps) then p ∷ ps else p ∷ (ps ++ (p ∷ []))

  -- The ring of a boundary, if it has three points.
  abbrev rings_of : List (F × F) → List (List (F × F))
  rings_of ps = if leb 3 (length ps) then closed_ring ps ∷ [] else []

  abbrev pub boundary_rings : Element → Normalized (List (List (F × F)))
  boundary_rings e =
      shape_points (find_ns (codes "LinearRing") e) >>=ₙ λ ps. normalized (rings_of ps)

  unfoldable pub all_rings : List Element → Normalized (List (List (F × F)))
  unfolding closed_ring
  all_rings [] = normalized []
  all_rings (e ∷ es) =
      let rest = all_rings es in boundary_rings e >>=ₙ λ rs. rest >>=ₙ λ rs'. normalized (rs ++ rs')

  abbrev outer_boundary : Option Element → List Element
  outer_boundary none = []
  outer_boundary (some e) = e ∷ []

  -- `Geometry(type="Polygon", coordinates=rings)`; `raised` is a ValidationError.
  abbrev pub polygon_geometry : List (List (F × F)) → Normalized (Option (Geometry F))
  polygon_geometry [] = normalized none
  polygon_geometry (r ∷ rs) =
      if validate_coordinates polygon (ring_values floats (r ∷ rs))
      then normalized (some (polygon_of (r ∷ rs)))
      else raised

  abbrev pub shape_rings : Option Element → Normalized (List (List (F × F)))
  shape_rings none = normalized []
  shape_rings (some p) = all_rings (
      outer_boundary (find_ns (codes "outerBoundaryIs") p)
      ++ findall_ns (codes "innerBoundaryIs") p)

  -- The next shape, if this one gives no geometry.
  abbrev pub or_next :
      Normalized (Option (Geometry F))
      → Normalized (Option (Geometry F))
      → Normalized (Option (Geometry F))
  or_next (normalized none) next = next
  or_next (normalized (some g)) next = normalized (some g)
  or_next refused next = refused
  or_next raised next = raised

  abbrev pub simple_geometry : Element → Normalized (Option (Geometry F))
  simple_geometry placemark =
      or_next (shape_points (direct_find_ns (codes "Point") placemark) >>=ₙ point_geometry) (
        or_next (shape_points (direct_find_ns (codes "LineString") placemark) >>=ₙ line_geometry)
          (shape_rings (direct_find_ns (codes "Polygon") placemark) >>=ₙ polygon_geometry))

  -- The call on a placemark that holds the first shape of a MultiGeometry alone.
  abbrev pub shape_geometry : Option Element → Normalized (Option (Geometry F))
  shape_geometry none = normalized none
  shape_geometry (some e) = simple_geometry (element (codes "Placemark") [] none (cons e nil))

  abbrev pub multi_geometry : Option Element → Normalized (Option (Geometry F))
  multi_geometry none = normalized none
  multi_geometry (some m) = shape_geometry (first_shape (children_of m))

  unfoldable pub placemark_geometry : Element → Normalized (Option (Geometry F))
  unfolding all_rings first_shape
  placemark_geometry placemark =
      or_next (simple_geometry placemark)
        (multi_geometry (direct_find_ns (codes "MultiGeometry") placemark))
