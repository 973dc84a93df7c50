-- ===== src/Kml/Valid.antt =====
-- The geometries that are found in placemarks pass the check of the schema.
use mathlib.Core.Path.{subst}
use tactical_gateway.Base.{
  ◌≡◌, refl, inl, inr, true, Option, none, some, List, [], ◌∷◌, Bool-cases, leb, leb→le, length,
  codes,
}
use tactical_gateway.Xml.{Element, element, nil, cons, children_of}
use tactical_gateway.Schema.{polygon, validate_coordinates}
use tactical_gateway.Schema.Records.{Floats, Geometry, geometry_type, coordinates, ring_values}
use tactical_gateway.Schema.Pairs.{valid_line}
use tactical_gateway.CotXml.Ingest.{Normalized, normalized, refused, raised}
use tactical_gateway.CotXml.Results.{Holds, Holds-bind}
use tactical_gateway.Kml.Tree.{direct_find_ns}
use tactical_gateway.Kml.Placemark.{
  shape_points, shape_rings, shape_geometry, point_geometry, line_geometry, polygon_geometry,
  or_next, simple_geometry, multi_geometry, first_shape, placemark_geometry,
}

module _ {F : Type 0} (floats : Floats F) where
  -- A geometry, if there is one, passes the check.
  abbrev IsTaken : Option (Geometry F) → Type 0
  IsTaken none = Unit {0}
  IsTaken (some g) = validate_coordinates (geometry_type g) (coordinates floats g) ≡ true

  point_geometry-IsTaken : (ps : List (F × F)) → Holds IsTaken (point_geometry floats ps)
  unfolding validate_coordinates coordinates
  point_geometry-IsTaken [] = tt
  point_geometry-IsTaken ((x, y) ∷ ps) = refl

  line_geometry-IsTaken : (ps : List (F × F)) → Holds IsTaken (line_geometry floats ps)
  unfolding coordinates
  line_geometry-IsTaken ps = elim (Bool-cases (leb 2 (length ps))) [
    | inl yes_ ↦ rw yes_ (valid_line floats ps (leb→le 2 (length ps) yes_))
    | inr no_ ↦ rw no_ tt
  ]

  polygon_geometry-IsTaken : (rs : List (List (F × F))) → Holds IsTaken (polygon_geometry floats rs)
  unfolding coordinates
  polygon_geometry-IsTaken [] = tt
  polygon_geometry-IsTaken (r ∷ rs) =
      elim (Bool-cases (validate_coordinates polygon (ring_values floats (r ∷ rs)))) [
        | inl yes_ ↦ rw yes_ yes_
        | inr no_ ↦ rw no_ tt
      ]

  or_next-IsTaken :
      (m next : Normalized (Option (Geometry F)))
      → Holds IsTaken m
      → Holds IsTaken next
      → Holds IsTaken (or_next floats m next)
  or_next-IsTaken (normalized none) next h k = k
  or_next-IsTaken (normalized (some g)) next h k = h
  or_next-IsTaken refused next h k = tt
  or_next-IsTaken raised next h k = tt

  simple_geometry-IsTaken : (e : Element) → Holds IsTaken (simple_geometry floats e)
  simple_geometry-IsTaken e =
      or_next-IsTaken _ _
        (Holds-bind IsTaken (shape_points floats (direct_find_ns (codes "Point") e))
          (point_geometry floats) (λ ps _. point_geometry-IsTaken ps))
        (or_next-IsTaken _ _
          (Holds-bind IsTaken (shape_points floats (direct_find_ns (codes "LineString") e))
            (line_geometry floats) (λ ps _. line_geometry-IsTaken ps))
          (Holds-bind IsTaken (shape_rings floats (direct_find_ns (codes "Polygon") e))
            (polygon_geometry floats) (λ rs _. polygon_geometry-IsTaken rs)))

  shape_geometry-IsTaken : (o : Option Element) → Holds IsTaken (shape_geometry floats o)
  shape_geometry-IsTaken none = tt
  shape_geometry-IsTaken (some e) =
      simple_geometry-IsTaken (element (codes "Placemark") [] none (cons e nil))

  multi_geometry-IsTaken : (o : Option Element) → Holds IsTaken (multi_geometry floats o)
  multi_geometry-IsTaken none = tt
  multi_geometry-IsTaken (some m) = shape_geometry-IsTaken (first_shape (children_of m))

  -- A geometry that is found in a placemark, alone or as the first of several, passes the check of the
  -- schema.
  pub validate_coordinates-placemark_geometry :
      (placemark : Element) (g : Geometry F)
      → placemark_geometry floats placemark ≡ normalized (some g)
      → validate_coordinates (geometry_type g) (coordinates floats g) ≡ true
  validate_coordinates-placemark_geometry placemark g found = subst (Holds IsTaken) found (
      unfold placemark_geometry in
      or_next-IsTaken _ _ (simple_geometry-IsTaken placemark)
        (multi_geometry-IsTaken (direct_find_ns (codes "MultiGeometry") placemark)))
