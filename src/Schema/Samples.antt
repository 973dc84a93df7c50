-- ===== src/Schema/Samples.antt =====
-- Geometries and their WKT in services/opstore/writer.py.
use tactical_gateway.Base.{◌≡◌, ◌≢◌, refl, true, none, some, Text, codes, is_some}
use tactical_gateway.Schema.{
  line_string, polygon, Value, number, items, Values, nil, cons, validate_coordinates,
  geometry_to_wkt,
}
use tactical_gateway.Schema.Wkt.{geometry_to_wkt_defined}

abbrev shown : Values → Text
shown vs = codes "[...]"

abbrev pair : Text → Text → Value
pair x y = items (cons (number x) (cons (number y) nil))

abbrev two_points : Values
two_points = cons (pair (codes "1.5") (codes "2")) (cons (pair (codes "3") (codes "4")) nil)

line_wkt :
    geometry_to_wkt shown line_string two_points ≡ some (codes "SRID=4326;LINESTRING(1.5 2, 3 4)")
unfolding geometry_to_wkt
line_wkt = refl

abbrev short_ring : Values
short_ring =
    cons
      (items (
        cons (number (codes "1"))
          (cons (number (codes "1")) (cons (number (codes "1")) (cons (number (codes "1")) nil)))))
      nil

-- A ring of four bare numbers passes the check, and has no WKT.
short_ring_passes : validate_coordinates polygon short_ring ≡ true
unfolding validate_coordinates
short_ring_passes = refl

short_ring_raises : geometry_to_wkt shown polygon short_ring ≡ none
unfolding geometry_to_wkt
short_ring_raises = refl

line_is_no_polygon : line_string ≢ polygon
line_is_no_polygon e = cc

geometry_to_wkt_defined_example : is_some (geometry_to_wkt shown line_string two_points) ≡ true
unfolding validate_coordinates
geometry_to_wkt_defined_example =
    geometry_to_wkt_defined shown line_string two_points line_is_no_polygon refl
