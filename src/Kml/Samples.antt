-- ===== src/Kml/Samples.antt =====
-- Runs of the KML parser. A float is its text.
use tactical_gateway.Base.{ℕ, ◌≡◌, refl, Option, none, some, List, [], ◌∷◌, Text, codes, text_eq}
use tactical_gateway.Base.Dict.{lookup}
use tactical_gateway.Xml.{Element, element, Elements, nil, cons}
use tactical_gateway.Schema.{folder, validate_coordinates, all_values, is_list_of}
use tactical_gateway.Schema.Records.{Cto, ring_values, point_at, polygon_of}
use tactical_gateway.Schema.TextFloats.{text_floats}
use tactical_gateway.CotXml.Ingest.{normalized, raised}
use tactical_gateway.Kml.Tree.{named, iter, direct_find}
use tactical_gateway.Kml.Coordinates.{parse_coordinates}
use tactical_gateway.Kml.Placemark.{placemark_geometry}
use tactical_gateway.Kml.Decode.{Request, read_primary_kml, kmz_to_ctos}
use tactical_gateway.Kml.Document.{Shows, kmz_to_ctos-Shows}

abbrev leaf : Text → Text → Element
leaf tag t = element tag [] (some t) nil

abbrev point_mark : Element
point_mark =
    element (codes "{http://www.opengis.net/kml/2.2}Placemark") ((codes "id", codes "p1") ∷ []) none
      (cons (leaf (codes "name") (codes " OBJ DOG ")) (
        cons
          (element (codes "Point") [] none (cons (leaf (codes "coordinates") (codes "7,50,0")) nil))
          nil))

abbrev boundary : Text → Text → Element
boundary tag t =
    element tag [] none
      (cons (element (codes "LinearRing") [] none (cons (leaf (codes "coordinates") t) nil)) nil)

abbrev polygon_mark : Elements → Element
polygon_mark boundaries =
    element (codes "Placemark") [] none (cons (element (codes "Polygon") [] none boundaries) nil)

-- A ring of three points of which the last is the first fails the check of the schema.
three_points :
    placemark_geometry text_floats
      (polygon_mark (cons (boundary (codes "outerBoundaryIs") (codes "1,1 2,2 1,1")) nil))
    ≡ raised
unfolding placemark_geometry direct_find named iter parse_coordinates ring_values
    validate_coordinates all_values is_list_of text_eq
three_points = refl

-- Without a full outer boundary, a hole becomes the outline.
hole_as_outline :
    placemark_geometry text_floats
      (polygon_mark (cons (boundary (codes "innerBoundaryIs") (codes "1,1 2,2 3,3")) nil))
    ≡ normalized (
        some (
          polygon_of (
            ((codes "1", codes "1")
              ∷ (codes "2", codes "2")
              ∷ (codes "3", codes "3")
              ∷ (codes "1", codes "1")
              ∷ [])
            ∷ [])))
unfolding placemark_geometry direct_find named iter parse_coordinates ring_values
    validate_coordinates all_values is_list_of text_eq
hole_as_outline = refl

abbrev root : Element
root = element (codes "kml") [] none (cons point_mark nil)

abbrev entries : List (Text × Option (List ℕ))
entries = (codes "files/a.png", some []) ∷ (codes "Plan.KML", some (codes "<kml/>")) ∷ []

abbrev request : Request
request = record {
  filename = codes "plan.kmz";
  source_system = codes "folder:/inbox";
  received_at = 5;
  raw_pointer = record {
    sha256 = codes "aa";
    object_key = codes "raw/kmz";
    size_bytes = 3;
    captured_at = 5;
  };
  ingest_source = folder;
  uuid = λ n. n ∷ [];
  default_affiliation = none;
  notes = λ r given from_given. codes "{}";
}

primary : read_primary_kml entries ≡ normalized (codes "<kml/>")
unfolding read_primary_kml lookup
primary = refl

point_read :
    placemark_geometry text_floats point_mark ≡ normalized (some (point_at (codes "7", codes "50")))
unfolding placemark_geometry direct_find parse_coordinates
point_read = refl

kmz_to_ctos-Shows_example :
    (cs : List (Cto Text)) × (kmz_to_ctos text_floats
        (λ b. some entries)
        (λ b. some root)
        request
        []
      ≡ normalized cs)
    × Shows text_floats request 0 (named (codes "Placemark") (iter root)) cs
unfolding named iter
kmz_to_ctos-Shows_example =
    kmz_to_ctos-Shows text_floats request (λ b. some entries) (λ b. some root) [] (codes "<kml/>")
      entries root refl primary refl ((some (point_at (codes "7", codes "50")), point_read), tt)
