-- ===== src/Kml/Document.antt =====
-- What `kmz_to_ctos` makes of a whole document.
use tactical_gateway.Base.{
  ℕ, ◌+◌, ◌≡◌, ◌⊎◌, refl, ap, inl, inr, Option, none, some, List, [], ◌∷◌, All, Text, codes,
  text_eq,
}
use tactical_gateway.Base.Dict.{lookup}
use tactical_gateway.Xml.{Element}
use tactical_gateway.Recognize.Affiliate.{Affiliation, affiliation_from_explicit_sidc}
use tactical_gateway.Recognize.Letters.{
  GivenSays, reading, affiliation_from_explicit_sidc-GivenSays,
}
use tactical_gateway.Schema.Records.{Floats, Geometry, geometry_type, Cto, attribute, integer}
use tactical_gateway.Recognize.Pipeline.{RecognitionResult, recognize}
use tactical_gateway.CotXml.Ingest.{normalized}
use tactical_gateway.Recognize.Laws.{recognize_total}
use tactical_gateway.Kml.Tree.{named, iter, direct_find_ns}
use tactical_gateway.Kml.Placemark.{placemark_geometry, placemark_extended_data}
use tactical_gateway.Kml.Decode.{
  Request, shape_of, label_text, explicit_sidc, effective_sidc, effective_affiliation, or_text,
  or_recognized, recognized_cto, prepend, read_primary_kml, placemark_to_cto, placemark_ctos,
  kmz_to_ctos,
}

module _ {F : Type 0} (floats : Floats F) (q : Request) where
  abbrev name_of : Element → Option Text
  name_of p = label_text (direct_find_ns (codes "name") p)

  -- What `recognize` is asked about a placemark with this geometry.
  abbrev recognized : Element → Geometry F → Option RecognitionResult
  recognized p g =
      recognize q.default_affiliation (name_of p)
        (label_text (direct_find_ns (codes "description") p)) (shape_of (geometry_type g))

  -- Nothing, or an empty text, is stored under the key.
  abbrev pub Missing : Text → List (Text × Text) → Type 0
  Missing k d = (lookup k d ≡ none) ⊎ (lookup k d ≡ some [])

  -- The extended data give this code: `sidc`, or else `SIDC`.
  abbrev pub Gives : List (Text × Text) → Text → Type 0
  Gives d code =
      (lookup (codes "sidc") d ≡ some code)
      ⊎ (Missing (codes "sidc") d × (lookup (codes "SIDC") d ≡ some code))

  -- The code and the affiliation of an object: the given code, if that is not empty, with the
  -- affiliation that it says, or else the recognized ones.
  abbrev pub CodeFits :
      List (Text × Text) → RecognitionResult → Option Text → Option Affiliation → Type 0
  CodeFits d r sidc affiliation =
      ((x : ℕ) × (t : Text) × Gives d (x ∷ t)
        × (sidc ≡ some (x ∷ t))
        × ((a : Affiliation) × (affiliation ≡ some a) × GivenSays (x ∷ t) r.affiliation a))
      ⊎ (Missing (codes "sidc") d
          × Missing (codes "SIDC") d
          × (sidc ≡ some r.sidc)
          × (affiliation ≡ some r.affiliation))

  -- The object of a placemark: its geometry, name and index, and its code and affiliation.
  abbrev Depicts : ℕ → Element → Cto F → Type 0
  Depicts idx p c =
      (placemark_geometry floats p ≡ normalized (some c.geometry))
      × (c.label ≡ name_of p)
      × (attribute (codes "kmz_feature_index") c.attributes ≡ some (integer idx))
      × ((r : RecognitionResult) × (recognized p c.geometry ≡ some r)
          × CodeFits (placemark_extended_data p) r c.symbology.sidc_2525c c.symbology.affiliation)

  given_code :
      (d : List (Text × Text)) (r : RecognitionResult) (x : ℕ) (t : Text)
      → Gives d (x ∷ t)
      → CodeFits d r
          (some (effective_sidc (some (x ∷ t)) r.sidc))
          (some (effective_affiliation (some (x ∷ t)) r.affiliation).0)
  given_code d r x t g = inl (
    x,
    t,
    g,
    refl,
    (
      _,
      ap (λ a. some a) (read (affiliation_from_explicit_sidc (x ∷ t))),
      affiliation_from_explicit_sidc-GivenSays (x ∷ t) r.affiliation,
    ),
  )
    where
      read : (o : Option Affiliation) → (or_recognized o r.affiliation).0 ≡ reading o r.affiliation
      read none = refl
      read (some a) = refl

  effective-CodeFits :
      (d : List (Text × Text)) (r : RecognitionResult)
      → CodeFits d r
          (some (effective_sidc (explicit_sidc d) r.sidc))
          (some (effective_affiliation (explicit_sidc d) r.affiliation).0)
  effective-CodeFits d r = lower_case (lookup (codes "sidc") d) refl
    where
      upper_case :
          (o : Option Text)
          → Missing (codes "sidc") d
          → lookup (codes "SIDC") d ≡ o
          → CodeFits d r
              (some (effective_sidc o r.sidc))
              (some (effective_affiliation o r.affiliation).0)
      upper_case none m e = inr (m, inl e, refl, refl)
      upper_case (some []) m e = inr (m, inr e, refl, refl)
      upper_case (some (x ∷ t)) m e = given_code d r x t (inr (m, e))

      lower_case :
          (o : Option Text)
          → lookup (codes "sidc") d ≡ o
          → CodeFits d r
              (some (effective_sidc (or_text o (lookup (codes "SIDC") d)) r.sidc))
              (some (effective_affiliation (or_text o (lookup (codes "SIDC") d)) r.affiliation).0)
      lower_case none e = upper_case (lookup (codes "SIDC") d) (inl e) refl
      lower_case (some []) e = upper_case (lookup (codes "SIDC") d) (inr e) refl
      lower_case (some (x ∷ t)) e = given_code d r x t (inl e)

  -- The objects are those of the placemarks with a geometry, in their order, with their indices.
  abbrev pub Shows : ℕ → List Element → List (Cto F) → Type 0
  Shows idx [] [] = Unit {0}
  Shows idx [] (_ ∷ _) = ⊥
  Shows idx (p ∷ ps) cs =
      ((placemark_geometry floats p ≡ normalized none) × Shows (idx + 1) ps cs)
      ⊎ ((c : Cto F) × (rest : List (Cto F)) × (cs ≡ c ∷ rest)
          × Depicts idx p c
          × Shows (idx + 1) ps rest)

  abbrev One : ℕ → Element → Option (Cto F) → Type 0
  One idx p none = placemark_geometry floats p ≡ normalized none
  One idx p (some c) = Depicts idx p c

  Shows-prepend :
      (idx : ℕ) (p : Element) (ps : List Element) (o : Option (Cto F)) (cs : List (Cto F))
      → One idx p o
      → Shows (idx + 1) ps cs
      → Shows idx (p ∷ ps) (prepend o cs)
  Shows-prepend idx p ps none cs h hs = inl (h, hs)
  Shows-prepend idx p ps (some c) cs h hs = inr (c, cs, refl, h, hs)

  -- The coordinates of the placemark are read, and the schema takes its geometry, if it has one.
  abbrev pub IsRead : Element → Type 0
  IsRead p = (g : Option (Geometry F)) × (placemark_geometry floats p ≡ normalized g)

  placemark_to_cto-One :
      (idx : ℕ) (p : Element)
      → IsRead p
      → (o : Option (Cto F)) × (placemark_to_cto floats q idx p ≡ normalized o) × One idx p o
  unfolding placemark_to_cto attribute text_eq
  placemark_to_cto-One idx p (none, e) = (none, rw e refl, e)
  placemark_to_cto-One idx p (some g, e) =
      let (r, er, _) =
        recognize_total q.default_affiliation (name_of p)
          (label_text (direct_find_ns (codes "description") p)) (shape_of (geometry_type g)) in
      (
        some (recognized_cto q idx p g r),
        rw e (rw er refl),
        (e, refl, refl, (r, er, effective-CodeFits (placemark_extended_data p) r)),
      )

  placemark_ctos-Shows :
      (idx : ℕ) (ps : List Element)
      → All IsRead ps
      → (cs : List (Cto F)) × (placemark_ctos floats q idx ps ≡ normalized cs) × Shows idx ps cs
  unfolding placemark_ctos
  placemark_ctos-Shows idx [] h = ([], refl, tt)
  placemark_ctos-Shows idx (p ∷ ps) (h, hs) =
      let (o, eo, one) = placemark_to_cto-One idx p h in
      let (cs, ecs, shows) = placemark_ctos-Shows (idx + 1) ps hs in
      (prepend o cs, rw (eo, ecs) refl, Shows-prepend idx p ps o cs one shows)

  -- An archive whose primary document parses, and whose placemarks can be read, becomes one CTO for each
  -- placemark with a geometry, in the order of the document: with its geometry, name and index, and
  -- with the code that its extended data give under sidc or else SIDC and the affiliation of the
  -- code's second letter (the recognized one, if the code has not 15 characters or an unknown
  -- letter), or, if they give none, with the code and the affiliation that are recognized.
  pub kmz_to_ctos-Shows :
      (unzip : List ℕ → Option (List (Text × Option (List ℕ))))
      (from_string : List ℕ → Option Element) (kmz_bytes kml : List ℕ)
      (entries : List (Text × Option (List ℕ))) (root : Element)
      → unzip kmz_bytes ≡ some entries
      → read_primary_kml entries ≡ normalized kml
      → from_string kml ≡ some root
      → All IsRead (named (codes "Placemark") (iter root))
      → (cs : List (Cto F)) × (kmz_to_ctos floats unzip from_string q kmz_bytes ≡ normalized cs)
        × Shows 0 (named (codes "Placemark") (iter root)) cs
  unfolding kmz_to_ctos
  kmz_to_ctos-Shows unzip from_string kmz_bytes kml entries root zipped primary parses reads =
      let (cs, ecs, shows) = placemark_ctos-Shows 0 (named (codes "Placemark") (iter root)) reads in
      (cs, rw (zipped, primary, parses) ecs, shows)
