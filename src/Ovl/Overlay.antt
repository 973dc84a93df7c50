-- ===== src/Ovl/Overlay.antt =====
-- What `ovl_to_ctos` makes of a whole overlay, and what an ingest does with it.
use mathlib.Core.Path.{subst}
use tactical_gateway.Base.{
  ℕ, ◌+◌, ◌≡◌, refl, sym, ◌∙◌, ap, inl, inr, Bool, true, false, ◌&&◌, Option, none, some, List, [],
  ◌∷◌, Text, and_true, Option-cases, arith, cons_option,
}
use tactical_gateway.Schema.Records.{Floats, Cto, geometry_type}
use tactical_gateway.Xml.{Element}
use tactical_gateway.Ingest.{parsed}
use tactical_gateway.Ovl.Model.{MilbObject, OvlModel, parse_model, text_or_none}
use tactical_gateway.Recognize.Affiliate.{Affiliation}
use tactical_gateway.Ovl.Side.{Says, classify_affiliation-Says}
use tactical_gateway.Ovl.Decode.{
  Request, object_geometry, is_valid, object_cto, object_ctos, parsed_or_error, ovl_to_ctos,
}
use tactical_gateway.Ovl.Shape.{
  is_drawable, is_valid-drawn, Keeps, KindFits, OptionKindFits, vertices-drawn, drawn-KindFits,
}

module _ {F : Type 0} (floats : Floats F) where
  abbrev pub all_drawable : List (MilbObject F) → Bool
  all_drawable [] = true
  all_drawable (o ∷ os) = is_drawable floats o.positions && all_drawable os

  abbrev HasSide : Text → Option Affiliation → Type 0
  HasSide sidc none = ⊥
  HasSide sidc (some a) = Says sidc a

  -- The CTOs are those of the objects, one each and in their order: label, code, the side that the
  -- second character of the code says, and a geometry of the drawn vertices.
  abbrev pub Shows : List (MilbObject F) → List (Cto F) → Type 0
  Shows [] [] = Unit {0}
  Shows [] (c ∷ cs) = ⊥
  Shows (o ∷ os) [] = ⊥
  Shows (o ∷ os) (c ∷ cs) =
      (c.label ≡ text_or_none o.name)
      × (c.symbology.sidc_2525c ≡ text_or_none o.mil_id)
      × HasSide o.mil_id c.symbology.affiliation
      × Keeps floats o.positions (some c.geometry)
      × KindFits floats o.positions o.mil_id (geometry_type c.geometry)
      × Shows os cs

  abbrev Shown : List (MilbObject F) → Option (List (Cto F)) → Type 0
  Shown os none = ⊥
  Shown os (some cs) = Shows os cs

  abbrev ShownOne : MilbObject F → Option (Cto F) → Type 0
  ShownOne o none = ⊥
  ShownOne o (some c) =
      (c.label ≡ text_or_none o.name)
      × (c.symbology.sidc_2525c ≡ text_or_none o.mil_id)
      × HasSide o.mil_id c.symbology.affiliation
      × Keeps floats o.positions (some c.geometry)
      × KindFits floats o.positions o.mil_id (geometry_type c.geometry)

  Shown-cons :
      (o : MilbObject F) (os : List (MilbObject F)) (c : Option (Cto F))
      (cs : Option (List (Cto F)))
      → ShownOne o c
      → Shown os cs
      → Shown (o ∷ os) (cons_option c cs)
  Shown-cons o os none cs h hs = absurd h
  Shown-cons o os (some c) none h hs = absurd hs
  Shown-cons o os (some c) (some cs) (a, b, d, g, k) hs = (a, b, d, g, k, hs)

  geometry_valid :
      (o : MilbObject F)
      → is_valid floats (object_geometry floats o) ≡ is_drawable floats o.positions
  geometry_valid o = is_valid-drawn floats o.positions o.mil_id

  object_cto-ShownOne :
      (q : Request) (overlay : Text) (idx : ℕ) (o : MilbObject F)
      → is_drawable floats o.positions ≡ true
      → ShownOne o (object_cto floats q overlay idx o)
  unfolding object_cto
  object_cto-ShownOne q overlay idx o h = elim (Option-cases (object_geometry floats o)) [
    | inl none_ ↦
        let bad : false ≡ true = ap (is_valid floats) (sym none_) ∙ (geometry_valid o ∙ h) in
        absurd (ground (arith, bad))
    | inr (g, here) ↦
        let ok : is_valid floats (some g) ≡ true =
          ap (is_valid floats) (sym here) ∙ (geometry_valid o ∙ h) in
        rw here (
          rw ok (
            refl,
            refl,
            classify_affiliation-Says floats o.mil_id,
            subst (λ x. Keeps floats o.positions x) here
                (vertices-drawn floats o.positions o.mil_id),
            subst (λ x. OptionKindFits floats o.positions o.mil_id x) here
                (drawn-KindFits floats o.positions o.mil_id h),
          ))
  ]

  object_ctos-Shown :
      (q : Request) (overlay : Text) (idx : ℕ) (os : List (MilbObject F))
      → all_drawable os ≡ true
      → Shown os (object_ctos floats q overlay idx os)
  unfolding object_ctos
  object_ctos-Shown q overlay idx [] h = tt
  object_ctos-Shown q overlay idx (o ∷ os) h =
      let (one, rest) = and_true (is_drawable floats o.positions) (all_drawable os) h in
      Shown-cons o os (object_cto floats q overlay idx o)
        (object_ctos floats q overlay (idx + 1) os) (object_cto-ShownOne q overlay idx o one)
        (object_ctos-Shown q overlay (idx + 1) os rest)

  module _ (from_string : List ℕ → Option Element) (message : List ℕ → Text) (data_ : List ℕ)
      (root : Element) (model : OvlModel F) (reads : from_string data_ ≡ some root)
      (parses : parse_model floats root ≡ some model) where
    -- An overlay that parses, and whose objects the schema takes, becomes one CTO for each object, in
    -- their order: with its label and code, the side that the second character of the code says, the
    -- drawn vertices as longitude and latitude in their order (at most the first once more at the
    -- end), and a point, line or area as their number, the class of the code and a repeated first
    -- position say.
    pub ovl_to_ctos-Shows :
        (q : Request)
        → all_drawable model.objects ≡ true
        → (cs : List (Cto F)) × (ovl_to_ctos floats from_string message q data_ ≡ parsed cs)
          × Shows model.objects cs
    unfolding ovl_to_ctos
    ovl_to_ctos-Shows q h =
        rw (reads, parses)
          (made (object_ctos floats q model.name 0 model.objects)
            (object_ctos-Shown q model.name 0 model.objects h))
      where
        made :
            (o : Option (List (Cto F)))
            → Shown model.objects o
            → (cs : List (Cto F)) × (parsed_or_error floats o ≡ parsed cs) × Shows model.objects cs
        made none h = absurd h
        made (some cs) h = (cs, refl, h)
