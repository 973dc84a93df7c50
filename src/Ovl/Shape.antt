-- ===== src/Ovl/Shape.antt =====
-- The geometry of an overlay object: what it keeps of the drawn positions, and when the schema
-- accepts it.
use tactical_gateway.Base.{
  or_false, and_true, ◌&&◌, ℕ, suc, ◌≡◌, ◌⊎◌, refl, sym, ◌∙◌, ap, inl, inr, Bool, true, false, ◌||◌,
  not, Option, none, some, List, [], ◌∷◌, ◌++◌, Text, length, last_or, map, arith, Bool-cases, leb,
  length-append, ◌≤◌, le→leb,
}
use tactical_gateway.Schema.{GeometryType, point, line_string, polygon, validate_coordinates}
use tactical_gateway.Schema.Records.{
  Floats, Geometry, geometry_type, point_at, line_of, polygon_of, coordinates,
}
use tactical_gateway.Ovl.Sidc.{classify_geometry, area}
use tactical_gateway.Ovl.Model.{Position}
use tactical_gateway.Ovl.Decode.{
  is_closed, infer_actual_geometry, swap, same_pair, close_ring, drawn_geometry, is_valid, is_class,
}
use tactical_gateway.Schema.Pairs.{valid_line, valid_ring}

module _ {F : Type 0} (floats : Floats F) where
  -- The vertices of a geometry, in their order.
  abbrev pub vertices : Option (Geometry F) → List (F × F)
  vertices none = []
  vertices (some (point_at c)) = c ∷ []
  vertices (some (line_of cs)) = cs
  vertices (some (polygon_of [])) = []
  vertices (some (polygon_of (r ∷ _))) = r

  abbrev pub drawn : List (Position F) → Text → Option (Geometry F)
  drawn ps sidc =
      drawn_geometry floats (infer_actual_geometry floats ps sidc) (map (swap floats) ps)

  -- The geometry keeps each position, as longitude and latitude, in the order drawn; at most the first
  -- one stands once more at the end.
  pub vertices-drawn :
      (ps : List (Position F)) (sidc : Text)
      → (vertices (drawn ps sidc) ≡ map (λ p. (p.lon, p.lat)) ps)
        ⊎ ((p : Position F) × (rest : List (Position F)) × (ps ≡ p ∷ rest)
            × (vertices (drawn ps sidc) ≡ map (λ p. (p.lon, p.lat)) ps ++ ((p.lon, p.lat) ∷ [])))
  unfolding drawn_geometry infer_actual_geometry
  vertices-drawn [] sidc = inl refl
  vertices-drawn (p ∷ []) sidc = inl refl
  vertices-drawn (p ∷ q ∷ []) sidc = inl refl
  vertices-drawn (p ∷ q ∷ r ∷ ps) sidc =
      elim (Bool-cases
        (is_class area (classify_geometry sidc) || is_closed floats p (last_or r ps))) [
          | inl poly ↦
              elim (Bool-cases (
                same_pair floats (swap floats p)
                  (last_or (swap floats r) (map (swap floats) ps)))) [
                    | inl yes_ ↦ inl (rw poly (rw yes_ refl))
                    | inr no_ ↦ inr (p, q ∷ r ∷ ps, refl, rw poly (rw no_ refl))
                  ]
          | inr line ↦ inl (rw line refl)
        ]

  -- The geometry is a point, a line or an area, as the number of positions, the class of the code and
  -- a last position that repeats the first say.
  abbrev pub KindFits : List (Position F) → Text → GeometryType → Type 0
  KindFits [] sidc t = ⊥
  KindFits (p ∷ []) sidc t = t ≡ point
  KindFits (p ∷ q ∷ []) sidc t = t ≡ line_string
  KindFits (p ∷ q ∷ r ∷ ps) sidc t =
      let last = last_or r ps in
      ((t ≡ polygon)
        × ((is_class area (classify_geometry sidc) ≡ true)
            ⊎ ((floats.same p.lat last.lat ≡ true) × (floats.same p.lon last.lon ≡ true))))
      ⊎ ((t ≡ line_string)
          × (is_class area (classify_geometry sidc) ≡ false)
          × ((floats.same p.lat last.lat ≡ false) ⊎ (floats.same p.lon last.lon ≡ false)))

  abbrev pub OptionKindFits : List (Position F) → Text → Option (Geometry F) → Type 0
  OptionKindFits ps sidc none = ⊥
  OptionKindFits ps sidc (some g) = KindFits ps sidc (geometry_type g)

  -- The vertices are the positions, as longitude and latitude, in the order drawn; at most the first
  -- one stands once more at the end.
  abbrev pub Keeps : List (Position F) → Option (Geometry F) → Type 0
  Keeps ps g =
      (vertices g ≡ map (λ p. (p.lon, p.lat)) ps)
      ⊎ ((p : Position F) × (rest : List (Position F)) × (ps ≡ p ∷ rest)
          × (vertices g ≡ map (λ p. (p.lon, p.lat)) ps ++ ((p.lon, p.lat) ∷ [])))

  -- The drawings that the schema takes: some position, and not three of which the last is the first.
  abbrev pub is_drawable : List (Position F) → Bool
  is_drawable [] = false
  is_drawable (p ∷ []) = true
  is_drawable (p ∷ q ∷ []) = true
  is_drawable (p ∷ q ∷ r ∷ []) = not (is_closed floats p r)
  is_drawable (p ∷ q ∷ r ∷ s ∷ ps) = true

  and_false : (a b : Bool) → (a && b) ≡ false → (a ≡ false) ⊎ (b ≡ false)
  and_false true b h = inr h
  and_false false b h = inl refl

  class_or_closed : (a b : Bool) → (a || b) ≡ true → (a ≡ true) ⊎ (b ≡ true)
  class_or_closed true b h = inl refl
  class_or_closed false b h = inr h

  pub drawn-KindFits :
      (ps : List (Position F)) (sidc : Text)
      → is_drawable ps ≡ true
      → OptionKindFits ps sidc (drawn ps sidc)
  unfolding drawn_geometry infer_actual_geometry
  drawn-KindFits [] sidc h = absurd (ground (arith, h))
  drawn-KindFits (p ∷ []) sidc h = refl
  drawn-KindFits (p ∷ q ∷ []) sidc h = refl
  drawn-KindFits (p ∷ q ∷ r ∷ ps) sidc h =
      let is_area = is_class area (classify_geometry sidc) in
      let ends : Bool = is_closed floats p (last_or r ps) in
      elim (Bool-cases (is_area || ends)) [
        | inl poly ↦ rw poly (inl (refl, polygon_why (class_or_closed is_area ends poly)))
        | inr line ↦
            let (open_, apart) = or_false is_area ends line in
            rw line (inr (refl, open_, and_false _ _ apart))
      ]
    where
      polygon_why :
          (is_class area (classify_geometry sidc) ≡ true)
            ⊎ (is_closed floats p (last_or r ps) ≡ true)
          → (is_class area (classify_geometry sidc) ≡ true)
            ⊎ ((floats.same p.lat (last_or r ps).lat ≡ true)
                × (floats.same p.lon (last_or r ps).lon ≡ true))
      polygon_why (inl a) = inl a
      polygon_why (inr b) = inr (and_true _ _ b)

  length-map-swap : (ps : List (Position F)) → length (map (swap floats) ps) ≡ length ps
  length-map-swap [] = refl
  length-map-swap (p ∷ ps) = ap (λ (n : ℕ). suc n) (length-map-swap ps)

  length-close_ring_le : (cs : List (F × F)) → length cs ≤ length (close_ring floats cs)
  unfolding close_ring
  length-close_ring_le [] = omega arith
  length-close_ring_le (c ∷ cs) = elim (Bool-cases (same_pair floats c (last_or c cs))) [
    | inl yes_ ↦ rw yes_ (omega arith)
    | inr no_ ↦ rw no_ (omega (arith, length-append cs (c ∷ [])))
  ]

  ring_of_three :
      (p q r : Position F)
      → leb 4 (length (close_ring floats (map (swap floats) (p ∷ q ∷ r ∷ []))))
        ≡ not (is_closed floats p r)
  unfolding close_ring
  ring_of_three p q r = ground arith

  abbrev is_ring : Position F → Position F → List (Position F) → Text → Bool
  is_ring p r ps sidc = is_class area (classify_geometry sidc) || is_closed floats p (last_or r ps)

  valid_polygon :
      (cs : List (F × F))
      → is_valid floats (drawn_geometry floats polygon cs) ≡ leb 4 (length (close_ring floats cs))
  unfolding drawn_geometry coordinates
  valid_polygon cs = valid_ring floats (close_ring floats cs)

  is_valid_polygon :
      (p q r : Position F) (ps : List (Position F)) (sidc : Text)
      → is_ring p r ps sidc ≡ true
      → is_valid floats (drawn (p ∷ q ∷ r ∷ ps) sidc)
        ≡ leb 4 (length (close_ring floats (map (swap floats) (p ∷ q ∷ r ∷ ps))))
  unfolding infer_actual_geometry
  is_valid_polygon p q r ps sidc ring = rw ring (valid_polygon (map (swap floats) (p ∷ q ∷ r ∷ ps)))

  is_valid_line :
      (p q r : Position F) (ps : List (Position F)) (sidc : Text)
      → is_ring p r ps sidc ≡ false
      → is_valid floats (drawn (p ∷ q ∷ r ∷ ps) sidc) ≡ true
  unfolding infer_actual_geometry drawn_geometry coordinates
  is_valid_line p q r ps sidc open_ =
      rw open_ (valid_line floats (map (swap floats) (p ∷ q ∷ r ∷ ps)) (omega arith))

  -- The schema takes the geometry of an object exactly if the object has a position, and not three
  -- positions of which the last repeats the first.
  pub is_valid-drawn :
      (ps : List (Position F)) (sidc : Text) → is_valid floats (drawn ps sidc) ≡ is_drawable ps
  unfolding drawn_geometry infer_actual_geometry
  is_valid-drawn [] sidc = refl
  is_valid-drawn (p ∷ []) sidc = unfold validate_coordinates coordinates in refl
  is_valid-drawn (p ∷ q ∷ []) sidc =
      unfold coordinates in valid_line floats (map (swap floats) (p ∷ q ∷ [])) (omega arith)
  is_valid-drawn (p ∷ q ∷ r ∷ []) sidc = elim (Bool-cases (is_ring p r [] sidc)) [
    | inl ring ↦ is_valid_polygon p q r [] sidc ring ∙ ring_of_three p q r
    | inr open_ ↦ is_valid_line p q r [] sidc open_ ∙ sym (ap not (or_false _ _ open_).1)
  ]
  is_valid-drawn (p ∷ q ∷ r ∷ s ∷ ps) sidc = elim (Bool-cases (is_ring p r (s ∷ ps) sidc)) [
    | inl ring ↦
        let cs = map (swap floats) (p ∷ q ∷ r ∷ s ∷ ps) in
        is_valid_polygon p q r (s ∷ ps) sidc ring
        ∙ le→leb 4 (length (close_ring floats cs)) (omega (arith, length-close_ring_le cs))
    | inr open_ ↦ is_valid_line p q r (s ∷ ps) sidc open_
  ]
