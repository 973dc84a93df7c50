-- ===== src/Schema/Wkt.antt =====
-- Geometries that pass the check, and their WKT.
use tactical_gateway.Base.{
  and_true, ◌≢◌, ◌≡◌, refl, true, Option, none, some, Text, arith, is_some, ◌>>=ₒ◌,
}
use tactical_gateway.Schema.{
  GeometryType, point, line_string, polygon, Value, number, items, text, other, Values, nil, cons,
  length, is_list_of, all_values, validate_coordinates, pair_text, join_with, geometry_to_wkt,
}

is_some-bind :
    {A B : Type 0} (o : Option A) (f : A → Option B)
    → is_some o ≡ true
    → ((a : A) → is_some (f a) ≡ true)
    → is_some (o >>=ₒ f) ≡ true
is_some-bind none f h next = absurd (ground (arith, h))
is_some-bind (some a) f h next = next a

pair_text_defined :
    (shown : Values → Text) (v : Value) → is_list_of 2 v ≡ true → is_some (pair_text shown v) ≡ true
unfolding pair_text is_list_of length
pair_text_defined shown (number t) h = absurd (ground (arith, h))
pair_text_defined shown (text t) h = absurd (ground (arith, h))
pair_text_defined shown (other t) h = absurd (ground (arith, h))
pair_text_defined shown (items nil) h = absurd (ground (arith, h))
pair_text_defined shown (items (cons v nil)) h = absurd (ground (arith, h))
pair_text_defined shown (items (cons v (cons w ws))) h = refl

join_defined :
    (shown : Values → Text) (vs : Values)
    → all_values (is_list_of 2) vs ≡ true
    → is_some (join_with shown (pair_text shown) vs) ≡ true
unfolding join_with all_values
join_defined shown nil h = refl
join_defined shown (cons v nil) h = pair_text_defined shown v (and_true _ _ h).0
join_defined shown (cons v (cons w ws)) h =
    let (here, rest) = and_true (is_list_of 2 v) (all_values (is_list_of 2) (cons w ws)) h in
    is_some-bind (pair_text shown v) _ (pair_text_defined shown v here) (λ s.
      is_some-bind (join_with shown (pair_text shown) (cons w ws)) _
        (join_defined shown (cons w ws) rest) (λ t. refl))

-- A point or a line that passes the check of the schema has a WKT: the writer does not raise on it.
pub geometry_to_wkt_defined :
    (shown : Values → Text) (t : GeometryType) (vs : Values)
    → t ≢ polygon
    → validate_coordinates t vs ≡ true
    → is_some (geometry_to_wkt shown t vs) ≡ true
unfolding geometry_to_wkt validate_coordinates
geometry_to_wkt_defined shown point nil no_ h = absurd (ground (arith, h))
geometry_to_wkt_defined shown point (cons v nil) no_ h = absurd (ground (arith, h))
geometry_to_wkt_defined shown point (cons v (cons w ws)) no_ h = refl
geometry_to_wkt_defined shown line_string vs no_ h =
    is_some-bind (join_with shown (pair_text shown) vs) _ (join_defined shown vs (and_true _ _ h).1)
      (λ t. refl)
geometry_to_wkt_defined shown polygon vs no_ h = absurd (no_ refl)
