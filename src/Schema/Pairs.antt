-- ===== src/Schema/Pairs.antt =====
-- When the check of a geometry takes a line or a ring of pairs.
use tactical_gateway.Base.{ℕ, suc, ◌≡◌, refl, ap, true, List, [], ◌∷◌, length, arith, leb, ◌≤◌}
use tactical_gateway.Schema
use tactical_gateway.Schema.{
  point, line_string, polygon, validate_coordinates, is_list_of, all_values,
}
use tactical_gateway.Schema.Records.{Floats, pair_values, ring_values}

module _ {F : Type 0} (floats : Floats F) where
  pub length-pair_values : (cs : List (F × F)) → Schema.length (pair_values floats cs) ≡ length cs
  unfolding pair_values Schema.length
  length-pair_values [] = refl
  length-pair_values ((x, y) ∷ cs) = ap (λ (n : ℕ). suc n) (length-pair_values cs)

  pub all_pairs : (cs : List (F × F)) → all_values (is_list_of 2) (pair_values floats cs) ≡ true
  unfolding pair_values all_values is_list_of
  all_pairs [] = refl
  all_pairs ((x, y) ∷ cs) = all_pairs cs

  pub valid_line :
      (cs : List (F × F))
      → 2 ≤ length cs
      → validate_coordinates line_string (pair_values floats cs) ≡ true
  unfolding validate_coordinates
  valid_line cs long = ground (arith, long, length-pair_values cs, all_pairs cs)

  pub valid_ring :
      (cs : List (F × F))
      → validate_coordinates polygon (ring_values floats (cs ∷ [])) ≡ leb 4 (length cs)
  unfolding validate_coordinates ring_values all_values is_list_of
  valid_ring cs = ground (arith, length-pair_values cs)
