-- ===== src/Kml/Coordinates.antt =====
-- `_parse_coordinates` of services/gateway/kmz_parser.py. The altitude is read and dropped.
use tactical_gateway.Base.{
  ◌==◌, Bool, true, Option, none, some, List, [], ◌∷◌, Text, split, words, drop_while, is_some,
  if◌then◌else◌, cons_option, ◌>>=ₒ◌,
}
use mathlib.Core.List.{reverse}
use tactical_gateway.Schema.Records.{Floats}

-- `token.rstrip(",")`
unfoldable pub rstrip_commas : Text → Text
unfolding drop_while
rstrip_commas t = reverse (drop_while (λ c. c == b',') (reverse t))

module _ {F : Type 0} (floats : Floats F) where
  -- The third part is a float, if it is there and not empty.
  abbrev altitude_reads : List Text → Bool
  altitude_reads [] = true
  altitude_reads ([] ∷ _) = true
  altitude_reads ((c ∷ t) ∷ _) = is_some (floats.parse (c ∷ t))

  -- A tuple; `none` is a KmzParseError.
  abbrev pub tuple_of : List Text → Option (F × F)
  tuple_of [] = none
  tuple_of (x ∷ []) = none
  tuple_of (x ∷ y ∷ rest) = floats.parse x >>=ₒ λ lon.
      floats.parse y >>=ₒ λ lat. if altitude_reads rest then some (lon, lat) else none

  abbrev add_token : Text → Option (List (F × F)) → Option (List (F × F))
  add_token [] ps = ps
  add_token (c ∷ t) ps = cons_option (tuple_of (split b',' (c ∷ t))) ps

  unfoldable pub tuples_of : List Text → Option (List (F × F))
  unfolding rstrip_commas split
  tuples_of [] = some []
  tuples_of (token ∷ tokens) = add_token (rstrip_commas token) (tuples_of tokens)

  unfoldable pub parse_coordinates : Text → Option (List (F × F))
  unfolding words tuples_of
  parse_coordinates t = tuples_of (words t)
