-- ===== src/Ovl/Sidc.antt =====
-- services/gateway/ovl/sidc.py: the affiliation and the geometry class of a symbol code.
use tactical_gateway.Base.{
  ℕ, zero, suc, Bool, Option, none, some, List, [], ◌∷◌, Text, codes, length, take, drop, upper,
  upper_char, ltb, ◌==◌, if◌then◌else◌, is_some,
}
use tactical_gateway.Base.Dict.{lookup}

pub data Affiliation : Type 0 where
  friend hostile neutral unknown : Affiliation

pub data GeometryClass : Type 0 where
  point_class linear area : GeometryClass

-- `_AFFIL_CHAR`
unfoldable pub affil_char_table : List (Text × Affiliation)
affil_char_table =
    (codes "P", unknown)
    ∷ (codes "U", unknown)
    ∷ (codes "A", friend)
    ∷ (codes "F", friend)
    ∷ (codes "N", neutral)
    ∷ (codes "S", hostile)
    ∷ (codes "H", hostile)
    ∷ (codes "G", friend)
    ∷ (codes "W", friend)
    ∷ (codes "D", friend)
    ∷ (codes "L", neutral)
    ∷ (codes "M", hostile)
    ∷ (codes "J", hostile)
    ∷ (codes "K", hostile)
    ∷ []

-- `_FUNCTION_GEOMETRY`
unfoldable pub function_geometry : List (Text × GeometryClass)
function_geometry =
    (codes "GAA", area)
    ∷ (codes "GAG", area)
    ∷ (codes "OAF", area)
    ∷ (codes "OAK", area)
    ∷ (codes "OAR", area)
    ∷ (codes "SLA", area)
    ∷ (codes "PY", point_class)
    ∷ (codes "NB", area)
    ∷ (codes "NC", area)
    ∷ (codes "OEB", area)
    ∷ (codes "OFD", area)
    ∷ (codes "OFS", point_class)
    ∷ (codes "OGB", area)
    ∷ (codes "OGF", area)
    ∷ (codes "BCB", area)
    ∷ (codes "BDE", area)
    ∷ (codes "GLB", linear)
    ∷ (codes "GLC", linear)
    ∷ (codes "GLP", linear)
    ∷ (codes "OLT", linear)
    ∷ (codes "OLC", linear)
    ∷ (codes "OLL", linear)
    ∷ (codes "OLI", linear)
    ∷ (codes "OLKGM", linear)
    ∷ (codes "OLAA", linear)
    ∷ (codes "OLAR", linear)
    ∷ (codes "OLAV", linear)
    ∷ (codes "OLAGS", linear)
    ∷ (codes "OLAGM", linear)
    ∷ (codes "OET", linear)
    ∷ (codes "OEF", linear)
    ∷ (codes "OMT", point_class)
    ∷ (codes "NDP", point_class)
    ∷ (codes "NEB", point_class)
    ∷ (codes "NEC", point_class)
    ∷ (codes "GPRI", point_class)
    ∷ (codes "BCL", linear)
    ∷ []

unfoldable pub parse_affiliation_char : Text → Text
parse_affiliation_char [] = []
parse_affiliation_char (_ ∷ []) = []
parse_affiliation_char (_ ∷ c ∷ _) = c ∷ []

abbrev pub or_unknown : Option Affiliation → Affiliation
or_unknown none = unknown
or_unknown (some a) = a

unfoldable pub classify_affiliation : Text → Affiliation
unfolding parse_affiliation_char lookup affil_char_table upper_char
classify_affiliation sidc =
    or_unknown (lookup (upper (parse_affiliation_char sidc)) affil_char_table)

-- `raw.replace("-", "")`
unfoldable pub without_dashes : Text → Text
without_dashes [] = []
without_dashes (c ∷ s) = let rest = without_dashes s in if c == b'-' then rest else c ∷ rest

unfoldable pub function_code : Text → Text
unfolding without_dashes
function_code sidc = if ltb (length sidc) 5 then [] else without_dashes (take 6 (drop 4 sidc))

-- The loop over `n` of `classify_geometry`, from `n` down to 2.
unfoldable pub longest_prefix : Text → ℕ → Option GeometryClass
longest_prefix fc zero = none
longest_prefix fc (suc zero) = none
longest_prefix fc (suc (suc n)) = elim (lookup (take (suc (suc n)) fc) function_geometry) [
  | some c ↦ some c
  | none ↦ longest_prefix fc (suc n)
]

abbrev pub or_prefix : Text → Option GeometryClass → Option GeometryClass
or_prefix fc (some c) = some c
or_prefix fc none = longest_prefix fc (length fc)

abbrev pub classify_code : Text → Option GeometryClass
classify_code [] = none
classify_code (c ∷ fc) = or_prefix (c ∷ fc) (lookup (c ∷ fc) function_geometry)

unfoldable pub classify_geometry : Text → Option GeometryClass
unfolding longest_prefix
classify_geometry sidc = classify_code (function_code sidc)

unfoldable pub is_known : Text → Bool
is_known sidc = is_some (classify_geometry sidc)
