-- ===== src/CotXml/Types.antt =====
-- The type string of a CoT event: `parse_cot_type` and the type that `cto_to_cot_xml` makes up.
use tactical_gateway.Base.{
  ◌≡◌, Bool, true, false, Option, none, some, List, [], ◌∷◌, ◌++◌, Text, codes, text_eq, lower,
  upper, lower_char, upper_char, split, if◌then◌else◌, arith,
}
use tactical_gateway.Base.Dict.{lookup}
use tactical_gateway.Schema.{
  BattleDimension, land, air, sea_surface, sea_subsurface, space, sof, unknown_dimension,
}
use tactical_gateway.Recognize.Affiliate.{
  Affiliation, friend, hostile, neutral, unknown, suspect, assumed_friend, pending,
}

-- `_AFFILIATION_MAP`
unfoldable pub affiliation_map : List (Text × Affiliation)
affiliation_map =
    (codes "f", friend)
    ∷ (codes "h", hostile)
    ∷ (codes "n", neutral)
    ∷ (codes "u", unknown)
    ∷ (codes "p", pending)
    ∷ (codes "s", suspect)
    ∷ (codes "a", assumed_friend)
    ∷ (codes "j", friend)
    ∷ (codes "k", hostile)
    ∷ []

-- `_DIMENSION_MAP`
unfoldable pub dimension_map : List (Text × BattleDimension)
dimension_map =
    (codes "G", land)
    ∷ (codes "A", air)
    ∷ (codes "S", sea_surface)
    ∷ (codes "U", sea_subsurface)
    ∷ (codes "P", space)
    ∷ (codes "F", sof)
    ∷ []

abbrev pub dimension_part : List Text → Option BattleDimension
dimension_part [] = none
dimension_part (d ∷ _) = lookup (upper d) dimension_map

abbrev pub type_parts : List Text → Option Affiliation × Option BattleDimension
type_parts [] = (none, none)
type_parts (a ∷ rest) = (lookup (lower a) affiliation_map, dimension_part rest)

abbrev pub typed_parts : List Text → Option Affiliation × Option BattleDimension
typed_parts [] = (none, none)
typed_parts (p ∷ rest) = if text_eq p (codes "a") then type_parts rest else (none, none)

unfoldable pub parse_cot_type : Text → Option Affiliation × Option BattleDimension
unfolding split lookup affiliation_map dimension_map lower_char upper_char text_eq
parse_cot_type cot_type = typed_parts (split b'-' cot_type)

abbrev pub same_affiliation : Affiliation → Affiliation → Bool
same_affiliation friend friend = true
same_affiliation hostile hostile = true
same_affiliation neutral neutral = true
same_affiliation unknown unknown = true
same_affiliation suspect suspect = true
same_affiliation assumed_friend assumed_friend = true
same_affiliation pending pending = true
same_affiliation _ _ = false

abbrev pub same_dimension : BattleDimension → BattleDimension → Bool
same_dimension land land = true
same_dimension air air = true
same_dimension sea_surface sea_surface = true
same_dimension sea_subsurface sea_subsurface = true
same_dimension space space = true
same_dimension sof sof = true
same_dimension unknown_dimension unknown_dimension = true
same_dimension _ _ = false

-- The loops over the two maps: the first key of the value, or the default.
unfoldable pub affiliation_key : Option Affiliation → List (Text × Affiliation) → Text
affiliation_key none d = codes "u"
affiliation_key (some a) [] = codes "u"
affiliation_key (some a) ((k, v) ∷ d) =
    if same_affiliation v a then k else affiliation_key (some a) d

unfoldable pub dimension_key : Option BattleDimension → List (Text × BattleDimension) → Text
dimension_key none d = codes "G"
dimension_key (some a) [] = codes "G"
dimension_key (some a) ((k, v) ∷ d) = if same_dimension v a then k else dimension_key (some a) d

unfoldable pub synthesize_type : Option Affiliation → Option BattleDimension → Text
unfolding affiliation_key dimension_key affiliation_map dimension_map
synthesize_type affiliation dimension =
    codes "a-"
    ++ (affiliation_key affiliation affiliation_map
        ++ (codes "-" ++ dimension_key dimension dimension_map))

-- What a made-up type says: a missing affiliation is unknown, and a dimension that is missing or
-- unknown is land.
abbrev pub said_affiliation : Option Affiliation → Affiliation
said_affiliation none = unknown
said_affiliation (some a) = a

abbrev pub said_dimension : Option BattleDimension → BattleDimension
said_dimension none = land
said_dimension (some unknown_dimension) = land
said_dimension (some d) = d

-- A type that is made up for a CTO reads back as its affiliation and dimension, where a missing
-- affiliation is unknown, and a missing or unknown dimension is land.
pub parse_cot_type-synthesize_type :
    (a : Option Affiliation) (d : Option BattleDimension)
    → parse_cot_type (synthesize_type a d) ≡ (some (said_affiliation a), some (said_dimension d))
unfolding parse_cot_type synthesize_type
parse_cot_type-synthesize_type a d = ground arith
