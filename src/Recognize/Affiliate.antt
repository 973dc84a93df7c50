-- ===== src/Recognize/Affiliate.antt =====
-- The affiliation character of a SIDC in services/gateway/kmz_recognize.py.
use tactical_gateway.Base.{
  ℕ, Bool, Option, none, some, List, [], ◌∷◌, ◌++◌, Text, codes, text_eq, length, take, drop, lower,
  strip, ◌==◌, if◌then◌else◌,
}
use tactical_gateway.Recognize.{hostile_desc, friendly_desc}

pub data Affiliation : Type 0 where
  friend hostile neutral unknown suspect assumed_friend pending : Affiliation

pub data AffiliationSource : Type 0 where
  description_hostile description_friendly suspected_modifier configured_default : AffiliationSource

-- `_AFFIL_CHAR`, with the names that are its keys.
unfoldable pub affil_char : Affiliation → ℕ
affil_char friend = b'F'
affil_char hostile = b'H'
affil_char neutral = b'N'
affil_char unknown = b'U'
affil_char suspect = b'S'
affil_char assumed_friend = b'A'
affil_char pending = b'P'

abbrev pub affil_name : Affiliation → Text
affil_name friend = codes "friend"
affil_name hostile = codes "hostile"
affil_name neutral = codes "neutral"
affil_name unknown = codes "unknown"
affil_name suspect = codes "suspect"
affil_name assumed_friend = codes "assumed_friend"
affil_name pending = codes "pending"

-- The table in its order.
abbrev pub affil_table : List Affiliation
affil_table = friend ∷ hostile ∷ neutral ∷ unknown ∷ suspect ∷ assumed_friend ∷ pending ∷ []

unfoldable pub named : Text → List Affiliation → Affiliation
unfolding text_eq
named v [] = unknown
named v (a ∷ r) = if text_eq (affil_name a) v then a else named v r

-- `_get_default_affiliation`, from the value of KMZ_DEFAULT_AFFILIATION if it is set.
unfoldable pub default_affiliation : Option Text → Affiliation
unfolding named strip
default_affiliation none = unknown
default_affiliation (some v) = named (lower (strip v)) affil_table

unfoldable pub with_char : ℕ → List Affiliation → Option Affiliation
unfolding affil_char
with_char c [] = none
with_char c (a ∷ r) = if affil_char a == c then some a else with_char c r

abbrev pub or_unknown : Option Affiliation → Affiliation
or_unknown none = unknown
or_unknown (some a) = a

-- `_affil_from_sidc`; `none` is the IndexError on a shorter text.
unfoldable pub affil_from_sidc : Text → Option Affiliation
affil_from_sidc [] = none
affil_from_sidc (_ ∷ []) = none
affil_from_sidc (_ ∷ c ∷ _) = some (or_unknown (with_char c affil_table))

abbrev pub second_char : Text → Option Affiliation
second_char [] = none
second_char (_ ∷ []) = none
second_char (_ ∷ c ∷ _) = with_char c affil_table

unfoldable pub affiliation_from_explicit_sidc : Text → Option Affiliation
affiliation_from_explicit_sidc sidc = if length sidc == 15 then second_char sidc else none

-- The base affiliation from the description and the configured default, with its source.
unfoldable pub base_affiliation : Option Text → Text → Affiliation × AffiliationSource
unfolding hostile_desc friendly_desc default_affiliation
base_affiliation env description =
    if hostile_desc description
    then (hostile, description_hostile)
    else if friendly_desc description
    then (friend, description_friendly)
    else (default_affiliation env, configured_default)

abbrev pub suspect_of : Affiliation → Affiliation
suspect_of friend = assumed_friend
suspect_of _ = suspect

unfoldable pub chosen_affiliation : Option Text → Text → Bool → Affiliation × AffiliationSource
unfolding base_affiliation
chosen_affiliation env description suspected =
    let (base, source) = base_affiliation env description in
    if suspected then (suspect_of base, suspected_modifier) else (base, source)

-- `none` is the ValueError on a SIDC that has not 15 characters.
unfoldable pub apply_affiliation :
    Option Text → Text → Text → Bool → Option (Text × AffiliationSource)
unfolding affil_char chosen_affiliation
apply_affiliation env sidc description suspected =
    let (affil, source) = chosen_affiliation env description suspected in
    if length sidc == 15
    then some (take 1 sidc ++ (affil_char affil ∷ drop 2 sidc), source)
    else none
