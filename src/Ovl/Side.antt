-- ===== src/Ovl/Side.antt =====
-- services/gateway/ovl/sidc.py: whose side the second character of a symbol code says.
use tactical_gateway.Base.{
  ℕ, ◌≡◌, ◌⊎◌, refl, Bool, true, false, ◌||◌, [], ◌∷◌, Text, codes, upper_char, text_eq, ◌==◌,
  arith,
}
use tactical_gateway.Base.Dict.{lookup}
use tactical_gateway.Schema.Records.{Floats}
use tactical_gateway.Recognize.Affiliate
use tactical_gateway.Ovl.Sidc.{classify_affiliation, affil_char_table, parse_affiliation_char}
use tactical_gateway.Ovl.Decode.{to_cto_affiliation}

-- Whether the character is one of the text.
abbrev pub among : ℕ → Text → Bool
among c [] = false
among c (d ∷ s) = c == d || among c s

-- The side that a character says, as the CTO has it.
abbrev pub CharSays : ℕ → Affiliate.Affiliation → Type 0
CharSays c a =
    ((among c (codes "FAGWD") ≡ true) × (a ≡ Affiliate.friend))
    ⊎ ((among c (codes "HSMJK") ≡ true) × (a ≡ Affiliate.hostile))
    ⊎ ((among c (codes "NL") ≡ true) × (a ≡ Affiliate.neutral))
    ⊎ ((among c (codes "FAGWDHSMJKNL") ≡ false) × (a ≡ Affiliate.unknown))

-- The side that a symbol code says: that of its second character, in either case.
abbrev pub Says : Text → Affiliate.Affiliation → Type 0
Says [] a = a ≡ Affiliate.unknown
Says (_ ∷ []) a = a ≡ Affiliate.unknown
Says (_ ∷ c ∷ _) a = CharSays (upper_char c) a

module _ {F : Type 0} where
  pub classify_affiliation-Says :
      (floats : Floats F) (sidc : Text)
      → Says sidc (to_cto_affiliation floats (classify_affiliation sidc))
  unfolding classify_affiliation parse_affiliation_char lookup affil_char_table text_eq
  classify_affiliation-Says floats [] = refl
  classify_affiliation-Says floats (_ ∷ []) = refl
  classify_affiliation-Says floats (_ ∷ c ∷ _) = ground arith
