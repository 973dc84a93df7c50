-- ===== src/Recognize.antt =====
-- The label patterns of services/gateway/kmz_prefix_table.py and kmz_recognize.py: what the regular
-- expressions of the two files match, and the affiliations. Labels and descriptions are of
-- Latin-1 (code points below 256).
pub mod Table
pub mod Affiliate
pub mod Letters
pub mod Pipeline
pub mod Laws
mod Samples
use tactical_gateway.Base.{
  ℕ, zero, suc, ◌+◌, ◌-◌, Bool, true, false, not, ◌&&◌, ◌||◌, Option, none, some, List, [], ◌∷◌,
  ◌++◌, Text, codes, text_eq, lower_char, is_space, drop_while, leb, ◌==◌, if◌then◌else◌, drop,
}

-- The word characters from 128 to 255.
abbrev is_high_word : ℕ → Bool
is_high_word c =
    (c == 0xaa)
    || (leb 0xb2 c && leb c 0xb3)
    || (c == 0xb5)
    || (leb 0xb9 c && leb c 0xba)
    || (leb 0xbc c && leb c 0xbe)
    || (leb 0xc0 c && leb c 0xff && not (c == 0xd7) && not (c == 0xf7))

-- A word character, `\w`, of Latin-1: letters, digits and numerals, and `_`.
unfoldable pub is_word : ℕ → Bool
is_word c =
    (leb b'0' c && leb c b'9')
    || (leb b'A' c && leb c b'Z')
    || (leb b'a' c && leb c b'z')
    || (c == b'_')
    || is_high_word c

abbrev pub is_upper : ℕ → Bool
is_upper c = leb b'A' c && leb c b'Z'

abbrev pub is_digit : ℕ → Bool
is_digit c = leb b'0' c && leb c b'9'

-- The rest behind a literal that matches at the start, whatever its case.
unfoldable pub literal : Text → Text → Option Text
unfolding lower_char
literal [] s = some s
literal (_ ∷ _) [] = none
literal (p ∷ ps) (c ∷ s) = if lower_char p == lower_char c then literal ps s else none

-- `\b` behind a word character: the end, or a character that is none.
unfoldable pub at_boundary : Text → Bool
unfolding is_word
at_boundary [] = true
at_boundary (c ∷ _) = not (is_word c)

-- `$`: the end, or a last line feed.
unfoldable pub at_end : Text → Bool
at_end [] = true
at_end (c ∷ []) = c == 10
at_end (_ ∷ _ ∷ _) = false

abbrev pub is_empty : Text → Bool
is_empty [] = true
is_empty (_ ∷ _) = false

-- `\s+\S`
unfoldable pub spaces_then_more : Text → Bool
unfolding is_space drop_while
spaces_then_more [] = false
spaces_then_more (c ∷ s) = is_space c && not (is_empty (drop_while is_space s))

abbrev pub test : (Text → Bool) → Option Text → Bool
test p none = false
test p (some rest) = p rest

-- The two shapes of the prefix table: `^p(\s+\S|$)`, and `^p|q\b` for `prefix_word "p|q"`, where
-- the boundary belongs to the last alternative alone.
pub data Pattern : Type 0 where
  prefix : Text → Pattern
  prefix_word : Text → Text → Pattern

unfoldable pub matches : Pattern → Text → Bool
unfolding literal at_boundary at_end spaces_then_more
matches (prefix p) s = test (λ rest. spaces_then_more rest || at_end rest) (literal p s)
matches (prefix_word p q) s = test (λ _. true) (literal p s) || test at_boundary (literal q s)

-- `^(route|axis)\b`
unfoldable pub matches_route : Text → Bool
unfolding literal at_boundary
matches_route s =
    test at_boundary (literal (codes "route") s) || test at_boundary (literal (codes "axis") s)

-- `^[A-Z]{1,2}\d{3,4}\b`: the letters end at the first digit, and the digits at the boundary.
unfoldable pub count_while : (ℕ → Bool) → Text → ℕ
count_while p [] = 0
count_while p (c ∷ s) = elim (p c) [ true ↦ suc (count_while p s) | false ↦ 0 ]

unfoldable pub matches_target : Text → Bool
unfolding count_while at_boundary
matches_target s =
    let letters = count_while is_upper s in
    let digits = drop letters s in
    let n = count_while is_digit digits in
    ((letters == 1) || (letters == 2)) && ((n == 3) || (n == 4)) && at_boundary (drop n digits)

-- `^suspected\s+`, with what follows the match.
unfoldable pub suspected_rest : Text → Option Text
unfolding literal is_space drop_while
suspected_rest s = behind (literal (codes "suspected") s)
  where
    skip : Text → Option Text
    skip [] = none
    skip (c ∷ r) = if is_space c then some (drop_while is_space r) else none

    behind : Option Text → Option Text
    behind none = none
    behind (some r) = skip r

-- A phrase of the description patterns: a word, or two words with white space between them.
pub data Phrase : Type 0 where
  word : Text → Phrase
  words : Text → Text → Phrase

abbrev pub behind_spaces : Text → Option Text → Bool
behind_spaces w none = false
behind_spaces w (some []) = false
behind_spaces w (some (c ∷ r)) = is_space c && test at_boundary (literal w (drop_while is_space r))

unfoldable pub phrase_here : Phrase → Text → Bool
unfolding literal at_boundary is_space drop_while
phrase_here (word w) s = test at_boundary (literal w s)
phrase_here (words v w) s = behind_spaces w (literal v s)

unfoldable pub any_phrase : List Phrase → Text → Bool
unfolding phrase_here
any_phrase [] s = false
any_phrase (p ∷ ps) s = phrase_here p s || any_phrase ps s

-- `re.search` of `\b(…)\b`: `inside` says whether the character before is a word character.
unfoldable pub search_phrases : List Phrase → Bool → Text → Bool
unfolding any_phrase is_word
search_phrases ps inside [] = false
search_phrases ps inside (c ∷ s) =
    (not inside && any_phrase ps (c ∷ s)) || search_phrases ps (is_word c) s

unfoldable pub hostile_desc : Text → Bool
unfolding search_phrases
hostile_desc =
    search_phrases
      (word (codes "enemy")
        ∷ word (codes "hostile")
        ∷ word (codes "opfor")
        ∷ word (codes "threat")
        ∷ words (codes "red") (codes "force")
        ∷ [])
      false

unfoldable pub friendly_desc : Text → Bool
unfolding search_phrases
friendly_desc =
    search_phrases
      (word (codes "friendly")
        ∷ word (codes "blufor")
        ∷ words (codes "blue") (codes "force")
        ∷ word (codes "own")
        ∷ words (codes "own") (codes "force")
        ∷ [])
      false
