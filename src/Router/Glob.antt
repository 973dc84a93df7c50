-- ===== src/Router/Glob.antt =====
-- `fnmatch.fnmatchcase` of the Python library, which `_matches` of route_engine.py calls.
use tactical_gateway.Base.{
  ℕ, zero, suc, ◌+◌, length, Bool, true, false, not, ◌&&◌, ◌||◌, Option, none, some, List, [], ◌∷◌,
  Text, leb, ◌==◌, if◌then◌else◌,
}

-- A range of a class, and one position of a pattern.
pub record Range : Type 0 where
  pub low : ℕ
  pub high : ℕ

pub data GlobPart : Type 0 where
  star any_char : GlobPart
  exactly : ℕ → GlobPart
  one_of none_of : List Range → GlobPart

abbrev single : ℕ → Range
single c = record { low = c; high = c }

-- The ranges of a class: `x-y` is a range, a hyphen at either end itself.
unfoldable pub class_ranges : Text → List Range
class_ranges [] = []
class_ranges (x ∷ []) = single x ∷ []
class_ranges (x ∷ y ∷ []) = single x ∷ single y ∷ []
class_ranges (x ∷ y ∷ z ∷ r) =
    let pair = class_ranges r in
    let rest = class_ranges (y ∷ z ∷ r) in
    if y == b'-' then record { low = x; high = z } ∷ pair else single x ∷ rest

unfoldable pub class_part : Text → GlobPart
unfolding class_ranges
class_part [] = one_of []
class_part (c ∷ r) = if c == b'!' then none_of (class_ranges r) else one_of (class_ranges (c ∷ r))

unfoldable pub in_ranges : ℕ → List Range → Bool
in_ranges c [] = false
in_ranges c (r ∷ rs) = (leb r.low c && leb c r.high) || in_ranges c rs

-- Up to the closing bracket and behind it; a bracket or a `!` and a bracket at the start belong to
-- the class.
unfoldable pub up_to_bracket : Text → Option (Text × Text)
up_to_bracket [] = none
up_to_bracket (c ∷ s) = if c == b']' then some ([], s) else with_head (up_to_bracket s)
  where
    with_head : Option (Text × Text) → Option (Text × Text)
    with_head none = none
    with_head (some (t, rest)) = some (c ∷ t, rest)

abbrev pub put_front : ℕ → Option (Text × Text) → Option (Text × Text)
put_front c none = none
put_front c (some (t, rest)) = some (c ∷ t, rest)

unfoldable pub class_body : Text → Option (Text × Text)
unfolding up_to_bracket
class_body [] = none
class_body (c ∷ s) =
    if c == b'!' then put_front c (behind_bang s) else put_front c (up_to_bracket s)
  where
    behind_bang : Text → Option (Text × Text)
    behind_bang [] = none
    behind_bang (d ∷ r) = put_front d (up_to_bracket r)

abbrev pub class_parts : Option (Text × Text) → (ℕ → List GlobPart) → List GlobPart
class_parts none skip = exactly b'[' ∷ skip 0
class_parts (some (body, rest)) skip = class_part body ∷ skip (length body + 1)

-- `fnmatch.translate`; the number counts characters of a class that are still to be skipped.
unfoldable pub glob_parts : ℕ → Text → List GlobPart
unfolding class_body class_part
glob_parts n [] = []
glob_parts (suc n) (c ∷ s) = glob_parts n s
glob_parts zero (c ∷ s) =
    let next = glob_parts 0 s in
    if c == b'*'
    then star ∷ next
    else if c == b'?'
    then any_char ∷ next
    else if c == b'['
    then class_parts (class_body s) (λ k. glob_parts k s)
    else exactly c ∷ next

unfoldable pub some_suffix : (Text → Bool) → Text → Bool
some_suffix p [] = p []
some_suffix p (c ∷ s) = p (c ∷ s) || some_suffix p s

abbrev pub char_fits : GlobPart → ℕ → Bool
char_fits star c = false
char_fits any_char c = true
char_fits (exactly d) c = d == c
char_fits (one_of rs) c = in_ranges c rs
char_fits (none_of rs) c = not (in_ranges c rs)

unfoldable pub glob_match : List GlobPart → Text → Bool
unfolding some_suffix in_ranges
glob_match [] [] = true
glob_match [] (_ ∷ _) = false
glob_match (star ∷ ps) s = some_suffix (glob_match ps) s
glob_match (p ∷ ps) [] = false
glob_match (p ∷ ps) (c ∷ s) = char_fits p c && glob_match ps s

unfoldable pub fnmatchcase : Text → Text → Bool
unfolding glob_parts glob_match
fnmatchcase name pat = glob_match (glob_parts 0 pat) name
