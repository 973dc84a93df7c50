-- ===== src/Base/Strings.antt =====
-- Text as the list of its code points, with the `str` methods that the sources call.
-- Case is that of ASCII; a code point beyond it has no other case.
use Prim.Native.Nat.{ℕ, ◌+◌, ◌-◌}
use Prim.Native.Char.{code}
use Prim.Native.String.{String}
use mathlib.Core.Path.{◌≡◌, refl}
use mathlib.Core.Logic.{◌↔◌, ◌≢◌}
use mathlib.Core.Bool.{Bool, true, false, ◌&&◌, ◌||◌}
use mathlib.Core.List.{List, [], ◌∷◌, map, reverse}
use native.Mathlib.Omega.{arith}
use tactical_gateway.Base.Tests.{leb, ◌==◌, if◌then◌else◌}

abbrev pub Text : Type 0
Text = List ℕ

abbrev pub codes : String → Text
codes String.[] = []
codes (String.◌∷◌ c s) = code c ∷ codes s

-- `a == b` on two texts.
unfoldable pub text_eq : Text → Text → Bool
text_eq [] [] = true
text_eq [] (_ ∷ _) = false
text_eq (_ ∷ _) [] = false
text_eq (x ∷ xs) (y ∷ ys) = (x == y) && text_eq xs ys

pub text_eq_iff : (a b : Text) → (text_eq a b ≡ true) ↔ (a ≡ b)
unfolding text_eq
text_eq_iff [] [] = ground arith
text_eq_iff [] (y ∷ ys) = ground arith
text_eq_iff (x ∷ xs) [] = ground arith
text_eq_iff (x ∷ xs) (y ∷ ys) = ground (arith, text_eq_iff xs ys)

pub text_eq_refl : (a : Text) → text_eq a a ≡ true
text_eq_refl a = (text_eq_iff a a).1 refl

unfoldable pub lower_char : ℕ → ℕ
lower_char c = if leb b'A' c && leb c b'Z' then c + 32 else c

unfoldable pub upper_char : ℕ → ℕ
upper_char c = if leb b'a' c && leb c b'z' then c - 32 else c

abbrev pub lower : Text → Text
lower = map lower_char

abbrev pub upper : Text → Text
upper = map upper_char

-- `s.startswith(p)`
unfoldable pub starts_with : Text → Text → Bool
starts_with s [] = true
starts_with [] (_ ∷ _) = false
starts_with (x ∷ s) (y ∷ p) = (x == y) && starts_with s p

-- `s.endswith(p)`
unfoldable pub ends_with : Text → Text → Bool
unfolding starts_with
ends_with s p = starts_with (reverse s) (reverse p)

-- `p in s`
unfoldable pub has_substring : Text → Text → Bool
unfolding starts_with
has_substring [] p = starts_with [] p
has_substring (x ∷ s) p = starts_with (x ∷ s) p || has_substring s p

-- `str.isspace` on one character, which is also what `\s` matches.
unfoldable pub is_space : ℕ → Bool
is_space c =
    (leb 9 c && leb c 13)
    || (leb 28 c && leb c 32)
    || (c == 0x85)
    || (c == 0xa0)
    || (c == 0x1680)
    || (leb 0x2000 c && leb c 0x200a)
    || (c == 0x2028)
    || (c == 0x2029)
    || (c == 0x202f)
    || (c == 0x205f)
    || (c == 0x3000)

unfoldable pub drop_while : (ℕ → Bool) → Text → Text
drop_while p [] = []
drop_while p (c ∷ s) = elim (p c) [ true ↦ drop_while p s | false ↦ c ∷ s ]

-- `s.strip()`
unfoldable pub strip : Text → Text
unfolding drop_while is_space
strip s = reverse (drop_while is_space (reverse (drop_while is_space s)))

-- Puts a character in front of the first word.
unfoldable pub split_char : ℕ → ℕ → List Text → List Text
split_char sep c [] = (c ∷ []) ∷ []
split_char sep c (w ∷ ws) = if c == sep then [] ∷ w ∷ ws else (c ∷ w) ∷ ws

-- `s.split(sep)` for a separator of one character: never empty.
unfoldable pub split : ℕ → Text → List Text
unfolding split_char
split sep [] = [] ∷ []
split sep (c ∷ s) = split_char sep c (split sep s)

-- Puts a character in front of what follows it: a word of its own before white space or the end.
abbrev pub word_char : ℕ → Text → List Text → List Text
word_char c [] ws = (c ∷ []) ∷ ws
word_char c (d ∷ s) [] = (c ∷ []) ∷ []
word_char c (d ∷ s) (w ∷ ws) = if is_space d then (c ∷ []) ∷ w ∷ ws else (c ∷ w) ∷ ws

-- `s.split()`
unfoldable pub words : Text → List Text
unfolding is_space
words [] = []
words (c ∷ s) = let rest = words s in if is_space c then rest else word_char c s rest

pub text_ne : (a b : Text) → text_eq a b ≡ false → a ≢ b
text_ne a b e same = cc (e, (text_eq_iff a b).1 same)

pub text_eq_ne : (a b : Text) → a ≢ b → text_eq a b ≡ false
text_eq_ne a b ne = go (text_eq a b) refl
  where
    go : (t : Bool) → text_eq a b ≡ t → t ≡ false
    go true e = absurd (ne ((text_eq_iff a b).0 e))
    go false e = refl
