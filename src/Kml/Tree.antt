-- ===== src/Kml/Tree.antt =====
-- The searches in a KML tree that ignore namespaces: `_strip_ns`, `_find_ns` and their kin.
use tactical_gateway.Base.{
  ◌==◌, Bool, Option, none, some, List, [], ◌∷◌, ◌++◌, Text, text_eq, if◌then◌else◌,
}
use tactical_gateway.Xml.{Element, element, Elements, nil, cons, tag_of, children_of}

-- What follows the first `}`.
unfoldable pub after_brace : Text → Option Text
after_brace [] = none
after_brace (c ∷ t) = let rest = after_brace t in if c == b'}' then some t else rest

abbrev or_whole : Text → Option Text → Text
or_whole t none = t
or_whole t (some r) = r

unfoldable pub strip_ns : Text → Text
unfolding after_brace
strip_ns t = or_whole t (after_brace t)

abbrev pub is_named : Text → Element → Bool
is_named name e = text_eq (strip_ns (tag_of e)) name

-- `elem.iter()`: the element and what is below it, in the order of the document.
unfoldable mutual
  pub iter : Element → List Element
  iter (element tag attrib text children) = element tag attrib text children ∷ iter_all children

  pub iter_all : Elements → List Element
  iter_all nil = []
  iter_all (cons e es) = iter e ++ iter_all es

unfoldable pub named : Text → List Element → List Element
unfolding strip_ns text_eq
named name [] = []
named name (e ∷ es) = let rest = named name es in if is_named name e then e ∷ rest else rest

abbrev pub first : List Element → Option Element
first [] = none
first (e ∷ _) = some e

abbrev pub findall_ns : Text → Element → List Element
findall_ns name e = named name (iter e)

abbrev pub find_ns : Text → Element → Option Element
find_ns name e = first (findall_ns name e)

unfoldable pub direct_find : Text → Elements → Option Element
unfolding strip_ns text_eq
direct_find name nil = none
direct_find name (cons e es) = if is_named name e then some e else direct_find name es

abbrev pub direct_find_ns : Text → Element → Option Element
direct_find_ns name e = direct_find name (children_of e)
