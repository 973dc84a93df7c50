-- ===== src/Xml.antt =====
-- What the normalizers and parsers use of `xml.etree.ElementTree`: a tree of elements, with the
-- dictionary of attributes in its order. Text behind an element is not read by the code.
use tactical_gateway.Base.{Option, none, some, List, [], ◌∷◌, Text, text_eq, if◌then◌else◌}
use tactical_gateway.Base.Dict.{lookup}

mutual
  pub data Element : Type 0 where
    element : Text → List (Text × Text) → Option Text → Elements → Element

  pub data Elements : Type 0 where
    nil : Elements
    cons : Element → Elements → Elements

abbrev pub tag_of : Element → Text
tag_of (element t _ _ _) = t

abbrev pub attrib_of : Element → List (Text × Text)
attrib_of (element _ a _ _) = a

abbrev pub text_of : Element → Option Text
text_of (element _ _ t _) = t

abbrev pub children_of : Element → Elements
children_of (element _ _ _ c) = c

-- `elem.get(k)`
abbrev pub get : Text → Element → Option Text
get k e = lookup k (attrib_of e)

-- `elem.find(tag)` and `elem.findall(tag)` on the children.
unfoldable pub find : Text → Elements → Option Element
unfolding text_eq
find t nil = none
find t (cons e es) = if text_eq (tag_of e) t then some e else find t es

unfoldable pub findall : Text → Elements → List Element
unfolding text_eq
findall t nil = []
findall t (cons e es) = let rest = findall t es in if text_eq (tag_of e) t then e ∷ rest else rest
