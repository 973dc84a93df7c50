-- ===== src/Ovl/Model.antt =====
-- services/gateway/ovl/model.py and the first half of services/gateway/ovl/parser.py: an overlay, and
-- how it is read from its XML.
use tactical_gateway.Base.{
  ℕ, ◌+◌, ◌*◌, ◌-◌, Bool, true, ◌&&◌, Option, none, some, List, [], ◌∷◌, ◌++◌, Text, codes, strip,
  lower, text_eq, words, leb, if◌then◌else◌, traverse, ◌>>=ₒ◌,
}
use tactical_gateway.Xml.{Element, Elements, tag_of, text_of, children_of, find, findall}
use tactical_gateway.Schema.Records.{Floats}

pub record Position (F : Type 0) : Type 0 where
  pub lat : F
  pub lon : F

pub record Modifier : Type 0 where
  pub value : Text
  pub vis : Bool

pub record MilbObject (F : Type 0) : Type 0 where
  pub mil_id : Text
  pub name : Text
  pub visibility : Bool
  pub modifiers : List (Text × Modifier)
  pub label_position : Option (Position F)
  pub line_color : Option Text
  pub fill_color : Option Text
  pub size : Option Text
  pub positions : List (Position F)

pub record OvlModel (F : Type 0) : Type 0 where
  pub name : Text
  pub create_time : Option ℕ
  pub modified_time : Option ℕ
  pub objects : List (MilbObject F)

abbrev pub modifier_keys : List Text
modifier_keys =
    codes "T"
    ∷ codes "T1"
    ∷ codes "N"
    ∷ codes "W"
    ∷ codes "W1"
    ∷ codes "H"
    ∷ codes "Q"
    ∷ codes "Y"
    ∷ []

-- `_text`
abbrev pub stripped : Option Text → Text
stripped none = []
stripped (some t) = strip t

abbrev pub element_text : Option Element → Text
element_text none = []
element_text (some e) = stripped (text_of e)

-- `_bool`
unfoldable pub is_true_text : Text → Bool
unfolding strip text_eq
is_true_text t = text_eq (lower (strip t)) (codes "true")

abbrev pub visibility_of : Option Element → Bool
visibility_of none = true
visibility_of (some e) = is_true_text (element_text (some e))

-- `_text(…) or None`
abbrev pub text_or_none : Text → Option Text
text_or_none [] = none
text_or_none (c ∷ t) = some (c ∷ t)

-- One pair of a modifier and its `_VIS` element, if either is there.
abbrev pub modifier_of : Text → Option Element → Option Element → List (Text × Modifier)
modifier_of key none none = []
modifier_of key (some v) vis =
    (key, record { value = element_text (some v); vis = is_true_text (element_text vis) }) ∷ []
modifier_of key none (some vis) =
    (key, record { value = []; vis = is_true_text (element_text (some vis)) }) ∷ []

unfoldable pub modifiers_of : List Text → Elements → List (Text × Modifier)
unfolding find
modifiers_of [] es = []
modifiers_of (k ∷ ks) es =
    modifier_of k (find k es) (find (k ++ codes "_VIS") es) ++ modifiers_of ks es

abbrev pub keep_text : Text → List Text → List Text
keep_text [] ts = ts
keep_text (c ∷ t) ts = (c ∷ t) ∷ ts

-- The texts of the `POSITION` elements that are not empty.
unfoldable pub position_texts : List Element → List Text
unfolding strip
position_texts [] = []
position_texts (e ∷ es) = keep_text (element_text (some e)) (position_texts es)

-- `int(t) if t.isdigit() else None`
unfoldable pub digits_value : ℕ → Text → Option ℕ
digits_value n [] = some n
digits_value n (c ∷ t) =
    let rest = digits_value (n * 10 + (c - b'0')) t in
    if leb b'0' c && leb c b'9' then rest else none

abbrev pub int_or_none : Text → Option ℕ
int_or_none [] = none
int_or_none (c ∷ t) = digits_value 0 (c ∷ t)

module _ {F : Type 0} (floats : Floats F) where
  -- `Position.parse`; `none` is a ValueError.
  abbrev pub position_of : List Text → Option (Position F)
  position_of [] = none
  position_of (x ∷ []) = none
  position_of (x ∷ y ∷ []) =
      floats.parse x >>=ₒ λ lat. floats.parse y >>=ₒ λ lon. some (record { lat = lat; lon = lon })
  position_of (x ∷ y ∷ z ∷ r) = none

  unfoldable pub parse_position : Text → Option (Position F)
  unfolding words strip
  parse_position t = position_of (words (strip t))

  abbrev pub label_position_of : Text → Option (Option (Position F))
  label_position_of [] = some none
  label_position_of (c ∷ t) = parse_position (c ∷ t) >>=ₒ λ p. some (some p)

  unfoldable pub parse_milbobject : Element → Option (MilbObject F)
  unfolding find findall modifiers_of position_texts
  parse_milbobject e =
      let es = children_of e in
      label_position_of (element_text (find (codes "LABEL_POSITION") es)) >>=ₒ λ label.
      traverse parse_position (position_texts (findall (codes "POSITION") es)) >>=ₒ λ ps.
      some (record {
        mil_id = element_text (find (codes "MIL_ID") es);
        name = element_text (find (codes "NAME") es);
        visibility = visibility_of (find (codes "VISIBILITY") es);
        modifiers = modifiers_of modifier_keys es;
        label_position = label;
        line_color = text_or_none (element_text (find (codes "LINE_COLOR") es));
        fill_color = text_or_none (element_text (find (codes "FILL_COLOR") es));
        size = text_or_none (element_text (find (codes "SIZE") es));
        positions = ps;
      })

  -- `parse_ovl_bytes` behind the parser of the XML, which gives the root or raises.
  unfoldable pub parse_model : Element → Option (OvlModel F)
  unfolding text_eq find findall parse_milbobject
  parse_model root =
      let es = children_of root in
      if text_eq (tag_of root) (codes "MODEL")
      then (traverse parse_milbobject (findall (codes "milbobject") es) >>=ₒ λ objects.
          some (record {
            name = element_text (find (codes "NAME") es);
            create_time = int_or_none (element_text (find (codes "CREATE_TIME") es));
            modified_time = int_or_none (element_text (find (codes "MODIFIED_TIME") es));
            objects = objects;
          }))
      else none
