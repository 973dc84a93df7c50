-- ===== src/CotXml/Detail.antt =====
-- The subtree of an event's detail as a dictionary (`_detail_to_attributes`), and back
-- (`_emit_detail_node`, which `_emit_detail_for_pb` of cot_pb.py repeats).
use tactical_gateway.Base.{
  Bool, Option, none, some, List, [], ◌∷◌, Text, codes, text_eq, strip, starts_with, if◌then◌else◌,
}
use tactical_gateway.Xml.{Element, element, Elements, nil, cons, tag_of}
use tactical_gateway.Schema.Records.{
  Json, null, boolean, integer, float, string, array, object, Items, empty, item, Members, end,
  member, attribute, set_attribute,
}

abbrev pub text_key : Text
text_key = codes "_text"

abbrev pub children_key : Text
children_key = codes "_children"

module _ {F : Type 0} where
  -- `dict(child.attrib)`
  abbrev pub attrib_members : List (Text × Text) → Members F
  attrib_members [] = end
  attrib_members ((k, v) ∷ a) = member k (string v) (attrib_members a)

  abbrev set_text : Text → Members F → Members F
  set_text [] d = d
  set_text (c ∷ t) d = set_attribute text_key (string (c ∷ t)) d

  abbrev pub with_text : Option Text → Members F → Members F
  with_text none d = d
  with_text (some t) d = set_text (strip t) d

  abbrev pub with_children : Elements → Members F → Members F → Members F
  with_children nil sub d = d
  with_children (cons _ _) sub d = set_attribute children_key (object sub) d

  -- `xs.append(x)`
  unfoldable pub append_item : Items F → Json F → Items F
  append_item empty x = item x empty
  append_item (item y xs) x = item y (append_item xs x)

  -- What stands under the tag of a node, when another node has it already.
  abbrev repeated : Json F → Json F → Json F
  repeated (array xs) node = array (append_item xs node)
  repeated v node = array (item v (item node empty))

  abbrev pub add_to : Option (Json F) → Text → Json F → Members F → Members F
  add_to none tag node d = set_attribute tag node d
  add_to (some v) tag node d = set_attribute tag (repeated v node) d

  abbrev pub add_node : Text → Json F → Members F → Members F
  add_node tag node d = add_to (attribute tag d) tag node d

-- A child as the dictionary of its attributes, its text and its children.
unfoldable mutual
  pub node_of : {F : Type 0} → Element → Json F
  node_of (element _ attrib text children) =
      object
        (with_children children (nodes_from end children) (with_text text (attrib_members attrib)))

  -- The loop over the children, on the dictionary so far.
  pub nodes_from : {F : Type 0} → Members F → Elements → Members F
  nodes_from result nil = result
  nodes_from result (cons e es) = nodes_from (add_node (tag_of e) (node_of e) result) es

abbrev pub detail_to_attributes : {F : Type 0} → Elements → Members F
detail_to_attributes es = nodes_from end es

abbrev pub is_private : Text → Bool
is_private k = starts_with k (codes "_")

abbrev pub append_elements : Elements → Elements → Elements
append_elements nil fs = fs
append_elements (cons e es) fs = cons e (append_elements es fs)

module _ {F : Type 0} where
  abbrev keep_string : Text → Json F → List (Text × Text) → List (Text × Text)
  keep_string k (string v) a = if is_private k then a else (k, v) ∷ a
  keep_string k _ a = a

  -- The attributes of a dictionary that are texts and whose names do not start with `_`.
  unfoldable pub string_attributes : Members F → List (Text × Text)
  unfolding starts_with
  string_attributes end = []
  string_attributes (member k v d) = keep_string k v (string_attributes d)

  abbrev pub string_value : Option (Json F) → Option Text
  string_value (some (string t)) = some t
  string_value _ = none

-- The elements that `_emit_detail_node` adds to its parent.
unfoldable mutual
  pub emit_detail_node : {F : Type 0} → Text → Json F → Elements
  emit_detail_node tag (array xs) = emit_items tag xs
  emit_detail_node tag (object d) =
      cons
        (element tag (string_attributes d) (string_value (attribute text_key d)) (emit_children d))
        nil
  emit_detail_node tag null = nil
  emit_detail_node tag (boolean _) = nil
  emit_detail_node tag (integer _) = nil
  emit_detail_node tag (float _) = nil
  emit_detail_node tag (string _) = nil

  pub emit_items : {F : Type 0} → Text → Items F → Elements
  emit_items tag empty = nil
  emit_items tag (item x xs) = append_elements (emit_detail_node tag x) (emit_items tag xs)

  -- What stands under `_children`, if that is a dictionary.
  pub emit_children : {F : Type 0} → Members F → Elements
  emit_children end = nil
  emit_children (member k v d) = if text_eq k children_key then emit_object v else emit_children d

  pub emit_object : {F : Type 0} → Json F → Elements
  emit_object (object d) = emit_members d
  emit_object _ = nil

  pub emit_members : {F : Type 0} → Members F → Elements
  emit_members end = nil
  emit_members (member tag node d) = append_elements (emit_detail_node tag node) (emit_members d)
