-- ===== src/CotXml/RoundTrip.antt =====
-- The detail of an event that is kept in the attributes of a CTO and written back.
use tactical_gateway.Base.{
  ◌≡◌, refl, sym, ap, ◌∙◌, inl, inr, Bool, true, false, not, ◌&&◌, Option, none, some, is_some,
  List, [], ◌∷◌, Text, text_eq, text_eq_iff, strip, and_true, Bool-cases, arith,
}
use tactical_gateway.Xml.{Element, element, Elements, nil, cons, tag_of, find}
use tactical_gateway.Schema.Records.{
  Json, string, object, Members, end, member, attribute, set_attribute,
}
use tactical_gateway.CotXml.Detail.{
  text_key, children_key, attrib_members, with_text, with_children, add_to, node_of, nodes_from,
  detail_to_attributes, append_elements, string_attributes, string_value, emit_detail_node,
  emit_children, emit_object, emit_members,
}
use tactical_gateway.CotXml.Entries.{
  are_public, append_elements_assoc, append_elements-nil, text_eq_swap, not_some, text_key-private,
  children_key-private, keys_differ, keys_differ', attribute-set_same, attribute-set_other,
  string_attributes-set, string_attributes-attrib_members, attribute-attrib_members,
}

abbrev pub is_trimmed : Option Text → Bool
is_trimmed none = true
is_trimmed (some []) = false
is_trimmed (some (c ∷ t)) = text_eq (strip (c ∷ t)) (c ∷ t)

-- Elements that a dictionary holds: siblings have different tags, no attribute starts with `_`, and
-- a text is not empty and has no white space at its ends.
unfoldable mutual
  pub is_plain : Element → Bool
  is_plain (element _ attrib text children) =
      are_public attrib && (is_trimmed text && are_plain children)

  pub are_plain : Elements → Bool
  are_plain nil = true
  are_plain (cons e es) = is_plain e && (not (is_some (find (tag_of e) es)) && are_plain es)

-- No element has a tag that is a key.
abbrev pub fresh : {F : Type 0} → Members F → Elements → Bool
fresh d nil = true
fresh d (cons e es) = not (is_some (attribute (tag_of e) d)) && fresh d es

module _ {F : Type 0} where
  -- What `with_text` adds to the attributes of an element.
  trimmed_text :
      (t : Option Text) (a : List (Text × Text))
      → is_trimmed t ≡ true
      → are_public a ≡ true
      → (string_attributes (with_text {F = F} t (attrib_members a)) ≡ a)
        × (string_value (attribute text_key (with_text {F = F} t (attrib_members a))) ≡ t)
        × (attribute children_key (with_text {F = F} t (attrib_members a)) ≡ none)
  trimmed_text none a h p = (
    string_attributes-attrib_members F a p,
    rw (attribute-attrib_members F text_key a text_key-private p) refl,
    attribute-attrib_members F children_key a children_key-private p,
  )
  trimmed_text (some []) a h p = absurd (ground (arith, h))
  trimmed_text (some (c ∷ t)) a h p =
      let same : strip (c ∷ t) ≡ c ∷ t = (text_eq_iff (strip (c ∷ t)) (c ∷ t)).0 h in
      let v : Json F = string (c ∷ t) in
      rw same (
        string_attributes-set text_key v (attrib_members a) text_key-private
            ∙ string_attributes-attrib_members F a p,
        ap string_value (attribute-set_same text_key v (attrib_members a)),
        attribute-set_other children_key text_key v (attrib_members a) keys_differ
            ∙ attribute-attrib_members F children_key a children_key-private p,
      )

  abbrev emit_found : Option (Json F) → Elements
  emit_found none = nil
  emit_found (some v) = emit_object v

  emit_children_lem : (d : Members F) → emit_children d ≡ emit_found (attribute children_key d)
  unfolding emit_children attribute
  emit_children_lem end = refl
  emit_children_lem (member k v d) = elim (Bool-cases (text_eq k children_key)) [
    | inl yes_ ↦ rw yes_ refl
    | inr no_ ↦ rw no_ (emit_children_lem d)
  ]

  -- What `with_children` adds to a dictionary without children.
  emit-with_children :
      (es : Elements) (sub d : Members F)
      → attribute children_key d ≡ none
      → emit_members sub ≡ es
      → (string_attributes (with_children es sub d) ≡ string_attributes d)
        × (attribute text_key (with_children es sub d) ≡ attribute text_key d)
        × (emit_children (with_children es sub d) ≡ es)
  unfolding emit_object
  emit-with_children nil sub d h e = (refl, refl, emit_children_lem d ∙ rw h refl)
  emit-with_children (cons x es) sub d h e = (
    string_attributes-set children_key (object sub) d children_key-private,
    attribute-set_other text_key children_key (object sub) d keys_differ',
    emit_children_lem (set_attribute children_key (object sub) d)
        ∙ (rw (attribute-set_same children_key (object sub) d) e),
  )

  pub attribute-later :
      (j k : Text) (v : Json F) (d : Members F)
      → text_eq k j ≡ false
      → attribute j (member k v d) ≡ attribute j d
  unfolding attribute
  attribute-later j k v d h = rw h refl

  emit_members-set :
      (tag : Text) (v : Json F) (d : Members F)
      → attribute tag d ≡ none
      → emit_members (set_attribute tag v d)
        ≡ append_elements (emit_members d) (emit_detail_node tag v)
  unfolding set_attribute attribute emit_members
  emit_members-set tag v end h = append_elements-nil (emit_detail_node tag v)
  emit_members-set tag v (member k w d) h = elim (Bool-cases (text_eq k tag)) [
    | inl yes_ ↦
        let here : attribute tag (member k w d) ≡ some w = rw yes_ refl in
        absurd (ground (arith, sym here ∙ h))
    | inr no_ ↦
        let rest : attribute tag d ≡ none = sym (attribute-later tag k w d no_) ∙ h in
        rw no_ (
          ap (append_elements (emit_detail_node k w)) (emit_members-set tag v d rest)
          ∙ sym (
              append_elements_assoc (emit_detail_node k w) (emit_members d)
                (emit_detail_node tag v)))
  ]

  pub fresh-set :
      (tag : Text) (v : Json F) (d : Members F) (es : Elements)
      → fresh d es ≡ true
      → find tag es ≡ none
      → fresh (set_attribute tag v d) es ≡ true
  unfolding find
  fresh-set tag v d nil h e = refl
  fresh-set tag v d (cons x es) h e = elim (Bool-cases (text_eq (tag_of x) tag)) [
    | inl yes_ ↦
        let here : find tag (cons x es) ≡ some x = rw yes_ refl in
        absurd (ground (arith, sym here ∙ e))
    | inr no_ ↦
        let later : find tag (cons x es) ≡ find tag es = rw no_ refl in
        let (one, rest) = and_true (not (is_some (attribute (tag_of x) d))) (fresh d es) h in
        rw (attribute-set_other (tag_of x) tag v d (text_eq_swap (tag_of x) tag no_), one)
          (fresh-set tag v d es rest (sym later ∙ e))
  ]

pub fresh_end : (F : Type 0) (es : Elements) → fresh {F = F} end es ≡ true
unfolding attribute
fresh_end F nil = refl
fresh_end F (cons e es) = fresh_end F es

mutual
  unfolding node_of nodes_from emit_detail_node emit_members is_plain

  pub emit_detail_node-node_of :
      (F : Type 0) (e : Element)
      → is_plain e ≡ true
      → emit_detail_node (tag_of e) (node_of {F = F} e) ≡ cons e nil
  emit_detail_node-node_of F (element tag a t es) h =
      let (pub_, rest) = and_true (are_public a) (is_trimmed t && are_plain es) h in
      let (trim, plain) = and_true (is_trimmed t) (are_plain es) rest in
      let own : Members F = with_text t (attrib_members a) in
      let (attrs, text_, no_children) = trimmed_text {F = F} t a trim pub_ in
      let (attrs', text_', sub) =
        emit-with_children es (nodes_from end es) own no_children
          (emit_members-nodes_from F end es plain (fresh_end F es)) in
      rw (attrs' ∙ attrs, text_', text_, sub) refl

  emit_members-nodes_from :
      (F : Type 0) (d : Members F) (es : Elements)
      → are_plain es ≡ true
      → fresh d es ≡ true
      → emit_members (nodes_from d es) ≡ append_elements (emit_members d) es
  emit_members-nodes_from F d nil h f = sym (append_elements-nil (emit_members d))
  emit_members-nodes_from F d (cons e es) h f =
      let tag : Text = tag_of e in
      let (one, rest) = and_true (is_plain e) (not (is_some (find tag es)) && are_plain es) h in
      let (alone, plain) = and_true (not (is_some (find tag es))) (are_plain es) rest in
      let (new_, others) = and_true (not (is_some (attribute tag d))) (fresh d es) f in
      let missing : attribute tag d ≡ none = not_some (attribute tag d) new_ in
      let node : Json F = node_of e in
      rw (ap (λ o. nodes_from (add_to o tag node d) es) missing) (
        emit_members-nodes_from F (set_attribute tag node d) es plain
          (fresh-set tag node d es others (not_some (find tag es) alone))
        ∙ rw (emit_members-set tag node d missing, emit_detail_node-node_of F e one)
            (append_elements_assoc (emit_members d) (cons e nil) es))

-- A detail whose siblings have different tags, whose texts are trimmed and whose attributes do not
-- start with `_` comes back from the dictionary that `_detail_to_attributes` makes of it: each
-- element, its attributes, its text and its children, in their order.
pub emit_members-detail_to_attributes :
    (F : Type 0) (es : Elements)
    → are_plain es ≡ true
    → emit_members (detail_to_attributes {F = F} es) ≡ es
unfolding emit_members
emit_members-detail_to_attributes F es h = emit_members-nodes_from F end es h (fresh_end F es)
