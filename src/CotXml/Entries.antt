-- ===== src/CotXml/Entries.antt =====
-- Entries of the dictionaries that a detail is kept in: what setting one changes.
use tactical_gateway.Base.{
  ◌≡◌, refl, sym, ap, ◌∙◌, inl, inr, Bool, true, false, not, ◌&&◌, Option, none, some, is_some,
  List, [], ◌∷◌, Text, text_eq, text_eq_iff, text_eq_refl, text_eq_ne, text_ne, starts_with,
  and_true, Bool-cases, arith,
}
use tactical_gateway.Xml.{Elements, nil, cons}
use tactical_gateway.Schema.Records.{
  Json, null, boolean, integer, float, string, array, object, Members, end, member, attribute,
  set_attribute,
}
use tactical_gateway.CotXml.Detail.{
  text_key, children_key, attrib_members, is_private, append_elements, string_attributes,
}

abbrev pub are_public : List (Text × Text) → Bool
are_public [] = true
are_public ((k, _) ∷ a) = not (is_private k) && are_public a

pub append_elements_assoc :
    (es fs gs : Elements)
    → append_elements (append_elements es fs) gs ≡ append_elements es (append_elements fs gs)
append_elements_assoc nil fs gs = refl
append_elements_assoc (cons e es) fs gs = ap (cons e) (append_elements_assoc es fs gs)

pub append_elements-nil : (es : Elements) → append_elements es nil ≡ es
append_elements-nil nil = refl
append_elements-nil (cons e es) = ap (cons e) (append_elements-nil es)

pub text_eq_swap : (a b : Text) → text_eq a b ≡ false → text_eq b a ≡ false
text_eq_swap a b h = text_eq_ne b a (λ e. text_ne a b h (sym e))

pub not_some {ℓ} : {A : Type ℓ} (o : Option A) → not (is_some o) ≡ true → o ≡ none
not_some none h = refl
not_some (some a) h = absurd (ground (arith, h))

pub text_key-private : is_private text_key ≡ true
unfolding starts_with
text_key-private = refl

pub children_key-private : is_private children_key ≡ true
unfolding starts_with
children_key-private = refl

pub keys_differ : text_eq text_key children_key ≡ false
unfolding text_eq
keys_differ = refl

pub keys_differ' : text_eq children_key text_key ≡ false
unfolding text_eq
keys_differ' = refl

module _ {F : Type 0} where
  pub attribute-set_same :
      (k : Text) (v : Json F) (d : Members F) → attribute k (set_attribute k v d) ≡ some v
  unfolding attribute set_attribute
  attribute-set_same k v end = rw (text_eq_refl k) refl
  attribute-set_same k v (member k' w d) = elim (Bool-cases (text_eq k' k)) [
    | inl yes_ ↦ rw (yes_, yes_) refl
    | inr no_ ↦ rw (no_, no_) (attribute-set_same k v d)
  ]

  pub attribute-set_other :
      (j k : Text) (v : Json F) (d : Members F)
      → text_eq k j ≡ false
      → attribute j (set_attribute k v d) ≡ attribute j d
  unfolding attribute set_attribute
  attribute-set_other j k v end h = rw h refl
  attribute-set_other j k v (member k' w d) h = elim (Bool-cases (text_eq k' k)) [
    | inl yes_ ↦
        let other : text_eq k' j ≡ false = ap (λ t. text_eq t j) ((text_eq_iff k' k).0 yes_) ∙ h in
        rw (yes_, other) refl
    | inr no_ ↦ elim (Bool-cases (text_eq k' j)) [
      | inl same ↦ rw (no_, same) refl
      | inr other ↦ rw (no_, other) (attribute-set_other j k v d h)
    ]
  ]

  -- A private key does not show in the attributes of the element.
  pub string_attributes-private :
      (k : Text) (v : Json F) (d : Members F)
      → is_private k ≡ true
      → string_attributes (member k v d) ≡ string_attributes d
  unfolding string_attributes
  string_attributes-private k null d h = refl
  string_attributes-private k (boolean _) d h = refl
  string_attributes-private k (integer _) d h = refl
  string_attributes-private k (float _) d h = refl
  string_attributes-private k (string _) d h = rw h refl
  string_attributes-private k (array _) d h = refl
  string_attributes-private k (object _) d h = refl

  pub string_attributes-cons :
      (k : Text) (v : Json F) (d d' : Members F)
      → string_attributes d ≡ string_attributes d'
      → string_attributes (member k v d) ≡ string_attributes (member k v d')
  unfolding string_attributes
  string_attributes-cons k v d d' e = rw e refl

  pub string_attributes-set :
      (k : Text) (v : Json F) (d : Members F)
      → is_private k ≡ true
      → string_attributes (set_attribute k v d) ≡ string_attributes d
  unfolding set_attribute
  string_attributes-set k v end h = string_attributes-private k v end h
  string_attributes-set k v (member k' w d) h = elim (Bool-cases (text_eq k' k)) [
    | inl yes_ ↦
        let p : is_private k' ≡ true = ap is_private ((text_eq_iff k' k).0 yes_) ∙ h in
        rw yes_ (string_attributes-private k' v d p ∙ sym (string_attributes-private k' w d p))
    | inr no_ ↦
        rw no_ (string_attributes-cons k' w (set_attribute k v d) d (string_attributes-set k v d h))
  ]

module _ (F : Type 0) where
  pub string_attributes-attrib_members :
      (a : List (Text × Text))
      → are_public a ≡ true
      → string_attributes (attrib_members {F = F} a) ≡ a
  unfolding string_attributes
  string_attributes-attrib_members [] h = refl
  string_attributes-attrib_members ((k, v) ∷ a) h =
      let (one, rest) = and_true (not (is_private k)) (are_public a) h in
      let open_ : is_private k ≡ false = ground (arith, one) in
      rw open_ (ap (λ r. (k, v) ∷ r) (string_attributes-attrib_members a rest))

  pub attribute-attrib_members :
      (j : Text) (a : List (Text × Text))
      → is_private j ≡ true
      → are_public a ≡ true
      → attribute j (attrib_members {F = F} a) ≡ none
  unfolding attribute
  attribute-attrib_members j [] p h = refl
  attribute-attrib_members j ((k, v) ∷ a) p h =
      let (one, rest) = and_true (not (is_private k)) (are_public a) h in
      elim (Bool-cases (text_eq k j)) [
        | inl yes_ ↦
            let q : is_private k ≡ true = ap is_private ((text_eq_iff k j).0 yes_) ∙ p in
            absurd (ground (arith, one, q))
        | inr no_ ↦ rw no_ (attribute-attrib_members j a p rest)
      ]
