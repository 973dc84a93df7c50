-- ===== src/CotXml/Forward.antt =====
-- An event that is read as a CTO and written back: its attributes.
use tactical_gateway.Base.{
  ◌≡◌, refl, sym, ap, ◌∙◌, inl, inr, true, false, Option, none, some, is_some, List, [], ◌∷◌, ◌++◌,
  Text, codes, text_eq, text_eq_iff, text_eq_ne, Bool-cases, Option-cases, arith, if◌then◌else◌,
}
use tactical_gateway.Base.Dict.{lookup}
use tactical_gateway.Xml.{Element}
use tactical_gateway.Schema.Records.{Floats, attribute}
use tactical_gateway.CotXml.Detail.{string_value, attrib_members, nodes_from, detail_to_attributes}
use tactical_gateway.CotXml.Ingest.{
  is_in, known_event_attrs, extras_of, detail_children, with_detail, with_extras, with_how,
  horizontal_accuracy,
}
use tactical_gateway.CotXml.Egress.{
  add_extras, with_attribute, restore_extras, emit_stored, stored_detail,
}

abbrev pub or_else {ℓ} : {A : Type ℓ} → Option A → Option A → Option A
or_else (some a) b = some a
or_else none b = b

abbrev pub said : Text → Text → Text → Option Text
said k k' v = if text_eq k' k then some v else none

pub lookup-append_one :
    (k k' v : Text) (a : List (Text × Text))
    → lookup k (a ++ ((k', v) ∷ [])) ≡ or_else (lookup k a) (said k k' v)
unfolding lookup
lookup-append_one k k' v [] = refl
lookup-append_one k k' v ((j, w) ∷ a) = elim (Bool-cases (text_eq j k)) [
  | inl yes_ ↦ rw yes_ refl
  | inr no_ ↦ rw no_ (lookup-append_one k k' v a)
]

or_none {ℓ} : {A : Type ℓ} (o : Option A) → or_else o none ≡ o
or_none none = refl
or_none (some a) = refl

or_said :
    (o : Option Text) (k k' v : Text) (r : Option Text)
    → or_else (or_else o (said k k' v)) r ≡ or_else o (if text_eq k' k then some v else r)
or_said (some a) k k' v r = refl
or_said none k k' v r = elim (Bool-cases (text_eq k' k)) [
  | inl yes_ ↦ rw yes_ refl
  | inr no_ ↦ rw no_ refl
]

pub lookup-with_attribute :
    (k k' : Text) (v : Option Text) (a : List (Text × Text))
    → text_eq k' k ≡ false
    → lookup k (with_attribute k' v a) ≡ lookup k a
lookup-with_attribute k k' none a h = refl
lookup-with_attribute k k' (some v) a h = lookup-append_one k k' v a ∙ rw h (or_none (lookup k a))

lookup-add_absent :
    (k k' v : Text) (base : List (Text × Text))
    → lookup k (if is_some (lookup k' base) then base else base ++ ((k', v) ∷ []))
      ≡ or_else (lookup k base) (said k k' v)
lookup-add_absent k k' v base = elim (Option-cases (lookup k' base)) [
  | inl none_ ↦ rw none_ (lookup-append_one k k' v base)
  | inr (w, here) ↦ rw here (elim (Bool-cases (text_eq k' k)) [
    | inl yes_ ↦ rw (sym (ap (λ t. lookup t base) ((text_eq_iff k' k).0 yes_)) ∙ here) refl
    | inr no_ ↦ rw no_ (sym (or_none (lookup k base)))
  ])
]

-- The loop over the extras keeps what is there, and adds what is not.
pub lookup-add_extras :
    (F : Type 0) (k : Text) (a base : List (Text × Text))
    → lookup k (add_extras (attrib_members {F = F} a) base) ≡ or_else (lookup k base) (lookup k a)
unfolding add_extras lookup
lookup-add_extras F k [] base = sym (or_none (lookup k base))
lookup-add_extras F k ((k', v) ∷ a) base =
    lookup-add_extras F k a (if is_some (lookup k' base) then base else base ++ ((k', v) ∷ []))
    ∙ rw (lookup-add_absent k k' v base) (or_said (lookup k base) k k' v (lookup k a))

pub lookup-extras_of :
    (k : Text) (a : List (Text × Text))
    → is_in k known_event_attrs ≡ false
    → lookup k (extras_of a) ≡ lookup k a
unfolding extras_of lookup
lookup-extras_of k [] h = refl
lookup-extras_of k ((k', v) ∷ a) h = elim (Bool-cases (text_eq k' k)) [
  | inl yes_ ↦
      let open_ : is_in k' known_event_attrs ≡ false =
        ap (λ t. is_in t known_event_attrs) ((text_eq_iff k' k).0 yes_) ∙ h in
      rw open_ (rw yes_ refl)
  | inr no_ ↦ elim (Bool-cases (is_in k' known_event_attrs)) [
    | inl known ↦ rw known (lookup-extras_of k a h ∙ sym (rw no_ refl))
    | inr other ↦ rw other (rw no_ (lookup-extras_of k a h))
  ]
]

pub lookup-extras_known :
    (k : Text) (a : List (Text × Text))
    → is_in k known_event_attrs ≡ true
    → lookup k (extras_of a) ≡ none
unfolding extras_of lookup
lookup-extras_known k [] h = refl
lookup-extras_known k ((k', v) ∷ a) h = elim (Bool-cases (is_in k' known_event_attrs)) [
  | inl known ↦ rw known (lookup-extras_known k a h)
  | inr other ↦
      let differ : text_eq k' k ≡ false =
        text_eq_ne k' k
          (λ e. absurd (ground (arith, sym other ∙ ap (λ t. is_in t known_event_attrs) e ∙ h))) in
      rw other (rw differ (lookup-extras_known k a h))
]

module _ {F : Type 0} (floats : Floats F) where
  attribute-horizontal_accuracy :
      (k : Text) (ce : Option Text)
      → text_eq (codes "cot_horizontal_accuracy_m") k ≡ false
      → attribute k (horizontal_accuracy floats ce) ≡ none
  unfolding attribute
  attribute-horizontal_accuracy k none h = refl
  attribute-horizontal_accuracy k (some t) h = elim (Option-cases (floats.parse t)) [
    | inl none_ ↦ rw none_ refl
    | inr (x, here) ↦ rw here (elim (Bool-cases (floats.is_known x)) [
      | inl yes_ ↦ rw yes_ (rw h refl)
      | inr no_ ↦ rw no_ refl
    ])
  ]

  -- The three entries that the writer reads back.
  pub stored_extras :
      (detail : Option Element) (xs a : List (Text × Text)) (how ce : Option Text)
      → restore_extras
          (attribute
            (codes "cot_event_extras")
            (with_detail detail (with_extras xs (with_how how (horizontal_accuracy floats ce)))))
          a
        ≡ add_extras (attrib_members {F = F} xs) a
  unfolding attribute text_eq add_extras
  stored_extras none [] a none ce =
      rw (attribute-horizontal_accuracy (codes "cot_event_extras") ce refl) refl
  stored_extras none [] a (some h) ce =
      rw (attribute-horizontal_accuracy (codes "cot_event_extras") ce refl) refl
  stored_extras none (x ∷ xs) a how ce = refl
  stored_extras (some e) [] a none ce =
      rw (attribute-horizontal_accuracy (codes "cot_event_extras") ce refl) refl
  stored_extras (some e) [] a (some h) ce =
      rw (attribute-horizontal_accuracy (codes "cot_event_extras") ce refl) refl
  stored_extras (some e) (x ∷ xs) a how ce = refl

  pub stored_how :
      (detail : Option Element) (xs : List (Text × Text)) (how ce : Option Text)
      → string_value (
          attribute
            (codes "cot_how")
            (with_detail detail (with_extras xs (with_how how (horizontal_accuracy floats ce)))))
        ≡ how
  unfolding attribute text_eq
  stored_how none [] none ce = rw (attribute-horizontal_accuracy (codes "cot_how") ce refl) refl
  stored_how none (x ∷ xs) none ce =
      rw (attribute-horizontal_accuracy (codes "cot_how") ce refl) refl
  stored_how (some e) [] none ce = rw (attribute-horizontal_accuracy (codes "cot_how") ce refl) refl
  stored_how (some e) (x ∷ xs) none ce =
      rw (attribute-horizontal_accuracy (codes "cot_how") ce refl) refl
  stored_how none [] (some h) ce = refl
  stored_how none (x ∷ xs) (some h) ce = refl
  stored_how (some e) [] (some h) ce = refl
  stored_how (some e) (x ∷ xs) (some h) ce = refl

  pub stored_detail_lem :
      (detail : Option Element) (xs : List (Text × Text)) (how ce : Option Text)
      (already : List Text)
      → stored_detail {F = F}
          (attribute
            (codes "cot_detail")
            (with_detail detail (with_extras xs (with_how how (horizontal_accuracy floats ce)))))
          already
        ≡ emit_stored {F = F} already (detail_to_attributes (detail_children detail))
  unfolding attribute text_eq emit_stored nodes_from
  stored_detail_lem none [] none ce already =
      rw (attribute-horizontal_accuracy (codes "cot_detail") ce refl) refl
  stored_detail_lem none (x ∷ xs) none ce already =
      rw (attribute-horizontal_accuracy (codes "cot_detail") ce refl) refl
  stored_detail_lem none [] (some h) ce already =
      rw (attribute-horizontal_accuracy (codes "cot_detail") ce refl) refl
  stored_detail_lem none (x ∷ xs) (some h) ce already =
      rw (attribute-horizontal_accuracy (codes "cot_detail") ce refl) refl
  stored_detail_lem (some e) xs how ce already = refl
