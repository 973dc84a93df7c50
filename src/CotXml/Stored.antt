-- ===== src/CotXml/Stored.antt =====
-- The detail that is written for a CTO: the elements of its fields, and those of the stored detail.
use tactical_gateway.Base.{
  ◌≡◌, refl, sym, ap, ◌∙◌, inl, inr, true, ◌&&◌, not, none, some, is_some, List, [], ◌∷◌, Text,
  codes, text_eq, and_true, ◌++◌, Option, Bool-cases, arith, if◌then◌else◌,
}
use tactical_gateway.Xml.{
  Element, element, Elements, nil, cons, tag_of, children_of, attrib_of, get, find,
}
use tactical_gateway.Schema.Records.{
  Floats, Cto, Kinematics, Json, Members, end, member, attribute, set_attribute,
}
use tactical_gateway.CotXml.Detail.{add_to, node_of, nodes_from, append_elements, emit_detail_node}
use tactical_gateway.CotXml.Entries.{append_elements_assoc, append_elements-nil, not_some}
use tactical_gateway.CotXml.RoundTrip.{
  is_plain, are_plain, fresh, fresh_end, fresh-set, attribute-later, emit_detail_node-node_of,
}
use tactical_gateway.CotXml.Ingest.{
  normalized, Times, Source, is_in, extras_of, detail_children, root_to_cto,
}
use tactical_gateway.CotXml.Egress.{
  emit_stored, stored_detail, tags_of, text_child, callsign_child, track_child, fixed_attr,
  track_attrs, typed_children, detail_element,
}
use tactical_gateway.CotXml.Forward.{stored_detail_lem}
use tactical_gateway.CotXml.Origin.{made-IsFrom}

-- The elements whose tags are not among the given ones.
unfoldable pub without_tags : List Text → Elements → Elements
unfolding is_in
without_tags tags nil = nil
without_tags tags (cons e es) =
    let rest = without_tags tags es in if is_in (tag_of e) tags then rest else cons e rest

-- What `emit_stored` makes of one entry.
abbrev emitted : {F : Type 0} → List Text → Text → Json F → Elements
emitted tags tag v = if is_in tag tags then nil else emit_detail_node tag v

emitted-node_of :
    (F : Type 0) (tags : List Text) (e : Element) (es : Elements)
    → is_plain e ≡ true
    → append_elements (emitted tags (tag_of e) (node_of {F = F} e)) (without_tags tags es)
      ≡ without_tags tags (cons e es)
unfolding without_tags
emitted-node_of F tags e es h = elim (Bool-cases (is_in (tag_of e) tags)) [
  | inl yes_ ↦ rw yes_ refl
  | inr no_ ↦ rw no_ (rw (emit_detail_node-node_of F e h) refl)
]

module _ {F : Type 0} (tags : List Text) where
  emit_stored-member :
      (tag : Text) (v : Json F) (d : Members F)
      → emit_stored tags (member tag v d)
        ≡ append_elements (emitted tags tag v) (emit_stored tags d)
  unfolding emit_stored
  emit_stored-member tag v d = elim (Bool-cases (is_in tag tags)) [
    | inl yes_ ↦ rw yes_ refl
    | inr no_ ↦ rw no_ refl
  ]

  emit_stored-set :
      (tag : Text) (v : Json F) (d : Members F)
      → attribute tag d ≡ none
      → emit_stored tags (set_attribute tag v d)
        ≡ append_elements (emit_stored tags d) (emitted tags tag v)
  unfolding set_attribute attribute
  emit_stored-set tag v end h =
      emit_stored-member tag v end
      ∙ (unfold emit_stored in append_elements-nil (emitted tags tag v))
  emit_stored-set tag v (member k w d) h = elim (Bool-cases (text_eq k tag)) [
    | inl yes_ ↦
        let here : attribute tag (member k w d) ≡ some w = rw yes_ refl in
        absurd (ground (arith, sym here ∙ h))
    | inr no_ ↦
        let rest : attribute tag d ≡ none = sym (attribute-later tag k w d no_) ∙ h in
        rw no_ (
          emit_stored-member k w (set_attribute tag v d)
          ∙ ap (append_elements (emitted tags k w)) (emit_stored-set tag v d rest)
          ∙ sym (append_elements_assoc (emitted tags k w) (emit_stored tags d) (emitted tags tag v))
          ∙ ap (λ es. append_elements es (emitted tags tag v)) (sym (emit_stored-member k w d)))
  ]

  emit_stored-nodes_from :
      (d : Members F) (es : Elements)
      → are_plain es ≡ true
      → fresh d es ≡ true
      → emit_stored tags (nodes_from d es)
        ≡ append_elements (emit_stored tags d) (without_tags tags es)
  unfolding nodes_from is_plain
  emit_stored-nodes_from d nil h f =
      unfold without_tags in sym (append_elements-nil (emit_stored tags d))
  emit_stored-nodes_from d (cons e es) h f =
      let tag : Text = tag_of e in
      let (one, rest) = and_true (is_plain e) (not (is_some (find tag es)) && are_plain es) h in
      let (alone, plain) = and_true (not (is_some (find tag es))) (are_plain es) rest in
      let (new_, others) = and_true (not (is_some (attribute tag d))) (fresh d es) f in
      let missing : attribute tag d ≡ none = not_some (attribute tag d) new_ in
      let node : Json F = node_of e in
      rw (ap (λ o. nodes_from (add_to o tag node d) es) missing) (
        emit_stored-nodes_from (set_attribute tag node d) es plain
          (fresh-set tag node d es others (not_some (find tag es) alone))
        ∙ rw (emit_stored-set tag node d missing) (
            append_elements_assoc (emit_stored tags d) (emitted tags tag node)
              (without_tags tags es)
            ∙ ap (append_elements (emit_stored tags d)) (emitted-node_of F tags e es one)))

-- The elements of one field of a CTO, in plain words.
abbrev ContactFits : Option Text → Elements → Type 0
ContactFits none es = es ≡ nil
ContactFits (some []) es = es ≡ nil
ContactFits (some (x ∷ t)) es =
    es ≡ cons (element (codes "contact") ((codes "callsign", x ∷ t) ∷ []) none nil) nil

abbrev RemarksFits : Option Text → Elements → Type 0
RemarksFits none es = es ≡ nil
RemarksFits (some []) es = es ≡ nil
RemarksFits (some (x ∷ t)) es = es ≡ cons (element (codes "remarks") [] (some (x ∷ t)) nil) nil

abbrev track_of : List (Text × Text) → Elements
track_of attrs = cons (element (codes "track") attrs none nil) nil

abbrev TrackFits : {F : Type 0} → Floats F → Option F → Option F → Elements → Type 0
TrackFits floats none none es = es ≡ nil
TrackFits floats (some x) none es = es ≡ track_of ((codes "course", floats.fixed 2 x) ∷ [])
TrackFits floats none (some y) es = es ≡ track_of ((codes "speed", floats.fixed 2 y) ∷ [])
TrackFits floats (some x) (some y) es =
    es ≡ track_of ((codes "course", floats.fixed 2 x) ∷ (codes "speed", floats.fixed 2 y) ∷ [])

abbrev KinematicsFits : {F : Type 0} → Floats F → Option (Kinematics F) → Elements → Type 0
KinematicsFits floats none es = es ≡ nil
KinematicsFits floats (some k) es = TrackFits floats k.course_deg k.speed_mps es

-- A contact with the callsign, a track with the course and the speed, and the remarks, each if the
-- CTO has it, in this order.
abbrev pub FieldsFit : {F : Type 0} → Floats F → Cto F → Elements → Type 0
FieldsFit floats c es =
    (contact : Elements) × (track : Elements) × (remarks : Elements) × ContactFits c.callsign
      contact
    × KinematicsFits floats c.kinematics track
    × RemarksFits c.remarks remarks
    × (es ≡ append_elements contact (append_elements track remarks))

module _ {F : Type 0} (floats : Floats F) (times : Times) where
  contact_fits : (o : Option Text) → ContactFits o (callsign_child o)
  contact_fits none = refl
  contact_fits (some []) = refl
  contact_fits (some (x ∷ t)) = refl

  remarks_fits : (o : Option Text) → RemarksFits o (text_child (codes "remarks") o)
  remarks_fits none = refl
  remarks_fits (some []) = refl
  remarks_fits (some (x ∷ t)) = refl

  track_fits :
      (course speed : Option F)
      → TrackFits floats course speed (
          track_child (
            fixed_attr floats times (codes "course") course
            ++ fixed_attr floats times (codes "speed") speed))
  track_fits none none = refl
  track_fits (some x) none = refl
  track_fits none (some y) = refl
  track_fits (some x) (some y) = refl

  kinematics_fits :
      (o : Option (Kinematics F))
      → KinematicsFits floats o (track_child (track_attrs floats times o))
  kinematics_fits none = refl
  kinematics_fits (some k) = track_fits k.course_deg k.speed_mps

  typed_children-FieldsFit : (c : Cto F) → FieldsFit floats c (typed_children floats times c)
  typed_children-FieldsFit c =
      (_, _, _, contact_fits c.callsign, kinematics_fits c.kinematics, remarks_fits c.remarks, refl)

-- The same with the children that the code makes of the fields.
pub detail_element_lem :
    {F : Type 0} (floats : Floats F) (times : Times) (src : Source) (root : Element) (c : Cto F)
    → root_to_cto floats times src root ≡ normalized c
    → are_plain (detail_children (find (codes "detail") (children_of root))) ≡ true
    → detail_element floats times c
      ≡ element (codes "detail") [] none (
          append_elements (typed_children floats times c) (
            without_tags
              (tags_of (typed_children floats times c))
              (detail_children (find (codes "detail") (children_of root)))))
detail_element_lem floats times src root c reads plain =
    let (u, t, g, (ce, attrs), call) = made-IsFrom floats times src root c reads in
    let es : Elements = detail_children (find (codes "detail") (children_of root)) in
    let tags : List Text = tags_of (typed_children floats times c) in
    ap
      (λ stored.
        element (codes "detail") [] none (append_elements (typed_children floats times c) stored))
      (ap (λ a. stored_detail (attribute (codes "cot_detail") a) tags) attrs
        ∙ stored_detail_lem floats (find (codes "detail") (children_of root))
            (extras_of (attrib_of root)) (get (codes "how") root) ce tags
        ∙ (unfold emit_stored in emit_stored-nodes_from tags end es plain (fresh_end _ es)))

-- The detail that is written for an event that was read: a contact with the callsign, a track with
-- the course and the speed, and the remarks, each if the CTO has it, and behind them, unchanged and
-- in their order, the elements of the event's detail with other tags, if in that detail siblings
-- have different tags, texts are trimmed, and no attribute starts with `_`.
pub detail_element-root_to_cto :
    {F : Type 0} (floats : Floats F) (times : Times) (src : Source) (root : Element) (c : Cto F)
    → root_to_cto floats times src root ≡ normalized c
    → are_plain (detail_children (find (codes "detail") (children_of root))) ≡ true
    → (fields : Elements) × FieldsFit floats c fields
      × (detail_element floats times c
          ≡ element (codes "detail") [] none (
              append_elements fields (
                without_tags
                  (tags_of fields)
                  (detail_children (find (codes "detail") (children_of root))))))
detail_element-root_to_cto floats times src root c reads plain = (
  typed_children floats times c,
  typed_children-FieldsFit floats times c,
  detail_element_lem floats times src root c reads plain,
)
