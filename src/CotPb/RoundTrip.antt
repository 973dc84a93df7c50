-- ===== src/CotPb/RoundTrip.antt =====
-- A TAK message that is read as a CTO and written back.
use mathlib.Core.Path.{subst}
use tactical_gateway.Base.{
  ℕ, ◌≡◌, refl, sym, ap, ◌∙◌, inl, inr, true, false, not, ◌&&◌, Option, none, some, [], ◌∷◌, Text,
  codes, text_eq, Bool-cases, arith,
}
use tactical_gateway.Xml.{Element}
use tactical_gateway.Schema.Records.{
  Floats, Json, null, boolean, integer, float, string, array, object, Members, end, member,
  attribute, Cto,
}
use tactical_gateway.CotXml.Detail.{string_value}
use tactical_gateway.CotXml.Entries.{attribute-set_same, attribute-set_other}
use tactical_gateway.CotXml.Ingest.{normalized, Source, or_raised}
use tactical_gateway.CotXml.Results.{Holds, Holds-bind}
use tactical_gateway.CotXml.Event.{has_text, type_lossy-has_text}
use tactical_gateway.CotXml.Egress.{text_or, number_of}
use tactical_gateway.CotPb.{
  Contact, Track, Group, PrecisionLocation, Takv, Detail, CotEvent, Millis,
}
use tactical_gateway.CotPb.Ingest.{
  default_in, default_detail, xml_attributes, raw_detail, with_group, with_status, with_takv,
  with_precision, detail_members, with_how, with_accuracy, known, event_attributes, event_cto,
  event_to_cto, some_text, contact_callsign, detail_callsign,
}
use tactical_gateway.CotPb.Egress.{
  text_or_empty, or_zero, point_event, cto_pb_event, detail_of, contact_of,
}

module _ {F : Type 0} (k : Text) (other : text_eq (codes "cot_detail") k ≡ false) where
  default_in-other :
      (o : Option (Json F)) (tag : Text) (node : Json F) (d : Members F)
      → attribute k (default_in o tag node d) ≡ attribute k d
  default_in-other none tag node d =
      attribute-set_other k (codes "cot_detail") (object (member tag node end)) d other
  default_in-other (some (object s)) tag node d =
      attribute-set_other k (codes "cot_detail") _ d other
  default_in-other (some null) tag node d = refl
  default_in-other (some (boolean _)) tag node d = refl
  default_in-other (some (integer _)) tag node d = refl
  default_in-other (some (float _)) tag node d = refl
  default_in-other (some (string _)) tag node d = refl
  default_in-other (some (array _)) tag node d = refl

  default_detail-other :
      (tag : Text) (node : Json F) (d : Members F)
      → attribute k (default_detail tag node d) ≡ attribute k d
  default_detail-other tag node d = default_in-other (attribute (codes "cot_detail") d) tag node d

  with_group-other :
      (g : Option Group) (d : Members F) → attribute k (with_group g d) ≡ attribute k d
  with_group-other none d = refl
  with_group-other (some g) d = default_detail-other (codes "__group") _ d

  with_status-other :
      (b : Option Text) (d : Members F) → attribute k (with_status b d) ≡ attribute k d
  with_status-other none d = refl
  with_status-other (some []) d = refl
  with_status-other (some (c ∷ t)) d = default_detail-other (codes "status") _ d

  with_takv-other : (t : Option Takv) (d : Members F) → attribute k (with_takv t d) ≡ attribute k d
  with_takv-other none d = refl
  with_takv-other (some t) d = default_detail-other (codes "takv") _ d

  with_precision-other :
      (p : Option PrecisionLocation) (d : Members F)
      → attribute k (with_precision p d) ≡ attribute k d
  with_precision-other none d = refl
  with_precision-other (some p) d = default_detail-other (codes "precisionlocation") _ d

  raw_detail-other :
      (from_text : Text → Option Element) (t : Text) (e : Option Element)
      → text_eq (codes "cot_xml_detail_raw") k ≡ false
      → attribute {F = F} k (raw_detail from_text t e) ≡ none
  unfolding attribute
  raw_detail-other from_text t none h = rw h refl
  raw_detail-other from_text t (some e) h = rw (h, other) refl

  xml_attributes-other :
      (from_text : Text → Option Element) (t : Text)
      → text_eq (codes "cot_xml_detail_raw") k ≡ false
      → attribute {F = F} k (xml_attributes from_text t) ≡ none
  unfolding attribute
  xml_attributes-other from_text [] h = refl
  xml_attributes-other from_text (c ∷ t) h = raw_detail-other from_text (c ∷ t) _ h

  -- The detail gives no other entries.
  detail_members-other :
      (from_text : Text → Option Element) (d : Option (Detail F))
      → text_eq (codes "cot_xml_detail_raw") k ≡ false
      → attribute k (detail_members from_text d) ≡ none
  unfolding detail_members attribute
  detail_members-other from_text none h = refl
  detail_members-other from_text (some d) h =
      with_precision-other d.precision_location _
      ∙ with_takv-other d.takv _
      ∙ with_status-other d.battery _
      ∙ with_group-other d.group _
      ∙ xml_attributes-other from_text d.xml_detail h

text_or_same : (t d : Text) → has_text (some t) ≡ true → text_or (some t) d ≡ t
text_or_same [] d h = absurd (ground (arith, h))
text_or_same (c ∷ t) d h = refl

module _ {F : Type 0} (floats : Floats F) where
  stored_how :
      (from_text : Text → Option Element) (ev : CotEvent F)
      → text_or_empty
          (string_value (attribute (codes "cot_how") (event_attributes floats from_text ev)))
        ≡ ev.how
  unfolding event_attributes text_eq
  stored_how from_text ev = accurate (known floats ev.ce) ∙ how ev.how
    where
      accurate :
          (x : Option F)
          → text_or_empty (
              string_value (
                attribute
                  (codes "cot_how")
                  (with_accuracy floats x (with_how ev.how (detail_members from_text ev.detail)))))
            ≡ text_or_empty (
                string_value (
                  attribute
                    (codes "cot_how")
                    (with_how ev.how (detail_members from_text ev.detail))))
      accurate none = refl
      accurate (some x) =
          ap (λ o. text_or_empty (string_value o))
            (attribute-set_other (codes "cot_how") (codes "cot_horizontal_accuracy_m") (float x)
              (with_how ev.how (detail_members from_text ev.detail)) refl)

      how :
          (t : Text)
          → text_or_empty (
              string_value
                (attribute (codes "cot_how") (with_how t (detail_members from_text ev.detail))))
            ≡ t
      how [] = rw (detail_members-other (codes "cot_how") refl from_text ev.detail refl) refl
      how (c ∷ t) =
          rw
            (attribute-set_same (codes "cot_how") (string (c ∷ t))
              (detail_members from_text ev.detail))
            refl

  stored_accuracy :
      (from_text : Text → Option Element) (ev : CotEvent F)
      → number_of floats
          (attribute (codes "cot_horizontal_accuracy_m") (event_attributes floats from_text ev))
        ≡ known floats ev.ce
  unfolding event_attributes text_eq
  stored_accuracy from_text ev = go (known floats ev.ce)
    where
      missing :
          (t : Text)
          → attribute
              (codes "cot_horizontal_accuracy_m")
              (with_how t (detail_members from_text ev.detail))
            ≡ none
      missing [] =
          detail_members-other (codes "cot_horizontal_accuracy_m") refl from_text ev.detail refl
      missing (c ∷ t) =
          attribute-set_other (codes "cot_horizontal_accuracy_m") (codes "cot_how") (string (c ∷ t))
            (detail_members from_text ev.detail) refl
          ∙ detail_members-other (codes "cot_horizontal_accuracy_m") refl from_text ev.detail refl

      go :
          (x : Option F)
          → number_of floats (
              attribute
                (codes "cot_horizontal_accuracy_m")
                (with_accuracy floats x (with_how ev.how (detail_members from_text ev.detail))))
            ≡ x
      go none = ap (number_of floats) (missing ev.how)
      go (some x) = ap (number_of floats) (
          attribute-set_same (codes "cot_horizontal_accuracy_m") (float x)
            (with_how ev.how (detail_members from_text ev.detail)))

  -- Zero, which an unset number is, is zero.
  abbrev pub HasZero : Type 0
  HasZero = floats.is_zero (floats.of_integer 0) ≡ true

  known-or_zero :
      HasZero → (x : F) → known floats (or_zero floats (known floats x)) ≡ known floats x
  known-or_zero zero_ x = elim (Bool-cases (not (floats.is_zero x) && floats.is_known x)) [
    | inl yes_ ↦ rw (yes_, yes_) refl
    | inr no_ ↦ rw (no_, zero_) refl
  ]

  detail_callsign-detail_of :
      (contact : Option Contact) (track : Option (Track F)) (inner : Text)
      → detail_callsign (detail_of floats contact track inner) ≡ contact_callsign contact
  detail_callsign-detail_of none none [] = refl
  detail_callsign-detail_of none none (c ∷ t) = refl
  detail_callsign-detail_of none (some k) t = refl
  detail_callsign-detail_of (some c) track t = refl

  contact_kept : (t : Text) → contact_callsign (contact_of (some_text t)) ≡ some_text t
  contact_kept [] = refl
  contact_kept (c ∷ t) = refl

  callsign_kept :
      (d : Option (Detail F))
      → contact_callsign (contact_of (detail_callsign d)) ≡ detail_callsign d
  callsign_kept none = refl
  callsign_kept (some d) = go d.contact
    where
      go :
          (c : Option Contact)
          → contact_callsign (contact_of (contact_callsign c)) ≡ contact_callsign c
      go none = refl
      go (some c) = contact_kept c.callsign

  module _ (from_text : Text → Option Element) (to_text : Element → Text) (millis : Millis)
      (src : Source) (ev : CotEvent F) where
    abbrev Made : Cto F → Type 0
    Made c =
        (sent : ℕ) × (start : ℕ) × (stale : ℕ) × (c
          ≡ event_cto floats from_text millis src ev sent start stale)

    event_to_cto-Made : Holds Made (event_to_cto floats from_text millis src ev)
    unfolding event_to_cto
    event_to_cto-Made = Holds-bind Made (or_raised (millis.from_millis ev.send_time)) _ (λ sent _.
        Holds-bind Made (or_raised (millis.from_millis ev.start_time)) _ (λ start _.
          Holds-bind Made (or_raised (millis.from_millis ev.stale_time)) _
            (λ stale _. (sent, start, stale, refl))))

    -- What is kept of the event in what is written for `c`.
    abbrev pub Kept : Cto F → Type 0
    Kept c =
        (ev' : CotEvent F) × (cto_pb_event floats to_text millis c ≡ some (ev', []))
        × (ev'.type_ ≡ ev.type_)
        × (ev'.uid ≡ ev.uid)
        × (ev'.how ≡ ev.how)
        × (ev'.lat ≡ ev.lat)
        × (ev'.lon ≡ ev.lon)
        × (detail_callsign ev'.detail ≡ detail_callsign ev.detail)
        × (known floats ev'.ce ≡ known floats ev.ce)

    event_cto-Kept :
        (sent start stale : ℕ)
        → HasZero
        → has_text (some ev.type_) ≡ true
        → has_text (some ev.uid) ≡ true
        → Kept (event_cto floats from_text millis src ev sent start stale)
    unfolding cto_pb_event
    event_cto-Kept sent start stale zero_ ht hu =
        let c : Cto F = event_cto floats from_text millis src ev sent start stale in
        (
          point_event floats to_text millis c (ev.lon, ev.lat),
          rw (type_lossy-has_text (some ev.type_) ht) refl,
          text_or_same ev.type_ (codes "a-u-G") ht,
          text_or_same ev.uid src.uid hu,
          stored_how from_text ev,
          refl,
          refl,
          detail_callsign-detail_of (contact_of (detail_callsign ev.detail)) _ _
              ∙ callsign_kept ev.detail,
          rw (stored_accuracy from_text ev) (known-or_zero zero_ ev.ce),
        )

    -- A message that is read, and whose type and uid are not empty, is written back without an exception
    -- and without a lossy field, with its type, uid, how and position, its callsign, and its circular
    -- error, if that is known; an unset number is zero.
    pub event_to_cto-Kept :
        (c : Cto F)
        → HasZero
        → event_to_cto floats from_text millis src ev ≡ normalized c
        → has_text (some ev.type_) ≡ true
        → has_text (some ev.uid) ≡ true
        → Kept c
    event_to_cto-Kept c zero_ reads ht hu =
        let (sent, start, stale, made) = subst (Holds Made) reads event_to_cto-Made in
        subst Kept (sym made) (event_cto-Kept sent start stale zero_ ht hu)
