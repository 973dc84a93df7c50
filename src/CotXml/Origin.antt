-- ===== src/CotXml/Origin.antt =====
-- What a CTO keeps of the event that it is made from.
use mathlib.Core.Path.{subst}
use tactical_gateway.Base.{
  ℕ, ◌≡◌, refl, sym, ap, ◌∙◌, inl, inr, Bool, ◌&&◌, Option, none, some, Text, codes, text_eq,
  Bool-cases,
}
use tactical_gateway.Xml.{Element, tag_of, children_of, get, find}
use tactical_gateway.Schema.Records.{Floats, Cto, point_at}
use tactical_gateway.CotXml.Results.{Holds, Holds-bind}
use tactical_gateway.CotXml.Ingest.{
  Normalized, normalized, refused, raised, ◌>>=ₙ◌, Times, Source, or_refused, or_raised, parse_iso,
  require_attr, detail_children, detail_callsign, event_attributes, event_cto, root_to_cto,
}

module _ {F : Type 0} (floats : Floats F) where
  -- What a CTO keeps of the event that it is made from.
  abbrev pub IsFrom : Element → Cto F → Type 0
  IsFrom root c =
      (c.source_uid ≡ get (codes "uid") root)
      × (c.symbology.cot_type ≡ get (codes "type") root)
      × ((p : F × F) × (c.geometry ≡ point_at p))
      × ((ce : Option Text) × (c.attributes ≡ event_attributes floats root ce))
      × (c.callsign ≡ detail_callsign (detail_children (find (codes "detail") (children_of root))))

  abbrev value_of {ℓ} : {A : Type ℓ} → Normalized A → Option A
  value_of (normalized a) = some a
  value_of refused = none
  value_of raised = none

  value_of-or_refused {ℓ} : {A : Type ℓ} (o : Option A) → value_of (or_refused o) ≡ o
  value_of-or_refused none = refl
  value_of-or_refused (some a) = refl

  require_attr_lem : (e : Element) (k t : Text) → require_attr e k ≡ normalized t → get k e ≡ some t
  require_attr_lem e k t h = sym (value_of-or_refused (get k e)) ∙ ap value_of h

  event_cto-IsFrom :
      (src : Source) (root point : Element) (cot_type source_uid : Text) (t t' t'' : ℕ × Bool)
      (lat lon : F)
      → get (codes "type") root ≡ some cot_type
      → get (codes "uid") root ≡ some source_uid
      → Holds (IsFrom root) (event_cto floats src root point cot_type source_uid t t' t'' lat lon)
  unfolding event_cto
  event_cto-IsFrom src root point cot_type source_uid (t, b) (t', b') (t'', b'') lat lon ht hu =
      elim (Bool-cases (b && (b' && b''))) [
        | inl yes_ ↦
            rw yes_ (sym hu, sym ht, ((lon, lat), refl), (get (codes "ce") point, refl), refl)
        | inr no_ ↦ rw no_ tt
      ]

  root_to_cto-IsFrom :
      (times : Times) (src : Source) (root : Element)
      → Holds (IsFrom root) (root_to_cto floats times src root)
  unfolding root_to_cto
  root_to_cto-IsFrom times src root = elim (Bool-cases (text_eq (tag_of root) (codes "event"))) [
    | inr no_ ↦ rw no_ tt
    | inl yes_ ↦ rw yes_ (
        Holds-bind (IsFrom root) (require_attr root (codes "type")) _ (λ cot_type type_.
          Holds-bind (IsFrom root) (require_attr root (codes "uid")) _ (λ uid uid_.
            Holds-bind (IsFrom root) (require_attr root (codes "time") >>=ₙ parse_iso times) _
              (λ t _.
                Holds-bind (IsFrom root) (require_attr root (codes "start") >>=ₙ parse_iso times) _
                  (λ t' _.
                    Holds-bind (IsFrom root)
                      (require_attr root (codes "stale") >>=ₙ parse_iso times) _
                      (λ t'' _.
                        Holds-bind (IsFrom root)
                          (or_refused (find (codes "point") (children_of root))) _
                          (λ point _.
                            Holds-bind (IsFrom root) (require_attr point (codes "lat")) _
                              (λ lat_text _.
                                Holds-bind (IsFrom root) (or_raised (floats.parse lat_text)) _
                                  (λ lat _.
                                    Holds-bind (IsFrom root) (require_attr point (codes "lon")) _
                                      (λ lon_text _.
                                        Holds-bind (IsFrom root) (or_raised (floats.parse lon_text))
                                          _
                                          (λ lon _.
                                            event_cto-IsFrom src root point cot_type uid t t' t''
                                              lat lon
                                              (require_attr_lem root (codes "type") cot_type type_)
                                              (require_attr_lem root (codes "uid") uid
                                                uid_))))))))))))
  ]

  pub made-IsFrom :
      (times : Times) (src : Source) (root : Element) (c : Cto F)
      → root_to_cto floats times src root ≡ normalized c
      → IsFrom root c
  made-IsFrom times src root c h = subst (Holds (IsFrom root)) h (root_to_cto-IsFrom times src root)
