-- ===== src/CotXml/Event.antt =====
-- An event that is read as a CTO and written back: what the event keeps.
use mathlib.Core.Path.{subst}
use tactical_gateway.Base.{
  ◌≡◌, refl, ap, ◌∙◌, inl, inr, Bool, true, false, Option, none, some, is_some, List, [], ◌∷◌, Text,
  codes, text_eq, text_eq_iff, or_false, Bool-cases, arith,
}
use tactical_gateway.Base.Dict.{lookup}
use tactical_gateway.Xml.{Element, attrib_of, children_of, get, find}
use tactical_gateway.CotXml.Types.{synthesize_type}
use tactical_gateway.Schema.Records.{Floats, Cto}
use tactical_gateway.CotXml.Detail.{attrib_members}
use tactical_gateway.CotXml.Ingest.{
  normalized, Times, Source, is_in, known_event_attrs, extras_of, root_to_cto,
}
use tactical_gateway.CotXml.Egress.{
  Stamps, stamps_of, time_or, with_z, add_extras, with_attribute, fixed_attributes, event_attrs,
  event_element, cto_event, text_or, type_lossy,
}
use tactical_gateway.CotXml.Forward.{
  or_else, lookup-with_attribute, lookup-add_extras, lookup-extras_of, stored_extras, stored_how,
  lookup-extras_known,
}
use tactical_gateway.CotXml.Origin.{IsFrom, made-IsFrom}

-- The attributes that the writer makes anew.
abbrev pub rewritten : List Text
rewritten = codes "version" ∷ codes "time" ∷ codes "start" ∷ codes "stale" ∷ []

abbrev pub has_text : Option Text → Bool
has_text none = false
has_text (some []) = false
has_text (some (_ ∷ _)) = true

pub text_or-has_text : (o : Option Text) (d : Text) → has_text o ≡ true → some (text_or o d) ≡ o
text_or-has_text none d h = absurd (ground (arith, h))
text_or-has_text (some []) d h = absurd (ground (arith, h))
text_or-has_text (some (c ∷ t)) d h = refl

pub type_lossy-has_text : (o : Option Text) → has_text o ≡ true → type_lossy o ≡ []
type_lossy-has_text none h = absurd (ground (arith, h))
type_lossy-has_text (some []) h = absurd (ground (arith, h))
type_lossy-has_text (some (c ∷ t)) h = refl

some_value {ℓ} : {A : Type ℓ} (o : Option A) → is_some o ≡ true → (a : A) × (o ≡ some a)
some_value none h = absurd (ground (arith, h))
some_value (some a) h = (a, refl)

not_in :
    (k k' : Text) (ks : List Text)
    → is_in k (k' ∷ ks) ≡ false
    → (text_eq k' k ≡ false) × (is_in k ks ≡ false)
unfolding is_in
not_in k k' ks h = or_false (text_eq k' k) (is_in k ks) h

not_known :
    (k : Text)
    → is_in k rewritten ≡ false
    → text_eq (codes "uid") k ≡ false
    → text_eq (codes "type") k ≡ false
    → text_eq (codes "how") k ≡ false
    → is_in k known_event_attrs ≡ false
unfolding is_in
not_known k h u t how =
    let (version, r) =
      not_in k (codes "version") (codes "time" ∷ codes "start" ∷ codes "stale" ∷ []) h in
    let (time, r') = not_in k (codes "time") (codes "start" ∷ codes "stale" ∷ []) r in
    let (start, r'') = not_in k (codes "start") (codes "stale" ∷ []) r' in
    let (stale, _) = not_in k (codes "stale") [] r'' in
    rw (version, u, t, time, start, stale, how) refl

-- None of the seven names.
others :
    (k : Text)
    → is_in k known_event_attrs ≡ false
    → (text_eq (codes "how") k ≡ false)
      × ((v u t m s e : Text)
          → lookup k (
              (codes "version", v)
              ∷ (codes "uid", u)
              ∷ (codes "type", t)
              ∷ (codes "time", m)
              ∷ (codes "start", s)
              ∷ (codes "stale", e)
              ∷ [])
            ≡ none)
unfolding lookup is_in
others k h =
    let (version, r) = or_false (text_eq (codes "version") k) _ h in
    let (uid, r2) = or_false (text_eq (codes "uid") k) _ r in
    let (type_, r3) = or_false (text_eq (codes "type") k) _ r2 in
    let (time, r4) = or_false (text_eq (codes "time") k) _ r3 in
    let (start, r5) = or_false (text_eq (codes "start") k) _ r4 in
    let (stale, r6) = or_false (text_eq (codes "stale") k) _ r5 in
    let (how, _) = or_false (text_eq (codes "how") k) _ r6 in
    (how, λ v u t m s e. rw (version, uid, type_, time, start, stale) refl)

module _ {F : Type 0} (floats : Floats F) (times : Times) (w : Stamps) (root : Element) (c : Cto F)
    (from : IsFrom floats root c) where
  event_attrs_lem :
      event_attrs floats times w c
      ≡ add_extras (attrib_members {F = F} (extras_of (attrib_of root))) (
          with_attribute (codes "how") (get (codes "how") root) (fixed_attributes floats times w c))
  event_attrs_lem =
      let (u, t, g, (ce, attrs), call) = from in
      let detail : Option Element = find (codes "detail") (children_of root) in
      let how : Option Text = get (codes "how") root in
      let xs : List (Text × Text) = extras_of (attrib_of root) in
      rw (attrs, stored_how floats detail xs how ce)
        (stored_extras floats detail xs
          (with_attribute (codes "how") how (fixed_attributes floats times w c)) how ce)

  -- The attribute of the event: the one that the writer sets, or else an extra one.
  lookup-event_attrs :
      (k : Text)
      → lookup k (event_attrs floats times w c)
        ≡ or_else
            (lookup k (
              with_attribute
                (codes "how")
                (get (codes "how") root)
                (fixed_attributes floats times w c)))
            (lookup k (extras_of (attrib_of root)))
  lookup-event_attrs k =
      ap (lookup k) event_attrs_lem
      ∙ lookup-add_extras F k (extras_of (attrib_of root)) (
          with_attribute (codes "how") (get (codes "how") root) (fixed_attributes floats times w c))

  uid_kept :
      has_text (get (codes "uid") root) ≡ true
      → lookup (codes "uid") (event_attrs floats times w c) ≡ get (codes "uid") root
  unfolding lookup text_eq
  uid_kept h =
      let named : has_text c.source_uid ≡ true = ap has_text from.0 ∙ h in
      lookup-event_attrs (codes "uid")
      ∙ rw
          (lookup-with_attribute (codes "uid") (codes "how") (get (codes "how") root)
            (fixed_attributes floats times w c) refl)
          (text_or-has_text c.source_uid c.uid named ∙ from.0)

  type_kept :
      has_text (get (codes "type") root) ≡ true
      → lookup (codes "type") (event_attrs floats times w c) ≡ get (codes "type") root
  unfolding lookup text_eq
  type_kept h =
      let typed : has_text c.symbology.cot_type ≡ true = ap has_text from.1 ∙ h in
      lookup-event_attrs (codes "type")
      ∙ rw
          (lookup-with_attribute (codes "type") (codes "how") (get (codes "how") root)
            (fixed_attributes floats times w c) refl)
          (text_or-has_text c.symbology.cot_type
              (synthesize_type c.symbology.affiliation c.symbology.battle_dimension) typed
            ∙ from.1)

  how_kept : lookup (codes "how") (event_attrs floats times w c) ≡ get (codes "how") root
  unfolding lookup text_eq is_in
  how_kept = lookup-event_attrs (codes "how") ∙ go (get (codes "how") root)
    where
      go :
          (o : Option Text)
          → or_else
              (lookup
                (codes "how")
                (with_attribute (codes "how") o (fixed_attributes floats times w c)))
              (lookup (codes "how") (extras_of (attrib_of root)))
            ≡ o
      go none = lookup-extras_known (codes "how") (attrib_of root) refl
      go (some h) = refl

  extra_kept :
      (k : Text)
      → is_in k known_event_attrs ≡ false
      → lookup k (event_attrs floats times w c) ≡ get k root
  unfolding lookup
  extra_kept k h =
      let (how, fixed) = others k h in
      let base : lookup k (
            with_attribute (codes "how") (get (codes "how") root)
              (fixed_attributes floats times w c))
          ≡ none =
        lookup-with_attribute k (codes "how") (get (codes "how") root)
          (fixed_attributes floats times w c) how
        ∙ fixed _ _ _ _ _ _ in
      lookup-event_attrs k ∙ rw base (lookup-extras_of k (attrib_of root) h)

  kept_attribute :
      (k : Text)
      → is_in k rewritten ≡ false
      → has_text (get (codes "uid") root) ≡ true
      → has_text (get (codes "type") root) ≡ true
      → lookup k (event_attrs floats times w c) ≡ get k root
  kept_attribute k h hu ht = elim (Bool-cases (text_eq (codes "uid") k)) [
    | inl yes_ ↦
        subst (λ j. lookup j (event_attrs floats times w c) ≡ get j root)
          ((text_eq_iff (codes "uid") k).0 yes_) (uid_kept hu)
    | inr no_ ↦ elim (Bool-cases (text_eq (codes "type") k)) [
      | inl yes_ ↦
          subst (λ j. lookup j (event_attrs floats times w c) ≡ get j root)
            ((text_eq_iff (codes "type") k).0 yes_) (type_kept ht)
      | inr no' ↦ elim (Bool-cases (text_eq (codes "how") k)) [
        | inl yes_ ↦
            subst (λ j. lookup j (event_attrs floats times w c) ≡ get j root)
              ((text_eq_iff (codes "how") k).0 yes_) how_kept
        | inr no'' ↦ extra_kept k (not_known k h no_ no' no'')
      ]
    ]
  ]

stamps_written :
    {F : Type 0} (floats : Floats F) (times : Times) (c : Cto F)
    → is_some (times.iso c.event_time) ≡ true
    → is_some (times.iso (time_or c.valid_from c.event_time)) ≡ true
    → is_some (times.iso (time_or c.valid_to c.event_time)) ≡ true
    → (w : Stamps) × (stamps_of floats times c ≡ some w)
unfolding stamps_of
stamps_written floats times c time start stale =
    let (a, ea) = some_value (times.iso c.event_time) time in
    let (b, eb) = some_value (times.iso (time_or c.valid_from c.event_time)) start in
    let (d, ed) = some_value (times.iso (time_or c.valid_to c.event_time)) stale in
    (record { time = with_z a; start = with_z b; stale = with_z d }, rw (ea, eb, ed) refl)

-- An event that is read, whose uid and type are not empty, and whose three times can be written
-- (`astimezone` raises on a time at the ends of the calendar), is written back without an exception
-- and without a lossy field, and each of its attributes but version, time, start and stale, the
-- unknown ones included, has the value that it had.
pub get-cto_event :
    {F : Type 0} (floats : Floats F) (times : Times) (src : Source) (root : Element) (c : Cto F)
    → root_to_cto floats times src root ≡ normalized c
    → has_text (get (codes "uid") root) ≡ true
    → has_text (get (codes "type") root) ≡ true
    → is_some (times.iso c.event_time) ≡ true
    → is_some (times.iso (time_or c.valid_from c.event_time)) ≡ true
    → is_some (times.iso (time_or c.valid_to c.event_time)) ≡ true
    → (e : Element) × (cto_event floats times c ≡ some (e, []))
      × ((k : Text) → is_in k rewritten ≡ false → get k e ≡ get k root)
unfolding cto_event
get-cto_event floats times src root c reads hu ht time start stale =
    let (w, written) = stamps_written floats times c time start stale in
    let from : IsFrom floats root c = made-IsFrom floats times src root c reads in
    let (p, point) = from.2 in
    (
      event_element floats times w c p,
      rw (written, point, type_lossy-has_text c.symbology.cot_type (ap has_text from.1 ∙ ht)) refl,
      λ k h. kept_attribute floats times w root c from k h hu ht,
    )
