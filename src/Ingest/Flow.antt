-- ===== src/Ingest/Flow.antt =====
-- What an ingest that reports success has done.
use mathlib.Core.Path.{subst}
use tactical_gateway.Base.{
  ℕ, ◌+◌, ◌≤◌, ◌≡◌, ◌⊎◌, inl, inr, refl, ap, ◌∙◌, Bool, true, false, not, ◌==◌, some, List, [], ◌∷◌,
  ◌++◌, Text, codes, length, take, ltb, All, starts_with, drop_while, and_true, Bool-cases, arith,
}
use tactical_gateway.Ingest.{
  IngestResult, Ingested, returned, escaped, Captured, captured, capture_raised, Parsed, parsed,
  parse_error, other_error, Services, is_blank, is_zip, is_xml, publish_all, count_conflicts,
  after_parse, after_capture, kmz_ingest, ovl_ingest,
}

-- White space of ASCII, as `bytes.lstrip` takes it.
abbrev pub Blank : ℕ → Type 0
Blank c = ((9 ≤ c) × (c ≤ 13)) ⊎ (c ≡ 32)

-- A file that begins as a zip archive does.
abbrev pub ZipLike : List ℕ → Type 0
ZipLike data_ = (4 ≤ length data_) × (rest : List ℕ) × (data_ ≡ codes "PK" ++ rest)

-- A file whose first visible character, within the first 64, is `<`.
abbrev pub XmlLike : List ℕ → Type 0
XmlLike data_ =
    (16 ≤ length data_)
    × (blanks : List ℕ) × (rest : List ℕ) × All Blank blanks
    × (take 64 data_ ≡ blanks ++ (codes "<" ++ rest))

starts_with-append : (s p : Text) → starts_with s p ≡ true → (rest : Text) × (s ≡ p ++ rest)
unfolding starts_with
starts_with-append s [] h = (s, refl)
starts_with-append [] (y ∷ p) h = absurd (ground (arith, h))
starts_with-append (x ∷ s) (y ∷ p) h =
    let (same, rest) = and_true (x == y) (starts_with s p) h in
    let (more, e) = starts_with-append s p rest in
    (more, ap (λ (l : Text). x ∷ l) e ∙ ap (λ (z : ℕ). z ∷ (p ++ more)) (ground (arith, same)))

is_blank-Blank : (c : ℕ) → is_blank c ≡ true → Blank c
is_blank-Blank c h = ground (arith, h)

drop_while-append :
    (s : Text) → (blanks : Text) × All Blank blanks × (s ≡ blanks ++ drop_while is_blank s)
unfolding drop_while
drop_while-append [] = ([], tt, refl)
drop_while-append (c ∷ s) = elim (Bool-cases (is_blank c)) [
  | inl yes_ ↦
      let (blanks, all, e) = drop_while-append s in
      rw (yes_, drop_while) (c ∷ blanks, (is_blank-Blank c yes_, all), ap (λ (l : Text). c ∷ l) e)
  | inr no_ ↦ rw (no_, drop_while) ([], tt, refl)
]

is_zip-ZipLike : (data_ : List ℕ) → is_zip data_ ≡ true → ZipLike data_
unfolding is_zip
is_zip-ZipLike data_ h =
    let (long, front) = and_true (not (ltb (length data_) 4)) (starts_with data_ (codes "PK")) h in
    let (rest, e) = starts_with-append data_ (codes "PK") front in (ground (arith, long), rest, e)

is_xml-XmlLike : (data_ : List ℕ) → is_xml data_ ≡ true → XmlLike data_
unfolding is_xml
is_xml-XmlLike data_ h =
    let rest : Text = drop_while is_blank (take 64 data_) in
    let (long, front) = and_true (not (ltb (length data_) 16)) (starts_with rest (codes "<")) h in
    let (blanks, all, e) = drop_while-append (take 64 data_) in
    let (more, f) = starts_with-append rest (codes "<") front in
    (ground (arith, long), blanks, more, all, e ∙ ap (λ (l : Text). blanks ++ l) f)

module _ {W C : Type 0} (services : Services W C) where
  -- The objects were handed to the publisher, one call for each, in their order.
  pub data Published : List C → W → W → Type 0 where
    done : (w : W) → Published [] w w
    next :
        (c : C) (cs : List C) (w w' : W)
        → Published cs (services.publish_cto c w).1 w'
        → Published (c ∷ cs) w w'

  -- So many objects of the list have a conflict.
  pub data Conflicting : List C → ℕ → Type 0 where
    none_left : Conflicting [] 0
    clash :
        (c : C) (cs : List C) (n : ℕ)
        → services.has_conflict c ≡ true
        → Conflicting cs n
        → Conflicting (c ∷ cs) (1 + n)
    no_clash :
        (c : C) (cs : List C) (n : ℕ)
        → services.has_conflict c ≡ false
        → Conflicting cs n
        → Conflicting (c ∷ cs) n

  -- What success of an ingest means: the file is of its format, the bytes were captured first, the
  -- parser made objects of them, each object was handed to the publisher behind the capture, and the
  -- result says so.
  abbrev pub Succeeds :
      Type 0 → (Text → Parsed C) → (List C → ℕ → Type 0) → Captured × W → IngestResult → W → Type 0
  Succeeds Accepted parse Conflicts capture_result r w' =
      Accepted
      × (key : Text) × (w1 : W) × (ctos : List C) × (capture_result ≡ (captured key, w1))
      × (parse key ≡ parsed ctos)
      × (r.object_key ≡ some key)
      × (r.count ≡ length ctos)
      × Conflicts ctos r.conflict_count
      × Published ctos w1 w'

  -- What a result must show: a success is one, a failure has no objects.
  abbrev pub Honest :
      Type 0 → (Text → Parsed C) → (List C → ℕ → Type 0) → Captured × W → Ingested × W → Type 0
  Honest Accepted parse Conflicts c (escaped, w') =
      Accepted
      × (key : Text) × (w1 : W) × (c ≡ (captured key, w1))
      × (parse key ≡ other_error)
      × (w' ≡ w1)
  Honest Accepted parse Conflicts c (returned r, w') = if_ok r.ok
    where
      if_ok : Bool → Type 0
      if_ok true = Succeeds Accepted parse Conflicts c r w'
      if_ok false = r.count ≡ 0

  publish_all-Published : (cs : List C) (w : W) → Published cs w (publish_all services cs w)
  unfolding publish_all
  publish_all-Published [] w = done w
  publish_all-Published (c ∷ cs) w =
      next c cs w _ (publish_all-Published cs (services.publish_cto c w).1)

  count_conflicts-Conflicting : (cs : List C) → Conflicting cs (count_conflicts services cs)
  unfolding count_conflicts
  count_conflicts-Conflicting [] = none_left
  count_conflicts-Conflicting (c ∷ cs) = elim (Bool-cases (services.has_conflict c)) [
    | inl yes_ ↦ rw yes_ (clash c cs _ yes_ (count_conflicts-Conflicting cs))
    | inr no_ ↦
        let n : ℕ = count_conflicts services cs in
        let same : n ≡ 0 + n = omega arith in
        rw no_ (
          subst (λ m. Conflicting (c ∷ cs) m) same
            (no_clash c cs n no_ (count_conflicts-Conflicting cs)))
  ]

  module _ (Accepted : Type 0) (accepted : Accepted) (Conflicts : List C → ℕ → Type 0)
      (conflicts : List C → ℕ) (counts : (cs : List C) → Conflicts cs (conflicts cs)) where
    after_parse-Honest :
        (parse : Text → Parsed C) (filename sha key : Text) (w : W) (p : Parsed C)
        → parse key ≡ p
        → Honest Accepted parse Conflicts
            (captured key, w)
            (after_parse services conflicts filename sha key w p)
    unfolding after_parse
    after_parse-Honest parse filename sha key w (parsed ctos) e =
        (accepted, key, w, ctos, refl, e, refl, refl, counts ctos, publish_all-Published ctos w)
    after_parse-Honest parse filename sha key w (parse_error x) e = refl
    after_parse-Honest parse filename sha key w other_error e = (accepted, key, w, refl, e, refl)

    after_capture-Honest :
        (parse : Text → Parsed C) (filename sha : Text) (c : Captured × W)
        → Honest Accepted parse Conflicts c (after_capture services parse conflicts filename sha c)
    unfolding after_capture
    after_capture-Honest parse filename sha (captured key, w) =
        after_parse-Honest parse filename sha key w (parse key) refl
    after_capture-Honest parse filename sha (capture_raised e, w) = refl

  -- A KMZ ingest reports success only if the file has at least 4 bytes of which the first are PK, the
  -- bytes were captured, the parser made objects of them, and each object was handed to the publisher
  -- behind the capture, in their order, and then with their number; an exception leaves it only from
  -- the parser, behind the capture; a failure counts no object.
  pub kmz_ingest-Honest :
      (kmz_to_ctos : List ℕ → Text → Text → Parsed C) (data_ : List ℕ) (filename : Text) (w : W)
      → Honest
          (ZipLike data_)
          (kmz_to_ctos data_ filename)
          (λ _ n. n ≡ 0)
          (services.capture data_ (codes "kmz") w)
          (kmz_ingest services kmz_to_ctos data_ filename w)
  unfolding kmz_ingest
  kmz_ingest-Honest kmz_to_ctos data_ filename w = elim (Bool-cases (is_zip data_)) [
    | inl yes_ ↦ rw yes_ (
        after_capture-Honest (ZipLike data_) (is_zip-ZipLike data_ yes_) (λ _ n. n ≡ 0) (λ _. 0)
          (λ _. refl) (kmz_to_ctos data_ filename) filename (services.sha256_hex data_)
          (services.capture data_ (codes "kmz") w))
    | inr no_ ↦ rw no_ refl
  ]

  -- An OVL ingest reports success only if the file has at least 16 bytes and, within the first 64, `<`
  -- as the first that is not blank, the bytes were captured, the parser made objects of them, and each
  -- object was handed to the publisher behind the capture, in their order, and then with their number
  -- and that of the objects with a conflict; an exception leaves it only from the parser, behind the
  -- capture; a failure counts no object.
  pub ovl_ingest-Honest :
      (ovl_to_ctos : List ℕ → Text → Text → Parsed C) (data_ : List ℕ) (filename : Text) (w : W)
      → Honest
          (XmlLike data_)
          (ovl_to_ctos data_ filename)
          Conflicting
          (services.capture data_ (codes "ovl") w)
          (ovl_ingest services ovl_to_ctos data_ filename w)
  unfolding ovl_ingest
  ovl_ingest-Honest ovl_to_ctos data_ filename w = elim (Bool-cases (is_xml data_)) [
    | inl yes_ ↦ rw yes_ (
        after_capture-Honest (XmlLike data_) (is_xml-XmlLike data_ yes_) Conflicting
          (count_conflicts services) count_conflicts-Conflicting (ovl_to_ctos data_ filename)
          filename (services.sha256_hex data_) (services.capture data_ (codes "ovl") w))
    | inr no_ ↦ rw no_ refl
  ]
