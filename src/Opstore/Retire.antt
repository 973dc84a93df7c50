-- ===== src/Opstore/Retire.antt =====
-- The rows that the supersession retires, and those that it keeps: `supersede_prior` of
-- services/opstore/writer.py.
use mathlib.Core.Path.{subst}
use tactical_gateway.Base.{
  sym, ◌||◌, ◌∙◌, not, text_eq_iff, ℕ, ◌≡◌, refl, ◌⊎◌, inl, inr, Bool, true, false, ◌&&◌, Option,
  none, some, is_some, ◌≢◌, ap, text_eq, text_ne, List, [], ◌∷◌, ◌++◌, Text, arith, Bool-cases, All,
}
use tactical_gateway.Opstore.{Row, has_uid, column_is, is_prior, retire}

pub All-append {ℓ} :
    {A : Type ℓ} (P : A → Type 0) (xs : List A) (a : A) → All P xs → P a → All P (xs ++ (a ∷ []))
All-append P [] a h p = (p, tt)
All-append P (x ∷ xs) a (h, hs) p = (h, All-append P xs a hs p)

&&-false : (a b : Bool) → ((a && b) && false) ≡ false
&&-false true true = refl
&&-false true false = refl
&&-false false true = refl
&&-false false false = refl

module _ {C : Type 0} (filename source : Text) where
  -- A retired row is not prior any more.
  pub retire_clears :
      (at : ℕ) (rs : List (Row C))
      → All (λ r. is_prior filename source r ≡ false) (retire filename source at rs)
  unfolding retire
  retire_clears at [] = tt
  retire_clears at (r ∷ rs) = elim (Bool-cases (is_prior filename source r)) [
    | inl yes_ ↦ rw yes_ (
      &&-false (column_is filename r.parent_kmz_filename) (column_is source r.parent_kmz_source),
      retire_clears at rs,
    )
    | inr no_ ↦ rw no_ (no_, retire_clears at rs)
  ]

abbrev value_or : Text → Option Text → Text
value_or a none = a
value_or a (some b) = b

-- The row is not a current one of this KMZ from this channel.
abbrev pub NotCurrent : {C : Type 0} → Text → Text → Row C → Type 0
NotCurrent filename source r =
    (r.parent_kmz_filename ≢ some filename)
    ⊎ (r.parent_kmz_source ≢ some source)
    ⊎ (is_some r.valid_to ≡ true)

column_is-other :
    (v : Text) (o : Option Text) → column_is v o ≡ false → ◌≢◌ {A = Option Text} o (some v)
unfolding text_eq
column_is-other v none h = λ e. cc
column_is-other v (some w) h = λ e. some_ne w v (text_ne w v h) e
  where
    some_ne : (a b : Text) → a ≢ b → ◌≢◌ {A = Option Text} (some a) (some b)
    some_ne a b ne e = ne (ap (λ o. value_or a o) e)

pub is_prior-NotCurrent :
    {C : Type 0} (filename source : Text) (r : Row C)
    → is_prior filename source r ≡ false
    → NotCurrent filename source r
unfolding is_prior
is_prior-NotCurrent filename source r h =
    elim (Bool-cases (column_is filename r.parent_kmz_filename)) [
      | inl file ↦ elim (Bool-cases (column_is source r.parent_kmz_source)) [
        | inl channel ↦ elim (Bool-cases (is_some r.valid_to)) [
          | inl retired ↦ inr (inr retired)
          | inr open_ ↦ absurd (prior_is file channel open_)
        ]
        | inr other ↦ inr (inl (column_is-other source r.parent_kmz_source other))
      ]
      | inr other ↦ inl (column_is-other filename r.parent_kmz_filename other)
    ]
  where
    prior_is :
        column_is filename r.parent_kmz_filename ≡ true
        → column_is source r.parent_kmz_source ≡ true
        → is_some r.valid_to ≡ false
        → ⊥
    prior_is a b c = absurd (ground (arith, a, b, c, h))

-- The row is a current one of this KMZ from this channel.
abbrev CurrentOf : {C : Type 0} → Text → Text → Row C → Type 0
CurrentOf filename source r =
    (r.parent_kmz_filename ≡ some filename)
    × (r.parent_kmz_source ≡ some source)
    × (r.valid_to ≡ none)

-- The table has the row.
abbrev pub Has : {C : Type 0} → Row C → List (Row C) → Type 0
Has r [] = ⊥
Has r (x ∷ xs) = (r ≡ x) ⊎ Has r xs

pub Has-append : {C : Type 0} (r : Row C) (xs ys : List (Row C)) → Has r xs → Has r (xs ++ ys)
Has-append r [] ys h = absurd h
Has-append r (x ∷ xs) ys (inl e) = inl e
Has-append r (x ∷ xs) ys (inr h) = inr (Has-append r xs ys h)

pub All-of :
    {C : Type 0} (P : Row C → Type 0) (rs : List (Row C))
    → ((r : Row C) → Has r rs → P r)
    → All P rs
All-of P [] sub = tt
All-of P (r ∷ rs) sub = (sub r (inl refl), All-of P rs (λ x h. sub x (inr h)))

column_is-same : (v : Text) (o : Option Text) → column_is v o ≡ true → o ≡ some v
column_is-same v none h = absurd (ground (arith, h))
column_is-same v (some w) h = ap (λ (t : Text). some t) ((text_eq_iff w v).0 h)

is_prior-CurrentOf :
    {C : Type 0} (filename source : Text) (r : Row C)
    → is_prior filename source r ≡ true
    → CurrentOf filename source r
unfolding is_prior
is_prior-CurrentOf filename source r h =
    let file = column_is filename r.parent_kmz_filename in
    let channel = column_is source r.parent_kmz_source in
    let (a, b, c) = parts file channel r.valid_to h in
    (
      column_is-same filename r.parent_kmz_filename a,
      column_is-same source r.parent_kmz_source b,
      c,
    )
  where
    parts :
        (x y : Bool) (o : Option ℕ)
        → (x && y && not (is_some o)) ≡ true
        → (x ≡ true) × (y ≡ true) × (o ≡ none)
    parts true true none h = (refl, refl, refl)
    parts true true (some n) h = absurd (ground (arith, h))
    parts true false o h = absurd (ground (arith, h))
    parts false y o h = absurd (ground (arith, h))

abbrev pub retired_at : {C : Type 0} → ℕ → Row C → Row C
retired_at at r = record r { valid_to = some at }

-- The row is in the table as it was, or was a current one and is in it with the time of retirement.
abbrev pub Retired : {C : Type 0} → Text → Text → ℕ → Row C → List (Row C) → Type 0
Retired filename source at r rs =
    (CurrentOf filename source r × Has (retired_at at r) rs) ⊎ Has r rs

pub retire_keeps :
    {C : Type 0} (filename source : Text) (at : ℕ) (rs : List (Row C)) (r : Row C)
    → Has r rs
    → Retired filename source at r (retire filename source at rs)
unfolding retire
retire_keeps filename source at [] r h = absurd h
retire_keeps filename source at (x ∷ xs) r (inl e) =
    elim (Bool-cases (is_prior filename source x)) [
      | inl yes_ ↦ inl (
        subst (λ y. CurrentOf filename source y) (sym e)
            (is_prior-CurrentOf filename source x yes_),
        inl (rw yes_ (ap (retired_at at) e)),
      )
      | inr no_ ↦ inr (inl (rw no_ e))
    ]
retire_keeps filename source at (x ∷ xs) r (inr h) = later (retire_keeps filename source at xs r h)
  where
    later :
        Retired filename source at r (retire filename source at xs)
        → Retired filename source at r (retire filename source at (x ∷ xs))
    later (inl (c, k)) = inl (c, inr k)
    later (inr k) = inr (inr k)

-- The table has a row with the uid.
abbrev pub Named : {C : Type 0} → Text → List (Row C) → Type 0
Named {C} u rs = (r : Row C) × Has r rs × (r.uid ≡ u)

pub has_uid-Named : {C : Type 0} (u : Text) (rs : List (Row C)) → has_uid u rs ≡ true → Named u rs
unfolding has_uid
has_uid-Named u [] h = absurd (ground (arith, h))
has_uid-Named u (x ∷ xs) h = elim (Bool-cases (text_eq x.uid u)) [
  | inl yes_ ↦ (x, inl refl, (text_eq_iff x.uid u).0 yes_)
  | inr no_ ↦
      let (r, k, e) = has_uid-Named u xs (ap (λ b. b || has_uid u xs) (sym no_) ∙ h) in
      (r, inr k, e)
]

pub Has-last : {C : Type 0} (r : Row C) (xs : List (Row C)) → Has r (xs ++ (r ∷ []))
Has-last r [] = inl refl
Has-last r (x ∷ xs) = inr (Has-last r xs)
