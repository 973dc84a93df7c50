-- ===== src/Base/Dict.antt =====
-- A dictionary with text keys, in the order of insertion.
use mathlib.Core.Path.{◌≡◌, refl, ap, ◌∙◌}
use mathlib.Core.Logic.{inl, inr}
use mathlib.Core.Bool.{false}
use mathlib.Core.Option.{Option, none, some}
use mathlib.Core.List.{List, [], ◌∷◌}
use tactical_gateway.Base.Tests.{if◌then◌else◌, Bool-cases}
use tactical_gateway.Base.Strings.{Text, text_eq, text_eq_iff, text_eq_refl}

unfoldable pub lookup {ℓ} : {A : Type ℓ} → Text → List (Text × A) → Option A
unfolding text_eq
lookup k [] = none
lookup k ((k', a) ∷ d) = if text_eq k' k then some a else lookup k d

unfoldable pub store {ℓ} : {A : Type ℓ} → Text → A → List (Text × A) → List (Text × A)
unfolding text_eq
store k a [] = (k, a) ∷ []
store k a ((k', b) ∷ d) = if text_eq k' k then (k', a) ∷ d else (k', b) ∷ store k a d

-- The dictionary without the first entry of the key.
unfoldable pub remove {ℓ} : {A : Type ℓ} → Text → List (Text × A) → List (Text × A)
unfolding text_eq
remove k [] = []
remove k ((k', a) ∷ d) = if text_eq k' k then d else (k', a) ∷ remove k d

abbrev pub keys {ℓ} : {A : Type ℓ} → List (Text × A) → List Text
keys [] = []
keys ((k, a) ∷ d) = k ∷ keys d

module _ {ℓ} {A : Type ℓ} where
  pub lookup-store_same : (k : Text) (a : A) (d : List (Text × A)) → lookup k (store k a d) ≡ some a
  unfolding lookup store
  lookup-store_same k a [] = rw (text_eq_refl k) refl
  lookup-store_same k a ((k', b) ∷ d) = elim (Bool-cases (text_eq k' k)) [
    | inl yes_ ↦ rw (yes_, yes_) refl
    | inr no_ ↦ rw (no_, no_) (lookup-store_same k a d)
  ]

  pub lookup-store_other :
      (j k : Text) (a : A) (d : List (Text × A))
      → text_eq k j ≡ false
      → lookup j (store k a d) ≡ lookup j d
  unfolding lookup store
  lookup-store_other j k a [] h = rw h refl
  lookup-store_other j k a ((k', b) ∷ d) h = elim (Bool-cases (text_eq k' k)) [
    | inl yes_ ↦
        let other : text_eq k' j ≡ false = ap (λ t. text_eq t j) ((text_eq_iff k' k).0 yes_) ∙ h in
        rw (yes_, other) refl
    | inr no_ ↦ elim (Bool-cases (text_eq k' j)) [
      | inl same ↦ rw (no_, same) refl
      | inr other ↦ rw (no_, other) (lookup-store_other j k a d h)
    ]
  ]
