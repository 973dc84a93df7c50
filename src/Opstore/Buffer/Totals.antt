-- ===== src/Opstore/Buffer/Totals.antt =====
-- How many objects the buffer of services/opstore/main.py holds, and without some of its keys.
use tactical_gateway.Base.{
  ℕ, ◌+◌, ◌≤◌, text_eq_iff, text_eq_ne, text_ne, sym, ◌≡◌, refl, inl, inr, true, false, List, [],
  ◌∷◌, ◌++◌, Text, text_eq, text_eq_refl, length, length-append, arith, Bool-cases, ◌∙◌, ap,
}
use tactical_gateway.Base.Dict.{lookup, store, remove, keys}
use tactical_gateway.Opstore.Buffer.{or_nil}

-- The objects of a buffer.
abbrev pub total {ℓ} : {A : Type ℓ} → List (Text × List A) → ℕ
total [] = 0
total ((k, l) ∷ d) = length l + total d

-- The objects of the batches that are being written.
abbrev pub in_flight {ℓ} : {A : Type ℓ} → List (List A) → ℕ
in_flight [] = 0
in_flight (l ∷ ls) = length l + in_flight ls

pub total-store {ℓ} :
    {A : Type ℓ} (k : Text) (b : List A) (d : List (Text × List A))
    → total (store k b d) + length (or_nil (lookup k d)) ≡ total d + length b
unfolding store lookup
total-store k b [] = omega arith
total-store k b ((k', l) ∷ d) = elim (Bool-cases (text_eq k' k)) [
  | inl yes_ ↦ rw yes_ (omega arith)
  | inr no_ ↦ rw no_ (omega (arith, total-store k b d))
]

pub total-remove {ℓ} :
    {A : Type ℓ} (k : Text) (d : List (Text × List A))
    → length (or_nil (lookup k d)) + total (remove k d) ≡ total d
unfolding remove lookup
total-remove k [] = omega arith
total-remove k ((k', l) ∷ d) = elim (Bool-cases (text_eq k' k)) [
  | inl yes_ ↦ rw yes_ refl
  | inr no_ ↦ rw no_ (omega (arith, total-remove k d))
]

-- The dictionary without the keys.
abbrev pub remove_all {ℓ} : {A : Type ℓ} → List Text → List (Text × A) → List (Text × A)
remove_all [] d = d
remove_all (k ∷ ks) d = remove_all ks (remove k d)

remove_first {ℓ} : {A : Type ℓ} (k : Text) (a : A) (d : List (Text × A)) → remove k ((k, a) ∷ d) ≡ d
unfolding remove
remove_first k a d = rw (text_eq_refl k) refl

pub remove_all-keys {ℓ} : {A : Type ℓ} (d : List (Text × A)) → remove_all (keys d) d ≡ []
remove_all-keys [] = refl
remove_all-keys ((k, a) ∷ d) = ap (remove_all (keys d)) (remove_first k a d) ∙ remove_all-keys d

remove-store_same {ℓ} :
    {A : Type ℓ} (k : Text) (a : A) (d : List (Text × A)) → remove k (store k a d) ≡ remove k d
unfolding remove store
remove-store_same k a [] = rw (text_eq_refl k) refl
remove-store_same {A = A} k a ((k', b) ∷ d) = elim (Bool-cases (text_eq k' k)) [
  | inl yes_ ↦ rw yes_ (rw yes_ refl)
  | inr no_ ↦ rw no_ (rw no_ (ap (λ (l : List (Text × A)). (k', b) ∷ l) (remove-store_same k a d)))
]

remove-store_other {ℓ} :
    {A : Type ℓ} (j k : Text) (a : A) (d : List (Text × A))
    → text_eq k j ≡ false
    → remove j (store k a d) ≡ store k a (remove j d)
unfolding remove store
remove-store_other j k a [] h = rw h refl
remove-store_other {A = A} j k a ((k', b) ∷ d) h = elim (Bool-cases (text_eq k' k)) [
  | inl yes_ ↦
      let other : text_eq k' j ≡ false = ap (λ t. text_eq t j) ((text_eq_iff k' k).0 yes_) ∙ h in
      rw yes_ (rw other (rw yes_ refl))
  | inr no_ ↦ elim (Bool-cases (text_eq k' j)) [
    | inl same ↦ rw no_ (rw same refl)
    | inr other ↦ rw no_ (
        rw other
          (rw no_ (ap (λ (l : List (Text × A)). (k', b) ∷ l) (remove-store_other j k a d h))))
  ]
]

lookup-remove_other {ℓ} :
    {A : Type ℓ} (j k : Text) (d : List (Text × A))
    → text_eq k j ≡ false
    → lookup k (remove j d) ≡ lookup k d
unfolding remove lookup
lookup-remove_other j k [] h = refl
lookup-remove_other j k ((k', b) ∷ d) h = elim (Bool-cases (text_eq k' j)) [
  | inl yes_ ↦ let other : text_eq k' k ≡ false = apart k' yes_ in rw yes_ (rw other refl)
  | inr no_ ↦ elim (Bool-cases (text_eq k' k)) [
    | inl same ↦ rw no_ (rw same refl)
    | inr other ↦ rw no_ (rw other (lookup-remove_other j k d h))
  ]
]
  where
    apart : (k' : Text) → text_eq k' j ≡ true → text_eq k' k ≡ false
    apart k' e = text_eq_ne k' k (λ same. text_ne k j h (sym same ∙ (text_eq_iff k' j).0 e))

-- One more object under some key is at most one more outside the given keys.
pub total-remove_all-store {ℓ} :
    {A : Type ℓ} (ks : List Text) (k : Text) (a : A) (d : List (Text × List A))
    → total (remove_all ks (store k (or_nil (lookup k d) ++ (a ∷ [])) d))
      ≤ total (remove_all ks d) + 1
total-remove_all-store [] k a d =
    let old = or_nil (lookup k d) in
    omega (arith, total-store k (old ++ (a ∷ [])) d, length-append old (a ∷ []))
total-remove_all-store (j ∷ ks) k a d = elim (Bool-cases (text_eq k j)) [
  | inl yes_ ↦
      let same : k ≡ j = (text_eq_iff k j).0 yes_ in
      rw⁻¹ same (rw (remove-store_same k (or_nil (lookup k d) ++ (a ∷ [])) d) (omega arith))
  | inr no_ ↦
      rw (remove-store_other j k (or_nil (lookup k d) ++ (a ∷ [])) d no_)
        (rw⁻¹ (lookup-remove_other j k d no_) (total-remove_all-store ks k a (remove j d)))
]
