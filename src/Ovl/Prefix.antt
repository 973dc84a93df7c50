-- ===== src/Ovl/Prefix.antt =====
-- The geometry class of a symbol code is that of the longest front part that the table has.
use mathlib.Core.Path.{subst}
use native.Mathlib.Decide.{dec_lt}
use tactical_gateway.Base.{
  ℕ, zero, suc, ◌≡◌, ◌≢◌, ◌≤◌, ◌<◌, ◌↔◌, refl, sym, ◌∙◌, ap, inl, inr, Option, none, some, List, [],
  ◌∷◌, Text, length, take, text_eq_ne, Option-cases, arith, All,
}
use tactical_gateway.Base.Dict.{lookup}
use tactical_gateway.Ovl.Sidc.{
  GeometryClass, function_geometry, function_code, longest_prefix, classify_code, classify_geometry,
}

-- `n` is the length of the longest front part of `fc` with two characters or more in the table, and
-- `c` its class.
abbrev pub IsLongest : Text → ℕ → GeometryClass → Type 0
IsLongest fc n c =
    (2 ≤ n)
    × (n ≤ length fc)
    × (lookup (take n fc) function_geometry ≡ some c)
    × ((m : ℕ) → n < m → m ≤ length fc → lookup (take m fc) function_geometry ≡ none)

abbrev prefix_at : Text → ℕ → Option GeometryClass
prefix_at fc n = lookup (take n fc) function_geometry

longest_prefix_hit :
    (fc : Text) (n : ℕ) (c : GeometryClass)
    → prefix_at fc (suc (suc n)) ≡ some c
    → longest_prefix fc (suc (suc n)) ≡ some c
unfolding longest_prefix
longest_prefix_hit fc n c h = rw (h, longest_prefix) refl

longest_prefix_miss :
    (fc : Text) (n : ℕ)
    → prefix_at fc (suc (suc n)) ≡ none
    → longest_prefix fc (suc (suc n)) ≡ longest_prefix fc (suc n)
unfolding longest_prefix
longest_prefix_miss fc n h = rw (h, longest_prefix) refl

-- Nothing longer than `n` is in the table, so nothing longer than one less either, if `n` is not.
above_step :
    (fc : Text) (n : ℕ)
    → ((m : ℕ) → suc n < m → m ≤ length fc → prefix_at fc m ≡ none)
    → prefix_at fc (suc n) ≡ none
    → (m : ℕ) → n < m
    → m ≤ length fc
    → prefix_at fc m ≡ none
above_step fc n above here m less fits = elim (dec_lt (suc n) m) [
  | yes more ↦ above m more fits
  | no same ↦ let e : m ≡ suc n = omega arith in rw e here
]

-- What the loop from `n` finds, if no front part beyond `n` is in the table.
longest_prefix_finds :
    (fc : Text) (n : ℕ) (c : GeometryClass)
    → n ≤ length fc
    → ((m : ℕ) → n < m → m ≤ length fc → prefix_at fc m ≡ none)
    → longest_prefix fc n ≡ some c
    → (k : ℕ) × IsLongest fc k c
longest_prefix_finds fc zero c fits above e = absurd (unfold longest_prefix in ground (arith, e))
longest_prefix_finds fc (suc zero) c fits above e =
    absurd (unfold longest_prefix in ground (arith, e))
longest_prefix_finds fc (suc (suc n)) c fits above e =
    elim (Option-cases (prefix_at fc (suc (suc n)))) [
      | inl none_ ↦
          longest_prefix_finds fc (suc n) c (omega arith) (above_step fc (suc n) above none_)
            (sym (longest_prefix_miss fc n none_) ∙ e)
      | inr (d, here) ↦
          let same : d ≡ c = cc (e, longest_prefix_hit fc n d here) in
          (suc (suc n), (omega arith, fits, here ∙ ap some same, above))
    ]

-- A front part in the table is found by the loop from any length that is not shorter.
longest_prefix_of :
    (fc : Text) (n k : ℕ) (c : GeometryClass)
    → k ≤ n
    → n ≤ length fc
    → IsLongest fc k c
    → longest_prefix fc n ≡ some c
longest_prefix_of fc zero k c le fits h = absurd (omega (arith, h.0))
longest_prefix_of fc (suc zero) k c le fits h = absurd (omega (arith, h.0))
longest_prefix_of fc (suc (suc n)) k c le fits (two, fits', here, above) =
    elim (dec_lt k (suc (suc n))) [
      | yes less ↦
          longest_prefix_miss fc n (above (suc (suc n)) less fits)
          ∙ longest_prefix_of fc (suc n) k c (omega arith) (omega arith) (two, fits', here, above)
      | no same ↦
          let e : k ≡ suc (suc n) = omega arith in
          longest_prefix_hit fc n c (subst (λ j. prefix_at fc j ≡ some c) e here)
    ]

lookup_short {ℓ} :
    {A : Type ℓ} (k : Text) (d : List (Text × A))
    → All (λ r. 2 ≤ length r.0) d
    → length k < 2
    → lookup k d ≡ none
unfolding lookup
lookup_short k [] long short = refl
lookup_short k ((k', a) ∷ d) (long, rest) short =
    let other : k' ≢ k = λ e. absurd (omega (arith, ap length e)) in
    rw (text_eq_ne k' k other) (lookup_short k d rest short)

function_geometry_long : All (λ r. 2 ≤ length r.0) function_geometry
unfolding function_geometry
function_geometry_long = omega arith

take-length {ℓ} : {A : Type ℓ} (xs : List A) → take (length xs) xs ≡ xs
take-length [] = refl
take-length (x ∷ xs) = ap (λ t. x ∷ t) (take-length xs)

-- The test for the whole code is the first round of the loop.
exact_first :
    (fc : Text) (n : ℕ) (d : GeometryClass)
    → length fc ≡ n
    → lookup fc function_geometry ≡ some d
    → longest_prefix fc n ≡ some d
exact_first fc zero d e here =
    let missing = lookup_short fc function_geometry function_geometry_long (omega arith) in cc
exact_first fc (suc zero) d e here =
    let missing = lookup_short fc function_geometry function_geometry_long (omega arith) in cc
exact_first fc (suc (suc n)) d e here = longest_prefix_hit fc n d (
    subst (λ m. lookup (take m fc) function_geometry ≡ some d) e
      (ap (λ t. lookup t function_geometry) (take-length fc) ∙ here))

classify_code_lem : (fc : Text) → classify_code fc ≡ longest_prefix fc (length fc)
classify_code_lem [] = unfold longest_prefix in refl
classify_code_lem (c ∷ fc) = elim (Option-cases (lookup (c ∷ fc) function_geometry)) [
  | inl none_ ↦ rw none_ refl
  | inr (d, here) ↦ rw here (sym (exact_first (c ∷ fc) (length (c ∷ fc)) d refl here))
]

-- `classify_geometry` gives a class exactly if a front part of the function code with two characters
-- or more is in the table, and then the class of the longest such part.
pub classify_geometry_iff :
    (sidc : Text) (c : GeometryClass)
    → (classify_geometry sidc ≡ some c) ↔ ((k : ℕ) × IsLongest (function_code sidc) k c)
unfolding classify_geometry
classify_geometry_iff sidc c =
    let fc = function_code sidc in
    (
      λ e.
          longest_prefix_finds fc (length fc) c (omega arith)
            (λ m more fits. absurd (omega (arith, more, fits))) (sym (classify_code_lem fc) ∙ e),
      λ h. classify_code_lem fc ∙ longest_prefix_of fc (length fc) h.0 c h.1.1 (omega arith) h.1,
    )
