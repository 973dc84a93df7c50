-- ===== src/Recognize/Letters.antt =====
-- The affiliations and their letters in a SIDC, apart from the table of the code.
use mathlib.Core.Path.{subst}
use tactical_gateway.Base.{
  ℕ, ◌≡◌, ◌≢◌, ◌⊎◌, refl, sym, ap, ◌∙◌, if◌then◌else◌, inl, inr, Bool, true, false, ◌||◌, Option,
  none, some, List, [], ◌∷◌, All, Text, text_eq, text_eq_iff, length, ◌==◌, arith, Bool-cases,
  lower, strip, Option-cases,
}
use tactical_gateway.Recognize.{hostile_desc, friendly_desc}
use tactical_gateway.Recognize.Affiliate.{
  Affiliation, friend, hostile, neutral, unknown, suspect, assumed_friend, pending,
  AffiliationSource, description_hostile, description_friendly, suspected_modifier,
  configured_default, affil_char, affil_name, affil_table, named, default_affiliation, with_char,
  affiliation_from_explicit_sidc, base_affiliation, suspect_of, chosen_affiliation,
}

-- The letter of an affiliation.
pub data Letter : ℕ → Affiliation → Type 0 where
  letter_f : Letter 70 friend
  letter_h : Letter 72 hostile
  letter_n : Letter 78 neutral
  letter_u : Letter 85 unknown
  letter_s : Letter 83 suspect
  letter_a : Letter 65 assumed_friend
  letter_p : Letter 80 pending

pub affil_char-Letter : (a : Affiliation) → Letter (affil_char a) a
unfolding affil_char
affil_char-Letter friend = letter_f
affil_char-Letter hostile = letter_h
affil_char-Letter neutral = letter_n
affil_char-Letter unknown = letter_u
affil_char-Letter suspect = letter_s
affil_char-Letter assumed_friend = letter_a
affil_char-Letter pending = letter_p

abbrev pub is_letter : ℕ → Bool
is_letter c = c == 70 || c == 72 || c == 78 || c == 85 || c == 83 || c == 65 || c == 80

with_char-Letter :
    (c : ℕ) (l : List Affiliation) (a : Affiliation) → with_char c l ≡ some a → Letter c a
unfolding with_char
with_char-Letter c [] a h = absurd (ground (arith, h))
with_char-Letter c (b ∷ l) a h = elim (Bool-cases (affil_char b == c)) [
  | inl yes_ ↦
      let found : affil_char b ≡ c = ground (arith, yes_) in
      let same : b ≡ a = cc (yes_, h) in
      subst (λ x. Letter x a) found
        (subst (λ x. Letter (affil_char b) x) same (affil_char-Letter b))
  | inr no_ ↦
      with_char-Letter c l a (sym (ap (λ (x : Bool). if x then some b else with_char c l) no_) ∙ h)
]

not_a_letter : (c : ℕ) → with_char c affil_table ≡ none → is_letter c ≡ false
unfolding with_char affil_char
not_a_letter c h = ground (arith, h)

-- What a given code says of the affiliation: a code of 15 characters whose second is a letter of an
-- affiliation says that one, and any other leaves the one that is recognized.
abbrev pub GivenSays : Text → Affiliation → Affiliation → Type 0
GivenSays [] recognized a = a ≡ recognized
GivenSays (_ ∷ []) recognized a = a ≡ recognized
GivenSays (x ∷ c ∷ t) recognized a =
    ((length (x ∷ c ∷ t) ≡ 15) × Letter c a)
    ⊎ (((length (x ∷ c ∷ t) ≢ 15) ⊎ (is_letter c ≡ false)) × (a ≡ recognized))

-- The default: unknown, or the affiliation whose name the setting is, in either case and trimmed.
abbrev pub DefaultSays : Option Text → Affiliation → Type 0
DefaultSays none a = a ≡ unknown
DefaultSays (some v) a =
    (lower (strip v) ≡ affil_name a)
    ⊎ ((a ≡ unknown) × All (λ b. text_eq (affil_name b) (lower (strip v)) ≡ false) affil_table)

-- The affiliation that the description and the configured default ask for, and, behind "Suspected",
-- the suspected one: an assumed friend for a friend, else a suspect.
pub data Wanted (env : Option Text) (description : Text)
    : Bool → Affiliation → AffiliationSource → Type 0 where
  says_hostile :
      hostile_desc description ≡ true → Wanted env description false hostile description_hostile
  says_friendly :
      hostile_desc description ≡ false
      → friendly_desc description ≡ true
      → Wanted env description false friend description_friendly
  says_nothing :
      (a : Affiliation)
      → hostile_desc description ≡ false
      → friendly_desc description ≡ false
      → DefaultSays env a
      → Wanted env description false a configured_default
  suspected_friend :
      (source : AffiliationSource)
      → Wanted env description false friend source
      → Wanted env description true assumed_friend suspected_modifier
  suspected_other :
      (a : Affiliation) (source : AffiliationSource)
      → a ≢ friend
      → Wanted env description false a source
      → Wanted env description true suspect suspected_modifier

named-says :
    (v : Text) (l : List Affiliation)
    → (v ≡ affil_name (named v l))
      ⊎ ((named v l ≡ unknown) × All (λ b. text_eq (affil_name b) v ≡ false) l)
unfolding named
named-says v [] = inr (refl, tt)
named-says v (b ∷ l) = elim (Bool-cases (text_eq (affil_name b) v)) [
  | inl yes_ ↦ rw yes_ (inl (sym ((text_eq_iff (affil_name b) v).0 yes_)))
  | inr no_ ↦
      let skipped : named v (b ∷ l) ≡ named v l = rw no_ refl in
      subst
        (λ a.
          (v ≡ affil_name a)
          ⊎ ((a ≡ unknown) × All (λ x. text_eq (affil_name x) v ≡ false) (b ∷ l)))
        (sym skipped) (later (named-says v l) no_)
]
  where
    later :
        (v ≡ affil_name (named v l))
          ⊎ ((named v l ≡ unknown) × All (λ b. text_eq (affil_name b) v ≡ false) l)
        → text_eq (affil_name b) v ≡ false
        → (v ≡ affil_name (named v l))
          ⊎ ((named v l ≡ unknown) × All (λ b. text_eq (affil_name b) v ≡ false) (b ∷ l))
    later (inl here) no_ = inl here
    later (inr (u, all)) no_ = inr (u, (no_, all))

default_affiliation-says : (env : Option Text) → DefaultSays env (default_affiliation env)
unfolding default_affiliation
default_affiliation-says none = refl
default_affiliation-says (some v) = named-says (lower (strip v)) affil_table

base_affiliation-Wanted :
    (env : Option Text) (d : Text)
    → Wanted env d false (base_affiliation env d).0 (base_affiliation env d).1
unfolding base_affiliation
base_affiliation-Wanted env d = elim (Bool-cases (hostile_desc d)) [
  | inl yes_ ↦ rw yes_ (says_hostile yes_)
  | inr no_ ↦ elim (Bool-cases (friendly_desc d)) [
    | inl friendly ↦ rw no_ (rw friendly (says_friendly no_ friendly))
    | inr neither ↦ rw no_ (
        rw neither
          (says_nothing (default_affiliation env) no_ neither (default_affiliation-says env)))
  ]
]

suspect_of-Wanted :
    (env : Option Text) (d : Text) (a : Affiliation) (source : AffiliationSource)
    → Wanted env d false a source
    → Wanted env d true (suspect_of a) suspected_modifier
suspect_of-Wanted env d friend source w = suspected_friend source w
suspect_of-Wanted env d hostile source w = suspected_other hostile source (λ e. cc) w
suspect_of-Wanted env d neutral source w = suspected_other neutral source (λ e. cc) w
suspect_of-Wanted env d unknown source w = suspected_other unknown source (λ e. cc) w
suspect_of-Wanted env d suspect source w = suspected_other suspect source (λ e. cc) w
suspect_of-Wanted env d assumed_friend source w = suspected_other assumed_friend source (λ e. cc) w
suspect_of-Wanted env d pending source w = suspected_other pending source (λ e. cc) w

pub chosen_affiliation-Wanted :
    (env : Option Text) (d : Text) (suspected : Bool)
    → Wanted env d suspected
        (chosen_affiliation env d suspected).0
        (chosen_affiliation env d suspected).1
unfolding chosen_affiliation
chosen_affiliation-Wanted env d true =
    suspect_of-Wanted env d (base_affiliation env d).0 (base_affiliation env d).1
      (base_affiliation-Wanted env d)
chosen_affiliation-Wanted env d false = base_affiliation-Wanted env d

-- What the code reads in a given code.
abbrev pub reading : Option Affiliation → Affiliation → Affiliation
reading none recognized = recognized
reading (some a) recognized = a

pub affiliation_from_explicit_sidc-GivenSays :
    (s : Text) (recognized : Affiliation)
    → GivenSays s recognized (reading (affiliation_from_explicit_sidc s) recognized)
unfolding affiliation_from_explicit_sidc
affiliation_from_explicit_sidc-GivenSays [] recognized = refl
affiliation_from_explicit_sidc-GivenSays (_ ∷ []) recognized = refl
affiliation_from_explicit_sidc-GivenSays (x ∷ c ∷ t) recognized =
    elim (Bool-cases (length (x ∷ c ∷ t) == 15)) [
      | inl yes_ ↦ elim (Option-cases (with_char c affil_table)) [
        | inl none_ ↦ rw yes_ (rw none_ (inr (inr (not_a_letter c none_), refl)))
        | inr (a, here) ↦
            rw yes_ (rw here (inl (ground (arith, yes_), with_char-Letter c affil_table a here)))
      ]
      | inr no_ ↦ rw no_ (inr (inl (ground (arith, no_)), refl))
    ]
