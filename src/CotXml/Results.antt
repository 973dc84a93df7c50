-- ===== src/CotXml/Results.antt =====
-- What holds of each result of a normalizer.
use tactical_gateway.Base.{◌≡◌, refl}
use tactical_gateway.CotXml.Ingest.{Normalized, normalized, refused, raised, ◌>>=ₙ◌}

abbrev pub Holds : {A : Type 0} → (A → Type 0) → Normalized A → Type 0
Holds P (normalized a) = P a
Holds P refused = Unit {0}
Holds P raised = Unit {0}

pub Holds-bind :
    {A B : Type 0} (P : B → Type 0) (m : Normalized A) (f : A → Normalized B)
    → ((a : A) → m ≡ normalized a → Holds P (f a))
    → Holds P (m >>=ₙ f)
Holds-bind P (normalized a) f h = h a refl
Holds-bind P refused f h = tt
Holds-bind P raised f h = tt
