-- ===== src/Router/Counts.antt =====
-- The counters of the routes as a dictionary: what `store` does to `lookup`.
use tactical_gateway.Base.{
  ℕ, ◌+◌, ◌≡◌, sym, ◌∙◌, ap, inl, inr, Option, none, some, List, Text, text_eq, text_eq_iff, arith,
  Bool-cases, if◌then◌else◌,
}
use tactical_gateway.Base.Dict.{lookup, store, lookup-store_same, lookup-store_other}
use tactical_gateway.Router.{RouteStats}

-- The counters `s` after `n` more matches, each of them sent or failed.
abbrev pub Grown : ℕ → RouteStats → Option RouteStats → Type 0
Grown n s none = ⊥
Grown n s (some s') =
    (s'.matched ≡ s.matched + n) × (s'.sent + s'.send_errors ≡ s.sent + s.send_errors + n)

pub Grown-zero : (s : RouteStats) → Grown 0 s (some s)
Grown-zero s = omega arith

pub Grown-add :
    (m n : ℕ) (s t : RouteStats) (o : Option RouteStats)
    → Grown m s (some t)
    → Grown n t o
    → Grown (m + n) s o
Grown-add m n s t none g h = h
Grown-add m n s t (some u) g h = omega (arith, g, h)

-- What a store does to the counters under any key.
pub Grown-store :
    (k id : Text) (s s0 s1 : RouteStats) (d : List (Text × RouteStats))
    → lookup id d ≡ some s0
    → Grown 1 s0 (some s1)
    → lookup k d ≡ some s
    → Grown (if text_eq id k then 1 else 0) s (lookup k (store id s1 d))
Grown-store k id s s0 s1 d known g h = elim (Bool-cases (text_eq id k)) [
  | inl yes_ ↦
      let same : id ≡ k = (text_eq_iff id k).0 yes_ in
      let read : lookup k (store id s1 d) ≡ some s1 =
        ap (λ x. lookup x (store id s1 d)) (sym same) ∙ lookup-store_same id s1 d in
      let old : s ≡ s0 = cc in rw (yes_, read, old) g
  | inr no_ ↦ rw (no_, lookup-store_other k id s1 d no_, h) (Grown-zero s)
]
