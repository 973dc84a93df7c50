-- ===== src/Router/Reach.antt =====
-- The engines that the process can reach, and the accounts of their counters.
use mathlib.Core.Path.{subst}
use tactical_gateway.Base.{
  ℕ, ◌+◌, ◌≡◌, refl, sym, ◌∙◌, ap, inl, inr, Bool, true, Option, none, some, List, [], ◌∷◌, Text,
  text_eq, text_eq_iff, arith, Bool-cases, is_some, All,
}
use tactical_gateway.Base.Dict.{lookup, store, lookup-store_same, lookup-store_other}
use tactical_gateway.Router.{
  Route, RouteStats, Cto, Network, Translators, Digits, Engine, fresh_stats, new_engine, new_stats,
  enable_first, set_enabled, handle_cto,
}
use tactical_gateway.Router.Counts.{Grown}
use tactical_gateway.Router.Dispatch.{Known, AllGrown, hits, Steps, handle_routes_grows}

-- Every match was sent or failed.
abbrev pub IsBalanced : Option RouteStats → Type 0
IsBalanced none = ⊥
IsBalanced (some s) = s.matched ≡ s.sent + s.send_errors

-- Every route has counters, and they are balanced.
abbrev pub Accounts : List (Text × RouteStats) → List Route → Type 0
Accounts d rs = All (λ r. IsBalanced (lookup r.id d)) rs

Accounts-Known : (d : List (Text × RouteStats)) (rs : List Route) → Accounts d rs → Known d rs
Accounts-Known d [] a = tt
Accounts-Known d (r ∷ rs) (b, a) = (counted (lookup r.id d) b, Accounts-Known d rs a)
  where
    counted : (o : Option RouteStats) → IsBalanced o → is_some o ≡ true
    counted none b = absurd b
    counted (some s) b = refl

Grown-IsBalanced :
    (n : ℕ) (s : RouteStats) (o : Option RouteStats)
    → IsBalanced (some s)
    → Grown n s o
    → IsBalanced o
Grown-IsBalanced n s none b g = g
Grown-IsBalanced n s (some s') b g = omega (arith, b, g)

AllGrown-IsBalanced :
    (n : Text → ℕ) (d d' : List (Text × RouteStats)) (k : Text)
    → AllGrown n d d'
    → IsBalanced (lookup k d)
    → IsBalanced (lookup k d')
AllGrown-IsBalanced n d d' k g b = go (lookup k d) refl b
  where
    go : (o : Option RouteStats) → lookup k d ≡ o → IsBalanced o → IsBalanced (lookup k d')
    go none e b = absurd b
    go (some s) e b = Grown-IsBalanced (n k) s (lookup k d') b (g k s e)

Accounts-grown :
    (n : Text → ℕ) (d d' : List (Text × RouteStats)) (rs : List Route)
    → AllGrown n d d'
    → Accounts d rs
    → Accounts d' rs
Accounts-grown n d d' [] g a = tt
Accounts-grown n d d' (r ∷ rs) g (b, a) =
    (AllGrown-IsBalanced n d d' r.id g b, Accounts-grown n d d' rs g a)

-- A fresh store keeps the fresh counters of the other keys.
store-fresh :
    (j k : Text) (d : List (Text × RouteStats))
    → lookup k d ≡ some new_stats
    → lookup k (store j new_stats d) ≡ some new_stats
store-fresh j k d h = elim (Bool-cases (text_eq j k)) [
  | inl yes_ ↦
      ap (λ x. lookup x (store j new_stats d)) (sym ((text_eq_iff j k).0 yes_))
      ∙ lookup-store_same j new_stats d
  | inr no_ ↦ lookup-store_other k j new_stats d no_ ∙ h
]

fresh_stats_keep :
    (k : Text) (rs : List Route) (d : List (Text × RouteStats))
    → lookup k d ≡ some new_stats
    → lookup k (fresh_stats rs d) ≡ some new_stats
unfolding fresh_stats
fresh_stats_keep k [] d h = h
fresh_stats_keep k (r ∷ rs) d h =
    fresh_stats_keep k rs (store r.id new_stats d) (store-fresh r.id k d h)

fresh_stats-Accounts :
    (rs : List Route) (d : List (Text × RouteStats)) → Accounts (fresh_stats rs d) rs
unfolding fresh_stats
fresh_stats-Accounts [] d = tt
fresh_stats-Accounts (r ∷ rs) d = (
  rw (fresh_stats_keep r.id rs (store r.id new_stats d) (lookup-store_same r.id new_stats d))
      (omega arith),
  fresh_stats-Accounts rs (store r.id new_stats d),
)

enable_first-Accounts :
    (id : Text) (on : Bool) (d : List (Text × RouteStats)) (rs : List Route)
    → Accounts d rs
    → Accounts d (enable_first id on rs).1
unfolding enable_first
enable_first-Accounts id on d [] a = tt
enable_first-Accounts id on d (r ∷ rs) (b, a) = elim (Bool-cases (text_eq r.id id)) [
  | inl yes_ ↦ rw yes_ (b, a)
  | inr no_ ↦ rw no_ (b, enable_first-Accounts id on d rs a)
]

module _ {W B : Type 0} (net : Network W) (tr : Translators B) (digits : Digits) where
  -- The engines that a configuration reaches by objects and toggles.
  pub data Reachable : Engine net → Type 0 where
    started : (rs : List Route) (w : W) → Reachable (new_engine net rs w)
    handled :
        (cto : Cto B) (e e' : Engine net)
        → Reachable e
        → handle_cto net tr digits cto e ≡ some e'
        → Reachable e'
    toggled :
        (id : Text) (on : Bool) (e : Engine net)
        → Reachable e
        → Reachable (set_enabled net id on e).1

  Steps-Accounts :
      (n : Text → ℕ) (e e' : Engine net) (o : Option (Engine net))
      → o ≡ some e'
      → Steps net tr digits n e o
      → Accounts e.stats e.routes
      → Accounts e'.stats e'.routes
  Steps-Accounts n e e' none ran h a = absurd h
  Steps-Accounts n e e' (some e1) ran (same, g) a =
      let here : e1 ≡ e' = cc in
      let there : Accounts e1.stats e1.routes =
        rw same (Accounts-grown n e.stats e1.stats e.routes g a) in
      subst (λ x. Accounts x.stats x.routes) here there

  -- In every engine that a configuration reaches, each route has counters, and each match of it
  -- was counted as sent or as failed.
  pub Reachable-Accounts : (e : Engine net) → Reachable e → Accounts e.stats e.routes
  unfolding new_engine set_enabled handle_cto
  Reachable-Accounts e (started rs w) = fresh_stats-Accounts rs []
  Reachable-Accounts e (toggled id on e0 h) =
      enable_first-Accounts id on e0.stats e0.routes (Reachable-Accounts e0 h)
  Reachable-Accounts e (handled cto e0 e' h ran) =
      Steps-Accounts (λ k. hits cto k e0.routes) e0 e' (handle_cto net tr digits cto e0) ran
        (handle_routes_grows net tr digits cto e0.routes e0
          (Accounts-Known e0.stats e0.routes (Reachable-Accounts e0 h)))
        (Reachable-Accounts e0 h)

  -- In every engine that a configuration reaches, `handle_cto` returns, keeps the routes, and adds to
  -- the counters of each id as many matches as there are routes with that id that are enabled and
  -- whose match block takes the object, each of them sent or failed.
  pub handle_cto_counts :
      (cto : Cto B) (e : Engine net)
      → Reachable e
      → (e' : Engine net) × (handle_cto net tr digits cto e ≡ some e')
        × (e'.routes ≡ e.routes)
        × AllGrown (λ k. hits cto k e.routes) e.stats e'.stats
  unfolding handle_cto
  handle_cto_counts cto e h = result (handle_cto net tr digits cto e) (
      handle_routes_grows net tr digits cto e.routes e
        (Accounts-Known e.stats e.routes (Reachable-Accounts e h)))
    where
      result :
          (o : Option (Engine net))
          → Steps net tr digits (λ k. hits cto k e.routes) e o
          → (e' : Engine net) × (o ≡ some e')
            × (e'.routes ≡ e.routes)
            × AllGrown (λ k. hits cto k e.routes) e.stats e'.stats
      result none h = absurd h
      result (some e') (same, g) = (e', refl, same, g)
