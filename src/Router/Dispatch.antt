-- ===== src/Router/Dispatch.antt =====
-- What `handle_cto` does to the counters of the routes.
use tactical_gateway.Base.{
  ℕ, ◌+◌, ◌≡◌, refl, ◌∙◌, inl, inr, true, false, Option, none, some, List, [], ◌∷◌, Text, text_eq,
  arith, Bool-cases, and_true, sym, ap, ◌&&◌, is_some, if◌then◌else◌, All, ◌>>=ₒ◌,
}
use tactical_gateway.Base.Dict.{lookup, store}
use tactical_gateway.Router.{
  Route, RouteStats, Cto, Network, Translators, Digits, Engine, Sent, count_match, count_sent,
  count_error, after_send, deliver, dispatch, takes, cto_matches, handle_route, handle_routes, send,
  sender_for, translate,
}
use tactical_gateway.Router.Counts.{Grown, Grown-zero, Grown-add, Grown-store}

-- Whether the route is enabled, its match block takes the object, and its id is `k`.
abbrev pub hit : {B : Type 0} → Cto B → Text → Route → ℕ
hit cto k r =
    if r.enabled
    then (if cto_matches cto r.match then (if text_eq r.id k then 1 else 0) else 0)
    else 0

miss : {B : Type 0} (cto : Cto B) (k : Text) (r : Route) → takes cto r ≡ false → hit cto k r ≡ 0
unfolding takes
miss cto k r h = elim (Bool-cases r.enabled) [
  | inl on ↦ rw on (rw (sym (ap (λ b. b && cto_matches cto r.match) on) ∙ h) refl)
  | inr off ↦ rw off refl
]

-- How many routes of the list do.
abbrev pub hits : {B : Type 0} → Cto B → Text → List Route → ℕ
hits cto k [] = 0
hits cto k (r ∷ rs) = hit cto k r + hits cto k rs

-- Every route has its counters.
abbrev pub Known : List (Text × RouteStats) → List Route → Type 0
Known d rs = All (λ r. is_some (lookup r.id d) ≡ true) rs

-- The counters of `d'` are those of `d` after as many more matches as `n` says.
abbrev pub AllGrown : (Text → ℕ) → List (Text × RouteStats) → List (Text × RouteStats) → Type 0
AllGrown n d d' = (k : Text) (s : RouteStats) → lookup k d ≡ some s → Grown (n k) s (lookup k d')

pub value {ℓ} : {A : Type ℓ} (o : Option A) → is_some o ≡ true → (a : A) × (o ≡ some a)
value none h = absurd (ground (arith, h))
value (some a) h = (a, refl)

Grown-known : (n : ℕ) (s : RouteStats) (o : Option RouteStats) → Grown n s o → is_some o ≡ true
Grown-known n s none h = absurd h
Grown-known n s (some _) h = refl

Known-grown :
    (n : Text → ℕ) (d d' : List (Text × RouteStats)) (rs : List Route)
    → AllGrown n d d'
    → Known d rs
    → Known d' rs
Known-grown n d d' [] g known = tt
Known-grown n d d' (r ∷ rs) g (k, known) =
    let (s, here) = value (lookup r.id d) k in
    (Grown-known (n r.id) s (lookup r.id d') (g r.id s here), Known-grown n d d' rs g known)

AllGrown-add :
    (m n : Text → ℕ) (d d' d'' : List (Text × RouteStats))
    → AllGrown m d d'
    → AllGrown n d' d''
    → AllGrown (λ k. m k + n k) d d''
AllGrown-add m n d d' d'' g h k s here = between (lookup k d') refl (g k s here)
  where
    between :
        (o : Option RouteStats)
        → lookup k d' ≡ o
        → Grown (m k) s o
        → Grown (m k + n k) s (lookup k d'')
    between none e x = absurd x
    between (some t) e x = Grown-add (m k) (n k) s t (lookup k d'') x (h k t e)

module _ {W B : Type 0} (net : Network W) (tr : Translators B) (digits : Digits) where
  deliver_stats :
      (r : Route) (s : RouteStats) (e : Engine net) (o : Option (Text × List Text))
      → (s1 : RouteStats) × ((deliver net tr digits r (count_match s) e o).stats
          ≡ store r.id s1 e.stats)
        × ((deliver net tr digits r (count_match s) e o).routes ≡ e.routes)
        × Grown 1 s (some s1)
  unfolding deliver after_send
  deliver_stats r s e none = (count_error (count_match s), refl, refl, omega arith)
  deliver_stats r s e (some (data_, lossy)) =
      sent (send net (sender_for net tr digits r.destination e.senders) data_ e.world)
    where
      sent :
          (x : Sent net)
          → (s1 : RouteStats) × ((after_send net tr digits r (count_match s) e x).stats
              ≡ store r.id s1 e.stats)
            × ((after_send net tr digits r (count_match s) e x).routes ≡ e.routes)
            × Grown 1 s (some s1)
      sent (true, sender, w) = (count_sent (net.now w) (count_match s), refl, refl, omega arith)
      sent (false, sender, w) = (count_error (count_match s), refl, refl, omega arith)

  -- The routes are kept, and the counters grow.
  abbrev pub Steps : (Text → ℕ) → Engine net → Option (Engine net) → Type 0
  Steps n e none = ⊥
  Steps n e (some e') = (e'.routes ≡ e.routes) × AllGrown n e.stats e'.stats

  handle_route_grows :
      (cto : Cto B) (r : Route) (e : Engine net)
      → is_some (lookup r.id e.stats) ≡ true
      → Steps (λ k. hit cto k r) e (handle_route net tr digits cto r e)
  unfolding handle_route dispatch
  handle_route_grows cto r e known = elim (Bool-cases (takes cto r)) [
    | inl yes_ ↦
        let (on, fits) = and_true r.enabled (cto_matches cto r.match) (unfold takes in yes_) in
        let (s0, here) = value (lookup r.id e.stats) known in
        let (s1, stats, routes, g) =
          deliver_stats r s0 e (translate net tr digits cto r.destination.format) in
        rw (yes_, on, fits, here)
          (routes, λ k s h. rw stats (Grown-store k r.id s s0 s1 e.stats here g h))
    | inr no_ ↦ rw no_ (refl, λ k s h. rw h (rw (miss cto k r no_) (Grown-zero s)))
  ]

  Steps-last :
      (m n : Text → ℕ) (e e' : Engine net) (o : Option (Engine net))
      → (e'.routes ≡ e.routes)
      → AllGrown m e.stats e'.stats
      → Steps n e' o
      → Steps (λ k. m k + n k) e o
  Steps-last m n e e' none same g h = absurd h
  Steps-last m n e e' (some e'') same g (same', g') = (same' ∙ same, AllGrown-add m n _ _ _ g g')

  Steps-bind :
      (m n : Text → ℕ) (e : Engine net) (o : Option (Engine net))
      (f : Engine net → Option (Engine net))
      → Steps m e o
      → ((e' : Engine net) → AllGrown m e.stats e'.stats → Steps n e' (f e'))
      → Steps (λ k. m k + n k) e (o >>=ₒ f)
  Steps-bind m n e none f h next = absurd h
  Steps-bind m n e (some e') f (same, g) next = Steps-last m n e e' (f e') same g (next e' g)

  pub handle_routes_grows :
      (cto : Cto B) (rs : List Route) (e : Engine net)
      → Known e.stats rs
      → Steps (λ k. hits cto k rs) e (handle_routes net tr digits cto rs e)
  unfolding handle_routes
  handle_routes_grows cto [] e known = (refl, λ k s h. rw h (Grown-zero s))
  handle_routes_grows cto (r ∷ rs) e (k, known) =
      Steps-bind (λ k. hit cto k r) (λ k. hits cto k rs) e (handle_route net tr digits cto r e)
        (handle_routes net tr digits cto rs) (handle_route_grows cto r e k)
        (λ e' g. handle_routes_grows cto rs e' (Known-grown _ _ _ rs g known))
