-- ===== src/Routing/Provider/Chosen.antt =====
-- What `SelectProvider` of internal/router/router.go answers with.
use mysmpp.Routing.Provider.{
  is_given, pick_by, chain_head, provider_enabled, total_weight, choose_provider, select_provider,
}
use mathlib.Core.Path.{subst}
use mysmpp.Base.{
  text_eq, ℕ, Bool, Dict, List, [], ◌∷◌, some, Text, false, true, ◌≡◌, ◌++◌, arith, refl,
  Bool-cases, inl, inr, ◌%◌, Option, none, suc, zero, select, text_eqb, ◌≢◌, text_eqb_iff,
}
use mysmpp.Routing.Types.{WeightedProvider, RouteConfig, Router, MatchResult}
use mysmpp.Routing.Provider.Laws.{
  IsOn, Shares, provider_enabled-IsOn, provider_enabled-off, pick_by-Shares,
}

-- The providers of a list that are on, in their order.
pub data OnesOn (enabled : Dict Text Bool) : List Text → List Text → Type 0 where
  nobody : OnesOn enabled [] []
  stays :
      {p : Text} {ps out : List Text}
      → IsOn enabled p
      → OnesOn enabled ps out
      → OnesOn enabled (p ∷ ps) (p ∷ out)
  drops :
      {p : Text} {ps out : List Text}
      → ¬ IsOn enabled p
      → OnesOn enabled ps out
      → OnesOn enabled (p ∷ ps) out

-- How a provider and a failover chain are chosen for a route.
pub data IsChoice (enabled : Dict Text Bool) (route : RouteConfig) (provider : Text)
    (chain : List Text) : Type 0 where
  by_weight :
      (before after : List WeightedProvider) (w : WeightedProvider)
      → route.weighted ≡ before ++ (w ∷ after)
      → provider ≡ w.provider
      → IsOn enabled w.provider
      → chain ≡ []
      → IsChoice enabled route provider chain
  by_failover :
      (rest : List Text)
      → route.weighted ≡ []
      → route.failover ≢ []
      → OnesOn enabled route.failover chain
      → chain ≡ provider ∷ rest
      → IsChoice enabled route provider chain
  by_name :
      route.weighted ≡ []
      → route.failover ≡ []
      → provider ≡ route.provider
      → IsOn enabled provider
      → chain ≡ []
      → IsChoice enabled route provider chain

select-OnesOn :
    (enabled : Dict Text Bool) (ps : List Text)
    → OnesOn enabled ps (select (provider_enabled enabled) ps)
select-OnesOn enabled [] = OnesOn.nobody
select-OnesOn enabled (p ∷ ps) = elim (Bool-cases (provider_enabled enabled p)) [
  | inl on ↦
      rw (on, select) (OnesOn.stays (provider_enabled-IsOn enabled p on) (select-OnesOn enabled ps))
  | inr off ↦
      rw (off, select)
        (OnesOn.drops (provider_enabled-off enabled p off) (select-OnesOn enabled ps))
]

not_given : {A : Type 0} (xs : List A) → is_given xs ≡ false → xs ≡ []
not_given [] h = refl
not_given (x ∷ xs) h = absurd (cc)

given_lem : {A : Type 0} (xs : List A) → is_given xs ≡ true → xs ≢ []
given_lem [] h = absurd (cc)
given_lem (x ∷ xs) h = λ e. absurd (cc)

share_of :
    (enabled : Dict Text Bool) (ws : List WeightedProvider) (o : Option ℕ) (hash : ℕ)
    → total_weight enabled ws 0 ≡ o
    → pick_by o enabled ws hash ≢ []
    → (n : ℕ) × Shares enabled ws n (pick_by o enabled ws hash)
unfolding pick_by
share_of enabled ws none hash sum h = absurd (h refl)
share_of enabled ws (some zero) hash sum h = absurd (h refl)
share_of enabled ws (some (suc n)) hash sum h =
    (hash % suc n, pick_by-Shares enabled ws (some (suc n)) hash (suc n) sum refl (omega arith))

head_of : (ps : List Text) → chain_head ps ≢ [] → (rest : List Text) × (ps ≡ chain_head ps ∷ rest)
unfolding chain_head
head_of [] h = absurd (h refl)
head_of (p ∷ ps) h = (ps, refl)

module _ (stable_hash : Text → ℕ) where
  chosen-IsChoice :
      (r : Router) (route : RouteConfig) (key : Text)
      → (choose_provider stable_hash r route key).0 ≢ []
      → IsChoice r.enabled_providers route
          ((choose_provider stable_hash r route key).0)
          ((choose_provider stable_hash r route key).1)
  unfolding choose_provider
  chosen-IsChoice r route key h = elim (Bool-cases (is_given route.weighted)) [
    | inl w ↦
        let (n, v) =
          share_of r.enabled_providers route.weighted _ (stable_hash key) refl (rw w at h) in
        rw w (
          by_weight v.before v.after v.chosen v.place v.answer (provider_enabled-IsOn _ _ v.is_on)
            refl)
    | inr now ↦ elim (Bool-cases (is_given route.failover)) [
      | inl f ↦
          let (rest, e) =
            head_of (select (provider_enabled r.enabled_providers) route.failover)
              (rw (now, f) at h) in
          rw (now, f)
            (by_failover rest (not_given _ now) (given_lem _ f)
              (select-OnesOn r.enabled_providers route.failover) e)
      | inr nof ↦ elim (Bool-cases (provider_enabled r.enabled_providers route.provider)) [
        | inl on ↦
            rw (now, nof, on)
              (by_name (not_given _ now) (not_given _ nof) refl (provider_enabled-IsOn _ _ on) refl)
        | inr off ↦ absurd ((rw (now, nof, off) at h) refl)
      ]
    ]
  ]

  -- A provider that SelectProvider names is on: no providers are known, or it is known and set to
  -- true. It is that of an entry of the weighted list, if the route has one; else, if the route has a
  -- failover list, the first of its members that are on, and the chain is all of these in their order;
  -- else the provider of the route. Without a failover list the chain is empty.
  pub select_provider_lem :
      (r : Router) (route : RouteConfig) (gateway_id : Text) (m : MatchResult)
      → select_provider stable_hash r route gateway_id ≡ some m
      → IsChoice r.enabled_providers route m.provider m.failover_chain
  unfolding select_provider
  select_provider_lem r route gateway_id m h =
      let chosen = choose_provider stable_hash r route gateway_id in
      let named : text_eqb chosen.0 [] ≡ false = ground arith in
      let m_is : record { route = route; provider = chosen.0; failover_chain = chosen.1 } ≡ m =
        ground arith in
      subst (λ (x : MatchResult). IsChoice r.enabled_providers route x.provider x.failover_chain)
        m_is
        (chosen-IsChoice r route gateway_id (λ e. ground (arith, named, text_eqb_iff chosen.0 [])))
