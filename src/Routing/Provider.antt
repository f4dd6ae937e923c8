-- ===== src/Routing/Provider.antt =====
-- `SelectProvider` and `selectProvider` of internal/router/router.go, `New` and `NewWithProviders`.
pub mod Laws
pub mod Chosen
use mysmpp.Base.{
  ℕ, Bool, Dict, List, [], ◌∷◌, Option, none, some, Text, false, if◌then◌else◌, is_positive, ltb,
  lookup, not, pos_part, select, text_eqb, true, ◌%◌, ◌&&◌, ◌+◌, ◌^◌, text_eq, suc, zero, ◌-◌,
  insert, length, lez, map, sort_by, ◌||◌,
}
use mysmpp.Routing.Types.{RouteConfig, MatchResult, Router, WeightedProvider}

abbrev or_false : Option Bool → Bool
or_false none = false
or_false (some b) = b

-- `enabled[name]`.
unfoldable pub is_enabled : Dict Text Bool → Text → Bool
is_enabled enabled name = or_false (lookup name enabled)

-- `providerEnabled`: with no providers known, all are.
unfoldable pub provider_enabled : Dict Text Bool → Text → Bool
unfolding is_enabled
provider_enabled [] name = true
provider_enabled (e ∷ es) name = is_enabled (e ∷ es) name

-- The total weight of the enabled providers; `none` if a weight is not positive, or if the sum does
-- not fit into 64 bits.
unfoldable pub total_weight : Dict Text Bool → List WeightedProvider → ℕ → Option ℕ
unfolding provider_enabled
total_weight enabled [] total = some total
total_weight enabled (w ∷ ws) total =
    let skip = total_weight enabled ws total in
    let more = total_weight enabled ws (total + pos_part w.weight) in
    if not (provider_enabled enabled w.provider)
    then skip
    else if not (is_positive w.weight)
    then none
    else if ltb (2 ^ 64 - 1 - pos_part w.weight) total
    then none
    else more

-- The loop that takes `n` down by the weights.
unfoldable pub pick : Dict Text Bool → List WeightedProvider → ℕ → Text
unfolding provider_enabled
pick enabled [] n = []
pick enabled (w ∷ ws) n =
    let skip = pick enabled ws n in
    let more = pick enabled ws (n - pos_part w.weight) in
    if not (provider_enabled enabled w.provider)
    then skip
    else if ltb n (pos_part w.weight)
    then w.provider
    else more

unfoldable pub pick_by : Option ℕ → Dict Text Bool → List WeightedProvider → ℕ → Text
unfolding pick
pick_by none enabled ws hash = []
pick_by (some zero) enabled ws hash = []
pick_by (some (suc n)) enabled ws hash = pick enabled ws (hash % suc n)

unfoldable pub chain_head : List Text → Text
chain_head [] = []
chain_head (p ∷ ps) = p

abbrev is_given {ℓ} : {A : Type ℓ} → List A → Bool
is_given [] = false
is_given (x ∷ xs) = true

-- `longestPrefix`.
longest_prefix : List Text → ℕ → ℕ
longest_prefix [] longest = longest
longest_prefix (p ∷ ps) longest =
    longest_prefix ps (if ltb longest (length p) then length p else longest)

-- The order of `sortRoutes`.
route_before : RouteConfig → RouteConfig → Bool
unfolding longest_prefix
route_before a b =
    if not (lez a.priority b.priority && lez b.priority a.priority)
    then not (lez a.priority b.priority)
    else ltb (longest_prefix b.prefix 0) (longest_prefix a.prefix 0)

-- `sortRoutes`: `sort.SliceStable`, as the insertion sort, which is stable.
unfoldable pub sort_routes : List RouteConfig → List RouteConfig
unfolding route_before sort_by
sort_routes = sort_by route_before

-- `New`.
unfoldable pub new_router : List RouteConfig → Router
unfolding sort_routes
new_router routes = record { routes = sort_routes routes; enabled_providers = [] }

any_enabled : Dict Text Bool → List Text → Bool
unfolding is_enabled
any_enabled enabled [] = false
any_enabled enabled (p ∷ ps) = is_enabled enabled p || any_enabled enabled ps

-- `routeSelectable`.
unfoldable pub route_selectable : RouteConfig → Dict Text Bool → Bool
unfolding any_enabled is_enabled
route_selectable route enabled =
    if is_given route.weighted
    then any_enabled enabled (map (λ (w : WeightedProvider). w.provider) route.weighted)
    else if is_given route.failover
    then any_enabled enabled route.failover
    else is_enabled enabled route.provider

abbrev is_off : Option Bool → Bool
is_off none = false
is_off (some on) = not on

-- The loop over the providers' settings.
enabled_map : List (Text × Bool) → Dict Text Bool → Dict Text Bool
enabled_map [] enabled = enabled
enabled_map (p ∷ ps) enabled = enabled_map ps (insert p.0 p.1 enabled)

-- `NewWithProviders`, from the providers' names and whether they are enabled.
unfoldable pub new_with_providers : List RouteConfig → List (Text × Bool) → Router
unfolding sort_routes route_selectable enabled_map
new_with_providers routes providers =
    let enabled = enabled_map providers [] in
    record {
      routes =
          sort_routes (select (λ r. not (is_off r.enabled) && route_selectable r enabled) routes);
      enabled_providers = enabled;
    }

-- `stableHash` is a parameter: FNV-1a of the library.
module _ (stable_hash : Text → ℕ) where
  -- `selectProvider`: the provider, or the empty name, and the chain.
  unfoldable pub choose_provider : Router → RouteConfig → Text → Text × List Text
  unfolding provider_enabled total_weight pick_by chain_head
  choose_provider r route key =
      if is_given route.weighted
      then (
        pick_by (total_weight r.enabled_providers route.weighted 0) r.enabled_providers
            route.weighted (stable_hash key),
        [],
      )
      else if is_given route.failover
      then (let chain = select (provider_enabled r.enabled_providers) route.failover in
          (chain_head chain, chain))
      else if not (provider_enabled r.enabled_providers route.provider)
      then ([], [])
      else (route.provider, [])

  -- `SelectProvider`.
  unfoldable pub select_provider : Router → RouteConfig → Text → Option MatchResult
  unfolding choose_provider
  select_provider r route gateway_id =
      let chosen = choose_provider r route gateway_id in
      if is_given route.weighted && text_eqb gateway_id []
      then none
      else if text_eqb chosen.0 []
      then none
      else some (record { route = route; provider = chosen.0; failover_chain = chosen.1 })
