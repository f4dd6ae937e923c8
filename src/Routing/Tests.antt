-- ===== src/Routing/Tests.antt =====
-- Tests of internal/router on concrete data.
use mysmpp.Base.{
  lookup, ℕ, ◌≡◌, ◌%◌, List, [], ◌∷◌, none, some, Text, codes, pos, negsuc, true, refl, arith,
}
use mysmpp.Routing.Types.{MatchInput, MatchResult, RouteConfig, Router, Time}
use mysmpp.Routing.Match.{best_route, match_phone, match_route, route_matches, route_of}
use mysmpp.Routing.Match.Answer.{IsAnswer, match_route_lem}
use mysmpp.Routing.Match.Phone.{match_phone_lem}
use mysmpp.Routing.Provider.{choose_provider, select_provider, total_weight}
use mysmpp.Routing.Provider.Chosen.{IsChoice, select_provider_lem}
use mysmpp.Routing.Provider.Laws.{WeightOf, Picked, choose_provider-weighted}

abbrev plain : RouteConfig
plain = record {
  name = codes "default";
  prefix = [];
  provider = codes "a";
  priority = negsuc 0;
  enabled = none;
  from_prefix = [];
  system_ids = [];
  client_ids = [];
  content_tags = [];
  time_windows = [];
  weighted = [];
  failover = [];
}

abbrev weighted_route : RouteConfig
weighted_route = record plain {
  name = codes "shared";
  prefix = codes "+4" ∷ codes "+49" ∷ [];
  priority = pos 3;
  weighted =
      record { provider = codes "a"; weight = pos 1 }
      ∷ record { provider = codes "b"; weight = pos 2 }
      ∷ [];
}

abbrev routes : List RouteConfig
routes = plain ∷ weighted_route ∷ []

abbrev noon : Time
noon = record { weekday = 1; hour = 12; minute = 0 }

abbrev input : MatchInput
input = record {
  gateway_id = codes "g1";
  to = codes "+4930";
  from = [];
  system_id = [];
  client_id = [];
  tags = [];
  now = none;
}

abbrev router : Router
router = record { routes = routes; enabled_providers = (codes "a", true) ∷ (codes "b", true) ∷ [] }

match_route_example :
    IsAnswer (λ r. route_matches noon r input) input.to routes (match_route noon routes input)
match_route_example = match_route_lem noon routes input

match_phone_example :
    match_phone routes (codes "+4930")
    ≡ route_of (best_route (λ r. true) (codes "+4930") routes none)
match_phone_example = match_phone_lem routes (codes "+4930")

abbrev hash : Text → ℕ
hash key = 5

total_three : total_weight router.enabled_providers weighted_route.weighted 0 ≡ some 3
unfolding total_weight lookup
total_three = refl

choose_provider_example :
    WeightOf router.enabled_providers weighted_route.weighted 3
    × Picked router.enabled_providers weighted_route.weighted
        (5 % 3)
        ((choose_provider hash router weighted_route (codes "g1")).0)
choose_provider_example =
    choose_provider-weighted hash router weighted_route (codes "g1") 3 refl total_three
      (omega arith)

abbrev chosen : MatchResult
chosen = record { route = weighted_route; provider = codes "b"; failover_chain = [] }

is_chosen : select_provider hash router weighted_route (codes "g1") ≡ some chosen
unfolding select_provider lookup
is_chosen = refl

select_provider_example : IsChoice router.enabled_providers weighted_route (codes "b") []
select_provider_example =
    select_provider_lem hash router weighted_route (codes "g1") chosen is_chosen
