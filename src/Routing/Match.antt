-- ===== src/Routing/Match.antt =====
-- `MatchRoute` and `MatchPhone` of internal/router/router.go, and the tests they use.
pub mod Window
pub mod Longest
pub mod Best
pub mod Answer
pub mod Phone
use mysmpp.Base.{
  ℕ, ℤ, Bool, List, [], ◌∷◌, Option, none, some, Text, false, if◌then◌else◌, length, ltb, not,
  text_eqb, true, ◌&&◌, ◌||◌, lez, nat_eqb,
}
use mysmpp.Routing.Types.{RouteConfig, MatchInput, Time}
use mysmpp.Routing.Match.Window.{in_any_window}

-- `strings.HasPrefix`.
unfoldable pub has_prefix : Text → Text → Bool
has_prefix s [] = true
has_prefix [] (p ∷ ps) = false
has_prefix (c ∷ s) (p ∷ ps) = nat_eqb c p && has_prefix s ps

-- `hasAnyPrefix`.
unfoldable pub has_any_prefix : Text → List Text → Bool
unfolding has_prefix
has_any_prefix value [] = false
has_any_prefix value (p ∷ ps) = has_prefix value p || has_any_prefix value ps

-- `contains`.
unfoldable pub contains : List Text → Text → Bool
contains [] want = false
contains (v ∷ vs) want = text_eqb v want || contains vs want

-- `len(values) > 0`.
abbrev pub is_given {ℓ} : {A : Type ℓ} → List A → Bool
is_given [] = false
is_given (x ∷ xs) = true

abbrev is_off : Option Bool → Bool
is_off none = false
is_off (some on) = not on

-- Every tag of the route is among those of the input.
all_tagged : List Text → List Text → Bool
unfolding contains
all_tagged [] tags = true
all_tagged (t ∷ ts) tags = contains tags t && all_tagged ts tags

-- `if input.Now.IsZero() { input.Now = time.Now() }`, with the current time.
abbrev or_now : Option Time → Time → Time
or_now none current = current
or_now (some t) current = t

-- `routeMatches`.
unfoldable pub route_matches : Time → RouteConfig → MatchInput → Bool
unfolding has_any_prefix contains all_tagged in_any_window
route_matches current route input =
    if is_off route.enabled
    then false
    else if is_given route.from_prefix && not (has_any_prefix input.from route.from_prefix)
    then false
    else if is_given route.system_ids && not (contains route.system_ids input.system_id)
    then false
    else if is_given route.client_ids && not (contains route.client_ids input.client_id)
    then false
    else if not (all_tagged route.content_tags input.tags)
    then false
    else if is_given route.time_windows
        && not (in_any_window (or_now input.now current) route.time_windows)
    then false
    else true

-- `len(prefix) > best`, where `none` is -1.
abbrev pub longer : ℕ → Option ℕ → Bool
longer n none = true
longer n (some best) = ltb best n

-- The loop of `matchedPrefixLen`.
unfoldable pub best_prefix : Text → List Text → Option ℕ → Option ℕ
unfolding has_prefix
best_prefix to [] best = best
best_prefix to (p ∷ ps) best =
    best_prefix to ps (if has_prefix to p && longer (length p) best then some (length p) else best)

-- `matchedPrefixLen`; `none` is "not matched".
unfoldable pub matched_prefix_len : List Text → Text → Option ℕ
unfolding best_prefix
matched_prefix_len [] to = some 0
matched_prefix_len (p ∷ ps) to = best_prefix to (p ∷ ps) none

-- `bestPriority`, and `bestPrefix`.
abbrev pub Rank : Type 0
Rank = ℤ × ℕ

-- `route.Priority > bestPriority || (route.Priority == bestPriority && matchLen > bestPrefix)`.
abbrev pub beats : Rank → Rank → Bool
beats (p, n) (q, m) = not (lez p q) || (lez p q && lez q p && ltb m n)

-- `best`, `bestPriority` and `bestPrefix`; `none` is `!found`.
abbrev pub Best : Type 0
Best = Option (RouteConfig × Rank)

-- One candidate in the loop.
unfoldable pub offer : RouteConfig → ℕ → Best → Best
offer route n none = some (route, (route.priority, n))
offer route n (some (b, rank)) =
    if beats (route.priority, n) rank then some (route, (route.priority, n)) else some (b, rank)

abbrev pub offer_matched : RouteConfig → Option ℕ → Best → Best
offer_matched route none best = best
offer_matched route (some n) best = offer route n best

-- The loop of `MatchRoute`, with the test of a route.
unfoldable pub best_route : (RouteConfig → Bool) → Text → List RouteConfig → Best → Best
unfolding matched_prefix_len offer
best_route test to [] best = best
best_route test to (r ∷ rs) best =
    best_route test to rs
      (if test r then offer_matched r (matched_prefix_len r.prefix to) best else best)

abbrev pub route_of : Best → Option RouteConfig
route_of none = none
route_of (some (r, rank)) = some r

-- `MatchRoute`.
unfoldable pub match_route : Time → List RouteConfig → MatchInput → Option RouteConfig
unfolding route_matches best_route
match_route current routes input =
    route_of (best_route (λ r. route_matches current r input) input.to routes none)

-- The inner loop of `MatchPhone`.
unfoldable pub phone_prefixes : RouteConfig → Text → List Text → Best → Best
unfolding has_prefix offer
phone_prefixes route to [] best = best
phone_prefixes route to (p ∷ ps) best =
    phone_prefixes route to ps (if has_prefix to p then offer route (length p) best else best)

-- A route without a prefix in `MatchPhone`.
unfoldable pub phone_default : RouteConfig → Best → Best
phone_default route none = some (route, (route.priority, 0))
phone_default route (some (b, (q, m))) =
    if not (lez route.priority q) then some (route, (route.priority, 0)) else some (b, (q, m))

unfoldable pub phone_loop : Text → List RouteConfig → Best → Best
unfolding phone_prefixes phone_default
phone_loop to [] best = best
phone_loop to (r ∷ rs) best =
    phone_loop to rs
      (if is_given r.prefix then phone_prefixes r to r.prefix best else phone_default r best)

-- `MatchPhone`.
unfoldable pub match_phone : List RouteConfig → Text → Option RouteConfig
unfolding phone_loop
match_phone routes to = route_of (phone_loop to routes none)
