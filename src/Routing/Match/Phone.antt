-- ===== src/Routing/Match/Phone.antt =====
-- `MatchPhone` of internal/router/router.go against the search of `MatchRoute`.
use mysmpp.Base.{
  ℕ, ℤ, pos, negsuc, none, some, ◌≡◌, true, refl, Bool-cases, arith, inl, inr, ltb, ◌<◌, ◌≤◌, List,
  Option, Text, [], ap, false, if◌then◌else◌, length, lez, not, ◌∙◌, ◌∷◌,
}
use mysmpp.Routing.Types.{RouteConfig}
use mysmpp.Routing.Match.{
  Rank, Best, beats, offer, best_prefix, best_route, has_prefix, is_given, match_phone,
  matched_prefix_len, offer_matched, phone_default, phone_loop, phone_prefixes, route_of,
}

-- Of two prefixes of one route only the longer one counts.
longer_wins : (p : ℤ) (n m : ℕ) (c : Rank) → m < n → beats (p, m) c ≡ true → beats (p, n) c ≡ true
longer_wins (pos p) n m (pos q, k) h g = ground arith
longer_wins (pos p) n m (negsuc q, k) h g = ground arith
longer_wins (negsuc p) n m (pos q, k) h g = ground arith
longer_wins (negsuc p) n m (negsuc q, k) h g = ground arith

shorter_loses :
    (p : ℤ) (n m : ℕ) (c : Rank) → n ≤ m → beats (p, m) c ≡ false → beats (p, n) c ≡ false
shorter_loses (pos p) n m (pos q, k) h g = ground arith
shorter_loses (pos p) n m (negsuc q, k) h g = ground arith
shorter_loses (negsuc p) n m (pos q, k) h g = ground arith
shorter_loses (negsuc p) n m (negsuc q, k) h g = ground arith

same_priority : (p : ℤ) (n m : ℕ) → beats (p, n) (p, m) ≡ ltb m n
same_priority (pos p) n m = ground arith
same_priority (negsuc p) n m = ground arith

offer_longer :
    (r : RouteConfig) (n m : ℕ) (best : Best) → m < n → offer r n (offer r m best) ≡ offer r n best
unfolding offer
offer_longer r n m none h =
    let less : ltb m n ≡ true = ground arith in rw (same_priority r.priority n m, less) refl
offer_longer r n m (some (b, k)) h =
    let less : ltb m n ≡ true = ground arith in
    elim (Bool-cases (beats (r.priority, m) k)) [
      | inl g ↦ rw (g, same_priority r.priority n m, less, longer_wins r.priority n m k h g) refl
      | inr g ↦ rw g refl
    ]

offer_shorter :
    (r : RouteConfig) (n m : ℕ) (best : Best) → n ≤ m → offer r n (offer r m best) ≡ offer r m best
unfolding offer
offer_shorter r n m none h =
    let less : ltb m n ≡ false = ground arith in rw (same_priority r.priority n m, less) refl
offer_shorter r n m (some (b, k)) h =
    let less : ltb m n ≡ false = ground arith in
    elim (Bool-cases (beats (r.priority, m) k)) [
      | inl g ↦ rw (g, same_priority r.priority n m, less) refl
      | inr g ↦ rw (g, shorter_loses r.priority n m k h g) refl
    ]

-- The inner loop of `MatchPhone` makes one offer, of the longest matching prefix.
phone_prefixes_lem :
    (r : RouteConfig) (to : Text) (ps : List Text) (m : Option ℕ) (best : Best)
    → phone_prefixes r to ps (offer_matched r m best) ≡ offer_matched r (best_prefix to ps m) best
unfolding phone_prefixes best_prefix
phone_prefixes_lem r to [] m best = refl
phone_prefixes_lem r to (p ∷ ps) none best = elim (Bool-cases (has_prefix to p)) [
  | inl h ↦ rw h (phone_prefixes_lem r to ps (some (length p)) best)
  | inr h ↦ rw h (phone_prefixes_lem r to ps none best)
]
phone_prefixes_lem r to (p ∷ ps) (some m) best = elim (Bool-cases (has_prefix to p)) [
  | inl h ↦ elim (Bool-cases (ltb m (length p))) [
    | inl g ↦
        rw (h, g, offer_longer r (length p) m best (ground arith))
          (phone_prefixes_lem r to ps (some (length p)) best)
    | inr g ↦
        rw (h, g, offer_shorter r (length p) m best (ground arith))
          (phone_prefixes_lem r to ps (some m) best)
  ]
  | inr h ↦ rw h (phone_prefixes_lem r to ps (some m) best)
]

no_tie : (p q : ℤ) (m : ℕ) → beats (p, 0) (q, m) ≡ not (lez p q)
no_tie (pos p) (pos q) m = ground arith
no_tie (pos p) (negsuc q) m = ground arith
no_tie (negsuc p) (pos q) m = ground arith
no_tie (negsuc p) (negsuc q) m = ground arith

phone_default_lem :
    (r : RouteConfig) (best : Best) → phone_default r best ≡ offer_matched r (some 0) best
unfolding phone_default offer
phone_default_lem r none = refl
phone_default_lem r (some (b, (q, m))) = rw (no_tie r.priority q m) refl

phone_step :
    (r : RouteConfig) (ps : List Text) (to : Text) (best : Best)
    → (if is_given ps then phone_prefixes r to ps best else phone_default r best)
      ≡ offer_matched r (matched_prefix_len ps to) best
unfolding matched_prefix_len
phone_step r [] to best = phone_default_lem r best
phone_step r (p ∷ ps) to best = phone_prefixes_lem r to (p ∷ ps) none best

phone_loop_lem :
    (to : Text) (routes : List RouteConfig) (best : Best)
    → phone_loop to routes best ≡ best_route (λ r. true) to routes best
unfolding phone_loop best_route
phone_loop_lem to [] best = refl
phone_loop_lem to (r ∷ rs) best =
    phone_loop_lem to rs _ ∙ ap (best_route (λ x. true) to rs) (phone_step r r.prefix to best)

-- `MatchPhone`, which compares each prefix with the best so far, gives what the search of `MatchRoute`
-- by longest prefix gives when every route passes the test.
pub match_phone_lem :
    (routes : List RouteConfig) (to : Text)
    → match_phone routes to ≡ route_of (best_route (λ r. true) to routes none)
unfolding match_phone
match_phone_lem routes to = ap route_of (phone_loop_lem to routes none)
