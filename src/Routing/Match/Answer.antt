-- ===== src/Routing/Match/Answer.antt =====
-- The answer of `MatchRoute` of internal/router/router.go.
use mysmpp.Base.{
  ◌⊎◌, ◌<◌, lez, sym, ltb, ◌≡◌, true, false, arith, All, Bool, List, Option, Text, none, some, ℕ, ℤ,
  ◌++◌, ◌∷◌, All-imp, Bool-cases, [], ap, inl, inr, ◌∙◌, pos, negsuc,
}
use mysmpp.Routing.Match.Longest.{Longest, IsLongest, Longest-unique, matched_prefix_len-IsLongest}
use mathlib.Core.Path.{subst}
use mysmpp.Routing.Types.{RouteConfig, MatchInput, Time}
use mysmpp.Routing.Match.{
  Best, beats, Rank, matched_prefix_len, match_route, route_matches, route_of, longer,
}
use mysmpp.Routing.Match.Best.{
  IsBest, Beaten, NotBeating, rank_of, ranked, rank_of-on, rank_of-off, best_route-IsBest,
}

-- A rank is better: a higher priority, or the same and a longer prefix.
abbrev pub Better : Rank → Rank → Type 0
Better (p, n) (q, m) = (lez p q ≡ false) ⊎ ((p ≡ q) × (m < n))

lez_antisym : (p q : ℤ) → lez p q ≡ true → lez q p ≡ true → p ≡ q
lez_antisym (pos p) (pos q) h g = ap pos (ground arith)
lez_antisym (pos p) (negsuc q) h g = absurd (cc)
lez_antisym (negsuc p) (pos q) h g = absurd (cc)
lez_antisym (negsuc p) (negsuc q) h g = ap negsuc (ground arith)

lez_refl : (p : ℤ) → lez p p ≡ true
lez_refl (pos p) = ground arith
lez_refl (negsuc p) = ground arith

beats-Better : (a b : Rank) → beats a b ≡ true → Better a b
beats-Better (p, n) (q, m) h = elim (Bool-cases (lez p q)) [
  | inr above ↦ inl above
  | inl below ↦ elim (Bool-cases (lez q p)) [
    | inl same ↦ inr (lez_antisym p q below same, ground arith)
    | inr other ↦ absurd (cc (rw (below, other) at h))
  ]
]

not_Better : (a b : Rank) → beats a b ≡ false → ¬ Better a b
not_Better (p, n) (q, m) h (inl above) = absurd (cc (rw above at h))
not_Better (p, n) (q, m) h (inr (same, longer)) = go (rw (same, lez_refl q) at h)
  where
    go : ltb m n ≡ false → ⊥
    go k = ground (arith, longer)

-- The route passes the test, and a longest prefix of the number among its own is of this length.
abbrev pub Competes : (RouteConfig → Bool) → Text → RouteConfig → ℕ → Type 0
Competes test to r n = (test r ≡ true) × Longest to r.prefix n

rank_of-Competes :
    (test : RouteConfig → Bool) (to : Text) (r : RouteConfig) (n : ℕ)
    → Competes test to r n
    → rank_of test to r ≡ some (r.priority, n)
rank_of-Competes test to r n (on, l) =
    rank_of-on test to r on
    ∙ go (matched_prefix_len r.prefix to) (matched_prefix_len-IsLongest to r.prefix)
  where
    go : (o : Option ℕ) → IsLongest to r.prefix o → ranked r.priority o ≡ some (r.priority, n)
    go none v = absurd (v n l)
    go (some m) v = ap (λ k. some (r.priority, k)) (Longest-unique to r.prefix m n v l)

Competes-rank_of :
    (test : RouteConfig → Bool) (to : Text) (r : RouteConfig) (k : Rank)
    → rank_of test to r ≡ some k
    → Competes test to r k.1 × (k.0 ≡ r.priority)
Competes-rank_of test to r (p, n) h = elim (Bool-cases (test r)) [
  | inr off ↦ absurd (cc (sym h ∙ rank_of-off test to r off))
  | inl on ↦
      go on (matched_prefix_len r.prefix to) (matched_prefix_len-IsLongest to r.prefix)
        (sym (rank_of-on test to r on) ∙ h)
]
  where
    go :
        test r ≡ true
        → (o : Option ℕ) → IsLongest to r.prefix o
        → ranked r.priority o ≡ some (p, n)
        → Competes test to r n × (p ≡ r.priority)
    go on none v e = absurd (cc)
    go on (some m) v e = let same : m ≡ n = cc in ((on, subst (Longest to r.prefix) same v), cc)

-- Where the first of the best routes stands: it is better than every candidate before it, and no
-- candidate behind it is better.
pub record IsFirstBest (test : RouteConfig → Bool) (to : Text) (routes : List RouteConfig)
    (r : RouteConfig) : Type 0 where
  pub matched : ℕ
  pub before : List RouteConfig
  pub after : List RouteConfig
  pub place : routes ≡ before ++ (r ∷ after)
  pub competes : Competes test to r matched
  pub beaten :
      All
        (λ x. (m : ℕ) → Competes test to x m → Better (r.priority, matched) (x.priority, m))
        before
  pub not_beating :
      All
        (λ x. (m : ℕ) → Competes test to x m → ¬ Better (x.priority, m) (r.priority, matched))
        after

-- The answer is right: none if no route is a candidate, else the first of the best.
abbrev pub IsAnswer : (RouteConfig → Bool) → Text → List RouteConfig → Option RouteConfig → Type 0
IsAnswer test to routes none = All (λ r. (n : ℕ) → ¬ Competes test to r n) routes
IsAnswer test to routes (some r) = IsFirstBest test to routes r

IsBest-IsAnswer :
    (test : RouteConfig → Bool) (to : Text) (routes : List RouteConfig) (best : Best)
    → IsBest (rank_of test to) routes best
    → IsAnswer test to routes (route_of best)
IsBest-IsAnswer test to routes none v =
    All-imp _ _ (λ r e n c. absurd (cc (sym e ∙ rank_of-Competes test to r n c))) routes v
IsBest-IsAnswer test to routes (some (r, (p, n))) v =
    let (c, same) = Competes-rank_of test to r (p, n) v.competes in
    record {
      matched = n;
      before = v.before;
      after = v.after;
      place = v.place;
      competes = c;
      beaten =
          All-imp _ _
            (λ x h m d.
              subst (λ q. Better (q, n) (x.priority, m)) same
                (beats-Better (p, n) (x.priority, m)
                  (subst (Beaten (p, n)) (rank_of-Competes test to x m d) h)))
            v.before v.beaten;
      not_beating =
          All-imp _ _
            (λ x h m d.
              subst (λ q. ¬ Better (x.priority, m) (q, n)) same
                (not_Better (x.priority, m) (p, n)
                  (subst (NotBeating (p, n)) (rank_of-Competes test to x m d) h)))
            v.after v.not_beating;
    }

-- `MatchRoute` answers with no route exactly if no route is a candidate: one that passes
-- `routeMatches`, and has no prefixes or a prefix of the number. Otherwise its answer is a
-- candidate. With the length of the longest matching prefix of each (0 with no prefixes), every
-- candidate before it has a lower priority, or the same and a shorter prefix; and none behind it has a
-- higher priority, or the same and a longer prefix.
pub match_route_lem :
    (current : Time) (routes : List RouteConfig) (input : MatchInput)
    → IsAnswer
        (λ r. route_matches current r input)
        input.to
        routes
        (match_route current routes input)
unfolding match_route
match_route_lem current routes input =
    IsBest-IsAnswer (λ r. route_matches current r input) input.to routes _
      (best_route-IsBest (λ r. route_matches current r input) input.to [] routes none tt)
