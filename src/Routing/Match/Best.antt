-- ===== src/Routing/Match/Best.antt =====
-- The search of `MatchRoute` of internal/router/router.go.
use mysmpp.Base.{
  ◌≡◌, true, false, arith, All, Bool, List, Option, Text, if◌then◌else◌, none, some, ℕ, ℤ, ◌++◌,
  ◌∷◌, All-append, All-imp, Bool-cases, [], ap, append-nil, append_assoc, inl, inr, refl, ◌∙◌, pos,
  negsuc,
}
use mathlib.Core.Path.{subst, subst⁻¹}
use mysmpp.Routing.Types.{RouteConfig}
use mysmpp.Routing.Match.{Best, beats, Rank, matched_prefix_len, best_route, offer, offer_matched}

-- A candidate that beats the best one beats what that one beats.
pub beats_trans : (a b c : Rank) → beats a b ≡ true → beats b c ≡ true → beats a c ≡ true
beats_trans (pos p, n) (pos q, m) (pos r, k) h g = ground arith
beats_trans (pos p, n) (pos q, m) (negsuc r, k) h g = ground arith
beats_trans (pos p, n) (negsuc q, m) (pos r, k) h g = ground arith
beats_trans (pos p, n) (negsuc q, m) (negsuc r, k) h g = ground arith
beats_trans (negsuc p, n) (pos q, m) (pos r, k) h g = ground arith
beats_trans (negsuc p, n) (pos q, m) (negsuc r, k) h g = ground arith
beats_trans (negsuc p, n) (negsuc q, m) (pos r, k) h g = ground arith
beats_trans (negsuc p, n) (negsuc q, m) (negsuc r, k) h g = ground arith

-- A candidate that beats the best one beats what does not beat that one.
pub beats_over : (a b c : Rank) → beats a b ≡ true → beats c b ≡ false → beats a c ≡ true
beats_over (pos p, n) (pos q, m) (pos r, k) h g = ground arith
beats_over (pos p, n) (pos q, m) (negsuc r, k) h g = ground arith
beats_over (pos p, n) (negsuc q, m) (pos r, k) h g = ground arith
beats_over (pos p, n) (negsuc q, m) (negsuc r, k) h g = ground arith
beats_over (negsuc p, n) (pos q, m) (pos r, k) h g = ground arith
beats_over (negsuc p, n) (pos q, m) (negsuc r, k) h g = ground arith
beats_over (negsuc p, n) (negsuc q, m) (pos r, k) h g = ground arith
beats_over (negsuc p, n) (negsuc q, m) (negsuc r, k) h g = ground arith

abbrev pub ranked : ℤ → Option ℕ → Option Rank
ranked p none = none
ranked p (some n) = some (p, n)

-- The rank that a route competes with, if it is a candidate.
unfoldable pub rank_of : (RouteConfig → Bool) → Text → RouteConfig → Option Rank
unfolding matched_prefix_len
rank_of test to r = if test r then ranked r.priority (matched_prefix_len r.prefix to) else none

abbrev pub Beaten : Rank → Option Rank → Type 0
Beaten k none = Unit
Beaten k (some c) = beats k c ≡ true

abbrev pub NotBeating : Rank → Option Rank → Type 0
NotBeating k none = Unit
NotBeating k (some c) = beats c k ≡ false

-- Where the first of the best routes stands: it beats the candidates before it, and no candidate
-- behind it beats it.
pub record Stands (rank : RouteConfig → Option Rank) (routes : List RouteConfig) (r : RouteConfig)
    (k : Rank) : Type 0 where
  pub before : List RouteConfig
  pub after : List RouteConfig
  pub place : routes ≡ before ++ (r ∷ after)
  pub competes : rank r ≡ some k
  pub beaten : All (λ x. Beaten k (rank x)) before
  pub not_beating : All (λ x. NotBeating k (rank x)) after

abbrev pub IsBest : (RouteConfig → Option Rank) → List RouteConfig → Best → Type 0
IsBest rank routes none = All (λ r. rank r ≡ none) routes
IsBest rank routes (some (r, k)) = Stands rank routes r k

Beaten-none : (k : Rank) (o : Option Rank) → o ≡ none → Beaten k o
Beaten-none k none h = tt
Beaten-none k (some c) h = cc

Beaten-more : (k c : Rank) (o : Option Rank) → beats k c ≡ true → Beaten c o → Beaten k o
Beaten-more k c none h g = tt
Beaten-more k c (some d) h g = beats_trans k c d h g

Beaten-over : (k c : Rank) (o : Option Rank) → beats k c ≡ true → NotBeating c o → Beaten k o
Beaten-over k c none h g = tt
Beaten-over k c (some d) h g = beats_over k c d h g

passed_over :
    (rank : RouteConfig → Option Rank) (done : List RouteConfig) (r : RouteConfig) (best : Best)
    → rank r ≡ none
    → IsBest rank done best
    → IsBest rank (done ++ (r ∷ [])) best
passed_over rank done r none e v = All-append (λ x. rank x ≡ none) done (r ∷ []) v (e, tt)
passed_over rank done r (some (b, k)) e v = record {
  before = v.before;
  after = v.after ++ (r ∷ []);
  place = ap (λ z. z ++ (r ∷ [])) v.place ∙ append_assoc v.before (b ∷ v.after) (r ∷ []);
  competes = v.competes;
  beaten = v.beaten;
  not_beating =
      All-append (λ x. NotBeating k (rank x)) v.after (r ∷ []) v.not_beating (rw e tt, tt);
}

offered :
    (rank : RouteConfig → Option Rank) (done : List RouteConfig) (r : RouteConfig) (n : ℕ)
    (best : Best)
    → rank r ≡ some (r.priority, n)
    → IsBest rank done best
    → IsBest rank (done ++ (r ∷ [])) (offer r n best)
unfolding offer
offered rank done r n none e v = record {
  before = done;
  after = [];
  place = refl;
  competes = e;
  beaten = All-imp _ _ (λ x h. Beaten-none (r.priority, n) (rank x) h) done v;
  not_beating = tt;
}
offered rank done r n (some (b, k)) e v = elim (Bool-cases (beats (r.priority, n) k)) [
  | inl h ↦ rw h (record {
    before = done;
    after = [];
    place = refl;
    competes = e;
    beaten = subst⁻¹ (All (λ x. Beaten (r.priority, n) (rank x))) v.place (rivals h);
    not_beating = tt;
  })
  | inr h ↦ rw h (record {
    before = v.before;
    after = v.after ++ (r ∷ []);
    place = ap (λ z. z ++ (r ∷ [])) v.place ∙ append_assoc v.before (b ∷ v.after) (r ∷ []);
    competes = v.competes;
    beaten = v.beaten;
    not_beating =
        All-append (λ x. NotBeating k (rank x)) v.after (r ∷ []) v.not_beating (rw e h, tt);
  })
]
  where
    rivals :
        beats (r.priority, n) k ≡ true
        → All (λ x. Beaten (r.priority, n) (rank x)) (v.before ++ (b ∷ v.after))
    rivals h =
        All-append _ v.before (b ∷ v.after)
          (All-imp _ _ (λ x g. Beaten-more (r.priority, n) k (rank x) h g) v.before v.beaten)
          (
            rw v.competes h,
            All-imp _ _ (λ x g. Beaten-over (r.priority, n) k (rank x) h g) v.after v.not_beating,
          )

pub rank_of-off :
    (test : RouteConfig → Bool) (to : Text) (r : RouteConfig)
    → test r ≡ false
    → rank_of test to r ≡ none
unfolding rank_of
rank_of-off test to r h = rw h refl

pub rank_of-on :
    (test : RouteConfig → Bool) (to : Text) (r : RouteConfig)
    → test r ≡ true
    → rank_of test to r ≡ ranked r.priority (matched_prefix_len r.prefix to)
unfolding rank_of
rank_of-on test to r h = rw h refl

offer_matched-IsBest :
    (rank : RouteConfig → Option Rank) (done : List RouteConfig) (r : RouteConfig) (m : Option ℕ)
    (best : Best)
    → rank r ≡ ranked r.priority m
    → IsBest rank done best
    → IsBest rank (done ++ (r ∷ [])) (offer_matched r m best)
offer_matched-IsBest rank done r none best e v = passed_over rank done r best e v
offer_matched-IsBest rank done r (some n) best e v = offered rank done r n best e v

pub best_route-IsBest :
    (test : RouteConfig → Bool) (to : Text) (done rs : List RouteConfig) (best : Best)
    → IsBest (rank_of test to) done best
    → IsBest (rank_of test to) (done ++ rs) (best_route test to rs best)
unfolding best_route
best_route-IsBest test to done [] best v =
    subst⁻¹ (λ d. IsBest (rank_of test to) d best) (append-nil done) v
best_route-IsBest test to done (r ∷ rs) best v =
    let rank = rank_of test to in
    subst (λ d. IsBest rank d (best_route test to (r ∷ rs) best)) (append_assoc done (r ∷ []) rs)
      (elim (Bool-cases (test r)) [
        | inl on ↦ rw on (
            best_route-IsBest test to (done ++ (r ∷ [])) rs _
              (offer_matched-IsBest rank done r _ best (rank_of-on test to r on) v))
        | inr off ↦ rw off (
            best_route-IsBest test to (done ++ (r ∷ [])) rs best
              (passed_over rank done r best (rank_of-off test to r off) v))
      ])
