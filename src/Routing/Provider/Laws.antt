-- ===== src/Routing/Provider/Laws.antt =====
-- The provider that `SelectProvider` of internal/router/router.go names.
use native.Mathlib.Nat.{zero-lt-suc, mod-lt}
use mysmpp.Routing.Provider.{
  is_given, pick_by, or_false, is_enabled, provider_enabled, pick, total_weight, choose_provider,
}
use mathlib.Core.Path.{subst⁻¹, subst}
use mysmpp.Base.{
  lookup, ◌⊎◌, text_eq, ℕ, Bool, Dict, List, [], ◌∷◌, some, Text, false, ltb, not, pos_part, true,
  ◌+◌, ◌≡◌, ◌++◌, ◌≤◌, ◌<◌, arith, refl, Bool-cases, ap, if◌then◌else◌, inl, inr, ◌-◌, ◌%◌, Option,
  none, suc, zero,
}
use mysmpp.Routing.Types.{WeightedProvider, RouteConfig, Router}

-- The weights of the enabled providers.
unfoldable pub enabled_weight : Dict Text Bool → List WeightedProvider → ℕ
enabled_weight enabled [] = 0
enabled_weight enabled (w ∷ ws) =
    let rest = enabled_weight enabled ws in
    if not (provider_enabled enabled w.provider) then rest else pos_part w.weight + rest

-- A provider is on when no providers are known, or when it is one that is set to true.
abbrev pub IsOn : Dict Text Bool → Text → Type 0
IsOn enabled p = (enabled ≡ []) ⊎ (lookup p enabled ≡ some true)

-- The sum of the weights of the entries whose provider is on.
pub data WeightOf (enabled : Dict Text Bool) : List WeightedProvider → ℕ → Type 0 where
  nothing : WeightOf enabled [] 0
  counted :
      {w : WeightedProvider} {ws : List WeightedProvider} {n : ℕ}
      → IsOn enabled w.provider
      → WeightOf enabled ws n
      → WeightOf enabled (w ∷ ws) (pos_part w.weight + n)
  skipped :
      {w : WeightedProvider} {ws : List WeightedProvider} {n : ℕ}
      → ¬ IsOn enabled w.provider
      → WeightOf enabled ws n
      → WeightOf enabled (w ∷ ws) n

or_false-some : (o : Option Bool) → or_false o ≡ true → o ≡ some true
or_false-some none h = absurd (cc)
or_false-some (some b) h = ap some h

pub provider_enabled-IsOn :
    (enabled : Dict Text Bool) (p : Text) → provider_enabled enabled p ≡ true → IsOn enabled p
unfolding provider_enabled is_enabled
provider_enabled-IsOn [] p h = inl refl
provider_enabled-IsOn (e ∷ es) p h = inr (or_false-some (lookup p (e ∷ es)) h)

pub provider_enabled-off :
    (enabled : Dict Text Bool) (p : Text) → provider_enabled enabled p ≡ false → ¬ IsOn enabled p
unfolding provider_enabled is_enabled
provider_enabled-off [] p h on = absurd (cc)
provider_enabled-off (e ∷ es) p h (inl none_known) = absurd (cc)
provider_enabled-off (e ∷ es) p h (inr on) = absurd (cc)

-- The number `n` falls into the share of an enabled provider of the list.
pub record Picked (enabled : Dict Text Bool) (ws : List WeightedProvider) (n : ℕ) (p : Text)
    : Type 0 where
  pub before : List WeightedProvider
  pub chosen : WeightedProvider
  pub after : List WeightedProvider
  pub place : ws ≡ before ++ (chosen ∷ after)
  pub is_on : IsOn enabled chosen.provider
  pub answer : p ≡ chosen.provider
  pub start : ℕ
  pub sum : WeightOf enabled before start
  pub low : start ≤ n
  pub high : n < start + pos_part chosen.weight

-- The same, by the sum of the weights of what the code takes for enabled.
pub record Shares (enabled : Dict Text Bool) (ws : List WeightedProvider) (n : ℕ) (p : Text)
    : Type 0 where
  pub before : List WeightedProvider
  pub chosen : WeightedProvider
  pub after : List WeightedProvider
  pub place : ws ≡ before ++ (chosen ∷ after)
  pub is_on : provider_enabled enabled chosen.provider ≡ true
  pub answer : p ≡ chosen.provider
  pub low : enabled_weight enabled before ≤ n
  pub high : n < enabled_weight enabled before + pos_part chosen.weight

total_weight-some :
    (enabled : Dict Text Bool) (ws : List WeightedProvider) (total t : ℕ)
    → total_weight enabled ws total ≡ some t
    → t ≡ total + enabled_weight enabled ws
unfolding total_weight enabled_weight
total_weight-some enabled [] total t h = ground arith
total_weight-some enabled (w ∷ ws) total t h = ground (
  arith,
  total_weight-some enabled ws total t,
  total_weight-some enabled ws (total + pos_part w.weight) t,
)

enabled_weight-nil : (enabled : Dict Text Bool) → enabled_weight enabled [] ≡ 0
unfolding enabled_weight
enabled_weight-nil enabled = refl

enabled_weight-on :
    (enabled : Dict Text Bool) (w : WeightedProvider) (ws : List WeightedProvider)
    → provider_enabled enabled w.provider ≡ true
    → enabled_weight enabled (w ∷ ws) ≡ pos_part w.weight + enabled_weight enabled ws
unfolding enabled_weight
enabled_weight-on enabled w ws on = rw on refl

enabled_weight-off :
    (enabled : Dict Text Bool) (w : WeightedProvider) (ws : List WeightedProvider)
    → provider_enabled enabled w.provider ≡ false
    → enabled_weight enabled (w ∷ ws) ≡ enabled_weight enabled ws
unfolding enabled_weight
enabled_weight-off enabled w ws off = rw off refl

enabled_weight-WeightOf :
    (enabled : Dict Text Bool) (ws : List WeightedProvider)
    → WeightOf enabled ws (enabled_weight enabled ws)
unfolding enabled_weight
enabled_weight-WeightOf enabled [] = WeightOf.nothing
enabled_weight-WeightOf enabled (w ∷ ws) = elim (Bool-cases (provider_enabled enabled w.provider)) [
  | inl on ↦ rw on (
      WeightOf.counted (provider_enabled-IsOn enabled w.provider on)
        (enabled_weight-WeightOf enabled ws))
  | inr off ↦ rw off (
      WeightOf.skipped (provider_enabled-off enabled w.provider off)
        (enabled_weight-WeightOf enabled ws))
]

-- The share of a provider in the rest of the list, moved up by what its first entry has.
behind :
    (enabled : Dict Text Bool) (w : WeightedProvider) (ws : List WeightedProvider) (n m : ℕ)
    (p : Text)
    → ((before : List WeightedProvider)
        → enabled_weight enabled (w ∷ before) + n ≡ enabled_weight enabled before + m)
    → Shares enabled ws n p
    → Shares enabled (w ∷ ws) m p
behind enabled w ws n m p moved v = record {
  before = w ∷ v.before;
  chosen = v.chosen;
  after = v.after;
  place = ap (λ z. w ∷ z) v.place;
  is_on = v.is_on;
  answer = v.answer;
  low = omega (arith, moved v.before, v.low);
  high = omega (arith, moved v.before, v.high);
}

pick-Shares :
    (enabled : Dict Text Bool) (ws : List WeightedProvider) (n : ℕ)
    → n < enabled_weight enabled ws
    → Shares enabled ws n (pick enabled ws n)
unfolding pick
pick-Shares enabled [] n h = absurd (omega (arith, enabled_weight-nil enabled, h))
pick-Shares enabled (w ∷ ws) n h = elim (Bool-cases (provider_enabled enabled w.provider)) [
  | inl on ↦ elim (Bool-cases (ltb n (pos_part w.weight))) [
    | inl here ↦
        rw (on, here)
          (record {
            before = [];
            chosen = w;
            after = ws;
            place = refl;
            is_on = on;
            answer = refl;
            low = omega (arith, enabled_weight-nil enabled);
            high = ground (arith, enabled_weight-nil enabled);
          })
    | inr later ↦
        rw (on, later)
          (behind enabled w ws (n - pos_part w.weight) n _
            (λ before. ground (arith, enabled_weight-on enabled w before on))
            (pick-Shares enabled ws (n - pos_part w.weight)
              (ground (arith, enabled_weight-on enabled w ws on))))
  ]
  | inr off ↦ rw off (
      behind enabled w ws n n _
        (λ before. ap (λ k. k + n) (enabled_weight-off enabled w before off))
        (pick-Shares enabled ws n (subst (λ k. n < k) (enabled_weight-off enabled w ws off) h)))
]

pub pick_by-Shares :
    (enabled : Dict Text Bool) (ws : List WeightedProvider) (o : Option ℕ) (hash t : ℕ)
    → total_weight enabled ws 0 ≡ o
    → o ≡ some t
    → 0 < t
    → Shares enabled ws (hash % t) (pick_by o enabled ws hash)
unfolding pick_by
pick_by-Shares enabled ws none hash t sum e positive = absurd (cc)
pick_by-Shares enabled ws (some zero) hash t sum e positive = absurd (ground arith)
pick_by-Shares enabled ws (some (suc n)) hash t sum e positive =
    let same : suc n ≡ t = ground arith in
    let all : suc n ≡ enabled_weight enabled ws =
      omega (arith, total_weight-some enabled ws 0 (suc n) sum) in
    subst (λ k. Shares enabled ws (hash % k) (pick enabled ws (hash % suc n))) same
      (pick-Shares enabled ws (hash % suc n)
        (subst (λ k. hash % suc n < k) all (mod-lt hash (zero-lt-suc n))))

Shares-Picked :
    (enabled : Dict Text Bool) (ws : List WeightedProvider) (n : ℕ) (p : Text)
    → Shares enabled ws n p
    → Picked enabled ws n p
Shares-Picked enabled ws n p v = record {
  before = v.before;
  chosen = v.chosen;
  after = v.after;
  place = v.place;
  is_on = provider_enabled-IsOn enabled v.chosen.provider v.is_on;
  answer = v.answer;
  start = enabled_weight enabled v.before;
  sum = enabled_weight-WeightOf enabled v.before;
  low = v.low;
  high = v.high;
}

module _ (stable_hash : Text → ℕ) where
  -- When the code accepts the weights of a weighted route with a positive total, that total is the
  -- sum of the weights of the entries whose provider is on, and the provider chosen is one that is
  -- on: the hash modulo the total is at least the sum of the weights before its entry, and below the
  -- sum with its own weight added.
  pub choose_provider-weighted :
      (r : Router) (route : RouteConfig) (key : Text) (t : ℕ)
      → is_given route.weighted ≡ true
      → total_weight r.enabled_providers route.weighted 0 ≡ some t
      → 0 < t
      → WeightOf r.enabled_providers route.weighted t
        × Picked r.enabled_providers route.weighted
            (stable_hash key % t)
            ((choose_provider stable_hash r route key).0)
  unfolding choose_provider
  choose_provider-weighted r route key t full sum positive = rw full (
    subst⁻¹ (WeightOf r.enabled_providers route.weighted)
        (omega (arith, total_weight-some r.enabled_providers route.weighted 0 t sum))
        (enabled_weight-WeightOf r.enabled_providers route.weighted),
    Shares-Picked _ _ _ _
        (pick_by-Shares r.enabled_providers route.weighted _ (stable_hash key) t refl sum positive),
  )
