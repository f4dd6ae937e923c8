-- ===== src/Base/Maps.antt =====
-- A Go map as an association list, whose order stands for the order of a `range` over the map.
-- Each key occurs once (`IsDict`).
use mathlib.Core.Path.{◌≡◌, refl}
use mathlib.Core.Bool.{Bool, true, false}
use mathlib.Core.List.{map, List, [], ◌∷◌}
use mathlib.Core.Option.{Option, none, some}
use native.Mathlib.Omega.{arith}
use mysmpp.Base.Tests.{if◌then◌else◌}
use mysmpp.Base.Lists.{All}
use mysmpp.Base.Equality.{Eq, ◌==◌, eq_refl}

abbrev pub Dict {ℓ κ} : Type ℓ → Type κ → Type (ℓ ⊔ κ)
Dict K V = List (K × V)

abbrev pub is_some {ℓ} : {A : Type ℓ} → Option A → Bool
is_some none = false
is_some (some a) = true

abbrev pub kept {ℓ} : {V : Type ℓ} → (V → Bool) → Option V → Option V
kept keep none = none
kept keep (some v) = if keep v then some v else none

-- The values of a map, in the order of a `range`.
abbrev pub values {ℓ κ} : {K : Type ℓ} {V : Type κ} → Dict K V → List V
values = map (λ entry. entry.1)

module _ {ℓ κ} {K : Type ℓ} {V : Type κ} ⦃e : Eq K⦄ where
  -- `v, ok := m[k]`.
  unfoldable pub lookup : K → Dict K V → Option V
  lookup k [] = none
  lookup k ((j, v) ∷ m) = if j == k then some v else lookup k m

  -- `m[k] = v`.
  unfoldable pub insert : K → V → Dict K V → Dict K V
  insert k v [] = (k, v) ∷ []
  insert k v ((j, w) ∷ m) = if j == k then (k, v) ∷ m else (j, w) ∷ insert k v m

  -- `delete(m, k)`.
  unfoldable pub delete : K → Dict K V → Dict K V
  delete k [] = []
  delete k ((j, v) ∷ m) = if j == k then delete k m else (j, v) ∷ delete k m

  abbrev pub IsDict : Dict K V → Type κ
  IsDict [] = Unit
  IsDict ((k, v) ∷ m) = (lookup k m ≡ none) × IsDict m

  -- `m[k] = v` for the keys `j`.
  pub lookup-insert :
      (j k : K) (v : V) (m : Dict K V)
      → lookup j (insert k v m) ≡ (if k == j then some v else lookup j m)
  unfolding lookup insert
  lookup-insert j k v [] = refl
  lookup-insert j k v ((i, w) ∷ m) =
      ground (arith, e.tests_equal k j, e.tests_equal i k, e.tests_equal i j, lookup-insert j k v m)

  pub lookup-insert_self : (k : K) (v : V) (m : Dict K V) → lookup k (insert k v m) ≡ some v
  lookup-insert_self k v m = rw (lookup-insert, eq_refl)

  pub lookup-delete :
      (j k : K) (m : Dict K V) → lookup j (delete k m) ≡ (if k == j then none else lookup j m)
  unfolding lookup delete
  lookup-delete j k [] = ground arith
  lookup-delete j k ((i, w) ∷ m) =
      ground (arith, e.tests_equal k j, e.tests_equal i k, e.tests_equal i j, lookup-delete j k m)

  pub insert-IsDict : (k : K) (v : V) (m : Dict K V) → IsDict m → IsDict (insert k v m)
  unfolding insert lookup
  insert-IsDict k v [] h = ground arith
  insert-IsDict k v ((i, w) ∷ m) h =
      ground (
        arith,
        e.tests_equal i k,
        e.tests_equal k i,
        lookup-insert i k v m,
        insert-IsDict k v m h.1,
      )

  pub delete-IsDict : (k : K) (m : Dict K V) → IsDict m → IsDict (delete k m)
  unfolding delete lookup
  delete-IsDict k [] h = h
  delete-IsDict k ((i, w) ∷ m) h =
      ground (arith, e.tests_equal i k, lookup-delete i k m, delete-IsDict k m h.1)

  -- A loop that deletes the entries which fail a test.
  unfoldable pub retain : (K → V → Bool) → Dict K V → Dict K V
  retain keep [] = []
  retain keep ((k, v) ∷ m) = elim (keep k v) [
    | true ↦ (k, v) ∷ retain keep m
    | false ↦ retain keep m
  ]

  lookup-retain_absent :
      (j : K) (keep : K → V → Bool) (m : Dict K V)
      → lookup j m ≡ none
      → lookup j (retain keep m) ≡ none
  unfolding lookup retain
  lookup-retain_absent j keep [] h = refl
  lookup-retain_absent j keep ((k, v) ∷ m) h = ground (arith, lookup-retain_absent j keep m)

  pub lookup-retain :
      (j : K) (keep : K → V → Bool) (m : Dict K V)
      → IsDict m
      → lookup j (retain keep m) ≡ kept (keep j) (lookup j m)
  unfolding lookup retain
  lookup-retain j keep [] h = refl
  lookup-retain j keep ((k, v) ∷ m) h =
      ground (arith, e.tests_equal k j, lookup-retain j keep m h.1, lookup-retain_absent j keep m)

  pub retain-IsDict : (keep : K → V → Bool) (m : Dict K V) → IsDict m → IsDict (retain keep m)
  unfolding retain
  retain-IsDict keep [] h = h
  retain-IsDict keep ((k, v) ∷ m) h =
      ground (arith, lookup-retain_absent k keep m h.0, retain-IsDict keep m h.1)

  -- What holds of each entry that a lookup finds holds of each value.
  pub values-All {μ} :
      (P : V → Type μ) (m : Dict K V)
      → IsDict m
      → ((k : K) (v : V) → lookup k m ≡ some v → P v)
      → All P (values m)
  unfolding lookup
  values-All P [] h f = tt
  values-All P ((k, v) ∷ m) h f = (
    f k v (rw (eq_refl k)),
    values-All P m h.1 λ j w g. f j w (ground (arith, e.tests_equal k j)),
  )
