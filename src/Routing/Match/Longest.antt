-- ===== src/Routing/Match/Longest.antt =====
-- The longest prefix of a number, as `matchedPrefixLen` of internal/router/router.go finds it.
use mysmpp.Base.{
  ℕ, ◌≡◌, ◌⊎◌, ◌∙◌, ◌++◌, ◌∷◌, ◌≤◌, List, [], All, Option, none, some, Text, Bool-cases, true,
  false, inl, inr, ap, sym, refl, length, ltb, and-true, nat_eqb_iff, arith,
}
use mysmpp.Routing.Match.{has_prefix, best_prefix, matched_prefix_len}

-- The text starts with the prefix.
abbrev pub StartsWith : Text → Text → Type 0
StartsWith to p = (rest : Text) × (to ≡ p ++ rest)

-- A member of the list has the property.
abbrev pub Some : (Text → Type 0) → List Text → Type 0
Some P [] = ⊥
Some P (x ∷ xs) = P x ⊎ Some P xs

-- The length is that of a longest prefix of the text in the list; an empty list counts as matched
-- by length 0.
abbrev pub Longest : Text → List Text → ℕ → Type 0
Longest to [] n = n ≡ 0
Longest to (p ∷ ps) n =
    Some (λ x. StartsWith to x × (length x ≡ n)) (p ∷ ps)
    × All (λ x. StartsWith to x → length x ≤ n) (p ∷ ps)

has_prefix-StartsWith : (to p : Text) → has_prefix to p ≡ true → StartsWith to p
unfolding has_prefix
has_prefix-StartsWith to [] h = (to, refl)
has_prefix-StartsWith [] (c ∷ p) h = absurd (cc)
has_prefix-StartsWith (d ∷ to) (c ∷ p) h =
    let (same, more) = and-true _ _ h in
    let (rest, e) = has_prefix-StartsWith to p more in
    (rest, ap (λ x. x ∷ to) ((nat_eqb_iff d c).0 same) ∙ ap (λ xs. c ∷ xs) e)

has_prefix-append : (p rest : Text) → has_prefix (p ++ rest) p ≡ true
unfolding has_prefix
has_prefix-append [] rest = refl
has_prefix-append (c ∷ p) rest = ground (arith, nat_eqb_iff c c, has_prefix-append p rest)

StartsWith-has_prefix : (to p : Text) → StartsWith to p → has_prefix to p ≡ true
StartsWith-has_prefix to p (rest, e) = ap (λ x. has_prefix x p) e ∙ has_prefix-append p rest

not_prefix : (to p : Text) → has_prefix to p ≡ false → ¬ StartsWith to p
not_prefix to p h s = absurd (cc (sym h ∙ StartsWith-has_prefix to p s))

-- What the loop has found, from the best length so far.
abbrev Finds : Text → List Text → Option ℕ → Option ℕ → Type 0
Finds to ps best none = (best ≡ none) × All (λ x. ¬ StartsWith to x) ps
Finds to ps best (some n) =
    ((best ≡ some n) ⊎ Some (λ x. StartsWith to x × (length x ≡ n)) ps)
    × ((b : ℕ) → best ≡ some b → b ≤ n)
    × All (λ x. StartsWith to x → length x ≤ n) ps

skip_prefix :
    (to p : Text) (ps : List Text) (best o : Option ℕ)
    → (StartsWith to p → (b : ℕ) × (best ≡ some b) × (length p ≤ b))
    → Finds to ps best o
    → Finds to (p ∷ ps) best o
skip_prefix to p ps best none h (e, v) = (e, (λ s. absurd (cc (sym e ∙ (h s).1)), v))
skip_prefix to p ps best (some n) h (inl e, up, v) =
    (inl e, up, (λ s. omega (arith, (h s).2, up _ (h s).1), v))
skip_prefix to p ps best (some n) h (inr found, up, v) =
    (inr (inr found), up, (λ s. omega (arith, (h s).2, up _ (h s).1), v))

take_prefix :
    (to p : Text) (ps : List Text) (best o : Option ℕ)
    → StartsWith to p
    → ((b : ℕ) → best ≡ some b → b ≤ length p)
    → Finds to ps (some (length p)) o
    → Finds to (p ∷ ps) best o
take_prefix to p ps best none s low (e, v) = absurd (cc)
take_prefix to p ps best (some n) s low (inl e, up, v) = (
  inr (inl (s, ground arith)),
  λ b h. omega (arith, low b h, up (length p) refl),
  (λ _. up (length p) refl, v),
)
take_prefix to p ps best (some n) s low (inr found, up, v) = (
  inr (inr found),
  λ b h. omega (arith, low b h, up (length p) refl),
  (λ _. up (length p) refl, v),
)

best_prefix-Finds :
    (to : Text) (ps : List Text) (best : Option ℕ) → Finds to ps best (best_prefix to ps best)
unfolding best_prefix
best_prefix-Finds to [] none = (refl, tt)
best_prefix-Finds to [] (some n) = (inl refl, (λ b e. ground arith), tt)
best_prefix-Finds to (p ∷ ps) none = elim (Bool-cases (has_prefix to p)) [
  | inl hit ↦ rw hit (
      take_prefix to p ps none _ (has_prefix-StartsWith to p hit) (λ b e. absurd (cc))
        (best_prefix-Finds to ps (some (length p))))
  | inr no_prefix ↦ rw no_prefix (
      skip_prefix to p ps none _ (λ s. absurd (not_prefix to p no_prefix s))
        (best_prefix-Finds to ps none))
]
best_prefix-Finds to (p ∷ ps) (some b) = elim (Bool-cases (has_prefix to p)) [
  | inl hit ↦ elim (Bool-cases (ltb b (length p))) [
    | inl more ↦
        rw (hit, more)
          (take_prefix to p ps (some b) _ (has_prefix-StartsWith to p hit) (λ c e. ground arith)
            (best_prefix-Finds to ps (some (length p))))
    | inr less ↦
        rw (hit, less)
          (skip_prefix to p ps (some b) _ (λ s. (b, refl, ground arith))
            (best_prefix-Finds to ps (some b)))
  ]
  | inr no_prefix ↦ rw no_prefix (
      skip_prefix to p ps (some b) _ (λ s. absurd (not_prefix to p no_prefix s))
        (best_prefix-Finds to ps (some b)))
]

-- What `matchedPrefixLen` answers.
abbrev pub IsLongest : Text → List Text → Option ℕ → Type 0
IsLongest to ps none = (n : ℕ) → ¬ Longest to ps n
IsLongest to ps (some n) = Longest to ps n

no_Some :
    (to : Text) (n : ℕ) (ps : List Text)
    → All (λ x. ¬ StartsWith to x) ps
    → ¬ Some (λ x. StartsWith to x × (length x ≡ n)) ps
no_Some to n [] v s = s
no_Some to n (p ∷ ps) v (inl s) = v.0 s.0
no_Some to n (p ∷ ps) v (inr s) = no_Some to n ps v.1 s

Finds-IsLongest :
    (to p : Text) (ps : List Text) (o : Option ℕ)
    → Finds to (p ∷ ps) none o
    → IsLongest to (p ∷ ps) o
Finds-IsLongest to p ps none (e, v) = λ n l. no_Some to n (p ∷ ps) v l.0
Finds-IsLongest to p ps (some n) (inl e, up, v) = absurd (cc)
Finds-IsLongest to p ps (some n) (inr found, up, v) = (found, v)

pub matched_prefix_len-IsLongest :
    (to : Text) (ps : List Text) → IsLongest to ps (matched_prefix_len ps to)
unfolding matched_prefix_len
matched_prefix_len-IsLongest to [] = refl
matched_prefix_len-IsLongest to (p ∷ ps) =
    Finds-IsLongest to p ps _ (best_prefix-Finds to (p ∷ ps) none)

Some-le :
    (to : Text) (n m : ℕ) (ps : List Text)
    → Some (λ x. StartsWith to x × (length x ≡ n)) ps
    → All (λ x. StartsWith to x → length x ≤ m) ps
    → n ≤ m
Some-le to n m [] s v = absurd s
Some-le to n m (p ∷ ps) (inl s) v = omega (arith, s.1, v.0 s.0)
Some-le to n m (p ∷ ps) (inr s) v = Some-le to n m ps s v.1

pub Longest-unique :
    (to : Text) (ps : List Text) (n m : ℕ) → Longest to ps n → Longest to ps m → n ≡ m
Longest-unique to [] n m a b = a ∙ sym b
Longest-unique to (p ∷ ps) n m a b =
    omega (arith, Some-le to n m (p ∷ ps) a.0 b.1, Some-le to m n (p ∷ ps) b.0 a.1)
