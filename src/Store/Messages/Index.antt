-- ===== src/Store/Messages/Index.antt =====
-- The index by id of internal/store/memory.go against the message list: write, append and trim.
use mysmpp.Base.{
  ℕ, zero, suc, ◌+◌, ◌≡◌, ◌≢◌, refl, sym, ap, ◌∙◌, ◌⊎◌, inl, inr, List, [], ◌∷◌, ◌++◌, none, some,
  Text, text_eqb, text_eqb_iff, text_eq, Dict, lookup, insert, lookup-insert, arith, length,
  get_elem?, set, drop, get_elem?-lt, get_elem?-set, get_elem?-drop, get_elem?-append_self,
  get_elem?-append_lt, if◌then◌else◌, Bool-cases, length-append, nat_eqb_iff, nat_eqb,
}
use mysmpp.Store.Types.{Message}
use mysmpp.Store.Messages.{index_from}

pub record IsIndexed (ms : List Message) (d : Dict Text ℕ) : Type 0 where
  -- An entry of the index leads to the message with that id.
  pub find :
      (k : Text) (i : ℕ)
      → lookup k d ≡ some i
      → (m : Message) × (get_elem? ms i ≡ some m) × (m.id ≡ k)
  -- Each message is found at its place.
  pub place : (i : ℕ) (m : Message) → get_elem? ms i ≡ some m → lookup m.id d ≡ some i

pub nil-IsIndexed : IsIndexed [] []
unfolding lookup
nil-IsIndexed = record { find = λ k i h. absurd (cc); place = λ i m h. absurd (cc) }

module _ {ms : List Message} {d : Dict Text ℕ} (v : IsIndexed ms d) where
  -- A message is replaced by one with its id.
  pub set-IsIndexed :
      (i : ℕ) (old new : Message)
      → get_elem? ms i ≡ some old
      → new.id ≡ old.id
      → IsIndexed (set ms i new) d
  set-IsIndexed i old new h same = record { find = find; place = place }
    where
      hit :
          (j : ℕ) → get_elem? (set ms i new) j ≡ (if nat_eqb i j then some new else get_elem? ms j)
      hit j = get_elem?-set ms i j new (get_elem?-lt ms i h)

      find :
          (k : Text) (j : ℕ)
          → lookup k d ≡ some j
          → (m : Message) × (get_elem? (set ms i new) j ≡ some m) × (m.id ≡ k)
      find k j e = elim (Bool-cases (nat_eqb i j)) [
        | inl eq ↦
            let (m, g, p) = v.find k j e in (new, rw (hit j, eq), ground (arith, nat_eqb_iff i j))
        | inr ne ↦ let (m, g, p) = v.find k j e in (m, rw (hit j, ne) g, p)
      ]

      place : (j : ℕ) (m : Message) → get_elem? (set ms i new) j ≡ some m → lookup m.id d ≡ some j
      place j m e = ground (arith, hit j, v.place i old, v.place j m, nat_eqb_iff i j)

  -- A message with a new id goes to the end.
  pub append-IsIndexed :
      (new : Message)
      → lookup new.id d ≡ none
      → IsIndexed (ms ++ new ∷ []) (insert new.id (length ms) d)
  append-IsIndexed new fresh = record { find = find; place = place }
    where
      seen :
          (k : Text)
          → lookup k (insert new.id (length ms) d)
            ≡ (if text_eqb new.id k then some (length ms) else lookup k d)
      seen k = lookup-insert k new.id (length ms) d

      find :
          (k : Text) (j : ℕ)
          → lookup k (insert new.id (length ms) d) ≡ some j
          → (m : Message) × (get_elem? (ms ++ new ∷ []) j ≡ some m) × (m.id ≡ k)
      find k j e = elim (Bool-cases (text_eqb new.id k)) [
        | inl eq ↦ (
          new,
          ground (arith, seen k, get_elem?-append_self ms new),
          (text_eqb_iff new.id k).0 eq,
        )
        | inr ne ↦
            let (m, g, p) = v.find k j (ground (arith, seen k)) in
            (m, get_elem?-append_lt ms _ j (get_elem?-lt ms j g) ∙ g, p)
      ]

      place :
          (j : ℕ) (m : Message)
          → get_elem? (ms ++ new ∷ []) j ≡ some m
          → lookup m.id (insert new.id (length ms) d) ≡ some j
      place j m e = ground (
        arith,
        seen m.id,
        text_eqb_iff new.id m.id,
        v.place j m,
        get_elem?-lt (ms ++ new ∷ []) j e,
        length-append ms (new ∷ []),
        get_elem?-append_self ms new,
        get_elem?-append_lt ms (new ∷ []) j,
      )

-- No message of the list has the id `k`.
abbrev Lacks : Text → List Message → Type 0
Lacks k ms = (j : ℕ) (m : Message) → get_elem? ms j ≡ some m → m.id ≢ k

abbrev Distinct : List Message → Type 0
Distinct ms =
    (i j : ℕ) (m n : Message)
    → get_elem? ms i ≡ some m
    → get_elem? ms j ≡ some n
    → m.id ≡ n.id
    → i ≡ j

lookup-index_from_lacking :
    (k : Text) (i : ℕ) (ms : List Message) (d : Dict Text ℕ)
    → Lacks k ms
    → lookup k (index_from i ms d) ≡ lookup k d
unfolding index_from
lookup-index_from_lacking k i [] d h = refl
lookup-index_from_lacking k i (x ∷ ms) d h =
    lookup-index_from_lacking k (suc i) ms (insert x.id i d) (λ j m. h (suc j) m)
    ∙ ground (arith, lookup-insert k x.id i d, text_eqb_iff x.id k, h 0 x refl)

place-index_from :
    (i : ℕ) (ms : List Message) (d : Dict Text ℕ)
    → Distinct ms
    → (j : ℕ) (m : Message) → get_elem? ms j ≡ some m
    → lookup m.id (index_from i ms d) ≡ some (i + j)
unfolding index_from
place-index_from i [] d h j m g = absurd (cc)
place-index_from i (x ∷ ms) d h zero m g =
    let lacks : Lacks m.id ms = λ j n e p. absurd (omega (arith, h 0 (suc j) m n g e (sym p))) in
    lookup-index_from_lacking m.id (suc i) ms (insert x.id i d) lacks
    ∙ ground (arith, lookup-insert m.id x.id i d, text_eqb_iff x.id m.id)
place-index_from i (x ∷ ms) d h (suc j) m g =
    place-index_from (suc i) ms (insert x.id i d)
      (λ a b p q e f s. omega (arith, h (suc a) (suc b) p q e f s)) j m g
    ∙ ap some (omega arith)

find-index_from :
    (k : Text) (i : ℕ) (ms : List Message) (d : Dict Text ℕ) (n : ℕ)
    → lookup k (index_from i ms d) ≡ some n
    → (lookup k d ≡ some n)
      ⊎ ((j : ℕ) × (m : Message) × (n ≡ i + j) × (get_elem? ms j ≡ some m) × (m.id ≡ k))
unfolding index_from
find-index_from k i [] d n h = inl h
find-index_from k i (x ∷ ms) d n h = elim (find-index_from k (suc i) ms (insert x.id i d) n h) [
  | inl e ↦ elim (Bool-cases (text_eqb x.id k)) [
    | inl eq ↦
        inr (0, x, ground (arith, lookup-insert k x.id i d), refl, (text_eqb_iff x.id k).0 eq)
    | inr ne ↦ inl (ground (arith, lookup-insert k x.id i d))
  ]
  | inr (j, m, p, g, q) ↦ inr (suc j, m, omega arith, g, q)
]

-- The list is cut in front and the index built anew.
pub drop-IsIndexed :
    (n : ℕ) {ms : List Message} {d : Dict Text ℕ}
    → IsIndexed ms d
    → IsIndexed (drop n ms) (index_from 0 (drop n ms) [])
unfolding lookup
drop-IsIndexed n {ms} {d} v = record { find = find; place = place }
  where
    distinct : Distinct (drop n ms)
    distinct i j a b g h e =
        let p = v.place (n + i) a (sym (get_elem?-drop n ms i) ∙ g) in
        let q = v.place (n + j) b (sym (get_elem?-drop n ms j) ∙ h) in ground arith

    find :
        (k : Text) (i : ℕ)
        → lookup k (index_from 0 (drop n ms) []) ≡ some i
        → (m : Message) × (get_elem? (drop n ms) i ≡ some m) × (m.id ≡ k)
    find k i e = elim (find-index_from k 0 (drop n ms) [] i e) [
      | inl bad ↦ absurd (cc)
      | inr (j, m, p, g, q) ↦ (m, ground arith, q)
    ]

    place :
        (i : ℕ) (m : Message)
        → get_elem? (drop n ms) i ≡ some m
        → lookup m.id (index_from 0 (drop n ms) []) ≡ some i
    place i m g = place-index_from 0 (drop n ms) [] distinct i m g ∙ ap some (omega arith)
