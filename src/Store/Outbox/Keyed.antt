-- ===== src/Store/Outbox/Keyed.antt =====
-- The outbox map of internal/store/memory.go and the ids of its items.
use mysmpp.Base.{
  ℕ, ◌≤◌, ◌≡◌, refl, List, [], ◌∷◌, some, nat_eq, nat_eqb_iff, Dict, IsDict, lookup, insert,
  lookup-insert, insert-IsDict, values, values-All, All, take-All, select-All, sort_by-All, ℤ,
  positive_or, arith, true,
}
use mathlib.Core.Path.{sym, subst}
use mysmpp.Store.Types.{OutboxItem, MemoryStore}
use mysmpp.Store.Outbox.{write_items, candidates, is_due, due_before}

pub record IsKeyed (n : ℕ) (m : Dict ℕ OutboxItem) : Type 0 where
  pub dict : IsDict m
  pub own : (k : ℕ) (item : OutboxItem) → lookup k m ≡ some item → (item.id ≡ k) × (k ≤ n)

pub nil-IsKeyed : IsKeyed 0 []
unfolding lookup
nil-IsKeyed = record { dict = tt; own = λ k item h. absurd (cc) }

pub IsKeyed-mono : {n p : ℕ} {m : Dict ℕ OutboxItem} → IsKeyed n m → n ≤ p → IsKeyed p m
IsKeyed-mono v h = record {
  dict = v.dict;
  own = λ k item e. let (a, b) = v.own k item e in (a, omega arith);
}

pub insert-IsKeyed :
    {n : ℕ} {m : Dict ℕ OutboxItem} (k : ℕ) (item : OutboxItem)
    → IsKeyed n m
    → item.id ≡ k
    → k ≤ n
    → IsKeyed n (insert k item m)
insert-IsKeyed {n} {m} k item v same low = record {
  dict = insert-IsDict k item m v.dict;
  own = own;
}
  where
    own : (j : ℕ) (x : OutboxItem) → lookup j (insert k item m) ≡ some x → (x.id ≡ j) × (j ≤ n)
    own j x h = ground (arith, lookup-insert j k item m, v.own j x, nat_eqb_iff k j)

-- An item that the map holds under its id.
abbrev pub Held : ℕ → Dict ℕ OutboxItem → OutboxItem → Type 0
Held n m item = (lookup item.id m ≡ some item) × (item.id ≤ n)

pub values-Held : {n : ℕ} {m : Dict ℕ OutboxItem} → IsKeyed n m → All (Held n m) (values m)
values-Held {n} {m} v = values-All (Held n m) m v.dict λ k item e.
    let (a, b) = v.own k item e in (subst (λ j. lookup j m ≡ some item) (sym a) e, omega arith)

-- What a claim takes is stored and due.
pub candidates-Held :
    (now : ℕ) (s : MemoryStore) (limit : ℤ)
    → IsKeyed s.next_outbox s.outbox
    → All
        (λ item. Held s.next_outbox s.outbox item × (is_due now item ≡ true))
        (candidates now s limit)
unfolding candidates
candidates-Held now s limit v = take-All _ (positive_or 1 limit) _ (
    sort_by-All due_before _ _
      (select-All (Held s.next_outbox s.outbox) (is_due now) (values s.outbox) (values-Held v)))

pub write_items-IsKeyed :
    {n : ℕ} (items : List OutboxItem) (m : Dict ℕ OutboxItem)
    → IsKeyed n m
    → All (λ item. item.id ≤ n) items
    → IsKeyed n (write_items items m)
unfolding write_items
write_items-IsKeyed [] m v h = v
write_items-IsKeyed (item ∷ items) m v h =
    write_items-IsKeyed items (insert item.id item m) (insert-IsKeyed item.id item v refl h.0) h.1
