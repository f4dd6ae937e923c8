-- ===== src/Store/Machine/Progress.antt =====
-- Moves of all outbox items at once, for the operations of internal/store/memory.go that touch
-- many.
use mysmpp.Store.Outbox.Moves.{Moved, stay, claims, returns, state_eqb_sound}
use mysmpp.Base.{
  ◌≡◌, nat_eq, text_eq, All, Bool-cases, Dict, IsDict, List, Option, Text, [], and-true, ap, arith,
  eq_refl, inl, inr, insert, leb, lookup, lookup-insert, map, nat_eqb, nat_eqb_iff, none,
  positive_or, refl, some, sym, true, ℕ, ℤ, ◌+◌, ◌∙◌, ◌∷◌,
}
use mysmpp.Store.Types.{MemoryStore, OutboxItem, Result, not_found, ok_subst, or_fail}
use mysmpp.Store.Outbox.{write_items, candidates, claim_item, claim_outbox, is_due}
use mysmpp.Store.Outbox.Keyed.{Held, candidates-Held}
use mysmpp.Store.Retries.{is_stale, requeue_item, requeue_loop, requeue_stale_outbox}
use mysmpp.Store.Valid.{IsValid}
use mathlib.Core.Path.{subst}

-- Each item of the first map is in the second, one move further at most.
abbrev pub Moves : Dict ℕ OutboxItem → Dict ℕ OutboxItem → Type 0
Moves m n =
    (k : ℕ) (item : OutboxItem)
    → lookup k m ≡ some item
    → (item' : OutboxItem) × (lookup k n ≡ some item') × Moved item item'

pub Moves-refl : (m : Dict ℕ OutboxItem) → Moves m m
Moves-refl m k item h = (item, h, (stay refl, inr refl))

-- The item under `k` moves.
pub insert-Moves :
    (m n : Dict ℕ OutboxItem) (k : ℕ) (old new : OutboxItem)
    → Moves m n
    → lookup k m ≡ some old
    → Moved old new
    → Moves m (insert k new n)
insert-Moves m n k old new v hit mv j item h = elim (Bool-cases (nat_eqb k j)) [
  | inl same ↦
      let e : k ≡ j = (nat_eqb_iff k j).0 same in
      let p : old ≡ item =
        ok_subst (λ x. old ≡ x) (ap opt (sym hit ∙ ap (λ i. lookup i m) e ∙ h)) refl in
      (new, rw (lookup-insert j k new n, same), subst (λ (x : OutboxItem). Moved x new) p mv)
  | inr other ↦ let (x, e, mx) = v j item h in (x, rw (lookup-insert j k new n, other) e, mx)
]
  where
    opt : Option OutboxItem → Result OutboxItem
    opt o = or_fail o not_found

-- A new item does not touch the others.
pub fresh-Moves :
    (m : Dict ℕ OutboxItem) (k : ℕ) (new : OutboxItem)
    → lookup k m ≡ none
    → Moves m (insert k new m)
fresh-Moves m k new none' j item h = elim (Bool-cases (nat_eqb k j)) [
  | inl same ↦ let e : k ≡ j = (nat_eqb_iff k j).0 same in absurd (cc (ap (λ i. lookup i m) e))
  | inr other ↦ (item, rw (lookup-insert j k new m, other) h, (stay refl, inr refl))
]

write_items-Moves :
    (now : ℕ) (worker : Text) (limit : ℕ) (m : Dict ℕ OutboxItem) (items : List OutboxItem)
    (n : Dict ℕ OutboxItem)
    → Moves m n
    → All (λ item. Held limit m item × (is_due now item ≡ true)) items
    → Moves m (write_items (map (claim_item now worker) items) n)
unfolding write_items claim_item is_due
write_items-Moves now worker limit m [] n v h = v
write_items-Moves now worker limit m (item ∷ items) n v h =
    write_items-Moves now worker limit m items _
      (insert-Moves m n item.id item (claim_item now worker item) v h.0.0.0
        (claims (state_eqb_sound _ _ (and-true _ _ h.0.1).0) refl, inl refl))
      h.1

pub claim_outbox-Moves :
    (now : ℕ) (s : MemoryStore) (worker : Text) (limit : ℤ)
    → IsValid s
    → Moves s.outbox (claim_outbox now s worker limit).0.outbox
unfolding claim_outbox
claim_outbox-Moves now s worker limit v =
    write_items-Moves now worker s.next_outbox s.outbox (candidates now s limit) s.outbox
      (Moves-refl s.outbox) (candidates-Held now s limit v.keyed)

requeue_loop-Moves :
    (before room : ℕ) (m entries : Dict ℕ OutboxItem) (count : ℕ) (n : Dict ℕ OutboxItem)
    → Moves m n
    → ((k : ℕ) (item : OutboxItem) → lookup k entries ≡ some item → lookup k m ≡ some item)
    → IsDict entries
    → Moves m (requeue_loop before room entries count n).0
unfolding requeue_loop requeue_item is_stale lookup
requeue_loop-Moves before room m [] count n v f d = v
requeue_loop-Moves before room m ((id, item) ∷ entries) count n v f d =
    let rest : (k : ℕ) (x : OutboxItem) → lookup k entries ≡ some x → lookup k m ≡ some x =
      λ k x e. f k x (ground (arith, nat_eqb_iff id k)) in
    let here = f id item (rw (eq_refl id)) in
    elim (Bool-cases (is_stale before item)) [
      | inr fresh ↦
          rw (fresh, requeue_loop) (requeue_loop-Moves before room m entries count n v rest d.1)
      | inl stale ↦
          let mv : Moved item (requeue_item before item) =
            (returns (state_eqb_sound _ _ (and-true _ _ stale).0) refl, inl refl) in
          let w = insert-Moves m n id item (requeue_item before item) v here mv in
          elim (Bool-cases (leb room (count + 1))) [
            | inl full ↦ rw (stale, full, requeue_loop) w
            | inr more ↦
                rw (stale, more, requeue_loop)
                  (requeue_loop-Moves before room m entries (count + 1) _ w rest d.1)
          ]
    ]

pub requeue_stale_outbox-Moves :
    (before : ℕ) (s : MemoryStore) (limit : ℤ)
    → IsValid s
    → Moves s.outbox (requeue_stale_outbox before s limit).0.outbox
unfolding requeue_stale_outbox
requeue_stale_outbox-Moves before s limit v =
    requeue_loop-Moves before (positive_or 1000 limit) s.outbox s.outbox 0 s.outbox
      (Moves-refl s.outbox) (λ k item h. h) v.keyed.dict
