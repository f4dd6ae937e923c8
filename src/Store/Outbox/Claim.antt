-- ===== src/Store/Outbox/Claim.antt =====
-- What `ClaimOutbox` of internal/store/memory.go returns.
use mysmpp.Store.Outbox.Moves.{state_eqb_sound}
use mysmpp.Store.Valid.Outbox.{claim_outbox-IsValid}
use mysmpp.Base.{
  ◌+◌, ◌≡◌, nat_eq, text_eq, All, All-imp, Bool-cases, Dict, List, Option, Text, [], ap, inl, inr,
  length, lookup, lookup-insert, lookup-insert_self, map, map-All, nat_eqb, nat_eqb_iff, none,
  positive_or, some, sym, ℕ, ℤ, ◌∙◌, ◌∷◌, ◌≤◌, and-true, arith, length-map, length-take_le, refl,
  select, sort_by, true, values, ◌≢◌,
}
use mysmpp.Store.Types.{MemoryStore, OutboxItem, OutboxState}
use mysmpp.Store.Outbox.{claim_outbox, candidates, claim_item, is_due, write_items, due_before}
use mysmpp.Store.Outbox.Keyed.{candidates-Held}
use mysmpp.Store.Valid.{IsValid}

-- An item handed to the worker: it was due, has one attempt more than before and the worker's mark,
-- is otherwise the same, and is stored.
pub record Claimed (now : ℕ) (s t : MemoryStore) (worker : Text) (item : OutboxItem) : Type 0 where
  pub old : OutboxItem
  pub found : lookup item.id s.outbox ≡ some old
  pub was_pending : old.state ≡ OutboxState.pending
  pub due : old.next_retry_at ≤ now
  pub is_claimed : item.state ≡ OutboxState.claimed
  pub by : item.claimed_by ≡ worker
  pub since : item.claimed_at ≡ now
  pub tried : item.attempt ≡ old.attempt + 1
  pub same_gateway_id : item.gateway_id ≡ old.gateway_id
  pub same_provider : item.provider ≡ old.provider
  pub same_payload : item.payload ≡ old.payload
  pub same_limit : item.max_attempts ≡ old.max_attempts
  pub stored : lookup item.id t.outbox ≡ some item

module _ (now : ℕ) (worker : Text) (m : Dict ℕ OutboxItem) where
  -- A write of the other items keeps what is written under `x`.
  write_items-keep :
      (x : OutboxItem) (items : List OutboxItem) (n : Dict ℕ OutboxItem)
      → lookup x.id m ≡ some x
      → All (λ item. lookup item.id m ≡ some item) items
      → lookup x.id n ≡ some (claim_item now worker x)
      → lookup x.id (write_items (map (claim_item now worker) items) n)
        ≡ some (claim_item now worker x)
  unfolding write_items claim_item
  write_items-keep x [] n hx h e = e
  write_items-keep x (y ∷ items) n hx h e = write_items-keep x items _ hx h.1 (
      lookup-insert x.id y.id (claim_item now worker y) n ∙ elim (Bool-cases (nat_eqb y.id x.id)) [
        | inl same ↦
            let p : y.id ≡ x.id = (nat_eqb_iff _ _).0 same in
            let q : some y ≡ some x = sym h.0 ∙ ap (λ k. lookup k m) p ∙ hx in
            rw same (ap (opt_map (claim_item now worker)) q)
        | inr other ↦ rw other e
      ])
    where
      opt_map : (OutboxItem → OutboxItem) → Option OutboxItem → Option OutboxItem
      opt_map f none = none
      opt_map f (some a) = some (f a)

  write_items-All :
      (items : List OutboxItem) (n : Dict ℕ OutboxItem)
      → All (λ item. lookup item.id m ≡ some item) items
      → All
          (λ item.
            lookup item.id (write_items (map (claim_item now worker) items) n)
            ≡ some (claim_item now worker item))
          items
  unfolding write_items claim_item
  write_items-All [] n h = tt
  write_items-All (x ∷ items) n h = (
    write_items-keep x items _ h.0 h.1 (lookup-insert_self x.id (claim_item now worker x) n),
    write_items-All items _ h.1,
  )

All-both {ℓ κ μ} :
    {A : Type ℓ} (P : A → Type κ) (Q : A → Type μ) (xs : List A)
    → All P xs
    → All Q xs
    → All (λ x. P x × Q x) xs
All-both P Q [] h k = tt
All-both P Q (x ∷ xs) h k = ((h.0, k.0), All-both P Q xs h.1 k.1)

is_due_lem :
    (now : ℕ) (item : OutboxItem)
    → is_due now item ≡ true
    → (item.state ≡ OutboxState.pending) × (item.next_retry_at ≤ now)
unfolding is_due
is_due_lem now item h = let (a, b) = and-true _ _ h in (state_eqb_sound _ _ a, ground arith)

pub claim_outbox-Claimed :
    (now : ℕ) (s : MemoryStore) (worker : Text) (limit : ℤ)
    → IsValid s
    → (length (claim_outbox now s worker limit).1 ≤ positive_or 1 limit)
      × All
          (Claimed now s (claim_outbox now s worker limit).0 worker)
          (claim_outbox now s worker limit).1
unfolding claim_outbox candidates claim_item is_due
claim_outbox-Claimed now s worker limit v =
    let items = candidates now s limit in
    let held = candidates-Held now s limit v.keyed in
    let stored =
      All-imp _ (λ item. lookup item.id s.outbox ≡ some item) (λ x h. h.0.0) items held in
    let written = write_items-All now worker s.outbox items s.outbox stored in
    (
      rw (length-map items (claim_item now worker)) (
          omega (
            arith,
            length-take_le (positive_or 1 limit)
                (sort_by due_before (select (is_due now) (values s.outbox))),
          )),
      map-All _ (claim_item now worker) items (
          All-imp _ _ (λ x h. claimed x h.0.0.0 h.0.1 h.1) items (All-both _ _ items held written)),
    )
  where
    claimed :
        (x : OutboxItem)
        → lookup x.id s.outbox ≡ some x
        → is_due now x ≡ true
        → lookup x.id (claim_outbox now s worker limit).0.outbox ≡ some (claim_item now worker x)
        → Claimed now s (claim_outbox now s worker limit).0 worker (claim_item now worker x)
    claimed x here d there = record {
      old = x;
      found = here;
      was_pending = (is_due_lem now x d).0;
      due = (is_due_lem now x d).1;
      is_claimed = refl;
      by = refl;
      since = refl;
      tried = refl;
      same_gateway_id = refl;
      same_provider = refl;
      same_payload = refl;
      same_limit = refl;
      stored = there;
    }

apart :
    (s t u : MemoryStore) (a b : OutboxItem) (worker other : Text) (now later : ℕ)
    → Claimed now s t worker a
    → Claimed later t u other b
    → a.id ≢ b.id
apart s t u a b worker other now later v w e =
    let p : some a ≡ some w.old = sym v.stored ∙ ap (λ k. lookup k t.outbox) e ∙ w.found in
    ground (arith, p, v.is_claimed, w.was_pending)

-- A second claim that follows at once, by any worker and at any time, shares no item with the first.
pub claim_outbox_disjoint :
    (now later : ℕ) (s : MemoryStore) (worker other : Text) (limit limit' : ℤ)
    → IsValid s
    → All
        (λ a.
          All
            (λ b. a.id ≢ b.id)
            (claim_outbox later (claim_outbox now s worker limit).0 other limit').1)
        (claim_outbox now s worker limit).1
claim_outbox_disjoint now later s worker other limit limit' v =
    let t = (claim_outbox now s worker limit).0 in
    let w = claim_outbox-IsValid now s worker limit v in
    let second = (claim_outbox-Claimed later t other limit' w).1 in
    All-imp _ _
      (λ a h.
        All-imp _ _
          (λ b k. apart s t (claim_outbox later t other limit').0 a b worker other now later h k) _
          second)
      (claim_outbox now s worker limit).1 (claim_outbox-Claimed now s worker limit v).1
