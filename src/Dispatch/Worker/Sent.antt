-- ===== src/Dispatch/Worker/Sent.antt =====
-- Outbox items that went to a provider from `processOutbox` of internal/dispatch/dispatcher.go.
use mysmpp.Store.Outbox.{sending_item, mark_outbox_sending}
use mysmpp.Base.{
  suc, arith, lookup-insert_self, text_eqb_iff, Bool-cases, ap, nat_eqb, nat_eqb_iff, sym, zero, ℕ,
  ◌≡◌, ◌≢◌, ◌⊎◌, ◌∙◌, inl, inr, List, All, some, Text, true, false, refl, lookup, nat_eq,
}
use mysmpp.Store.Types.{
  MemoryStore, OutboxItem, OutboxState, Result, state_eqb, ok, err, bind-ok, not_found, ok_subst,
  or_fail, or_fail-ok,
}
use mysmpp.Store.Machine.Progress.{Moves}
use mysmpp.Store.Machine.History.{is_handed, Move-is_handed}
use mysmpp.Store.Outbox.Moves.{
  Move, Moved, stay, claims, sends, returns, acknowledges, completes, abandons, fails,
  state_eqb_sound,
}
use mysmpp.Dispatch.Worker.{retry_transition}

-- An item that went to a provider: it was handed over, and belongs to the worker while in sending.
pub record WasSent (s : MemoryStore) (k : ℕ) (worker : Text) : Type 0 where
  pub item : OutboxItem
  pub stored : lookup k s.outbox ≡ some item
  pub handed : is_handed item.state ≡ true
  pub owned : (state_eqb item.state OutboxState.sending ≡ false) ⊎ (item.claimed_by ≡ worker)

abbrev pub AllSent : MemoryStore → List (ℕ × Text) → Type 0
AllSent s sent = All (λ e. WasSent s e.0 e.1) sent

-- An item that was handed over comes to sending only from there.
pub Move-unsent :
    {a b : OutboxState}
    → Move a b
    → is_handed a ≡ true
    → state_eqb a OutboxState.sending ≡ false
    → state_eqb b OutboxState.sending ≡ false
Move-unsent (stay p) h g = rw (← p) g
Move-unsent (claims p q) h g = rw q refl
Move-unsent (sends p q) h g = absurd (cc (rw p at h))
Move-unsent (returns p q) h g = rw q refl
Move-unsent (acknowledges p q) h g = rw q refl
Move-unsent (completes p q) h g = rw q refl
Move-unsent (abandons p q) h g = rw q refl
Move-unsent (fails p q) h g = rw q refl

pub still_owned :
    (a b : OutboxItem) (worker : Text)
    → Moved a b
    → is_handed a.state ≡ true
    → (state_eqb a.state OutboxState.sending ≡ false) ⊎ (a.claimed_by ≡ worker)
    → (state_eqb b.state OutboxState.sending ≡ false) ⊎ (b.claimed_by ≡ worker)
still_owned a b worker (mv, owner) h (inl idle) = inl (Move-unsent mv h idle)
still_owned a b worker (mv, inl idle) h (inr mine) = inl idle
still_owned a b worker (mv, inr same) h (inr mine) = inr (same ∙ mine)

pub WasSent-Moves :
    (s t : MemoryStore) (k : ℕ) (worker : Text)
    → Moves s.outbox t.outbox
    → WasSent s k worker
    → WasSent t k worker
WasSent-Moves s t k worker moves v =
    let (item', hit, mv) = moves k v.item v.stored in
    record {
      item = item';
      stored = hit;
      handed = Move-is_handed mv.0 v.handed;
      owned = still_owned v.item item' worker mv v.handed v.owned;
    }

pub retry_transition-ok :
    (left : ℕ) (call : MemoryStore → Result MemoryStore) (s : MemoryStore) {t : MemoryStore}
    → retry_transition left call s ≡ ok t
    → call s ≡ ok t
unfolding retry_transition
retry_transition-ok zero call s h = h
retry_transition-ok (suc left) call s {t} h = go (call s) refl h (retry_transition-ok left call s)
  where
    go :
        (r : Result MemoryStore)
        → call s ≡ r
        → elim r [ ok u ↦ ok u | err e ↦ retry_transition left call s ] ≡ ok t
        → (retry_transition left call s ≡ ok t → call s ≡ ok t)
        → call s ≡ ok t
    go (ok u) e g later = e ∙ g
    go (err x) e g later = later g

-- A call that was made before, by the same worker if for the same item.
pub earlier_call :
    (s : MemoryStore) (old : OutboxItem) (worker : Text) (k id : ℕ) (other : Text)
    → lookup id s.outbox ≡ some old
    → old.claimed_by ≡ worker
    → (is_handed old.state ≡ false) ⊎ (state_eqb old.state OutboxState.sending ≡ true)
    → WasSent s k other
    → (k ≢ id) ⊎ (other ≡ worker)
earlier_call s old worker k id other found mine state v = elim (Bool-cases (nat_eqb k id)) [
  | inr far ↦ inl (λ e. ground (arith, nat_eqb_iff k id))
  | inl near ↦
      let same : k ≡ id = (nat_eqb_iff k id).0 near in
      let one : v.item ≡ old = ok_some (sym v.stored ∙ ap (λ j. lookup j s.outbox) same ∙ found) in
      inr (
        go v.item state v.owned (ap (λ (x : OutboxItem). x.state) one)
          (ap (λ (x : OutboxItem). x.claimed_by) one) v.handed)
]
  where
    ok_some : {a b : OutboxItem} → some a ≡ some b → a ≡ b
    ok_some e = cc

    go :
        (item : OutboxItem)
        → (is_handed old.state ≡ false) ⊎ (state_eqb old.state OutboxState.sending ≡ true)
        → (state_eqb item.state OutboxState.sending ≡ false) ⊎ (item.claimed_by ≡ other)
        → item.state ≡ old.state
        → item.claimed_by ≡ old.claimed_by
        → is_handed item.state ≡ true
        → other ≡ worker
    go item (inl fresh) o p q h = absurd (cc (rw p at h))
    go item (inr busy) (inl idle) p q h = absurd (cc (rw p at idle))
    go item (inr busy) (inr owner) p q h = sym owner ∙ q ∙ mine

pub sending_cases :
    (worker : Text) (item : OutboxItem) {item' : OutboxItem}
    → sending_item worker item ≡ ok item'
    → (item'.state ≡ OutboxState.sending)
      × (item'.claimed_by ≡ worker)
      × ((item.claimed_by ≡ worker)
          × ((is_handed item.state ≡ false) ⊎ (state_eqb item.state OutboxState.sending ≡ true)))
unfolding sending_item
sending_cases worker item h = ground (
  arith,
  text_eqb_iff item.claimed_by worker,
  state_eqb_sound item.state OutboxState.sending,
  state_eqb_sound item.state OutboxState.claimed,
)

-- What the start of a delivery finds and leaves.
pub sent_lem :
    (s t : MemoryStore) (k : ℕ) (worker : Text)
    → mark_outbox_sending s k worker ≡ ok t
    → WasSent t k worker
      × ((item : OutboxItem) × (lookup k s.outbox ≡ some item)
          × ((item.claimed_by ≡ worker)
              × ((is_handed item.state ≡ false)
                  ⊎ (state_eqb item.state OutboxState.sending ≡ true))))
unfolding mark_outbox_sending
sent_lem s t k worker h =
    let (item, e, h1) = bind-ok (or_fail (lookup k s.outbox) not_found) _ h in
    let (item', e', done) = bind-ok (sending_item worker item) _ h1 in
    let (now, owned, before) = sending_cases worker item e' in
    (
      ok_subst (λ x. WasSent x k worker) done
          (record {
            item = item';
            stored = lookup-insert_self k item' s.outbox;
            handed = rw now refl;
            owned = inr (owned);
          }),
      (item, or_fail-ok _ not_found e, before),
    )
