-- ===== src/Store/Outbox/Moves.antt =====
-- The moves of one outbox item of internal/store/memory.go: its state, its id and its message.
use mysmpp.Base.{◌≡◌, text_eq, Text, arith, refl, true, ℕ, ◌⊎◌, inl, inr, sym, false}
use mysmpp.Store.Types.{OutboxItem, OutboxState, ok, state_eqb}
use mysmpp.Store.Outbox.{sending_item}
use mysmpp.Store.Retries.{fail_item}

-- The edges of the outbox state machine.
pub data Move : OutboxState → OutboxState → Type 0 where
  stay : {a b : OutboxState} → a ≡ b → Move a b
  claims : {a b : OutboxState} → a ≡ OutboxState.pending → b ≡ OutboxState.claimed → Move a b
  sends : {a b : OutboxState} → a ≡ OutboxState.claimed → b ≡ OutboxState.sending → Move a b
  returns : {a b : OutboxState} → a ≡ OutboxState.claimed → b ≡ OutboxState.pending → Move a b
  acknowledges : {a b : OutboxState} → a ≡ OutboxState.claimed → b ≡ OutboxState.done → Move a b
  completes : {a b : OutboxState} → a ≡ OutboxState.sending → b ≡ OutboxState.done → Move a b
  abandons :
      {a b : OutboxState}
      → (a ≡ OutboxState.sending) ⊎ (a ≡ OutboxState.uncertain)
      → b ≡ OutboxState.uncertain
      → Move a b
  fails :
      {a b : OutboxState}
      → (a ≡ OutboxState.claimed) ⊎ (a ≡ OutboxState.sending)
      → b ≡ OutboxState.failed
      → Move a b

-- A state test tells the state.
pub state_eqb_sound : (a b : OutboxState) → state_eqb a b ≡ true → a ≡ b
state_eqb_sound OutboxState.unset OutboxState.unset h = refl
state_eqb_sound OutboxState.pending OutboxState.pending h = refl
state_eqb_sound OutboxState.claimed OutboxState.claimed h = refl
state_eqb_sound OutboxState.sending OutboxState.sending h = refl
state_eqb_sound OutboxState.done OutboxState.done h = refl
state_eqb_sound OutboxState.uncertain OutboxState.uncertain h = refl
state_eqb_sound OutboxState.failed OutboxState.failed h = refl
state_eqb_sound (OutboxState.other m) (OutboxState.other n) h = ground arith
state_eqb_sound _ _ h = absurd (cc)

-- One move of an item. An item that is in sending afterwards belongs to the worker that it had.
abbrev pub Moved : OutboxItem → OutboxItem → Type 0
Moved a b =
    Move a.state b.state
    × ((state_eqb b.state OutboxState.sending ≡ false) ⊎ (b.claimed_by ≡ a.claimed_by))

abbrev Sends : OutboxState → OutboxState → Type 0
Sends a b = (b ≡ a) ⊎ ((state_eqb a OutboxState.claimed ≡ true) × (b ≡ OutboxState.sending))

sent_item :
    (worker : Text) (item : OutboxItem) {item' : OutboxItem}
    → sending_item worker item ≡ ok item'
    → (item'.id ≡ item.id) × Sends item.state item'.state × (item'.claimed_by ≡ item.claimed_by)
unfolding sending_item
sent_item worker item h = ground arith

pub sending_item-Move :
    (worker : Text) (item : OutboxItem) {item' : OutboxItem}
    → sending_item worker item ≡ ok item'
    → (item'.id ≡ item.id) × Moved item item'
unfolding sending_item
sending_item-Move worker item h =
    let (same, cases, owner) = sent_item worker item h in (same, (go cases, inr owner))
  where
    go : {b : OutboxState} → Sends item.state b → Move item.state b
    go (inl e) = stay (sym e)
    go (inr (c, e)) = sends (state_eqb_sound _ _ c) e

-- A failed item is final, or goes back to pending from the claim.
abbrev Outcome : OutboxState → OutboxState → Type 0
Outcome a b =
    ((b ≡ OutboxState.failed)
      × ((state_eqb a OutboxState.claimed ≡ true) ⊎ (state_eqb a OutboxState.sending ≡ true)))
    ⊎ ((b ≡ OutboxState.pending) × (state_eqb a OutboxState.claimed ≡ true))

failed_item :
    (message : Text) (next_retry_at : ℕ) (item : OutboxItem) {item' : OutboxItem}
    → fail_item message next_retry_at item ≡ ok item'
    → (item'.id ≡ item.id) × Outcome item.state item'.state
unfolding fail_item
failed_item message next_retry_at item h = ground arith

pub fail_item-Move :
    (message : Text) (next_retry_at : ℕ) (item : OutboxItem) {item' : OutboxItem}
    → fail_item message next_retry_at item ≡ ok item'
    → (item'.id ≡ item.id) × Moved item item'
unfolding fail_item
fail_item-Move message next_retry_at item h =
    let (same, cases) = failed_item message next_retry_at item h in
    (same, (go cases, inl (rest cases)))
  where
    go : {b : OutboxState} → Outcome item.state b → Move item.state b
    go (inl (final, inl c)) = fails (inl (state_eqb_sound _ _ c)) final
    go (inl (final, inr c)) = fails (inr (state_eqb_sound _ _ c)) final
    go (inr (again, c)) = returns (state_eqb_sound _ _ c) again

    rest : {b : OutboxState} → Outcome item.state b → state_eqb b OutboxState.sending ≡ false
    rest (inl (final, c)) = rw final refl
    rest (inr (again, c)) = rw again refl
