-- ===== src/Store/Outbox/Complete.antt =====
-- What `CompleteOutboxSend` of internal/store/memory.go writes.
use mysmpp.Store.Retries.{give_up, mark_unknown, uncertain_item}
use mysmpp.Store.Outbox.Moves.{state_eqb_sound}
use mysmpp.Store.Messages.Keep.{write_at-ok}
use mysmpp.Store.Messages.{write_at}
use mysmpp.Base.{
  ◌≡◌, text_eq, nat_eq, List, get_elem?, insert, lookup, set, some, ℕ, ◌∷◌, Bool-cases, Text,
  and-true, arith, inl, inr, refl, sym, text_eqb, text_eqb_iff, ◌&&◌, ◌∙◌, ◌⊎◌,
}
use mysmpp.Store.Types.{
  Pending, MemoryStore, Message, OutboxItem, bind-ok, not_found, ok, or_fail, or_fail-ok,
  out_of_range, OutboxState, ok_subst, state_eqb,
}
use mysmpp.Store.Outbox.{
  complete_item, finish_item, sent_message, validate_completion, write_pendings, complete_claimed,
  complete_outbox_send,
}

-- The store after a completed send.
abbrev pub completed :
    ℕ → MemoryStore → ℕ → OutboxItem → ℕ → Message → Pending → List Pending → MemoryStore
completed now s id item i msg first rest = record s {
  messages = set s.messages i (sent_message now first.provider_id msg);
  pending = write_pendings (first ∷ rest) s.pending;
  outbox = insert id (finish_item item) s.outbox;
}

-- A completion that succeeds found the message of the item and at least one record.
pub record Completes (now : ℕ) (s : MemoryStore) (id : ℕ) (item : OutboxItem) (ps : List Pending)
    (t : MemoryStore) : Type 0 where
  pub first : Pending
  pub rest : List Pending
  pub place : ℕ
  pub message : Message
  pub checked : validate_completion item ps ≡ ok (first, rest)
  pub indexed : lookup item.gateway_id s.message_by_id ≡ some place
  pub stored : get_elem? s.messages place ≡ some message
  pub result : t ≡ completed now s id item place message first rest

pub complete_item-Completes :
    (now : ℕ) (s : MemoryStore) (id : ℕ) (item : OutboxItem) (ps : List Pending) {t : MemoryStore}
    → complete_item now s id item ps ≡ ok t
    → Completes now s id item ps t
unfolding complete_item
complete_item-Completes now s id item ps {t} h =
    let ((first, rest), e0, h0) = bind-ok (validate_completion item ps) _ h in
    let (i, e1, h1) = bind-ok (or_fail (lookup item.gateway_id s.message_by_id) not_found) _ h0 in
    let (msg, e2, h2) = bind-ok (or_fail (get_elem? s.messages i) out_of_range) _ h1 in
    let (s', e3, h3) = bind-ok (write_at s i (sent_message now first.provider_id msg)) _ h2 in
    let g = or_fail-ok _ out_of_range e2 in
    record {
      first = first;
      rest = rest;
      place = i;
      message = msg;
      checked = e0;
      indexed = or_fail-ok _ not_found e1;
      stored = g;
      result =
          ok_subst (λ x. x ≡ completed now s id item i msg first rest) h3
            (ok_subst
              (λ (x : MemoryStore).
                record x {
                  pending = write_pendings (first ∷ rest) s.pending;
                  outbox = insert id (finish_item item) s.outbox;
                }
                ≡ completed now s id item i msg first rest)
              (sym (write_at-ok s i msg (sent_message now first.provider_id msg) g) ∙ e3) refl);
    }

-- A completion that is accepted is a repeated one, or the worker had the item in sending.
pub complete_claimed-cases :
    (now : ℕ) (s : MemoryStore) (id : ℕ) (worker : Text) (ps : List Pending) (item : OutboxItem)
    {t : MemoryStore}
    → complete_claimed now s id worker ps item ≡ ok t
    → ((item.state ≡ OutboxState.done) × (t ≡ s))
      ⊎ ((item.state ≡ OutboxState.sending)
          × (item.claimed_by ≡ worker)
          × Completes now s id item ps t)
unfolding complete_claimed
complete_claimed-cases now s id worker ps item h =
    elim (Bool-cases (state_eqb item.state OutboxState.done)) [
      | inl d ↦ inl (state_eqb_sound _ _ d, ok_subst (λ x. x ≡ s) (rw d at h) refl)
      | inr n ↦
          let test = state_eqb item.state OutboxState.sending && text_eqb item.claimed_by worker in
          elim (Bool-cases test) [
            | inl mine ↦
                let (a, b) = and-true _ _ mine in
                inr (
                  state_eqb_sound _ _ a,
                  (text_eqb_iff _ _).0 b,
                  complete_item-Completes now s id item ps (rw (n, mine) at h),
                )
            | inr other ↦ absurd (cc (rw (n, other) at h))
          ]
    ]

-- A worker gives up on an item that is its own and sending, or uncertain already.
pub give_up-ok :
    (now : ℕ) (s : MemoryStore) (id : ℕ) (worker message : Text) (item : OutboxItem)
    {t : MemoryStore}
    → give_up now s id worker message item ≡ ok t
    → ((item.state ≡ OutboxState.sending) ⊎ (item.state ≡ OutboxState.uncertain))
      × (item.claimed_by ≡ worker)
      × (mark_unknown now
            (record s { outbox = insert id (uncertain_item message item) s.outbox })
            item.gateway_id
          ≡ ok t)
unfolding give_up
give_up-ok now s id worker message item h = ground (
  arith,
  state_eqb_sound item.state OutboxState.sending,
  state_eqb_sound item.state OutboxState.uncertain,
  text_eqb_iff item.claimed_by worker,
)

-- A completion that is accepted names a stored item. Either that is done already, and the store stays
-- as it is; or the worker had it in sending, the records are for it, and the item is done, the
-- message sent and the records kept in one step.
pub complete_outbox_send_lem :
    (now : ℕ) (s t : MemoryStore) (id : ℕ) (worker : Text) (ps : List Pending)
    → complete_outbox_send now s id worker ps ≡ ok t
    → (item : OutboxItem) × (lookup id s.outbox ≡ some item)
      × (((item.state ≡ OutboxState.done) × (t ≡ s))
          ⊎ ((item.state ≡ OutboxState.sending)
              × (item.claimed_by ≡ worker)
              × Completes now s id item ps t))
unfolding complete_outbox_send
complete_outbox_send_lem now s t id worker ps h =
    let (item, e, h1) = bind-ok (or_fail (lookup id s.outbox) not_found) _ h in
    (item, or_fail-ok _ not_found e, complete_claimed-cases now s id worker ps item h1)
