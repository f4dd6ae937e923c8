-- ===== src/Store/Machine/Step.antt =====
-- The outbox items of internal/store/memory.go under each event of the machine.
use mysmpp.Store.Outbox.Moves.{Moved, Move, fail_item-Move, sending_item-Move, state_eqb_sound}
use mysmpp.Store.Valid.Submit.{accepts, refuses, repeats, submit_atomic_cases, saved_lem}
use mysmpp.Base.{
  ◌≡◌, nat_eq, text_eq, Bool, Bool-cases, List, Option-cases, Text, ap, arith, inl, inr, insert,
  lookup, none, refl, some, sym, ℕ, ◌+◌, ◌<◌, ◌^◌, ◌∙◌, ◌≤◌,
}
use mysmpp.Store.Types.{
  MemoryStore, Message, OutboxItem, OutboxState, Pending, Result, SubmitOptions, bind-ok, err,
  not_found, ok, ok_subst, or_fail, or_fail-ok, state_eqb,
}
use mysmpp.Store.Machine.{
  step, after, Event, acknowledges, checks_idempotency, claims, completes_send, counts_pending,
  deletes_by_gateway, deletes_pending, delivers_dlr, enqueues, fails, gets_pending, gives_up,
  lists_pending, lists_ready, readies_dlr, requeues_stale, reserves_ids, saves_idempotency,
  saves_message, saves_pending, starts_sending, submits, sweeps_expired, updates_dlr, updates_sent,
  updates_state,
}
use mysmpp.Store.Outbox.{
  enqueue_outbox, claim_outbox, complete_outbox_send, finish_item, mark_outbox_sending, next_id,
  prepare_item, sending_item,
}
use mysmpp.Store.Outbox.Complete.{complete_claimed-cases, give_up-ok}
use mysmpp.Store.Retries.{
  ack_outbox, ack_item, fail_item, fail_outbox, mark_outbox_uncertain, requeue_stale_outbox,
  uncertain_item,
}
use mysmpp.Store.Valid.{IsValid}
use mysmpp.Store.Valid.Pendings.{sweep-IsValid}
use mysmpp.Store.Submit.{submit_atomic, reserve_gateway_id_range}
use mysmpp.Store.Pendings.{
  sweep, delete_pending, delete_pending_by_gateway_id, list_pending_by_gateway_id, list_ready_dlr,
  pending_size, save_pending, sweep_expired_pending,
}
use mysmpp.Store.Machine.Frame.{
  Frame, check_idempotency-Frame, get_pending-Frame, mark_unknown-Frame, save_idempotency-Frame,
  save_message-Frame, sweep-Frame, update_message_sent-Frame, update_message_state-Frame,
  mark_dlr_delivered-Frame, mark_dlr_ready-Frame, update_pending_dlr-Frame,
}
use mysmpp.Store.Machine.Progress.{
  Moves, Moves-refl, claim_outbox-Moves, fresh-Moves, insert-Moves, requeue_stale_outbox-Moves,
}
use mathlib.Core.Path.{subst}

-- The items move, and the counter goes up by one at most.
pub record Advances (s t : MemoryStore) : Type 0 where
  pub moves : Moves s.outbox t.outbox
  pub grows : t.next_outbox ≤ s.next_outbox + 1

Frame-Advances : (s t : MemoryStore) → Frame s t → Advances s t
Frame-Advances s t (o, n) = record {
  moves = subst (Moves s.outbox) (sym o) (Moves-refl s.outbox);
  grows = omega (arith, n);
}

after-Advances :
    (s : MemoryStore) (r : Result MemoryStore)
    → ((t : MemoryStore) → r ≡ ok t → Advances s t)
    → Advances s (after s r)
after-Advances s (ok t) f = f t refl
after-Advances s (err e) f = Frame-Advances s s (refl, refl)

put-Advances :
    (s : MemoryStore) (id : ℕ) (old new : OutboxItem)
    → lookup id s.outbox ≡ some old
    → Moved old new
    → Advances s (record s { outbox = insert id new s.outbox })
put-Advances s id old new hit mv = record {
  moves = insert-Moves s.outbox s.outbox id old new (Moves-refl s.outbox) hit mv;
  grows = omega arith;
}

mark_outbox_sending-Advances :
    (s : MemoryStore) (id : ℕ) (worker : Text) {t : MemoryStore}
    → mark_outbox_sending s id worker ≡ ok t
    → Advances s t
unfolding mark_outbox_sending
mark_outbox_sending-Advances s id worker h =
    let (item, e, h1) = bind-ok (or_fail (lookup id s.outbox) not_found) _ h in
    let (item', e', done) = bind-ok (sending_item worker item) _ h1 in
    ok_subst (Advances s) done
      (put-Advances s id item item' (or_fail-ok _ not_found e) (sending_item-Move worker item e').1)

ack_outbox-Advances :
    (s : MemoryStore) (id : ℕ) {t : MemoryStore} → ack_outbox s id ≡ ok t → Advances s t
unfolding ack_outbox finish_item
ack_outbox-Advances s id h =
    let (item, e, h1) = bind-ok (or_fail (lookup id s.outbox) not_found) _ h in
    elim (Bool-cases (state_eqb item.state OutboxState.claimed)) [
      | inl good ↦ ok_subst (Advances s) (rw (good, ack_item) at h1) (
          put-Advances s id item (finish_item item) (or_fail-ok _ not_found e)
            (Move.acknowledges (state_eqb_sound _ _ good) refl, inl refl))
      | inr bad ↦ absurd (cc (rw (bad, ack_item) at h1))
    ]

fail_outbox-Advances :
    (s : MemoryStore) (id : ℕ) (message : Text) (next_retry_at : ℕ) {t : MemoryStore}
    → fail_outbox s id message next_retry_at ≡ ok t
    → Advances s t
unfolding fail_outbox
fail_outbox-Advances s id message next_retry_at h =
    let (item, e, h1) = bind-ok (or_fail (lookup id s.outbox) not_found) _ h in
    let (item', e', done) = bind-ok (fail_item message next_retry_at item) _ h1 in
    ok_subst (Advances s) done (
      put-Advances s id item item' (or_fail-ok _ not_found e)
        (fail_item-Move message next_retry_at item e').1)

complete_outbox_send-Advances :
    (now : ℕ) (s : MemoryStore) (id : ℕ) (worker : Text) (ps : List Pending) {t : MemoryStore}
    → complete_outbox_send now s id worker ps ≡ ok t
    → Advances s t
unfolding complete_outbox_send finish_item
complete_outbox_send-Advances now s id worker ps {t} h =
    let (item, e, h1) = bind-ok (or_fail (lookup id s.outbox) not_found) _ h in
    let hit = or_fail-ok _ not_found e in
    elim (complete_claimed-cases now s id worker ps item h1) [
      | inl (d, same) ↦
          Frame-Advances s t
            (ap (λ (x : MemoryStore). x.outbox) same, ap (λ (x : MemoryStore). x.next_outbox) same)
      | inr (sending, mine, c) ↦ subst (Advances s) (sym c.result) (record {
        moves =
            (put-Advances s id item (finish_item item) hit
              (Move.completes sending refl, inl refl)).moves;
        grows = omega arith;
      })
    ]

mark_outbox_uncertain-Advances :
    (now : ℕ) (s : MemoryStore) (id : ℕ) (worker message : Text) {t : MemoryStore}
    → mark_outbox_uncertain now s id worker message ≡ ok t
    → Advances s t
unfolding mark_outbox_uncertain
mark_outbox_uncertain-Advances now s id worker message {t} h =
    let (item, e, h1) = bind-ok (or_fail (lookup id s.outbox) not_found) _ h in
    let (state, mine, done) = give_up-ok now s id worker message item h1 in
    let w =
      put-Advances s id item (uncertain_item message item) (or_fail-ok _ not_found e)
        (Move.abandons state refl, inl refl) in
    let (o, n) = mark_unknown-Frame now _ item.gateway_id done in
    record { moves = subst (Moves s.outbox) (sym o) w.moves; grows = omega (arith, n, w.grows) }

-- The next id is not in use.
pub fresh_id :
    (s : MemoryStore) → s.next_outbox + 1 < 2 ^ 64 → IsValid s → lookup (next_id s) s.outbox ≡ none
fresh_id s room v = elim (Option-cases (lookup (next_id s) s.outbox)) [
  | inl free ↦ free
  | inr (item, used) ↦ absurd (omega (arith, v.keyed.own (next_id s) item used))
]

enqueue_outbox-Advances :
    (now : ℕ) (s : MemoryStore) (item : OutboxItem)
    → s.next_outbox + 1 < 2 ^ 64
    → IsValid s
    → Advances s (enqueue_outbox now s item).0
unfolding enqueue_outbox
enqueue_outbox-Advances now s item room v = record {
  moves = fresh-Moves s.outbox (next_id s) (prepare_item now (next_id s) item) (fresh_id s room v);
  grows = omega arith;
}

submit_atomic-Advances :
    (valid_date : Text → Bool) (now : ℕ) (s : MemoryStore) (msg : Message) (item : OutboxItem)
    (opts : SubmitOptions)
    → s.next_outbox + 1 < 2 ^ 64
    → IsValid s
    → Advances s (submit_atomic valid_date now s msg item opts).0
submit_atomic-Advances valid_date now s msg item opts room v =
    let (o, n) = sweep-Frame now s in
    elim (submit_atomic_cases valid_date now s msg item opts) [
      | repeats id again same answer ↦ Frame-Advances s _ (
        ap (λ (x : MemoryStore). x.outbox) same ∙ o,
        ap (λ (x : MemoryStore). x.next_outbox) same ∙ n,
      )
      | refuses e first bad same answer ↦ Frame-Advances s _ (
        ap (λ (x : MemoryStore). x.outbox) same ∙ o,
        ap (λ (x : MemoryStore). x.next_outbox) same ∙ n,
      )
      | accepts r first c answer ↦
          let (w, n', o') =
            saved_lem valid_date now (sweep now s) msg item opts (sweep-IsValid now s v) c in
          let a = enqueue_outbox-Advances now c.saved item (omega (arith, n, n')) w in
          subst (Advances s) (sym c.queue) (record {
            moves =
                subst (λ m. Moves m (enqueue_outbox now c.saved item).0.outbox) (o' ∙ o) a.moves;
            grows = omega (arith, n, n', a.grows);
          })
    ]

module _ (valid_date : Text → Bool) where
  -- In a valid store with room for an id, every call keeps each outbox item in its place or moves it
  -- along one edge of the item's state machine, where an item in sending stays with its worker, and
  -- takes at most one new id.
  pub step-Advances :
      (now : ℕ) (s : MemoryStore) (e : Event)
      → s.next_outbox + 1 < 2 ^ 64
      → IsValid s
      → Advances s (step valid_date now s e)
  unfolding step pending_size list_ready_dlr list_pending_by_gateway_id save_pending delete_pending
      delete_pending_by_gateway_id sweep_expired_pending reserve_gateway_id_range claim_outbox
      requeue_stale_outbox
  step-Advances now s (saves_message msg) room v =
      after-Advances s _ λ t h. Frame-Advances s t (save_message-Frame s msg h)
  step-Advances now s (updates_sent id provider_id) room v =
      after-Advances s _
        λ t h. Frame-Advances s t (update_message_sent-Frame now s id provider_id h)
  step-Advances now s (updates_state id state code) room v =
      after-Advances s _
        λ t h. Frame-Advances s t (update_message_state-Frame now s id state code h)
  step-Advances now s (saves_pending p) room v = Frame-Advances s _ (sweep-Frame now s)
  step-Advances now s (updates_dlr provider id state code done_at) room v =
      after-Advances s _
        λ t h. Frame-Advances s t (update_pending_dlr-Frame s provider id state code done_at h)
  step-Advances now s (readies_dlr provider id state code done_at) room v =
      after-Advances s _
        λ t h. Frame-Advances s t (mark_dlr_ready-Frame s provider id state code done_at h)
  step-Advances now s (delivers_dlr provider id) room v =
      after-Advances s _ λ t h. Frame-Advances s t (mark_dlr_delivered-Frame s provider id h)
  step-Advances now s (lists_ready system_id limit) room v = Frame-Advances s _ (sweep-Frame now s)
  step-Advances now s (gets_pending provider id) room v =
      Frame-Advances s _ (get_pending-Frame now s provider id)
  step-Advances now s (lists_pending id) room v = Frame-Advances s _ (sweep-Frame now s)
  step-Advances now s (deletes_pending provider id) room v = Frame-Advances s _ (refl, refl)
  step-Advances now s (deletes_by_gateway id) room v = Frame-Advances s _ (refl, refl)
  step-Advances now s (sweeps_expired before) room v = Frame-Advances s _ (refl, refl)
  step-Advances now s counts_pending room v = Frame-Advances s _ (sweep-Frame now s)
  step-Advances now s (reserves_ids span) room v = Frame-Advances s _ (refl, refl)
  step-Advances now s (enqueues item) room v = enqueue_outbox-Advances now s item room v
  step-Advances now s (claims worker limit) room v = record {
    moves = claim_outbox-Moves now s worker limit v;
    grows = omega arith;
  }
  step-Advances now s (starts_sending id worker) room v =
      after-Advances s _ λ t h. mark_outbox_sending-Advances s id worker h
  step-Advances now s (completes_send id worker ps) room v =
      after-Advances s _ λ t h. complete_outbox_send-Advances now s id worker ps h
  step-Advances now s (gives_up id worker message) room v =
      after-Advances s _ λ t h. mark_outbox_uncertain-Advances now s id worker message h
  step-Advances now s (requeues_stale before limit) room v = record {
    moves = requeue_stale_outbox-Moves before s limit v;
    grows = omega arith;
  }
  step-Advances now s (acknowledges id) room v =
      after-Advances s _ λ t h. ack_outbox-Advances s id h
  step-Advances now s (fails id message next_retry_at) room v =
      after-Advances s _ λ t h. fail_outbox-Advances s id message next_retry_at h
  step-Advances now s (checks_idempotency client_id key) room v =
      Frame-Advances s _ (check_idempotency-Frame now s client_id key)
  step-Advances now s (saves_idempotency client_id key id ttl) room v =
      Frame-Advances s _ (save_idempotency-Frame now s client_id key id ttl)
  step-Advances now s (submits msg item opts) room v =
      submit_atomic-Advances valid_date now s msg item opts room v
