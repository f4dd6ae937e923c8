-- ===== src/Store/Machine/Valid.antt =====
-- The invariant of internal/store/memory.go along a call and a history.
use mysmpp.Base.{◌≡◌, Bool, Text, refl, ℕ, ◌+◌, ◌<◌, ◌^◌}
use mysmpp.Store.Types.{MemoryStore, Result, err, ok}
use mysmpp.Store.Machine.{
  step, Event, acknowledges, after, checks_idempotency, claims, completes_send, counts_pending,
  deletes_by_gateway, deletes_pending, delivers_dlr, enqueues, fails, gets_pending, gives_up,
  lists_pending, lists_ready, readies_dlr, requeues_stale, reserves_ids, saves_idempotency,
  saves_message, saves_pending, starts_sending, submits, sweeps_expired, updates_dlr, updates_sent,
  updates_state,
}
use mysmpp.Store.Valid.{IsValid}
use mysmpp.Store.Valid.Messages.{
  save_message-IsValid, update_message_sent-IsValid, update_message_state-IsValid,
}
use mysmpp.Store.Valid.Pendings.{
  sweep-IsValid, check_idempotency-IsValid, delete_pending-IsValid,
  delete_pending_by_gateway_id-IsValid, get_pending-IsValid, list_pending_by_gateway_id-IsValid,
  list_ready_dlr-IsValid, mark_dlr_delivered-IsValid, mark_dlr_ready-IsValid,
  save_idempotency-IsValid, save_pending-IsValid, sweep_expired_pending-IsValid,
  update_pending_dlr-IsValid,
}
use mysmpp.Store.Valid.Outbox.{
  enqueue_outbox-IsValid, ack_outbox-IsValid, claim_outbox-IsValid, complete_outbox_send-IsValid,
  fail_outbox-IsValid, mark_outbox_sending-IsValid, mark_outbox_uncertain-IsValid,
  requeue_stale_outbox-IsValid,
}
use mysmpp.Store.Valid.Submit.{submit_atomic-IsValid}
use mysmpp.Store.Submit.{reserve_gateway_id_range}
use mysmpp.Store.Pendings.{pending_size}

after-IsValid :
    (s : MemoryStore) (r : Result MemoryStore)
    → IsValid s
    → ((t : MemoryStore) → r ≡ ok t → IsValid t)
    → IsValid (after s r)
after-IsValid s (ok t) v f = f t refl
after-IsValid s (err e) v f = v

reserve-IsValid :
    (s : MemoryStore) (span : ℕ) → IsValid s → IsValid (reserve_gateway_id_range s span).0
unfolding reserve_gateway_id_range
reserve-IsValid s span v = record {
  indexed = v.indexed;
  keyed = v.keyed;
  receipts = v.receipts;
  idempotency_dict = v.idempotency_dict;
}

module _ (valid_date : Text → Bool) where
  -- One call keeps the store valid if the outbox counter has room for one more id.
  pub step-IsValid :
      (now : ℕ) (s : MemoryStore) (e : Event)
      → s.next_outbox + 1 < 2 ^ 64
      → IsValid s
      → IsValid (step valid_date now s e)
  unfolding step pending_size
  step-IsValid now s (saves_message msg) room v =
      after-IsValid s _ v λ t h. save_message-IsValid s msg v h
  step-IsValid now s (updates_sent id provider_id) room v =
      after-IsValid s _ v λ t h. update_message_sent-IsValid now s id provider_id v h
  step-IsValid now s (updates_state id state code) room v =
      after-IsValid s _ v λ t h. update_message_state-IsValid now s id state code v h
  step-IsValid now s (saves_pending p) room v = save_pending-IsValid now s p v
  step-IsValid now s (updates_dlr provider id state code done_at) room v =
      after-IsValid s _ v λ t h. update_pending_dlr-IsValid s provider id state code done_at v h
  step-IsValid now s (readies_dlr provider id state code done_at) room v =
      after-IsValid s _ v λ t h. mark_dlr_ready-IsValid s provider id state code done_at v h
  step-IsValid now s (delivers_dlr provider id) room v =
      after-IsValid s _ v λ t h. mark_dlr_delivered-IsValid s provider id v h
  step-IsValid now s (lists_ready system_id limit) room v =
      list_ready_dlr-IsValid now s system_id limit v
  step-IsValid now s (gets_pending provider id) room v = get_pending-IsValid now s provider id v
  step-IsValid now s (lists_pending id) room v = list_pending_by_gateway_id-IsValid now s id v
  step-IsValid now s (deletes_pending provider id) room v = delete_pending-IsValid s provider id v
  step-IsValid now s (deletes_by_gateway id) room v = delete_pending_by_gateway_id-IsValid s id v
  step-IsValid now s (sweeps_expired before) room v = sweep_expired_pending-IsValid before s v
  step-IsValid now s counts_pending room v = sweep-IsValid now s v
  step-IsValid now s (reserves_ids span) room v = reserve-IsValid s span v
  step-IsValid now s (enqueues item) room v = enqueue_outbox-IsValid now s item room v
  step-IsValid now s (claims worker limit) room v = claim_outbox-IsValid now s worker limit v
  step-IsValid now s (starts_sending id worker) room v =
      after-IsValid s _ v λ t h. mark_outbox_sending-IsValid s id worker v h
  step-IsValid now s (completes_send id worker ps) room v =
      after-IsValid s _ v λ t h. complete_outbox_send-IsValid now s id worker ps v h
  step-IsValid now s (gives_up id worker message) room v =
      after-IsValid s _ v λ t h. mark_outbox_uncertain-IsValid now s id worker message v h
  step-IsValid now s (requeues_stale before limit) room v =
      requeue_stale_outbox-IsValid before s limit v
  step-IsValid now s (acknowledges id) room v =
      after-IsValid s _ v λ t h. ack_outbox-IsValid s id v h
  step-IsValid now s (fails id message next_retry_at) room v =
      after-IsValid s _ v λ t h. fail_outbox-IsValid s id message next_retry_at v h
  step-IsValid now s (checks_idempotency client_id key) room v =
      check_idempotency-IsValid now s client_id key v
  step-IsValid now s (saves_idempotency client_id key id ttl) room v =
      save_idempotency-IsValid now s client_id key id ttl v
  step-IsValid now s (submits msg item opts) room v =
      submit_atomic-IsValid valid_date now s msg item opts v room
