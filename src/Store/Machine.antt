-- ===== src/Store/Machine.antt =====
-- internal/store/memory.go as a state machine: one event for each call that may change the store,
-- with the time of the call. The mutex makes each call one step; a history is a list of events.
pub mod Valid
pub mod Frame
pub mod Progress
pub mod History
pub mod Step
use mysmpp.Base.{ℕ, List, [], ◌∷◌, Text, ℤ, Bool}
use mysmpp.Store.Types.{Message, Pending, OutboxItem, SubmitOptions, MemoryStore, Result, ok, err}
use mysmpp.Store.Messages.{save_message, update_message_sent, update_message_state}
use mysmpp.Store.Pendings.{
  check_idempotency, delete_pending, delete_pending_by_gateway_id, get_pending,
  list_pending_by_gateway_id, list_ready_dlr, mark_dlr_delivered, mark_dlr_ready, pending_size,
  save_idempotency, save_pending, sweep_expired_pending, update_pending_dlr,
}
use mysmpp.Store.Outbox.{enqueue_outbox, claim_outbox, complete_outbox_send, mark_outbox_sending}
use mysmpp.Store.Retries.{ack_outbox, fail_outbox, mark_outbox_uncertain, requeue_stale_outbox}
use mysmpp.Store.Submit.{submit_atomic, reserve_gateway_id_range}

pub data Event : Type 0 where
  saves_message : Message → Event
  updates_sent : Text → Text → Event
  updates_state : Text → Text → ℤ → Event
  saves_pending : Pending → Event
  updates_dlr : Text → Text → Text → ℤ → ℕ → Event
  readies_dlr : Text → Text → Text → ℤ → ℕ → Event
  delivers_dlr : Text → Text → Event
  lists_ready : Text → ℤ → Event
  gets_pending : Text → Text → Event
  lists_pending : Text → Event
  deletes_pending : Text → Text → Event
  deletes_by_gateway : Text → Event
  sweeps_expired : ℕ → Event
  counts_pending : Event
  reserves_ids : ℕ → Event
  enqueues : OutboxItem → Event
  claims : Text → ℤ → Event
  starts_sending : ℕ → Text → Event
  completes_send : ℕ → Text → List Pending → Event
  gives_up : ℕ → Text → Text → Event
  requeues_stale : ℕ → ℤ → Event
  acknowledges : ℕ → Event
  fails : ℕ → Text → ℕ → Event
  checks_idempotency : Text → Text → Event
  saves_idempotency : Text → Text → Text → ℤ → Event
  submits : Message → OutboxItem → SubmitOptions → Event

-- An error leaves the store as it is.
abbrev pub after : MemoryStore → Result MemoryStore → MemoryStore
after s (ok t) = t
after s (err e) = s

module _ (valid_date : Text → Bool) where
  unfoldable pub step : ℕ → MemoryStore → Event → MemoryStore
  step now s (saves_message msg) = after s (save_message s msg)
  step now s (updates_sent id provider_id) = after s (update_message_sent now s id provider_id)
  step now s (updates_state id state code) = after s (update_message_state now s id state code)
  step now s (saves_pending p) = save_pending now s p
  step now s (updates_dlr provider id state code done_at) =
      after s (update_pending_dlr s provider id state code done_at)
  step now s (readies_dlr provider id state code done_at) =
      after s (mark_dlr_ready s provider id state code done_at)
  step now s (delivers_dlr provider id) = after s (mark_dlr_delivered s provider id)
  step now s (lists_ready system_id limit) = (list_ready_dlr now s system_id limit).0
  step now s (gets_pending provider id) = (get_pending now s provider id).0
  step now s (lists_pending id) = (list_pending_by_gateway_id now s id).0
  step now s (deletes_pending provider id) = delete_pending s provider id
  step now s (deletes_by_gateway id) = delete_pending_by_gateway_id s id
  step now s (sweeps_expired before) = (sweep_expired_pending before s).0
  step now s counts_pending = (pending_size now s).0
  step now s (reserves_ids span) = (reserve_gateway_id_range s span).0
  step now s (enqueues item) = (enqueue_outbox now s item).0
  step now s (claims worker limit) = (claim_outbox now s worker limit).0
  step now s (starts_sending id worker) = after s (mark_outbox_sending s id worker)
  step now s (completes_send id worker ps) = after s (complete_outbox_send now s id worker ps)
  step now s (gives_up id worker message) = after s (mark_outbox_uncertain now s id worker message)
  step now s (requeues_stale before limit) = (requeue_stale_outbox before s limit).0
  step now s (acknowledges id) = after s (ack_outbox s id)
  step now s (fails id message next_retry_at) = after s (fail_outbox s id message next_retry_at)
  step now s (checks_idempotency client_id key) = (check_idempotency now s client_id key).0
  step now s (saves_idempotency client_id key id ttl) = save_idempotency now s client_id key id ttl
  step now s (submits msg item opts) = (submit_atomic valid_date now s msg item opts).0

  unfoldable pub run : MemoryStore → List (ℕ × Event) → MemoryStore
  run s [] = s
  run s ((now, e) ∷ es) = run (step now s e) es
