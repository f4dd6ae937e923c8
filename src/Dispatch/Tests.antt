-- ===== src/Dispatch/Tests.antt =====
-- Tests of internal/dispatch/idalloc.go and internal/dispatch/dispatcher.go on concrete data.
use mysmpp.Dispatch.Worker.Settles.{SettledBy, process_outbox_settles}
use mysmpp.Store.Examples.{
  first_message, first_item, options, answer, item_in_sending, worker, valid_date, submitted_store,
  submitted_store-IsValid,
}
use mysmpp.Store.Machine.History.{run-IsValid}
use mysmpp.Store.Machine.{run, Event, step}
use mysmpp.Base.{
  some, false, Text, ◌+◌, text_eq, true, ◌≡◌, List, [], ◌∷◌, codes, pos, refl, lookup, insert,
  retain, nat_eq, arith,
}
use mysmpp.Store.Valid.{IsValid, new_memory-IsValid}
use mysmpp.Store.Messages.{update_message_state}
use mysmpp.Dispatch.Receipts.Kept.{IsKept, handle_dlr-IsKept}
use mysmpp.Dispatch.Receipts.{
  deferred, waiting, handle_dlr, deliver_receipt, conclude, scan_segments, scan_segment,
  is_final_dlr_state, is_final_state, dlr_failure_rank, PushAnswer, acked, returns, flush_dlr,
  aggregate_dlr,
}
use mysmpp.Dispatch.Worker.{Dlr, retry_transition, process_outbox, accepted}
use mysmpp.Store.Pendings.{
  get_pending, update_pending_dlr, list_pending_by_gateway_id, mark_dlr_ready, pending_key,
  normalize_pending,
}
use mysmpp.Dispatch.Receipts.Verdict.{IsVerdict, aggregate_dlr-IsVerdict}
use mysmpp.Dispatch.Receipts.Flush.{flush_dlr_terminates}
use mysmpp.Dispatch.Receipts.Counts.{ready_count}
use mysmpp.Store.Types.{MemoryStore, Pending, OutboxItem, OutboxState, new_memory}
use mysmpp.Store.Submit.{submit_atomic}
use mysmpp.Store.Outbox.{claim_outbox, mark_outbox_sending}
use mysmpp.Store.Retries.{requeue_stale_outbox}
use mysmpp.Dispatch.Worker.Delivery.{act_all-OneWorker}
use mysmpp.Dispatch.Worker.World.{Act, OneWorker, act_all}
use mysmpp.Dispatch.Worker.Runs.{Processes, process_outbox-Runs}
use mysmpp.Dispatch.Ids.{
  Ascends, IdAllocator, IsReserved, gateway_ids, gateway_ids-Ascends, new_id_allocator,
}

abbrev allocator : IdAllocator
allocator = new_id_allocator 3

allocator-IsReserved : IsReserved allocator new_memory
unfolding new_id_allocator new_memory
allocator-IsReserved = record { within = omega arith; place = omega arith; spans = omega arith }

-- Seven ids, so that the range is refilled twice.
gateway_ids-Ascends_example : Ascends allocator.next (gateway_ids 7 allocator new_memory)
unfolding new_id_allocator new_memory
gateway_ids-Ascends_example =
    gateway_ids-Ascends 7 allocator new_memory allocator-IsReserved (omega arith)

-- The submitted item once the worker has it.
abbrev claimed_item : OutboxItem
claimed_item = record item_in_sending { state = OutboxState.claimed }

-- The worker comes with its item, then again, and another one with a forged claim.
abbrev acts : List Act
acts =
    Act.calls 6 (Event.claims worker (pos 1))
    ∷ Act.delivers claimed_item
    ∷ Act.delivers claimed_item
    ∷ Act.delivers (record claimed_item { claimed_by = codes "v" })
    ∷ Act.calls 9 (Event.requeues_stale 100 (pos 5))
    ∷ []

one_submitted : submitted_store.next_outbox ≡ 1
unfolding submit_atomic new_memory lookup insert retain
one_submitted = refl

two_sent :
    (act_all valid_date (record { store = submitted_store; sent = [] }) acts).sent
    ≡ (1, worker) ∷ (1, worker) ∷ []
unfolding act_all step submit_atomic claim_outbox mark_outbox_sending retry_transition new_memory
    lookup insert retain requeue_stale_outbox
two_sent = refl

act_all-OneWorker_example :
    OneWorker (act_all valid_date (record { store = submitted_store; sent = [] }) acts).sent
act_all-OneWorker_example =
    act_all-OneWorker valid_date submitted_store acts (omega (arith, one_submitted))
      submitted_store-IsValid

process_outbox-Runs_example :
    Processes valid_date true claimed_item submitted_store
      (process_outbox 9 100 0 true (accepted (codes "x9" ∷ [])) claimed_item submitted_store).0
process_outbox-Runs_example =
    process_outbox-Runs valid_date 9 100 0 true (accepted (codes "x9" ∷ [])) claimed_item
      submitted_store

-- A receipt that waits, for a store of its own.
abbrev waiting_receipt : Pending
waiting_receipt = record answer {
  dlr_ready = true;
  dlr_state = codes "UNDELIV";
  source_system = codes "acme";
}

abbrev receipt_store : MemoryStore
receipt_store = record new_memory {
  pending = (pending_key (codes "p") (codes "x9"), waiting_receipt) ∷ [];
}

abbrev plain : Text → Text
plain s = s

abbrev acks : MemoryStore → Pending → PushAnswer
acks s rec = acked

receipt_store-IsValid : IsValid receipt_store
unfolding lookup normalize_pending new_memory
receipt_store-IsValid = record {
  indexed = new_memory-IsValid.indexed;
  keyed = new_memory-IsValid.keyed;
  receipts = record { dict = (refl, tt); filed = ((refl, refl), tt) };
  idempotency_dict = tt;
}

flush_dlr_terminates_example :
    (t : MemoryStore) × (flush_dlr plain acks 9
        (ready_count (codes "acme") receipt_store.pending + 1)
        (codes "acme")
        receipt_store
      ≡ returns t)
flush_dlr_terminates_example =
    flush_dlr_terminates plain acks 9 (codes "acme") receipt_store receipt_store-IsValid

-- Two parts of a message, one of which failed.
abbrev two_segments : List Pending
two_segments =
    record answer { segment_count = pos 2; dlr_state = codes "DELIVRD" }
    ∷ record answer {
      segment_index = pos 2;
      segment_count = pos 2;
      dlr_state = codes "UNDELIV";
      dlr_error_code = pos 7;
    }
    ∷ []

two_final : (aggregate_dlr plain two_segments).final ≡ true
unfolding aggregate_dlr conclude scan_segments scan_segment is_final_dlr_state is_final_state
    dlr_failure_rank
two_final = refl

aggregate_dlr-IsVerdict_example : IsVerdict plain two_segments (aggregate_dlr plain two_segments)
aggregate_dlr-IsVerdict_example = aggregate_dlr-IsVerdict plain two_segments two_final

-- The provider's report on the receipt's message, while no client is online.
abbrev report : Dlr
report = record {
  provider = codes "p";
  provider_id = codes "x9";
  state = codes "EXPIRED";
  error_code = pos 3;
  done_at = 8;
}

abbrev client_store : MemoryStore
client_store = record new_memory {
  pending =
      (pending_key (codes "p") (codes "x9"), record answer { source_kind = codes "smpp" }) ∷ [];
}

client_store-IsValid : IsValid client_store
unfolding lookup normalize_pending new_memory
client_store-IsValid = record {
  indexed = new_memory-IsValid.indexed;
  keyed = new_memory-IsValid.keyed;
  receipts = record { dict = (refl, tt); filed = ((refl, refl), tt) };
  idempotency_dict = tt;
}

abbrev offline : MemoryStore → Pending → PushAnswer
offline s rec = deferred

report_waits : (handle_dlr plain offline 9 false report client_store).1 ≡ waiting
unfolding handle_dlr get_pending update_pending_dlr list_pending_by_gateway_id mark_dlr_ready
    deliver_receipt lookup insert retain new_memory aggregate_dlr conclude scan_segments
    scan_segment is_final_dlr_state is_final_state dlr_failure_rank update_message_state
report_waits = refl

handle_dlr-IsKept_example : IsKept report (handle_dlr plain offline 9 false report client_store).0
handle_dlr-IsKept_example =
    handle_dlr-IsKept plain offline 9 false report client_store client_store-IsValid report_waits

abbrev claimed_store : MemoryStore
claimed_store =
    run valid_date new_memory
      ((5, Event.submits first_message first_item options) ∷ (6, Event.claims worker (pos 1)) ∷ [])

claimed_store-IsValid : IsValid claimed_store
unfolding new_memory
claimed_store-IsValid = run-IsValid valid_date new_memory _ (omega arith) new_memory-IsValid

claimed_there : lookup 1 claimed_store.outbox ≡ some claimed_item
unfolding run step submit_atomic claim_outbox new_memory lookup insert retain
claimed_there = refl

process_outbox_settles_example :
    SettledBy
      (accepted (codes "x9" ∷ []))
      1
      (process_outbox 9 100 0 true (accepted (codes "x9" ∷ [])) claimed_item claimed_store).0
process_outbox_settles_example =
    process_outbox_settles 9 100 0 (accepted (codes "x9" ∷ [])) claimed_item claimed_store
      claimed_store-IsValid claimed_there refl
