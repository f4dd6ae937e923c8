-- ===== src/Dispatch/Worker.antt =====
-- internal/dispatch/dispatcher.go: how a worker delivers a claimed outbox item. All clock readings of
-- one call are the one time `now`, and error texts are shortened. Call detail records are left out, and so is the cancellation of
-- the context: it only makes a retry give up earlier.
pub mod Owns
pub mod Runs
pub mod World
pub mod Sent
pub mod Failure
pub mod Settles
pub mod Delivery
use mysmpp.Base.{
  ℕ, ℤ, pos, zero, suc, ◌+◌, ◌-◌, ◌*◌, ◌^◌, ◌%◌, List, [], ◌∷◌, ◌++◌, Option, none, some, Text,
  codes, Bool, true, false, not, ◌||◌, nat_eqb, ltb, lez, text_eqb, if◌then◌else◌, length,
}
use mysmpp.Store.Types.{
  MemoryStore, OutboxItem, OutboxPayload, OutboxState, Pending, Result, ok, err,
}
use mysmpp.Store.Messages.{update_message_state}
use mysmpp.Store.Pendings.{delete_pending, save_pending}
use mysmpp.Store.Outbox.{mark_outbox_sending, complete_outbox_send}
use mysmpp.Store.Retries.{fail_outbox, mark_outbox_uncertain}

-- An error of a provider: its text, `Permanent()` and `SMPPStatus()`, if it has one.
pub record SendError : Type 0 where
  pub message : Text
  pub permanent : Bool
  pub smpp_status : Option ℕ

-- What `sendProvider` returns.
pub data SendAnswer : Type 0 where
  accepted : List Text → SendAnswer
  refused : SendError → SendAnswer

-- `provider.DLR`.
pub record Dlr : Type 0 where
  pub provider : Text
  pub provider_id : Text
  pub state : Text
  pub error_code : ℤ
  pub done_at : ℕ

-- `retryStoreTransition` with the attempts left; none of them changes the store if it fails.
unfoldable pub retry_transition :
    ℕ → (MemoryStore → Result MemoryStore) → MemoryStore → Result MemoryStore
retry_transition zero call s = call s
retry_transition (suc left) call s = elim (call s) [
  | ok t ↦ ok t
  | err e ↦ retry_transition left call s
]

-- The error is logged, and the store is as it was.
abbrev pub or_same : MemoryStore → Result MemoryStore → MemoryStore
or_same s (ok t) = t
or_same s (err e) = s

-- `markOutboxUncertainWithContext`.
unfoldable pub give_up_sending : ℕ → OutboxItem → Text → MemoryStore → MemoryStore
give_up_sending now item message s =
    or_same s
      (retry_transition 2 (λ t. mark_outbox_uncertain now t item.id item.claimed_by message) s)

-- `terminalFailureDLR`.
unfoldable pub terminal_failure_dlr : SendError → Text × ℤ
terminal_failure_dlr e = elim e.smpp_status [
  | some status ↦ (codes "REJECTD", pos (if ltb 999 status then 999 else status))
  | none ↦ (codes "UNDELIV", pos 1)
]

-- `retryDelay`, with the random milliseconds.
unfoldable pub retry_delay : ℕ → ℕ → ℕ
retry_delay attempt jitter =
    let bounded = if ltb attempt 1 then 1 else if ltb 6 attempt then 6 else attempt in
    2 ^ (bounded - 1) * 1000000000 + jitter * 1000000

-- The record of a failure that the gateway reports itself.
unfoldable pub failure_pending : ℕ → ℕ → OutboxPayload → Text → ℤ → Pending
failure_pending now ttl payload state error_code = record {
  provider_id = codes "local-failure:" ++ payload.gateway_id;
  gateway_id = payload.gateway_id;
  tenant_id = payload.tenant_id;
  account_id = payload.account_id;
  client_msg_id = payload.client_msg_id;
  segment_index = pos 1;
  segment_count = pos 1;
  source_kind = payload.source_kind;
  source_session = payload.source_session;
  source_system = payload.source_system;
  callback_url = [];
  callback_rule = [];
  from_addr = payload.from_addr;
  to_addr = payload.to_addr;
  text = payload.text;
  data_coding = payload.data_coding;
  registered_delivery = payload.registered_delivery;
  provider = payload.provider;
  route = payload.route;
  received_at = if nat_eqb payload.received_at 0 then now else payload.received_at;
  expires_at = now + ttl;
  dlr_ready = true;
  dlr_delivered = false;
  dlr_state = state;
  dlr_error_code = error_code;
  dlr_done_at = now;
}

abbrev pub failure_dlr : Pending → Dlr
failure_dlr p = record {
  provider = p.provider;
  provider_id = p.provider_id;
  state = p.dlr_state;
  error_code = p.dlr_error_code;
  done_at = p.dlr_done_at;
}

-- `payload.SourceKind != SourceSMPP.String() || payload.RegisteredDelivery&0x03 == 0`.
abbrev pub wants_no_dlr : Text → ℕ → Bool
wants_no_dlr source_kind registered_delivery =
    not (text_eqb source_kind (codes "smpp")) || nat_eqb (registered_delivery % 4) 0

-- `queueTerminalFailureDLR`: the store, and the record if one was saved.
unfoldable pub queue_terminal_failure_dlr :
    ℕ → ℕ → OutboxItem → Text → ℤ → MemoryStore → MemoryStore × Option Pending
queue_terminal_failure_dlr now ttl item state error_code s =
    let rec = failure_pending now ttl item.payload state error_code in
    if wants_no_dlr item.payload.source_kind item.payload.registered_delivery
    then (s, none)
    else (save_pending now s rec, some rec)

-- What follows the call of FailOutbox: the saved record goes to `OnDLR` or is removed.
unfoldable pub failure_recorded :
    MemoryStore → Result MemoryStore → Option Pending → MemoryStore × Option Dlr
failure_recorded s (ok t) (some p) = (t, some (failure_dlr p))
failure_recorded s (ok t) none = (t, none)
failure_recorded s (err e) (some p) = (delete_pending s p.provider p.provider_id, none)
failure_recorded s (err e) none = (s, none)

-- The end of `failOutbox`.
unfoldable pub record_failure :
    OutboxItem → SendError → ℕ → MemoryStore × Option Pending → MemoryStore × Option Dlr
record_failure item e next (s, queued) =
    failure_recorded s (fail_outbox s item.id e.message next) queued

-- `item.Attempt >= item.MaxAttempts || isPermanent(err)`.
abbrev pub is_terminal : OutboxItem → SendError → Bool
is_terminal item e = lez item.max_attempts (pos item.attempt) || e.permanent

-- What `failOutbox` writes first when the failure is final.
unfoldable pub settle_failure :
    ℕ → ℕ → OutboxItem → SendError → MemoryStore → MemoryStore × Option Pending
settle_failure now ttl item e s =
    let (state, code) = terminal_failure_dlr e in
    queue_terminal_failure_dlr now ttl item state code
      (or_same s (update_message_state now s item.gateway_id state code))

-- `failOutbox`: the store, and the receipt that goes to `OnDLR`.
unfoldable pub fail_delivery :
    ℕ → ℕ → ℕ → OutboxItem → SendError → MemoryStore → MemoryStore × Option Dlr
fail_delivery now ttl jitter item e s =
    if is_terminal item e
    then record_failure item e 0 (settle_failure now ttl item e s)
    else record_failure item e (now + retry_delay item.attempt jitter) (s, none)

abbrev named_ids : Text → List Text → List Text
named_ids gateway_id [] = []
named_ids gateway_id (p ∷ ps) = (if text_eqb p [] then gateway_id else p) ∷ named_ids gateway_id ps

-- The provider's ids; a missing one is the gateway id.
unfoldable pub provider_ids : Text → List Text → List Text
provider_ids gateway_id [] = gateway_id ∷ []
provider_ids gateway_id (p ∷ ps) = named_ids gateway_id (p ∷ ps)

-- The records of a sent message, one for each provider id, counted from `i + 1`.
unfoldable pub sent_pendings : ℕ → OutboxPayload → ℕ → ℕ → List Text → List Pending
sent_pendings expires_at payload count i [] = []
sent_pendings expires_at payload count i (provider_id ∷ ids) =
    record {
      provider_id = provider_id;
      gateway_id = payload.gateway_id;
      tenant_id = payload.tenant_id;
      account_id = payload.account_id;
      client_msg_id = payload.client_msg_id;
      segment_index = pos (i + 1);
      segment_count = pos count;
      source_kind = payload.source_kind;
      source_session = payload.source_session;
      source_system = payload.source_system;
      callback_url = payload.callback_url;
      callback_rule = payload.callback_rule;
      from_addr = payload.from_addr;
      to_addr = payload.to_addr;
      text = payload.text;
      data_coding = payload.data_coding;
      registered_delivery = payload.registered_delivery;
      provider = payload.provider;
      route = payload.route;
      received_at = payload.received_at;
      expires_at = expires_at;
      dlr_ready = false;
      dlr_delivered = false;
      dlr_state = [];
      dlr_error_code = pos 0;
      dlr_done_at = 0;
    }
    ∷ sent_pendings expires_at payload count (i + 1) ids

-- The result of CompleteOutboxSend.
unfoldable pub completed_or_uncertain :
    ℕ → OutboxItem → MemoryStore → Result MemoryStore → MemoryStore
completed_or_uncertain now item s (ok t) = t
completed_or_uncertain now item s (err e) = give_up_sending now item (codes "persist sent result") s

-- The records that a sent message waits with.
unfoldable pub awaited : ℕ → ℕ → OutboxPayload → List Text → List Pending
awaited now ttl payload ids =
    let named = provider_ids payload.gateway_id ids in
    sent_pendings (now + ttl) payload (length named) 0 named

-- `processOutbox` after the provider accepted.
unfoldable pub complete_delivery : ℕ → ℕ → OutboxItem → List Text → MemoryStore → MemoryStore
complete_delivery now ttl item ids s = completed_or_uncertain now item s (
    retry_transition 2
      (λ t. complete_outbox_send now t item.id item.claimed_by (awaited now ttl item.payload ids))
      s)

-- `processOutbox` after an error of the provider, by whether it is permanent.
unfoldable pub finish_refused :
    Bool → ℕ → ℕ → ℕ → OutboxItem → SendError → MemoryStore → MemoryStore × Option Dlr
finish_refused true now ttl jitter item e s =
    fail_delivery now ttl jitter (record item { state = OutboxState.sending }) e s
finish_refused false now ttl jitter item e s = (give_up_sending now item e.message s, none)

-- `processOutbox` after the call of the provider.
unfoldable pub finish_delivery :
    ℕ → ℕ → ℕ → OutboxItem → SendAnswer → MemoryStore → MemoryStore × Option Dlr
finish_delivery now ttl jitter item (accepted ids) s = (complete_delivery now ttl item ids s, none)
finish_delivery now ttl jitter item (refused e) s =
    finish_refused e.permanent now ttl jitter item e s

-- `processOutbox` up to the call of the provider, which is made exactly if this succeeds.
unfoldable pub begin_delivery : OutboxItem → MemoryStore → Result MemoryStore
begin_delivery item s = retry_transition 2 (λ t. mark_outbox_sending t item.id item.claimed_by) s

-- The error for a provider that the registry does not have.
abbrev pub no_provider : OutboxItem → SendError
no_provider item = record {
  message = codes "provider " ++ (item.provider ++ codes " not found");
  permanent = false;
  smpp_status = none;
}

-- `processOutbox` after the mark of the item as sending.
unfoldable pub processed :
    ℕ
    → ℕ
    → ℕ
    → OutboxItem
    → SendAnswer
    → MemoryStore
    → Result MemoryStore
    → MemoryStore × Option Dlr
processed now ttl jitter item answer s (ok t) = finish_delivery now ttl jitter item answer t
processed now ttl jitter item answer s (err e) = (s, none)

-- `processOutbox` with nothing in between: `registered` tells whether the registry has the provider,
-- and `answer` is what it would answer.
unfoldable pub process_outbox :
    ℕ → ℕ → ℕ → Bool → SendAnswer → OutboxItem → MemoryStore → MemoryStore × Option Dlr
process_outbox now ttl jitter true answer item s =
    processed now ttl jitter item answer s (begin_delivery item s)
process_outbox now ttl jitter false answer item s =
    fail_delivery now ttl jitter item (no_provider item) s
