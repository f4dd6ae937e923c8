-- ===== src/Store/Outbox.antt =====
-- internal/store/memory.go: the outbox. A worker claims pending items, marks one as sending before it
-- calls the provider, and then completes, fails or abandons it.
pub mod Keyed
pub mod Moves
pub mod Claim
pub mod Complete
pub mod Sent
use mysmpp.Base.{
  values, ℕ, ◌+◌, ◌%◌, ◌^◌, Bool, false, not, ◌&&◌, List, [], ◌∷◌, Text, codes, text_eqb, text_eq,
  nat_eq, Dict, lookup, insert, ℤ, pos, is_positive, positive_or, ltb, nat_eqb, if◌then◌else◌, take,
  select, get_elem?, map, sort_by,
}
use mysmpp.Store.Types.{
  Message, Pending, OutboxPayload, OutboxItem, OutboxState, state_eqb, MemoryStore, Result, ok, err,
  not_found, not_claimed, not_sending, no_pending, empty_provider_id, pending_mismatch,
  out_of_range, ◌>>=◌, or_fail,
}
use mysmpp.Store.Messages.{write_at}
use mysmpp.Store.Pendings.{pending_key, normalize_pending}

or_pending : OutboxState → OutboxState
or_pending OutboxState.unset = OutboxState.pending
or_pending st = st

abbrev or_time : ℕ → ℕ → ℕ
or_time now t = if nat_eqb t 0 then now else t

-- The defaults that `EnqueueOutbox` and `SubmitAtomic` fill in.
unfoldable pub prepare_item : ℕ → ℕ → OutboxItem → OutboxItem
unfolding or_pending
prepare_item now id item = record item {
  id = id;
  state = or_pending item.state;
  next_retry_at = or_time now item.next_retry_at;
  created_at = or_time now item.created_at;
  max_attempts = if is_positive item.max_attempts then item.max_attempts else pos 5;
}

-- `s.nextOutbox++`; the counter is an `int64`, kept as its bit pattern.
abbrev pub next_id : MemoryStore → ℕ
next_id s = (s.next_outbox + 1) % 2 ^ 64

-- `EnqueueOutbox`, and the last lines of `SubmitAtomic`.
unfoldable pub enqueue_outbox : ℕ → MemoryStore → OutboxItem → MemoryStore × ℕ
unfolding prepare_item
enqueue_outbox now s item = (
  record s {
    next_outbox = next_id s;
    outbox = insert (next_id s) (prepare_item now (next_id s) item) s.outbox;
  },
  next_id s,
)

-- `item.State == "pending" && !item.NextRetryAt.After(now)`.
unfoldable pub is_due : ℕ → OutboxItem → Bool
is_due now item = state_eqb item.state OutboxState.pending && not (ltb now item.next_retry_at)

-- The order by retry time, then by id.
unfoldable pub due_before : OutboxItem → OutboxItem → Bool
due_before a b =
    if nat_eqb a.next_retry_at b.next_retry_at
    then ltb a.id b.id
    else ltb a.next_retry_at b.next_retry_at

unfoldable pub claim_item : ℕ → Text → OutboxItem → OutboxItem
claim_item now worker item = record item {
  state = OutboxState.claimed;
  claimed_by = worker;
  claimed_at = now;
  attempt = item.attempt + 1;
}

-- The items that a claim takes, before it marks them.
unfoldable pub candidates : ℕ → MemoryStore → ℤ → List OutboxItem
unfolding is_due due_before sort_by
candidates now s limit =
    take (positive_or 1 limit) (sort_by due_before (select (is_due now) (values s.outbox)))

-- The loop that writes the marked items back.
unfoldable pub write_items : List OutboxItem → Dict ℕ OutboxItem → Dict ℕ OutboxItem
write_items [] m = m
write_items (item ∷ items) m = write_items items (insert item.id item m)

-- `ClaimOutbox`.
unfoldable pub claim_outbox : ℕ → MemoryStore → Text → ℤ → MemoryStore × List OutboxItem
unfolding candidates claim_item write_items
claim_outbox now s worker limit =
    let out = map (claim_item now worker) (candidates now s limit) in
    (record s { outbox = write_items out s.outbox }, out)

-- `s.outbox[id] = item`.
abbrev put_item : MemoryStore → ℕ → OutboxItem → MemoryStore
put_item s id item = record s { outbox = insert id item s.outbox }

unfoldable pub sending_item : Text → OutboxItem → Result OutboxItem
sending_item worker item =
    if state_eqb item.state OutboxState.sending && text_eqb item.claimed_by worker
    then ok item
    else if state_eqb item.state OutboxState.claimed && text_eqb item.claimed_by worker
    then ok (record item { state = OutboxState.sending })
    else err not_claimed

-- `MarkOutboxSending`. An item that is already sending is written back as it is.
unfoldable pub mark_outbox_sending : MemoryStore → ℕ → Text → Result MemoryStore
unfolding sending_item
mark_outbox_sending s id worker = do
  item ← or_fail (lookup id s.outbox) not_found
  item' ← sending_item worker item
  ok (put_item s id item')

unfoldable pub check_record : OutboxItem → Pending → Result Pending
unfolding normalize_pending
check_record item p =
    if text_eqb p.provider_id []
    then err empty_provider_id
    else if text_eqb p.gateway_id item.gateway_id && text_eqb p.provider item.provider
    then ok (normalize_pending p)
    else err pending_mismatch

-- The loop of `validateOutboxCompletion`.
unfoldable pub validate_records : OutboxItem → List Pending → Result (List Pending)
unfolding check_record
validate_records item [] = ok []
validate_records item (p ∷ ps) = do
  q ← check_record item p
  rest ← validate_records item ps
  ok (q ∷ rest)

unfoldable pub at_least_one_record : List Pending → Result (Pending × List Pending)
at_least_one_record [] = err no_pending
at_least_one_record (p ∷ ps) = ok (p, ps)

-- `validateOutboxCompletion`: the first record comes apart, since there is at least one.
unfoldable pub validate_completion : OutboxItem → List Pending → Result (Pending × List Pending)
unfolding validate_records at_least_one_record
validate_completion item ps = do out ← validate_records item ps; at_least_one_record out

-- `scrubOutboxPayload`.
unfoldable pub scrub_payload : OutboxPayload → OutboxPayload
scrub_payload payload = record payload {
  udh = [];
  raw_payload = [];
  raw_payload_set = false;
  sar_ref_num = [];
  sar_total_segments = [];
  sar_segment_seqnum = [];
  sar_set = false;
}

unfoldable pub finish_item : OutboxItem → OutboxItem
unfolding scrub_payload
finish_item item = record item { state = OutboxState.done; payload = scrub_payload item.payload }

-- `for _, rec := range pending { s.pending[…] = rec }`.
unfoldable pub write_pendings : List Pending → Dict Text Pending → Dict Text Pending
unfolding pending_key
write_pendings [] m = m
write_pendings (p ∷ ps) m = write_pendings ps (insert (pending_key p.provider p.provider_id) p m)

unfoldable pub sent_message : ℕ → Text → Message → Message
sent_message now provider_id msg = record msg {
  provider_id = provider_id;
  state = codes "sent";
  sent_at = now;
}

-- The writes of `CompleteOutboxSend`, after its checks.
unfoldable pub complete_item : ℕ → MemoryStore → ℕ → OutboxItem → List Pending → Result MemoryStore
unfolding validate_completion write_at write_pendings finish_item sent_message
complete_item now s id item pending = do
  (first, rest) ← validate_completion item pending
  i ← or_fail (lookup item.gateway_id s.message_by_id) not_found
  msg ← or_fail (get_elem? s.messages i) out_of_range
  s' ← write_at s i (sent_message now first.provider_id msg)
  ok (record s' {
    pending = write_pendings (first ∷ rest) s.pending;
    outbox = insert id (finish_item item) s.outbox;
  })

unfoldable pub complete_claimed :
    ℕ → MemoryStore → ℕ → Text → List Pending → OutboxItem → Result MemoryStore
unfolding complete_item
complete_claimed now s id worker pending item =
    if state_eqb item.state OutboxState.done
    then ok s
    else if state_eqb item.state OutboxState.sending && text_eqb item.claimed_by worker
    then complete_item now s id item pending
    else err not_sending

-- `CompleteOutboxSend`. An item that is done is left alone.
unfoldable pub complete_outbox_send : ℕ → MemoryStore → ℕ → Text → List Pending → Result MemoryStore
unfolding complete_claimed
complete_outbox_send now s id worker pending = do
  item ← or_fail (lookup id s.outbox) not_found
  complete_claimed now s id worker pending item
