-- ===== src/Store/Retries.antt =====
-- internal/store/memory.go: how an outbox item leaves the hands of a worker without success.
use mysmpp.Base.{
  values, ℕ, ◌+◌, Bool, true, false, not, ◌&&◌, ◌||◌, [], ◌∷◌, none, some, Text, codes, text_eqb,
  text_eq, nat_eq, Dict, lookup, insert, ℤ, pos, positive_or, lez, leb, ltb, nat_eqb, if◌then◌else◌,
  length, select, get_elem?,
}
use mysmpp.Store.Types.{
  Message, OutboxItem, OutboxState, state_eqb, MemoryStore, Result, ok, err, not_found, not_claimed,
  not_sending, not_owned, cannot_fail, cannot_retry, out_of_range, ◌>>=◌, or_fail,
}
use mysmpp.Store.Messages.{write_at}
use mysmpp.Store.Outbox.{finish_item}

unfoldable pub unknown_message : ℕ → Message → Message
unknown_message now msg = record msg { state = codes "UNKNOWN"; error_code = pos 1; done_at = now }

-- The message of an abandoned item, if it is still stored.
unfoldable pub mark_unknown : ℕ → MemoryStore → Text → Result MemoryStore
unfolding unknown_message write_at
mark_unknown now s gateway_id = elim (lookup gateway_id s.message_by_id) [
  | none ↦ ok s
  | some i ↦ do
    msg ← or_fail (get_elem? s.messages i) out_of_range
    write_at s i (unknown_message now msg)
]

unfoldable pub uncertain_item : Text → OutboxItem → OutboxItem
uncertain_item message item = record item { state = OutboxState.uncertain; last_error = message }

unfoldable pub give_up : ℕ → MemoryStore → ℕ → Text → Text → OutboxItem → Result MemoryStore
unfolding mark_unknown uncertain_item
give_up now s id worker message item =
    if not (state_eqb item.state OutboxState.sending)
      && not (state_eqb item.state OutboxState.uncertain)
    then err not_sending
    else if not (text_eqb item.claimed_by worker)
    then err not_owned
    else mark_unknown now (record s { outbox = insert id (uncertain_item message item) s.outbox })
        item.gateway_id

-- `MarkOutboxUncertain`.
unfoldable pub mark_outbox_uncertain : ℕ → MemoryStore → ℕ → Text → Text → Result MemoryStore
unfolding give_up
mark_outbox_uncertain now s id worker message = do
  item ← or_fail (lookup id s.outbox) not_found
  give_up now s id worker message item

-- `item.State == "claimed" && !item.ClaimedAt.IsZero() && item.ClaimedAt.Before(before)`.
unfoldable pub is_stale : ℕ → OutboxItem → Bool
is_stale before item =
    state_eqb item.state OutboxState.claimed
    && (not (nat_eqb item.claimed_at 0) && ltb item.claimed_at before)

unfoldable pub requeue_item : ℕ → OutboxItem → OutboxItem
requeue_item before item = record item {
  state = OutboxState.pending;
  claimed_by = [];
  claimed_at = 0;
  next_retry_at =
      if nat_eqb item.next_retry_at 0 || ltb before item.next_retry_at
      then before
      else item.next_retry_at;
}

-- The loop of `RequeueStaleOutbox` over the entries that the range still has to visit; it breaks off
-- when `room` items are requeued.
unfoldable pub requeue_loop :
    ℕ → ℕ → Dict ℕ OutboxItem → ℕ → Dict ℕ OutboxItem → Dict ℕ OutboxItem × ℕ
unfolding is_stale requeue_item
requeue_loop before room [] count m = (m, count)
requeue_loop before room ((id, item) ∷ entries) count m = elim (is_stale before item) [
  | false ↦ requeue_loop before room entries count m
  | true ↦ elim (leb room (count + 1)) [
    | true ↦ (insert id (requeue_item before item) m, count + 1)
    | false ↦ requeue_loop before room entries (count + 1) (insert id (requeue_item before item) m)
  ]
]

-- `RequeueStaleOutbox`.
unfoldable pub requeue_stale_outbox : ℕ → MemoryStore → ℤ → MemoryStore × ℕ
unfolding requeue_loop
requeue_stale_outbox before s limit =
    let (outbox, count) = requeue_loop before (positive_or 1000 limit) s.outbox 0 s.outbox in
    (record s { outbox = outbox }, count)

unfoldable pub ack_item : MemoryStore → ℕ → OutboxItem → Result MemoryStore
unfolding finish_item
ack_item s id item =
    if state_eqb item.state OutboxState.claimed
    then ok (record s { outbox = insert id (finish_item item) s.outbox })
    else err not_claimed

-- `AckOutbox`.
unfoldable pub ack_outbox : MemoryStore → ℕ → Result MemoryStore
unfolding ack_item
ack_outbox s id = do item ← or_fail (lookup id s.outbox) not_found; ack_item s id item

-- The item after a failure: final when no retry time is given or the attempts are used up.
unfoldable pub fail_item : Text → ℕ → OutboxItem → Result OutboxItem
fail_item message next_retry_at item =
    if nat_eqb next_retry_at 0 || lez item.max_attempts (pos item.attempt)
    then if state_eqb item.state OutboxState.claimed || state_eqb item.state OutboxState.sending
      then ok (record item { last_error = message; state = OutboxState.failed })
      else err cannot_fail
    else if state_eqb item.state OutboxState.claimed
    then ok (record item {
      last_error = message;
      state = OutboxState.pending;
      next_retry_at = next_retry_at;
      claimed_by = [];
      claimed_at = 0;
    })
    else err cannot_retry

-- `FailOutbox`.
unfoldable pub fail_outbox : MemoryStore → ℕ → Text → ℕ → Result MemoryStore
unfolding fail_item
fail_outbox s id message next_retry_at = do
  item ← or_fail (lookup id s.outbox) not_found
  item' ← fail_item message next_retry_at item
  ok (record s { outbox = insert id item' s.outbox })

-- `OutboxDepth`; an empty state counts all items.
unfoldable pub outbox_depth : MemoryStore → OutboxState → ℕ
outbox_depth s OutboxState.unset = length (values s.outbox)
outbox_depth s st = length (select (λ item. state_eqb item.state st) (values s.outbox))
