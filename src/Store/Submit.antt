-- ===== src/Store/Submit.antt =====
-- internal/store/memory.go: the atomic submit with its idempotency record and daily quota, and the
-- reservation of gateway ids. `time.Parse(time.DateOnly, …)` succeeding is the parameter `valid_date`.
pub mod Steps
pub mod Effects
pub mod Laws
use mysmpp.Base.{
  ℕ, ◌+◌, ◌-◌, ◌%◌, ◌^◌, Bool, true, false, not, ◌||◌, [], Option, none, some, Text, text_eqb,
  text_eq, text2_eq, lookup, insert, pos_part, is_positive, positive_or, ltb, nat_eqb,
  if◌then◌else◌,
}
use mysmpp.Store.Types.{
  Message, OutboxItem, IdempotencyRecord, DailyQuotaDebit, SubmitOptions, MemoryStore, Result, ok,
  err, quota_exceeded, invalid_quota, invalid_quota_date, ◌>>=◌,
}
use mysmpp.Store.Messages.{save_message}
use mysmpp.Store.Pendings.{sweep, is_blank, default_ttl}
use mysmpp.Store.Outbox.{enqueue_outbox}

-- `ReserveGatewayIDRange`: the first and the last id of the range, as `uint64`.
unfoldable pub reserve_gateway_id_range : MemoryStore → ℕ → MemoryStore × ℕ × ℕ
reserve_gateway_id_range s span =
    let width = if nat_eqb span 0 then 1 else span in
    let last = (s.gateway_seq + width) % 2 ^ 64 in
    (record s { gateway_seq = last }, (s.gateway_seq + 1) % 2 ^ 64, last)

abbrev pub or_zero : Option ℕ → ℕ
or_zero none = 0
or_zero (some n) = n

-- The segments that a tenant has used on a day.
unfoldable pub used_quota : Text → Text → MemoryStore → ℕ
used_quota tenant date s = or_zero (lookup (tenant, date) s.quota_usage)

-- The result of a submit: the outbox id, the gateway id, and whether an earlier submit is repeated.
pub record Submitted : Type 0 where
  pub outbox_id : ℕ
  pub gateway_id : Text
  pub repeated : Bool

-- `rec, ok := s.idempotency[k]; ok && rec.expiresAt.After(now)`.
unfoldable pub earlier : ℕ → Text → Text → MemoryStore → Option Text
earlier now client_id key s =
    if is_blank client_id key then none else elim (lookup (client_id, key) s.idempotency) [
      | none ↦ none
      | some r ↦ if ltb now r.expires_at then some r.gateway_id else none
    ]

unfoldable pub remember : ℕ → SubmitOptions → Text → MemoryStore → MemoryStore
remember now opts gateway_id s =
    let client_id = opts.idempotency.client_id in
    let key = opts.idempotency.key in
    let entry : IdempotencyRecord = record {
      gateway_id = gateway_id;
      expires_at = now + positive_or default_ttl opts.idempotency.ttl;
    } in
    if is_blank client_id key
    then s
    else record s { idempotency = insert (client_id, key) entry s.idempotency }

unfoldable pub settle :
    MemoryStore → Result (MemoryStore × Submitted) → MemoryStore × Result Submitted
settle s (ok (s', r)) = (s', ok r)
settle s (err e) = (s, err e)

module _ (valid_date : Text → Bool) where
  -- `validateDailyQuotaDebit`.
  unfoldable pub validate_quota : DailyQuotaDebit → Result (Unit {0})
  validate_quota q =
      if text_eqb q.tenant_id [] || (not (is_positive q.segments) || not (is_positive q.limit))
      then err invalid_quota
      else if valid_date q.date
      then ok tt
      else err invalid_quota_date

  unfoldable pub charge : DailyQuotaDebit → MemoryStore → Result MemoryStore
  unfolding used_quota
  charge q s =
      let segments = pos_part q.segments in
      let limit = pos_part q.limit in
      let used = used_quota q.tenant_id q.date s in
      if ltb limit segments || ltb (limit - segments) used
      then err quota_exceeded
      else ok
          (record s { quota_usage = insert (q.tenant_id, q.date) (used + segments) s.quota_usage })

  -- `quota != nil && quota.Limit > 0`, the validation and the debit.
  unfoldable pub debit_quota : Option DailyQuotaDebit → MemoryStore → Result MemoryStore
  unfolding validate_quota charge
  debit_quota none s = ok s
  debit_quota (some q) s =
      if is_positive q.limit then (do x ← validate_quota q; charge q s) else ok s

  -- The writes of a new submit, in the order of the code.
  unfoldable pub submit_new :
      ℕ → MemoryStore → Message → OutboxItem → SubmitOptions → Result (MemoryStore × Submitted)
  unfolding debit_quota remember save_message enqueue_outbox
  submit_new now s msg item opts = do
    charged ← debit_quota opts.quota s
    saved ← save_message (remember now opts msg.id charged) msg
    let (queued, id) = enqueue_outbox now saved item
    ok (queued, record { outbox_id = id; gateway_id = msg.id; repeated = false })

  -- `SubmitAtomic`. An error leaves the swept store.
  unfoldable pub submit_atomic :
      ℕ → MemoryStore → Message → OutboxItem → SubmitOptions → MemoryStore × Result Submitted
  unfolding sweep earlier submit_new settle
  submit_atomic now s msg item opts =
      let swept = sweep now s in
      elim (earlier now opts.idempotency.client_id opts.idempotency.key swept) [
        | some id ↦ (swept, ok (record { outbox_id = 0; gateway_id = id; repeated = true }))
        | none ↦ settle swept (submit_new now swept msg item opts)
      ]
