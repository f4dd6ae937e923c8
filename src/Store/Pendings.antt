-- ===== src/Store/Pendings.antt =====
-- internal/store/memory.go: pending delivery receipts, the idempotency records and their expiry.
pub mod Filed
use mysmpp.Base.{
  ◌≡◌, values, ◌*◌, ◌^◌, ℕ, ◌+◌, Bool, true, false, not, ◌&&◌, ◌||◌, List, [], ◌∷◌, ◌++◌, Option,
  none, some, Text, text_eqb, text_eq, text2_eq, lookup, insert, delete, retain, ℤ, pos,
  is_positive, lez, positive_or, ltb, nat_eqb, if◌then◌else◌, length, take, select, sort_by,
}
use mysmpp.Store.Types.{
  Pending, IdempotencyRecord, MemoryStore, Result, ok, not_found, ◌>>=◌, or_fail,
}

-- `pendingKey`.
unfoldable pub pending_key : Text → Text → Text
pending_key provider provider_id = provider ++ (0 ∷ provider_id)

pub at_least_one : ℤ → ℤ
at_least_one n = if is_positive n then n else pos 1

-- `normalizePending`.
unfoldable pub normalize_pending : Pending → Pending
unfolding at_least_one
normalize_pending p = record p {
  segment_index = at_least_one p.segment_index;
  segment_count = at_least_one p.segment_count;
}

-- `!p.ExpiresAt.IsZero() && p.ExpiresAt.Before(now)`.
unfoldable pub has_expired : ℕ → ℕ → Bool
has_expired now expires_at = not (nat_eqb expires_at 0) && ltb expires_at now

-- The entries that `sweepLocked` leaves.
unfoldable pub survives : ℕ → Pending → Bool
unfolding has_expired
survives now p = p.dlr_ready || not (has_expired now p.expires_at)

-- `sweepLocked`.
unfoldable pub sweep : ℕ → MemoryStore → MemoryStore
unfolding survives
sweep now s = record s {
  pending = retain (λ key p. survives now p) s.pending;
  idempotency = retain (λ key r. not (has_expired now r.expires_at)) s.idempotency;
  last_sweep = now;
}

-- `SavePending`.
unfoldable pub save_pending : ℕ → MemoryStore → Pending → MemoryStore
unfolding sweep normalize_pending pending_key
save_pending now s p =
    let swept = sweep now s in
    record swept {
      pending = insert (pending_key p.provider p.provider_id) (normalize_pending p) swept.pending;
    }

-- The read, change and write of one pending record that the updates share.
unfoldable pub update_pending : MemoryStore → Text → Text → (Pending → Pending) → Result MemoryStore
unfolding pending_key
update_pending s provider provider_id change = do
  p ← or_fail (lookup (pending_key provider provider_id) s.pending) not_found
  ok (record s { pending = insert (pending_key provider provider_id) (change p) s.pending })

-- `UpdatePendingDLR`.
unfoldable pub update_pending_dlr : MemoryStore → Text → Text → Text → ℤ → ℕ → Result MemoryStore
unfolding update_pending
update_pending_dlr s provider provider_id state code done_at =
    update_pending s provider provider_id λ p. record p {
      dlr_delivered = false;
      dlr_state = state;
      dlr_error_code = code;
      dlr_done_at = done_at;
    }

-- `MarkDLRReady`.
unfoldable pub mark_dlr_ready : MemoryStore → Text → Text → Text → ℤ → ℕ → Result MemoryStore
unfolding update_pending
mark_dlr_ready s provider provider_id state code done_at =
    update_pending s provider provider_id λ p. record p {
      dlr_ready = true;
      dlr_delivered = false;
      dlr_state = state;
      dlr_error_code = code;
      dlr_done_at = done_at;
    }

-- `MarkDLRDelivered`.
unfoldable pub mark_dlr_delivered : MemoryStore → Text → Text → Result MemoryStore
unfolding update_pending
mark_dlr_delivered s provider provider_id =
    update_pending s provider provider_id λ p. record p { dlr_ready = false; dlr_delivered = true }

unfoldable pub ready_for : Text → Pending → Bool
ready_for [] p = p.dlr_ready
ready_for (c ∷ cs) p = p.dlr_ready && text_eqb p.source_system (c ∷ cs)

-- `ListReadyDLR`: the loop stops when `limit` records are collected.
unfoldable pub list_ready_dlr : ℕ → MemoryStore → Text → ℤ → MemoryStore × List Pending
unfolding sweep ready_for
list_ready_dlr now s system_id limit =
    let swept = sweep now s in
    (swept, take (positive_or 100 limit) (select (ready_for system_id) (values swept.pending)))

unfoldable pub read_pending : ℕ → Text → MemoryStore → MemoryStore × Option Pending
unfolding has_expired
read_pending now key s = elim (lookup key s.pending) [
  | none ↦ (s, none)
  | some p ↦
      if not p.dlr_ready && has_expired now p.expires_at
      then (record s { pending = delete key s.pending }, none)
      else (s, some p)
]

-- `GetPending`.
unfoldable pub get_pending : ℕ → MemoryStore → Text → Text → MemoryStore × Option Pending
unfolding sweep read_pending pending_key
get_pending now s provider provider_id =
    read_pending now (pending_key provider provider_id) (sweep now s)

-- `<` on strings.
text_ltb : Text → Text → Bool
text_ltb [] [] = false
text_ltb [] (b ∷ s) = true
text_ltb (a ∷ r) [] = false
text_ltb (a ∷ r) (b ∷ s) = ltb a b || (nat_eqb a b && text_ltb r s)

-- The order by segment index, provider and provider id.
pending_before : Pending → Pending → Bool
unfolding text_ltb
pending_before p q =
    if lez p.segment_index q.segment_index && lez q.segment_index p.segment_index
    then if text_eqb p.provider q.provider
      then text_ltb p.provider_id q.provider_id
      else text_ltb p.provider q.provider
    else lez p.segment_index q.segment_index

-- `ListPendingByGatewayID`.
unfoldable pub list_pending_by_gateway_id : ℕ → MemoryStore → Text → MemoryStore × List Pending
unfolding sweep pending_before sort_by
list_pending_by_gateway_id now s gateway_id =
    let swept = sweep now s in
    (
      swept,
      sort_by pending_before
          (select (λ p. text_eqb p.gateway_id gateway_id) (values swept.pending)),
    )

-- `DeletePending`.
unfoldable pub delete_pending : MemoryStore → Text → Text → MemoryStore
unfolding pending_key
delete_pending s provider provider_id = record s {
  pending = delete (pending_key provider provider_id) s.pending;
}

-- `DeletePendingByGatewayID`.
unfoldable pub delete_pending_by_gateway_id : MemoryStore → Text → MemoryStore
delete_pending_by_gateway_id s gateway_id = record s {
  pending = retain (λ key p. not (text_eqb p.gateway_id gateway_id)) s.pending;
}

-- `SweepExpiredPending`: unlike `sweep` it also takes records with no expiry time.
unfoldable pub sweep_expired_pending : ℕ → MemoryStore → MemoryStore × ℕ
sweep_expired_pending before s = (
  record s { pending = retain (λ key p. p.dlr_ready || not (ltb p.expires_at before)) s.pending },
  length (select (λ p. not p.dlr_ready && ltb p.expires_at before) (values s.pending)),
)

-- `PendingSize`.
unfoldable pub pending_size : ℕ → MemoryStore → MemoryStore × ℕ
unfolding sweep
pending_size now s = let swept = sweep now s in (swept, length swept.pending)

unfoldable pub read_idempotency : ℕ → Text × Text → MemoryStore → MemoryStore × Option Text
read_idempotency now k s = elim (lookup k s.idempotency) [
  | none ↦ (s, none)
  | some r ↦
      if ltb r.expires_at now
      then (record s { idempotency = delete k s.idempotency }, none)
      else (s, some r.gateway_id)
]

-- `clientID == "" || key == ""`.
abbrev pub is_blank : Text → Text → Bool
is_blank client_id key = text_eqb client_id [] || text_eqb key []

-- `CheckIdempotency`.
unfoldable pub check_idempotency : ℕ → MemoryStore → Text → Text → MemoryStore × Option Text
unfolding sweep read_idempotency
check_idempotency now s client_id key =
    if is_blank client_id key
    then (s, none)
    else read_idempotency now (client_id, key) (sweep now s)

-- 24 hours in nanoseconds.
abbrev pub default_ttl : ℕ
default_ttl = 24 * 3600 * 10 ^ 9

-- `SaveIdempotency`.
unfoldable pub save_idempotency : ℕ → MemoryStore → Text → Text → Text → ℤ → MemoryStore
unfolding sweep
save_idempotency now s client_id key gateway_id ttl =
    if is_blank client_id key
    then s
    else let swept = sweep now s in
      let entry : IdempotencyRecord = record {
        gateway_id = gateway_id;
        expires_at = now + positive_or default_ttl ttl;
      } in
      record swept { idempotency = insert (client_id, key) entry swept.idempotency }

-- A record that is normalized and stored under its key.
abbrev pub IsFiled : Text × Pending → Type 0
IsFiled (k, p) = (k ≡ pending_key p.provider p.provider_id) × (normalize_pending p ≡ p)
