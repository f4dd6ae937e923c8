-- ===== src/Store/Valid/Pendings.antt =====
-- The invariant under the operations on pending receipts and idempotency records of
-- internal/store/memory.go.
use mysmpp.Store.Pendings.Filed.{
  set_dlr-IsFiled, IsReceipts, retain-IsReceipts, delete-IsReceipts, insert-IsReceipts,
  lookup-IsFiled, normalize_pending-twice,
}
use mysmpp.Base.{
  true, false, ◌≡◌, text_eq, text2_eq, Dict, IsDict, Option-cases, Text, inl, inr, insert-IsDict,
  lookup, retain-IsDict, ℕ, Bool-cases, delete-IsDict, ltb, not, ℤ, ◌&&◌, refl,
}
use mysmpp.Store.Types.{
  Pending, IdempotencyRecord, MemoryStore, ok, bind-ok, not_found, ok_subst, or_fail, or_fail-ok,
}
use mysmpp.Store.Pendings.{
  sweep, pending_key, save_pending, update_pending, check_idempotency, delete_pending,
  delete_pending_by_gateway_id, get_pending, has_expired, is_blank, list_pending_by_gateway_id,
  list_ready_dlr, mark_dlr_delivered, mark_dlr_ready, read_idempotency, read_pending,
  save_idempotency, sweep_expired_pending, update_pending_dlr, IsFiled,
}
use mysmpp.Store.Valid.{IsValid}

-- The maps of receipts and of idempotency records change, and nothing else that matters.
with_maps :
    (s : MemoryStore) (p : Dict Text Pending) (r : Dict (Text × Text) IdempotencyRecord) (n : ℕ)
    → IsValid s
    → IsReceipts p
    → IsDict r
    → IsValid (record s { pending = p; idempotency = r; last_sweep = n })
with_maps s p r n v hp hr = record {
  indexed = v.indexed;
  keyed = v.keyed;
  receipts = hp;
  idempotency_dict = hr;
}

pub sweep-IsValid : (now : ℕ) (s : MemoryStore) → IsValid s → IsValid (sweep now s)
unfolding sweep
sweep-IsValid now s v =
    with_maps s _ _ now v (retain-IsReceipts _ s.pending v.receipts)
      (retain-IsDict _ s.idempotency v.idempotency_dict)

pub save_pending-IsValid :
    (now : ℕ) (s : MemoryStore) (p : Pending) → IsValid s → IsValid (save_pending now s p)
unfolding save_pending
save_pending-IsValid now s p v =
    let w = sweep-IsValid now s v in
    with_maps (sweep now s) _ _ _ w
      (insert-IsReceipts _ _ _ (refl, normalize_pending-twice p) w.receipts) w.idempotency_dict

pub update_pending-IsValid :
    (s : MemoryStore) (provider provider_id : Text) (change : Pending → Pending) {t : MemoryStore}
    → ((k : Text) (p : Pending) → IsFiled (k, p) → IsFiled (k, change p))
    → IsValid s
    → update_pending s provider provider_id change ≡ ok t
    → IsValid t
unfolding update_pending
update_pending-IsValid s provider provider_id change keeps v h =
    let (p, e, done) =
      bind-ok (or_fail (lookup (pending_key provider provider_id) s.pending) not_found) _ h in
    ok_subst IsValid done (
      with_maps s _ s.idempotency s.last_sweep v
        (insert-IsReceipts _ (change p) s.pending
          (keeps _ p (lookup-IsFiled _ p s.pending v.receipts.filed (or_fail-ok _ not_found e)))
          v.receipts)
        v.idempotency_dict)

pub update_pending_dlr-IsValid :
    (s : MemoryStore) (provider provider_id state : Text) (code : ℤ) (done_at : ℕ) {t : MemoryStore}
    → IsValid s
    → update_pending_dlr s provider provider_id state code done_at ≡ ok t
    → IsValid t
unfolding update_pending_dlr
update_pending_dlr-IsValid s provider provider_id state code done_at v h =
    update_pending-IsValid s provider provider_id _
      (λ k p. set_dlr-IsFiled p.dlr_ready false state code done_at k p) v h

pub mark_dlr_ready-IsValid :
    (s : MemoryStore) (provider provider_id state : Text) (code : ℤ) (done_at : ℕ) {t : MemoryStore}
    → IsValid s
    → mark_dlr_ready s provider provider_id state code done_at ≡ ok t
    → IsValid t
unfolding mark_dlr_ready
mark_dlr_ready-IsValid s provider provider_id state code done_at v h =
    update_pending-IsValid s provider provider_id _
      (λ k p. set_dlr-IsFiled true false state code done_at k p) v h

pub mark_dlr_delivered-IsValid :
    (s : MemoryStore) (provider provider_id : Text) {t : MemoryStore}
    → IsValid s
    → mark_dlr_delivered s provider provider_id ≡ ok t
    → IsValid t
unfolding mark_dlr_delivered
mark_dlr_delivered-IsValid s provider provider_id v h =
    update_pending-IsValid s provider provider_id _
      (λ k p. set_dlr-IsFiled false true p.dlr_state p.dlr_error_code p.dlr_done_at k p) v h

read_pending-IsValid :
    (now : ℕ) (key : Text) (s : MemoryStore) → IsValid s → IsValid (read_pending now key s).0
unfolding read_pending
read_pending-IsValid now key s v = elim (Option-cases (lookup key s.pending)) [
  | inl miss ↦ rw (miss, read_pending) v
  | inr (p, hit) ↦ elim (Bool-cases (not p.dlr_ready && has_expired now p.expires_at)) [
    | inl old ↦
        rw (hit, read_pending, old)
          (with_maps s _ s.idempotency s.last_sweep v (delete-IsReceipts key s.pending v.receipts)
            v.idempotency_dict)
    | inr fresh ↦ rw (hit, read_pending, fresh) v
  ]
]

read_idempotency-IsValid :
    (now : ℕ) (key : Text × Text) (s : MemoryStore)
    → IsValid s
    → IsValid (read_idempotency now key s).0
unfolding read_idempotency
read_idempotency-IsValid now key s v = elim (Option-cases (lookup key s.idempotency)) [
  | inl miss ↦ rw (miss, read_idempotency) v
  | inr (r, hit) ↦ elim (Bool-cases (ltb r.expires_at now)) [
    | inl old ↦
        rw (hit, read_idempotency, old)
          (with_maps s s.pending _ s.last_sweep v v.receipts
            (delete-IsDict key s.idempotency v.idempotency_dict))
    | inr fresh ↦ rw (hit, read_idempotency, fresh) v
  ]
]

pub get_pending-IsValid :
    (now : ℕ) (s : MemoryStore) (provider provider_id : Text)
    → IsValid s
    → IsValid (get_pending now s provider provider_id).0
unfolding get_pending
get_pending-IsValid now s provider provider_id v =
    read_pending-IsValid now (pending_key provider provider_id) (sweep now s)
      (sweep-IsValid now s v)

pub list_ready_dlr-IsValid :
    (now : ℕ) (s : MemoryStore) (system_id : Text) (limit : ℤ)
    → IsValid s
    → IsValid (list_ready_dlr now s system_id limit).0
unfolding list_ready_dlr
list_ready_dlr-IsValid now s system_id limit v = sweep-IsValid now s v

pub list_pending_by_gateway_id-IsValid :
    (now : ℕ) (s : MemoryStore) (gateway_id : Text)
    → IsValid s
    → IsValid (list_pending_by_gateway_id now s gateway_id).0
unfolding list_pending_by_gateway_id
list_pending_by_gateway_id-IsValid now s gateway_id v = sweep-IsValid now s v

pub delete_pending-IsValid :
    (s : MemoryStore) (provider provider_id : Text)
    → IsValid s
    → IsValid (delete_pending s provider provider_id)
unfolding delete_pending
delete_pending-IsValid s provider provider_id v =
    with_maps s _ s.idempotency s.last_sweep v (delete-IsReceipts _ s.pending v.receipts)
      v.idempotency_dict

pub delete_pending_by_gateway_id-IsValid :
    (s : MemoryStore) (gateway_id : Text)
    → IsValid s
    → IsValid (delete_pending_by_gateway_id s gateway_id)
unfolding delete_pending_by_gateway_id
delete_pending_by_gateway_id-IsValid s gateway_id v =
    with_maps s _ s.idempotency s.last_sweep v (retain-IsReceipts _ s.pending v.receipts)
      v.idempotency_dict

pub sweep_expired_pending-IsValid :
    (before : ℕ) (s : MemoryStore) → IsValid s → IsValid (sweep_expired_pending before s).0
unfolding sweep_expired_pending
sweep_expired_pending-IsValid before s v =
    with_maps s _ s.idempotency s.last_sweep v (retain-IsReceipts _ s.pending v.receipts)
      v.idempotency_dict

pub check_idempotency-IsValid :
    (now : ℕ) (s : MemoryStore) (client_id key : Text)
    → IsValid s
    → IsValid (check_idempotency now s client_id key).0
unfolding check_idempotency
check_idempotency-IsValid now s client_id key v = elim (Bool-cases (is_blank client_id key)) [
  | inl blank ↦ rw blank v
  | inr given ↦ rw given (read_idempotency-IsValid now (client_id, key) _ (sweep-IsValid now s v))
]

pub save_idempotency-IsValid :
    (now : ℕ) (s : MemoryStore) (client_id key gateway_id : Text) (ttl : ℤ)
    → IsValid s
    → IsValid (save_idempotency now s client_id key gateway_id ttl)
unfolding save_idempotency
save_idempotency-IsValid now s client_id key gateway_id ttl v =
    let w = sweep-IsValid now s v in
    elim (Bool-cases (is_blank client_id key)) [
      | inl blank ↦ rw blank v
      | inr given ↦ rw given (
          with_maps (sweep now s) (sweep now s).pending _ (sweep now s).last_sweep w w.receipts
            (insert-IsDict _ _ _ w.idempotency_dict))
    ]
