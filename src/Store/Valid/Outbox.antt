-- ===== src/Store/Valid/Outbox.antt =====
-- The invariant under the outbox operations of internal/store/memory.go.
use mysmpp.Base.{
  text_eqb, ◌&&◌, All, ◌≡◌, nat_eq, text_eq, All-imp, Bool-cases, Dict, Text, arith, inl, inr,
  insert, lookup, map-All, refl, some, ℕ, ℤ, ◌+◌, ◌<◌, ◌^◌, ◌∙◌, ◌≤◌, IsDict, List, [], eq_refl,
  leb, nat_eqb_iff, positive_or, sym, ◌∷◌,
}
use mysmpp.Store.Pendings.{normalize_pending}
use mysmpp.Store.Outbox.{
  check_record, validate_records, validate_completion, at_least_one_record, enqueue_outbox,
  candidates, claim_item, claim_outbox, finish_item, mark_outbox_sending, next_id, prepare_item,
  sending_item, complete_outbox_send, sent_message, write_pendings,
}
use mysmpp.Store.Pendings.Filed.{IsReceipts, insert-IsReceipts, normalize_pending-twice}
use mysmpp.Store.Types.{
  MemoryStore, OutboxItem, OutboxState, bind-ok, not_found, ok, ok_subst, or_fail, or_fail-ok,
  state_eqb, Pending,
}
use mysmpp.Store.Outbox.Moves.{sending_item-Move, fail_item-Move}
use mysmpp.Store.Outbox.Complete.{Completes, complete_claimed-cases, give_up-ok}
use mysmpp.Store.Outbox.Keyed.{
  IsKeyed, IsKeyed-mono, candidates-Held, insert-IsKeyed, write_items-IsKeyed,
}
use mysmpp.Store.Messages.Index.{set-IsIndexed}
use mysmpp.Store.Valid.Messages.{mark_unknown-IsValid}
use mathlib.Core.Path.{subst}
use mysmpp.Store.Retries.{
  ack_outbox, ack_item, fail_item, fail_outbox, is_stale, mark_outbox_uncertain, requeue_item,
  requeue_loop, requeue_stale_outbox, uncertain_item,
}
use mysmpp.Store.Valid.{IsValid}

with_outbox :
    (s : MemoryStore) (m : Dict ℕ OutboxItem)
    → IsValid s
    → IsKeyed s.next_outbox m
    → IsValid (record s { outbox = m })
with_outbox s m v k = record {
  indexed = v.indexed;
  keyed = k;
  receipts = v.receipts;
  idempotency_dict = v.idempotency_dict;
}

-- An item that keeps its id is written back under it.
pub put-IsValid :
    (s : MemoryStore) (id : ℕ) (old new : OutboxItem)
    → IsValid s
    → lookup id s.outbox ≡ some old
    → new.id ≡ old.id
    → IsValid (record s { outbox = insert id new s.outbox })
put-IsValid s id old new v hit same =
    let (own, low) = v.keyed.own id old hit in
    with_outbox s _ v (insert-IsKeyed id new v.keyed (same ∙ own) low)

pub enqueue_outbox-IsValid :
    (now : ℕ) (s : MemoryStore) (item : OutboxItem)
    → s.next_outbox + 1 < 2 ^ 64
    → IsValid s
    → IsValid (enqueue_outbox now s item).0
unfolding enqueue_outbox prepare_item
enqueue_outbox-IsValid now s item room v =
    let e : next_id s ≡ s.next_outbox + 1 = omega arith in
    record {
      indexed = v.indexed;
      keyed =
          insert-IsKeyed (next_id s) _ (IsKeyed-mono v.keyed (omega (arith, e))) refl (omega arith);
      receipts = v.receipts;
      idempotency_dict = v.idempotency_dict;
    }

pub claim_outbox-IsValid :
    (now : ℕ) (s : MemoryStore) (worker : Text) (limit : ℤ)
    → IsValid s
    → IsValid (claim_outbox now s worker limit).0
unfolding claim_outbox claim_item
claim_outbox-IsValid now s worker limit v = with_outbox s _ v (
    write_items-IsKeyed _ s.outbox v.keyed (
      map-All (λ item. item.id ≤ s.next_outbox) (claim_item now worker) (candidates now s limit)
        (All-imp _ _ (λ item h. h.0.1) (candidates now s limit)
          (candidates-Held now s limit v.keyed))))

pub mark_outbox_sending-IsValid :
    (s : MemoryStore) (id : ℕ) (worker : Text) {t : MemoryStore}
    → IsValid s
    → mark_outbox_sending s id worker ≡ ok t
    → IsValid t
unfolding mark_outbox_sending
mark_outbox_sending-IsValid s id worker v h =
    let (item, e, h1) = bind-ok (or_fail (lookup id s.outbox) not_found) _ h in
    let (item', e', done) = bind-ok (sending_item worker item) _ h1 in
    ok_subst IsValid done (
      put-IsValid s id item item' v (or_fail-ok _ not_found e) (sending_item-Move worker item e').0)

pub ack_outbox-IsValid :
    (s : MemoryStore) (id : ℕ) {t : MemoryStore} → IsValid s → ack_outbox s id ≡ ok t → IsValid t
unfolding ack_outbox finish_item
ack_outbox-IsValid s id v h =
    let (item, e, h1) = bind-ok (or_fail (lookup id s.outbox) not_found) _ h in
    elim (Bool-cases (state_eqb item.state OutboxState.claimed)) [
      | inl good ↦
          ok_subst IsValid (rw (good, ack_item) at h1)
            (put-IsValid s id item (finish_item item) v (or_fail-ok _ not_found e) refl)
      | inr bad ↦ absurd (cc (rw (bad, ack_item) at h1))
    ]

pub fail_outbox-IsValid :
    (s : MemoryStore) (id : ℕ) (message : Text) (next_retry_at : ℕ) {t : MemoryStore}
    → IsValid s
    → fail_outbox s id message next_retry_at ≡ ok t
    → IsValid t
unfolding fail_outbox
fail_outbox-IsValid s id message next_retry_at v h =
    let (item, e, h1) = bind-ok (or_fail (lookup id s.outbox) not_found) _ h in
    let (item', e', done) = bind-ok (fail_item message next_retry_at item) _ h1 in
    ok_subst IsValid done (
      put-IsValid s id item item' v (or_fail-ok _ not_found e)
        (fail_item-Move message next_retry_at item e').0)

IsNormal : Pending → Type 0
IsNormal p = normalize_pending p ≡ p

check_record-IsNormal :
    (item : OutboxItem) (p : Pending) {q : Pending} → check_record item p ≡ ok q → IsNormal q
unfolding check_record IsNormal
check_record-IsNormal item p h = elim (Bool-cases (text_eqb p.provider_id [])) [
  | inl blank ↦ absurd (cc (rw (blank, check_record) at h))
  | inr named ↦
      let fits = text_eqb p.gateway_id item.gateway_id && text_eqb p.provider item.provider in
      elim (Bool-cases fits) [
        | inl good ↦
            ok_subst IsNormal (rw (named, check_record, good) at h) (normalize_pending-twice p)
        | inr bad ↦ absurd (cc (rw (named, check_record, bad) at h))
      ]
]

validate_records-IsNormal :
    (item : OutboxItem) (ps : List Pending) {out : List Pending}
    → validate_records item ps ≡ ok out
    → All IsNormal out
unfolding validate_records
validate_records-IsNormal item [] h = ok_subst (All IsNormal) h tt
validate_records-IsNormal item (p ∷ ps) h =
    let (q, e, h1) = bind-ok (check_record item p) _ h in
    let (rest, e', h2) = bind-ok (validate_records item ps) _ h1 in
    ok_subst (All IsNormal) h2
      (check_record-IsNormal item p e, validate_records-IsNormal item ps e')

validate_completion-IsNormal :
    (item : OutboxItem) (ps : List Pending) {first : Pending} {rest : List Pending}
    → validate_completion item ps ≡ ok (first, rest)
    → All IsNormal (first ∷ rest)
unfolding validate_completion at_least_one_record
validate_completion-IsNormal item ps h =
    let (out, e, h1) = bind-ok (validate_records item ps) _ h in
    go out (validate_records-IsNormal item ps e) h1
  where
    go :
        (out : List Pending) {first : Pending} {rest : List Pending}
        → All IsNormal out
        → at_least_one_record out ≡ ok (first, rest)
        → All IsNormal (first ∷ rest)
    go [] n h = absurd (cc)
    go (p ∷ ps) n h = ok_subst (λ x. All IsNormal (x.0 ∷ x.1)) h n

write_pendings-IsReceipts :
    (ps : List Pending) (m : Dict Text Pending)
    → All IsNormal ps
    → IsReceipts m
    → IsReceipts (write_pendings ps m)
unfolding write_pendings IsNormal
write_pendings-IsReceipts [] m n h = h
write_pendings-IsReceipts (p ∷ ps) m n h =
    write_pendings-IsReceipts ps _ n.1 (insert-IsReceipts _ p m (refl, n.0) h)

completed-IsValid :
    (now : ℕ) (s : MemoryStore) (id : ℕ) (item : OutboxItem) (ps : List Pending) {t : MemoryStore}
    → IsValid s
    → lookup id s.outbox ≡ some item
    → Completes now s id item ps t
    → IsValid t
unfolding finish_item sent_message
completed-IsValid now s id item ps v hit c =
    let w = put-IsValid s id item (finish_item item) v hit refl in
    subst IsValid (sym c.result) (record {
      indexed = set-IsIndexed v.indexed c.place c.message _ c.stored refl;
      keyed = w.keyed;
      receipts =
          write_pendings-IsReceipts (c.first ∷ c.rest) s.pending
            (validate_completion-IsNormal item ps c.checked) v.receipts;
      idempotency_dict = v.idempotency_dict;
    })

pub complete_outbox_send-IsValid :
    (now : ℕ) (s : MemoryStore) (id : ℕ) (worker : Text) (ps : List Pending) {t : MemoryStore}
    → IsValid s
    → complete_outbox_send now s id worker ps ≡ ok t
    → IsValid t
unfolding complete_outbox_send
complete_outbox_send-IsValid now s id worker ps v h =
    let (item, e, h1) = bind-ok (or_fail (lookup id s.outbox) not_found) _ h in
    let hit = or_fail-ok _ not_found e in
    elim (complete_claimed-cases now s id worker ps item h1) [
      | inl (d, same) ↦ subst IsValid (sym same) v
      | inr (sending, mine, c) ↦ completed-IsValid now s id item ps v hit c
    ]

pub mark_outbox_uncertain-IsValid :
    (now : ℕ) (s : MemoryStore) (id : ℕ) (worker message : Text) {t : MemoryStore}
    → IsValid s
    → mark_outbox_uncertain now s id worker message ≡ ok t
    → IsValid t
unfolding mark_outbox_uncertain
mark_outbox_uncertain-IsValid now s id worker message v h =
    let (item, e, h1) = bind-ok (or_fail (lookup id s.outbox) not_found) _ h in
    let w = put-IsValid s id item (uncertain_item message item) v (or_fail-ok _ not_found e) refl in
    let (state, mine, done) = give_up-ok now s id worker message item h1 in
    mark_unknown-IsValid now _ item.gateway_id w done

requeue_loop-IsKeyed :
    (before room : ℕ) (entries : Dict ℕ OutboxItem) (count : ℕ) {n : ℕ} (m : Dict ℕ OutboxItem)
    → IsKeyed n m
    → ((k : ℕ) (item : OutboxItem) → lookup k entries ≡ some item → (item.id ≡ k) × (k ≤ n))
    → IsDict entries
    → IsKeyed n (requeue_loop before room entries count m).0
unfolding requeue_loop lookup
requeue_loop-IsKeyed before room [] count m v f d = v
requeue_loop-IsKeyed before room ((id, item) ∷ entries) count {n} m v f d =
    let rest : (k : ℕ) (x : OutboxItem) → lookup k entries ≡ some x → (x.id ≡ k) × (k ≤ n) =
      λ k x e. f k x (ground (arith, nat_eqb_iff id k)) in
    let (own, low) = f id item (rw (eq_refl id)) in
    let w = insert-IsKeyed id (requeue_item before item) v own low in
    elim (Bool-cases (is_stale before item)) [
      | inr fresh ↦
          rw (fresh, requeue_loop) (requeue_loop-IsKeyed before room entries count m v rest d.1)
      | inl stale ↦ elim (Bool-cases (leb room (count + 1))) [
        | inl full ↦ rw (stale, full, requeue_loop) w
        | inr more ↦
            rw (stale, more, requeue_loop)
              (requeue_loop-IsKeyed before room entries (count + 1) _ w rest d.1)
      ]
    ]

pub requeue_stale_outbox-IsValid :
    (before : ℕ) (s : MemoryStore) (limit : ℤ)
    → IsValid s
    → IsValid (requeue_stale_outbox before s limit).0
unfolding requeue_stale_outbox
requeue_stale_outbox-IsValid before s limit v = with_outbox s _ v (
    requeue_loop-IsKeyed before (positive_or 1000 limit) s.outbox 0 s.outbox v.keyed v.keyed.own
      v.keyed.dict)
