-- ===== src/Store/File/Loads.antt =====
-- The loops of `load` of internal/store/file.go.
use mysmpp.Store.Pendings.Filed.{IsReceipts, insert-IsReceipts, normalize_pending-twice}
use mysmpp.Store.Pendings.{IsFiled, pending_key, normalize_pending}
use mysmpp.Base.{
  if◌then◌else◌, ℕ, ◌≡◌, ◌≤◌, ◌<◌, ◌^◌, List, [], ◌∷◌, All, Option, none, some, Text, arith, refl,
  ap, ◌∙◌, nat_eq, nat_eqb_iff, text_eq, text_eqb, text_eqb_iff, text2_eq, text2_eqb_iff, Dict,
  IsDict, lookup, insert, lookup-insert, insert-IsDict, eq_refl, values,
}
use mysmpp.Store.Types.{OutboxState, state_eqb, Message, Pending, OutboxItem, IdempotencyRecord}
use mysmpp.Store.File.{
  FileIdempotencyRecord, idempotency_records, load_idempotency, load_outbox, load_pendings, unclaim,
  raise_next, raise_seq, exceeds64, at_least, parse_gateway_seq,
}

-- The entry of a map that a loop writes over another.
abbrev pub or_else {ℓ} : {A : Type ℓ} → Option A → Option A → Option A
or_else (some a) other = some a
or_else none other = other

-- An item as a restart leaves it: a claimed one is pending and nobody's.
abbrev pub released_from : OutboxState → OutboxItem → OutboxItem
released_from OutboxState.claimed item = record item {
  state = OutboxState.pending;
  claimed_by = [];
  claimed_at = 0;
}
released_from _ item = item

abbrev pub released : Option OutboxItem → Option OutboxItem
released none = none
released (some item) = some (released_from item.state item)

pub unclaim_lem : (item : OutboxItem) → unclaim item ≡ released_from item.state item
unfolding unclaim
unclaim_lem item = go item.state
  where
    go :
        (state : OutboxState)
        → (if state_eqb state OutboxState.claimed
            then record item { state = OutboxState.pending; claimed_by = []; claimed_at = 0 }
            else item)
          ≡ released_from state item
    go OutboxState.unset = refl
    go OutboxState.pending = refl
    go OutboxState.claimed = refl
    go OutboxState.sending = refl
    go OutboxState.done = refl
    go OutboxState.uncertain = refl
    go OutboxState.failed = refl
    go (OutboxState.other n) = refl

abbrev pub unclaimed : Option OutboxItem → Option OutboxItem
unclaimed none = none
unclaimed (some item) = some (unclaim item)

pub unclaimed_lem : (o : Option OutboxItem) → unclaimed o ≡ released o
unclaimed_lem none = refl
unclaimed_lem (some item) = ap some (unclaim_lem item)

pub lookup-load_outbox :
    (k : ℕ) (entries m : Dict ℕ OutboxItem)
    → IsDict entries
    → lookup k (load_outbox entries m) ≡ or_else (unclaimed (lookup k entries)) (lookup k m)
unfolding load_outbox lookup
lookup-load_outbox k [] m d = refl
lookup-load_outbox k ((j, item) ∷ entries) m d = ground (
  arith,
  nat_eqb_iff j k,
  lookup-insert k j (unclaim item) m,
  d.0,
  lookup-load_outbox k entries (insert j (unclaim item) m) d.1,
)

pub load_outbox-IsDict : (entries m : Dict ℕ OutboxItem) → IsDict m → IsDict (load_outbox entries m)
unfolding load_outbox
load_outbox-IsDict [] m d = d
load_outbox-IsDict ((j, item) ∷ entries) m d =
    load_outbox-IsDict entries (insert j (unclaim item) m) (insert-IsDict j (unclaim item) m d)

pub lookup-load_idempotency :
    (k : Text × Text) (records m : Dict (Text × Text) IdempotencyRecord)
    → IsDict records
    → lookup k (load_idempotency (idempotency_records records) m)
      ≡ or_else (lookup k records) (lookup k m)
unfolding load_idempotency idempotency_records lookup
lookup-load_idempotency k [] m d = refl
lookup-load_idempotency k (((c, i), r) ∷ records) m d = ground (
  arith,
  text2_eqb_iff (c, i) k,
  lookup-insert k (c, i) r m,
  d.0,
  lookup-load_idempotency k records (insert (c, i) r m) d.1,
)

pub load_idempotency-IsDict :
    (records : List FileIdempotencyRecord) (m : Dict (Text × Text) IdempotencyRecord)
    → IsDict m
    → IsDict (load_idempotency records m)
unfolding load_idempotency
load_idempotency-IsDict [] m d = d
load_idempotency-IsDict (r ∷ records) m d =
    load_idempotency-IsDict records _ (insert-IsDict (r.client_id, r.key) _ m d)

pub lookup-load_pendings :
    (k : Text) (entries m : Dict Text Pending)
    → IsDict entries
    → All IsFiled entries
    → lookup k (load_pendings (values entries) m) ≡ or_else (lookup k entries) (lookup k m)
unfolding load_pendings lookup
lookup-load_pendings k [] m d filed = refl
lookup-load_pendings k ((j, p) ∷ entries) m d filed =
    let key = pending_key p.provider p.provider_id in
    let put : lookup k (insert key (normalize_pending p) m)
        ≡ (if text_eqb j k then some p else lookup k m) =
      lookup-insert k key (normalize_pending p) m ∙ rw (filed.0.0, filed.0.1) refl in
    lookup-load_pendings k entries (insert key (normalize_pending p) m) d.1 filed.1
    ∙ ground (arith, text_eqb_iff j k, put, d.0)

pub load_pendings-IsReceipts :
    (ps : List Pending) (m : Dict Text Pending) → IsReceipts m → IsReceipts (load_pendings ps m)
unfolding load_pendings normalize_pending
load_pendings-IsReceipts [] m d = d
load_pendings-IsReceipts (p ∷ ps) m d =
    load_pendings-IsReceipts ps _ (insert-IsReceipts _ _ m (refl, normalize_pending-twice p) d)

pub raise_next_low :
    (limit : ℕ) (entries : Dict ℕ OutboxItem) (next : ℕ)
    → limit < 2 ^ 63
    → IsDict entries
    → ((k : ℕ) (item : OutboxItem) → lookup k entries ≡ some item → k ≤ limit)
    → next ≤ limit
    → raise_next entries next ≤ limit
unfolding raise_next lookup
raise_next_low limit [] next room d low start = start
raise_next_low limit ((j, item) ∷ entries) next room d low start =
    raise_next_low limit entries (if exceeds64 j next then j else next) room d.1
      (λ k i h. low k i (ground (arith, nat_eqb_iff j k)))
      (ground (arith, low j item (rw (eq_refl j))))

pub at_least_grows : (n : Option ℕ) (seq : ℕ) → seq ≤ at_least n seq
at_least_grows none seq = omega arith
at_least_grows (some n) seq = ground arith

pub raise_seq_grows :
    (parse_uint : Text → ℕ → Option ℕ) (ms : List Message) (seq : ℕ)
    → seq ≤ raise_seq parse_uint ms seq
unfolding raise_seq
raise_seq_grows parse_uint [] seq = omega arith
raise_seq_grows parse_uint (m ∷ ms) seq =
    let rest = raise_seq_grows parse_uint ms (at_least (parse_gateway_seq parse_uint m.id) seq) in
    omega (arith, rest, at_least_grows (parse_gateway_seq parse_uint m.id) seq)
