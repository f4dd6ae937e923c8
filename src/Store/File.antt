-- ===== src/Store/File.antt =====
-- internal/store/file.go: the memory store with a copy on disk. The library's JSON codec and
-- `strconv.ParseUint` are parameters, and so is whether the calls of the file system succeed.
pub mod Restart
pub mod Loads
pub mod Quiet
pub mod Saved
pub mod Tests
use mysmpp.Base.{
  ℕ, ◌+◌, ◌%◌, ◌^◌, Bool, true, false, not, List, [], ◌∷◌, Option, none, some, Text, length, ltb,
  nat_eqb, nat_eq, text_eq, text2_eq, if◌then◌else◌, Dict, insert, values,
}
use mysmpp.Store.Types.{
  Message, Pending, OutboxItem, OutboxState, IdempotencyRecord, MemoryStore, new_memory, Result, ok,
  err, state_eqb,
}
use mysmpp.Store.Messages.{index_from, save_message, update_message_sent, update_message_state}
use mysmpp.Store.Pendings.{
  pending_key, normalize_pending, mark_dlr_delivered, mark_dlr_ready, sweep_expired_pending,
  update_pending_dlr,
}
use mysmpp.Store.Outbox.{claim_outbox, complete_outbox_send, mark_outbox_sending}
use mysmpp.Store.Retries.{ack_outbox, fail_outbox, mark_outbox_uncertain, requeue_stale_outbox}
use mysmpp.Store.Submit.{submit_atomic, Submitted}
use mysmpp.Store.Machine.{Event, step}

-- `fileIdempotencyRecord` and `fileQuotaUsage`.
pub record FileIdempotencyRecord : Type 0 where
  pub client_id : Text
  pub key : Text
  pub gateway_id : Text
  pub expires_at : ℕ

pub record FileQuotaUsage : Type 0 where
  pub tenant_id : Text
  pub date : Text
  pub used_segments : ℕ

pub record FileSnapshot : Type 0 where
  pub messages : List Message
  pub pending : Dict Text Pending
  pub outbox : Dict ℕ OutboxItem
  pub next_outbox : ℕ
  pub gateway_seq : ℕ
  pub idempotency : List FileIdempotencyRecord
  pub quota_usage : List FileQuotaUsage
  pub saved_at : ℕ

unfoldable pub idempotency_records :
    Dict (Text × Text) IdempotencyRecord → List FileIdempotencyRecord
idempotency_records [] = []
idempotency_records (((client_id, key), r) ∷ records) =
    record {
      client_id = client_id;
      key = key;
      gateway_id = r.gateway_id;
      expires_at = r.expires_at;
    }
    ∷ idempotency_records records

unfoldable pub quota_records : Dict (Text × Text) ℕ → List FileQuotaUsage
quota_records [] = []
quota_records (((tenant_id, date), used) ∷ usage) =
    record { tenant_id = tenant_id; date = date; used_segments = used } ∷ quota_records usage

-- The first half of `persist`.
unfoldable pub snapshot : ℕ → MemoryStore → FileSnapshot
snapshot now s = record {
  messages = s.messages;
  pending = s.pending;
  outbox = s.outbox;
  next_outbox = s.next_outbox;
  gateway_seq = s.gateway_seq;
  idempotency = idempotency_records s.idempotency;
  quota_usage = quota_records s.quota_usage;
  saved_at = now;
}

-- `a > b` of the `int64`s with these bit patterns.
abbrev pub exceeds64 : ℕ → ℕ → Bool
exceeds64 a b = ltb ((b + 2 ^ 63) % 2 ^ 64) ((a + 2 ^ 63) % 2 ^ 64)

unfoldable pub load_pendings : List Pending → Dict Text Pending → Dict Text Pending
load_pendings [] m = m
load_pendings (p ∷ ps) m =
    load_pendings ps (insert (pending_key p.provider p.provider_id) (normalize_pending p) m)

-- A claim does not outlive the process.
unfoldable pub unclaim : OutboxItem → OutboxItem
unclaim item =
    if state_eqb item.state OutboxState.claimed
    then record item { state = OutboxState.pending; claimed_by = []; claimed_at = 0 }
    else item

unfoldable pub load_outbox : Dict ℕ OutboxItem → Dict ℕ OutboxItem → Dict ℕ OutboxItem
load_outbox [] m = m
load_outbox ((id, item) ∷ entries) m = load_outbox entries (insert id (unclaim item) m)

-- The counter, which the same loop raises.
unfoldable pub raise_next : Dict ℕ OutboxItem → ℕ → ℕ
raise_next [] next = next
raise_next ((id, item) ∷ entries) next = raise_next entries (if exceeds64 id next then id else next)

unfoldable pub load_idempotency :
    List FileIdempotencyRecord
    → Dict (Text × Text) IdempotencyRecord
    → Dict (Text × Text) IdempotencyRecord
load_idempotency [] m = m
load_idempotency (r ∷ records) m = load_idempotency records (
    insert (r.client_id, r.key) (record { gateway_id = r.gateway_id; expires_at = r.expires_at }) m)

unfoldable pub load_quota : List FileQuotaUsage → Dict (Text × Text) ℕ → Dict (Text × Text) ℕ
load_quota [] m = m
load_quota (r ∷ records) m = load_quota records (insert (r.tenant_id, r.date) r.used_segments m)

-- What the file's path holds, if it can be read; `D` stands for the type of a file's contents.
pub data FileState (D : Type 0) : Type 0 where
  absent unreadable : FileState D
  holds : D → FileState D

-- The file and its `.bak`.
pub record Disk (D : Type 0) : Type 0 where
  pub current : FileState D
  pub backup : FileState D

-- What `NewFile` returns.
pub data Opened : Type 0 where
  opened : MemoryStore → Opened
  failed_to_read failed_to_decode : Opened

abbrev pub at_least : Option ℕ → ℕ → ℕ
at_least none seq = seq
at_least (some n) seq = if ltb seq n then n else seq

module _ (parse_uint : Text → ℕ → Option ℕ) where
  -- `parseGatewaySeq`, by the first byte of an id that has a second one.
  unfoldable pub parse_gateway_seq : Text → Option ℕ
  parse_gateway_seq (c ∷ d ∷ rest) =
      if nat_eqb c 103
      then parse_uint (d ∷ rest) 10
      else if nat_eqb c 109
      then parse_uint (d ∷ rest) 36
      else none
  parse_gateway_seq _ = none

  unfoldable pub raise_seq : List Message → ℕ → ℕ
  raise_seq [] seq = seq
  raise_seq (m ∷ ms) seq = raise_seq ms (at_least (parse_gateway_seq m.id) seq)

  -- `load` into a fresh memory store, once the file is decoded.
  unfoldable pub restore : FileSnapshot → MemoryStore
  restore snap =
      let next = raise_next snap.outbox 0 in
      record new_memory {
        messages = snap.messages;
        message_by_id = index_from 0 snap.messages [];
        pending = load_pendings (values snap.pending) [];
        outbox = load_outbox snap.outbox [];
        next_outbox = if exceeds64 snap.next_outbox next then snap.next_outbox else next;
        gateway_seq = raise_seq snap.messages snap.gateway_seq;
        idempotency = load_idempotency snap.idempotency [];
        quota_usage = load_quota snap.quota_usage [];
      }

  abbrev pub restore_decoded : Option FileSnapshot → Opened
  restore_decoded none = failed_to_decode
  restore_decoded (some snap) = opened (restore snap)

  module _ {D : Type 0} (decode : D → Option FileSnapshot) where
    -- `load` and `NewFile`.
    abbrev pub open_current : FileState D → Opened
    open_current absent = opened new_memory
    open_current unreadable = failed_to_read
    open_current (holds bytes) = restore_decoded (decode bytes)

    unfoldable pub new_file : Disk D → Opened
    new_file disk = open_current disk.current

-- The disk after a `persist` that succeeds.
unfoldable pub replaced : {D : Type 0} → D → Disk D → Disk D
replaced bytes disk = record {
  current = holds bytes;
  backup = elim disk.current [ absent ↦ disk.backup | old ↦ old ];
}

-- `FileStore`: the memory store and the disk.
pub record FileStore (D : Type 0) : Type 0 where
  pub memory : MemoryStore
  pub disk : Disk D

abbrev pub is_ok {ℓ} : {A : Type ℓ} → Result A → Bool
is_ok (ok a) = true
is_ok (err e) = false

-- A submit that is stored, and was not before.
abbrev pub is_new : Result Submitted → Bool
is_new (ok r) = not r.repeated
is_new (err e) = false

module _ (valid_date : Text → Bool) where
  -- Whether the method of FileStore goes on to `persist` after the method of the memory store.
  -- CheckIdempotency, GetPending and the lists are not overridden.
  unfoldable pub persists : ℕ → MemoryStore → Event → Bool
  persists now s (Event.saves_message msg) = is_ok (save_message s msg)
  persists now s (Event.updates_sent id provider_id) =
      is_ok (update_message_sent now s id provider_id)
  persists now s (Event.updates_state id state code) =
      is_ok (update_message_state now s id state code)
  persists now s (Event.saves_pending p) = true
  persists now s (Event.updates_dlr provider id state code done_at) =
      is_ok (update_pending_dlr s provider id state code done_at)
  persists now s (Event.readies_dlr provider id state code done_at) =
      is_ok (mark_dlr_ready s provider id state code done_at)
  persists now s (Event.delivers_dlr provider id) = is_ok (mark_dlr_delivered s provider id)
  persists now s (Event.lists_ready system_id limit) = false
  persists now s (Event.gets_pending provider id) = false
  persists now s (Event.lists_pending id) = false
  persists now s (Event.deletes_pending provider id) = true
  persists now s (Event.deletes_by_gateway id) = true
  persists now s (Event.sweeps_expired before) = not (nat_eqb (sweep_expired_pending before s).1 0)
  persists now s Event.counts_pending = false
  persists now s (Event.reserves_ids span) = true
  persists now s (Event.enqueues item) = true
  persists now s (Event.claims worker limit) =
      not (nat_eqb (length (claim_outbox now s worker limit).1) 0)
  persists now s (Event.starts_sending id worker) = is_ok (mark_outbox_sending s id worker)
  persists now s (Event.completes_send id worker ps) =
      is_ok (complete_outbox_send now s id worker ps)
  persists now s (Event.gives_up id worker message) =
      is_ok (mark_outbox_uncertain now s id worker message)
  persists now s (Event.requeues_stale before limit) =
      not (nat_eqb (requeue_stale_outbox before s limit).1 0)
  persists now s (Event.acknowledges id) = is_ok (ack_outbox s id)
  persists now s (Event.fails id message next_retry_at) =
      is_ok (fail_outbox s id message next_retry_at)
  persists now s (Event.checks_idempotency client_id key) = false
  persists now s (Event.saves_idempotency client_id key id ttl) = true
  persists now s (Event.submits msg item opts) =
      is_new (submit_atomic valid_date now s msg item opts).1

  module _ {D : Type 0} (encode : FileSnapshot → D) where
    -- A method of FileStore, with a `persist` that succeeds.
    unfoldable pub file_step : ℕ → FileStore D → Event → FileStore D
    file_step now f e =
        let s = step valid_date now f.memory e in
        record {
          memory = s;
          disk =
              if persists now f.memory e then replaced (encode (snapshot now s)) f.disk else f.disk;
        }

    unfoldable pub run_file : FileStore D → List (ℕ × Event) → FileStore D
    run_file f [] = f
    run_file f ((now, e) ∷ events) = run_file (file_step now f e) events
