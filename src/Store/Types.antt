-- ===== src/Store/Types.antt =====
-- internal/store/memory.go and internal/message/message.go: the records. A Go string is its list of
-- bytes. A `time.Time` is the number of nanoseconds since the zero time, so `IsZero` is a test for 0.
use mysmpp.Sms.Split.{Segment}
use mathlib.Core.Path.{subst}
use mysmpp.Base.{
  ℕ, Bool, Text, List, [], Option, none, some, Dict, ℤ, nat_eqb, true, false, refl, ◌≡◌,
}

pub record Message : Type 0 where
  pub id : Text
  pub provider_id : Text
  pub tenant_id : Text
  pub account_id : Text
  pub client_msg_id : Text
  pub direction : Text
  pub from_addr : Text
  pub to_addr : Text
  pub text : Text
  pub encoding : Text
  pub route : Text
  pub provider : Text
  pub source_kind : Text
  pub source_id : Text
  pub state : Text
  pub error_code : ℤ
  pub segments : List Segment
  pub metadata : Dict Text Text
  pub submitted_at : ℕ
  pub sent_at : ℕ
  pub done_at : ℕ

pub record Pending : Type 0 where
  pub provider_id : Text
  pub gateway_id : Text
  pub tenant_id : Text
  pub account_id : Text
  pub client_msg_id : Text
  pub segment_index : ℤ
  pub segment_count : ℤ
  pub source_kind : Text
  pub source_session : Text
  pub source_system : Text
  pub callback_url : Text
  pub callback_rule : Text
  pub from_addr : Text
  pub to_addr : Text
  pub text : Text
  pub data_coding : ℕ
  pub registered_delivery : ℕ
  pub provider : Text
  pub route : Text
  pub received_at : ℕ
  pub expires_at : ℕ
  pub dlr_ready : Bool
  pub dlr_delivered : Bool
  pub dlr_state : Text
  pub dlr_error_code : ℤ
  pub dlr_done_at : ℕ

pub record OutboxPayload : Type 0 where
  pub gateway_id : Text
  pub tenant_id : Text
  pub account_id : Text
  pub client_msg_id : Text
  pub provider : Text
  pub route : Text
  pub from_addr : Text
  pub to_addr : Text
  pub text : Text
  pub data_coding : ℕ
  pub registered_delivery : ℕ
  pub encoding : Text
  pub meta : Dict Text Text
  pub source_kind : Text
  pub source_session : Text
  pub source_system : Text
  pub callback_url : Text
  pub callback_rule : Text
  pub received_at : ℕ
  pub udh : List ℕ
  pub raw_payload : List ℕ
  pub raw_payload_set : Bool
  pub sar_ref_num : List ℕ
  pub sar_total_segments : List ℕ
  pub sar_segment_seqnum : List ℕ
  pub sar_set : Bool

-- The strings that the code writes into `State`; `other n` stands for any other string.
pub data OutboxState : Type 0 where
  unset pending claimed sending done uncertain failed : OutboxState
  other : ℕ → OutboxState

abbrev pub state_eqb : OutboxState → OutboxState → Bool
state_eqb OutboxState.unset OutboxState.unset = true
state_eqb OutboxState.pending OutboxState.pending = true
state_eqb OutboxState.claimed OutboxState.claimed = true
state_eqb OutboxState.sending OutboxState.sending = true
state_eqb OutboxState.done OutboxState.done = true
state_eqb OutboxState.uncertain OutboxState.uncertain = true
state_eqb OutboxState.failed OutboxState.failed = true
state_eqb (OutboxState.other m) (OutboxState.other n) = nat_eqb m n
state_eqb _ _ = false

pub record OutboxItem : Type 0 where
  pub id : ℕ
  pub gateway_id : Text
  pub provider : Text
  pub payload : OutboxPayload
  pub state : OutboxState
  pub claimed_by : Text
  pub claimed_at : ℕ
  pub next_retry_at : ℕ
  pub attempt : ℕ
  pub max_attempts : ℤ
  pub last_error : Text
  pub created_at : ℕ

pub record IdempotencyRecord : Type 0 where
  pub gateway_id : Text
  pub expires_at : ℕ

pub record ListOptions : Type 0 where
  pub limit : ℤ
  pub offset : ℤ
  pub client_id : Text

pub record DailyQuotaDebit : Type 0 where
  pub tenant_id : Text
  pub date : Text
  pub segments : ℤ
  pub limit : ℤ

pub record IdempotencyOptions : Type 0 where
  pub client_id : Text
  pub key : Text
  pub ttl : ℤ

pub record SubmitOptions : Type 0 where
  pub idempotency : IdempotencyOptions
  pub quota : Option DailyQuotaDebit

pub record MemoryStore : Type 0 where
  pub messages : List Message
  pub message_by_id : Dict Text ℕ
  pub pending : Dict Text Pending
  pub outbox : Dict ℕ OutboxItem
  pub next_outbox : ℕ
  pub idempotency : Dict (Text × Text) IdempotencyRecord
  pub quota_usage : Dict (Text × Text) ℕ
  pub gateway_seq : ℕ
  pub last_sweep : ℕ
  pub max_messages : ℤ

-- The errors that the operations return; `out_of_range` is the panic of a slice index.
pub data Error : Type 0 where
  not_found quota_exceeded invalid_quota invalid_quota_date not_claimed not_sending not_owned
        cannot_fail cannot_retry no_pending empty_provider_id pending_mismatch out_of_range :
      Error

pub data Result {ℓ} (A : Type ℓ) : Type ℓ where
  ok : A → Result A
  err : Error → Result A

infixl 5 ◌>>=◌
abbrev pub ◌>>=◌ {ℓ κ} : {A : Type ℓ} {B : Type κ} → Result A → (A → Result B) → Result B
err e >>= next = err e
ok x >>= next = next x

abbrev pub or_fail {ℓ} : {A : Type ℓ} → Option A → Error → Result A
or_fail none e = err e
or_fail (some a) e = ok a

-- `NewMemory`.
unfoldable pub new_memory : MemoryStore
new_memory = record {
  messages = [];
  message_by_id = [];
  pending = [];
  outbox = [];
  next_outbox = 0;
  idempotency = [];
  quota_usage = [];
  gateway_seq = 0;
  last_sweep = 0;
  max_messages = ℤ.pos 10000;
}

-- Inversion of a successful bind and of a successful read.
pub bind-ok {ℓ κ} :
    {A : Type ℓ} {B : Type κ} (first : Result A) (next : A → Result B) {out : B}
    → (first >>= next) ≡ ok out
    → (x : A) × (first ≡ ok x) × (next x ≡ ok out)
bind-ok (err e) next h = absurd (cc)
bind-ok (ok x) next h = (x, refl, h)

pub or_fail-ok {ℓ} :
    {A : Type ℓ} (o : Option A) (e : Error) {a : A} → or_fail o e ≡ ok a → o ≡ some a
or_fail-ok none e h = absurd (cc)
or_fail-ok (some b) e h = cc

-- A property of a result is one of what the operation is known to return.
pub ok_subst {ℓ κ} : {A : Type ℓ} (P : A → Type κ) {a b : A} → ok a ≡ ok b → P a → P b
ok_subst P {a} {b} h p = let e : a ≡ b = cc in subst P e p
