-- ===== src/Store/Examples.antt =====
-- Concrete data for the tests: a message, its submit, and a history up to its sending.
use mysmpp.Store.Machine.{step, Event, run}
use mysmpp.Store.Types.{
  Pending, Message, OutboxItem, OutboxPayload, OutboxState, MemoryStore, new_memory, SubmitOptions,
  DailyQuotaDebit,
}
use mysmpp.Base.{ℕ, List, [], ◌∷◌, some, Text, codes, pos, nat_eq, true, false, arith, Bool}
use mysmpp.Store.Submit.{submit_atomic}
use mysmpp.Store.Valid.{IsValid, new_memory-IsValid}
use mysmpp.Store.Machine.History.{run-IsValid}

abbrev pub first_message : Message
first_message = record {
  id = codes "g1";
  provider_id = [];
  tenant_id = codes "t";
  account_id = [];
  client_msg_id = [];
  direction = codes "MT";
  from_addr = codes "100";
  to_addr = codes "200";
  text = codes "hi";
  encoding = codes "gsm7";
  route = [];
  provider = codes "p";
  source_kind = [];
  source_id = [];
  state = codes "accepted";
  error_code = pos 0;
  segments = [];
  metadata = [];
  submitted_at = 1;
  sent_at = 0;
  done_at = 0;
}

abbrev pub first_payload : OutboxPayload
first_payload = record {
  gateway_id = codes "g1";
  tenant_id = codes "t";
  account_id = [];
  client_msg_id = [];
  provider = codes "p";
  route = [];
  from_addr = codes "100";
  to_addr = codes "200";
  text = codes "hi";
  data_coding = 0;
  registered_delivery = 1;
  encoding = codes "gsm7";
  meta = [];
  source_kind = [];
  source_session = [];
  source_system = [];
  callback_url = [];
  callback_rule = [];
  received_at = 1;
  udh = [];
  raw_payload = [];
  raw_payload_set = false;
  sar_ref_num = [];
  sar_total_segments = [];
  sar_segment_seqnum = [];
  sar_set = false;
}

abbrev pub first_item : OutboxItem
first_item = record {
  id = 0;
  gateway_id = codes "g1";
  provider = codes "p";
  payload = first_payload;
  state = OutboxState.unset;
  claimed_by = [];
  claimed_at = 0;
  next_retry_at = 0;
  attempt = 0;
  max_attempts = pos 3;
  last_error = [];
  created_at = 0;
}

abbrev pub debit : DailyQuotaDebit
debit = record { tenant_id = codes "t"; date = codes "2024-01-01"; segments = pos 2; limit = pos 5 }

abbrev pub options : SubmitOptions
options = record {
  idempotency = record { client_id = codes "c"; key = codes "k"; ttl = pos 0 };
  quota = some debit;
}

abbrev pub valid_date : Text → Bool
valid_date d = true

abbrev pub worker : Text
worker = codes "w"

-- One submit, claimed and in sending.
abbrev pub submitted_store : MemoryStore
submitted_store = (submit_atomic valid_date 5 new_memory first_message first_item options).0

abbrev pub events : List (ℕ × Event)
events =
    (5, Event.submits first_message first_item options)
    ∷ (6, Event.claims worker (pos 1))
    ∷ (7, Event.starts_sending 1 worker)
    ∷ []

abbrev pub sending_store : MemoryStore
sending_store = run valid_date new_memory events

pub sending_store-IsValid : IsValid sending_store
unfolding new_memory
sending_store-IsValid = run-IsValid valid_date new_memory events (omega arith) new_memory-IsValid

abbrev pub item_in_sending : OutboxItem
item_in_sending = record first_item {
  id = 1;
  state = OutboxState.sending;
  claimed_by = worker;
  claimed_at = 6;
  next_retry_at = 5;
  attempt = 1;
  created_at = 5;
}

-- A record of the provider's answer, and one for another message.
abbrev pub answer : Pending
answer = record {
  provider_id = codes "x9";
  gateway_id = codes "g1";
  tenant_id = codes "t";
  account_id = [];
  client_msg_id = [];
  segment_index = pos 1;
  segment_count = pos 1;
  source_kind = [];
  source_session = [];
  source_system = [];
  callback_url = [];
  callback_rule = [];
  from_addr = codes "100";
  to_addr = codes "200";
  text = codes "hi";
  data_coding = 0;
  registered_delivery = 1;
  provider = codes "p";
  route = [];
  received_at = 1;
  expires_at = 0;
  dlr_ready = false;
  dlr_delivered = false;
  dlr_state = [];
  dlr_error_code = pos 0;
  dlr_done_at = 0;
}

pub submitted_store-IsValid : IsValid submitted_store
unfolding run step new_memory
submitted_store-IsValid =
    run-IsValid valid_date new_memory ((5, Event.submits first_message first_item options) ∷ [])
      (omega arith) new_memory-IsValid
