-- ===== src/Dispatch/Worker/Failure.antt =====
-- How `markOutboxUncertainWithContext` and `failOutbox` of internal/dispatch/dispatcher.go leave an
-- item.
use mysmpp.Store.Pendings.{sweep, save_pending}
use mysmpp.Base.{
  set, ℕ, ℤ, ◌≡◌, ◌∙◌, inl, inr, none, some, Option, Option-cases, Text, Bool-cases, ap, sym, refl,
  lookup, insert, lookup-insert_self, nat_eq, text_eq, text_eqb_iff,
}
-- Where `processOutbox` of internal/dispatch/dispatcher.go leaves an item.
use mathlib.Core.Path.{subst}
use mysmpp.Store.Types.{MemoryStore, OutboxItem, OutboxState, Pending, Result, ok, err}
use mysmpp.Store.Messages.{update_message_state}
use mysmpp.Store.Messages.Index.{IsIndexed}
use mysmpp.Store.Messages.Keep.{write_at-ok}
use mysmpp.Store.Retries.{
  mark_unknown, unknown_message, mark_outbox_uncertain, give_up, uncertain_item, fail_outbox,
  fail_item,
}
use mysmpp.Store.Machine.Frame.{Frame, mark_unknown-Frame, update_message_state-Frame}
use mysmpp.Dispatch.Worker.{
  SendError, failure_recorded, give_up_sending, or_same, queue_terminal_failure_dlr, record_failure,
  retry_transition, settle_failure, terminal_failure_dlr, wants_no_dlr,
}
use mysmpp.Dispatch.Worker.Runs.{retry_transition_lem}

-- The item is stored in this state.
abbrev pub StandsAt : ℕ → OutboxState → MemoryStore → Type 0
StandsAt id state s = (item : OutboxItem) × (lookup id s.outbox ≡ some item) × (item.state ≡ state)

pub mark_unknown_total :
    (now : ℕ) (s : MemoryStore) (gateway_id : Text)
    → IsIndexed s.messages s.message_by_id
    → (t : MemoryStore) × (mark_unknown now s gateway_id ≡ ok t)
unfolding mark_unknown
mark_unknown_total now s gateway_id v = elim (Option-cases (lookup gateway_id s.message_by_id)) [
  | inl miss ↦ (s, rw (miss, mark_unknown) refl)
  | inr (i, hit) ↦
      let (m, there, same) = v.find gateway_id i hit in
      (
        record s { messages = set s.messages i (unknown_message now m) },
        rw (hit, mark_unknown, there) (write_at-ok s i m (unknown_message now m) there),
      )
]

pub give_up_settles :
    (now : ℕ) (s : MemoryStore) (id : ℕ) (worker message : Text) (x : OutboxItem)
    → IsIndexed s.messages s.message_by_id
    → x.state ≡ OutboxState.sending
    → x.claimed_by ≡ worker
    → (t : MemoryStore) × (give_up now s id worker message x ≡ ok t)
      × StandsAt id OutboxState.uncertain t
unfolding give_up uncertain_item
give_up_settles now s id worker message x v sending mine =
    let put : MemoryStore = record s { outbox = insert id (uncertain_item message x) s.outbox } in
    let (t, done) = mark_unknown_total now put x.gateway_id v in
    let same = (mark_unknown-Frame now put x.gateway_id done).0 in
    (
      t,
      rw (sending, (text_eqb_iff x.claimed_by worker).1 mine) done,
      (
        uncertain_item message x,
        ap (λ m. lookup id m) same ∙ lookup-insert_self id (uncertain_item message x) s.outbox,
        refl,
      ),
    )

pub give_up_sending_settles :
    (now : ℕ) (s : MemoryStore) (item x : OutboxItem) (message : Text)
    → IsIndexed s.messages s.message_by_id
    → lookup item.id s.outbox ≡ some x
    → x.state ≡ OutboxState.sending
    → x.claimed_by ≡ item.claimed_by
    → StandsAt item.id OutboxState.uncertain (give_up_sending now item message s)
unfolding give_up_sending mark_outbox_uncertain
give_up_sending_settles now s item x message v hit sending mine =
    let (t, done, stands) =
      give_up_settles now s item.id item.claimed_by message x v sending mine in
    let call : MemoryStore → Result MemoryStore =
      λ t. mark_outbox_uncertain now t item.id item.claimed_by message in
    let e : retry_transition 2 call s ≡ ok t = retry_transition_lem 2 call s ∙ rw hit done in
    subst (StandsAt item.id OutboxState.uncertain) (sym (ap (or_same s) e)) stands

-- What a final failure writes before FailOutbox is not about the outbox.
pub or_same-outbox :
    (s : MemoryStore) (r : Result MemoryStore)
    → ((t : MemoryStore) → r ≡ ok t → Frame s t)
    → (or_same s r).outbox ≡ s.outbox
or_same-outbox s (ok t) f = (f t refl).0
or_same-outbox s (err e) f = refl

pub queue-outbox :
    (now ttl : ℕ) (item : OutboxItem) (state : Text) (code : ℤ) (s : MemoryStore)
    → (queue_terminal_failure_dlr now ttl item state code s).0.outbox ≡ s.outbox
unfolding queue_terminal_failure_dlr save_pending sweep
queue-outbox now ttl item state code s =
    elim (Bool-cases (wants_no_dlr item.payload.source_kind item.payload.registered_delivery)) [
      | inl none_wanted ↦ rw none_wanted refl
      | inr wanted ↦ rw wanted refl
    ]

pub settle_failure-outbox :
    (now ttl : ℕ) (item : OutboxItem) (e : SendError) (s : MemoryStore)
    → (settle_failure now ttl item e s).0.outbox ≡ s.outbox
unfolding settle_failure
settle_failure-outbox now ttl item e s =
    let (state, code) = terminal_failure_dlr e in
    queue-outbox now ttl item state code _
    ∙ or_same-outbox s (update_message_state now s item.gateway_id state code)
        (λ t h. update_message_state-Frame now s item.gateway_id state code h)

pub failure_recorded-ok :
    (s t : MemoryStore) (queued : Option Pending) → (failure_recorded s (ok t) queued).0 ≡ t
unfolding failure_recorded
failure_recorded-ok s t none = refl
failure_recorded-ok s t (some p) = refl

pub fail_item-sending :
    (message : Text) (x : OutboxItem)
    → x.state ≡ OutboxState.sending
    → fail_item message 0 x ≡ ok (record x { last_error = message; state = OutboxState.failed })
unfolding fail_item
fail_item-sending message x h = rw h refl

pub record_failure_settles :
    (item x : OutboxItem) (e : SendError) (settled : MemoryStore × Option Pending)
    → lookup item.id settled.0.outbox ≡ some x
    → x.state ≡ OutboxState.sending
    → StandsAt item.id OutboxState.failed (record_failure item e 0 settled).0
unfolding record_failure fail_outbox
record_failure_settles item x e (s, queued) hit sending =
    let failing = record x { last_error = e.message; state = OutboxState.failed } in
    let t : MemoryStore = record s { outbox = insert item.id failing s.outbox } in
    let call : fail_outbox s item.id e.message 0 ≡ ok t =
      rw (hit, fail_item-sending e.message x sending) refl in
    subst (StandsAt item.id OutboxState.failed)
      (sym (ap (λ r. (failure_recorded s r queued).0) call ∙ failure_recorded-ok s t queued))
      (failing, lookup-insert_self item.id failing s.outbox, refl)
