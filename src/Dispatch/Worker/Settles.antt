-- ===== src/Dispatch/Worker/Settles.antt =====
-- Where `processOutbox` of internal/dispatch/dispatcher.go leaves an item.
use mysmpp.Base.{
  codes, ℕ, ◌≡◌, ◌∙◌, ◌⊎◌, inl, inr, List, some, Text, true, false, Bool, ap, sym, refl, arith,
  lookup, insert, lookup-insert_self, nat_eq, text_eq, eq_refl, if◌then◌else◌,
}
use mathlib.Core.Path.{subst}
use mysmpp.Store.Types.{MemoryStore, OutboxItem, OutboxState, Pending, Result, ok, err}
use mysmpp.Store.Messages.Index.{IsIndexed}
use mysmpp.Store.Outbox.{mark_outbox_sending, sending_item, complete_outbox_send, finish_item}
use mysmpp.Store.Outbox.Complete.{Completes, complete_outbox_send_lem}
use mysmpp.Store.Valid.{IsValid}
use mysmpp.Dispatch.Worker.{
  SendAnswer, SendError, accepted, refused, begin_delivery, complete_delivery,
  completed_or_uncertain, awaited, fail_delivery, finish_delivery, finish_refused, is_terminal,
  process_outbox, processed, settle_failure,
}
use mysmpp.Dispatch.Worker.Runs.{retry_transition_lem}
use mysmpp.Dispatch.Worker.Failure.{
  StandsAt, give_up_sending_settles, record_failure_settles, settle_failure-outbox,
}

-- An item that is sending in the store, for the worker that has it.
record IsSending (item : OutboxItem) (s : MemoryStore) : Type 0 where
  stored : OutboxItem
  hit : lookup item.id s.outbox ≡ some stored
  sending : stored.state ≡ OutboxState.sending
  mine : stored.claimed_by ≡ item.claimed_by
  indexed : IsIndexed s.messages s.message_by_id

complete_delivery_settles :
    (now ttl : ℕ) (item : OutboxItem) (ids : List Text) (s : MemoryStore)
    → IsSending item s
    → StandsAt item.id OutboxState.done (complete_delivery now ttl item ids s)
      ⊎ StandsAt item.id OutboxState.uncertain (complete_delivery now ttl item ids s)
unfolding complete_delivery finish_item completed_or_uncertain
complete_delivery_settles now ttl item ids s v =
    go _ (retry_transition_lem 2 (λ t. complete_outbox_send now t item.id item.claimed_by ps) s)
  where
    ps : List Pending
    ps = awaited now ttl item.payload ids

    Ends : MemoryStore → Type 0
    Ends t = StandsAt item.id OutboxState.done t ⊎ StandsAt item.id OutboxState.uncertain t

    written :
        (t : MemoryStore) (x : OutboxItem)
        → lookup item.id s.outbox ≡ some x
        → ((x.state ≡ OutboxState.done) × (t ≡ s))
          ⊎ ((x.state ≡ OutboxState.sending)
              × (x.claimed_by ≡ item.claimed_by)
              × Completes now s item.id x ps t)
        → Ends t
    written t x e (inl (done, same)) =
        let p : x ≡ v.stored = cc (e, v.hit) in
        absurd (cc (done, v.sending, ap (λ (i : OutboxItem). i.state) p))
    written t x e (inr (sending, mine, c)) = inl (
      finish_item x,
      ap (λ (u : MemoryStore). lookup item.id u.outbox) c.result
          ∙ lookup-insert_self item.id (finish_item x) s.outbox,
      refl,
    )

    go :
        (tried : Result MemoryStore)
        → tried ≡ complete_outbox_send now s item.id item.claimed_by ps
        → Ends (completed_or_uncertain now item s tried)
    go (ok t) e =
        let (x, there, how) = complete_outbox_send_lem now s t item.id item.claimed_by ps (sym e) in
        written t x there how
    go (err x) e = inr (
        give_up_sending_settles now s item v.stored (codes "persist sent result") v.indexed v.hit
          v.sending v.mine)

finish_refused_settles :
    (final : Bool) (now ttl jitter : ℕ) (item : OutboxItem) (e : SendError) (s : MemoryStore)
    → e.permanent ≡ final
    → IsSending item s
    → StandsAt item.id
        (if final then OutboxState.failed else OutboxState.uncertain)
        (finish_refused final now ttl jitter item e s).0
unfolding finish_refused fail_delivery
finish_refused_settles false now ttl jitter item e s p v =
    give_up_sending_settles now s item v.stored e.message v.indexed v.hit v.sending v.mine
finish_refused_settles true now ttl jitter item e s p v =
    let mine = record item { state = OutboxState.sending } in
    let last : is_terminal mine e ≡ true = ground (arith, p) in
    rw last (
      record_failure_settles mine v.stored e (settle_failure now ttl mine e s)
        (ap (λ m. lookup item.id m) (settle_failure-outbox now ttl mine e s) ∙ v.hit) v.sending)

begin_delivery-claimed :
    (item : OutboxItem) (s : MemoryStore)
    → lookup item.id s.outbox ≡ some item
    → item.state ≡ OutboxState.claimed
    → begin_delivery item s
      ≡ ok (record s {
        outbox = insert item.id (record item { state = OutboxState.sending }) s.outbox;
      })
unfolding begin_delivery mark_outbox_sending sending_item
begin_delivery-claimed item s hit claimed =
    retry_transition_lem 2 (λ t. mark_outbox_sending t item.id item.claimed_by) s
    ∙ rw (hit, claimed, eq_refl item.claimed_by) refl

begun-IsSending :
    (item : OutboxItem) (s : MemoryStore)
    → IsValid s
    → IsSending item (record s {
      outbox = insert item.id (record item { state = OutboxState.sending }) s.outbox;
    })
begun-IsSending item s v = record {
  stored = record item { state = OutboxState.sending };
  hit = lookup-insert_self item.id (record item { state = OutboxState.sending }) s.outbox;
  sending = refl;
  mine = refl;
  indexed = v.indexed;
}

-- What an answer of the provider may lead to.
abbrev pub SettledBy : SendAnswer → ℕ → MemoryStore → Type 0
SettledBy (accepted ids) id s = StandsAt id OutboxState.done s ⊎ StandsAt id OutboxState.uncertain s
SettledBy (refused e) id s =
    StandsAt id (if e.permanent then OutboxState.failed else OutboxState.uncertain) s

finish_delivery_settles :
    (now ttl jitter : ℕ) (item : OutboxItem) (answer : SendAnswer) (s : MemoryStore)
    → IsSending item s
    → SettledBy answer item.id (finish_delivery now ttl jitter item answer s).0
unfolding finish_delivery
finish_delivery_settles now ttl jitter item (accepted ids) s v =
    complete_delivery_settles now ttl item ids s v
finish_delivery_settles now ttl jitter item (refused e) s v =
    finish_refused_settles e.permanent now ttl jitter item e s refl v

-- Processing an item that the worker has claimed, in a valid store and with a registered provider,
-- brings it to rest, so that no item is left in sending: an accepted message is done or uncertain, a
-- permanent error leaves the item failed, and any other error uncertain.
pub process_outbox_settles :
    (now ttl jitter : ℕ) (answer : SendAnswer) (item : OutboxItem) (s : MemoryStore)
    → IsValid s
    → lookup item.id s.outbox ≡ some item
    → item.state ≡ OutboxState.claimed
    → SettledBy answer item.id (process_outbox now ttl jitter true answer item s).0
unfolding process_outbox processed
process_outbox_settles now ttl jitter answer item s v hit claimed =
    subst (λ r. SettledBy answer item.id (processed now ttl jitter item answer s r).0)
      (sym (begin_delivery-claimed item s hit claimed))
      (finish_delivery_settles now ttl jitter item answer _ (begun-IsSending item s v))
