-- ===== src/Dispatch/Worker/Delivery.antt =====
-- Workers and other callers of the store at once: `processOutbox` of internal/dispatch/dispatcher.go
-- split at the call of the provider, with any calls of the store in between.
use mathlib.Core.Path.{subst}
use mysmpp.Store.Machine.{starts_sending, Event, step}
use mysmpp.Store.Machine.Step.{step-Advances}
use mysmpp.Store.Machine.Valid.{step-IsValid}
use mysmpp.Store.Valid.{IsValid}
use mysmpp.Store.Outbox.{mark_outbox_sending}
use mysmpp.Base.{
  arith, ◌+◌, ◌<◌, ◌^◌, All-imp, length, ◌≤◌, ℕ, ◌≡◌, List, [], ◌∷◌, Text, Bool, refl, nat_eq,
}
use mysmpp.Store.Types.{MemoryStore, OutboxItem, Result, ok, err}
use mysmpp.Dispatch.Worker.{begin_delivery}
use mysmpp.Dispatch.Worker.World.{calls, delivers, World, Act, deliver, act, act_all, OneWorker}
use mysmpp.Dispatch.Worker.Sent.{
  AllSent, WasSent-Moves, earlier_call, retry_transition-ok, sent_lem,
}

module _ (valid_date : Text → Bool) where
  step-AllSent :
      (now : ℕ) (s : MemoryStore) (e : Event) (sent : List (ℕ × Text))
      → s.next_outbox + 1 < 2 ^ 64
      → IsValid s
      → AllSent s sent
      → AllSent (step valid_date now s e) sent
  step-AllSent now s e sent room v h =
      All-imp _ _
        (λ x g.
          WasSent-Moves s (step valid_date now s e) x.0 x.1
            ((step-Advances valid_date now s e room v).moves) g)
        sent h

  -- The store after the start of a delivery is that after the call of MarkOutboxSending.
  begin_delivery-step :
      (now : ℕ) (item : OutboxItem) (s t : MemoryStore)
      → mark_outbox_sending s item.id item.claimed_by ≡ ok t
      → step valid_date now s (starts_sending item.id item.claimed_by) ≡ t
  unfolding step
  begin_delivery-step now item s t h = rw h refl

  -- The providers' calls, and what holds of their items.
  record IsServed (w : World) : Type 0 where
    valid : IsValid w.store
    all_sent : AllSent w.store w.sent
    one_worker : OneWorker w.sent

  deliver-IsServed :
      (w : World) (item : OutboxItem) (r : Result MemoryStore)
      → begin_delivery item w.store ≡ r
      → w.store.next_outbox + 1 < 2 ^ 64
      → IsServed w
      → IsServed (deliver w item r)
  unfolding deliver begin_delivery
  deliver-IsServed w item (err e) h room v = v
  deliver-IsServed w item (ok t) h room v =
      let s = w.store in
      let marked = retry_transition-ok 2 (λ x. mark_outbox_sending x item.id item.claimed_by) s h in
      let same = begin_delivery-step 0 item s t marked in
      let (new, (old, found, (mine, state))) = sent_lem s t item.id item.claimed_by marked in
      record {
        valid = subst IsValid same (step-IsValid valid_date 0 s _ room v.valid);
        all_sent = (
          new,
          subst (λ x. AllSent x w.sent) same (step-AllSent 0 s _ w.sent room v.valid v.all_sent),
        );
        one_worker = (
          All-imp _ _ (λ e g. earlier_call s old item.claimed_by e.0 item.id e.1 found mine state g)
              w.sent v.all_sent,
          v.one_worker,
        );
      }

  act-IsServed :
      (w : World) (a : Act)
      → w.store.next_outbox + 1 < 2 ^ 64
      → IsServed w
      → IsServed (act valid_date w a)
  unfolding act
  act-IsServed w (calls now e) room v = record {
    valid = step-IsValid valid_date now w.store e room v.valid;
    all_sent = step-AllSent now w.store e w.sent room v.valid v.all_sent;
    one_worker = v.one_worker;
  }
  act-IsServed w (delivers item) room v = deliver-IsServed w item _ refl room v

  act-grows :
      (w : World) (a : Act)
      → w.store.next_outbox + 1 < 2 ^ 64
      → IsServed w
      → (act valid_date w a).store.next_outbox ≤ w.store.next_outbox + 1
  unfolding act deliver begin_delivery
  act-grows w (calls now e) room v = (step-Advances valid_date now w.store e room v.valid).grows
  act-grows w (delivers item) room v = go _ refl
    where
      go :
          (r : Result MemoryStore)
          → begin_delivery item w.store ≡ r
          → (deliver w item r).store.next_outbox ≤ w.store.next_outbox + 1
      go (err e) h = omega arith
      go (ok t) h =
          subst (λ (x : MemoryStore). x.next_outbox ≤ w.store.next_outbox + 1)
            (begin_delivery-step 0 item w.store t (
              retry_transition-ok 2 (λ x. mark_outbox_sending x item.id item.claimed_by) w.store h))
            (step-Advances valid_date 0 w.store (starts_sending item.id item.claimed_by) room
              v.valid).grows

  act_all-IsServed :
      (w : World) (acts : List Act)
      → w.store.next_outbox + length acts < 2 ^ 64
      → IsServed w
      → IsServed (act_all valid_date w acts)
  unfolding act_all
  act_all-IsServed w [] room v = v
  act_all-IsServed w (a ∷ acts) room v =
      act_all-IsServed (act valid_date w a) acts (omega (arith, act-grows w a (omega arith) v))
        (act-IsServed w a (omega arith) v)

  -- No two workers send one item: from a valid store, and while the history leaves room in the id
  -- space, two calls of a provider for the same outbox item are made by the same worker, whatever
  -- calls of the store come between the steps of the workers.
  pub act_all-OneWorker :
      (s : MemoryStore) (acts : List Act)
      → s.next_outbox + length acts < 2 ^ 64
      → IsValid s
      → OneWorker (act_all valid_date (record { store = s; sent = [] }) acts).sent
  act_all-OneWorker s acts room v =
      (act_all-IsServed (record { store = s; sent = [] }) acts room
        (record { valid = v; all_sent = tt; one_worker = tt })).one_worker
