-- ===== src/Dispatch/Worker/Runs.antt =====
-- `processOutbox` of internal/dispatch/dispatcher.go as a history of calls of the store.
use mysmpp.Store.Types.{OutboxState, MemoryStore, OutboxItem, Pending, Result, ok, err, Error}
use mysmpp.Dispatch.Worker.{
  finish_refused, completed_or_uncertain, awaited, processed, failure_recorded, SendAnswer,
  SendError, accepted, begin_delivery, complete_delivery, fail_delivery, failure_pending,
  finish_delivery, give_up_sending, is_terminal, or_same, process_outbox,
  queue_terminal_failure_dlr, record_failure, refused, retry_transition, settle_failure,
  terminal_failure_dlr, wants_no_dlr, no_provider, retry_delay,
}
use mysmpp.Base.{
  ℕ, ℤ, ◌≡◌, ◌+◌, ◌≤◌, ◌∙◌, inl, inr, List, [], ◌∷◌, ◌++◌, All, All-append, Option, none, some,
  Text, true, false, Bool, Bool-cases, ap, sym, refl, arith, length, length-append, zero, suc, ◌⊎◌,
}
use mysmpp.Store.Machine.{
  Event, after, run, step, completes_send, gives_up, fails, updates_state, saves_pending,
  deletes_pending,
}
use mysmpp.Store.Messages.{update_message_state}
use mysmpp.Store.Outbox.{complete_outbox_send, mark_outbox_sending}
use mysmpp.Store.Retries.{fail_outbox, mark_outbox_uncertain}
use mysmpp.Dispatch.Worker.Owns.{local_id, IsOwn, awaited-All}

-- In a store where nothing else happens in between, the first answer of a call is the last.
pub retry_transition_lem :
    (left : ℕ) (call : MemoryStore → Result MemoryStore) (s : MemoryStore)
    → retry_transition left call s ≡ call s
unfolding retry_transition
retry_transition_lem zero call s = refl
retry_transition_lem (suc left) call s = go (call s) refl (retry_transition_lem left call s)
  where
    go :
        (r : Result MemoryStore)
        → call s ≡ r
        → retry_transition left call s ≡ call s
        → elim r [ ok u ↦ ok u | err e ↦ retry_transition left call s ] ≡ call s
    go (ok u) e more = sym e
    go (err x) e more = more

module _ (valid_date : Text → Bool) where
  run-append :
      (s : MemoryStore) (xs ys : List (ℕ × Event))
      → run valid_date s (xs ++ ys) ≡ run valid_date (run valid_date s xs) ys
  unfolding run
  run-append s [] ys = refl
  run-append s ((now, e) ∷ xs) ys = run-append (step valid_date now s e) xs ys

  -- The second store is reached from the first by at most `n` calls for the item.
  pub record Runs (item : OutboxItem) (n : ℕ) (s t : MemoryStore) : Type 0 where
    pub events : List (ℕ × Event)
    pub ran : t ≡ run valid_date s events
    pub own : All (λ e. IsOwn item e.1) events
    pub few : length events ≤ n

  none-Runs : (item : OutboxItem) (n : ℕ) (s : MemoryStore) → Runs item n s s
  unfolding run
  none-Runs item n s = record { events = []; ran = refl; own = tt; few = omega arith }

  one-Runs :
      (now : ℕ) (item : OutboxItem) (s t : MemoryStore) (e : Event)
      → IsOwn item e
      → t ≡ step valid_date now s e
      → Runs item 1 s t
  unfolding run
  one-Runs now item s t e own h = record {
    events = (now, e) ∷ [];
    ran = h;
    own = (own, tt);
    few = omega arith;
  }

  Runs-trans :
      (item : OutboxItem) (n m : ℕ) (s t u : MemoryStore)
      → Runs item n s t
      → Runs item m t u
      → Runs item (n + m) s u
  Runs-trans item n m s t u a b = record {
    events = a.events ++ b.events;
    ran = b.ran ∙ ap (λ x. run valid_date x b.events) a.ran ∙ sym (run-append s a.events b.events);
    own = All-append _ a.events b.events a.own b.own;
    few = omega (arith, length-append a.events b.events, a.few, b.few);
  }

  Runs-more :
      (item : OutboxItem) (n m : ℕ) (s t : MemoryStore) → n ≤ m → Runs item n s t → Runs item m s t
  Runs-more item n m s t h a = record {
    events = a.events;
    ran = a.ran;
    own = a.own;
    few = omega (arith, a.few);
  }

  or_same-after : (s : MemoryStore) (r : Result MemoryStore) → or_same s r ≡ after s r
  or_same-after s (ok t) = refl
  or_same-after s (err e) = refl

  give_up_sending-Runs :
      (now : ℕ) (item : OutboxItem) (message : Text) (s : MemoryStore)
      → Runs item 1 s (give_up_sending now item message s)
  unfolding give_up_sending step
  give_up_sending-Runs now item message s =
      one-Runs now item s _ (gives_up item.id item.claimed_by message) (refl, refl)
        (ap (or_same s) (
            retry_transition_lem 2
              (λ t. mark_outbox_uncertain now t item.id item.claimed_by message) s)
          ∙ or_same-after s (mark_outbox_uncertain now s item.id item.claimed_by message))

  begin_delivery-marks :
      (item : OutboxItem) (s : MemoryStore)
      → begin_delivery item s ≡ mark_outbox_sending s item.id item.claimed_by
  unfolding begin_delivery
  begin_delivery-marks item s =
      retry_transition_lem 2 (λ x. mark_outbox_sending x item.id item.claimed_by) s

  complete_delivery-Runs :
      (now ttl : ℕ) (item : OutboxItem) (ids : List Text) (s : MemoryStore)
      → Runs item 2 s (complete_delivery now ttl item ids s)
  unfolding complete_delivery completed_or_uncertain step
  complete_delivery-Runs now ttl item ids s = go _ refl
    where
      call : MemoryStore → Result MemoryStore
      call x = complete_outbox_send now x item.id item.claimed_by (awaited now ttl item.payload ids)

      go :
          (r : Result MemoryStore)
          → retry_transition 2 call s ≡ r
          → Runs item 2 s (completed_or_uncertain now item s r)
      go (ok t) h = Runs-more item 1 2 s t (omega arith) (
          one-Runs now item s t
            (completes_send item.id item.claimed_by (awaited now ttl item.payload ids))
            (refl, refl, awaited-All now ttl item.payload ids)
            (ap (after s) (sym h ∙ retry_transition_lem 2 call s)))
      go (err e) h = Runs-more item 1 2 s _ (omega arith) (give_up_sending-Runs now item _ s)

  -- The receipt that was saved, if any, is for the item.
  IsQueued : OutboxItem → Option Pending → Type 0
  IsQueued item none = Unit
  IsQueued item (some p) =
      (p.provider ≡ item.payload.provider) × (p.provider_id ≡ local_id item.payload)

  queue-Runs :
      (now ttl : ℕ) (item : OutboxItem) (state : Text) (code : ℤ) (s : MemoryStore)
      → Runs item 1 s (queue_terminal_failure_dlr now ttl item state code s).0
        × IsQueued item (queue_terminal_failure_dlr now ttl item state code s).1
  unfolding queue_terminal_failure_dlr step failure_pending IsQueued
  queue-Runs now ttl item state code s =
      elim (Bool-cases (wants_no_dlr item.payload.source_kind item.payload.registered_delivery)) [
        | inl quiet ↦ rw quiet (none-Runs item 1 s, tt)
        | inr wanted ↦ rw wanted (
          one-Runs now item s _ (saves_pending (failure_pending now ttl item.payload state code))
              ((refl, refl), refl) refl,
          (refl, refl),
        )
      ]

  settle_failure-Runs :
      (now ttl : ℕ) (item : OutboxItem) (e : SendError) (s : MemoryStore)
      → Runs item 2 s (settle_failure now ttl item e s).0
        × IsQueued item (settle_failure now ttl item e s).1
  unfolding settle_failure step
  settle_failure-Runs now ttl item e s =
      let (state, code) = terminal_failure_dlr e in
      let t = or_same s (update_message_state now s item.gateway_id state code) in
      let first =
        one-Runs now item s t (updates_state item.gateway_id state code) refl
          (or_same-after s (update_message_state now s item.gateway_id state code)) in
      let (second, queued) = queue-Runs now ttl item state code t in
      (Runs-trans item 1 1 s t _ first second, queued)

  record_failure-Runs :
      (now : ℕ) (item : OutboxItem) (e : SendError) (next : ℕ) (s : MemoryStore)
      (queued : Option Pending)
      → IsQueued item queued
      → Runs item 1 s (record_failure item e next (s, queued)).0
  unfolding record_failure failure_recorded step IsQueued
  record_failure-Runs now item e next s queued own =
      go (fail_outbox s item.id e.message next) refl queued own
    where
      failing : Event
      failing = fails item.id e.message next

      go :
          (r : Result MemoryStore)
          → fail_outbox s item.id e.message next ≡ r
          → (q : Option Pending) → IsQueued item q
          → Runs item 1 s (failure_recorded s r q).0
      go (ok t) h (some p) o = one-Runs now item s t failing refl (ap (after s) (sym h))
      go (ok t) h none o = one-Runs now item s t failing refl (ap (after s) (sym h))
      go (err f) h (some p) o =
          one-Runs now item s _ (deletes_pending p.provider p.provider_id) o refl
      go (err f) h none o = none-Runs item 1 s

  fail_delivery-Runs :
      (now ttl jitter : ℕ) (item : OutboxItem) (e : SendError) (s : MemoryStore)
      → Runs item 3 s (fail_delivery now ttl jitter item e s).0
  unfolding fail_delivery IsQueued
  fail_delivery-Runs now ttl jitter item e s = elim (Bool-cases (is_terminal item e)) [
    | inl final ↦
        let settled = settle_failure now ttl item e s in
        let (first, own) = settle_failure-Runs now ttl item e s in
        rw final (
          Runs-trans item 2 1 s settled.0 _ first
            (record_failure-Runs now item e 0 settled.0 settled.1 own))
    | inr again ↦ rw again (
        Runs-more item 1 3 s _ (omega arith)
          (record_failure-Runs now item e (now + retry_delay item.attempt jitter) s none tt))
  ]

  finish_refused-Runs :
      (final : Bool) (now ttl jitter : ℕ) (item : OutboxItem) (e : SendError) (s : MemoryStore)
      → Runs item 3 s (finish_refused final now ttl jitter item e s).0
  unfolding finish_refused
  finish_refused-Runs true now ttl jitter item e s =
      (let r =
          fail_delivery-Runs now ttl jitter (record item { state = OutboxState.sending }) e s in
        record { events = r.events; ran = r.ran; own = r.own; few = r.few })
  finish_refused-Runs false now ttl jitter item e s =
      Runs-more item 1 3 s _ (omega arith) (give_up_sending-Runs now item e.message s)

  finish_delivery-Runs :
      (now ttl jitter : ℕ) (item : OutboxItem) (answer : SendAnswer) (s : MemoryStore)
      → Runs item 3 s (finish_delivery now ttl jitter item answer s).0
  unfolding finish_delivery
  finish_delivery-Runs now ttl jitter item (accepted ids) s =
      Runs-more item 2 3 s _ (omega arith) (complete_delivery-Runs now ttl item ids s)
  finish_delivery-Runs now ttl jitter item (refused e) s =
      finish_refused-Runs e.permanent now ttl jitter item e s

  -- What processing an item comes to, with a provider that the registry has or does not have.
  abbrev pub Processes : Bool → OutboxItem → MemoryStore → MemoryStore → Type 0
  Processes false item s u = Runs item 3 s u
  Processes true item s u =
      ((e : Error) × (mark_outbox_sending s item.id item.claimed_by ≡ err e) × (u ≡ s))
      ⊎ ((t : MemoryStore) × (mark_outbox_sending s item.id item.claimed_by ≡ ok t)
          × Runs item 3 t u)

  -- Processing an outbox item, whatever the provider answers, is a short history of calls of the
  -- store. With a provider that the registry has, the first call is MarkOutboxSending for the item and
  -- its worker; if that fails, the store stays as it is, and if it succeeds, at most three calls
  -- follow. With no such provider there are at most three calls. Each of the calls is on the entry of
  -- the item, on its message, a completion with records of the message and provider of its payload, or
  -- on the one receipt that says that the message never left.
  pub process_outbox-Runs :
      (now ttl jitter : ℕ) (registered : Bool) (answer : SendAnswer) (item : OutboxItem)
      (s : MemoryStore)
      → Processes registered item s (process_outbox now ttl jitter registered answer item s).0
  unfolding process_outbox processed
  process_outbox-Runs now ttl jitter false answer item s =
      fail_delivery-Runs now ttl jitter item (no_provider item) s
  process_outbox-Runs now ttl jitter true answer item s =
      go (begin_delivery item s) (sym (begin_delivery-marks item s))
    where
      go :
          (r : Result MemoryStore)
          → mark_outbox_sending s item.id item.claimed_by ≡ r
          → Processes true item s (processed now ttl jitter item answer s r).0
      go (ok t) h = inr (t, h, finish_delivery-Runs now ttl jitter item answer t)
      go (err e) h = inl (e, h, refl)
