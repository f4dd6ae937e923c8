-- ===== src/Store/File/Quiet.antt =====
-- Calls of internal/store/file.go that do not write the file.
use mysmpp.Store.Pendings.{
  list_ready_dlr, list_pending_by_gateway_id, pending_size, sweep_expired_pending, sweep,
}
use mysmpp.Store.Submit.Steps.{submit_new-Submits}
use mysmpp.Base.{
  insert, ℕ, ◌≡◌, ◌≤◌, ◌+◌, Bool, true, false, not, List, [], ◌∷◌, Option, none, some, Text, arith,
  refl, sym, ap, ◌∙◌, nat_eq, nat_eqb, Dict, length, map, positive_or, leb,
}
use mysmpp.Store.Retries.{requeue_item, requeue_stale_outbox, requeue_loop, is_stale}
use mysmpp.Store.Types.{Message, OutboxItem, SubmitOptions, MemoryStore, Result, ok, err}
use mysmpp.Store.Outbox.{claim_outbox, claim_item, candidates, write_items}
use mysmpp.Store.Submit.{submit_atomic, submit_new, settle, earlier, Submitted}
use mysmpp.Store.Machine.{Event, step, after}
use mysmpp.Store.Machine.Frame.{sweep-Frame, get_pending-Frame, check_idempotency-Frame}
use mysmpp.Store.File.{is_ok, is_new, persists}

pub after_error :
    (s : MemoryStore) (r : Result MemoryStore) → is_ok r ≡ false → (after s r).outbox ≡ s.outbox
after_error s (ok t) h = absurd (cc)
after_error s (err e) h = refl

-- A claim of nothing writes nothing.
pub write_none :
    (items : List OutboxItem) (m : Dict ℕ OutboxItem)
    → not (nat_eqb (length items) 0) ≡ false
    → write_items items m ≡ m
unfolding write_items
write_none [] m h = refl
write_none (item ∷ items) m h = absurd (ground arith)

-- One round of the loop, by what the rest returns.
abbrev pub round_of :
    Bool
    → Bool
    → Dict ℕ OutboxItem × ℕ
    → Dict ℕ OutboxItem × ℕ
    → Dict ℕ OutboxItem × ℕ
    → Dict ℕ OutboxItem × ℕ
round_of false full skipped last more = skipped
round_of true true skipped last more = last
round_of true false skipped last more = more

pub requeue_loop_round :
    (before room id : ℕ) (item : OutboxItem) (entries : Dict ℕ OutboxItem) (count : ℕ)
    (m : Dict ℕ OutboxItem)
    → requeue_loop before room ((id, item) ∷ entries) count m
      ≡ round_of
          (is_stale before item)
          (leb room (count + 1))
          (requeue_loop before room entries count m)
          (insert id (requeue_item before item) m, count + 1)
          (requeue_loop before room entries (count + 1) (insert id (requeue_item before item) m))
unfolding requeue_loop
requeue_loop_round before room id item entries count m =
    go (is_stale before item) (leb room (count + 1)) _ _ _
  where
    go :
        (stale full : Bool) (skipped last more : Dict ℕ OutboxItem × ℕ)
        → ◌≡◌ {A = Dict ℕ OutboxItem × ℕ}
            (elim stale [ false ↦ skipped | true ↦ elim full [ true ↦ last | false ↦ more ] ])
            (round_of stale full skipped last more)
    go false full skipped last more = refl
    go true true skipped last more = refl
    go true false skipped last more = refl

pub requeue_loop_grows :
    (before room : ℕ) (entries : Dict ℕ OutboxItem) (count : ℕ) (m : Dict ℕ OutboxItem)
    → count ≤ (requeue_loop before room entries count m).1
unfolding requeue_loop
requeue_loop_grows before room [] count m = omega arith
requeue_loop_grows before room ((id, item) ∷ entries) count m =
    rw (requeue_loop_round before room id item entries count m) (
      go (is_stale before item) (leb room (count + 1)) _ _ _
        (requeue_loop_grows before room entries count m) (omega arith)
        (requeue_loop_grows before room entries (count + 1)
          (insert id (requeue_item before item) m)))
  where
    go :
        (stale full : Bool) (skipped last more : Dict ℕ OutboxItem × ℕ)
        → count ≤ skipped.1
        → count ≤ last.1
        → count + 1 ≤ more.1
        → count ≤ (round_of stale full skipped last more).1
    go false full skipped last more a b c = a
    go true true skipped last more a b c = b
    go true false skipped last more a b c = omega arith

-- A loop that counts no item leaves the map.
pub requeue_loop_none :
    (before room : ℕ) (entries : Dict ℕ OutboxItem) (count : ℕ) (m : Dict ℕ OutboxItem)
    → (requeue_loop before room entries count m).1 ≡ count
    → (requeue_loop before room entries count m).0 ≡ m
unfolding requeue_loop
requeue_loop_none before room [] count m h = refl
requeue_loop_none before room ((id, item) ∷ entries) count m h =
    rw (requeue_loop_round before room id item entries count m) (
      go (is_stale before item) (leb room (count + 1)) _ _ _
        (requeue_loop_none before room entries count m) (omega arith)
        (requeue_loop_grows before room entries (count + 1)
          (insert id (requeue_item before item) m))
        (ap (λ (r : Dict ℕ OutboxItem × ℕ). r.1)
            (sym (requeue_loop_round before room id item entries count m))
          ∙ h))
  where
    go :
        (stale full : Bool) (skipped last more : Dict ℕ OutboxItem × ℕ)
        → (skipped.1 ≡ count → skipped.0 ≡ m)
        → count + 1 ≤ last.1
        → count + 1 ≤ more.1
        → (round_of stale full skipped last more).1 ≡ count
        → (round_of stale full skipped last more).0 ≡ m
    go false full skipped last more a b c e = a e
    go true true skipped last more a b c e = absurd (omega arith)
    go true false skipped last more a b c e = absurd (omega arith)

module _ (valid_date : Text → Bool) where
  submit_old :
      (now : ℕ) (s : MemoryStore) (msg : Message) (item : OutboxItem) (opts : SubmitOptions)
      → is_new (submit_atomic valid_date now s msg item opts).1 ≡ false
      → (submit_atomic valid_date now s msg item opts).0.outbox ≡ s.outbox
  unfolding submit_atomic settle
  submit_old now s msg item opts h =
      go (earlier now opts.idempotency.client_id opts.idempotency.key (sweep now s))
        (submit_new valid_date now (sweep now s) msg item opts) refl h
    where
      result : Option Text → Result (MemoryStore × Submitted) → MemoryStore × Result Submitted
      result found made = elim found [
        | some id ↦ (sweep now s, ok (record { outbox_id = 0; gateway_id = id; repeated = true }))
        | none ↦ settle (sweep now s) made
      ]

      go :
          (found : Option Text) (made : Result (MemoryStore × Submitted))
          → submit_new valid_date now (sweep now s) msg item opts ≡ made
          → is_new (result found made).1 ≡ false
          → (result found made).0.outbox ≡ s.outbox
      go (some id) made e h = (sweep-Frame now s).0
      go none (err x) e h = (sweep-Frame now s).0
      go none (ok (t, r)) e h = absurd (
          cc (
            h,
            ap (λ (x : Submitted). x.repeated)
                (submit_new-Submits valid_date now (sweep now s) msg item opts e).answer,
          ))

  -- A call that does not write the file leaves the outbox.
  pub step-quiet :
      (now : ℕ) (s : MemoryStore) (e : Event)
      → persists valid_date now s e ≡ false
      → (step valid_date now s e).outbox ≡ s.outbox
  unfolding step persists list_ready_dlr list_pending_by_gateway_id pending_size
      sweep_expired_pending claim_outbox requeue_stale_outbox
  step-quiet now s (Event.saves_message msg) h = after_error s _ h
  step-quiet now s (Event.updates_sent id provider_id) h = after_error s _ h
  step-quiet now s (Event.updates_state id state code) h = after_error s _ h
  step-quiet now s (Event.saves_pending p) h = absurd (cc)
  step-quiet now s (Event.updates_dlr provider id state code done_at) h = after_error s _ h
  step-quiet now s (Event.readies_dlr provider id state code done_at) h = after_error s _ h
  step-quiet now s (Event.delivers_dlr provider id) h = after_error s _ h
  step-quiet now s (Event.lists_ready system_id limit) h = (sweep-Frame now s).0
  step-quiet now s (Event.gets_pending provider id) h = (get_pending-Frame now s provider id).0
  step-quiet now s (Event.lists_pending id) h = (sweep-Frame now s).0
  step-quiet now s (Event.deletes_pending provider id) h = absurd (cc)
  step-quiet now s (Event.deletes_by_gateway id) h = absurd (cc)
  step-quiet now s (Event.sweeps_expired before) h = refl
  step-quiet now s Event.counts_pending h = (sweep-Frame now s).0
  step-quiet now s (Event.reserves_ids span) h = absurd (cc)
  step-quiet now s (Event.enqueues item) h = absurd (cc)
  step-quiet now s (Event.claims worker limit) h =
      write_none (map (claim_item now worker) (candidates now s limit)) s.outbox h
  step-quiet now s (Event.starts_sending id worker) h = after_error s _ h
  step-quiet now s (Event.completes_send id worker ps) h = after_error s _ h
  step-quiet now s (Event.gives_up id worker message) h = after_error s _ h
  step-quiet now s (Event.requeues_stale before limit) h =
      requeue_loop_none before (positive_or 1000 limit) s.outbox 0 s.outbox (ground arith)
  step-quiet now s (Event.acknowledges id) h = after_error s _ h
  step-quiet now s (Event.fails id message next) h = after_error s _ h
  step-quiet now s (Event.checks_idempotency client_id key) h =
      (check_idempotency-Frame now s client_id key).0
  step-quiet now s (Event.saves_idempotency client_id key id ttl) h = absurd (cc)
  step-quiet now s (Event.submits msg item opts) h = submit_old now s msg item opts h
