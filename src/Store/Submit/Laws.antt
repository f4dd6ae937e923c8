-- ===== src/Store/Submit/Laws.antt =====
-- A repeated `SubmitAtomic` of internal/store/memory.go.
use mysmpp.Store.Valid.Pendings.{sweep-IsValid}
use mathlib.Core.Path.{subst}
use mysmpp.Store.Valid.Submit.{
  accepts, SubmitCase, remember-IsValid, submit_atomic-IsValid, submit_atomic_cases,
  with_usage-IsValid, refuses, repeats,
}
use mysmpp.Store.Submit.Steps.{Submits, debit_quota-usage}
use mysmpp.Base.{
  ◌≡◌, nat_eq, text_eq, text2_eq, Text, false, lookup, lookup-insert_self, lookup-retain, not,
  positive_or, refl, some, sym, ℕ, ◌+◌, ◌<◌, ◌∙◌, Bool, ap, arith, lt→ltb, retain, true, ◌^◌,
}
use mysmpp.Store.Types.{
  MemoryStore, IdempotencyRecord, Message, OutboxItem, SubmitOptions, ok, ok_subst, Result,
}
use mysmpp.Store.Submit.{earlier, remember, Submitted, submit_atomic}
use mysmpp.Store.Outbox.{enqueue_outbox}
use mysmpp.Store.Pendings.{sweep, default_ttl, has_expired, is_blank}
use mysmpp.Store.Messages.{save_message}
use mysmpp.Store.Messages.Keep.{save_message-Kept}
use mysmpp.Store.Valid.{IsValid}

-- The key is given, and the record of the first submit runs out at this time.
abbrev pub expiry : ℕ → SubmitOptions → ℕ
expiry now opts = now + positive_or default_ttl opts.idempotency.ttl

remembered :
    (now : ℕ) (opts : SubmitOptions) (id : Text) (s : MemoryStore)
    → is_blank opts.idempotency.client_id opts.idempotency.key ≡ false
    → lookup (opts.idempotency.client_id, opts.idempotency.key) (remember now opts id s).idempotency
      ≡ some (record { gateway_id = id; expires_at = expiry now opts })
unfolding remember
remembered now opts id s given = rw given (lookup-insert_self _ _ s.idempotency)

enqueue-idempotency :
    (now : ℕ) (s : MemoryStore) (item : OutboxItem)
    → (enqueue_outbox now s item).0.idempotency ≡ s.idempotency
unfolding enqueue_outbox
enqueue-idempotency now s item = refl

save_message-idempotency :
    (s : MemoryStore) (msg : Message) {t : MemoryStore}
    → IsValid s
    → save_message s msg ≡ ok t
    → t.idempotency ≡ s.idempotency
save_message-idempotency s msg {t} v h =
    let (u, e, x, k) = save_message-Kept s msg v.indexed in
    ok_subst (λ (z : MemoryStore). z.idempotency ≡ s.idempotency) (sym e ∙ h) k.same_idempotency

alive :
    (later : ℕ) (expires_at : ℕ) → later < expires_at → not (has_expired later expires_at) ≡ true
unfolding has_expired
alive later expires_at h = ground arith

-- A live record survives the sweep and is found by a later submit.
earlier-live :
    (later : ℕ) (client_id key : Text) (r : IdempotencyRecord) (s : MemoryStore)
    → IsValid s
    → is_blank client_id key ≡ false
    → lookup (client_id, key) s.idempotency ≡ some r
    → later < r.expires_at
    → earlier later client_id key (sweep later s) ≡ some r.gateway_id
unfolding earlier sweep
earlier-live later client_id key r s v given hit live =
    let found =
      lookup-retain (client_id, key)
        (λ k (x : IdempotencyRecord). not (has_expired later x.expires_at)) s.idempotency
        v.idempotency_dict in
    let e : lookup (client_id, key)
          (retain (λ k (x : IdempotencyRecord). not (has_expired later x.expires_at)) s.idempotency)
        ≡ some r =
      found ∙ rw hit (rw (alive later r.expires_at live)) in
    rw (given, e, earlier, lt→ltb later r.expires_at live)

-- A submit that was accepted leaves its live record.
accepted-record :
    (valid_date : Text → Bool) (now : ℕ) (s : MemoryStore) (msg : Message) (item : OutboxItem)
    (opts : SubmitOptions) {t : MemoryStore} {r : Submitted}
    → IsValid s
    → is_blank opts.idempotency.client_id opts.idempotency.key ≡ false
    → Submits valid_date now s msg item opts t r
    → lookup (opts.idempotency.client_id, opts.idempotency.key) t.idempotency
      ≡ some (record { gateway_id = msg.id; expires_at = expiry now opts })
accepted-record valid_date now s msg item opts v given c =
    let key : Text × Text = (opts.idempotency.client_id, opts.idempotency.key) in
    let (u, e) = debit_quota-usage valid_date opts.quota s c.debit in
    let w =
      remember-IsValid now opts msg.id c.charged
        (subst IsValid (sym e) (with_usage-IsValid s u v)) in
    ap (λ (x : MemoryStore). lookup key x.idempotency) c.queue
    ∙ ap (lookup key)
        (enqueue-idempotency now c.saved item ∙ save_message-idempotency _ msg w c.save)
    ∙ remembered now opts msg.id c.charged given

repeat_lem :
    {r : Submitted} {id : Text}
    → ok r ≡ ok (record { outbox_id = 0; gateway_id = id; repeated = true })
    → r.repeated ≡ false
    → ⊥
repeat_lem h e = let p = ok_subst (λ (x : Submitted). x.repeated ≡ true) (sym h) refl in cc

first_record :
    (valid_date : Text → Bool) (now : ℕ) (s t : MemoryStore) (msg : Message) (item : OutboxItem)
    (opts : SubmitOptions) (r : Submitted)
    → IsValid s
    → is_blank opts.idempotency.client_id opts.idempotency.key ≡ false
    → SubmitCase valid_date now s msg item opts (t, ok r)
    → r.repeated ≡ false
    → lookup (opts.idempotency.client_id, opts.idempotency.key) t.idempotency
      ≡ some (record { gateway_id = msg.id; expires_at = expiry now opts })
first_record valid_date now s t msg item opts r v given (repeats id again same answer) new =
    absurd (repeat_lem answer new)
first_record valid_date now s t msg item opts r v given (refuses e first bad same answer) new =
    absurd (cc)
first_record valid_date now s t msg item opts r v given (accepts r' first c answer) new =
    accepted-record valid_date now (sweep now s) msg item opts (sweep-IsValid now s v) given c

-- A submit is idempotent: in a valid store with room for an id, if a submit with a client id and a
-- key is accepted, then a later submit of any message with that client id and key, before the record
-- expires, only sweeps the store and answers with the gateway id of the first.
pub submit_atomic_repeats :
    (valid_date : Text → Bool) (now later : ℕ) (s t : MemoryStore) (msg msg' : Message)
    (item item' : OutboxItem) (opts opts' : SubmitOptions) (r : Submitted)
    → IsValid s
    → s.next_outbox + 1 < 2 ^ 64
    → is_blank opts.idempotency.client_id opts.idempotency.key ≡ false
    → opts'.idempotency.client_id ≡ opts.idempotency.client_id
    → opts'.idempotency.key ≡ opts.idempotency.key
    → submit_atomic valid_date now s msg item opts ≡ (t, ok r)
    → r.repeated ≡ false
    → later < expiry now opts
    → submit_atomic valid_date later t msg' item' opts'
      ≡ (sweep later t, ok (record { outbox_id = 0; gateway_id = msg.id; repeated = true }))
unfolding submit_atomic
submit_atomic_repeats valid_date now later s t msg msg' item item' opts opts' r v room given
      same_client same_key h new live =
    let w =
      subst (λ (x : MemoryStore × Result Submitted). IsValid x.0) h
        (submit_atomic-IsValid valid_date now s msg item opts v room) in
    let hit =
      first_record valid_date now s t msg item opts r v given
        (subst (SubmitCase valid_date now s msg item opts) h
          (submit_atomic_cases valid_date now s msg item opts))
        new in
    let e =
      earlier-live later opts.idempotency.client_id opts.idempotency.key _ t w given hit live in
    let e' : earlier later opts'.idempotency.client_id opts'.idempotency.key (sweep later t)
        ≡ some msg.id =
      rw (same_client, same_key) e in
    rw (e', submit_atomic)
