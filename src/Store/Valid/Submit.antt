-- ===== src/Store/Valid/Submit.antt =====
-- The invariant under `SubmitAtomic` of internal/store/memory.go.
use mysmpp.Base.{
  ◌≡◌, text_eq, text2_eq, Bool, Bool-cases, Dict, Option-cases, Text, ap, arith, inl, inr,
  insert-IsDict, none, refl, some, sym, true, ℕ, ◌+◌, ◌<◌, ◌^◌, ◌∙◌,
}
use mysmpp.Store.Types.{
  MemoryStore, Error, Message, OutboxItem, Result, SubmitOptions, err, ok, ok_subst,
}
use mysmpp.Store.Submit.{submit_atomic, Submitted, earlier, remember, settle, submit_new}
use mysmpp.Store.Submit.Steps.{Submits, debit_quota-usage, submit_new-Submits, with_usage}
use mysmpp.Store.Pendings.{sweep, is_blank}
use mysmpp.Store.Messages.Keep.{save_message-Kept}
use mysmpp.Store.Valid.{IsValid}
use mysmpp.Store.Valid.Messages.{SameRest-IsValid}
use mysmpp.Store.Valid.Outbox.{enqueue_outbox-IsValid}
use mysmpp.Store.Valid.Pendings.{sweep-IsValid}
use mathlib.Core.Path.{subst}

pub remember-IsValid :
    (now : ℕ) (opts : SubmitOptions) (id : Text) (s : MemoryStore)
    → IsValid s
    → IsValid (remember now opts id s)
unfolding remember
remember-IsValid now opts id s v =
    elim (Bool-cases (is_blank opts.idempotency.client_id opts.idempotency.key)) [
      | inl blank ↦ rw blank v
      | inr given ↦ rw given (record {
        indexed = v.indexed;
        keyed = v.keyed;
        receipts = v.receipts;
        idempotency_dict = insert-IsDict _ _ s.idempotency v.idempotency_dict;
      })
    ]

remember-next :
    (now : ℕ) (opts : SubmitOptions) (id : Text) (s : MemoryStore)
    → ((remember now opts id s).next_outbox ≡ s.next_outbox)
      × ((remember now opts id s).outbox ≡ s.outbox)
unfolding remember
remember-next now opts id s = ground arith

pub with_usage-IsValid :
    (s : MemoryStore) (u : Dict (Text × Text) ℕ) → IsValid s → IsValid (with_usage s u)
with_usage-IsValid s u v = record {
  indexed = v.indexed;
  keyed = v.keyed;
  receipts = v.receipts;
  idempotency_dict = v.idempotency_dict;
}

module _ (valid_date : Text → Bool) (now : ℕ) (s : MemoryStore) (msg : Message) (item : OutboxItem)
    (opts : SubmitOptions) where
  -- The store before the item is queued: valid, with the counter and the outbox of the start.
  pub saved_lem :
      {t : MemoryStore} {r : Submitted}
      → IsValid s
      → (c : Submits valid_date now s msg item opts t r)
      → IsValid c.saved × (c.saved.next_outbox ≡ s.next_outbox) × (c.saved.outbox ≡ s.outbox)
  saved_lem v c =
      let (u, e) = debit_quota-usage valid_date opts.quota s c.debit in
      let w = subst IsValid (sym e) (with_usage-IsValid s u v) in
      let x = remember-IsValid now opts msg.id c.charged w in
      let (n, o) = remember-next now opts msg.id c.charged in
      let (t, done, y, rest) = save_message-Kept _ msg x.indexed in
      let p : t ≡ c.saved = ok_subst (λ z. t ≡ z) (sym done ∙ c.save) refl in
      (
        subst IsValid p (SameRest-IsValid _ t x y rest),
        ap (λ (z : MemoryStore). z.next_outbox) (sym p)
            ∙ rest.same_next
            ∙ n
            ∙ ap (λ (z : MemoryStore). z.next_outbox) e,
        ap (λ (z : MemoryStore). z.outbox) (sym p)
            ∙ rest.same_outbox
            ∙ o
            ∙ ap (λ (z : MemoryStore). z.outbox) e,
      )

  pub Submits-IsValid :
      {t : MemoryStore} {r : Submitted}
      → IsValid s
      → s.next_outbox + 1 < 2 ^ 64
      → Submits valid_date now s msg item opts t r
      → IsValid t
  Submits-IsValid v room c =
      let (w, n, o) = saved_lem v c in
      subst IsValid (sym c.queue) (enqueue_outbox-IsValid now c.saved item (omega (arith, n)) w)

-- The three ways in which a submit ends.
pub data SubmitCase (valid_date : Text → Bool) (now : ℕ) (s : MemoryStore) (msg : Message)
    (item : OutboxItem) (opts : SubmitOptions) (out : MemoryStore × Result Submitted) : Type 0 where
  repeats :
      (id : Text)
      → earlier now opts.idempotency.client_id opts.idempotency.key (sweep now s) ≡ some id
      → out.0 ≡ sweep now s
      → out.1 ≡ ok (record { outbox_id = 0; gateway_id = id; repeated = true })
      → SubmitCase valid_date now s msg item opts out
  refuses :
      (e : Error)
      → earlier now opts.idempotency.client_id opts.idempotency.key (sweep now s) ≡ none
      → submit_new valid_date now (sweep now s) msg item opts ≡ err e
      → out.0 ≡ sweep now s
      → out.1 ≡ err e
      → SubmitCase valid_date now s msg item opts out
  accepts :
      (r : Submitted)
      → earlier now opts.idempotency.client_id opts.idempotency.key (sweep now s) ≡ none
      → Submits valid_date now (sweep now s) msg item opts out.0 r
      → out.1 ≡ ok r
      → SubmitCase valid_date now s msg item opts out

settle_cases :
    (valid_date : Text → Bool) (now : ℕ) (s : MemoryStore) (msg : Message) (item : OutboxItem)
    (opts : SubmitOptions) (r : Result (MemoryStore × Submitted))
    → earlier now opts.idempotency.client_id opts.idempotency.key (sweep now s) ≡ none
    → submit_new valid_date now (sweep now s) msg item opts ≡ r
    → SubmitCase valid_date now s msg item opts (settle (sweep now s) r)
unfolding settle
settle_cases valid_date now s msg item opts (ok (t, r)) first h =
    accepts r first (submit_new-Submits valid_date now (sweep now s) msg item opts h) refl
settle_cases valid_date now s msg item opts (err e) first h = refuses e first h refl refl

pub submit_atomic_cases :
    (valid_date : Text → Bool) (now : ℕ) (s : MemoryStore) (msg : Message) (item : OutboxItem)
    (opts : SubmitOptions)
    → SubmitCase valid_date now s msg item opts (submit_atomic valid_date now s msg item opts)
unfolding submit_atomic
submit_atomic_cases valid_date now s msg item opts =
    elim (Option-cases
      (earlier now opts.idempotency.client_id opts.idempotency.key (sweep now s))) [
        | inl first ↦
            rw (first, submit_atomic) (settle_cases valid_date now s msg item opts _ first refl)
        | inr (id, again) ↦ rw (again, submit_atomic) (repeats id again refl refl)
      ]

sweep-room :
    (now : ℕ) (s : MemoryStore)
    → s.next_outbox + 1 < 2 ^ 64
    → (sweep now s).next_outbox + 1 < 2 ^ 64
unfolding sweep
sweep-room now s h = h

pub submit_atomic-IsValid :
    (valid_date : Text → Bool) (now : ℕ) (s : MemoryStore) (msg : Message) (item : OutboxItem)
    (opts : SubmitOptions)
    → IsValid s
    → s.next_outbox + 1 < 2 ^ 64
    → IsValid (submit_atomic valid_date now s msg item opts).0
submit_atomic-IsValid valid_date now s msg item opts v room =
    let w = sweep-IsValid now s v in
    elim (submit_atomic_cases valid_date now s msg item opts) [
      | repeats id again same answer ↦ subst IsValid (sym same) w
      | refuses e first bad same answer ↦ subst IsValid (sym same) w
      | accepts r first c answer ↦
          Submits-IsValid valid_date now (sweep now s) msg item opts w (sweep-room now s room) c
    ]
