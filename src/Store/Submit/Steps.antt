-- ===== src/Store/Submit/Steps.antt =====
-- The parts of `SubmitAtomic` of internal/store/memory.go: the debit, the record and the writes.
use mysmpp.Store.Types.{
  ◌>>=◌, MemoryStore, DailyQuotaDebit, ok, Message, OutboxItem, SubmitOptions, bind-ok, ok_subst,
}
use mysmpp.Store.Outbox.{enqueue_outbox, next_id}
use mysmpp.Store.Messages.{save_message}
use mysmpp.Base.{
  suc, zero, negsuc, pos, ◌≡◌, text_eq, text2_eq, nat_eq, Bool, Dict, Option, Text, insert,
  is_positive, pos_part, some, true, ℕ, ◌+◌, ◌<◌, ◌≤◌, Bool-cases, arith, false, inl, inr, none,
  refl, ℤ,
}
use mysmpp.Store.Submit.{
  debit_quota, used_quota, validate_quota, Submitted, charge, remember, submit_new,
}

-- Only the quota table may differ.
abbrev pub with_usage : MemoryStore → Dict (Text × Text) ℕ → MemoryStore
with_usage s q = record s { quota_usage = q }

-- A debit is refused, or it is for no quota, or it adds the segments within the limit.
abbrev pub Debited : DailyQuotaDebit → MemoryStore → MemoryStore → Type 0
Debited q s t =
    (t
      ≡ with_usage s (
          insert (q.tenant_id, q.date) (used_quota q.tenant_id q.date s + pos_part q.segments)
            s.quota_usage))
    × (used_quota q.tenant_id q.date s + pos_part q.segments ≤ pos_part q.limit)
    × (0 < pos_part q.segments)

pos_part-pos : (n : ℤ) → is_positive n ≡ true → 0 < pos_part n
pos_part-pos (pos zero) h = absurd (cc)
pos_part-pos (pos (suc n)) h = omega arith
pos_part-pos (negsuc n) h = absurd (cc)

module _ (valid_date : Text → Bool) where
  validate_quota-ok :
      (q : DailyQuotaDebit) {x : Unit {0}}
      → validate_quota valid_date q ≡ ok x
      → is_positive q.segments ≡ true
  unfolding validate_quota
  validate_quota-ok q h = ground arith

  charge-ok :
      (q : DailyQuotaDebit) (s : MemoryStore) {t : MemoryStore}
      → charge valid_date q s ≡ ok t
      → (t
          ≡ with_usage s (
              insert
                (q.tenant_id, q.date)
                (used_quota q.tenant_id q.date s + pos_part q.segments)
                s.quota_usage))
        × (used_quota q.tenant_id q.date s + pos_part q.segments ≤ pos_part q.limit)
  unfolding charge
  charge-ok q s h = ground arith

  pub debit_quota-limited :
      (q : DailyQuotaDebit) (s : MemoryStore) {t : MemoryStore}
      → is_positive q.limit ≡ true
      → debit_quota valid_date (some q) s ≡ ok t
      → Debited q s t
  unfolding debit_quota
  debit_quota-limited q s {t} lim h =
      let h0 : (validate_quota valid_date q >>= λ x. charge valid_date q s) ≡ ok t = ground arith in
      let (x, e, h1) = bind-ok (validate_quota valid_date q) _ h0 in
      let (same, low) = charge-ok q s h1 in
      (same, low, pos_part-pos q.segments (validate_quota-ok q e))

  pub debit_quota-usage :
      (q : Option DailyQuotaDebit) (s : MemoryStore) {t : MemoryStore}
      → debit_quota valid_date q s ≡ ok t
      → (u : Dict (Text × Text) ℕ) × (t ≡ with_usage s u)
  unfolding debit_quota
  debit_quota-usage none s h = (s.quota_usage, ok_subst (λ x. x ≡ s) h refl)
  debit_quota-usage (some q) s h = elim (Bool-cases (is_positive q.limit)) [
    | inl lim ↦
        let (same, low, _) = debit_quota-limited q s lim (unfold debit_quota in h) in (_, same)
    | inr free ↦ (s.quota_usage, ok_subst (λ x. x ≡ s) (rw free at h) refl)
  ]

-- The parts of a submit that is carried out.
pub record Submits (valid_date : Text → Bool) (now : ℕ) (s : MemoryStore) (msg : Message)
    (item : OutboxItem) (opts : SubmitOptions) (t : MemoryStore) (r : Submitted) : Type 0 where
  pub charged : MemoryStore
  pub saved : MemoryStore
  pub debit : debit_quota valid_date opts.quota s ≡ ok charged
  pub save : save_message (remember now opts msg.id charged) msg ≡ ok saved
  pub queue : t ≡ (enqueue_outbox now saved item).0
  pub answer : r ≡ record { outbox_id = next_id saved; gateway_id = msg.id; repeated = false }

pub submit_new-Submits :
    (valid_date : Text → Bool) (now : ℕ) (s : MemoryStore) (msg : Message) (item : OutboxItem)
    (opts : SubmitOptions) {t : MemoryStore} {r : Submitted}
    → submit_new valid_date now s msg item opts ≡ ok (t, r)
    → Submits valid_date now s msg item opts t r
unfolding submit_new enqueue_outbox
submit_new-Submits valid_date now s msg item opts h =
    let (charged, e, h1) = bind-ok (debit_quota valid_date opts.quota s) _ h in
    let (saved, e', done) = bind-ok (save_message (remember now opts msg.id charged) msg) _ h1 in
    record {
      charged = charged;
      saved = saved;
      debit = e;
      save = e';
      queue = ok_subst (λ x. x.0 ≡ (enqueue_outbox now saved item).0) done refl;
      answer =
          ok_subst
            (λ x. x.1 ≡ record { outbox_id = next_id saved; gateway_id = msg.id; repeated = false })
            done refl;
    }
