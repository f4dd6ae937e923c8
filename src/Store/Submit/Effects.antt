-- ===== src/Store/Submit/Effects.antt =====
-- What `SubmitAtomic` of internal/store/memory.go writes: the quota, the message, the queued
-- item.
use mathlib.Core.Path.{subst⁻¹, subst}
use mysmpp.Store.Valid.Submit.{accepts, refuses, repeats, submit_atomic_cases, SubmitCase}
use mysmpp.Base.{
  false, ◌≡◌, nat_eq, text_eq, text2_eq, Bool, Bool-cases, Option-cases, Text, ap, arith, inl, inr,
  insert, is_positive, length, lookup, lookup-insert_self, ltb, pos_part, refl, some, true, ℕ, ◌+◌,
  ◌<◌, ◌∙◌, ◌≤◌, ◌⊎◌,
}
use mysmpp.Store.Types.{
  MemoryStore, DailyQuotaDebit, Message, OutboxItem, Result, SubmitOptions, ok, ok_subst, err,
}
use mysmpp.Store.Submit.{submit_atomic, Submitted, debit_quota, or_zero, remember, used_quota}
use mysmpp.Store.Submit.Steps.{Submits, debit_quota-limited, with_usage}
use mysmpp.Store.Outbox.{enqueue_outbox}
use mysmpp.Store.Pendings.{sweep}
use mysmpp.Store.Messages.{save_message, trim_messages, write_at}

used_quota-usage :
    (tenant date : Text) (s t : MemoryStore)
    → t.quota_usage ≡ s.quota_usage
    → used_quota tenant date t ≡ used_quota tenant date s
unfolding used_quota
used_quota-usage tenant date s t e = ap (λ q. or_zero (lookup (tenant, date) q)) e

used_quota-insert :
    (s : MemoryStore) (tenant date : Text) (n : ℕ)
    → used_quota tenant date (with_usage s (insert (tenant, date) n s.quota_usage)) ≡ n
unfolding used_quota
used_quota-insert s tenant date n = rw (lookup-insert_self (tenant, date) n s.quota_usage)

remember-usage :
    (now : ℕ) (opts : SubmitOptions) (id : Text) (s : MemoryStore)
    → (remember now opts id s).quota_usage ≡ s.quota_usage
unfolding remember
remember-usage now opts id s = ground arith

enqueue-usage :
    (now : ℕ) (s : MemoryStore) (item : OutboxItem)
    → (enqueue_outbox now s item).0.quota_usage ≡ s.quota_usage
unfolding enqueue_outbox
enqueue-usage now s item = refl

sweep-usage : (now : ℕ) (s : MemoryStore) → (sweep now s).quota_usage ≡ s.quota_usage
unfolding sweep
sweep-usage now s = refl

write_at-usage :
    (s : MemoryStore) (i : ℕ) (msg : Message) {t : MemoryStore}
    → write_at s i msg ≡ ok t
    → t.quota_usage ≡ s.quota_usage
unfolding write_at
write_at-usage s i msg {t} h = elim (Bool-cases (ltb i (length s.messages))) [
  | inl low ↦ ok_subst (λ (x : MemoryStore). x.quota_usage ≡ s.quota_usage) (rw low at h) refl
  | inr high ↦ absurd (cc (rw high at h))
]

save_message-usage :
    (s : MemoryStore) (msg : Message) {t : MemoryStore}
    → save_message s msg ≡ ok t
    → t.quota_usage ≡ s.quota_usage
unfolding save_message trim_messages
save_message-usage s msg h = elim (Option-cases (lookup msg.id s.message_by_id)) [
  | inl fresh ↦
      ok_subst (λ (x : MemoryStore). x.quota_usage ≡ s.quota_usage) (rw (fresh, save_message) at h)
        (ground arith)
  | inr (i, hit) ↦ write_at-usage s i msg (rw (hit, save_message) at h)
]

module _ (valid_date : Text → Bool) (now : ℕ) (s : MemoryStore) (msg : Message) (item : OutboxItem)
    (opts : SubmitOptions) (q : DailyQuotaDebit) where
  Submits-quota :
      {t : MemoryStore} {r : Submitted}
      → opts.quota ≡ some q
      → is_positive q.limit ≡ true
      → Submits valid_date now s msg item opts t r
      → (used_quota q.tenant_id q.date t ≡ used_quota q.tenant_id q.date s + pos_part q.segments)
        × (used_quota q.tenant_id q.date t ≤ pos_part q.limit)
        × (0 < pos_part q.segments)
  Submits-quota {t} has lim c =
      let (e, low, some_segments) =
        debit_quota-limited valid_date q s lim
          (subst (λ o. debit_quota valid_date o s ≡ ok c.charged) has c.debit) in
      let same = used_quota-usage q.tenant_id q.date c.charged t (
        ap (λ (x : MemoryStore). x.quota_usage) c.queue
        ∙ enqueue-usage now c.saved item
        ∙ save_message-usage _ msg c.save
        ∙ remember-usage now opts msg.id c.charged) in
      let sum =
        same ∙ ap (used_quota q.tenant_id q.date) e ∙ used_quota-insert s q.tenant_id q.date _ in
      (sum, omega (arith, sum, low), some_segments)

-- The answer to a repeated submit, or an error.
abbrev pub IsRepeat : Result Submitted → Type 0
IsRepeat (ok r) = r.repeated ≡ true
IsRepeat (err e) = Unit

-- The answer to a submit that is new, of the message with this id.
abbrev pub IsNew : Text → Result Submitted → Type 0
IsNew id (ok r) = (r.repeated ≡ false) × (r.gateway_id ≡ id)
IsNew id (err e) = ⊥

abbrev Charged : MemoryStore → MemoryStore → DailyQuotaDebit → Text → Result Submitted → Type 0
Charged s t q id out =
    ((used_quota q.tenant_id q.date t ≡ used_quota q.tenant_id q.date s) × IsRepeat out)
    ⊎ ((used_quota q.tenant_id q.date t ≡ used_quota q.tenant_id q.date s + pos_part q.segments)
        × (used_quota q.tenant_id q.date t ≤ pos_part q.limit)
        × (0 < pos_part q.segments)
        × IsNew id out)

SubmitCase-Charged :
    (valid_date : Text → Bool) (now : ℕ) (s : MemoryStore) (msg : Message) (item : OutboxItem)
    (opts : SubmitOptions) (q : DailyQuotaDebit) (out : MemoryStore × Result Submitted)
    → opts.quota ≡ some q
    → is_positive q.limit ≡ true
    → SubmitCase valid_date now s msg item opts out
    → Charged s out.0 q msg.id out.1
SubmitCase-Charged valid_date now s msg item opts q out has lim (repeats id again same answer) =
    inl (
      used_quota-usage q.tenant_id q.date s out.0
          (ap (λ (x : MemoryStore). x.quota_usage) same ∙ sweep-usage now s),
      subst⁻¹ IsRepeat answer refl,
    )
SubmitCase-Charged valid_date now s msg item opts q out has lim (refuses e first bad same answer) =
    inl (
      used_quota-usage q.tenant_id q.date s out.0
          (ap (λ (x : MemoryStore). x.quota_usage) same ∙ sweep-usage now s),
      subst⁻¹ IsRepeat answer tt,
    )
SubmitCase-Charged valid_date now s msg item opts q out has lim (accepts r first c answer) =
    let (sum, low, positive) =
      Submits-quota valid_date now (sweep now s) msg item opts q has lim c in
    let e = used_quota-usage q.tenant_id q.date s (sweep now s) (sweep-usage now s) in
    inr (
      sum ∙ ap (λ n. n + pos_part q.segments) e,
      low,
      positive,
      subst⁻¹ (IsNew msg.id) answer (subst⁻¹ (λ x. IsNew msg.id (ok x)) c.answer (refl, refl)),
    )

-- A submit whose quota has a positive daily limit does one of two things. Either the tenant's total of
-- the day stays what it was, and the answer is an error or repeats an earlier one. Or the total grows
-- by the segments, at least one, and is within the limit, and the answer is that of a new submit with
-- the id of the message.
pub submit_atomic_quota :
    (valid_date : Text → Bool) (now : ℕ) (s t : MemoryStore) (msg : Message) (item : OutboxItem)
    (opts : SubmitOptions) (q : DailyQuotaDebit) (out : Result Submitted)
    → opts.quota ≡ some q
    → is_positive q.limit ≡ true
    → submit_atomic valid_date now s msg item opts ≡ (t, out)
    → ((used_quota q.tenant_id q.date t ≡ used_quota q.tenant_id q.date s) × IsRepeat out)
      ⊎ ((used_quota q.tenant_id q.date t ≡ used_quota q.tenant_id q.date s + pos_part q.segments)
          × (used_quota q.tenant_id q.date t ≤ pos_part q.limit)
          × (0 < pos_part q.segments)
          × IsNew msg.id out)
submit_atomic_quota valid_date now s t msg item opts q out has lim h =
    SubmitCase-Charged valid_date now s msg item opts q (t, out) has lim
      (subst (SubmitCase valid_date now s msg item opts) h
        (submit_atomic_cases valid_date now s msg item opts))
