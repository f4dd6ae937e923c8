-- ===== src/Store/Outbox/Sent.antt =====
-- What a completed send of internal/store/memory.go leaves: the item, its message and its records.
use mysmpp.Base.{
  ℕ, ◌≡◌, ◌≢◌, ◌⊎◌, ◌∙◌, ◌&&◌, List, [], ◌∷◌, All, Text, codes, Dict, some, inl, inr, lookup,
  lookup-insert, lookup-insert_self, insert, get_elem?, get_elem?-lt, get_elem?-set_self, text_eq,
  text_eqb, text_eqb_iff, nat_eq, map, Bool-cases, and-true, ap, sym, refl, arith,
}
use mathlib.Core.Path.{subst}
use mysmpp.Store.Types.{
  MemoryStore, Message, OutboxItem, OutboxState, Pending, ok, bind-ok, ok_subst,
}
use mysmpp.Store.Pendings.{pending_key, normalize_pending}
use mysmpp.Store.Outbox.{
  check_record, validate_records, validate_completion, at_least_one_record, write_pendings,
  finish_item, sent_message, complete_outbox_send,
}
use mysmpp.Store.Outbox.Complete.{Completes, complete_outbox_send_lem}

-- The record names its receipt, and is for the item.
abbrev pub IsFor : OutboxItem → Pending → Type 0
IsFor item p =
    (p.provider_id ≢ []) × (p.gateway_id ≡ item.gateway_id) × (p.provider ≡ item.provider)

-- A record of the message is stored under the key.
abbrev pub Awaits : Text → Text → Dict Text Pending → Type 0
Awaits gateway_id key m =
    (r : Pending) × (lookup key m ≡ some r)
    × (r.gateway_id ≡ gateway_id)
    × (pending_key r.provider r.provider_id ≡ key)

-- A send that was carried out.
pub record IsSent (now : ℕ) (s t : MemoryStore) (id : ℕ) (item : OutboxItem) (ps : List Pending)
    : Type 0 where
  pub first : Pending
  pub others : List Pending
  pub some_record : ps ≡ first ∷ others
  pub fits : All (IsFor item) ps
  pub done : OutboxItem
  pub stored : lookup id t.outbox ≡ some done
  pub is_done : done.state ≡ OutboxState.done
  pub same_message : done.gateway_id ≡ item.gateway_id
  pub place : ℕ
  pub old : Message
  pub new : Message
  pub indexed : lookup item.gateway_id s.message_by_id ≡ some place
  pub before : get_elem? s.messages place ≡ some old
  pub after : get_elem? t.messages place ≡ some new
  pub is_sent : new.state ≡ codes "sent"
  pub by_id : new.provider_id ≡ first.provider_id
  pub since : new.sent_at ≡ now
  pub same_id : new.id ≡ old.id
  pub awaited :
      All (λ p. Awaits item.gateway_id (pending_key p.provider p.provider_id) t.pending) ps

write_pendings-keep :
    (gateway_id key : Text) (ps : List Pending) (m : Dict Text Pending)
    → All (λ p. p.gateway_id ≡ gateway_id) ps
    → Awaits gateway_id key m
    → Awaits gateway_id key (write_pendings ps m)
unfolding write_pendings
write_pendings-keep gateway_id key [] m h here = here
write_pendings-keep gateway_id key (p ∷ ps) m h (r, e, g, k) =
    let own = pending_key p.provider p.provider_id in
    write_pendings-keep gateway_id key ps (insert own p m) h.1
      (elim (Bool-cases (text_eqb own key)) [
        | inl same ↦
            (p, lookup-insert key own p m ∙ rw same refl, h.0, (text_eqb_iff own key).0 same)
        | inr other ↦ (r, lookup-insert key own p m ∙ rw other e, g, k)
      ])

gateway_ids :
    (item : OutboxItem) (ps : List Pending)
    → All (IsFor item) ps
    → All (λ p. p.gateway_id ≡ item.gateway_id) (map normalize_pending ps)
unfolding normalize_pending
gateway_ids item [] h = tt
gateway_ids item (p ∷ ps) h = (h.0.1, gateway_ids item ps h.1)

write_pendings-Awaits :
    (item : OutboxItem) (ps : List Pending) (m : Dict Text Pending)
    → All (IsFor item) ps
    → All
        (λ p.
          Awaits item.gateway_id
            (pending_key p.provider p.provider_id)
            (write_pendings (map normalize_pending ps) m))
        ps
unfolding write_pendings normalize_pending
write_pendings-Awaits item [] m h = tt
write_pendings-Awaits item (p ∷ ps) m h =
    let own = pending_key p.provider p.provider_id in
    (
      write_pendings-keep item.gateway_id own (map normalize_pending ps)
          (insert own (normalize_pending p) m) (gateway_ids item ps h.1)
          (normalize_pending p, lookup-insert_self own (normalize_pending p) m, h.0.1, refl),
      write_pendings-Awaits item ps (insert own (normalize_pending p) m) h.1,
    )

check_record-ok :
    (item : OutboxItem) (p : Pending) {q : Pending}
    → check_record item p ≡ ok q
    → IsFor item p × (q ≡ normalize_pending p)
unfolding check_record
check_record-ok item p {q} h = elim (Bool-cases (text_eqb p.provider_id [])) [
  | inl blank ↦ absurd (cc (rw blank at h))
  | inr named ↦
      let test = text_eqb p.gateway_id item.gateway_id && text_eqb p.provider item.provider in
      elim (Bool-cases test) [
        | inr other ↦ absurd (cc (rw (named, other) at h))
        | inl mine ↦
            let (a, b) = and-true _ _ mine in
            (
              (
                λ e. ground (arith, text_eqb_iff p.provider_id []),
                (text_eqb_iff _ _).0 a,
                (text_eqb_iff _ _).0 b,
              ),
              ok_subst (λ x. x ≡ normalize_pending p) (rw (named, mine) at h) refl,
            )
      ]
]

validate_records-ok :
    (item : OutboxItem) (ps : List Pending) {qs : List Pending}
    → validate_records item ps ≡ ok qs
    → All (IsFor item) ps × (qs ≡ map normalize_pending ps)
unfolding validate_records
validate_records-ok item [] h = (tt, ok_subst (λ x. x ≡ []) h refl)
validate_records-ok item (p ∷ ps) h =
    let (q, e, h1) = bind-ok (check_record item p) _ h in
    let (rest, e', done) = bind-ok (validate_records item ps) _ h1 in
    let (fits, same) = check_record-ok item p e in
    let (others, sames) = validate_records-ok item ps e' in
    (
      (fits, others),
      ok_subst (λ x. x ≡ map normalize_pending (p ∷ ps)) done
          (ap (λ x. x ∷ rest) same ∙ ap (λ xs. normalize_pending p ∷ xs) sames),
    )

at_least_one_record-ok :
    (qs : List Pending) {first : Pending} {rest : List Pending}
    → at_least_one_record qs ≡ ok (first, rest)
    → qs ≡ first ∷ rest
unfolding at_least_one_record
at_least_one_record-ok [] h = absurd (cc)
at_least_one_record-ok (q ∷ qs) {first} {rest} h =
    ok_subst (λ (x : Pending × List Pending). q ∷ qs ≡ x.0 ∷ x.1) h refl

validate_completion-ok :
    (item : OutboxItem) (ps : List Pending) {first : Pending} {rest : List Pending}
    → validate_completion item ps ≡ ok (first, rest)
    → All (IsFor item) ps × (map normalize_pending ps ≡ first ∷ rest)
unfolding validate_completion
validate_completion-ok item ps h =
    let (qs, e, h1) = bind-ok (validate_records item ps) _ h in
    let (fits, same) = validate_records-ok item ps e in
    (fits, sym same ∙ at_least_one_record-ok qs h1)

head_id : Pending → List Pending → Text
head_id p [] = p.provider_id
head_id p (q ∷ qs) = q.provider_id

Completes-IsSent :
    (now : ℕ) (s t : MemoryStore) (id : ℕ) (item : OutboxItem) (ps : List Pending)
    → Completes now s id item ps t
    → IsSent now s t id item ps
unfolding finish_item sent_message normalize_pending head_id
Completes-IsSent now s t id item ps v =
    go ps (validate_completion-ok item ps v.checked).0 (validate_completion-ok item ps v.checked).1
  where
    go :
        (ps : List Pending)
        → All (IsFor item) ps
        → map normalize_pending ps ≡ v.first ∷ v.rest
        → IsSent now s t id item ps
    go [] fits e = absurd (cc)
    go (p ∷ others) fits e = record {
      first = p;
      others = others;
      some_record = refl;
      fits = fits;
      done = finish_item item;
      stored =
          ap (λ (x : MemoryStore). lookup id x.outbox) v.result
          ∙ lookup-insert_self id (finish_item item) s.outbox;
      is_done = refl;
      same_message = refl;
      place = v.place;
      old = v.message;
      new = sent_message now v.first.provider_id v.message;
      indexed = v.indexed;
      before = v.stored;
      after =
          ap (λ (x : MemoryStore). get_elem? x.messages v.place) v.result
          ∙ get_elem?-set_self s.messages v.place (sent_message now v.first.provider_id v.message)
              (get_elem?-lt s.messages v.place v.stored);
      is_sent = refl;
      by_id = sym (ap (head_id p) e);
      since = refl;
      same_id = refl;
      awaited =
          subst
            (λ m.
              All (λ p. Awaits item.gateway_id (pending_key p.provider p.provider_id) m)
                (p ∷ others))
            (ap (λ qs. write_pendings qs s.pending) e
              ∙ sym (ap (λ (x : MemoryStore). x.pending) v.result))
            (write_pendings-Awaits item (p ∷ others) s.pending fits);
    }

-- A completion that is accepted names a stored item. Either that is done already, and the store stays
-- as it is. Or the worker had it in sending; there is at least one record, each with a provider id, the
-- message and the provider of the item; and afterwards the item is stored as done, its message is
-- sent, at this time and with the provider id of the first record, and a record of the message is stored
-- under the key of each of the records.
pub complete_outbox_send-IsSent :
    (now : ℕ) (s t : MemoryStore) (id : ℕ) (worker : Text) (ps : List Pending)
    → complete_outbox_send now s id worker ps ≡ ok t
    → (item : OutboxItem) × (lookup id s.outbox ≡ some item)
      × (((item.state ≡ OutboxState.done) × (t ≡ s))
          ⊎ ((item.state ≡ OutboxState.sending)
              × (item.claimed_by ≡ worker)
              × IsSent now s t id item ps))
complete_outbox_send-IsSent now s t id worker ps h =
    let (item, there, how) = complete_outbox_send_lem now s t id worker ps h in
    (
      item,
      there,
      elim how [
        | inl same ↦ inl same
        | inr (a, b, v) ↦ inr (a, b, Completes-IsSent now s t id item ps v)
      ],
    )
