-- ===== src/Store/Valid/Messages.antt =====
-- The invariant under the message operations of internal/store/memory.go.
use mysmpp.Base.{text_eq, ◌≡◌, Text, inl, inr, refl, ℕ, ℤ, Option-cases, lookup}
use mysmpp.Store.Types.{Message, MemoryStore, Result, ok, ok_subst}
use mysmpp.Store.Messages.{save_message, update_message, update_message_sent, update_message_state}
use mysmpp.Store.Retries.{mark_unknown, unknown_message}
use mysmpp.Store.Messages.Keep.{
  Indexed, SameRest, Kept, save_message-Kept, update_message-Kept, written-Kept,
}
use mysmpp.Store.Valid.{IsValid}
use mathlib.Core.Path.{subst}

pub SameRest-IsValid : (s t : MemoryStore) → IsValid s → Indexed t → SameRest s t → IsValid t
SameRest-IsValid s t v x r = record {
  indexed = x;
  keyed = rw (r.same_outbox, r.same_next) v.keyed;
  receipts = rw r.same_pending v.receipts;
  idempotency_dict = rw r.same_idempotency v.idempotency_dict;
}

pub Kept-IsValid :
    (s : MemoryStore) (r : Result MemoryStore) {t : MemoryStore}
    → IsValid s
    → Kept s r
    → r ≡ ok t
    → IsValid t
Kept-IsValid s r {t} v (u, e, x, k) h =
    let p : u ≡ t = cc in subst IsValid p (SameRest-IsValid s u v x k)

pub save_message-IsValid :
    (s : MemoryStore) (msg : Message) {t : MemoryStore}
    → IsValid s
    → save_message s msg ≡ ok t
    → IsValid t
save_message-IsValid s msg v h = Kept-IsValid s _ v (save_message-Kept s msg v.indexed) h

pub update_message-IsValid :
    (s : MemoryStore) (id : Text) (change : Message → Message) {t : MemoryStore}
    → IsValid s
    → ((m : Message) → (change m).id ≡ m.id)
    → update_message s id change ≡ ok t
    → IsValid t
update_message-IsValid s id change v same h =
    elim (update_message-Kept s id change v.indexed same) [
      | inl (a, e) ↦ absurd (cc)
      | inr k ↦ Kept-IsValid s _ v k h
    ]

pub update_message_sent-IsValid :
    (now : ℕ) (s : MemoryStore) (id provider_id : Text) {t : MemoryStore}
    → IsValid s
    → update_message_sent now s id provider_id ≡ ok t
    → IsValid t
unfolding update_message_sent
update_message_sent-IsValid now s id provider_id v h = update_message-IsValid s id _ v (λ m. refl) h

pub update_message_state-IsValid :
    (now : ℕ) (s : MemoryStore) (id state : Text) (code : ℤ) {t : MemoryStore}
    → IsValid s
    → update_message_state now s id state code ≡ ok t
    → IsValid t
unfolding update_message_state
update_message_state-IsValid now s id state code v h = update_message-IsValid s id _ v (λ m. refl) h

-- The message of an abandoned item is marked if it is still there.
pub mark_unknown-IsValid :
    (now : ℕ) (s : MemoryStore) (gateway_id : Text) {t : MemoryStore}
    → IsValid s
    → mark_unknown now s gateway_id ≡ ok t
    → IsValid t
unfolding mark_unknown unknown_message
mark_unknown-IsValid now s gateway_id v h =
    elim (Option-cases (lookup gateway_id s.message_by_id)) [
      | inl miss ↦ ok_subst IsValid (rw (miss, mark_unknown) at h) v
      | inr (i, hit) ↦
          let (m, g, p) = v.indexed.find gateway_id i hit in
          Kept-IsValid s _ v (written-Kept s i m (unknown_message now m) v.indexed g refl)
            (rw (hit, mark_unknown, g) at h)
    ]
