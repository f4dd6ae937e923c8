-- ===== src/Store/Machine/Frame.antt =====
-- The operations of internal/store/memory.go that are not about the outbox.
use mysmpp.Base.{
  ◌≡◌, text_eq, text2_eq, nat_eq, Bool-cases, Option-cases, Text, arith, get_elem?, inl, inr,
  length, lookup, ltb, refl, ℕ, ℤ,
}
use mysmpp.Store.Types.{
  MemoryStore, Message, Pending, bind-ok, not_found, ok, ok_subst, or_fail, out_of_range,
}
use mysmpp.Store.Pendings.{
  sweep, check_idempotency, get_pending, pending_key, save_idempotency, update_pending,
  mark_dlr_delivered, mark_dlr_ready, update_pending_dlr,
}
use mysmpp.Store.Messages.{
  save_message, trim_messages, update_message, update_message_sent, update_message_state, write_at,
}
use mysmpp.Store.Retries.{mark_unknown}

-- The outbox and its counter are the same.
abbrev pub Frame : MemoryStore → MemoryStore → Type 0
Frame s t = (t.outbox ≡ s.outbox) × (t.next_outbox ≡ s.next_outbox)

write_at-Frame :
    (s : MemoryStore) (i : ℕ) (msg : Message) {t : MemoryStore}
    → write_at s i msg ≡ ok t
    → Frame s t
unfolding write_at
write_at-Frame s i msg {t} h = elim (Bool-cases (ltb i (length s.messages))) [
  | inl low ↦ ok_subst (Frame s) (rw low at h) (refl, refl)
  | inr high ↦ absurd (cc (rw high at h))
]

pub update_message-Frame :
    (s : MemoryStore) (id : Text) (change : Message → Message) {t : MemoryStore}
    → update_message s id change ≡ ok t
    → Frame s t
unfolding update_message
update_message-Frame s id change h =
    let (i, e, h1) = bind-ok (or_fail (lookup id s.message_by_id) not_found) _ h in
    let (m, e', h2) = bind-ok (or_fail (get_elem? s.messages i) out_of_range) _ h1 in
    write_at-Frame s i (change m) h2

pub update_message_sent-Frame :
    (now : ℕ) (s : MemoryStore) (id provider_id : Text) {t : MemoryStore}
    → update_message_sent now s id provider_id ≡ ok t
    → Frame s t
unfolding update_message_sent
update_message_sent-Frame now s id provider_id h = update_message-Frame s id _ h

pub update_message_state-Frame :
    (now : ℕ) (s : MemoryStore) (id state : Text) (code : ℤ) {t : MemoryStore}
    → update_message_state now s id state code ≡ ok t
    → Frame s t
unfolding update_message_state
update_message_state-Frame now s id state code h = update_message-Frame s id _ h

pub mark_unknown-Frame :
    (now : ℕ) (s : MemoryStore) (gateway_id : Text) {t : MemoryStore}
    → mark_unknown now s gateway_id ≡ ok t
    → Frame s t
unfolding mark_unknown
mark_unknown-Frame now s gateway_id h = elim (Option-cases (lookup gateway_id s.message_by_id)) [
  | inl miss ↦ ok_subst (Frame s) (rw (miss, mark_unknown) at h) (refl, refl)
  | inr (i, hit) ↦
      let (m, e, h1) =
        bind-ok (or_fail (get_elem? s.messages i) out_of_range) _ (rw (hit, mark_unknown) at h) in
      write_at-Frame s i _ h1
]

pub save_message-Frame :
    (s : MemoryStore) (msg : Message) {t : MemoryStore} → save_message s msg ≡ ok t → Frame s t
unfolding save_message trim_messages
save_message-Frame s msg h = elim (Option-cases (lookup msg.id s.message_by_id)) [
  | inl fresh ↦ ok_subst (Frame s) (rw (fresh, save_message) at h) (ground arith, ground arith)
  | inr (i, hit) ↦ write_at-Frame s i msg (rw (hit, save_message) at h)
]

pub sweep-Frame : (now : ℕ) (s : MemoryStore) → Frame s (sweep now s)
unfolding sweep
sweep-Frame now s = (refl, refl)

pub update_pending-Frame :
    (s : MemoryStore) (provider provider_id : Text) (change : Pending → Pending) {t : MemoryStore}
    → update_pending s provider provider_id change ≡ ok t
    → Frame s t
unfolding update_pending
update_pending-Frame s provider provider_id change h =
    let (p, e, done) =
      bind-ok (or_fail (lookup (pending_key provider provider_id) s.pending) not_found) _ h in
    ok_subst (Frame s) done (refl, refl)

pub get_pending-Frame :
    (now : ℕ) (s : MemoryStore) (provider provider_id : Text)
    → Frame s (get_pending now s provider provider_id).0
unfolding get_pending sweep
get_pending-Frame now s provider provider_id = (ground arith, ground arith)

pub check_idempotency-Frame :
    (now : ℕ) (s : MemoryStore) (client_id key : Text)
    → Frame s (check_idempotency now s client_id key).0
unfolding check_idempotency sweep
check_idempotency-Frame now s client_id key = (ground arith, ground arith)

pub save_idempotency-Frame :
    (now : ℕ) (s : MemoryStore) (client_id key gateway_id : Text) (ttl : ℤ)
    → Frame s (save_idempotency now s client_id key gateway_id ttl)
unfolding save_idempotency sweep
save_idempotency-Frame now s client_id key gateway_id ttl = (ground arith, ground arith)

pub update_pending_dlr-Frame :
    (s : MemoryStore) (provider provider_id state : Text) (code : ℤ) (done_at : ℕ) {t : MemoryStore}
    → update_pending_dlr s provider provider_id state code done_at ≡ ok t
    → Frame s t
unfolding update_pending_dlr
update_pending_dlr-Frame s provider provider_id state code done_at h =
    update_pending-Frame s provider provider_id _ h

pub mark_dlr_ready-Frame :
    (s : MemoryStore) (provider provider_id state : Text) (code : ℤ) (done_at : ℕ) {t : MemoryStore}
    → mark_dlr_ready s provider provider_id state code done_at ≡ ok t
    → Frame s t
unfolding mark_dlr_ready
mark_dlr_ready-Frame s provider provider_id state code done_at h =
    update_pending-Frame s provider provider_id _ h

pub mark_dlr_delivered-Frame :
    (s : MemoryStore) (provider provider_id : Text) {t : MemoryStore}
    → mark_dlr_delivered s provider provider_id ≡ ok t
    → Frame s t
unfolding mark_dlr_delivered
mark_dlr_delivered-Frame s provider provider_id h = update_pending-Frame s provider provider_id _ h
