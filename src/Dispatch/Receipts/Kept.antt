-- ===== src/Dispatch/Receipts/Kept.antt =====
-- Receipts that `HandleDLR` of internal/dispatch/dispatcher.go cannot deliver yet.
use mysmpp.Store.Valid.{IsValid}
use mysmpp.Store.Pendings.{
  sweep, read_pending, has_expired, pending_key, mark_dlr_ready, update_pending, get_pending,
}
use mysmpp.Store.Pendings.Filed.{IsReceipts, retain-IsReceipts, lookup-IsFiled}
use mysmpp.Base.{
  ap, ◌∙◌, insert, Bool-cases, not, delete, inl, inr, ℕ, ◌≡◌, Bool, true, false, ◌&&◌, ◌||◌, [],
  Option, none, some, Text, codes, refl, nat_eqb, ◌%◌, text_eqb, text_eq, lookup,
  lookup-insert_self, if◌then◌else◌,
}
use mysmpp.Store.Types.{
  MemoryStore, Pending, Result, ok, err, not_found, or_fail, bind-ok, ok_subst,
}
use mysmpp.Dispatch.Worker.{Dlr}
use mysmpp.Dispatch.Receipts.{
  PushAnswer, acked, deferred, broken, Handled, settled, waiting, failed, marked_ready,
  finish_dlr_delivery, deliver_smpp, deliver_receipt, handle_found, handle_updated, handle_dlr,
}

-- The store holds the receipt under the provider and provider id of the report, ready to be sent again.
pub record IsKept (dlr : Dlr) (s : MemoryStore) : Type 0 where
  pub rec : Pending
  pub stored : lookup (pending_key dlr.provider dlr.provider_id) s.pending ≡ some rec
  pub ready : rec.dlr_ready ≡ true
  pub undelivered : rec.dlr_delivered ≡ false
  pub state : rec.dlr_state ≡ dlr.state
  pub code : rec.dlr_error_code ≡ dlr.error_code

-- The record that HandleDLR passes on has the key and the state of the receipt.
abbrev Carries : Dlr → Pending → Type 0
Carries dlr rec =
    (pending_key dlr.provider dlr.provider_id ≡ pending_key rec.provider rec.provider_id)
    × (rec.dlr_state ≡ dlr.state)
    × (rec.dlr_error_code ≡ dlr.error_code)

mark_dlr_ready-IsKept :
    (dlr : Dlr) (rec : Pending) (s : MemoryStore) {t : MemoryStore}
    → Carries dlr rec
    → mark_dlr_ready s rec.provider rec.provider_id rec.dlr_state rec.dlr_error_code rec.dlr_done_at
      ≡ ok t
    → IsKept dlr t
unfolding mark_dlr_ready update_pending
mark_dlr_ready-IsKept dlr rec s {t} same h =
    let (p, e, done) =
      bind-ok (or_fail (lookup (pending_key rec.provider rec.provider_id) s.pending) not_found) _
        h in
    let changed : Pending = record p {
      dlr_ready = true;
      dlr_delivered = false;
      dlr_state = rec.dlr_state;
      dlr_error_code = rec.dlr_error_code;
      dlr_done_at = rec.dlr_done_at;
    } in
    let key = pending_key rec.provider rec.provider_id in
    ok_subst (IsKept dlr) done (record {
      rec = changed;
      stored =
          ap (λ k. lookup k (insert key changed s.pending)) same.0
          ∙ lookup-insert_self key changed s.pending;
      ready = refl;
      undelivered = refl;
      state = same.1;
      code = same.2;
    })

module _ (normal : Text → Text) (push : MemoryStore → Pending → PushAnswer) (now : ℕ) where
  deliver_smpp-IsKept :
      (dlr : Dlr) (rec : Pending) (s : MemoryStore) (answer : PushAnswer)
      → Carries dlr rec
      → (deliver_smpp normal push now rec s answer).1 ≡ waiting
      → IsKept dlr (deliver_smpp normal push now rec s answer).0
  deliver_smpp-IsKept dlr rec s acked same h = absurd (cc)
  deliver_smpp-IsKept dlr rec s broken same h = absurd (cc)
  deliver_smpp-IsKept dlr rec s deferred same h = go _ refl h
    where
      go :
          (r : Result MemoryStore)
          → mark_dlr_ready s rec.provider rec.provider_id rec.dlr_state rec.dlr_error_code
              rec.dlr_done_at
            ≡ r
          → (marked_ready s r).1 ≡ waiting
          → IsKept dlr (marked_ready s r).0
      go (ok t) e h = mark_dlr_ready-IsKept dlr rec s same e
      go (err x) e h = absurd (cc)

  deliver_receipt-IsKept :
      (callback : Bool) (dlr : Dlr) (rec : Pending) (s : MemoryStore)
      → Carries dlr rec
      → (deliver_receipt normal push now callback rec s).1 ≡ waiting
      → IsKept dlr (deliver_receipt normal push now callback rec s).0
  unfolding deliver_receipt
  deliver_receipt-IsKept callback dlr rec s same h =
      go (text_eqb rec.source_kind (codes "smpp")) (nat_eqb (rec.registered_delivery % 4) 0)
        (text_eqb rec.source_kind (codes "http")) (text_eqb rec.callback_url [] || callback) h
    where
      result : Bool → Bool → Bool → Bool → MemoryStore × Handled
      result smpp unasked http done =
          if smpp && unasked
          then (finish_dlr_delivery normal now rec s, settled)
          else if smpp
          then deliver_smpp normal push now rec s (push s rec)
          else if http
          then if done then (finish_dlr_delivery normal now rec s, settled) else (s, failed)
          else (s, settled)

      go :
          (smpp unasked http done : Bool)
          → (result smpp unasked http done).1 ≡ waiting
          → IsKept dlr (result smpp unasked http done).0
      go true true http done h = absurd (cc)
      go true false http done h = deliver_smpp-IsKept dlr rec s (push s rec) same h
      go false unasked true true h = absurd (cc)
      go false unasked true false h = absurd (cc)
      go false unasked false done h = absurd (cc)

  handle_updated-IsKept :
      (callback : Bool) (dlr : Dlr) (rec : Pending) (s : MemoryStore) (r : Result MemoryStore)
      → pending_key dlr.provider dlr.provider_id ≡ pending_key rec.provider rec.provider_id
      → (handle_updated normal push now callback dlr rec s r).1 ≡ waiting
      → IsKept dlr (handle_updated normal push now callback dlr rec s r).0
  handle_updated-IsKept callback dlr rec s (err x) key h = absurd (cc)
  handle_updated-IsKept callback dlr rec s (ok t) key h =
      deliver_receipt-IsKept callback dlr _ _ (key, refl, refl) h

  -- What a read finds was stored under the key it was asked for.
  Finds : Text → MemoryStore × Option Pending → Type 0
  Finds key (s, none) = Unit
  Finds key (s, some rec) = key ≡ pending_key rec.provider rec.provider_id

  read_pending-Finds :
      (key : Text) (s : MemoryStore) → IsReceipts s.pending → Finds key (read_pending now key s)
  unfolding read_pending Finds
  read_pending-Finds key s v = go (lookup key s.pending) refl
    where
      result : Option Pending → MemoryStore × Option Pending
      result none = (s, none)
      result (some p) =
          if not p.dlr_ready && has_expired now p.expires_at
          then (record s { pending = delete key s.pending }, none)
          else (s, some p)

      go : (o : Option Pending) → lookup key s.pending ≡ o → Finds key (result o)
      go none e = tt
      go (some p) e = elim (Bool-cases (not p.dlr_ready && has_expired now p.expires_at)) [
        | inl old ↦ rw old tt
        | inr live ↦ rw live (lookup-IsFiled key p s.pending v.filed e).0
      ]

  handle_found-IsKept :
      (callback : Bool) (dlr : Dlr) (found : MemoryStore × Option Pending)
      → Finds (pending_key dlr.provider dlr.provider_id) found
      → (handle_found normal push now callback dlr found).1 ≡ waiting
      → IsKept dlr (handle_found normal push now callback dlr found).0
  unfolding Finds
  handle_found-IsKept callback dlr (s, none) finds h = absurd (cc)
  handle_found-IsKept callback dlr (s, some rec) finds h =
      handle_updated-IsKept callback dlr rec s _ finds h

  -- When HandleDLR on a valid store reports that a receipt waits, since no receiver was online or none
  -- acknowledged it, the store holds a record under the provider and the provider id of that receipt,
  -- with its state and code, undelivered and ready to be sent again.
  pub handle_dlr-IsKept :
      (callback : Bool) (dlr : Dlr) (s : MemoryStore)
      → IsValid s
      → (handle_dlr normal push now callback dlr s).1 ≡ waiting
      → IsKept dlr (handle_dlr normal push now callback dlr s).0
  unfolding handle_dlr get_pending sweep
  handle_dlr-IsKept callback dlr s v h =
      handle_found-IsKept callback dlr (get_pending now s dlr.provider dlr.provider_id)
        (read_pending-Finds (pending_key dlr.provider dlr.provider_id) (sweep now s)
          (retain-IsReceipts _ s.pending v.receipts))
        h
