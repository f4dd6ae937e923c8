-- ===== src/Dispatch/Receipts/Finish.antt =====
-- `finishDLRDelivery` of internal/dispatch/dispatcher.go and the receipts that wait.
use mysmpp.Store.Pendings.Filed.{
  IsReceipts, retain-IsReceipts, insert-IsReceipts, set_dlr-IsFiled, lookup-IsFiled,
}
use mysmpp.Store.Types.{◌>>=◌, MemoryStore, Pending, Result, ok, err, not_found, or_fail}
use mysmpp.Base.{
  ℕ, ◌≡◌, ◌≤◌, ◌<◌, Bool, true, false, Option, none, some, Text, arith, refl, text_eq, lookup,
  insert,
}
use mysmpp.Store.Pendings.{
  pending_key, ready_for, survives, sweep, list_pending_by_gateway_id, mark_dlr_delivered,
  update_pending, delete_pending_by_gateway_id,
}
use mysmpp.Dispatch.Receipts.{finish_dlr_delivery, finish_marked, delete_if}
use mysmpp.Dispatch.Receipts.Counts.{
  ready_count, delivered, delivered_unready, retain-ready, insert-ready, insert-ready_less,
}

-- A sound store with no more receipts that wait.
pub record Tames (system_id : Text) (s t : MemoryStore) : Type 0 where
  pub sound : IsReceipts t.pending
  pub fewer : ready_count system_id t.pending ≤ ready_count system_id s.pending

pub Tames-refl : (system_id : Text) (s : MemoryStore) → IsReceipts s.pending → Tames system_id s s
Tames-refl system_id s v = record { sound = v; fewer = omega arith }

pub Tames-trans :
    (system_id : Text) (s t u : MemoryStore)
    → Tames system_id s t
    → Tames system_id t u
    → Tames system_id s u
Tames-trans system_id s t u a b = record {
  sound = b.sound;
  fewer = omega (arith, a.fewer, b.fewer);
}

pub sweep-Tames :
    (system_id : Text) (now : ℕ) (s : MemoryStore)
    → IsReceipts s.pending
    → Tames system_id s (sweep now s)
unfolding sweep
sweep-Tames system_id now s v = record {
  sound = retain-IsReceipts (λ key p. survives now p) s.pending v;
  fewer = retain-ready system_id (λ key p. survives now p) s.pending;
}

pub delete-Tames :
    (system_id gateway_id : Text) (s : MemoryStore)
    → IsReceipts s.pending
    → Tames system_id s (delete_pending_by_gateway_id s gateway_id)
unfolding delete_pending_by_gateway_id
delete-Tames system_id gateway_id s v = record {
  sound = retain-IsReceipts _ s.pending v;
  fewer = retain-ready system_id _ s.pending;
}

pub delete_if-Tames :
    (yes : Bool) (system_id gateway_id : Text) (s : MemoryStore)
    → IsReceipts s.pending
    → Tames system_id s (delete_if yes gateway_id s)
delete_if-Tames true system_id gateway_id s v = delete-Tames system_id gateway_id s v
delete_if-Tames false system_id gateway_id s v = Tames-refl system_id s v

pub put_delivered-IsReceipts :
    (s : MemoryStore) (key : Text) (p : Pending)
    → IsReceipts s.pending
    → lookup key s.pending ≡ some p
    → IsReceipts (insert key (delivered p) s.pending)
put_delivered-IsReceipts s key p v hit =
    insert-IsReceipts key (delivered p) s.pending
      (set_dlr-IsFiled false true p.dlr_state p.dlr_error_code p.dlr_done_at key p
        (lookup-IsFiled key p s.pending v.filed hit))
      v

-- Where `mark_dlr_delivered` ends, by what the lookup finds.
abbrev pub marked : MemoryStore → Text → Option Pending → Result MemoryStore
marked s key none = err not_found
marked s key (some p) = ok (record s { pending = insert key (delivered p) s.pending })

pub mark_dlr_delivered_lem :
    (s : MemoryStore) (provider id : Text)
    → mark_dlr_delivered s provider id
      ≡ marked s (pending_key provider id) (lookup (pending_key provider id) s.pending)
unfolding mark_dlr_delivered update_pending
mark_dlr_delivered_lem s provider id = go (lookup (pending_key provider id) s.pending)
  where
    go :
        (found : Option Pending)
        → (or_fail found not_found >>= λ p.
            ok (record s { pending = insert (pending_key provider id) (delivered p) s.pending }))
          ≡ marked s (pending_key provider id) found
    go none = refl
    go (some p) = refl

module _ (normal : Text → Text) (now : ℕ) (system_id : Text) where
  pub finish_marked-Tames :
      (rec : Pending) (s t : MemoryStore)
      → IsReceipts t.pending
      → Tames system_id t (finish_marked normal now rec s (ok t))
  unfolding list_pending_by_gateway_id
  finish_marked-Tames rec s t v =
      let swept = sweep-Tames system_id now t v in
      Tames-trans system_id t (sweep now t) _ swept
        (delete_if-Tames _ system_id rec.gateway_id (sweep now t) swept.sound)

  -- After a receipt is finished: no more wait, and one less if it was waiting.
  pub finish-Tames :
      (rec : Pending) (s : MemoryStore)
      → IsReceipts s.pending
      → Tames system_id s (finish_dlr_delivery normal now rec s)
  unfolding finish_dlr_delivery
  finish-Tames rec s v =
      rw (mark_dlr_delivered_lem s rec.provider rec.provider_id)
        (go (lookup (pending_key rec.provider rec.provider_id) s.pending) refl)
    where
      key : Text
      key = pending_key rec.provider rec.provider_id

      go :
          (found : Option Pending)
          → lookup key s.pending ≡ found
          → Tames system_id s (finish_marked normal now rec s (marked s key found))
      go none e = Tames-refl system_id s v
      go (some p) e =
          let t : MemoryStore = record s { pending = insert key (delivered p) s.pending } in
          let sound = put_delivered-IsReceipts s key p v e in
          Tames-trans system_id s t _
            (record {
              sound = sound;
              fewer =
                  insert-ready system_id key (delivered p) s.pending
                    (delivered_unready system_id p);
            })
            (finish_marked-Tames rec s t sound)

  pub finish-less :
      (rec : Pending) (s : MemoryStore)
      → IsReceipts s.pending
      → lookup (pending_key rec.provider rec.provider_id) s.pending ≡ some rec
      → ready_for system_id rec ≡ true
      → ready_count system_id (finish_dlr_delivery normal now rec s).pending
        < ready_count system_id s.pending
  unfolding finish_dlr_delivery
  finish-less rec s v hit ready =
      let key = pending_key rec.provider rec.provider_id in
      let t : MemoryStore = record s { pending = insert key (delivered rec) s.pending } in
      let less =
        insert-ready_less system_id key rec (delivered rec) s.pending
          (delivered_unready system_id rec) hit ready in
      let rest = finish_marked-Tames rec s t (put_delivered-IsReceipts s key rec v hit) in
      rw (mark_dlr_delivered_lem s rec.provider rec.provider_id, hit)
        (omega (arith, less, rest.fewer))
