-- ===== src/Dispatch/Receipts/Counts.antt =====
-- The receipts of a store that wait for a client, as records come and go.
use mysmpp.Base.{
  ℕ, ◌≡◌, ◌≤◌, ◌<◌, Bool, true, false, [], ◌∷◌, some, Text, arith, refl, text_eq, text_eqb_iff,
  Dict, lookup, insert, retain, values, select, length,
}
use mysmpp.Store.Types.{Pending}
use mysmpp.Store.Pendings.{ready_for}

-- The receipts that wait for a client.
abbrev pub ready_count : Text → Dict Text Pending → ℕ
ready_count system_id m = length (select (ready_for system_id) (values m))

-- A record that is no longer ready.
abbrev pub delivered : Pending → Pending
delivered p = record p { dlr_ready = false; dlr_delivered = true }

pub delivered_unready : (system_id : Text) (p : Pending) → ready_for system_id (delivered p) ≡ false
unfolding ready_for
delivered_unready [] p = refl
delivered_unready (c ∷ cs) p = refl

pub retain-ready :
    (system_id : Text) (keep : Text → Pending → Bool) (m : Dict Text Pending)
    → ready_count system_id (retain keep m) ≤ ready_count system_id m
unfolding retain
retain-ready system_id keep [] = omega arith
retain-ready system_id keep ((k, p) ∷ m) = ground (arith, retain-ready system_id keep m)

pub insert-ready :
    (system_id key : Text) (v : Pending) (m : Dict Text Pending)
    → ready_for system_id v ≡ false
    → ready_count system_id (insert key v m) ≤ ready_count system_id m
unfolding insert
insert-ready system_id key v [] h = ground arith
insert-ready system_id key v ((k, p) ∷ m) h = ground (arith, insert-ready system_id key v m h)

pub insert-ready_less :
    (system_id key : Text) (p v : Pending) (m : Dict Text Pending)
    → ready_for system_id v ≡ false
    → lookup key m ≡ some p
    → ready_for system_id p ≡ true
    → ready_count system_id (insert key v m) < ready_count system_id m
unfolding insert lookup
insert-ready_less system_id key p v [] h hit r = absurd (cc)
insert-ready_less system_id key p v ((k, q) ∷ m) h hit r =
    ground (arith, text_eqb_iff k key, insert-ready_less system_id key p v m h)
