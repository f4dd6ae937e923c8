-- ===== src/Dispatch/Receipts/Flush.antt =====
-- The loops of `FlushDLR` of internal/dispatch/dispatcher.go.
use mysmpp.Store.Valid.{IsValid}
use mysmpp.Store.Pendings.Filed.{IsReceipts, lookup-IsFiled}
use mysmpp.Base.{
  take-All, select-All, ℕ, ◌≡◌, ◌<◌, ◌+◌, suc, zero, Bool, true, false, List, [], ◌∷◌, All, some,
  Text, arith, refl, ◌⊎◌, inl, inr, text_eq, text_eqb, lookup, values, values-All, Bool-cases, pos,
  positive_or, ℤ,
}
use mathlib.Core.Path.{subst}
use mysmpp.Store.Types.{MemoryStore, Pending}
use mysmpp.Store.Pendings.{pending_key, ready_for, sweep, list_ready_dlr}
use mysmpp.Dispatch.Receipts.{
  PushAnswer, Flushed, returns, goes_on, out_of_fuel, is_acked, flush_items, flush_dlr, after_round,
  finish_dlr_delivery,
}
use mysmpp.Dispatch.Receipts.Counts.{ready_count}
use mysmpp.Dispatch.Receipts.Finish.{
  Tames, Tames-refl, Tames-trans, sweep-Tames, finish-Tames, finish-less,
}

-- A stored receipt that waits.
abbrev Waits : Text → MemoryStore → Pending → Type 0
Waits system_id s p =
    (lookup (pending_key p.provider p.provider_id) s.pending ≡ some p)
    × (ready_for system_id p ≡ true)

list_ready_dlr-Waits :
    (now : ℕ) (system_id : Text) (s : MemoryStore) (limit : ℤ)
    → IsReceipts s.pending
    → All (Waits system_id (sweep now s)) (list_ready_dlr now s system_id limit).1
unfolding list_ready_dlr
list_ready_dlr-Waits now system_id s limit v =
    let swept = (sweep-Tames system_id now s v).sound in
    let stored : (p : Pending) → Type 0 =
      λ p. lookup (pending_key p.provider p.provider_id) (sweep now s).pending ≡ some p in
    take-All (Waits system_id (sweep now s)) (positive_or 100 limit) _ (
      select-All stored (ready_for system_id) (values (sweep now s).pending) (
        values-All stored (sweep now s).pending swept.dict λ k p e.
          subst (λ x. lookup x (sweep now s).pending ≡ some p)
            (lookup-IsFiled k p (sweep now s).pending swept.filed e).0 e))

-- A loop over receipts ends, and one that goes on leaves no more that wait.
abbrev EndsWell : Text → MemoryStore → Flushed → Type 0
EndsWell system_id s (returns t) = Unit
EndsWell system_id s (goes_on t) = Tames system_id s t
EndsWell system_id s out_of_fuel = ⊥

EndsWell-trans :
    (system_id : Text) (s t : MemoryStore) (f : Flushed)
    → Tames system_id s t
    → EndsWell system_id t f
    → EndsWell system_id s f
EndsWell-trans system_id s t (returns u) a b = tt
EndsWell-trans system_id s t (goes_on u) a b = Tames-trans system_id s t u a b
EndsWell-trans system_id s t out_of_fuel a b = b

module _ (normal : Text → Text) (push : MemoryStore → Pending → PushAnswer) (now : ℕ)
    (system_id : Text) where
  flush_items-EndsWell :
      (items : List Pending) (s : MemoryStore)
      → IsReceipts s.pending
      → EndsWell system_id s (flush_items normal push now system_id items s)
  unfolding flush_items
  flush_items-EndsWell [] s v = Tames-refl system_id s v
  flush_items-EndsWell (rec ∷ items) s v =
      let done = finish-Tames normal now system_id rec s v in
      go (is_acked (push s rec)) (text_eqb system_id [])
        (EndsWell-trans system_id s (finish_dlr_delivery normal now rec s) _ done
          (flush_items-EndsWell items (finish_dlr_delivery normal now rec s) done.sound))
        (flush_items-EndsWell items s v)
    where
      go :
          (yes blank : Bool)
          → EndsWell system_id s
              (flush_items normal push now system_id items (finish_dlr_delivery normal now rec s))
          → EndsWell system_id s (flush_items normal push now system_id items s)
          → EndsWell system_id s (elim yes [
            | true ↦
                flush_items normal push now system_id items (finish_dlr_delivery normal now rec s)
            | false ↦ elim blank [
              | true ↦ flush_items normal push now system_id items s
              | false ↦ returns s
            ]
          ])
      go true blank a b = a
      go false true a b = b
      go false false a b = tt

  -- A round that goes on for one system id delivered its first receipt.
  abbrev EndsLess : MemoryStore → Flushed → Type 0
  EndsLess s (returns t) = Unit
  EndsLess s (goes_on t) =
      IsReceipts t.pending
      × ((text_eqb system_id [] ≡ true)
          ⊎ (ready_count system_id t.pending < ready_count system_id s.pending))
  EndsLess s out_of_fuel = ⊥

  EndsLess-after :
      (s t : MemoryStore) (f : Flushed)
      → (text_eqb system_id [] ≡ true)
        ⊎ (ready_count system_id t.pending < ready_count system_id s.pending)
      → EndsWell system_id t f
      → EndsLess s f
  EndsLess-after s t (returns u) a b = tt
  EndsLess-after s t (goes_on u) (inl blank) b = (b.sound, inl blank)
  EndsLess-after s t (goes_on u) (inr less) b = (b.sound, inr (omega (arith, less, b.fewer)))
  EndsLess-after s t out_of_fuel a b = b

  flush_items-EndsLess :
      (rec : Pending) (items : List Pending) (s : MemoryStore)
      → IsReceipts s.pending
      → Waits system_id s rec
      → EndsLess s (flush_items normal push now system_id (rec ∷ items) s)
  unfolding flush_items
  flush_items-EndsLess rec items s v waits = go (is_acked (push s rec)) (text_eqb system_id []) refl
    where
      done : MemoryStore
      done = finish_dlr_delivery normal now rec s

      go :
          (yes blank : Bool)
          → text_eqb system_id [] ≡ blank
          → EndsLess s (elim yes [
            | true ↦ flush_items normal push now system_id items done
            | false ↦ elim blank [
              | true ↦ flush_items normal push now system_id items s
              | false ↦ returns s
            ]
          ])
      go true blank e =
          EndsLess-after s done _ (inr (finish-less normal now system_id rec s v waits.0 waits.1))
            (flush_items-EndsWell items done (finish-Tames normal now system_id rec s v).sound)
      go false true e = EndsLess-after s s _ (inl e) (flush_items-EndsWell items s v)
      go false false e = tt

  Returns : Flushed → Type 0
  Returns f = (t : MemoryStore) × (f ≡ returns t)

  after_round-Returns :
      (s : MemoryStore) (again : MemoryStore → Flushed) (f : Flushed)
      → ((t : MemoryStore)
          → IsReceipts t.pending
          → ready_count system_id t.pending < ready_count system_id s.pending
          → Returns (again t))
      → EndsLess s f
      → Returns (after_round normal push now system_id again f)
  unfolding Returns
  after_round-Returns s again (returns t) more h = (t, refl)
  after_round-Returns s again (goes_on t) more (v, inl blank) = (t, rw (blank, after_round) refl)
  after_round-Returns s again (goes_on t) more (v, inr less) =
      elim (Bool-cases (text_eqb system_id [])) [
        | inl blank ↦ (t, rw (blank, after_round) refl)
        | inr named ↦ rw (named, after_round) (more t v less)
      ]
  after_round-Returns s again out_of_fuel more h = absurd h

  flush_dlr-Returns :
      (rounds : ℕ) (s : MemoryStore)
      → IsReceipts s.pending
      → ready_count system_id s.pending < rounds
      → Returns (flush_dlr normal push now rounds system_id s)
  unfolding flush_dlr Returns list_ready_dlr
  flush_dlr-Returns zero s v low = absurd (omega arith)
  flush_dlr-Returns (suc rounds) s v low =
      let swept = sweep-Tames system_id now s v in
      go (list_ready_dlr now s system_id (pos 500)).1
        (list_ready_dlr-Waits now system_id s (pos 500) v) swept.sound
        (λ t w less. flush_dlr-Returns rounds t w (omega (arith, less, swept.fewer, low)))
    where
      u : MemoryStore
      u = sweep now s

      go :
          (items : List Pending)
          → All (Waits system_id u) items
          → IsReceipts u.pending
          → ((t : MemoryStore)
              → IsReceipts t.pending
              → ready_count system_id t.pending < ready_count system_id u.pending
              → Returns (flush_dlr normal push now rounds system_id t))
          → Returns (elim items [
            | [] ↦ returns u
            | rec ∷ more ↦
                after_round normal push now system_id
                  (flush_dlr normal push now rounds system_id)
                  (flush_items normal push now system_id (rec ∷ more) u)
          ])
      go [] waits w more = (u, refl)
      go (rec ∷ items) waits w more =
          after_round-Returns u _ _ more (flush_items-EndsLess rec items u w waits.0)

  -- FlushDLR ends: on a valid store it returns after at most one round for each receipt that waits for
  -- the system id, and a last one, whatever the clients answer.
  pub flush_dlr_terminates :
      (s : MemoryStore)
      → IsValid s
      → (t : MemoryStore) × (flush_dlr normal push now
            (ready_count system_id s.pending + 1)
            system_id
            s
          ≡ returns t)
  unfolding Returns
  flush_dlr_terminates s v =
      flush_dlr-Returns (ready_count system_id s.pending + 1) s v.receipts (omega arith)
