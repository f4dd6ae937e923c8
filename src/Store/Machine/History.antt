-- ===== src/Store/Machine/History.antt =====
-- Histories of calls on the memory store of internal/store/memory.go.
use mysmpp.Base.{
  ◌≡◌, nat_eq, Bool, List, Text, [], arith, false, length, lookup, refl, some, true, ℕ, ◌+◌, ◌<◌,
  ◌^◌, ◌∷◌,
}
use mysmpp.Store.Types.{MemoryStore, OutboxItem, OutboxState}
use mysmpp.Store.Machine.{run, Event, step}
use mysmpp.Store.Valid.{IsValid}
use mysmpp.Store.Outbox.Moves.{
  Move, stay, claims, sends, returns, acknowledges, completes, abandons, fails,
}
use mysmpp.Store.Machine.Step.{step-Advances}
use mysmpp.Store.Machine.Valid.{step-IsValid}

-- The item was handed to the provider, or is at rest: it may not be sent again.
abbrev pub is_handed : OutboxState → Bool
is_handed OutboxState.sending = true
is_handed OutboxState.done = true
is_handed OutboxState.uncertain = true
is_handed OutboxState.failed = true
is_handed _ = false

handed_transport :
    {a b c d : OutboxState}
    → a ≡ c
    → b ≡ d
    → (is_handed c ≡ true → is_handed d ≡ true)
    → is_handed a ≡ true
    → is_handed b ≡ true
handed_transport p q f h = rw q (f (rw p at h))

pub Move-is_handed : {a b : OutboxState} → Move a b → is_handed a ≡ true → is_handed b ≡ true
Move-is_handed (stay p) h = rw (← p) h
Move-is_handed (claims p q) h = handed_transport p q (λ e. e) (absurd (cc (rw p at h)))
Move-is_handed (sends p q) h = rw q refl
Move-is_handed (returns p q) h = absurd (cc (rw p at h))
Move-is_handed (acknowledges p q) h = rw q refl
Move-is_handed (completes p q) h = rw q refl
Move-is_handed (abandons p q) h = rw q refl
Move-is_handed (fails p q) h = rw q refl

module _ (valid_date : Text → Bool) where
  -- A valid store stays valid through any history of calls that leaves room in the id space: the index
  -- agrees with the messages, the outbox holds each item under its own id, each receipt is normalized
  -- and under its own key, and no map has a key twice.
  pub run-IsValid :
      (s : MemoryStore) (es : List (ℕ × Event))
      → s.next_outbox + length es < 2 ^ 64
      → IsValid s
      → IsValid (run valid_date s es)
  unfolding run
  run-IsValid s [] room v = v
  run-IsValid s ((now, e) ∷ es) room v =
      let a = step-Advances valid_date now s e (omega arith) v in
      run-IsValid (step valid_date now s e) es (omega (arith, a.grows))
        (step-IsValid valid_date now s e (omega arith) v)

  -- From a valid store, and as long as the history leaves room in the id space: an item that is in
  -- sending, done, uncertain or failed is still stored and in one of these states after any history of
  -- calls, so no later claim can take it.
  pub run-is_handed :
      (s : MemoryStore) (es : List (ℕ × Event)) (k : ℕ) (item : OutboxItem)
      → s.next_outbox + length es < 2 ^ 64
      → IsValid s
      → lookup k s.outbox ≡ some item
      → is_handed item.state ≡ true
      → (item' : OutboxItem) × (lookup k (run valid_date s es).outbox ≡ some item')
        × (is_handed item'.state ≡ true)
  unfolding run
  run-is_handed s [] k item room v hit h = (item, hit, h)
  run-is_handed s ((now, e) ∷ es) k item room v hit h =
      let a = step-Advances valid_date now s e (omega arith) v in
      let (x, hit', (mv, owner)) = a.moves k item hit in
      run-is_handed (step valid_date now s e) es k x (omega (arith, a.grows))
        (step-IsValid valid_date now s e (omega arith) v) hit' (Move-is_handed mv h)
