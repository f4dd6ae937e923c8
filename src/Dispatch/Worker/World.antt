-- ===== src/Dispatch/Worker/World.antt =====
-- The store and the calls of providers: `processOutbox` of internal/dispatch/dispatcher.go split at
-- the call of the provider, with any calls of the store in between.
use mysmpp.Base.{ℕ, ◌≡◌, ◌≢◌, ◌⊎◌, List, [], ◌∷◌, All, Text, Bool, nat_eq}
use mysmpp.Store.Types.{MemoryStore, OutboxItem, Result, ok, err}
use mysmpp.Store.Machine.{Event, step}
use mysmpp.Dispatch.Worker.{begin_delivery}

-- The store, and the calls of providers so far: the outbox id and the worker.
pub record World : Type 0 where
  pub store : MemoryStore
  pub sent : List (ℕ × Text)

-- Any call of the store, or a worker that comes to the provider with a claimed item.
pub data Act : Type 0 where
  calls : ℕ → Event → Act
  delivers : OutboxItem → Act

unfoldable pub deliver : World → OutboxItem → Result MemoryStore → World
deliver w item (ok t) = record { store = t; sent = (item.id, item.claimed_by) ∷ w.sent }
deliver w item (err e) = w

module _ (valid_date : Text → Bool) where
  unfoldable pub act : World → Act → World
  unfolding deliver begin_delivery
  act w (calls now e) = record w { store = step valid_date now w.store e }
  act w (delivers item) = deliver w item (begin_delivery item w.store)

  unfoldable pub act_all : World → List Act → World
  unfolding act
  act_all w [] = w
  act_all w (a ∷ acts) = act_all (act w a) acts

-- Two calls of a provider for one item are made by one worker.
abbrev pub OneWorker : List (ℕ × Text) → Type 0
OneWorker [] = Unit
OneWorker ((k, worker) ∷ sent) =
    All (λ other. (other.0 ≢ k) ⊎ (other.1 ≡ worker)) sent × OneWorker sent
