-- ===== src/Dispatch/Worker/Owns.antt =====
-- The store's calls that `processOutbox` of internal/dispatch/dispatcher.go makes for one item.
use mysmpp.Store.Types.{OutboxPayload, OutboxItem, Pending}
use mysmpp.Dispatch.Worker.{awaited, sent_pendings, provider_ids}
use mysmpp.Base.{ℕ, ◌≡◌, ◌+◌, List, [], ◌∷◌, ◌++◌, All, Text, refl, length, codes}
use mysmpp.Store.Machine.{
  Event, starts_sending, completes_send, gives_up, fails, updates_state, saves_pending,
  deletes_pending,
}

-- A record of the message of the payload, for its provider.
abbrev pub IsRecordOf : OutboxPayload → Pending → Type 0
IsRecordOf payload p = (p.gateway_id ≡ payload.gateway_id) × (p.provider ≡ payload.provider)

-- The id under which the receipt for a message that never left is kept.
abbrev pub local_id : OutboxPayload → Text
local_id payload = codes "local-failure:" ++ payload.gateway_id

-- A call about one outbox entry, its message, the records of its payload, or the one receipt that says
-- that it never left.
abbrev pub IsOwnOf : ℕ → Text → Text → OutboxPayload → Event → Type 0
IsOwnOf k owner gateway_id payload (starts_sending id worker) = (id ≡ k) × (worker ≡ owner)
IsOwnOf k owner gateway_id payload (completes_send id worker ps) =
    (id ≡ k) × (worker ≡ owner) × All (IsRecordOf payload) ps
IsOwnOf k owner gateway_id payload (gives_up id worker message) = (id ≡ k) × (worker ≡ owner)
IsOwnOf k owner gateway_id payload (fails id message next) = id ≡ k
IsOwnOf k owner gateway_id payload (updates_state id state code) = id ≡ gateway_id
IsOwnOf k owner gateway_id payload (saves_pending p) =
    IsRecordOf payload p × (p.provider_id ≡ local_id payload)
IsOwnOf k owner gateway_id payload (deletes_pending provider id) =
    (provider ≡ payload.provider) × (id ≡ local_id payload)
IsOwnOf k owner gateway_id payload _ = ⊥

-- A call of a delivery of the item.
abbrev pub IsOwn : OutboxItem → Event → Type 0
IsOwn item = IsOwnOf item.id item.claimed_by item.gateway_id item.payload

sent_pendings-All :
    (expires : ℕ) (payload : OutboxPayload) (n i : ℕ) (ids : List Text)
    → All (IsRecordOf payload) (sent_pendings expires payload n i ids)
unfolding sent_pendings
sent_pendings-All expires payload n i [] = tt
sent_pendings-All expires payload n i (id ∷ ids) =
    ((refl, refl), sent_pendings-All expires payload n (i + 1) ids)

pub awaited-All :
    (now ttl : ℕ) (payload : OutboxPayload) (ids : List Text)
    → All (IsRecordOf payload) (awaited now ttl payload ids)
unfolding awaited
awaited-All now ttl payload ids =
    sent_pendings-All (now + ttl) payload (length (provider_ids payload.gateway_id ids)) 0
      (provider_ids payload.gateway_id ids)
