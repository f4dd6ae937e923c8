-- ===== src/Store/Messages/Keep.antt =====
-- The message operations of internal/store/memory.go against the index and the rest of the
-- store.
use mysmpp.Base.{
  ℕ, ◌-◌, ◌≡◌, inl, inr, text_eq, pos_part, is_positive, leb, length, Bool-cases, Option-cases,
  Text, [], arith, get_elem?, get_elem?-lt, insert, lookup, lt→ltb, none, refl, set, some, sym,
  ◌++◌, ◌∷◌, ◌⊎◌,
}
use mysmpp.Store.Types.{MemoryStore, Message, Result, err, not_found, ok}
use mysmpp.Store.Messages.{trim_to, trim_messages, save_message, update_message, write_at}
use mysmpp.Store.Messages.Index.{IsIndexed, drop-IsIndexed, append-IsIndexed, set-IsIndexed}

abbrev pub Indexed : MemoryStore → Type 0
Indexed s = IsIndexed s.messages s.message_by_id

-- The parts of the store that no message operation touches.
pub record SameRest (s t : MemoryStore) : Type 0 where
  pub same_pending : t.pending ≡ s.pending
  pub same_outbox : t.outbox ≡ s.outbox
  pub same_next : t.next_outbox ≡ s.next_outbox
  pub same_idempotency : t.idempotency ≡ s.idempotency

trim_to-Indexed : (n : ℕ) (s : MemoryStore) → Indexed s → Indexed (trim_to n s)
unfolding trim_to
trim_to-Indexed n s v = elim (Bool-cases (leb (length s.messages) n)) [
  | inl few ↦ rw few v
  | inr many ↦ rw many (drop-IsIndexed (length s.messages - n) v)
]

pub trim_messages-Indexed : (s : MemoryStore) → Indexed s → Indexed (trim_messages s)
unfolding trim_messages
trim_messages-Indexed s v = elim (Bool-cases (is_positive s.max_messages)) [
  | inl yes' ↦ rw yes' (trim_to-Indexed (pos_part s.max_messages) s v)
  | inr no' ↦ rw no' v
]

-- A write at the place of a message with the same id succeeds.
pub write_at-ok :
    (s : MemoryStore) (i : ℕ) (old new : Message)
    → get_elem? s.messages i ≡ some old
    → write_at s i new ≡ ok (record s { messages = set s.messages i new })
unfolding write_at
write_at-ok s i old new g = rw (lt→ltb i (length s.messages) (get_elem?-lt s.messages i g))

-- What a successful message operation leaves behind.
abbrev pub Kept : MemoryStore → Result MemoryStore → Type 0
Kept s r = (t : MemoryStore) × (r ≡ ok t) × Indexed t × SameRest s t

pub written-Kept :
    (s : MemoryStore) (i : ℕ) (old new : Message)
    → Indexed s
    → get_elem? s.messages i ≡ some old
    → new.id ≡ old.id
    → Kept s (write_at s i new)
written-Kept s i old new v g same = (
  record s { messages = set s.messages i new },
  write_at-ok s i old new g,
  set-IsIndexed v i old new g same,
  record { same_pending = refl; same_outbox = refl; same_next = refl; same_idempotency = refl },
)

trim_messages-SameRest : (s : MemoryStore) → SameRest s (trim_messages s)
unfolding trim_messages trim_to
trim_messages-SameRest s = record {
  same_pending = ground arith;
  same_outbox = ground arith;
  same_next = ground arith;
  same_idempotency = ground arith;
}

-- A message is always saved: the index never leads out of the list.
pub save_message-Kept : (s : MemoryStore) (msg : Message) → Indexed s → Kept s (save_message s msg)
unfolding save_message
save_message-Kept s msg v = elim (Option-cases (lookup msg.id s.message_by_id)) [
  | inl fresh ↦
      let added = record s {
        message_by_id = insert msg.id (length s.messages) s.message_by_id;
        messages = s.messages ++ msg ∷ [];
      } in
      let rest = trim_messages-SameRest added in
      rw (fresh, save_message)
        (
          trim_messages added,
          refl,
          trim_messages-Indexed added (append-IsIndexed v msg fresh),
          record {
            same_pending = rest.same_pending;
            same_outbox = rest.same_outbox;
            same_next = rest.same_next;
            same_idempotency = rest.same_idempotency;
          },
        )
  | inr (i, hit) ↦
      let (old, g, same) = v.find msg.id i hit in
      rw (hit, save_message) (written-Kept s i old msg v g (sym same))
]

-- An update of one message that keeps its id fails only for an unknown id.
pub update_message-Kept :
    (s : MemoryStore) (id : Text) (change : Message → Message)
    → Indexed s
    → ((m : Message) → (change m).id ≡ m.id)
    → ((lookup id s.message_by_id ≡ none) × (update_message s id change ≡ err not_found))
      ⊎ Kept s (update_message s id change)
unfolding update_message
update_message-Kept s id change v same = elim (Option-cases (lookup id s.message_by_id)) [
  | inl miss ↦ inl (miss, rw (miss, update_message))
  | inr (i, hit) ↦
      let (old, g, p) = v.find id i hit in
      inr (rw (hit, update_message, g) (written-Kept s i old (change old) v g (same old)))
]
