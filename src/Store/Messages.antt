-- ===== src/Store/Messages.antt =====
-- internal/store/memory.go: the messages and their index by id.
pub mod Index
pub mod Keep
pub mod Laws
pub mod Pages
use mysmpp.Base.{
  ℕ, suc, ◌+◌, ◌-◌, Bool, List, [], ◌∷◌, ◌++◌, ◌&&◌, Option, none, some, Text, codes, text_eqb,
  text_eq, Dict, lookup, insert, ℤ, pos, negsuc, pos_part, is_positive, leb, ltb, if◌then◌else◌,
  length, get_elem?, set, take, drop, select,
}
use mysmpp.Store.Types.{
  Message, MemoryStore, ListOptions, Result, ◌>>=◌, ok, err, not_found, out_of_range, or_fail,
}

-- `for i, msg := range s.messages { s.messageByID[msg.ID] = i }`, from the index `i` on.
unfoldable pub index_from : ℕ → List Message → Dict Text ℕ → Dict Text ℕ
index_from i [] m = m
index_from i (x ∷ xs) m = index_from (suc i) xs (insert x.id i m)

trim_to : ℕ → MemoryStore → MemoryStore
trim_to limit s =
    let rest = drop (length s.messages - limit) s.messages in
    if leb (length s.messages) limit
    then s
    else record s { messages = rest; message_by_id = index_from 0 rest [] }

-- `trimMessagesLocked`: the newest `max_messages` are kept and the index is built anew.
unfoldable pub trim_messages : MemoryStore → MemoryStore
unfolding trim_to
trim_messages s = if is_positive s.max_messages then trim_to (pos_part s.max_messages) s else s

-- `s.messages[idx] = msg`, with the index taken from the map.
unfoldable pub write_at : MemoryStore → ℕ → Message → Result MemoryStore
write_at s i msg =
    if ltb i (length s.messages)
    then ok (record s { messages = set s.messages i msg })
    else err out_of_range

-- `SaveMessage`, and the same lines of `SubmitAtomic`.
unfoldable pub save_message : MemoryStore → Message → Result MemoryStore
unfolding trim_messages write_at
save_message s msg = elim (lookup msg.id s.message_by_id) [
  | some i ↦ write_at s i msg
  | none ↦ ok (
      trim_messages (record s {
        message_by_id = insert msg.id (length s.messages) s.message_by_id;
        messages = s.messages ++ msg ∷ [];
      }))
]

-- `GetMessage`.
unfoldable pub get_message : MemoryStore → Text → Result (Option Message)
get_message s id = elim (lookup id s.message_by_id) [
  | none ↦ ok none
  | some i ↦ do msg ← or_fail (get_elem? s.messages i) out_of_range; ok (some msg)
]

-- The read, change and write of one indexed message that the updates share.
unfoldable pub update_message : MemoryStore → Text → (Message → Message) → Result MemoryStore
unfolding write_at
update_message s id change = do
  i ← or_fail (lookup id s.message_by_id) not_found
  msg ← or_fail (get_elem? s.messages i) out_of_range
  write_at s i (change msg)

-- `UpdateMessageSent` at the time `now`.
unfoldable pub update_message_sent : ℕ → MemoryStore → Text → Text → Result MemoryStore
unfolding update_message
update_message_sent now s id provider_id =
    update_message s id
      λ msg. record msg { provider_id = provider_id; state = codes "sent"; sent_at = now }

-- `UpdateMessageState` at the time `now`.
unfoldable pub update_message_state : ℕ → MemoryStore → Text → Text → ℤ → Result MemoryStore
unfolding update_message
update_message_state now s id state code =
    update_message s id λ msg. record msg { state = state; error_code = code; done_at = now }

-- `msg.Metadata["client_id"] == client`, where a missing key reads as the empty string.
unfoldable pub of_client : Text → Message → Bool
of_client client msg = elim (lookup (codes "client_id") msg.metadata) [
  | none ↦ text_eqb [] client
  | some c ↦ text_eqb c client
]

unfoldable pub page_limit : ℤ → ℕ
page_limit (pos n) = if ltb 0 n then if leb n 1000 then n else 100 else 100
page_limit (negsuc n) = 100

page_start : ℤ → ℕ → ℕ
page_start o len = if ltb len (pos_part o) then len else pos_part o

unfoldable pub filter_client : Text → List Message → List Message
unfolding of_client
filter_client [] messages = messages
filter_client (c ∷ cs) messages = select (of_client (c ∷ cs)) messages

-- `messages[start:end]`, which panics unless `start <= end <= len(messages)`.
unfoldable pub slice : ℕ → ℕ → List Message → Result (List Message)
slice start end messages =
    if leb start end && leb end (length messages)
    then ok (drop start (take end messages))
    else err out_of_range

slice_page : ListOptions → List Message → Result (List Message)
unfolding page_limit page_start slice
slice_page opts messages =
    let start = page_start opts.offset (length messages) in
    let end = start + page_limit opts.limit in
    slice start (if ltb (length messages) end then length messages else end) messages

-- `ListMessagesPage`.
unfoldable pub list_messages_page : MemoryStore → ListOptions → Result (List Message)
unfolding filter_client slice_page
list_messages_page s opts = slice_page opts (filter_client opts.client_id s.messages)

-- `ListMessages`.
unfoldable pub list_messages : MemoryStore → Result (List Message)
unfolding list_messages_page
list_messages s =
    list_messages_page s
      (record { limit = pos (length s.messages); offset = pos 0; client_id = [] })
