-- ===== src/Store/Messages/Laws.antt =====
-- What the message operations of internal/store/memory.go return.
use mysmpp.Base.{
  suc, if◌then◌else◌, ltb→lt, take-length_le, lt→ltb, zero, negsuc, pos, List, Option-cases, [],
  drop, get_elem?-append_self, get_elem?-lt, get_elem?-set_self, is_positive, length-append, lookup,
  ltb, pos_part, refl, sym, take, true, ℤ, ◌∷◌, ◌≤◌, ◌≡◌, text_eq, Bool-cases, ap, arith, get_elem?,
  get_elem?-drop, inl, inr, leb, leb→lt, length, some, ℕ, ◌+◌, ◌-◌, ◌<◌, ◌∙◌,
}
use mysmpp.Store.Messages.{
  filter_client, list_messages, list_messages_page, page_start, page_limit, slice_page, slice,
  trim_to, save_message, trim_messages, get_message,
}
use mysmpp.Store.Types.{MemoryStore, Message, ok, ListOptions, ok_subst}
use mysmpp.Store.Messages.Keep.{Indexed, save_message-Kept, write_at-ok}

-- In an indexed store a message is read by its id, and no other id reads it.
pub get_message-place :
    (s : MemoryStore) (i : ℕ) (m : Message)
    → Indexed s
    → get_elem? s.messages i ≡ some m
    → get_message s m.id ≡ ok (some m)
unfolding get_message
get_message-place s i m v g = rw (v.place i m g, get_message, g)

trim_to-last :
    (n : ℕ) (s : MemoryStore) (i : ℕ) (m : Message)
    → 0 < n
    → get_elem? s.messages i ≡ some m
    → suc i ≡ length s.messages
    → (j : ℕ) × (get_elem? (trim_to n s).messages j ≡ some m)
unfolding trim_to
trim_to-last n s i m pos' g last = elim (Bool-cases (leb (length s.messages) n)) [
  | inl few ↦ (i, rw few g)
  | inr many ↦ (
    i - (length s.messages - n),
    rw (many, get_elem?-drop (length s.messages - n) s.messages (i - (length s.messages - n)))
        (ap (get_elem? s.messages) (sum i (length s.messages) n pos' (leb→lt _ _ many) last) ∙ g),
  )
]
  where
    sum : (i l n : ℕ) → 0 < n → n < l → suc i ≡ l → l - n + (i - (l - n)) ≡ i
    sum i l n a b c = omega arith

-- The newest message survives a trim.
trim_messages-last :
    (s : MemoryStore) (i : ℕ) (m : Message)
    → get_elem? s.messages i ≡ some m
    → suc i ≡ length s.messages
    → (j : ℕ) × (get_elem? (trim_messages s).messages j ≡ some m)
unfolding trim_messages
trim_messages-last s i m g last = elim (Bool-cases (is_positive s.max_messages)) [
  | inl some_limit ↦
      rw some_limit (trim_to-last (pos_part s.max_messages) s i m (positive _ some_limit) g last)
  | inr no_limit ↦ (i, rw no_limit g)
]
  where
    positive : (n : ℤ) → is_positive n ≡ true → 0 < pos_part n
    positive (pos zero) h = absurd (cc)
    positive (pos (suc n)) h = omega arith
    positive (negsuc n) h = absurd (cc)

saved_at :
    (s : MemoryStore) (msg : Message) {t : MemoryStore}
    → Indexed s
    → save_message s msg ≡ ok t
    → (j : ℕ) × (get_elem? t.messages j ≡ some msg)
unfolding save_message
saved_at s msg {t} v h = elim (Option-cases (lookup msg.id s.message_by_id)) [
  | inl fresh ↦
      let e = rw (fresh, save_message) at h in
      ok_subst (λ (x : MemoryStore). (j : ℕ) × (get_elem? x.messages j ≡ some msg)) e
        (trim_messages-last _ (length s.messages) msg (get_elem?-append_self s.messages msg)
          (omega (arith, length-append s.messages (msg ∷ []))))
  | inr (i, hit) ↦
      let (old, g, same) = v.find msg.id i hit in
      let e = sym (write_at-ok s i old msg g) ∙ (rw (hit, save_message) at h) in
      ok_subst (λ (x : MemoryStore). (j : ℕ) × (get_elem? x.messages j ≡ some msg)) e
        (i, get_elem?-set_self s.messages i msg (get_elem?-lt s.messages i g))
]

-- In an indexed store every message can be saved, and is then read back by its id, also when older
-- messages had to go.
pub get-save :
    (s : MemoryStore) (msg : Message)
    → Indexed s
    → (t : MemoryStore) × (save_message s msg ≡ ok t) × (get_message t msg.id ≡ ok (some msg))
get-save s msg v =
    let (t, h, w, rest) = save_message-Kept s msg v in
    let (j, g) = saved_at s msg v h in (t, h, get_message-place t j msg w g)

take_nil : {A : Type 0} (n : ℕ) → ◌≡◌ {A = List A} (take n []) []
take_nil zero = refl
take_nil (suc n) = refl

drop-take : {A : Type 0} (a b : ℕ) (xs : List A) → drop a (take (a + b) xs) ≡ take b (drop a xs)
drop-take zero b xs = ap (λ n. take n xs) (omega arith)
drop-take {A} (suc a) b [] = rw (take_nil {A = A} (suc a + b), take_nil {A = A} b)
drop-take (suc a) b (x ∷ xs) =
    let e : suc a + b ≡ suc (a + b) = omega arith in rw e (drop-take a b xs)

drop-length_le : {A : Type 0} (n : ℕ) (xs : List A) → length xs ≤ n → drop n xs ≡ []
drop-length_le zero [] h = refl
drop-length_le zero (x ∷ xs) h = absurd (omega arith)
drop-length_le (suc n) [] h = refl
drop-length_le (suc n) (x ∷ xs) h = drop-length_le n xs (omega arith)

take_capped :
    (n : ℕ) (ms : List Message) → take (if ltb (length ms) n then length ms else n) ms ≡ take n ms
take_capped n ms = elim (Bool-cases (ltb (length ms) n)) [
  | inl more ↦ rw more (
      take-length_le (length ms) ms (omega arith)
      ∙ sym (take-length_le n ms (omega (arith, ltb→lt (length ms) n more))))
  | inr enough ↦ rw enough
]

drop_capped :
    (o : ℤ) (ms : List Message) → drop (page_start o (length ms)) ms ≡ drop (pos_part o) ms
unfolding page_start
drop_capped o ms = elim (Bool-cases (ltb (length ms) (pos_part o))) [
  | inl beyond ↦ rw beyond (
      drop-length_le (length ms) ms (omega arith)
      ∙ sym
          (drop-length_le (pos_part o) ms (omega (arith, ltb→lt (length ms) (pos_part o) beyond))))
  | inr inside ↦ rw inside
]

start_le : (o : ℤ) (n : ℕ) → page_start o n ≤ n
unfolding page_start
start_le o n = ground arith

slice-ok :
    (start end : ℕ) (ms : List Message)
    → start ≤ end
    → end ≤ length ms
    → slice start end ms ≡ ok (drop start (take end ms))
unfolding slice
slice-ok start end ms low high = ground arith

slice_page_lem :
    (opts : ListOptions) (ms : List Message)
    → slice_page opts ms ≡ ok (take (page_limit opts.limit) (drop (pos_part opts.offset) ms))
unfolding slice_page
slice_page_lem opts ms =
    let start = page_start opts.offset (length ms) in
    let low = start_le opts.offset (length ms) in
    slice-ok start
      (if ltb (length ms) (start + page_limit opts.limit)
        then length ms
        else start + page_limit opts.limit)
      ms (ground arith) (ground arith)
    ∙ ap ok (
        ap (drop start) (take_capped (start + page_limit opts.limit) ms)
        ∙ drop-take start (page_limit opts.limit) ms
        ∙ ap (take (page_limit opts.limit)) (drop_capped opts.offset ms))

-- A page is a window of the messages that the filter leaves.
pub list_messages_page-window :
    (s : MemoryStore) (opts : ListOptions)
    → list_messages_page s opts
      ≡ ok (
          take
            (page_limit opts.limit)
            (drop (pos_part opts.offset) (filter_client opts.client_id s.messages)))
unfolding list_messages_page
list_messages_page-window s opts = slice_page_lem opts (filter_client opts.client_id s.messages)

-- `ListMessages` returns all messages of a store that holds 1000 or fewer, and only the oldest 100
-- of a store that holds more.
pub list_messages_lem :
    (s : MemoryStore)
    → list_messages s
      ≡ ok (if leb (length s.messages) 1000 then s.messages else take 100 s.messages)
unfolding list_messages filter_client page_limit
list_messages_lem s =
    list_messages_page-window s
      (record { limit = pos (length s.messages); offset = pos 0; client_id = [] })
    ∙ ap ok (whole s.messages)
  where
    whole :
        (ms : List Message)
        → take (page_limit (pos (length ms))) ms
          ≡ (if leb (length ms) 1000 then ms else take 100 ms)
    whole [] = refl
    whole (m ∷ ms) = elim (Bool-cases (leb (length (m ∷ ms)) 1000)) [
      | inl few ↦
          rw (lt→ltb 0 (length (m ∷ ms)) (omega arith), few)
            (take-length_le (length (m ∷ ms)) (m ∷ ms) (omega arith))
      | inr many ↦ rw (lt→ltb 0 (length (m ∷ ms)) (omega arith), many)
    ]
