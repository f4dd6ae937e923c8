-- ===== src/Store/Messages/Pages.antt =====
-- The pages of `ListMessagesPage` of internal/store/memory.go.
use mysmpp.Base.{
  ℕ, ℤ, pos, negsuc, zero, suc, ◌≡◌, ◌≢◌, ◌⊎◌, ◌≤◌, List, [], ◌∷◌, Text, codes, Bool-cases, inl,
  inr, some, none, Option, ap, refl, arith, lookup, pos_part, select, take, drop, true, false,
  text_eqb, text_eqb_iff, text_eq, leb,
}
use mysmpp.Store.Types.{MemoryStore, Message, ListOptions, ok}
use mysmpp.Store.Messages.{list_messages_page, page_limit, filter_client, of_client}
use mysmpp.Store.Messages.Laws.{list_messages_page-window}

-- The length of a page: the limit, if it is one of 1 to 1000, and 100 otherwise.
abbrev pub IsLimit : ℤ → ℕ → Type 0
IsLimit limit n =
    ((limit ≡ pos n) × (1 ≤ n) × (n ≤ 1000))
    ⊎ ((n ≡ 100) × ((m : ℕ) → limit ≡ pos m → ¬ ((1 ≤ m) × (m ≤ 1000))))

-- The place where a page starts: the offset, and 0 for a negative one.
abbrev pub IsOffset : ℤ → ℕ → Type 0
IsOffset offset n = (offset ≡ pos n) ⊎ ((n ≡ 0) × ((m : ℕ) → offset ≢ pos m))

-- The message is of the client.
abbrev pub IsOfClient : Text → Message → Type 0
IsOfClient client m = lookup (codes "client_id") m.metadata ≡ some client

-- The messages of a client among others, in their order.
pub data Picks (client : Text) : List Message → List Message → Type 0 where
  no_more : Picks client [] []
  picked :
      {m : Message} {ms out : List Message}
      → IsOfClient client m
      → Picks client ms out
      → Picks client (m ∷ ms) (m ∷ out)
  left :
      {m : Message} {ms out : List Message}
      → ¬ IsOfClient client m
      → Picks client ms out
      → Picks client (m ∷ ms) out

-- The messages that a page is taken from: all, or those of the client that is named.
abbrev pub IsListed : Text → List Message → List Message → Type 0
IsListed [] messages out = out ≡ messages
IsListed (c ∷ cs) messages out = Picks (c ∷ cs) messages out

of_client_cases :
    (c : ℕ) (cs : Text) (m : Message)
    → ((of_client (c ∷ cs) m ≡ true) × IsOfClient (c ∷ cs) m)
      ⊎ ((of_client (c ∷ cs) m ≡ false) × ¬ IsOfClient (c ∷ cs) m)
unfolding of_client
of_client_cases c cs m = go (lookup (codes "client_id") m.metadata)
  where
    go :
        (o : Option Text)
        → ((elim o [ none ↦ text_eqb [] (c ∷ cs) | some client ↦ text_eqb client (c ∷ cs) ] ≡ true)
            × (o ≡ some (c ∷ cs)))
          ⊎ ((elim o [ none ↦ text_eqb [] (c ∷ cs) | some client ↦ text_eqb client (c ∷ cs) ]
                ≡ false)
              × (o ≢ some (c ∷ cs)))
    go none = inr (refl, λ e. cc)
    go (some client) = elim (Bool-cases (text_eqb client (c ∷ cs))) [
      | inl same ↦ inl (same, ap some ((text_eqb_iff _ _).0 same))
      | inr other ↦ inr (other, λ e. ground (arith, text_eqb_iff client (c ∷ cs)))
    ]

select-Picks :
    (c : ℕ) (cs : Text) (ms : List Message) → Picks (c ∷ cs) ms (select (of_client (c ∷ cs)) ms)
select-Picks c cs [] = Picks.no_more
select-Picks c cs (m ∷ ms) = elim (of_client_cases c cs m) [
  | inl (e, is_theirs) ↦ rw (e, select) (Picks.picked is_theirs (select-Picks c cs ms))
  | inr (e, is_not) ↦ rw (e, select) (Picks.left is_not (select-Picks c cs ms))
]

filter_client-IsListed :
    (client : Text) (ms : List Message) → IsListed client ms (filter_client client ms)
unfolding filter_client
filter_client-IsListed [] ms = refl
filter_client-IsListed (c ∷ cs) ms = select-Picks c cs ms

page_limit-IsLimit : (limit : ℤ) → IsLimit limit (page_limit limit)
unfolding page_limit
page_limit-IsLimit (negsuc k) = inr (refl, λ m e. absurd (cc))
page_limit-IsLimit (pos zero) = inr (refl, λ m e h. ground (arith, e, h.0))
page_limit-IsLimit (pos (suc n)) = elim (Bool-cases (leb (suc n) 1000)) [
  | inl low ↦ rw low (inl (ground arith, ground arith, ground arith))
  | inr high ↦ rw high (inr (ground arith, λ m e h. ground (arith, e, h.1)))
]

pos_part-IsOffset : (offset : ℤ) → IsOffset offset (pos_part offset)
pos_part-IsOffset (pos n) = inl refl
pos_part-IsOffset (negsuc n) = inr (refl, λ m e. cc)

-- A page: the listed messages, from the offset on and as many as the limit.
pub record IsPage (s : MemoryStore) (opts : ListOptions) : Type 0 where
  pub limit : ℕ
  pub offset : ℕ
  pub listed : List Message
  pub limit_is : IsLimit opts.limit limit
  pub offset_is : IsOffset opts.offset offset
  pub listed_is : IsListed opts.client_id s.messages listed
  pub answer : list_messages_page s opts ≡ ok (take limit (drop offset listed))

-- `ListMessagesPage` never slices out of range. It returns a window of the messages, or of those with
-- the client id that is given: past the offset, where a negative one counts as 0, and as long as the
-- limit, which is 100 outside 1 to 1000.
pub list_messages_page_lem : (s : MemoryStore) (opts : ListOptions) → IsPage s opts
list_messages_page_lem s opts = record {
  limit = page_limit opts.limit;
  offset = pos_part opts.offset;
  listed = filter_client opts.client_id s.messages;
  limit_is = page_limit-IsLimit opts.limit;
  offset_is = pos_part-IsOffset opts.offset;
  listed_is = filter_client-IsListed opts.client_id s.messages;
  answer = list_messages_page-window s opts;
}
