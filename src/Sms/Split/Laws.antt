-- ===== src/Sms/Split/Laws.antt =====
-- The segments of `Split`, and `Join` on them (internal/message/message.go).
use mysmpp.Base.{
  ℕ, ◌≡◌, ◌⊎◌, ◌+◌, ◌≤◌, ◌<◌, ◌++◌, ◌∷◌, ◌∙◌, List, [], Bool-cases, ap, append-nil, append_assoc,
  arith, inl, inr, leb, leb→le, leb→lt, length, ltb, refl, sym, true, false,
}
use mysmpp.Sms.Utf8.{runes, string_of, IsUtf8}
use mysmpp.Sms.Split.{
  Encoding, Segment, chunks_of, insert_part, join, number_from, resolve, single_limit, sort_parts,
  split, text_len, texts_reversed,
}
use mysmpp.Sms.Split.Cut.{chunks_of-Cut, glue, glue-Cut}

-- The sorted segments, in reverse, end before the part `i + 1`.
abbrev EndsBefore : ℕ → List Segment → Type 0
EndsBefore i [] = Unit
EndsBefore i (x ∷ xs) = x.part ≤ i

insert_part-last :
    (x y : Segment) (ys : List Segment) → y.part < x.part → insert_part x (y ∷ ys) ≡ x ∷ y ∷ ys
unfolding insert_part
insert_part-last x y ys h = let last : ltb x.part y.part ≡ false = ground arith in rw last refl

sort_parts-number_from :
    (ref total i : ℕ) (cs : List (List ℕ)) (sorted : List Segment) (out : List ℕ)
    → EndsBefore i sorted
    → texts_reversed (sort_parts (number_from ref total i cs) sorted) out
      ≡ texts_reversed sorted (glue cs ++ out)
unfolding sort_parts number_from texts_reversed
sort_parts-number_from ref total i [] sorted out h = refl
sort_parts-number_from ref total i (c ∷ cs) [] out h =
    sort_parts-number_from ref total (i + 1) cs (_ ∷ []) out (omega arith)
    ∙ sym (append_assoc c (glue cs) out)
sort_parts-number_from ref total i (c ∷ cs) (y ∷ ys) out h =
    ap (λ sorted. texts_reversed (sort_parts (number_from ref total (i + 1) cs) sorted) out)
      (insert_part-last _ y ys (omega arith))
    ∙ sort_parts-number_from ref total (i + 1) cs (_ ∷ y ∷ ys) out (omega arith)
    ∙ ap (λ t. texts_reversed ys (y.text ++ t)) (sym (append_assoc c (glue cs) out))

-- `Join` of the segments of a text that is too long for one, in any encoding, gives what the runes of
-- the text encode: every byte that starts no UTF-8 character has become U+FFFD.
pub join-split_long :
    (ref : ℕ) (encoding : Encoding) (text : List ℕ)
    → single_limit (resolve encoding text) < text_len (resolve encoding text) text
    → join (split ref encoding text) ≡ string_of (runes text)
unfolding join split
join-split_long ref encoding text h =
    let e = resolve encoding text in
    let cs = chunks_of e text in
    let long : leb (text_len e text) (single_limit e) ≡ false = ground arith in
    rw long (
      sort_parts-number_from ref (length cs) 0 cs [] [] tt
      ∙ append-nil (glue cs)
      ∙ glue-Cut (chunks_of-Cut e text))

join-split_short :
    (ref : ℕ) (encoding : Encoding) (text : List ℕ)
    → text_len (resolve encoding text) text ≤ single_limit (resolve encoding text)
    → join (split ref encoding text) ≡ text
unfolding join split
join-split_short ref encoding text h =
    let e = resolve encoding text in
    let short : leb (text_len e text) (single_limit e) ≡ true = ground arith in
    rw short (append-nil text)

-- `Join` of the segments of `Split`, in any encoding, is the text itself if the text fits into one
-- segment, and else what the runes of the text encode.
join-split_any :
    (ref : ℕ) (encoding : Encoding) (text : List ℕ)
    → (join (split ref encoding text) ≡ text)
      ⊎ (join (split ref encoding text) ≡ string_of (runes text))
join-split_any ref encoding text =
    let e = resolve encoding text in
    elim (Bool-cases (leb (text_len e text) (single_limit e))) [
      | inl short ↦ inl (join-split_short ref encoding text (leb→le _ _ short))
      | inr long ↦ inr (join-split_long ref encoding text (leb→lt _ _ long))
    ]

-- `Join` puts back together what `Split` takes apart, in any encoding: for every string that is valid
-- UTF-8 it is the same string.
pub join-split :
    (ref : ℕ) (encoding : Encoding) (text : List ℕ)
    → IsUtf8 text
    → join (split ref encoding text) ≡ text
join-split ref encoding text valid = elim (join-split_any ref encoding text) [
  | inl same ↦ same
  | inr same ↦ same ∙ valid
]
