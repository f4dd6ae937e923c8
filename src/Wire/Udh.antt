-- ===== src/Wire/Udh.antt =====
-- internal/smpp/udh.go: the user data header and the concatenation of segments. `none` is the error
-- of a malformed header.
pub mod Laws
use mysmpp.Base.{
  ℕ, Option, none, Bool, List, [], drop, false, if◌then◌else◌, leb, length, ltb, nat_eqb, some, suc,
  take, true, zero, ◌%◌, ◌&&◌, ◌/◌, ◌||◌, ◌∷◌,
}
use mysmpp.Wire.Bytes.{get16}
use mysmpp.Wire.Tlv.{Tlv, find_tlv}

pub record ConcatInfo : Type 0 where
  pub reference : ℕ
  pub total : ℕ
  pub part : ℕ

-- `validConcatPart`.
unfoldable pub valid_concat_part : ℕ → ℕ → Bool
valid_concat_part total part = ltb 0 total && (ltb 0 part && leb part total)

-- `newConcatInfo`.
unfoldable pub new_concat_info : ℕ → ℕ → ℕ → Option ConcatInfo
unfolding valid_concat_part
new_concat_info reference total part =
    if valid_concat_part total part
    then some (record { reference = reference; total = total; part = part })
    else none

abbrev short_ok : List ℕ → Bool
short_ok (r ∷ total ∷ part ∷ []) = valid_concat_part total part
short_ok _ = false

abbrev long_ok : List ℕ → Bool
long_ok (r ∷ r' ∷ total ∷ part ∷ []) = valid_concat_part total part
long_ok _ = false

-- The check of one information element in `SplitUDH`.
unfoldable pub element_ok : ℕ → List ℕ → Bool
unfolding valid_concat_part
element_ok iei value =
    if nat_eqb iei 0 then short_ok value else if nat_eqb iei 8 then long_ok value else true

-- The loop of `SplitUDH` over the information elements; each takes two bytes or more, so the number
-- of bytes is enough fuel.
unfoldable pub check_elements : ℕ → List ℕ → Bool
unfolding element_ok
check_elements fuel [] = true
check_elements zero (a ∷ rest) = false
check_elements (suc fuel) (a ∷ []) = false
check_elements (suc fuel) (iei ∷ size ∷ rest) =
    let more = check_elements fuel (drop size rest) in
    if ltb (length rest) size then false else element_ok iei (take size rest) && more

-- `esmClass & 0x40 != 0`.
abbrev pub has_udh : ℕ → Bool
has_udh esm_class = nat_eqb (esm_class / 64 % 2) 1

cut_header : List ℕ → Option (Option (List ℕ) × List ℕ)
unfolding check_elements
cut_header [] = none
cut_header (size ∷ rest) =
    if nat_eqb size 0 || ltb (length rest) size
    then none
    else if check_elements size (take size rest)
    then some (some (size ∷ take size rest), drop size rest)
    else none

-- `SplitUDH`: the header, if the flag is set, and the text behind it.
unfoldable pub split_udh : List ℕ → ℕ → Option (Option (List ℕ) × List ℕ)
unfolding cut_header
split_udh raw esm_class = if has_udh esm_class then cut_header raw else some (none, raw)

abbrev short_element : List ℕ → Option (Option ConcatInfo)
short_element (r ∷ total ∷ part ∷ []) = some (new_concat_info r total part)
short_element _ = none

abbrev long_element : List ℕ → Option (Option ConcatInfo)
long_element (r ∷ r' ∷ total ∷ part ∷ []) = some (new_concat_info (get16 r r') total part)
long_element _ = none

abbrev or_else : Option (Option ConcatInfo) → Option ConcatInfo → Option ConcatInfo
or_else none more = more
or_else (some r) more = r

-- The concatenation element that `ParseConcat` stops at, if this is one.
read_element : ℕ → List ℕ → Option (Option ConcatInfo)
unfolding new_concat_info
read_element iei value =
    if nat_eqb iei 0
    then short_element value
    else if nat_eqb iei 8
    then long_element value
    else none

-- The loop of `ParseConcat`.
unfoldable pub find_concat : ℕ → List ℕ → Option ConcatInfo
unfolding read_element
find_concat zero ies = none
find_concat (suc fuel) [] = none
find_concat (suc fuel) (a ∷ []) = none
find_concat (suc fuel) (iei ∷ size ∷ rest) =
    let more = find_concat fuel (drop size rest) in
    if ltb (length rest) size then none else or_else (read_element iei (take size rest)) more

-- `ParseConcat`.
unfoldable pub parse_concat : List ℕ → Option ConcatInfo
unfolding find_concat
parse_concat [] = none
parse_concat (size ∷ rest) =
    if ltb (length rest) size then none else find_concat size (take size rest)

abbrev pub tag_sar_ref : ℕ
tag_sar_ref = 0x020c

abbrev pub tag_sar_total : ℕ
tag_sar_total = 0x020e

abbrev pub tag_sar_part : ℕ
tag_sar_part = 0x020f

sar_info : Option (List ℕ) → Option (List ℕ) → Option (List ℕ) → Option ConcatInfo
unfolding new_concat_info
sar_info (some (r ∷ [])) (some (total ∷ [])) (some (part ∷ [])) = new_concat_info r total part
sar_info (some (r ∷ r' ∷ [])) (some (total ∷ [])) (some (part ∷ [])) =
    new_concat_info (get16 r r') total part
sar_info _ _ _ = none

-- `ParseSAR`.
unfoldable pub parse_sar : List Tlv → Option ConcatInfo
unfolding sar_info
parse_sar tlvs =
    sar_info (find_tlv tlvs tag_sar_ref) (find_tlv tlvs tag_sar_total) (find_tlv tlvs tag_sar_part)

abbrev pub is_sar_tag : ℕ → Bool
is_sar_tag tag = nat_eqb tag tag_sar_ref || (nat_eqb tag tag_sar_total || nat_eqb tag tag_sar_part)

-- `HasSAR`.
unfoldable pub has_sar : List Tlv → Bool
has_sar [] = false
has_sar (t ∷ ts) = is_sar_tag t.tag || has_sar ts

-- `concatUDH` of internal/message/message.go.
unfoldable pub concat_udh : ℕ → ℕ → ℕ → List ℕ
concat_udh ref part total = 5 ∷ 0 ∷ 3 ∷ ref % 256 ∷ total % 256 ∷ part % 256 ∷ []
