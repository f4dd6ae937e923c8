-- ===== src/Sms/Split.antt =====
-- internal/message/message.go: `Split`, `Join` and the chunking loops.
pub mod Cut
pub mod Laws
pub mod Parts
use mysmpp.Base.{
  ℕ, List, [], ◌∷◌, drop, false, if◌then◌else◌, is_some, leb, length, ltb, suc, take, true, zero,
  ◌&&◌, ◌++◌, ◌+◌,
}
use mysmpp.Sms.Gsm7.{is_gsm7_basic, ext_code}
use mysmpp.Sms.Utf8.{runes, encode_rune, string_of}
use mysmpp.Wire.Udh.{concat_udh}

-- The encodings that `Split` tells apart, without regard to case; `auto` is the empty string or
-- "auto", and `other` any other name.
pub data Encoding : Type 0 where
  auto gsm7 ucs2 eight_bit other : Encoding

-- `DetectEncoding`.
unfoldable pub detect_encoding : List ℕ → Encoding
detect_encoding [] = gsm7
detect_encoding (r ∷ rs) = if is_gsm7_basic r then detect_encoding rs else ucs2

unfoldable pub resolve : Encoding → List ℕ → Encoding
unfolding detect_encoding runes
resolve auto text = detect_encoding (runes text)
resolve e text = e

unfoldable pub single_limit : Encoding → ℕ
single_limit eight_bit = 140
single_limit ucs2 = 70
single_limit _ = 160

unfoldable pub concat_limit : Encoding → ℕ
concat_limit eight_bit = 134
concat_limit ucs2 = 67
concat_limit _ = 153

-- Septets of a rune in the GSM alphabet.
unfoldable pub gsm7_size : ℕ → ℕ
gsm7_size r = if is_some (ext_code r) then 2 else 1

-- `utf16.RuneLen` of a rune that a Go string yields.
unfoldable pub ucs2_size : ℕ → ℕ
ucs2_size r = if ltb r 0x10000 then 1 else 2

-- What a rune counts in an encoding.
unfoldable pub rune_size : Encoding → ℕ → ℕ
unfolding gsm7_size ucs2_size
rune_size gsm7 r = gsm7_size r
rune_size ucs2 r = ucs2_size r
rune_size _ r = 1

-- `gsm7SeptetLen`, `ucs2UnitLen` and `len([]rune(text))`, by the size of a rune.
unfoldable pub units : (ℕ → ℕ) → List ℕ → ℕ
units size [] = 0
units size (r ∷ rs) = size r + units size rs

abbrev pub text_len : Encoding → List ℕ → ℕ
text_len e text = units (rune_size e) (runes text)

-- The loop of `chunkGSM7` and `chunkUCS2` over the runes of the text: `chunk` is the builder, with the
-- bytes of `used` units.
unfoldable pub chunk_loop : (ℕ → ℕ) → ℕ → List ℕ → List ℕ → ℕ → List (List ℕ)
unfolding encode_rune
chunk_loop size limit [] [] used = []
chunk_loop size limit [] (c ∷ cs) used = (c ∷ cs) ∷ []
chunk_loop size limit (r ∷ rs) chunk used = elim (ltb 0 used && ltb limit (used + size r)) [
  | true ↦ chunk ∷ chunk_loop size limit rs (encode_rune r) (size r)
  | false ↦ chunk_loop size limit rs (chunk ++ encode_rune r) (used + size r)
]

-- `chunkRunes` with fuel: each round takes `limit` runes, so the number of runes is enough.
unfoldable pub chunk_runes : ℕ → ℕ → List ℕ → List (List ℕ)
unfolding string_of
chunk_runes fuel limit [] = []
chunk_runes zero limit (r ∷ rs) = []
chunk_runes (suc fuel) limit (r ∷ rs) =
    string_of (take limit (r ∷ rs)) ∷ chunk_runes fuel limit (drop limit (r ∷ rs))

unfoldable pub chunks_of : Encoding → List ℕ → List (List ℕ)
unfolding chunk_loop chunk_runes runes
chunks_of gsm7 text = chunk_loop (rune_size gsm7) (concat_limit gsm7) (runes text) [] 0
chunks_of ucs2 text = chunk_loop (rune_size ucs2) (concat_limit ucs2) (runes text) [] 0
chunks_of e text = chunk_runes (length (runes text)) (concat_limit e) (runes text)

pub record Segment : Type 0 where
  pub reference : ℕ
  pub part : ℕ
  pub total : ℕ
  pub text : List ℕ
  pub udh : List ℕ

-- The loop that numbers the chunks, from the index `i`.
unfoldable pub number_from : ℕ → ℕ → ℕ → List (List ℕ) → List Segment
number_from ref total i [] = []
number_from ref total i (c ∷ cs) =
    record {
      reference = ref;
      part = i + 1;
      total = total;
      text = c;
      udh = concat_udh ref (i + 1) total;
    }
    ∷ number_from ref total (i + 1) cs

-- `Split`; the random reference is an argument.
unfoldable pub split : ℕ → Encoding → List ℕ → List Segment
unfolding resolve single_limit chunks_of number_from
split ref encoding text =
    let e = resolve encoding text in
    let chunks = chunks_of e text in
    if leb (text_len e text) (single_limit e)
    then record { reference = 0; part = 1; total = 1; text = text; udh = [] } ∷ []
    else number_from ref (length chunks) 0 chunks

-- The inner loop of `Join`: the last segment moves left past those with a larger part. The segments
-- are in reverse order here, as the loop meets them.
insert_part : Segment → List Segment → List Segment
insert_part x [] = x ∷ []
insert_part x (y ∷ ys) = if ltb x.part y.part then y ∷ insert_part x ys else x ∷ y ∷ ys

-- The outer loop of `Join`, over the segments still to be sorted; the sorted ones are in reverse.
sort_parts : List Segment → List Segment → List Segment
unfolding insert_part
sort_parts [] sorted = sorted
sort_parts (x ∷ xs) sorted = sort_parts xs (insert_part x sorted)

texts_reversed : List Segment → List ℕ → List ℕ
texts_reversed [] out = out
texts_reversed (x ∷ xs) out = texts_reversed xs (x.text ++ out)

-- `Join`.
unfoldable pub join : List Segment → List ℕ
unfolding sort_parts texts_reversed
join segments = texts_reversed (sort_parts segments []) []
