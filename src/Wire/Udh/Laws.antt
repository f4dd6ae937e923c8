-- ===== src/Wire/Udh/Laws.antt =====
-- internal/smpp/udh.go: headers that are written, and headers that are read.
use mysmpp.Base.{
  none, ◌-◌, get_elem?, ◌*◌, ◌≡◌, List, arith, false, leb, length, ltb, some, true, ℕ, ◌%◌, ◌++◌,
  ◌+◌, ◌<◌, ◌≤◌, Option, [], ap, drop, length-take, suc, take, take-append-drop, zero, ◌∷◌, refl,
}
use mysmpp.Wire.Bytes.{get16}
use mysmpp.Wire.Udh.{
  cut_header, ConcatInfo, find_concat, new_concat_info, valid_concat_part, read_element,
  long_element, short_element, split_udh, concat_udh, parse_concat,
}

-- The header of one segment is split off as it stands, and read back with the low eight bits of the
-- reference, if there are at most 255 segments and the part is one of them.
pub parse-concat_udh :
    (ref part total : ℕ) (payload : List ℕ)
    → 1 ≤ part
    → part ≤ total
    → total < 256
    → (split_udh (concat_udh ref part total ++ payload) 64
        ≡ some (some (concat_udh ref part total), payload))
      × (parse_concat (concat_udh ref part total)
          ≡ some (record { reference = ref % 256; total = total; part = part }))
unfolding split_udh parse_concat concat_udh
parse-concat_udh ref part total payload low high small =
    let t : total % 256 ≡ total = omega arith in
    let p : part % 256 ≡ part = omega arith in
    let a : ltb 0 total ≡ true = ground arith in
    let b : ltb 0 part ≡ true = ground arith in
    let c : leb part total ≡ true = ground arith in
    let room : ltb (5 + length payload) 5 ≡ false = ground arith in
    (ground arith, rw (t, p, a, b, c))

-- A header keeps the part and the total modulo 256: the segment 256 places further gets the same
-- header, and a total that is a multiple of 256 makes one that is not read.
pub concat_udh_wraps :
    (ref part total k : ℕ)
    → (concat_udh ref (part + 256) total ≡ concat_udh ref part total)
      × (parse_concat (concat_udh ref part (256 * k)) ≡ none)
unfolding parse_concat concat_udh
concat_udh_wraps ref part total k =
    let same : (part + 256) % 256 ≡ part % 256 = omega arith in
    let lost : 256 * k % 256 ≡ 0 = omega arith in (rw same refl, rw lost refl)

valid_info :
    (reference total part : ℕ) {info : ConcatInfo}
    → new_concat_info reference total part ≡ some info
    → (1 ≤ info.part) × (info.part ≤ info.total)
unfolding new_concat_info valid_concat_part
valid_info reference total part h = ground arith

inner :
    {o : Option ConcatInfo} {info : ConcatInfo}
    → ◌≡◌ {A = Option (Option ConcatInfo)} (some o) (some (some info))
    → o ≡ some info
inner h = cc

short_info :
    (value : List ℕ) {info : ConcatInfo}
    → short_element value ≡ some (some info)
    → (1 ≤ info.part) × (info.part ≤ info.total)
short_info [] h = absurd (cc)
short_info (r ∷ []) h = absurd (cc)
short_info (r ∷ total ∷ []) h = absurd (cc)
short_info (r ∷ total ∷ part ∷ []) {info} h = valid_info r total part (inner h)
short_info (r ∷ total ∷ part ∷ x ∷ xs) h = absurd (cc)

long_info :
    (value : List ℕ) {info : ConcatInfo}
    → long_element value ≡ some (some info)
    → (1 ≤ info.part) × (info.part ≤ info.total)
long_info [] h = absurd (cc)
long_info (r ∷ []) h = absurd (cc)
long_info (r ∷ r' ∷ []) h = absurd (cc)
long_info (r ∷ r' ∷ total ∷ []) h = absurd (cc)
long_info (r ∷ r' ∷ total ∷ part ∷ []) {info} h = valid_info (get16 r r') total part (inner h)
long_info (r ∷ r' ∷ total ∷ part ∷ x ∷ xs) h = absurd (cc)

element_info :
    (iei : ℕ) (value : List ℕ) {info : ConcatInfo}
    → read_element iei value ≡ some (some info)
    → (1 ≤ info.part) × (info.part ≤ info.total)
unfolding read_element
element_info iei value {info} h =
    ground (arith, short_info value {info = info}, long_info value {info = info})

find_concat_info :
    (fuel : ℕ) (ies : List ℕ) {info : ConcatInfo}
    → find_concat fuel ies ≡ some info
    → (1 ≤ info.part) × (info.part ≤ info.total)
unfolding find_concat
find_concat_info zero ies h = absurd (cc)
find_concat_info (suc fuel) [] h = absurd (cc)
find_concat_info (suc fuel) (a ∷ []) h = absurd (cc)
find_concat_info (suc fuel) (iei ∷ size ∷ rest) {info} h = ground (
  arith,
  element_info iei (take size rest) {info = info},
  find_concat_info fuel (drop size rest) {info = info},
)

parse_concat_info :
    (udh : List ℕ) {info : ConcatInfo}
    → parse_concat udh ≡ some info
    → (1 ≤ info.part) × (info.part ≤ info.total)
unfolding parse_concat
parse_concat_info [] h = absurd (cc)
parse_concat_info (size ∷ rest) {info} h =
    ground (arith, find_concat_info size (take size rest) {info = info})

-- The part counts from 1 up to the total.
abbrev pub IsPart : Option ConcatInfo → Type 0
IsPart none = Unit
IsPart (some info) = (1 ≤ info.part) × (info.part ≤ info.total)

parse_concat-IsPart : (udh : List ℕ) (o : Option ConcatInfo) → parse_concat udh ≡ o → IsPart o
parse_concat-IsPart udh none h = tt
parse_concat-IsPart udh (some info) h = parse_concat_info udh h

cut_lem :
    (size : ℕ) (rest : List ℕ) (esm_class : ℕ) (udh body : List ℕ)
    → split_udh (size ∷ rest) esm_class ≡ some (some udh, body)
    → (udh ≡ size ∷ take size rest) × (body ≡ drop size rest) × (0 < size) × (size ≤ length rest)
unfolding split_udh cut_header
cut_lem size rest esm_class udh body h = ground arith

-- A header that is split off stands in front of the text, takes one byte more than its first byte
-- says, and any concatenation that is read from it counts its part from 1 up to its total.
pub split_udh_sound :
    (raw : List ℕ) (esm_class : ℕ) (udh body : List ℕ)
    → split_udh raw esm_class ≡ some (some udh, body)
    → (udh ++ body ≡ raw)
      × (2 ≤ length udh)
      × (get_elem? raw 0 ≡ some (length udh - 1))
      × IsPart (parse_concat udh)
unfolding split_udh cut_header
split_udh_sound [] esm_class udh body h = absurd (ground arith)
split_udh_sound (size ∷ rest) esm_class udh body h =
    let (u, b, low, fit) = cut_lem size rest esm_class udh body h in
    (
      rw (u, b) (ap (◌∷◌ size) (take-append-drop size rest)),
      rw u (omega (arith, length-take size rest)),
      ap some (rw u (omega (arith, fit, length-take size rest))),
      parse_concat-IsPart udh _ refl,
    )
