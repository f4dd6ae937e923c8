-- ===== src/Wire/Tlv.antt =====
-- internal/smpp/tlv.go: optional parameters.
use mysmpp.Base.{
  ℕ, ◌≡◌, Option, none, All, List, [], arith, drop, if◌then◌else◌, length, ltb, nat_eqb, refl, some,
  suc, take, zero, ◌%◌, ◌++◌, ◌<◌, ◌^◌, ◌∷◌, ◌≤◌, drop-length_append, false, length-append,
  length-drop, take-length_append, ◌/◌, ◌∙◌,
}
use mysmpp.Wire.Bytes.{put16, get16, get16-put16}

pub record Tlv : Type 0 where
  pub tag : ℕ
  pub value : List ℕ

abbrev cons_tlv : Tlv → Option (List Tlv) → Option (List Tlv)
cons_tlv t none = none
cons_tlv t (some ts) = some (t ∷ ts)

abbrev or_nil : Option (List Tlv) → List Tlv
or_nil none = []
or_nil (some ts) = ts

-- `ParseTLVsStrict` with fuel: each round takes at least four bytes, so the number of bytes is
-- enough. `none` is a short header or a short value.
unfoldable pub parse_loop : ℕ → List ℕ → Option (List Tlv)
parse_loop fuel [] = some []
parse_loop zero (a ∷ rest) = none
parse_loop (suc fuel) (a ∷ []) = none
parse_loop (suc fuel) (a ∷ b ∷ []) = none
parse_loop (suc fuel) (a ∷ b ∷ c ∷ []) = none
parse_loop (suc fuel) (a ∷ b ∷ c ∷ d ∷ rest) =
    let more = parse_loop fuel (drop (get16 c d) rest) in
    if ltb (length rest) (get16 c d)
    then none
    else cons_tlv (record { tag = get16 a b; value = take (get16 c d) rest }) more

unfoldable pub parse_tlvs_strict : List ℕ → Option (List Tlv)
unfolding parse_loop
parse_tlvs_strict body = parse_loop (length body) body

-- `ParseTLVs`: an error reads as no parameters.
unfoldable pub parse_tlvs : List ℕ → List Tlv
unfolding parse_tlvs_strict
parse_tlvs body = or_nil (parse_tlvs_strict body)

-- `FindTLV`.
unfoldable pub find_tlv : List Tlv → ℕ → Option (List ℕ)
find_tlv [] tag = none
find_tlv (t ∷ ts) tag = if nat_eqb t.tag tag then some t.value else find_tlv ts tag

-- The bytes of one parameter, as `appendTLVBytes` of internal/smpp/dlr.go writes them.
unfoldable pub tlv_bytes : Tlv → List ℕ
unfolding put16
tlv_bytes t = put16 t.tag ++ (put16 (length t.value % 2 ^ 16) ++ t.value)

unfoldable pub tlvs_bytes : List Tlv → List ℕ
unfolding tlv_bytes
tlvs_bytes [] = []
tlvs_bytes (t ∷ ts) = tlv_bytes t ++ tlvs_bytes ts

-- The tag and the length fit into sixteen bits.
abbrev pub Fits : Tlv → Type 0
Fits t = (t.tag < 2 ^ 16) × (length t.value < 2 ^ 16)

parse_loop-tlvs_bytes :
    (ts : List Tlv) (fuel : ℕ)
    → All Fits ts
    → length (tlvs_bytes ts) ≤ fuel
    → parse_loop fuel (tlvs_bytes ts) ≡ some ts
unfolding parse_loop tlvs_bytes
parse_loop-tlvs_bytes [] fuel h low = refl
parse_loop-tlvs_bytes (t ∷ ts) zero h low = absurd (omega arith)
parse_loop-tlvs_bytes (t ∷ ts) (suc fuel) h low =
    let n = length t.value in
    let size : get16 (n % 2 ^ 16 / 256 % 256) (n % 2 ^ 16 % 256) ≡ n =
      get16-put16 (n % 2 ^ 16) (omega arith) ∙ omega arith in
    let tag = get16-put16 t.tag h.0.0 in
    let room : ltb (length (t.value ++ tlvs_bytes ts)) n ≡ false =
      ground (arith, length-append t.value (tlvs_bytes ts)) in
    let more =
      parse_loop-tlvs_bytes ts fuel h.1 (omega (arith, length-append t.value (tlvs_bytes ts))) in
    rw (
      size,
      tag,
      room,
      take-length_append t.value (tlvs_bytes ts),
      drop-length_append t.value (tlvs_bytes ts),
      more,
    )

-- Optional parameters whose tags and lengths fit into sixteen bits are read back as written.
pub parse-tlvs_bytes : (ts : List Tlv) → All Fits ts → parse_tlvs_strict (tlvs_bytes ts) ≡ some ts
unfolding parse_tlvs_strict
parse-tlvs_bytes ts h = parse_loop-tlvs_bytes ts (length (tlvs_bytes ts)) h (omega arith)

parse_loop_fuel :
    (body : List ℕ) (f g : ℕ)
    → length body ≤ f
    → length body ≤ g
    → parse_loop f body ≡ parse_loop g body
unfolding parse_loop
parse_loop_fuel [] f g p q = refl
parse_loop_fuel (a ∷ rest) zero g p q = absurd (omega arith)
parse_loop_fuel (a ∷ rest) (suc f) zero p q = absurd (omega arith)
parse_loop_fuel (a ∷ []) (suc f) (suc g) p q = refl
parse_loop_fuel (a ∷ b ∷ []) (suc f) (suc g) p q = refl
parse_loop_fuel (a ∷ b ∷ c ∷ []) (suc f) (suc g) p q = refl
parse_loop_fuel (a ∷ b ∷ c ∷ d ∷ rest) (suc f) (suc g) p q =
    let k = length-drop (get16 c d) rest in
    rw (parse_loop_fuel (drop (get16 c d) rest) f g (omega (arith, k)) (omega (arith, k)))
