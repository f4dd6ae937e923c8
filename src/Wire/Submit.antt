-- ===== src/Wire/Submit.antt =====
-- `ParseSubmitSM` of internal/smpp/submit.go and `buildSubmitBody` of internal/smppclient/encode.go:
-- the body of a submit_sm. The text of a message is not kept: it is `DecodeSubmitText` of the payload.
pub mod Laws
use mysmpp.Base.{
  ℕ, Bool, List, [], ◌∷◌, Option, none, some, Text, false, if◌then◌else◌, length, ltb, nat_eqb,
  take, drop, true, ◌%◌, ◌&&◌, ◌||◌, ◌++◌, ◌-◌,
}
use mysmpp.Wire.Bytes.{c_string, read_c_string_max}
use mysmpp.Wire.Pdu.{Pdu}
use mysmpp.Wire.Tlv.{Tlv, find_tlv, parse_tlvs_strict, tlvs_bytes}
use mysmpp.Wire.Udh.{ConcatInfo, has_sar, is_sar_tag, parse_concat, parse_sar, split_udh}

infixl 5 ◌>>=◌
abbrev ◌>>=◌ {ℓ κ} : {A : Type ℓ} {B : Type κ} → Option A → (A → Option B) → Option B
none >>= f = none
some a >>= f = f a

pub record SubmitSm : Type 0 where
  pub sequence_id : ℕ
  pub from : Text
  pub to : Text
  pub data_coding : ℕ
  pub registered_delivery : ℕ
  pub esm_class : ℕ
  pub protocol_id : ℕ
  pub priority_flag : ℕ
  pub replace_if_present : ℕ
  pub sm_default_msg_id : ℕ
  pub optional_params_offset : ℕ
  pub payload : List ℕ
  pub udh : Option (List ℕ)
  pub concat : Option ConcatInfo
  pub tlvs : List Tlv

is_seen : ℕ → List ℕ → Bool
is_seen tag [] = false
is_seen tag (t ∷ ts) = nat_eqb t tag || is_seen tag ts

-- The loop of `hasDuplicateSARTag`.
duplicate_from : List ℕ → List Tlv → Bool
unfolding is_seen
duplicate_from seen [] = false
duplicate_from seen (t ∷ ts) =
    let more = duplicate_from (t.tag ∷ seen) ts in
    let skip = duplicate_from seen ts in
    if is_sar_tag t.tag then (if is_seen t.tag seen then true else more) else skip

-- `hasDuplicateSARTag`.
unfoldable pub has_duplicate_sar_tag : List Tlv → Bool
unfolding duplicate_from
has_duplicate_sar_tag tlvs = duplicate_from [] tlvs

-- `TagMessagePayload`.
abbrev pub tag_message_payload : ℕ
tag_message_payload = 0x0424

-- Two bytes are skipped, one is read.
abbrev pub skip2 : List ℕ → Option (List ℕ)
skip2 (a ∷ b ∷ rest) = some rest
skip2 _ = none

abbrev pub next_byte : List ℕ → Option (ℕ × List ℕ)
next_byte [] = none
next_byte (b ∷ rest) = some (b, rest)

abbrev pub cut : ℕ → List ℕ → Option (List ℕ × List ℕ)
cut n bs = if ltb (length bs) n then none else some (take n bs, drop n bs)

-- The payload: the short message, or the optional parameter, but not both.
whole_payload : List ℕ → Option (List ℕ) → Option (List ℕ)
whole_payload raw none = some raw
whole_payload [] (some payload) = some payload
whole_payload (b ∷ raw) (some payload) = none

unfoldable pub header_concat : Option (List ℕ) → Option ConcatInfo
unfolding parse_concat
header_concat none = none
header_concat (some header) = parse_concat header

abbrev sar_concat : Option ConcatInfo → Bool → Option (Option ConcatInfo)
sar_concat (some info) malformed = some (some info)
sar_concat none true = none
sar_concat none false = some none

-- The concatenation: of the header, else of the SAR parameters, which must then be well-formed.
resolve_concat : Option ConcatInfo → List Tlv → Option (Option ConcatInfo)
unfolding parse_sar has_sar
resolve_concat (some info) tlvs = some (some info)
resolve_concat none tlvs = sar_concat (parse_sar tlvs) (has_sar tlvs)

abbrev is_header : Option (List ℕ) → Bool
is_header none = false
is_header (some h) = true

-- `ParseSubmitSM` from the parameters on; `fields` has what was read before, and `none` is an error.
unfoldable pub read_payload : SubmitSm → List ℕ → List Tlv → Option SubmitSm
unfolding has_duplicate_sar_tag whole_payload resolve_concat has_sar
read_payload fields short tlvs = if has_duplicate_sar_tag tlvs then none else do
  raw ← whole_payload short (find_tlv tlvs tag_message_payload)
  split ← split_udh raw fields.esm_class
  concat ← resolve_concat (header_concat split.0) tlvs
  if is_header split.0 && has_sar tlvs
      then none
      else some (record fields { payload = split.1; udh = split.0; concat = concat; tlvs = tlvs })

-- `ParseSubmitSM`.
unfoldable pub parse_submit_sm : Pdu → Option SubmitSm
parse_submit_sm pdu = do
  service ← read_c_string_max 6 pdu.body
  source ← skip2 service.1
  from ← read_c_string_max 20 source
  dest ← skip2 from.1
  to ← read_c_string_max 20 dest
  esm ← next_byte to.1
  protocol ← next_byte esm.1
  priority ← next_byte protocol.1
  schedule ← read_c_string_max 16 priority.1
  validity ← read_c_string_max 16 schedule.1
  registered ← next_byte validity.1
  replace ← next_byte registered.1
  coding ← next_byte replace.1
  default ← next_byte coding.1
  size ← next_byte default.1
  short ← cut size.0 size.1
  tlvs ← parse_tlvs_strict short.1
  read_payload
      (record {
        sequence_id = pdu.sequence_id;
        from = from.0;
        to = to.0;
        data_coding = coding.0;
        registered_delivery = registered.0;
        esm_class = esm.0;
        protocol_id = protocol.0;
        priority_flag = priority.0;
        replace_if_present = replace.0;
        sm_default_msg_id = default.0;
        optional_params_offset = length pdu.body - length short.1;
        payload = [];
        udh = none;
        concat = none;
        tlvs = [];
      })
      short.0 tlvs

-- `submitBodyParams`, with the parts of the configuration and of the message that it reads.
pub record SubmitBodyParams : Type 0 where
  pub service_type : Text
  pub validity_period : Text
  pub source_addr : Text
  pub dest_addr : Text
  pub data_coding : ℕ
  pub registered_delivery : ℕ
  pub short_message : List ℕ
  pub message_payload : List ℕ
  pub tlvs : List Tlv
  pub source_ton : ℕ
  pub source_npi : ℕ
  pub dest_ton : ℕ
  pub dest_npi : ℕ
  pub esm_class : ℕ

-- `stripPlus`.
unfoldable pub strip_plus : Text → Text
strip_plus [] = []
strip_plus (c ∷ s) = if nat_eqb c 43 then s else c ∷ s

unfoldable pub with_payload : List Tlv → List ℕ → List Tlv
with_payload tlvs [] = tlvs
with_payload tlvs (b ∷ payload) =
    tlvs ++ (record { tag = tag_message_payload; value = b ∷ payload } ∷ [])

-- The short message with its length, and the parameters behind it.
unfoldable pub message_bytes : SubmitBodyParams → List ℕ
unfolding with_payload tlvs_bytes
message_bytes p =
    if ltb 254 (length p.short_message)
    then 0 ∷ tlvs_bytes (with_payload p.tlvs p.short_message)
    else length p.short_message % 256
      ∷ (p.short_message ++ tlvs_bytes (with_payload p.tlvs p.message_payload))

-- `buildSubmitBody`.
unfoldable pub build_submit_body : SubmitBodyParams → List ℕ
build_submit_body p =
    c_string p.service_type
    ++ (p.source_ton
        ∷ p.source_npi
        ∷ (c_string (strip_plus p.source_addr)
            ++ (p.dest_ton
                ∷ p.dest_npi
                ∷ (c_string (strip_plus p.dest_addr)
                    ++ (p.esm_class
                        ∷ 0
                        ∷ 0
                        ∷ (c_string []
                            ++ (c_string p.validity_period
                                ++ (p.registered_delivery
                                    ∷ 0
                                    ∷ p.data_coding
                                    ∷ 0
                                    ∷ message_bytes p))))))))
