-- ===== src/Wire/Submit/Laws.antt =====
-- `ParseSubmitSM` on what `buildSubmitBody` writes (internal/smpp, internal/smppclient).
use mysmpp.Base.{
  ◌-◌, ◌&&◌, Bool, none, ℕ, List, [], ◌∷◌, Option, some, Text, false, if◌then◌else◌, length, ltb,
  true, ◌++◌, ◌^◌, ◌≡◌, ◌≤◌, ◌<◌, refl, arith, Bool-cases, All, leb, take-length_append,
  drop-length_append, length-append, inl, inr, ◌%◌,
}
use mysmpp.Wire.Pdu.{Pdu}
use mysmpp.Wire.Submit.{
  is_header, build_submit_body, has_duplicate_sar_tag, parse_submit_sm, strip_plus, whole_payload,
  resolve_concat, cut, header_concat, message_bytes, with_payload, SubmitSm, SubmitBodyParams,
  read_payload, tag_message_payload,
}
use mysmpp.Wire.Bytes.{c_string, read_c_string_max, HasNoNul, read-c_string}
use mysmpp.Wire.Tlv.{Tlv, tlvs_bytes, Fits, find_tlv, parse-tlvs_bytes}
use mysmpp.Wire.Udh.{split_udh, ConcatInfo, has_sar, parse_sar}

read_fits :
    (limit : ℕ) (s : Text) (rest : List ℕ)
    → HasNoNul s
    → length s ≤ limit
    → read_c_string_max limit (c_string s ++ rest) ≡ some (s, rest)
read_fits limit s rest h low =
    let fits : leb (length s) limit ≡ true = ground arith in
    rw (read-c_string limit s rest h, fits) refl

cut_append : (xs ys : List ℕ) → cut (length xs) (xs ++ ys) ≡ some (xs, ys)
cut_append xs ys =
    let fits : ltb (length (xs ++ ys)) (length xs) ≡ false = ground (arith, length-append xs ys) in
    rw (fits, take-length_append xs ys, drop-length_append xs ys) refl

-- What stands in the body, and in the parameters behind it.
abbrev pub in_body : List ℕ → List ℕ
in_body short = if ltb 254 (length short) then [] else short

abbrev pub in_parameters : List ℕ → List Tlv
in_parameters short =
    if ltb 254 (length short) then record { tag = tag_message_payload; value = short } ∷ [] else []

with_payload-long :
    (s : List ℕ)
    → 0 < length s
    → with_payload [] s ≡ record { tag = tag_message_payload; value = s } ∷ []
unfolding with_payload
with_payload-long [] h = absurd (omega arith)
with_payload-long (b ∷ s) h = refl

message_bytes_lem :
    (p : SubmitBodyParams)
    → p.tlvs ≡ []
    → p.message_payload ≡ []
    → message_bytes p
      ≡ length (in_body p.short_message)
        ∷ (in_body p.short_message ++ tlvs_bytes (in_parameters p.short_message))
unfolding message_bytes with_payload
message_bytes_lem p none_given no_payload = elim (Bool-cases (ltb 254 (length p.short_message))) [
  | inl long ↦ rw (long, none_given, with_payload-long p.short_message (ground arith)) refl
  | inr short ↦
      let fits : length p.short_message % 256 ≡ length p.short_message = ground arith in
      rw (short, none_given, no_payload, fits) refl
]

in_parameters-Fits : (short : List ℕ) → length short < 2 ^ 16 → All Fits (in_parameters short)
in_parameters-Fits short h = elim (Bool-cases (ltb 254 (length short))) [
  | inl long ↦ rw (long, All) ((omega arith, h), tt)
  | inr fits ↦ rw (fits, All) tt
]

resolve_plain :
    (short : List ℕ) (c : Option ConcatInfo) → resolve_concat c (in_parameters short) ≡ some c
unfolding resolve_concat parse_sar find_tlv has_sar
resolve_plain short (some info) = refl
resolve_plain short none = elim (Bool-cases (ltb 254 (length short))) [
  | inl long ↦ rw long refl
  | inr fits ↦ rw fits refl
]

no_sar : (short : List ℕ) → has_sar (in_parameters short) ≡ false
unfolding has_sar
no_sar short = elim (Bool-cases (ltb 254 (length short))) [
  | inl long ↦ rw long refl
  | inr fits ↦ rw fits refl
]

no_duplicate : (short : List ℕ) → has_duplicate_sar_tag (in_parameters short) ≡ false
unfolding has_duplicate_sar_tag
no_duplicate short = elim (Bool-cases (ltb 254 (length short))) [
  | inl long ↦ rw long refl
  | inr fits ↦ rw fits refl
]

whole_again :
    (short : List ℕ)
    → whole_payload (in_body short) (find_tlv (in_parameters short) tag_message_payload)
      ≡ some short
unfolding whole_payload find_tlv
whole_again short = elim (Bool-cases (ltb 254 (length short))) [
  | inl long ↦ rw long refl
  | inr fits ↦ rw fits refl
]

and-false : (b : Bool) → (b && false) ≡ false
and-false true = refl
and-false false = refl

read_payload_lem :
    (fields : SubmitSm) (short : List ℕ) (header : Option (List ℕ)) (text : List ℕ)
    → split_udh short fields.esm_class ≡ some (header, text)
    → read_payload fields (in_body short) (in_parameters short)
      ≡ some (record fields {
        payload = text;
        udh = header;
        concat = header_concat header;
        tlvs = in_parameters short;
      })
unfolding read_payload
read_payload_lem fields short header text split =
    rw
      (
        no_duplicate short,
        whole_again short,
        split,
        resolve_plain short (header_concat header),
        no_sar short,
        and-false (is_header header),
      )
      refl

-- What `buildSubmitBody` writes for a message without further parameters is read back by
-- `ParseSubmitSM`, if the strings have no zero byte and fit their limits, the short message is shorter
-- than 64 KiB, and its header is well-formed where the class says that it has one. A short message
-- of more than 254 bytes travels in the message_payload parameter.
pub parse-build_submit :
    (pdu : Pdu) (p : SubmitBodyParams) (header : Option (List ℕ)) (text : List ℕ)
    → pdu.body ≡ build_submit_body p
    → p.tlvs ≡ []
    → p.message_payload ≡ []
    → HasNoNul p.service_type × (length p.service_type ≤ 6)
    → HasNoNul p.validity_period × (length p.validity_period ≤ 16)
    → HasNoNul (strip_plus p.source_addr) × (length (strip_plus p.source_addr) ≤ 20)
    → HasNoNul (strip_plus p.dest_addr) × (length (strip_plus p.dest_addr) ≤ 20)
    → length p.short_message < 2 ^ 16
    → split_udh p.short_message p.esm_class ≡ some (header, text)
    → parse_submit_sm pdu
      ≡ some (record {
        sequence_id = pdu.sequence_id;
        from = strip_plus p.source_addr;
        to = strip_plus p.dest_addr;
        data_coding = p.data_coding;
        registered_delivery = p.registered_delivery;
        esm_class = p.esm_class;
        protocol_id = 0;
        priority_flag = 0;
        replace_if_present = 0;
        sm_default_msg_id = 0;
        optional_params_offset =
            length (build_submit_body p) - length (tlvs_bytes (in_parameters p.short_message));
        payload = text;
        udh = header;
        concat = header_concat header;
        tlvs = in_parameters p.short_message;
      })
unfolding parse_submit_sm build_submit_body
parse-build_submit pdu p header text same no_tlvs no_payload service validity source dest short
      split =
    rw
      (
        same,
        read_fits 6 p.service_type _ service.0 service.1,
        read_fits 20 (strip_plus p.source_addr) _ source.0 source.1,
        read_fits 20 (strip_plus p.dest_addr) _ dest.0 dest.1,
        read_fits 16 [] (c_string p.validity_period ++ _) tt (omega arith),
        read_fits 16 p.validity_period _ validity.0 validity.1,
        message_bytes_lem p no_tlvs no_payload,
        cut_append (in_body p.short_message) (tlvs_bytes (in_parameters p.short_message)),
        parse-tlvs_bytes (in_parameters p.short_message) (in_parameters-Fits p.short_message short),
      )
      (read_payload_lem _ p.short_message header text split)
