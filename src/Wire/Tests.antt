-- ===== src/Wire/Tests.antt =====
-- Tests of internal/smpp on concrete data.
use mysmpp.Wire.Udh.Laws.{concat_udh_wraps, IsPart, parse-concat_udh, split_udh_sound}
use mysmpp.Wire.Bytes.{get32, c_string, read_c_string_max, read-c_string}
use mysmpp.Wire.Submit.{
  strip_plus, SubmitBodyParams, parse_submit_sm, build_submit_body, header_concat,
}
use mysmpp.Base.{
  get_elem?, ◌-◌, ℕ, ◌≡◌, ◌≤◌, List, [], ◌∷◌, ◌++◌, none, some, codes, refl, arith, length,
  if◌then◌else◌, leb, ◌*◌, ◌+◌,
}
use mysmpp.Wire.Pdu.{Pdu, Read, read_pdu, write_pdu, read-write_pdu, write-read_pdu}
use mysmpp.Wire.Tlv.{Tlv, parse_tlvs_strict, tlvs_bytes, parse-tlvs_bytes}
use mysmpp.Wire.Udh.{concat_udh, parse_concat, split_udh}
use mysmpp.Wire.Submit.Laws.{parse-build_submit}

-- An enquire_link with three bytes behind it.
abbrev unit : Pdu
unit = record { len = 0; command_id = 0x15; status = 0; sequence_id = 70000; body = 1 ∷ 2 ∷ 3 ∷ [] }

abbrev unit_bytes : List ℕ
unit_bytes = 0 ∷ 0 ∷ 0 ∷ 17 ∷ 0 ∷ 0 ∷ 0 ∷ 0x15 ∷ 0 ∷ 0 ∷ 0 ∷ 0 ∷ 0 ∷ 1 ∷ 17 ∷ 112 ∷ 9 ∷ 7 ∷ []

read-write_pdu_example :
    read_pdu (write_pdu unit ++ (7 ∷ [])) ≡ Read.got (record unit { len = 19 }) (7 ∷ [])
read-write_pdu_example =
    read-write_pdu unit (7 ∷ [])
      (record {
        command_fits = omega arith;
        status_fits = omega arith;
        sequence_fits = omega arith;
      })
      (omega arith)

abbrev unit_read : Pdu
unit_read = record { len = 17; command_id = 0x15; status = 0; sequence_id = 70000; body = 9 ∷ [] }

unit_is_read : read_pdu unit_bytes ≡ Read.got unit_read (7 ∷ [])
unfolding read_pdu get32
unit_is_read = refl

write-read_pdu_example :
    (17 ≡ 16 + length unit_read.body)
    × (17 ≤ 1024 * 1024)
    × (write_pdu unit_read ++ (7 ∷ []) ≡ unit_bytes)
write-read_pdu_example = write-read_pdu unit_bytes unit_read (7 ∷ []) (ground arith) unit_is_read

abbrev two_tlvs : List Tlv
two_tlvs =
    record { tag = 0x001e; value = 65 ∷ 0 ∷ [] } ∷ record { tag = 0x0427; value = 2 ∷ [] } ∷ []

parse-tlvs_bytes_example : parse_tlvs_strict (tlvs_bytes two_tlvs) ≡ some two_tlvs
parse-tlvs_bytes_example =
    parse-tlvs_bytes two_tlvs ((omega arith, omega arith), ((omega arith, omega arith), tt))

parse-concat_udh_example :
    (split_udh (concat_udh 777 2 3 ++ codes "hi") 64 ≡ some (some (concat_udh 777 2 3), codes "hi"))
    × (parse_concat (concat_udh 777 2 3) ≡ some (record { reference = 9; total = 3; part = 2 }))
parse-concat_udh_example =
    parse-concat_udh 777 2 3 (codes "hi") (omega arith) (omega arith) (omega arith)

concat_udh_wraps_example :
    (concat_udh 777 258 300 ≡ concat_udh 777 2 300) × (parse_concat (concat_udh 777 2 256) ≡ none)
concat_udh_wraps_example = concat_udh_wraps 777 2 300 1

abbrev header : List ℕ
header = 5 ∷ 0 ∷ 3 ∷ 9 ∷ 3 ∷ 2 ∷ []

header_split : split_udh (header ++ codes "hi") 64 ≡ some (some header, codes "hi")
unfolding split_udh
header_split = refl

split_udh_sound_example :
    (header ++ codes "hi" ≡ header ++ codes "hi")
    × (2 ≤ length header)
    × (get_elem? (header ++ codes "hi") 0 ≡ some (length header - 1))
    × IsPart (parse_concat header)
split_udh_sound_example = split_udh_sound (header ++ codes "hi") 64 header (codes "hi") header_split

read-c_string_example :
    read_c_string_max 6 (c_string (codes "CMT") ++ (1 ∷ []))
    ≡ (if leb (length (codes "CMT")) 6 then some (codes "CMT", 1 ∷ []) else none)
read-c_string_example = read-c_string 6 (codes "CMT") (1 ∷ []) (ground arith)

abbrev params : SubmitBodyParams
params = record {
  service_type = codes "CMT";
  validity_period = [];
  source_addr = codes "+100";
  dest_addr = codes "200";
  data_coding = 0;
  registered_delivery = 1;
  short_message = header ++ codes "hi";
  message_payload = [];
  tlvs = [];
  source_ton = 1;
  source_npi = 1;
  dest_ton = 1;
  dest_npi = 1;
  esm_class = 64;
}

abbrev submit : Pdu
submit = record {
  len = 0;
  command_id = 4;
  status = 0;
  sequence_id = 3;
  body = build_submit_body params;
}

parse-build_submit_example :
    parse_submit_sm submit
    ≡ some (record {
      sequence_id = 3;
      from = codes "100";
      to = codes "200";
      data_coding = 0;
      registered_delivery = 1;
      esm_class = 64;
      protocol_id = 0;
      priority_flag = 0;
      replace_if_present = 0;
      sm_default_msg_id = 0;
      optional_params_offset = length (build_submit_body params) - length (tlvs_bytes []);
      payload = codes "hi";
      udh = some header;
      concat = header_concat (some header);
      tlvs = [];
    })
unfolding strip_plus
parse-build_submit_example =
    parse-build_submit submit params (some header) (codes "hi") refl refl refl
      (ground arith, omega arith) (tt, omega arith) (ground arith, omega arith)
      (ground arith, omega arith) (omega arith) header_split
