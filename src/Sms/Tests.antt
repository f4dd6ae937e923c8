-- ===== src/Sms/Tests.antt =====
-- Tests of internal/message on concrete data.
use mysmpp.Base.{ℕ, List, [], ◌∷◌, zero, suc, ◌<◌, arith, refl, ◌≡◌}
use mysmpp.Sms.Split.{text_len, single_limit, units, rune_size, Encoding, join, resolve, split}
use mysmpp.Sms.Split.Laws.{join-split, join-split_long}
use mysmpp.Sms.Split.Parts.{IsSent, split_parts}
use mysmpp.Sms.Utf8.{IsUtf8, runes, string_of}

-- A text of two parts.
abbrev copies : ℕ → List ℕ
copies zero = []
copies (suc n) = 97 ∷ copies n

abbrev two_parts : List ℕ
two_parts = copies 200

two_parts-IsUtf8 : IsUtf8 two_parts
unfolding runes string_of
two_parts-IsUtf8 = refl

join-split_example : join (split 7 Encoding.auto two_parts) ≡ two_parts
join-split_example = join-split 7 Encoding.auto two_parts two_parts-IsUtf8

split_parts_example :
    IsSent (resolve Encoding.ucs2 two_parts) two_parts (split 7 Encoding.ucs2 two_parts)
split_parts_example = split_parts 7 Encoding.ucs2 two_parts

-- 161 bytes that start no character.
abbrev bad_bytes : ℕ → List ℕ
bad_bytes zero = []
bad_bytes (suc n) = 0xFF ∷ bad_bytes n

abbrev bad_text : List ℕ
bad_text = bad_bytes 161

bad_text-long : 160 < text_len Encoding.eight_bit bad_text
unfolding runes units rune_size
bad_text-long = omega arith

join-split_long_example : join (split 7 Encoding.eight_bit bad_text) ≡ string_of (runes bad_text)
unfolding resolve single_limit
join-split_long_example =
    join-split_long 7 Encoding.eight_bit bad_text (omega (arith, bad_text-long))

-- Characters of two, three and four bytes, and bytes that are none: one of their own, the start of a
-- longer one, and a surrogate.
abbrev mixed : List ℕ
mixed =
    0xC3 ∷ 0xA9 ∷ 0xE2 ∷ 0x82 ∷ 0xAC ∷ 0xF0 ∷ 0x9F ∷ 0x98 ∷ 0x80 ∷ 0xFF ∷ 0xED ∷ 0xA0 ∷ 0x80 ∷ 0xE2
    ∷ 0x82 ∷ []

runes-mixed :
    runes mixed ≡ 0xE9 ∷ 0x20AC ∷ 0x1F600 ∷ 0xFFFD ∷ 0xFFFD ∷ 0xFFFD ∷ 0xFFFD ∷ 0xFFFD ∷ 0xFFFD ∷ []
unfolding runes
runes-mixed = refl

string_of-mixed :
    string_of (0xE9 ∷ 0x20AC ∷ 0x1F600 ∷ 0xD800 ∷ [])
    ≡ 0xC3 ∷ 0xA9 ∷ 0xE2 ∷ 0x82 ∷ 0xAC ∷ 0xF0 ∷ 0x9F ∷ 0x98 ∷ 0x80 ∷ 0xEF ∷ 0xBF ∷ 0xBD ∷ []
unfolding string_of
string_of-mixed = refl
