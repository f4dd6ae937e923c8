-- ===== src/Sms/Gsm7.antt =====
-- internal/message/codec.go: the GSM 7-bit alphabet and its unpacked encoding.
use mysmpp.Base.{
  ℕ, List, [], ◌∷◌, Bool, Option, if◌then◌else◌, is_some, nat_eqb, none, some, ◌+◌, ◌||◌,
}

-- `gsm7DefaultRunes`: the rune of each code; 0 stands at the escape code.
abbrev pub default_runes : List ℕ
default_runes =
    0x40 ∷ 0xa3 ∷ 0x24 ∷ 0xa5 ∷ 0xe8 ∷ 0xe9 ∷ 0xf9 ∷ 0xec ∷ 0xf2 ∷ 0xc7 ∷ 0x0a ∷ 0xd8 ∷ 0xf8 ∷ 0x0d
    ∷ 0xc5 ∷ 0xe5 ∷ 0x394 ∷ 0x5f ∷ 0x3a6 ∷ 0x393 ∷ 0x39b ∷ 0x3a9 ∷ 0x3a0 ∷ 0x3a8 ∷ 0x3a3 ∷ 0x398
    ∷ 0x39e ∷ 0 ∷ 0xc6 ∷ 0xe6 ∷ 0xdf ∷ 0xc9 ∷ 0x20 ∷ 0x21 ∷ 0x22 ∷ 0x23 ∷ 0xa4 ∷ 0x25 ∷ 0x26 ∷ 0x27
    ∷ 0x28 ∷ 0x29 ∷ 0x2a ∷ 0x2b ∷ 0x2c ∷ 0x2d ∷ 0x2e ∷ 0x2f ∷ 0x30 ∷ 0x31 ∷ 0x32 ∷ 0x33 ∷ 0x34
    ∷ 0x35 ∷ 0x36 ∷ 0x37 ∷ 0x38 ∷ 0x39 ∷ 0x3a ∷ 0x3b ∷ 0x3c ∷ 0x3d ∷ 0x3e ∷ 0x3f ∷ 0xa1 ∷ 0x41
    ∷ 0x42 ∷ 0x43 ∷ 0x44 ∷ 0x45 ∷ 0x46 ∷ 0x47 ∷ 0x48 ∷ 0x49 ∷ 0x4a ∷ 0x4b ∷ 0x4c ∷ 0x4d ∷ 0x4e
    ∷ 0x4f ∷ 0x50 ∷ 0x51 ∷ 0x52 ∷ 0x53 ∷ 0x54 ∷ 0x55 ∷ 0x56 ∷ 0x57 ∷ 0x58 ∷ 0x59 ∷ 0x5a ∷ 0xc4
    ∷ 0xd6 ∷ 0xd1 ∷ 0xdc ∷ 0xa7 ∷ 0xbf ∷ 0x61 ∷ 0x62 ∷ 0x63 ∷ 0x64 ∷ 0x65 ∷ 0x66 ∷ 0x67 ∷ 0x68
    ∷ 0x69 ∷ 0x6a ∷ 0x6b ∷ 0x6c ∷ 0x6d ∷ 0x6e ∷ 0x6f ∷ 0x70 ∷ 0x71 ∷ 0x72 ∷ 0x73 ∷ 0x74 ∷ 0x75
    ∷ 0x76 ∷ 0x77 ∷ 0x78 ∷ 0x79 ∷ 0x7a ∷ 0xe4 ∷ 0xf6 ∷ 0xf1 ∷ 0xfc ∷ 0xe0 ∷ []

-- `gsm7ExtToRune`: codes behind the escape, with their runes.
abbrev pub ext_runes : List (ℕ × ℕ)
ext_runes =
    (0x0a, 0x0c)
    ∷ (0x14, 0x5e)
    ∷ (0x28, 0x7b)
    ∷ (0x29, 0x7d)
    ∷ (0x2f, 0x5c)
    ∷ (0x3c, 0x5b)
    ∷ (0x3d, 0x7e)
    ∷ (0x3e, 0x5d)
    ∷ (0x40, 0x7c)
    ∷ (0x65, 0x20ac)
    ∷ []

-- The first place of a rune in a table, counted from `i`.
code_from : ℕ → List ℕ → ℕ → Option ℕ
code_from i [] r = none
code_from i (x ∷ xs) r = if nat_eqb x r then some i else code_from (i + 1) xs r

-- `gsm7DefaultCodes[r]`; the map has no entry for rune 0.
unfoldable pub default_code : ℕ → Option ℕ
unfolding code_from
default_code r = if nat_eqb r 0 then none else code_from 0 default_runes r

unfoldable pub code_of : List (ℕ × ℕ) → ℕ → Option ℕ
code_of [] r = none
code_of ((code, x) ∷ rest) r = if nat_eqb x r then some code else code_of rest r

-- `gsm7RuneToExt[r]`.
unfoldable pub ext_code : ℕ → Option ℕ
unfolding code_of
ext_code r = code_of ext_runes r

-- `isGSM7Basic`.
unfoldable pub is_gsm7_basic : ℕ → Bool
unfolding default_code ext_code
is_gsm7_basic r = is_some (default_code r) || is_some (ext_code r)

escaped : ℕ → Option ℕ → List ℕ → List ℕ
escaped r (some code) rest = 0x1b ∷ code ∷ rest
escaped r none rest = 0x3f ∷ rest

-- The septets of one rune; a rune outside the alphabet becomes a question mark.
put_rune : ℕ → Option ℕ → List ℕ → List ℕ
unfolding escaped ext_code
put_rune r (some code) rest = code ∷ rest
put_rune r none rest = escaped r (ext_code r) rest

-- `EncodeGSM7Unpacked`, and the septets of `encodeGSM7Packed`.
unfoldable pub encode_unpacked : List ℕ → List ℕ
unfolding put_rune default_code
encode_unpacked [] = []
encode_unpacked (r ∷ rs) = put_rune r (default_code r) (encode_unpacked rs)
