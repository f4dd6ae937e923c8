-- ===== src/Sms/Utf8.antt =====
-- Go strings as internal/message uses them: a string is a list of bytes; `[]rune(text)` and `range text`
-- decode UTF-8, where each byte that starts no character counts as U+FFFD; `string(runes)` and
-- `WriteRune` encode it, and encode U+FFFD for a number that is no character.
use mysmpp.Base.{
  ℕ, ◌≡◌, ◌+◌, ◌*◌, ◌/◌, ◌%◌, ◌++◌, ◌∷◌, ◌&&◌, ◌||◌, ◌∙◌, List, [], Bool, ap, append_assoc, drop,
  if◌then◌else◌, leb, length, ltb, nat_eqb, refl, suc, sym, zero,
}

abbrev pub is_between : ℕ → ℕ → ℕ → Bool
is_between low high b = leb low b && leb b high

abbrev is_tail : ℕ → Bool
is_tail b = is_between 0x80 0xBF b

-- The second bytes that may follow a first byte of three or four.
abbrev second_ok : ℕ → ℕ → Bool
second_ok first b =
    if nat_eqb first 0xE0
    then is_between 0xA0 0xBF b
    else if nat_eqb first 0xED
    then is_between 0x80 0x9F b
    else if nat_eqb first 0xF0
    then is_between 0x90 0xBF b
    else if nat_eqb first 0xF4
    then is_between 0x80 0x8F b
    else is_tail b

-- What cannot be decoded: U+FFFD for one byte.
abbrev broken : ℕ × ℕ
broken = (0xFFFD, 0)

decode_two : ℕ → List ℕ → ℕ × ℕ
decode_two first [] = broken
decode_two first (b ∷ bs) = if is_tail b then (first % 32 * 64 + b % 64, 1) else broken

decode_three : ℕ → List ℕ → ℕ × ℕ
decode_three first (b ∷ c ∷ bs) =
    if second_ok first b && is_tail c then (first % 16 * 4096 + b % 64 * 64 + c % 64, 2) else broken
decode_three first _ = broken

decode_four : ℕ → List ℕ → ℕ × ℕ
decode_four first (b ∷ c ∷ d ∷ bs) =
    if second_ok first b && (is_tail c && is_tail d)
    then (first % 8 * 262144 + b % 64 * 4096 + c % 64 * 64 + d % 64, 3)
    else broken
decode_four first _ = broken

-- The rune that a first byte starts, and how many bytes after the first it takes.
unfoldable pub decode_rune : ℕ → List ℕ → ℕ × ℕ
unfolding decode_two decode_three decode_four
decode_rune first bs =
    if ltb first 0x80
    then (first, 0)
    else if is_between 0xC2 0xDF first
    then decode_two first bs
    else if is_between 0xE0 0xEF first
    then decode_three first bs
    else if is_between 0xF0 0xF4 first
    then decode_four first bs
    else broken

-- The runes of a string; each takes a byte at least, so as much fuel as there are bytes is enough.
runes_from : ℕ → List ℕ → List ℕ
unfolding decode_rune
runes_from fuel [] = []
runes_from zero (b ∷ bs) = []
runes_from (suc fuel) (b ∷ bs) = let d = decode_rune b bs in d.0 ∷ runes_from fuel (drop d.1 bs)

-- `[]rune(text)`.
unfoldable pub runes : List ℕ → List ℕ
unfolding runes_from
runes text = runes_from (length text) text

-- The bytes of a rune.
unfoldable pub encode_rune : ℕ → List ℕ
encode_rune r =
    if ltb r 0x80
    then r ∷ []
    else if ltb r 0x800
    then (0xC0 + r / 64) ∷ (0x80 + r % 64) ∷ []
    else if is_between 0xD800 0xDFFF r || ltb 0x10FFFF r
    then 0xEF ∷ 0xBF ∷ 0xBD ∷ []
    else if ltb r 0x10000
    then (0xE0 + r / 4096) ∷ (0x80 + r / 64 % 64) ∷ (0x80 + r % 64) ∷ []
    else (0xF0 + r / 262144) ∷ (0x80 + r / 4096 % 64) ∷ (0x80 + r / 64 % 64) ∷ (0x80 + r % 64) ∷ []

-- `string(runes)`.
unfoldable pub string_of : List ℕ → List ℕ
unfolding encode_rune
string_of [] = []
string_of (r ∷ rs) = encode_rune r ++ string_of rs

-- The string is valid UTF-8: it is what its runes encode.
abbrev pub IsUtf8 : List ℕ → Type 0
IsUtf8 text = string_of (runes text) ≡ text

pub string_of-append : (rs ss : List ℕ) → string_of (rs ++ ss) ≡ string_of rs ++ string_of ss
unfolding string_of
string_of-append [] ss = refl
string_of-append (r ∷ rs) ss =
    ap (λ xs. encode_rune r ++ xs) (string_of-append rs ss)
    ∙ sym (append_assoc (encode_rune r) (string_of rs) (string_of ss))
