-- ===== src/Wire/Bytes.antt =====
-- encoding/binary as the package uses it: big-endian numbers; and the C-octet strings of
-- internal/smpp/pdu.go. A byte is a number below 256.
use mysmpp.Base.{
  ℕ, ◌+◌, ◌*◌, ◌/◌, ◌%◌, ◌^◌, ◌<◌, ◌≡◌, List, [], ◌∷◌, Option, none, some, All, Bool-cases, Text,
  arith, if◌then◌else◌, inl, inr, leb, leb→le, leb→lt, length, nat_eqb, refl, ◌++◌, ◌≢◌, ◌≤◌,
}

abbrev pub IsBytes : List ℕ → Type 0
IsBytes = All (λ b. b < 256)

-- `binary.BigEndian.PutUint16` and `PutUint32`.
unfoldable pub put16 : ℕ → List ℕ
put16 n = n / 256 % 256 ∷ n % 256 ∷ []

unfoldable pub put32 : ℕ → List ℕ
put32 n = n / 2 ^ 24 % 256 ∷ n / 2 ^ 16 % 256 ∷ n / 256 % 256 ∷ n % 256 ∷ []

-- `Uint16` and `Uint32` of bytes in order.
unfoldable pub get16 : ℕ → ℕ → ℕ
get16 a b = a * 256 + b

unfoldable pub get32 : ℕ → ℕ → ℕ → ℕ → ℕ
get32 a b c d = a * 2 ^ 24 + b * 2 ^ 16 + c * 256 + d

pub get16-put16 : (n : ℕ) → n < 2 ^ 16 → get16 (n / 256 % 256) (n % 256) ≡ n
unfolding get16
get16-put16 n h = omega arith

pub get32-put32 :
    (n : ℕ) → n < 2 ^ 32 → get32 (n / 2 ^ 24 % 256) (n / 2 ^ 16 % 256) (n / 256 % 256) (n % 256) ≡ n
unfolding get32
get32-put32 n h = omega arith

pub put32-get32 :
    (a b c d : ℕ)
    → a < 256
    → b < 256
    → c < 256
    → d < 256
    → put32 (get32 a b c d) ≡ a ∷ b ∷ c ∷ d ∷ []
unfolding put32 get32
put32-get32 a b c d ha hb hc hd =
    let ea : (a * 2 ^ 24 + b * 2 ^ 16 + c * 256 + d) / 2 ^ 24 % 256 ≡ a = omega arith in
    let eb : (a * 2 ^ 24 + b * 2 ^ 16 + c * 256 + d) / 2 ^ 16 % 256 ≡ b = omega arith in
    let ec : (a * 2 ^ 24 + b * 2 ^ 16 + c * 256 + d) / 256 % 256 ≡ c = omega arith in
    let ed : (a * 2 ^ 24 + b * 2 ^ 16 + c * 256 + d) % 256 ≡ d = omega arith in rw (ea, eb, ec, ed)

-- `CString`.
unfoldable pub c_string : Text → List ℕ
c_string value = value ++ (0 ∷ [])

abbrev push_front : ℕ → Option (Text × List ℕ) → Option (Text × List ℕ)
push_front b none = none
push_front b (some (s, rest)) = some (b ∷ s, rest)

-- `readCStringMax`: the string and what follows it, from the bytes at the offset. The loop has read
-- `n` bytes.
unfoldable pub scan_c_string : ℕ → ℕ → List ℕ → Option (Text × List ℕ)
scan_c_string limit n [] = none
scan_c_string limit n (b ∷ bs) =
    let more = scan_c_string limit (n + 1) bs in
    if nat_eqb b 0 then some ([], bs) else if leb limit n then none else push_front b more

unfoldable pub read_c_string_max : ℕ → List ℕ → Option (Text × List ℕ)
unfolding scan_c_string
read_c_string_max limit body = scan_c_string limit 0 body

-- `skipCString` of internal/smppclient/receipt.go.
unfoldable pub skip_c_string : List ℕ → Option (List ℕ)
skip_c_string [] = none
skip_c_string (b ∷ bs) = if nat_eqb b 0 then some bs else skip_c_string bs

-- No byte of a string ends it.
abbrev pub HasNoNul : Text → Type 0
HasNoNul = All (λ b. b ≢ 0)

-- A string of a permitted length is read back, and the reader stops behind its end.
scan-c_string :
    (limit n : ℕ) (s : Text) (rest : List ℕ)
    → HasNoNul s
    → n + length s ≤ limit
    → scan_c_string limit n (c_string s ++ rest) ≡ some (s, rest)
unfolding scan_c_string c_string
scan-c_string limit n [] rest h low = refl
scan-c_string limit n (b ∷ s) rest h low = ground (arith, scan-c_string limit (n + 1) s rest h.1)

-- A longer string is refused.
scan_long :
    (limit n : ℕ) (s : Text) (rest : List ℕ)
    → HasNoNul s
    → n ≤ limit
    → limit < n + length s
    → scan_c_string limit n (c_string s ++ rest) ≡ none
unfolding scan_c_string c_string
scan_long limit n [] rest h here low = absurd (omega arith)
scan_long limit n (b ∷ s) rest h here low = ground (arith, scan_long limit (n + 1) s rest h.1)

-- A C-octet string without a zero byte is read back with what follows it if it has `limit` bytes or
-- fewer, and refused if it has more.
pub read-c_string :
    (limit : ℕ) (s : Text) (rest : List ℕ)
    → HasNoNul s
    → read_c_string_max limit (c_string s ++ rest)
      ≡ (if leb (length s) limit then some (s, rest) else none)
unfolding read_c_string_max
read-c_string limit s rest h = elim (Bool-cases (leb (length s) limit)) [
  | inl short ↦ rw short (scan-c_string limit 0 s rest h (omega (arith, leb→le _ _ short)))
  | inr long ↦ rw long (scan_long limit 0 s rest h (omega arith) (omega (arith, leb→lt _ _ long)))
]

pub skip-c_string :
    (s : Text) (rest : List ℕ) → HasNoNul s → skip_c_string (c_string s ++ rest) ≡ some rest
unfolding skip_c_string c_string
skip-c_string [] rest h = refl
skip-c_string (b ∷ s) rest h = ground (arith, skip-c_string s rest h.1)
