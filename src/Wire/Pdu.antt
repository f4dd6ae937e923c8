-- ===== src/Wire/Pdu.antt =====
-- internal/smpp/pdu.go: the frame of a protocol data unit on a byte stream.
use mathlib.Core.Path.{subst⁻¹}
use mysmpp.Base.{
  ℕ, ◌≡◌, List, arith, drop, if◌then◌else◌, length, ltb, take, ◌%◌, ◌*◌, ◌++◌, ◌+◌, ◌-◌, ◌<◌, ◌^◌,
  ◌∷◌, ◌≤◌, drop-length_append, false, length-append, length-take, sym, take-append-drop,
  take-length_append,
}
use mysmpp.Wire.Bytes.{put32, get32, get32-put32, IsBytes, put32-get32}

pub record Pdu : Type 0 where
  pub len : ℕ
  pub command_id : ℕ
  pub status : ℕ
  pub sequence_id : ℕ
  pub body : List ℕ

pub data ReadError : Type 0 where
  short_read invalid_length too_large : ReadError

-- A read takes a unit off the stream, or fails.
pub data Read : Type 0 where
  got : Pdu → List ℕ → Read
  failed : ReadError → Read

-- The part of `ReadPDU` behind the header; `rest` is the unread stream.
read_body : ℕ → ℕ → ℕ → ℕ → List ℕ → Read
read_body len command status sequence rest =
    if ltb len 16
    then failed invalid_length
    else if ltb (1024 * 1024) len
    then failed too_large
    else if ltb (length rest) (len - 16)
    then failed short_read
    else got
        (record {
          len = len;
          command_id = command;
          status = status;
          sequence_id = sequence;
          body = take (len - 16) rest;
        })
        (drop (len - 16) rest)

-- `ReadPDU` on the bytes that the stream holds.
unfoldable pub read_pdu : List ℕ → Read
unfolding read_body
read_pdu (a ∷ b ∷ c ∷ d ∷ e ∷ f ∷ g ∷ h ∷ i ∷ j ∷ k ∷ l ∷ m ∷ n ∷ o ∷ p ∷ rest) =
    read_body (get32 a b c d) (get32 e f g h) (get32 i j k l) (get32 m n o p) rest
read_pdu _ = failed short_read

-- `WritePDU`: the bytes written. The length field is computed as a `uint32`.
unfoldable pub write_pdu : Pdu → List ℕ
write_pdu p =
    put32 ((16 + length p.body) % 2 ^ 32)
    ++ (put32 p.command_id ++ (put32 p.status ++ (put32 p.sequence_id ++ p.body)))

-- The header fields are 32 bits wide.
pub record IsPdu (p : Pdu) : Type 0 where
  pub command_fits : p.command_id < 2 ^ 32
  pub status_fits : p.status < 2 ^ 32
  pub sequence_fits : p.sequence_id < 2 ^ 32

read_body_fits :
    (command status sequence : ℕ) (body rest : List ℕ)
    → 16 + length body ≤ 1024 * 1024
    → read_body (16 + length body) command status sequence (body ++ rest)
      ≡ got
          (record {
            len = 16 + length body;
            command_id = command;
            status = status;
            sequence_id = sequence;
            body = body;
          })
          rest
unfolding read_body
read_body_fits command status sequence body rest small =
    let n = length body in
    let long : ltb (16 + n) 16 ≡ false = ground arith in
    let low : ltb (1024 * 1024) (16 + n) ≡ false = ground arith in
    let all : ltb (length (body ++ rest)) (16 + n - 16) ≡ false =
      ground (arith, length-append body rest) in
    let cut : 16 + n - 16 ≡ n = omega arith in
    rw (long, low, all, cut, take-length_append body rest, drop-length_append body rest)

-- A unit whose header fields fit and whose body leaves it within a megabyte is read back with its
-- true length, and the reader stops where the unit ends.
pub read-write_pdu :
    (p : Pdu) (rest : List ℕ)
    → IsPdu p
    → 16 + length p.body ≤ 1024 * 1024
    → read_pdu (write_pdu p ++ rest) ≡ got (record p { len = 16 + length p.body }) rest
unfolding read_pdu write_pdu put32
read-write_pdu p rest v small =
    let size : (16 + length p.body) % 2 ^ 32 ≡ 16 + length p.body = omega arith in
    rw
      (
        size,
        get32-put32 (16 + length p.body) (omega arith),
        get32-put32 p.command_id v.command_fits,
        get32-put32 p.status v.status_fits,
        get32-put32 p.sequence_id v.sequence_fits,
      )
      (read_body_fits p.command_id p.status p.sequence_id p.body rest small)

read_body-got :
    (len command status sequence : ℕ) (bs : List ℕ) {p : Pdu} {rest : List ℕ}
    → read_body len command status sequence bs ≡ got p rest
    → (p ≡ record {
      len = len;
      command_id = command;
      status = status;
      sequence_id = sequence;
      body = take (len - 16) bs;
    })
      × (rest ≡ drop (len - 16) bs)
      × (16 ≤ len)
      × (len ≤ 1024 * 1024)
      × (len - 16 ≤ length bs)
unfolding read_body
read_body-got len command status sequence bs h = ground arith

-- A unit that is read from bytes has a body as long as its length field says, at most a megabyte in
-- all, and writing it again gives the bytes that were taken off the stream.
pub write-read_pdu :
    (bs : List ℕ) (p : Pdu) (rest : List ℕ)
    → IsBytes bs
    → read_pdu bs ≡ got p rest
    → (p.len ≡ 16 + length p.body) × (p.len ≤ 1024 * 1024) × (write_pdu p ++ rest ≡ bs)
unfolding read_pdu write_pdu
write-read_pdu (a ∷ b ∷ c ∷ d ∷ e ∷ f ∷ g ∷ h ∷ i ∷ j ∷ k ∷ l ∷ m ∷ n ∷ o ∷ q ∷ bs) p rest v e0 =
    let len = get32 a b c d in
    let (same, r, low, high, fit) =
      read_body-got len (get32 e f g h) (get32 i j k l) (get32 m n o q) bs e0 in
    let size : length (take (len - 16) bs) ≡ len - 16 = omega (arith, length-take (len - 16) bs) in
    let sum : 16 + length (take (len - 16) bs) ≡ len = omega (arith, size) in
    let whole : len % 2 ^ 32 ≡ len = omega arith in
    subst⁻¹
      (λ (x : Pdu).
        (x.len ≡ 16 + length x.body)
        × (x.len ≤ 1024 * 1024)
        × (write_pdu x ++ rest
            ≡ (a ∷ b ∷ c ∷ d ∷ e ∷ f ∷ g ∷ h ∷ i ∷ j ∷ k ∷ l ∷ m ∷ n ∷ o ∷ q ∷ bs)))
      same
      (
        sym sum,
        high,
        rw (
          sum,
          whole,
          put32-get32 a b c d v.0 v.1.0 v.1.1.0 v.1.1.1.0,
          put32-get32 e f g h v.1.1.1.1.0 v.1.1.1.1.1.0 v.1.1.1.1.1.1.0 v.1.1.1.1.1.1.1.0,
          put32-get32 i j k l v.1.1.1.1.1.1.1.1.0 v.1.1.1.1.1.1.1.1.1.0 v.1.1.1.1.1.1.1.1.1.1.0
              v.1.1.1.1.1.1.1.1.1.1.1.0,
          put32-get32 m n o q v.1.1.1.1.1.1.1.1.1.1.1.1.0 v.1.1.1.1.1.1.1.1.1.1.1.1.1.0
              v.1.1.1.1.1.1.1.1.1.1.1.1.1.1.0 v.1.1.1.1.1.1.1.1.1.1.1.1.1.1.1.0,
          r,
          take-append-drop (len - 16) bs,
        ),
      )
write-read_pdu _ p rest v e0 = absurd (cc)
