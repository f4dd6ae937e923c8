-- ===== src/Sms/Split/Parts.antt =====
-- The parts of `Split` (internal/message/message.go), against the sizes and limits of the encodings.
use mysmpp.Base.{
  ℕ, ◌≡◌, ◌≢◌, ◌⊎◌, ◌+◌, ◌≤◌, ◌<◌, ◌^◌, ◌++◌, ◌∷◌, ◌∙◌, List, [], All, Bool-cases, ap, arith, inl,
  inr, is_some, leb, leb→le, leb→lt, length, nat_eqb, nat_eqb_iff, refl, suc, sym, true, false,
}
use mathlib.Core.Path.{subst}
use mysmpp.Sms.Gsm7.{ext_code, code_of, ext_runes}
use mysmpp.Sms.Utf8.{runes, string_of}
use mysmpp.Sms.Split.{
  Encoding, Segment, auto, gsm7, ucs2, eight_bit, other, chunks_of, concat_limit, gsm7_size,
  number_from, resolve, rune_size, single_limit, split, text_len, ucs2_size, units,
}
use mysmpp.Sms.Split.Cut.{Cut, no_piece, piece, chunks_of-Cut}

-- The characters that take an escape in the GSM alphabet: form feed, ^ { } \ [ ~ ] | and the euro.
abbrev pub escaped_runes : List ℕ
escaped_runes = 0x0C ∷ 0x5E ∷ 0x7B ∷ 0x7D ∷ 0x5C ∷ 0x5B ∷ 0x7E ∷ 0x5D ∷ 0x7C ∷ 0x20AC ∷ []

-- What a character counts: two with an escape in GSM, two above the basic plane in UCS-2, else one.
abbrev pub IsSize : Encoding → ℕ → ℕ → Type 0
IsSize gsm7 r n =
    ((n ≡ 1) × All (λ x. r ≢ x) escaped_runes) ⊎ ((n ≡ 2) × ¬ All (λ x. r ≢ x) escaped_runes)
IsSize ucs2 r n = ((n ≡ 1) × (r < 2 ^ 16)) ⊎ ((n ≡ 2) × (2 ^ 16 ≤ r))
IsSize _ r n = n ≡ 1

-- What a text counts.
pub data HasUnits (e : Encoding) : List ℕ → ℕ → Type 0 where
  no_rune : HasUnits e [] 0
  rune :
      (n : ℕ) {r m : ℕ} {rs : List ℕ} → IsSize e r n → HasUnits e rs m → HasUnits e (r ∷ rs) (n + m)

-- The limits of a text that is sent whole, and of a part.
abbrev pub whole_limit : Encoding → ℕ
whole_limit eight_bit = 140
whole_limit ucs2 = 70
whole_limit _ = 160

abbrev pub part_limit : Encoding → ℕ
part_limit eight_bit = 134
part_limit ucs2 = 67
part_limit _ = 153

-- The segments hold consecutive pieces of the runes, each within the limit.
pub data Pieces (e : Encoding) (limit : ℕ) : List ℕ → List Segment → Type 0 where
  finished : Pieces e limit [] []
  next :
      (front rest : List ℕ) (n : ℕ) {rs : List ℕ} {x : Segment} {xs : List Segment}
      → rs ≡ front ++ rest
      → x.text ≡ string_of front
      → HasUnits e front n
      → n ≤ limit
      → Pieces e limit rest xs
      → Pieces e limit rs (x ∷ xs)

-- The segments carry the number of all, and count from `i + 1`.
abbrev pub Numbered : ℕ → ℕ → List Segment → Type 0
Numbered total i [] = Unit
Numbered total i (x ∷ xs) = (x.part ≡ i + 1) × (x.total ≡ total) × Numbered total (i + 1) xs

number_from-Numbered :
    (ref total i : ℕ) (cs : List (List ℕ)) → Numbered total i (number_from ref total i cs)
unfolding number_from
number_from-Numbered ref total i [] = tt
number_from-Numbered ref total i (c ∷ cs) = (refl, refl, number_from-Numbered ref total (i + 1) cs)

length-number_from :
    (ref total i : ℕ) (cs : List (List ℕ)) → length (number_from ref total i cs) ≡ length cs
unfolding number_from
length-number_from ref total i [] = refl
length-number_from ref total i (c ∷ cs) = ap suc (length-number_from ref total (i + 1) cs)

abbrev seconds : List (ℕ × ℕ) → List ℕ
seconds [] = []
seconds ((code, x) ∷ rest) = x ∷ seconds rest

code_of_cases :
    (table : List (ℕ × ℕ)) (r : ℕ)
    → ((is_some (code_of table r) ≡ false) × All (λ x. r ≢ x) (seconds table))
      ⊎ ((is_some (code_of table r) ≡ true) × ¬ All (λ x. r ≢ x) (seconds table))
unfolding code_of
code_of_cases [] r = inl (refl, tt)
code_of_cases ((code, x) ∷ rest) r = elim (Bool-cases (nat_eqb x r)) [
  | inl same ↦ inr (rw same refl, λ none_is. none_is.0 (sym ((nat_eqb_iff x r).0 same)))
  | inr apart ↦ elim (code_of_cases rest r) [
    | inl (e, none_is) ↦
        inl (rw apart e, (λ h. absurd (cc (sym apart ∙ (nat_eqb_iff x r).1 (sym h))), none_is))
    | inr (e, some_is) ↦ inr (rw apart e, λ none_is. some_is none_is.1)
  ]
]

gsm7_size-IsSize : (r : ℕ) → IsSize gsm7 r (gsm7_size r)
unfolding gsm7_size ext_code
gsm7_size-IsSize r = elim (code_of_cases ext_runes r) [
  | inl (e, none_is) ↦ rw e (inl (refl, none_is))
  | inr (e, some_is) ↦ rw e (inr (refl, some_is))
]

ucs2_size-IsSize : (r : ℕ) → IsSize ucs2 r (ucs2_size r)
unfolding ucs2_size
ucs2_size-IsSize r = ground arith

rune_size-IsSize : (e : Encoding) (r : ℕ) → IsSize e r (rune_size e r)
unfolding rune_size
rune_size-IsSize gsm7 r = gsm7_size-IsSize r
rune_size-IsSize ucs2 r = ucs2_size-IsSize r
rune_size-IsSize auto r = refl
rune_size-IsSize eight_bit r = refl
rune_size-IsSize other r = refl

units-HasUnits : (e : Encoding) (rs : List ℕ) → HasUnits e rs (units (rune_size e) rs)
unfolding units
units-HasUnits e [] = no_rune
units-HasUnits e (r ∷ rs) = rune (rune_size e r) (rune_size-IsSize e r) (units-HasUnits e rs)

number_from-Pieces :
    (e : Encoding) (limit ref total i : ℕ) {rs : List ℕ} {cs : List (List ℕ)}
    → Cut (rune_size e) limit rs cs
    → Pieces e limit rs (number_from ref total i cs)
unfolding number_from
number_from-Pieces e limit ref total i no_piece = finished
number_from-Pieces e limit ref total i (piece front rest same text low v) =
    next front rest (units (rune_size e) front) same text (units-HasUnits e front) low
      (number_from-Pieces e limit ref total (i + 1) v)

single_limit_lem : (e : Encoding) → single_limit e ≡ whole_limit e
unfolding single_limit
single_limit_lem auto = refl
single_limit_lem gsm7 = refl
single_limit_lem ucs2 = refl
single_limit_lem eight_bit = refl
single_limit_lem other = refl

concat_limit_lem : (e : Encoding) → concat_limit e ≡ part_limit e
unfolding concat_limit
concat_limit_lem auto = refl
concat_limit_lem gsm7 = refl
concat_limit_lem ucs2 = refl
concat_limit_lem eight_bit = refl
concat_limit_lem other = refl

-- How a text is sent: whole, or in parts.
abbrev pub IsSent : Encoding → List ℕ → List Segment → Type 0
IsSent e text segments =
    (n : ℕ) × HasUnits e (runes text) n
    × (((n ≤ whole_limit e)
          × (segments ≡ record { reference = 0; part = 1; total = 1; text = text; udh = [] } ∷ []))
        ⊎ ((whole_limit e < n)
            × Pieces e (part_limit e) (runes text) segments
            × Numbered (length segments) 0 segments))

-- A text is one segment that holds it, if what it counts in its encoding is within 160, or 70 in UCS-2,
-- or 140 in 8 bit. Otherwise the parts hold consecutive pieces of its runes, and none counts more than
-- 153, or 67, or 134; they are numbered from 1, and each carries their number. A rune counts two if it
-- needs an escape in the GSM alphabet, or stands above the basic plane in UCS-2, and else one.
pub split_parts :
    (ref : ℕ) (encoding : Encoding) (text : List ℕ)
    → IsSent (resolve encoding text) text (split ref encoding text)
unfolding split
split_parts ref encoding text =
    let e = resolve encoding text in
    let cs = chunks_of e text in
    (
      text_len e text,
      units-HasUnits e (runes text),
      elim (Bool-cases (leb (text_len e text) (single_limit e))) [
        | inl short ↦ inl (omega (arith, leb→le _ _ short, single_limit_lem e), rw short refl)
        | inr long ↦ inr (
          omega (arith, leb→lt _ _ long, single_limit_lem e),
          rw long (
              subst (λ n. Pieces e n (runes text) (number_from ref (length cs) 0 cs))
                (concat_limit_lem e)
                (number_from-Pieces e (concat_limit e) ref (length cs) 0 (chunks_of-Cut e text))),
          rw (long, length-number_from ref (length cs) 0 cs)
              (number_from-Numbered ref (length cs) 0 cs),
        )
      ],
    )
