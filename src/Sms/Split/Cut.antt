-- ===== src/Sms/Split/Cut.antt =====
-- The chunks of internal/message/message.go: consecutive pieces of the runes of a text.
use mysmpp.Base.{
  ℕ, ◌≡◌, ◌≢◌, ◌+◌, ◌≤◌, ◌<◌, ◌++◌, ◌∷◌, ◌&&◌, ◌∙◌, List, [], Bool-cases, ap, append-nil,
  append_assoc, arith, drop, inl, inr, length, length-drop, length-take_le, ltb, refl, suc, sym,
  take, take-append-drop, zero,
}
use mathlib.Core.Path.{subst, subst⁻¹}
use mysmpp.Sms.Utf8.{runes, encode_rune, string_of, string_of-append}
use mysmpp.Sms.Split.{
  Encoding, auto, gsm7, ucs2, eight_bit, other, chunk_loop, chunk_runes, chunks_of, concat_limit,
  gsm7_size, ucs2_size, rune_size, units,
}

-- The strings are those of consecutive pieces of the runes, and no piece is larger than the limit.
pub data Cut (size : ℕ → ℕ) (limit : ℕ) : List ℕ → List (List ℕ) → Type 0 where
  no_piece : Cut size limit [] []
  piece :
      (front rest : List ℕ) {rs c : List ℕ} {cs : List (List ℕ)}
      → rs ≡ front ++ rest
      → c ≡ string_of front
      → units size front ≤ limit
      → Cut size limit rest cs
      → Cut size limit rs (c ∷ cs)

-- The chunks one after the other.
abbrev pub glue : List (List ℕ) → List ℕ
glue [] = []
glue (c ∷ cs) = c ++ glue cs

pub glue-Cut :
    {size : ℕ → ℕ} {limit : ℕ} {rs : List ℕ} {cs : List (List ℕ)}
    → Cut size limit rs cs
    → glue cs ≡ string_of rs
unfolding string_of
glue-Cut no_piece = refl
glue-Cut (piece front rest {rs} {c} {cs} e s low v) =
    ap (λ x. x ++ glue cs) s
    ∙ ap (λ x. string_of front ++ x) (glue-Cut v)
    ∙ sym (string_of-append front rest)
    ∙ ap string_of (sym e)

units-append :
    (size : ℕ → ℕ) (xs ys : List ℕ) → units size (xs ++ ys) ≡ units size xs + units size ys
unfolding units
units-append size [] ys = omega arith
units-append size (x ∷ xs) ys = omega (arith, units-append size xs ys)

string_of-one :
    (done : List ℕ) (r : ℕ) → string_of (done ++ r ∷ []) ≡ string_of done ++ encode_rune r
unfolding string_of
string_of-one done r =
    string_of-append done (r ∷ []) ∙ ap (λ x. string_of done ++ x) (append-nil (encode_rune r))

encode_rune-given : (r : ℕ) → encode_rune r ≢ []
unfolding encode_rune
encode_rune-given r e = ground (arith, e)

-- Runes that encode to nothing are none.
string_of-nil : (rs : List ℕ) → string_of rs ≡ [] → rs ≡ []
unfolding string_of
string_of-nil [] e = refl
string_of-nil (r ∷ rs) e = absurd (go (encode_rune r) refl e)
  where
    go : (xs : List ℕ) → encode_rune r ≡ xs → xs ++ string_of rs ≡ [] → ⊥
    go [] h k = encode_rune-given r h
    go (x ∷ xs) h k = absurd (cc)

last_piece :
    (size : ℕ → ℕ) (limit : ℕ) (done chunk : List ℕ)
    → chunk ≡ string_of done
    → units size done ≤ limit
    → Cut size limit done (chunk_loop size limit [] chunk (units size done))
unfolding chunk_loop
last_piece size limit done [] e low =
    subst⁻¹ (λ d. Cut size limit d []) (string_of-nil done (sym e)) no_piece
last_piece size limit done (c ∷ cs) e low = piece done [] (sym (append-nil done)) e low no_piece

chunk_loop-Cut :
    (size : ℕ → ℕ) (limit : ℕ) (rs done chunk : List ℕ)
    → ((r : ℕ) → size r ≤ limit)
    → chunk ≡ string_of done
    → units size done ≤ limit
    → Cut size limit (done ++ rs) (chunk_loop size limit rs chunk (units size done))
unfolding chunk_loop units string_of
chunk_loop-Cut size limit [] done chunk small e low =
    subst⁻¹ (λ d. Cut size limit d (chunk_loop size limit [] chunk (units size done)))
      (append-nil done) (last_piece size limit done chunk e low)
chunk_loop-Cut size limit (r ∷ rs) done chunk small e low =
    elim (Bool-cases (ltb 0 (units size done) && ltb limit (units size done + size r))) [
      | inl full ↦
          rw (full, chunk_loop)
            (piece done (r ∷ rs) refl e low (
              subst (λ n. Cut size limit (r ∷ rs) (chunk_loop size limit rs (encode_rune r) n))
                (one r)
                (chunk_loop-Cut size limit rs (r ∷ []) (encode_rune r) small
                  (sym (string_of-one [] r)) (omega (arith, one r, small r)))))
      | inr room ↦
          let sum = units-append size done (r ∷ []) in
          rw (room, chunk_loop)
            (subst
              (λ d.
                Cut size limit d
                  (chunk_loop size limit rs (chunk ++ encode_rune r) (units size done + size r)))
              (append_assoc done (r ∷ []) rs)
              (subst
                (λ n.
                  Cut size limit ((done ++ r ∷ []) ++ rs)
                    (chunk_loop size limit rs (chunk ++ encode_rune r) n))
                (sum ∙ ap (λ k. units size done + k) (one r))
                (chunk_loop-Cut size limit rs (done ++ r ∷ []) (chunk ++ encode_rune r) small
                  (ap (λ x. x ++ encode_rune r) e ∙ sym (string_of-one done r))
                  (ground (arith, small r, sum, one r)))))
    ]
  where
    one : (r : ℕ) → size r + 0 ≡ size r
    one r = omega arith

units_ones : (rs : List ℕ) → units (λ r. 1) rs ≡ length rs
unfolding units
units_ones [] = refl
units_ones (r ∷ rs) = omega (arith, units_ones rs)

chunk_runes-Cut :
    (fuel limit : ℕ) (rs : List ℕ)
    → 0 < limit
    → length rs ≤ fuel
    → Cut (λ r. 1) limit rs (chunk_runes fuel limit rs)
unfolding chunk_runes
chunk_runes-Cut fuel limit [] low enough = no_piece
chunk_runes-Cut zero limit (r ∷ rs) low enough = absurd (omega arith)
chunk_runes-Cut (suc fuel) limit (r ∷ rs) low enough =
    piece (take limit (r ∷ rs)) (drop limit (r ∷ rs)) (sym (take-append-drop limit (r ∷ rs))) refl
      (omega (arith, units_ones (take limit (r ∷ rs)), length-take_le limit (r ∷ rs)))
      (chunk_runes-Cut fuel limit (drop limit (r ∷ rs)) low
        (omega (arith, length-drop limit (r ∷ rs))))

gsm7_size-le : (r : ℕ) → gsm7_size r ≤ 2
unfolding gsm7_size
gsm7_size-le r = ground arith

ucs2_size-le : (r : ℕ) → ucs2_size r ≤ 2
unfolding ucs2_size
ucs2_size-le r = ground arith

pub chunks_of-Cut :
    (e : Encoding) (text : List ℕ)
    → Cut (rune_size e) (concat_limit e) (runes text) (chunks_of e text)
unfolding chunks_of concat_limit rune_size units string_of
chunks_of-Cut gsm7 text =
    chunk_loop-Cut (rune_size gsm7) 153 (runes text) [] [] (λ r. omega (arith, gsm7_size-le r)) refl
      (omega arith)
chunks_of-Cut ucs2 text =
    chunk_loop-Cut (rune_size ucs2) 67 (runes text) [] [] (λ r. omega (arith, ucs2_size-le r)) refl
      (omega arith)
chunks_of-Cut auto text =
    chunk_runes-Cut (length (runes text)) 153 (runes text) (omega arith) (omega arith)
chunks_of-Cut eight_bit text =
    chunk_runes-Cut (length (runes text)) 134 (runes text) (omega arith) (omega arith)
chunks_of-Cut other text =
    chunk_runes-Cut (length (runes text)) 153 (runes text) (omega arith) (omega arith)
