-- ===== src/Store/Pendings/Filed.antt =====
-- The map of pending receipts of internal/store/memory.go and the keys of its records.
use mathlib.Core.Path.{subst}
use mysmpp.Base.{
  ℕ, ◌≡◌, Bool, true, false, [], ◌∷◌, All, some, Text, arith, refl, inl, inr, text_eq, text_eqb,
  text_eqb_iff, Dict, IsDict, lookup, insert, delete, retain, if◌then◌else◌, Bool-cases,
  insert-IsDict, retain-IsDict, delete-IsDict, ℤ, ap,
}
use mysmpp.Store.Types.{Pending}
use mysmpp.Store.Pendings.{IsFiled, normalize_pending, at_least_one}

All-retain :
    (keep : Text → Pending → Bool) (m : Dict Text Pending)
    → All IsFiled m
    → All IsFiled (retain keep m)
unfolding retain
All-retain keep [] h = tt
All-retain keep ((k, p) ∷ m) h = go (keep k p) (All-retain keep m h.1)
  where
    go :
        (stays : Bool)
        → All IsFiled (retain keep m)
        → All IsFiled (elim stays [ true ↦ (k, p) ∷ retain keep m | false ↦ retain keep m ])
    go true rest = (h.0, rest)
    go false rest = rest

All-insert :
    (key : Text) (v : Pending) (m : Dict Text Pending)
    → IsFiled (key, v)
    → All IsFiled m
    → All IsFiled (insert key v m)
unfolding insert
All-insert key v [] f h = (f, tt)
All-insert key v ((k, p) ∷ m) f h = go (text_eqb k key) (All-insert key v m f h.1)
  where
    go :
        (same : Bool)
        → All IsFiled (insert key v m)
        → All IsFiled (if same then (key, v) ∷ m else (k, p) ∷ insert key v m)
    go true rest = (f, h.1)
    go false rest = (h.0, rest)

pub lookup-IsFiled :
    (key : Text) (p : Pending) (m : Dict Text Pending)
    → All IsFiled m
    → lookup key m ≡ some p
    → IsFiled (key, p)
unfolding lookup
lookup-IsFiled key p [] h hit = absurd (cc)
lookup-IsFiled key p ((k, q) ∷ m) h hit = elim (Bool-cases (text_eqb k key)) [
  | inl same ↦
      let e : k ≡ key = (text_eqb_iff k key).0 same in
      let q_p : q ≡ p = ground arith in
      subst (λ x. IsFiled (x, p)) e (subst (λ x. IsFiled (k, x)) q_p h.0)
  | inr other ↦ lookup-IsFiled key p m h.1 (ground arith)
]

All-delete : (key : Text) (m : Dict Text Pending) → All IsFiled m → All IsFiled (delete key m)
unfolding delete
All-delete key [] h = tt
All-delete key ((k, p) ∷ m) h = go (text_eqb k key) (All-delete key m h.1)
  where
    go :
        (same : Bool)
        → All IsFiled (delete key m)
        → All IsFiled (if same then delete key m else (k, p) ∷ delete key m)
    go true rest = rest
    go false rest = (h.0, rest)

-- Each key once, and each record normalized under its own key.
pub record IsReceipts (m : Dict Text Pending) : Type 0 where
  pub dict : IsDict m
  pub filed : All IsFiled m

pub nil-IsReceipts : IsReceipts []
nil-IsReceipts = record { dict = tt; filed = tt }

pub retain-IsReceipts :
    (keep : Text → Pending → Bool) (m : Dict Text Pending)
    → IsReceipts m
    → IsReceipts (retain keep m)
retain-IsReceipts keep m v = record {
  dict = retain-IsDict keep m v.dict;
  filed = All-retain keep m v.filed;
}

pub delete-IsReceipts :
    (key : Text) (m : Dict Text Pending) → IsReceipts m → IsReceipts (delete key m)
delete-IsReceipts key m v = record {
  dict = delete-IsDict key m v.dict;
  filed = All-delete key m v.filed;
}

pub insert-IsReceipts :
    (key : Text) (p : Pending) (m : Dict Text Pending)
    → IsFiled (key, p)
    → IsReceipts m
    → IsReceipts (insert key p m)
insert-IsReceipts key p m filed v = record {
  dict = insert-IsDict key p m v.dict;
  filed = All-insert key p m filed v.filed;
}

-- A normal record stays as it is.
at_least_one-twice : (n : ℤ) → at_least_one (at_least_one n) ≡ at_least_one n
unfolding at_least_one
at_least_one-twice n = ground arith

pub normalize_pending-twice :
    (p : Pending) → normalize_pending (normalize_pending p) ≡ normalize_pending p
unfolding normalize_pending
normalize_pending-twice p =
    rw (at_least_one-twice p.segment_index, at_least_one-twice p.segment_count) refl

-- A receipt's own fields do not matter.
pub set_dlr-IsFiled :
    (ready delivered : Bool) (state : Text) (code : ℤ) (done_at : ℕ) (k : Text) (p : Pending)
    → IsFiled (k, p)
    → IsFiled (
      k,
      record p {
        dlr_ready = ready;
        dlr_delivered = delivered;
        dlr_state = state;
        dlr_error_code = code;
        dlr_done_at = done_at;
      },
    )
unfolding normalize_pending
set_dlr-IsFiled ready delivered state code done_at k p f = (f.0, ap set f.1)
  where
    set : Pending → Pending
    set q = record q {
      dlr_ready = ready;
      dlr_delivered = delivered;
      dlr_state = state;
      dlr_error_code = code;
      dlr_done_at = done_at;
    }
