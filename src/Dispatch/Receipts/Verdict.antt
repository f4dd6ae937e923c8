-- ===== src/Dispatch/Receipts/Verdict.antt =====
-- What a final aggregate of `aggregateDLR` in internal/dispatch/dispatcher.go says of the segments.
use mysmpp.Base.{
  ℕ, ℤ, pos, negsuc, zero, suc, ◌≡◌, ◌≢◌, ◌⊎◌, ◌≤◌, ◌<◌, ◌++◌, ◌∙◌, ◌&&◌, List, [], ◌∷◌, All,
  All-imp, Text, codes, Bool-cases, and-true, inl, inr, ap, sym, refl, arith, true, false, lez,
  length, nat_eqb, nat_eqb_iff, not, pos_part, is_positive, text_eqb, text_eqb_iff, get_elem?, some,
}
use mathlib.Core.Path.{subst⁻¹}
use mysmpp.Store.Types.{Pending}
use mysmpp.Dispatch.Receipts.{
  DlrAggregate, aggregate_dlr, dlr_failure_rank, has_index, is_final_dlr_state, is_final_state, see,
}
use mysmpp.Dispatch.Receipts.Aggregate.{Worst, aggregate_dlr-IsFinal, seen_from}

-- The states in which a message stays.
abbrev pub IsFinalName : Text → Type 0
IsFinalName s =
    (s ≡ codes "DELIVRD")
    ⊎ ((s ≡ codes "EXPIRED")
        ⊎ ((s ≡ codes "DELETED")
            ⊎ ((s ≡ codes "UNDELIV") ⊎ ((s ≡ codes "REJECTD") ⊎ (s ≡ codes "UNKNOWN")))))

-- The states of a failure, the worst first.
abbrev pub failures : List Text
failures =
    codes "REJECTD" ∷ codes "UNDELIV" ∷ codes "EXPIRED" ∷ codes "DELETED" ∷ codes "UNKNOWN" ∷ []

-- The state is none of these.
abbrev pub IsNoneOf : List Text → Text → Type 0
IsNoneOf names s = All (λ name. s ≢ name) names

-- No number stands in the list twice.
abbrev pub IsDistinct : List ℕ → Type 0
IsDistinct [] = Unit
IsDistinct (k ∷ ks) = All (λ j. j ≢ k) ks × IsDistinct ks

-- A segment of the list has the index.
abbrev pub HasSegment : List Pending → ℕ → Type 0
HasSegment [] k = ⊥
HasSegment (p ∷ ps) k = (p.segment_index ≡ pos k) ⊎ HasSegment ps k

is_final_state-IsFinalName : (s : Text) → is_final_state s ≡ true → IsFinalName s
unfolding is_final_state
is_final_state-IsFinalName s h = ground (
  arith,
  text_eqb_iff s (codes "DELIVRD"),
  text_eqb_iff s (codes "EXPIRED"),
  text_eqb_iff s (codes "DELETED"),
  text_eqb_iff s (codes "UNDELIV"),
  text_eqb_iff s (codes "REJECTD"),
  text_eqb_iff s (codes "UNKNOWN"),
)

-- A state with a rank below that of a failure is not this failure.
no_worse : (s name : Text) (n : ℕ) → dlr_failure_rank s ≤ n → n < dlr_failure_rank name → s ≢ name
no_worse s name n low high e = omega (arith, low, high, ap dlr_failure_rank e)

-- Where a state stands among the failures, by its rank, and what no state of a rank as low is.
abbrev Placed : Text → Type 0
Placed s =
    (before : List Text) × (after : List Text) × (failures ≡ before ++ (s ∷ after))
    × ((t : Text) → dlr_failure_rank t ≤ dlr_failure_rank s → IsNoneOf before t)

Placed-named : (name s : Text) → text_eqb s name ≡ true → Placed name → Placed s
Placed-named name s h v = subst⁻¹ Placed ((text_eqb_iff s name).0 h) v

rejectd-Placed : Placed (codes "REJECTD")
unfolding dlr_failure_rank
rejectd-Placed = (
  [],
  codes "UNDELIV" ∷ codes "EXPIRED" ∷ codes "DELETED" ∷ codes "UNKNOWN" ∷ [],
  refl,
  λ t h. tt,
)

undeliv-Placed : Placed (codes "UNDELIV")
unfolding dlr_failure_rank
undeliv-Placed = (
  codes "REJECTD" ∷ [],
  codes "EXPIRED" ∷ codes "DELETED" ∷ codes "UNKNOWN" ∷ [],
  refl,
  λ t h. (no_worse t _ 5 h (omega arith), tt),
)

expired-Placed : Placed (codes "EXPIRED")
unfolding dlr_failure_rank
expired-Placed = (
  codes "REJECTD" ∷ codes "UNDELIV" ∷ [],
  codes "DELETED" ∷ codes "UNKNOWN" ∷ [],
  refl,
  λ t h. (no_worse t _ 4 h (omega arith), (no_worse t _ 4 h (omega arith), tt)),
)

deleted-Placed : Placed (codes "DELETED")
unfolding dlr_failure_rank
deleted-Placed = (
  codes "REJECTD" ∷ codes "UNDELIV" ∷ codes "EXPIRED" ∷ [],
  codes "UNKNOWN" ∷ [],
  refl,
  λ t h. (
    no_worse t _ 3 h (omega arith),
    (no_worse t _ 3 h (omega arith), (no_worse t _ 3 h (omega arith), tt)),
  ),
)

unknown-Placed : Placed (codes "UNKNOWN")
unfolding dlr_failure_rank
unknown-Placed = (
  codes "REJECTD" ∷ codes "UNDELIV" ∷ codes "EXPIRED" ∷ codes "DELETED" ∷ [],
  [],
  refl,
  λ t h. (
    no_worse t _ 2 h (omega arith),
    (
      no_worse t _ 2 h (omega arith),
      (no_worse t _ 2 h (omega arith), (no_worse t _ 2 h (omega arith), tt)),
    ),
  ),
)

failing-Placed : (s : Text) → 0 < dlr_failure_rank s → Placed s
unfolding dlr_failure_rank
failing-Placed s h = elim (Bool-cases (text_eqb s (codes "REJECTD"))) [
  | inl y0 ↦ Placed-named (codes "REJECTD") s y0 rejectd-Placed
  | inr n0 ↦ elim (Bool-cases (text_eqb s (codes "UNDELIV"))) [
    | inl y1 ↦ Placed-named (codes "UNDELIV") s y1 undeliv-Placed
    | inr n1 ↦ elim (Bool-cases (text_eqb s (codes "EXPIRED"))) [
      | inl y2 ↦ Placed-named (codes "EXPIRED") s y2 expired-Placed
      | inr n2 ↦ elim (Bool-cases (text_eqb s (codes "DELETED"))) [
        | inl y3 ↦ Placed-named (codes "DELETED") s y3 deleted-Placed
        | inr n3 ↦ elim (Bool-cases (text_eqb s (codes "UNKNOWN"))) [
          | inl y4 ↦ Placed-named (codes "UNKNOWN") s y4 unknown-Placed
          | inr n4 ↦ absurd (omega (arith, rw (dlr_failure_rank, n0, n1, n2, n3, n4) at h))
        ]
      ]
    ]
  ]
]

unranked-IsNoneOf : (s : Text) → dlr_failure_rank s ≡ 0 → IsNoneOf failures s
unfolding dlr_failure_rank
unranked-IsNoneOf s h = (
  no_worse s _ 0 (omega (arith, h)) (omega arith),
  (
    no_worse s _ 0 (omega (arith, h)) (omega arith),
    (
      no_worse s _ 0 (omega (arith, h)) (omega arith),
      (
        no_worse s _ 0 (omega (arith, h)) (omega arith),
        (no_worse s _ 0 (omega (arith, h)) (omega arith), tt),
      ),
    ),
  ),
)

-- What a round adds.
has_index-absent : (k : ℕ) (ks : List ℕ) → has_index k ks ≡ false → All (λ j. j ≢ k) ks
has_index-absent k [] h = tt
has_index-absent k (j ∷ js) h = elim (Bool-cases (nat_eqb j k)) [
  | inl same ↦ absurd (cc (rw same at h))
  | inr other ↦
      (λ e. absurd (cc (sym other ∙ (nat_eqb_iff j k).1 e)), has_index-absent k js (rw other at h))
]

see-IsDistinct : (i : ℤ) (seen : List ℕ) → IsDistinct seen → IsDistinct (see i seen)
see-IsDistinct i seen v = elim (Bool-cases (is_positive i && not (has_index (pos_part i) seen))) [
  | inr old ↦ rw old v
  | inl new ↦ rw new (has_index-absent (pos_part i) seen (ground arith), v)
]

seen_from-IsDistinct :
    (ps : List Pending) (seen : List ℕ) → IsDistinct seen → IsDistinct (seen_from seen ps)
seen_from-IsDistinct [] seen v = v
seen_from-IsDistinct (p ∷ ps) seen v =
    seen_from-IsDistinct ps (see p.segment_index seen) (see-IsDistinct p.segment_index seen v)

positive_pos_part : (i : ℤ) → is_positive i ≡ true → (i ≡ pos (pos_part i)) × (0 < pos_part i)
positive_pos_part (pos zero) h = absurd (cc)
positive_pos_part (pos (suc n)) h = (refl, omega arith)
positive_pos_part (negsuc n) h = absurd (cc)

see-All :
    (P : ℕ → Type 0) (i : ℤ) (seen : List ℕ)
    → ((k : ℕ) → 0 < k → i ≡ pos k → P k)
    → All P seen
    → All P (see i seen)
see-All P i seen h v = elim (Bool-cases (is_positive i && not (has_index (pos_part i) seen))) [
  | inr old ↦ rw old v
  | inl new ↦
      let (e, low) = positive_pos_part i (and-true _ _ new).0 in rw new (h (pos_part i) low e, v)
]

seen_from-All :
    (P : ℕ → Type 0) (ps : List Pending) (seen : List ℕ)
    → All (λ p. (k : ℕ) → 0 < k → p.segment_index ≡ pos k → P k) ps
    → All P seen
    → All P (seen_from seen ps)
seen_from-All P [] seen h v = v
seen_from-All P (p ∷ ps) seen h v =
    seen_from-All P ps (see p.segment_index seen) h.1 (see-All P p.segment_index seen h.0 v)

each-HasSegment :
    (ps : List Pending)
    → All (λ p. (k : ℕ) → 0 < k → p.segment_index ≡ pos k → (0 < k) × HasSegment ps k) ps
each-HasSegment [] = tt
each-HasSegment (p ∷ ps) = (
  λ k low e. (low, inl e),
  All-imp _ _ (λ q h k low e. let (a, b) = h k low e in (a, inr b)) ps (each-HasSegment ps),
)

module _ (normal : Text → Text) where
  -- The state and the code are those of a segment whose state is a failure, and no segment has one of
  -- the failures that are worse.
  pub record IsWorst (segments : List Pending) (a : DlrAggregate) : Type 0 where
    pub index : ℕ
    pub segment : Pending
    pub there : get_elem? segments index ≡ some segment
    pub state : a.state ≡ normal segment.dlr_state
    pub code : a.error_code ≡ segment.dlr_error_code
    pub worse : List Text
    pub lesser : List Text
    pub place : failures ≡ worse ++ (a.state ∷ lesser)
    pub worst : All (λ p. IsNoneOf worse (normal p.dlr_state)) segments

  -- A final verdict on the segments.
  pub record IsVerdict (segments : List Pending) (a : DlrAggregate) : Type 0 where
    pub finals : All (λ p. IsFinalName (normal (normal p.dlr_state))) segments
    pub indices : List ℕ
    pub distinct : IsDistinct indices
    pub received : All (λ k. (0 < k) × HasSegment segments k) indices
    pub complete : All (λ p. lez p.segment_count (pos (length indices)) ≡ true) segments
    pub verdict :
        ((a.state ≡ codes "DELIVRD")
          × (a.error_code ≡ pos 0)
          × All (λ p. IsNoneOf failures (normal p.dlr_state)) segments)
        ⊎ IsWorst segments a

  Worst-IsWorst :
      (segments : List Pending) (a : DlrAggregate) → Worst normal segments a → IsWorst segments a
  Worst-IsWorst segments a v =
      let (worse, lesser, place, none_worse) =
        failing-Placed (normal v.segment.dlr_state) v.fails in
      record {
        index = v.index;
        segment = v.segment;
        there = v.there;
        state = v.state;
        code = v.code;
        worse = worse;
        lesser = lesser;
        place = place ∙ ap (λ s. worse ++ (s ∷ lesser)) (sym v.state);
        worst = All-imp _ _ (λ p low. none_worse (normal p.dlr_state) low) segments v.worst;
      }

  -- An aggregate is final only if every segment has one of the six final states, and there are as many
  -- different positive indices among the segments as any of them counts. Its state and code are then
  -- those of a segment that failed, where no segment has a worse failure, from REJECTD over UNDELIV,
  -- EXPIRED and DELETED to UNKNOWN; or DELIVRD and 0, if no segment has a failure.
  pub aggregate_dlr-IsVerdict :
      (segments : List Pending)
      → (aggregate_dlr normal segments).final ≡ true
      → IsVerdict segments (aggregate_dlr normal segments)
  unfolding is_final_dlr_state
  aggregate_dlr-IsVerdict segments h =
      let v = aggregate_dlr-IsFinal normal segments h in
      record {
        finals = All-imp _ _ (λ p f. is_final_state-IsFinalName _ f) segments v.finals;
        indices = seen_from [] segments;
        distinct = seen_from-IsDistinct segments [] tt;
        received =
            seen_from-All (λ k. (0 < k) × HasSegment segments k) segments []
              (each-HasSegment segments) tt;
        complete = v.complete;
        verdict = elim v.verdict [
          | inl (s, c, zeros) ↦
              inl
                (s, c, All-imp _ _ (λ p z. unranked-IsNoneOf (normal p.dlr_state) z) segments zeros)
          | inr w ↦ inr (Worst-IsWorst segments _ w)
        ];
      }
