-- ===== src/Dispatch/Receipts/Aggregate.antt =====
-- `aggregateDLR` of internal/dispatch/dispatcher.go against what it means for the segments.
use mysmpp.Base.{
  ℕ, ◌≡◌, ◌≤◌, ◌<◌, suc, true, false, ◌&&◌, List, [], ◌∷◌, All, All-imp, some, Text, codes, arith,
  refl, ap, ◌∙◌, ◌⊎◌, inl, inr, ℤ, pos, negsuc, lez, leb, ltb, nat_eqb, pos_part, length, get_elem?,
  Bool-cases, and-true, leb→le,
}
use mysmpp.Store.Types.{Pending}
use mysmpp.Dispatch.Receipts.{
  DlrAggregate, DlrScan, aggregate_dlr, conclude, dlr_failure_rank, first_scan, is_final_dlr_state,
  scan_segment, scan_segments, see,
}

-- The indices of the segments, each once.
abbrev pub seen_from : List ℕ → List Pending → List ℕ
seen_from seen [] = seen
seen_from seen (p ∷ ps) = seen_from (see p.segment_index seen) ps

module _ (normal : Text → Text) where
  -- The state of a segment as it is compared, and how bad it is.
  abbrev pub state_of : Pending → Text
  state_of p = normal p.dlr_state

  abbrev pub rank_of : Pending → ℕ
  rank_of p = dlr_failure_rank (state_of p)

  -- The segment at an index, whose state and code these are.
  pub record Found (segments : List Pending) (rank : ℕ) (state : Text) (code : ℤ) : Type 0 where
    pub index : ℕ
    pub segment : Pending
    pub there : get_elem? segments index ≡ some segment
    pub its_rank : rank ≡ rank_of segment
    pub its_state : state ≡ state_of segment
    pub its_code : code ≡ segment.dlr_error_code

  -- What a scan knows of the segments it has passed.
  record Scanned (segments : List Pending) (a r : DlrScan) : Type 0 where
    finals :
        r.final ≡ true
        → (a.final ≡ true) × All (λ p. is_final_dlr_state normal (state_of p) ≡ true) segments
    counts : All (λ p. lez p.segment_count (pos r.expected) ≡ true) segments
    expects : a.expected ≤ r.expected
    seen : r.seen ≡ seen_from a.seen segments
    ranks : All (λ p. rank_of p ≤ r.failure_rank) segments
    rises : a.failure_rank ≤ r.failure_rank
    source :
        ((r.failure_rank ≡ a.failure_rank) × (r.state ≡ a.state) × (r.error_code ≡ a.error_code))
        ⊎ Found segments r.failure_rank r.state r.error_code

  lez_mono : (c : ℤ) (m n : ℕ) → lez c (pos m) ≡ true → m ≤ n → lez c (pos n) ≡ true
  lez_mono (pos k) m n h low = ground arith
  lez_mono (negsuc k) m n h low = refl

  lez-pos_part : (c : ℤ) → lez c (pos (pos_part c)) ≡ true
  lez-pos_part (pos k) = ground arith
  lez-pos_part (negsuc k) = refl

  lez-false : (c : ℤ) (m : ℕ) → lez c (pos m) ≡ false → m ≤ pos_part c
  lez-false (pos k) m h = ground arith
  lez-false (negsuc k) m h = absurd (cc)

  -- One round.
  expected_after :
      (p : Pending) (a : DlrScan)
      → lez p.segment_count (pos (scan_segment normal p a).expected) ≡ true
  unfolding scan_segment
  expected_after p a = elim (Bool-cases (lez p.segment_count (pos a.expected))) [
    | inl low ↦ rw (low, low) refl
    | inr high ↦ rw high (lez-pos_part p.segment_count)
  ]

  expected_rises : (p : Pending) (a : DlrScan) → a.expected ≤ (scan_segment normal p a).expected
  unfolding scan_segment
  expected_rises p a = elim (Bool-cases (lez p.segment_count (pos a.expected))) [
    | inl low ↦ rw low (omega arith)
    | inr high ↦ rw high (lez-false p.segment_count a.expected high)
  ]

  -- What a round does to the worst state.
  round_source :
      (p : Pending) (a : DlrScan)
      → (((scan_segment normal p a).failure_rank ≡ a.failure_rank)
          × ((scan_segment normal p a).state ≡ a.state)
          × ((scan_segment normal p a).error_code ≡ a.error_code)
          × (rank_of p ≤ a.failure_rank))
        ⊎ (((scan_segment normal p a).failure_rank ≡ rank_of p)
            × ((scan_segment normal p a).state ≡ state_of p)
            × ((scan_segment normal p a).error_code ≡ p.dlr_error_code)
            × (a.failure_rank ≤ rank_of p))
  unfolding scan_segment
  round_source p a = elim (Bool-cases (ltb a.failure_rank (rank_of p))) [
    | inl worse ↦ inr (rw worse refl, rw worse refl, rw worse refl, ground arith)
    | inr fine ↦ inl (rw fine refl, rw fine refl, rw fine refl, ground arith)
  ]

  further :
      (p : Pending) (ps : List Pending) {rank : ℕ} {state : Text} {code : ℤ}
      → Found ps rank state code
      → Found (p ∷ ps) rank state code
  further p ps f = record {
    index = suc f.index;
    segment = f.segment;
    there = f.there;
    its_rank = f.its_rank;
    its_state = f.its_state;
    its_code = f.its_code;
  }

  scan_segments-Scanned :
      (ps : List Pending) (a : DlrScan) → Scanned ps a (scan_segments normal ps a)
  unfolding scan_segments scan_segment
  scan_segments-Scanned [] a = record {
    finals = λ h. (h, tt);
    counts = tt;
    expects = omega arith;
    seen = refl;
    ranks = tt;
    rises = omega arith;
    source = inl (refl, refl, refl);
  }
  scan_segments-Scanned (p ∷ ps) a =
      let b = scan_segment normal p a in
      let v = scan_segments-Scanned ps b in
      record {
        finals = λ h.
            let (here, rest) = v.finals h in
            let (before, now) = and-true a.final _ here in (before, (now, rest));
        counts = (lez_mono p.segment_count _ _ (expected_after p a) v.expects, v.counts);
        expects = omega (arith, expected_rises p a, v.expects);
        seen = v.seen;
        ranks = (rank_low b v.rises (round_source p a), v.ranks);
        rises = rise b v.rises (round_source p a);
        source = origin b v.source (round_source p a);
      }
    where
      r : DlrScan
      r = scan_segments normal ps (scan_segment normal p a)

      Round : DlrScan → Type 0
      Round b =
          ((b.failure_rank ≡ a.failure_rank)
            × (b.state ≡ a.state)
            × (b.error_code ≡ a.error_code)
            × (rank_of p ≤ a.failure_rank))
          ⊎ ((b.failure_rank ≡ rank_of p)
              × (b.state ≡ state_of p)
              × (b.error_code ≡ p.dlr_error_code)
              × (a.failure_rank ≤ rank_of p))

      rank_low :
          (b : DlrScan) → b.failure_rank ≤ r.failure_rank → Round b → rank_of p ≤ r.failure_rank
      rank_low b up (inl (e, s, c, low)) = omega (arith, e, low, up)
      rank_low b up (inr (e, s, c, low)) = omega (arith, e, low, up)

      rise :
          (b : DlrScan)
          → b.failure_rank ≤ r.failure_rank
          → Round b
          → a.failure_rank ≤ r.failure_rank
      rise b up (inl (e, s, c, low)) = omega (arith, e, low, up)
      rise b up (inr (e, s, c, low)) = omega (arith, e, low, up)

      origin :
          (b : DlrScan)
          → ((r.failure_rank ≡ b.failure_rank)
              × (r.state ≡ b.state)
              × (r.error_code ≡ b.error_code))
            ⊎ Found ps r.failure_rank r.state r.error_code
          → Round b
          → ((r.failure_rank ≡ a.failure_rank)
              × (r.state ≡ a.state)
              × (r.error_code ≡ a.error_code))
            ⊎ Found (p ∷ ps) r.failure_rank r.state r.error_code
      origin b (inr f) round = inr (further p ps f)
      origin b (inl (x, y, z)) (inl (e, s, c, low)) = inl (x ∙ e, y ∙ s, z ∙ c)
      origin b (inl (x, y, z)) (inr (e, s, c, low)) = inr (record {
        index = 0;
        segment = p;
        there = refl;
        its_rank = x ∙ e;
        its_state = y ∙ s;
        its_code = z ∙ c;
      })

  -- The worst of the segments.
  pub record Worst (segments : List Pending) (a : DlrAggregate) : Type 0 where
    pub index : ℕ
    pub segment : Pending
    pub there : get_elem? segments index ≡ some segment
    pub fails : 0 < rank_of segment
    pub worst : All (λ p. rank_of p ≤ rank_of segment) segments
    pub state : a.state ≡ state_of segment
    pub code : a.error_code ≡ segment.dlr_error_code

  -- What a final aggregate says: every segment has a final state, there are as many segment indices
  -- as any of them counts, and the state is that of a worst one, or DELIVRD if none failed.
  pub record IsFinal (segments : List Pending) (a : DlrAggregate) : Type 0 where
    pub finals : All (λ p. is_final_dlr_state normal (state_of p) ≡ true) segments
    pub complete :
        All (λ p. lez p.segment_count (pos (length (seen_from [] segments))) ≡ true) segments
    pub verdict :
        ((a.state ≡ codes "DELIVRD") × (a.error_code ≡ pos 0) × All (λ p. rank_of p ≡ 0) segments)
        ⊎ Worst segments a

  conclude-final :
      (r : DlrScan)
      → (conclude r).final ≡ true
      → (r.final ≡ true)
        × (r.expected ≤ length r.seen)
        × (((r.failure_rank ≡ 0)
              × ((conclude r).state ≡ codes "DELIVRD")
              × ((conclude r).error_code ≡ pos 0))
            ⊎ ((0 < r.failure_rank)
                × ((conclude r).state ≡ r.state)
                × ((conclude r).error_code ≡ r.error_code)))
  unfolding conclude
  conclude-final r h = elim (Bool-cases (r.final && leb r.expected (length r.seen))) [
    | inr open_ ↦ absurd (cc (rw open_ at h))
    | inl full ↦
        let (final, complete) = and-true _ _ full in
        (
          final,
          leb→le _ _ complete,
          elim (Bool-cases (nat_eqb r.failure_rank 0)) [
            | inl none_failed ↦
                inl (ground arith, rw (full, none_failed) refl, rw (full, none_failed) refl)
            | inr failing ↦ inr (ground arith, rw (full, failing) refl, rw (full, failing) refl)
          ],
        )
  ]

  conclude-IsFinal :
      (ps : List Pending) (r : DlrScan)
      → Scanned ps first_scan r
      → (conclude r).final ≡ true
      → IsFinal ps (conclude r)
  conclude-IsFinal ps r v h =
      let (final, complete, verdict) = conclude-final r h in
      record {
        finals = (v.finals final).1;
        complete =
            All-imp _ _
              (λ p low.
                lez_mono p.segment_count r.expected _ low
                  (omega (arith, complete, ap (λ (xs : List ℕ). length xs) v.seen)))
              ps v.counts;
        verdict = judge verdict v.source;
      }
    where
      judge :
          ((r.failure_rank ≡ 0)
              × ((conclude r).state ≡ codes "DELIVRD")
              × ((conclude r).error_code ≡ pos 0))
            ⊎ ((0 < r.failure_rank)
                × ((conclude r).state ≡ r.state)
                × ((conclude r).error_code ≡ r.error_code))
          → ((r.failure_rank ≡ 0) × (r.state ≡ codes "PENDING") × (r.error_code ≡ pos 0))
            ⊎ Found ps r.failure_rank r.state r.error_code
          → ((conclude r).state ≡ codes "DELIVRD")
              × ((conclude r).error_code ≡ pos 0)
              × All (λ p. rank_of p ≡ 0) ps
            ⊎ Worst ps (conclude r)
      judge (inl (zero_rank, s, c)) source =
          inl (s, c, All-imp _ _ (λ p low. omega (arith, low, zero_rank)) ps v.ranks)
      judge (inr (some_rank, s, c)) (inl (zero_rank, _, _)) =
          absurd (omega (arith, some_rank, zero_rank))
      judge (inr (some_rank, s, c)) (inr f) = inr (record {
        index = f.index;
        segment = f.segment;
        there = f.there;
        fails = omega (arith, some_rank, f.its_rank);
        worst = All-imp _ _ (λ p low. omega (arith, low, f.its_rank)) ps v.ranks;
        state = s ∙ f.its_state;
        code = c ∙ f.its_code;
      })

  -- An aggregate that is final is one of segments that all have a final state, whose indices are as
  -- many as any of them counts; its state and code are those of a segment that no other is worse
  -- than, or DELIVRD and 0 if no segment failed.
  pub aggregate_dlr-IsFinal :
      (segments : List Pending)
      → (aggregate_dlr normal segments).final ≡ true
      → IsFinal segments (aggregate_dlr normal segments)
  unfolding aggregate_dlr
  aggregate_dlr-IsFinal [] h = absurd (cc)
  aggregate_dlr-IsFinal (p ∷ ps) h =
      conclude-IsFinal (p ∷ ps) _ (scan_segments-Scanned (p ∷ ps) first_scan) h
