-- ===== src/Dispatch/Receipts.antt =====
-- internal/dispatch/dispatcher.go: delivery receipts, from the provider and back to the client. Clock
-- readings of one call are the one time `now`; call detail records, logs, the wait for a mapping that
-- is not stored yet and the lock for each receipt are left out. `normal` is the library's trim and
-- upper case of a state.
pub mod Aggregate
pub mod Verdict
pub mod Counts
pub mod Finish
pub mod Flush
pub mod Kept
use mysmpp.Base.{
  ℕ, ◌%◌, suc, zero, Bool, true, false, not, ◌&&◌, ◌||◌, List, [], ◌∷◌, Option, none, some, Text,
  codes, text_eqb, ℤ, pos, pos_part, is_positive, lez, nat_eqb, ltb, leb, length, if◌then◌else◌,
}
use mysmpp.Store.Types.{MemoryStore, Pending, Result, ok, err}
use mysmpp.Store.Messages.{update_message_state}
use mysmpp.Store.Pendings.{
  delete_pending_by_gateway_id, get_pending, list_pending_by_gateway_id, list_ready_dlr,
  mark_dlr_delivered, mark_dlr_ready, update_pending_dlr,
}
use mysmpp.Dispatch.Worker.{Dlr, or_same}

-- `dlrAggregate`.
pub record DlrAggregate : Type 0 where
  pub state : Text
  pub error_code : ℤ
  pub final : Bool
  pub all_delivered : Bool

-- `dlrFailureRank`.
unfoldable pub dlr_failure_rank : Text → ℕ
dlr_failure_rank state =
    if text_eqb state (codes "REJECTD")
    then 6
    else if text_eqb state (codes "UNDELIV")
    then 5
    else if text_eqb state (codes "EXPIRED")
    then 4
    else if text_eqb state (codes "DELETED")
    then 3
    else if text_eqb state (codes "UNKNOWN")
    then 2
    else 0

-- The switch of `isFinalDLRState`, on a normal state.
unfoldable pub is_final_state : Text → Bool
is_final_state state =
    text_eqb state (codes "DELIVRD")
    || (text_eqb state (codes "EXPIRED")
        || (text_eqb state (codes "DELETED")
            || (text_eqb state (codes "UNDELIV")
                || (text_eqb state (codes "REJECTD") || text_eqb state (codes "UNKNOWN")))))

-- The variables of the loop in `aggregateDLR`; `seen` holds each index once.
pub record DlrScan : Type 0 where
  pub expected : ℕ
  pub seen : List ℕ
  pub final : Bool
  pub all_delivered : Bool
  pub failure_rank : ℕ
  pub state : Text
  pub error_code : ℤ

abbrev pub has_index : ℕ → List ℕ → Bool
has_index n [] = false
has_index n (k ∷ ks) = nat_eqb k n || has_index n ks

abbrev pub see : ℤ → List ℕ → List ℕ
see index seen =
    if is_positive index && not (has_index (pos_part index) seen)
    then pos_part index ∷ seen
    else seen

-- How `pushSMPPDLR` ends: acknowledged, to be tried again (`errNoReceiverOnline` or
-- `errDLRNotAcked`), or with another error.
pub data PushAnswer : Type 0 where
  acked deferred broken : PushAnswer

abbrev pub is_acked : PushAnswer → Bool
is_acked acked = true
is_acked deferred = false
is_acked broken = false

-- How `HandleDLR` ends: with nil, with nil for a receipt that waits, without a mapping, or with
-- another error.
pub data Handled : Type 0 where
  settled waiting unknown failed : Handled

abbrev pub marked_ready : MemoryStore → Result MemoryStore → MemoryStore × Handled
marked_ready s (ok t) = (t, waiting)
marked_ready s (err e) = (s, failed)

-- How a loop of `FlushDLR` ends: by a return, or it goes on.
pub data Flushed : Type 0 where
  returns : MemoryStore → Flushed
  goes_on : MemoryStore → Flushed
  out_of_fuel : Flushed

abbrev pub delete_if : Bool → Text → MemoryStore → MemoryStore
delete_if true gateway_id s = delete_pending_by_gateway_id s gateway_id
delete_if false gateway_id s = s

abbrev pub first_scan : DlrScan
first_scan = record {
  expected = 1;
  seen = [];
  final = true;
  all_delivered = true;
  failure_rank = 0;
  state = codes "PENDING";
  error_code = pos 0;
}

-- The end of `aggregateDLR`.
unfoldable pub conclude : DlrScan → DlrAggregate
conclude a =
    let complete = leb a.expected (length a.seen) in
    if not (a.final && complete)
    then record {
      state = codes "PENDING";
      error_code = pos 0;
      final = false;
      all_delivered = a.all_delivered && complete;
    }
    else if nat_eqb a.failure_rank 0
    then record {
      state = codes "DELIVRD";
      error_code = pos 0;
      final = true;
      all_delivered = a.all_delivered;
    }
    else record {
      state = a.state;
      error_code = a.error_code;
      final = true;
      all_delivered = a.all_delivered;
    }

module _ (normal : Text → Text) where
  -- `isFinalDLRState`. The state is normal already where it is called, and stays so.
  unfoldable pub is_final_dlr_state : Text → Bool
  is_final_dlr_state state = is_final_state (normal state)

  -- A round of the loop.
  unfoldable pub scan_segment : Pending → DlrScan → DlrScan
  scan_segment p a =
      let state = normal p.dlr_state in
      let rank = dlr_failure_rank state in
      let worse = ltb a.failure_rank rank in
      record {
        expected =
            if lez p.segment_count (pos a.expected) then a.expected else pos_part p.segment_count;
        seen = see p.segment_index a.seen;
        final = a.final && is_final_dlr_state state;
        all_delivered = a.all_delivered && p.dlr_delivered;
        failure_rank = if worse then rank else a.failure_rank;
        state = if worse then state else a.state;
        error_code = if worse then p.dlr_error_code else a.error_code;
      }

  unfoldable pub scan_segments : List Pending → DlrScan → DlrScan
  scan_segments [] a = a
  scan_segments (p ∷ ps) a = scan_segments ps (scan_segment p a)

  -- `aggregateDLR`.
  unfoldable pub aggregate_dlr : List Pending → DlrAggregate
  aggregate_dlr [] = record {
    state = codes "PENDING";
    error_code = pos 0;
    final = false;
    all_delivered = false;
  }
  aggregate_dlr (p ∷ ps) = conclude (scan_segments (p ∷ ps) first_scan)

  abbrev pub finish_marked : ℕ → Pending → MemoryStore → Result MemoryStore → MemoryStore
  finish_marked now rec s (err e) = s
  finish_marked now rec s (ok t) =
      let (u, segments) = list_pending_by_gateway_id now t rec.gateway_id in
      let a = aggregate_dlr segments in delete_if (a.final && a.all_delivered) rec.gateway_id u

  -- `finishDLRDelivery`: the memory store's only error there is a missing record, which is none.
  unfoldable pub finish_dlr_delivery : ℕ → Pending → MemoryStore → MemoryStore
  finish_dlr_delivery now rec s =
      finish_marked now rec s (mark_dlr_delivered s rec.provider rec.provider_id)

  module _ (push : MemoryStore → Pending → PushAnswer) (now : ℕ) where
    -- The inner loop of `FlushDLR`.
    unfoldable pub flush_items : Text → List Pending → MemoryStore → Flushed
    flush_items system_id [] s = goes_on s
    flush_items system_id (rec ∷ items) s = elim (is_acked (push s rec)) [
      | true ↦ flush_items system_id items (finish_dlr_delivery now rec s)
      | false ↦ elim (text_eqb system_id []) [
        | true ↦ flush_items system_id items s
        | false ↦ returns s
      ]
    ]

    abbrev pub after_round : Text → (MemoryStore → Flushed) → Flushed → Flushed
    after_round system_id again (goes_on s) = elim (text_eqb system_id []) [
      | true ↦ returns s
      | false ↦ again s
    ]
    after_round system_id again (returns s) = returns s
    after_round system_id again out_of_fuel = out_of_fuel

    -- `FlushDLR`, with the rounds it may still take.
    unfoldable pub flush_dlr : ℕ → Text → MemoryStore → Flushed
    flush_dlr zero system_id s = out_of_fuel
    flush_dlr (suc rounds) system_id s =
        let (t, items) = list_ready_dlr now s system_id (pos 500) in
        elim items [
          | [] ↦ returns t
          | rec ∷ more ↦
              after_round system_id (flush_dlr rounds system_id)
                (flush_items system_id (rec ∷ more) t)
        ]

    -- The switch at the end of `HandleDLR`; `callback` tells whether the HTTP callback succeeds.
    abbrev pub deliver_smpp : Pending → MemoryStore → PushAnswer → MemoryStore × Handled
    deliver_smpp rec s acked = (finish_dlr_delivery now rec s, settled)
    deliver_smpp rec s deferred = marked_ready s (
        mark_dlr_ready s rec.provider rec.provider_id rec.dlr_state rec.dlr_error_code
          rec.dlr_done_at)
    deliver_smpp rec s broken = (s, failed)

    unfoldable pub deliver_receipt : Bool → Pending → MemoryStore → MemoryStore × Handled
    deliver_receipt callback rec s =
        if text_eqb rec.source_kind (codes "smpp") && nat_eqb (rec.registered_delivery % 4) 0
        then (finish_dlr_delivery now rec s, settled)
        else if text_eqb rec.source_kind (codes "smpp")
        then deliver_smpp rec s (push s rec)
        else if text_eqb rec.source_kind (codes "http")
        then if text_eqb rec.callback_url [] || callback
          then (finish_dlr_delivery now rec s, settled)
          else (s, failed)
        else (s, settled)

    -- What `HandleDLR` makes of the aggregate.
    abbrev pub with_aggregate : Text → MemoryStore × List Pending → MemoryStore
    with_aggregate gateway_id (s, segments) =
        let a = aggregate_dlr segments in
        if a.final
        then or_same s (update_message_state now s gateway_id a.state a.error_code)
        else s

    abbrev pub done_or_now : ℕ → ℕ
    done_or_now done_at = if nat_eqb done_at 0 then now else done_at

    abbrev pub handle_updated :
        Bool → Dlr → Pending → MemoryStore → Result MemoryStore → MemoryStore × Handled
    handle_updated callback dlr rec s (err e) = (s, failed)
    handle_updated callback dlr rec s (ok t) =
        deliver_receipt callback
          (record rec {
            dlr_ready = false;
            dlr_delivered = false;
            dlr_state = dlr.state;
            dlr_error_code = dlr.error_code;
            dlr_done_at = done_or_now dlr.done_at;
          })
          (with_aggregate rec.gateway_id (list_pending_by_gateway_id now t rec.gateway_id))

    abbrev pub handle_found : Bool → Dlr → MemoryStore × Option Pending → MemoryStore × Handled
    handle_found callback dlr (s, none) = (s, unknown)
    handle_found callback dlr (s, some rec) = handle_updated callback dlr rec s (
        update_pending_dlr s rec.provider rec.provider_id dlr.state dlr.error_code
          (done_or_now dlr.done_at))

    -- `HandleDLR`.
    unfoldable pub handle_dlr : Bool → Dlr → MemoryStore → MemoryStore × Handled
    handle_dlr callback dlr s =
        handle_found callback dlr (get_pending now s dlr.provider dlr.provider_id)
