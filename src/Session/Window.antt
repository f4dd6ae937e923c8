-- ===== src/Session/Window.antt =====
-- The submit window of internal/smpp/session.go: `inflight` against the messages that OnSubmit has
-- and has not yet completed.
use mysmpp.Base.{
  Text, Option-cases, lookup, nat_eq, not, if◌then◌else◌, ℕ, ◌≡◌, ◌≤◌, ◌<◌, ◌+◌, ◌^◌, List, [], ◌∷◌,
  arith, true, false, none, some, Option, refl, Bool, inl, inr, ◌%◌,
}
use mysmpp.Wire.Submit.{parse_submit_sm, SubmitSm}
use mysmpp.Wire.Pdu.{Pdu}
use mysmpp.Session.{
  Session, SessionConfig, Effect, Command, new_session, dispatch, complete_submit, hands, window,
  dispatch_submit, take_submit, dispatch_as, handle_bind, bind_read, finish_bind,
  complete_deliver_resp, can_submit, exceeds, command_of, reply, BindRequest, read_bind, malformed,
  request, bind_status,
}

-- The messages among the effects.
abbrev pub handed : List Effect → ℕ
handed [] = 0
handed (hands msg ∷ effects) = 1 + handed effects
handed (_ ∷ effects) = handed effects

-- The states of a session, with the number of messages that are open: the session reads a unit, or
-- one that took an open message calls CompleteSubmit. The callbacks may answer differently each time,
-- and the window stays.
pub data Reaches (size : ℕ) : Session → ℕ → Type 0 where
  starts : Reaches size new_session 0
  reads :
      (cfg : SessionConfig) (pdu : Pdu) {s : Session} {n : ℕ}
      → window cfg ≡ size
      → Reaches size s n
      → Reaches size (dispatch cfg pdu s).0 (n + handed (dispatch cfg pdu s).1)
  completes : {s : Session} {n : ℕ} → Reaches size s (n + 1) → Reaches size (complete_submit s) n

-- A step adds what it hands over to the count, and stays within the window.
record Counts (size : ℕ) (s : Session) (result : Session × List Effect) : Type 0 where
  added : result.0.inflight ≡ s.inflight + handed result.1
  within : result.0.inflight ≤ size

keeps :
    (size : ℕ) (s : Session) (result : Session × List Effect)
    → s.inflight ≤ size
    → result.0.inflight ≡ s.inflight
    → handed result.1 ≡ 0
    → Counts size s result
keeps size s result low same none_handed = record {
  added = omega (arith, same, none_handed);
  within = omega (arith, same, low);
}

finish_bind-Counts :
    (cfg : SessionConfig) (pdu : Pdu) (s : Session) (id : Text) (status size : ℕ)
    → s.inflight ≤ size
    → Counts size s (finish_bind cfg pdu s id status)
unfolding finish_bind
finish_bind-Counts cfg pdu s id status size low =
    keeps size s (finish_bind cfg pdu s id status) low (ground arith) (ground arith)

bind_read-Counts :
    (cfg : SessionConfig) (pdu : Pdu) (s : Session) (asked : BindRequest) (size : ℕ)
    → s.inflight ≤ size
    → Counts size s (bind_read cfg pdu s asked)
bind_read-Counts cfg pdu s (malformed status) size low = keeps size s _ low refl refl
bind_read-Counts cfg pdu s (request id password) size low =
    finish_bind-Counts cfg pdu s id (bind_status cfg s id password) size low

take_submit-Counts :
    (cfg : SessionConfig) (pdu : Pdu) (s : Session) (msg : Option SubmitSm) (size : ℕ)
    → size < 2 ^ 31
    → s.inflight < size
    → Counts size s (take_submit cfg pdu (record s { inflight = (s.inflight + 1) % 2 ^ 32 }) msg)
unfolding take_submit complete_submit
take_submit-Counts cfg pdu s none size room low = keeps size s _ (omega arith) (omega arith) refl
take_submit-Counts cfg pdu s (some msg) size room low = go cfg.on_submit
  where
    go :
        (there : Bool)
        → Counts size s (
            if there
            then (record s { inflight = (s.inflight + 1) % 2 ^ 32 }, hands msg ∷ [])
            else (complete_submit (record s { inflight = (s.inflight + 1) % 2 ^ 32 }), []))
    go true = record { added = omega arith; within = omega arith }
    go false = keeps size s _ (omega arith) (omega arith) refl

dispatch_submit-Counts :
    (cfg : SessionConfig) (pdu : Pdu) (s : Session)
    → window cfg + 1 < 2 ^ 31
    → s.inflight ≤ window cfg
    → Counts (window cfg) s (dispatch_submit cfg pdu s)
unfolding dispatch_submit complete_submit
dispatch_submit-Counts cfg pdu s room low = go (can_submit s.bind_mode) _ refl
  where
    counted : Session
    counted = record s { inflight = (s.inflight + 1) % 2 ^ 32 }

    go :
        (can full : Bool)
        → exceeds counted.inflight (window cfg) ≡ full
        → Counts (window cfg) s (
            if not can
            then (s, reply pdu (2 ^ 31 + 4) 4 [] ∷ [])
            else if full
            then (complete_submit counted, reply pdu (2 ^ 31 + 4) 88 [] ∷ [])
            else take_submit cfg pdu counted (parse_submit_sm pdu))
    go false full e = keeps (window cfg) s _ low refl refl
    go true true e = keeps (window cfg) s _ low (omega arith) refl
    go true false e =
        take_submit-Counts cfg pdu s (parse_submit_sm pdu) (window cfg) (omega arith) (ground arith)

complete_deliver_resp-inflight :
    (s : Session) (seq status : ℕ) → (complete_deliver_resp s seq status).inflight ≡ s.inflight
unfolding complete_deliver_resp
complete_deliver_resp-inflight s seq status = elim (Option-cases (lookup seq s.deliver_resp)) [
  | inl miss ↦ rw (miss, complete_deliver_resp) refl
  | inr (buffer, hit) ↦ rw (hit, complete_deliver_resp) refl
]

dispatch-Counts :
    (cfg : SessionConfig) (pdu : Pdu) (s : Session)
    → window cfg + 1 < 2 ^ 31
    → s.inflight ≤ window cfg
    → Counts (window cfg) s (dispatch cfg pdu s)
unfolding dispatch dispatch_as handle_bind
dispatch-Counts cfg pdu s room low = go (command_of pdu.command_id)
  where
    go : (command : Command) → Counts (window cfg) s (dispatch_as command cfg pdu s)
    go Command.bind_receiver = bind_read-Counts cfg pdu s (read_bind pdu.body) (window cfg) low
    go Command.bind_transmitter = bind_read-Counts cfg pdu s (read_bind pdu.body) (window cfg) low
    go Command.bind_transceiver = bind_read-Counts cfg pdu s (read_bind pdu.body) (window cfg) low
    go Command.submit_sm = dispatch_submit-Counts cfg pdu s room low
    go Command.deliver_sm_resp =
        keeps (window cfg) s _ low (complete_deliver_resp-inflight s pdu.sequence_id pdu.status)
          refl
    go Command.enquire_link = keeps (window cfg) s _ low refl refl
    go Command.unbind = keeps (window cfg) s _ low refl refl
    go Command.enquire_link_resp = keeps (window cfg) s _ low refl refl
    go Command.unbind_resp = keeps (window cfg) s _ low refl refl
    go Command.other_command = keeps (window cfg) s _ low refl refl

module _ (size : ℕ) (room : size + 1 < 2 ^ 31) where
  -- While a session runs, `inflight` is the number of messages that OnSubmit has and has not yet
  -- completed, and that number is never above the window, for a window below the largest int32.
  pub Reaches-inflight : (s : Session) (n : ℕ) → Reaches size s n → (s.inflight ≡ n) × (n ≤ size)
  unfolding new_session complete_submit
  Reaches-inflight s n starts = (refl, omega arith)
  Reaches-inflight t m (reads cfg pdu {s} {n} e r) =
      let (same, low) = Reaches-inflight s _ r in
      let c = dispatch-Counts cfg pdu s (omega (arith, e, room)) (omega (arith, e, same, low)) in
      (omega (arith, c.added, same), omega (arith, c.added, c.within, same, e))
  Reaches-inflight t m (completes {s} {n} r) =
      let (same, low) = Reaches-inflight s _ r in
      (omega (arith, same, low, room), omega (arith, low))
