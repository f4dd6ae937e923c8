-- ===== src/Session/Tests.antt =====
-- Tests of internal/smpp/session.go and internal/smpp/server.go on concrete data.
use mysmpp.Base.{
  ℕ, ◌≡◌, ◌⊎◌, ◌≤◌, List, [], ◌∷◌, ◌++◌, none, some, Text, codes, pos, refl, arith, true, text_eqb,
  length, nat_eq, text_eq, ◌+◌, ◌^◌,
}
use mathlib.Core.Path.{subst}
use mysmpp.Session.{
  dispatch_as, command_of, handle_bind, finish_bind, bind_status, dispatch_submit, take_submit,
  BindMode, Session, SessionConfig, new_session, dispatch, complete_submit, begin_deliver_sm,
  end_deliver_sm, read_loop, read_bind,
}
use mysmpp.Session.Window.{handed, Reaches, starts, reads, completes, Reaches-inflight}
use mysmpp.Wire.Submit.{parse_submit_sm, read_payload, header_concat}
use mysmpp.Wire.Tlv.{parse_tlvs_strict, find_tlv}
use mysmpp.Wire.Udh.{split_udh}
use mysmpp.Wire.Pdu.{Pdu}
use mysmpp.Wire.Bytes.{c_string}
use mysmpp.Session.Answers.{Answered}
use mysmpp.Session.Replies.{dispatch-Answered}
use mysmpp.Session.Binds.{SameBind, Bound, dispatch-Bound}
use mysmpp.Session.Receipts.{first_status, end-begin_deliver_sm}
use mysmpp.Session.Server.{ServerConfig, ServerEvent, run_server}
use mysmpp.Session.Server.Counts.{count_with}
use mysmpp.Session.Server.Limits.{run_server_limits}

abbrev config : SessionConfig
config = record {
  own_system_id = codes "gw";
  auth = some (λ id password. text_eqb password (codes "pw"));
  bind_allowed = none;
  on_submit = true;
  on_receiver_bound = true;
  window_size = pos 0;
}

abbrev unit_of : ℕ → ℕ → ℕ → List ℕ → Pdu
unit_of command status seq body = record {
  len = 0;
  command_id = command;
  status = status;
  sequence_id = seq;
  body = body;
}

abbrev bind_unit : Pdu
bind_unit =
    unit_of 9 0 1
      (c_string (codes "acme") ++ (c_string (codes "pw") ++ (c_string [] ++ (52 ∷ 0 ∷ 0 ∷ 0 ∷ []))))

abbrev submit_unit : Pdu
submit_unit = unit_of 4 0 2 (
    0
    ∷ 1
    ∷ 1
    ∷ (c_string (codes "100")
        ++ (1
            ∷ 1
            ∷ (c_string (codes "200")
                ++ (0 ∷ 0 ∷ 0 ∷ 0 ∷ 0 ∷ 1 ∷ 0 ∷ 0 ∷ 0 ∷ 2 ∷ 104 ∷ 105 ∷ [])))))

abbrev bound_session : Session
bound_session = (dispatch config bind_unit new_session).0

abbrev busy_session : Session
busy_session = (dispatch config submit_unit bound_session).0

mode_after : bound_session.bind_mode ≡ BindMode.transceiver
unfolding dispatch new_session dispatch_as command_of handle_bind read_bind c_string finish_bind
    bind_status
mode_after = refl

one_open : busy_session.inflight ≡ 1
unfolding dispatch new_session dispatch_as command_of handle_bind read_bind c_string finish_bind
    bind_status dispatch_submit take_submit parse_submit_sm parse_tlvs_strict read_payload find_tlv
    split_udh header_concat
one_open = refl

one_handed :
    0
      + handed (dispatch config bind_unit new_session).1
      + handed (dispatch config submit_unit bound_session).1
    ≡ 0 + 1
unfolding dispatch new_session dispatch_as command_of handle_bind read_bind c_string finish_bind
    bind_status dispatch_submit take_submit parse_submit_sm parse_tlvs_strict read_payload find_tlv
    split_udh header_concat
one_handed = refl

-- Bound, a submit taken, and completed.
abbrev done_session : Session
done_session = complete_submit busy_session

done-Reaches : Reaches 16 done_session 0
done-Reaches = completes (
    subst (Reaches 16 busy_session) one_handed
      (reads config submit_unit refl (reads config bind_unit refl starts)))

Reaches-inflight_example : (done_session.inflight ≡ 0) × (0 ≤ 16)
Reaches-inflight_example = Reaches-inflight 16 (omega arith) done_session 0 done-Reaches

bound_inflight : bound_session.inflight ≤ 16
unfolding dispatch dispatch_as command_of handle_bind read_bind c_string finish_bind bind_status
    new_session
bound_inflight = omega arith

dispatch-Answered_example :
    Answered config submit_unit bound_session (dispatch config submit_unit bound_session).1
dispatch-Answered_example =
    dispatch-Answered config submit_unit bound_session refl (omega arith) bound_inflight

dispatch-Bound_example :
    SameBind new_session bound_session ⊎ Bound config bind_unit new_session bound_session
dispatch-Bound_example = dispatch-Bound config bind_unit new_session

-- What a client sends while a deliver_sm with sequence number 7 waits.
abbrev answers : List Pdu
answers = submit_unit ∷ unit_of (2 ^ 31 + 5) 8 6 [] ∷ unit_of (2 ^ 31 + 5) 0 7 [] ∷ []

end-begin_deliver_sm_example :
    (end_deliver_sm
      (unit_of 5 0 7 [])
      (read_loop config answers (begin_deliver_sm (unit_of 5 0 7 []) bound_session).0).0).1
    ≡ first_status 7 answers
end-begin_deliver_sm_example = end-begin_deliver_sm config (unit_of 5 0 7 []) answers bound_session

abbrev limits : ServerConfig
limits = record { max_sessions = pos 2; max_sessions_per_system_id = pos 1 }

abbrev session_id : ℕ → Text
session_id n = 115 ∷ n ∷ []

-- Two clients ask for one system id.
abbrev server_events : List ServerEvent
server_events =
    ServerEvent.accepts
    ∷ ServerEvent.accepts
    ∷ ServerEvent.reads config (session_id 1) bind_unit
    ∷ ServerEvent.reads config (session_id 2) bind_unit
    ∷ ServerEvent.closes (session_id 1)
    ∷ []

run_server_limits_example :
    (length
        (run_server session_id limits
          (record { sessions = []; next_id = 0 })
          server_events).sessions
      ≤ 2)
    × (count_with
          (codes "acme")
          (run_server session_id limits
            (record { sessions = []; next_id = 0 })
            server_events).sessions
        ≤ 1)
run_server_limits_example =
    run_server_limits session_id limits server_events (codes "acme") refl refl
      (λ e. absurd (cc (e)))
