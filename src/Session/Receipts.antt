-- ===== src/Session/Receipts.antt =====
-- The answer of a client to a deliver_sm of internal/smpp/session.go.
use mysmpp.Base.{
  Bool-cases, nat_eqb_iff, ℕ, ◌≡◌, inl, inr, List, [], ◌∷◌, arith, true, false, none, some, Option,
  refl, Bool, nat_eqb, if◌then◌else◌, ◌%◌, ◌+◌, ◌^◌, lookup, nat_eq, lookup-insert,
  lookup-insert_self, ◌&&◌, ◌∙◌, ap,
}
use mysmpp.Wire.Pdu.{Pdu}
use mysmpp.Wire.Submit.{SubmitSm, parse_submit_sm}
use mysmpp.Session.{
  Session, SessionConfig, Command, dispatch, complete_submit, complete_deliver_resp,
  dispatch_submit, take_submit, dispatch_as, handle_bind, bind_read, finish_bind, command_of,
  BindRequest, read_bind, malformed, request, read_loop, put_status, begin_deliver_sm,
  end_deliver_sm,
}

-- A deliver_sm_resp with the sequence number.
abbrev pub is_answer_to : ℕ → Pdu → Bool
is_answer_to seq pdu = nat_eqb pdu.command_id (2 ^ 31 + 5) && nat_eqb pdu.sequence_id seq

-- The status of the first such unit.
abbrev pub first_status : ℕ → List Pdu → Option ℕ
first_status seq [] = none
first_status seq (pdu ∷ pdus) =
    if is_answer_to seq pdu then some pdu.status else first_status seq pdus

-- The channel after some units, by what it holds.
abbrev then_first : ℕ → Option ℕ → List Pdu → Option ℕ
then_first seq (some status) pdus = some status
then_first seq none pdus = first_status seq pdus

-- What a unit does to the channels.
after_unit : ℕ → Pdu → Option ℕ → Option ℕ
after_unit seq pdu buffer = if is_answer_to seq pdu then put_status pdu.status buffer else buffer

complete_deliver_resp-channel :
    (s : Session) (seq k status : ℕ) (buffer : Option ℕ)
    → lookup seq s.deliver_resp ≡ some buffer
    → lookup seq (complete_deliver_resp s k status).deliver_resp
      ≡ some (if nat_eqb k seq then put_status status buffer else buffer)
unfolding complete_deliver_resp
complete_deliver_resp-channel s seq k status buffer hit = go (lookup k s.deliver_resp) refl
  where
    go :
        (found : Option (Option ℕ))
        → lookup k s.deliver_resp ≡ found
        → lookup seq (complete_deliver_resp s k status).deliver_resp
          ≡ some (if nat_eqb k seq then put_status status buffer else buffer)
    go none e = elim (Bool-cases (nat_eqb k seq)) [
      | inl same ↦
          absurd (cc (e, hit, ap (λ j. lookup j s.deliver_resp) ((nat_eqb_iff k seq).0 same)))
      | inr other ↦ rw (e, complete_deliver_resp, other) hit
    ]
    go (some held) e = elim (Bool-cases (nat_eqb k seq)) [
      | inl same ↦
          let p = (nat_eqb_iff k seq).0 same in
          let q : held ≡ buffer = cc (e, hit, ap (λ j. lookup j s.deliver_resp) p) in
          rw (e, complete_deliver_resp, same, p, q)
            (lookup-insert_self seq (put_status status buffer) s.deliver_resp)
      | inr other ↦
          rw (e, complete_deliver_resp, other)
            (rw (lookup-insert seq k (put_status status held) s.deliver_resp, other) hit)
    ]

bind_read-channels :
    (cfg : SessionConfig) (pdu : Pdu) (s : Session) (asked : BindRequest)
    → (bind_read cfg pdu s asked).0.deliver_resp ≡ s.deliver_resp
unfolding finish_bind
bind_read-channels cfg pdu s (malformed status) = refl
bind_read-channels cfg pdu s (request id password) = ground arith

take_submit-channels :
    (cfg : SessionConfig) (pdu : Pdu) (s : Session) (msg : Option SubmitSm)
    → (take_submit cfg pdu s msg).0.deliver_resp ≡ s.deliver_resp
unfolding take_submit complete_submit
take_submit-channels cfg pdu s none = refl
take_submit-channels cfg pdu s (some msg) = ground arith

dispatch_submit-channels :
    (cfg : SessionConfig) (pdu : Pdu) (s : Session)
    → (dispatch_submit cfg pdu s).0.deliver_resp ≡ s.deliver_resp
unfolding dispatch_submit complete_submit
dispatch_submit-channels cfg pdu s = ground (
  arith,
  take_submit-channels cfg pdu (record s { inflight = (s.inflight + 1) % 2 ^ 32 })
      (parse_submit_sm pdu),
)

-- The commands that reach a channel.
resolves : Command → Bool
resolves Command.deliver_sm_resp = true
resolves _ = false

command_of-resolves : (id : ℕ) → nat_eqb id (2 ^ 31 + 5) ≡ resolves (command_of id)
unfolding resolves command_of
command_of-resolves id = ground arith

dispatch-channel :
    (cfg : SessionConfig) (pdu : Pdu) (s : Session) (seq : ℕ) (buffer : Option ℕ)
    → lookup seq s.deliver_resp ≡ some buffer
    → lookup seq (dispatch cfg pdu s).0.deliver_resp ≡ some (after_unit seq pdu buffer)
unfolding dispatch dispatch_as handle_bind after_unit resolves
dispatch-channel cfg pdu s seq buffer hit =
    go (command_of pdu.command_id) (command_of-resolves pdu.command_id)
  where
    go :
        (command : Command)
        → nat_eqb pdu.command_id (2 ^ 31 + 5) ≡ resolves command
        → lookup seq (dispatch_as command cfg pdu s).0.deliver_resp
          ≡ some (after_unit seq pdu buffer)
    go Command.bind_receiver e = rw (e, bind_read-channels cfg pdu s (read_bind pdu.body)) hit
    go Command.bind_transmitter e = rw (e, bind_read-channels cfg pdu s (read_bind pdu.body)) hit
    go Command.bind_transceiver e = rw (e, bind_read-channels cfg pdu s (read_bind pdu.body)) hit
    go Command.submit_sm e = rw (e, dispatch_submit-channels cfg pdu s) hit
    go Command.deliver_sm_resp e =
        rw e (complete_deliver_resp-channel s seq pdu.sequence_id pdu.status buffer hit)
    go Command.enquire_link e = rw e hit
    go Command.unbind e = rw e hit
    go Command.enquire_link_resp e = rw e hit
    go Command.unbind_resp e = rw e hit
    go Command.other_command e = rw e hit

then_first-after :
    (seq : ℕ) (buffer : Option ℕ) (pdu : Pdu) (pdus : List Pdu)
    → then_first seq (after_unit seq pdu buffer) pdus ≡ then_first seq buffer (pdu ∷ pdus)
unfolding after_unit
then_first-after seq none pdu pdus = go (is_answer_to seq pdu)
  where
    go :
        (b : Bool)
        → then_first seq (if b then some pdu.status else none) pdus
          ≡ (if b then some pdu.status else first_status seq pdus)
    go true = refl
    go false = refl
then_first-after seq (some status) pdu pdus = go (is_answer_to seq pdu)
  where
    go : (b : Bool) → then_first seq (if b then some status else some status) pdus ≡ some status
    go true = refl
    go false = refl

read_loop-channel :
    (cfg : SessionConfig) (pdus : List Pdu) (s : Session) (seq : ℕ) (buffer : Option ℕ)
    → lookup seq s.deliver_resp ≡ some buffer
    → lookup seq (read_loop cfg pdus s).0.deliver_resp ≡ some (then_first seq buffer pdus)
unfolding read_loop
read_loop-channel cfg [] s seq none hit = hit
read_loop-channel cfg [] s seq (some status) hit = hit
read_loop-channel cfg (pdu ∷ pdus) s seq buffer hit =
    read_loop-channel cfg pdus (dispatch cfg pdu s).0 seq (after_unit seq pdu buffer)
      (dispatch-channel cfg pdu s seq buffer hit)
    ∙ ap some (then_first-after seq buffer pdu pdus)

-- A deliver_sm is answered with the status of the first deliver_sm_resp of its sequence number that
-- the session reads while it waits, whatever else it reads, and with none if there is no such unit;
-- a status for an earlier wait under that number does not count.
pub end-begin_deliver_sm :
    (cfg : SessionConfig) (pdu : Pdu) (pdus : List Pdu) (s : Session)
    → (end_deliver_sm pdu (read_loop cfg pdus (begin_deliver_sm pdu s).0).0).1
      ≡ first_status pdu.sequence_id pdus
unfolding end_deliver_sm begin_deliver_sm
end-begin_deliver_sm cfg pdu pdus s =
    rw
      (read_loop-channel cfg pdus (begin_deliver_sm pdu s).0 pdu.sequence_id none
        (lookup-insert_self pdu.sequence_id none s.deliver_resp))
      refl
