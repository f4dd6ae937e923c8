-- ===== src/Session.antt =====
-- internal/smpp/session.go: a session of an SMPP client with the gateway. A unit that is read is
-- dispatched in one step; its socket, deadlines and log are left out, except that the effects of a
-- step are listed in order.
pub mod Window
pub mod Answers
pub mod Replies
pub mod Binds
pub mod Receipts
pub mod Server
pub mod Tests
use mysmpp.Base.{
  ℕ, ◌+◌, ◌-◌, ◌%◌, ◌^◌, Bool, true, false, not, ◌&&◌, List, [], ◌∷◌, ◌++◌, Option, none, some,
  Text, ℤ, positive_or, nat_eqb, nat_eq, ltb, if◌then◌else◌, Dict, lookup, insert, delete,
}
use mysmpp.Wire.Bytes.{c_string, read_c_string_max}
use mysmpp.Wire.Pdu.{Pdu}
use mysmpp.Wire.Submit.{SubmitSm, parse_submit_sm}

pub data BindMode : Type 0 where
  unbound receiver transmitter transceiver : BindMode

abbrev pub can_submit : BindMode → Bool
can_submit BindMode.transmitter = true
can_submit BindMode.transceiver = true
can_submit _ = false

abbrev pub can_receive : BindMode → Bool
can_receive BindMode.receiver = true
can_receive BindMode.transceiver = true
can_receive _ = false

abbrev pub is_unbound : BindMode → Bool
is_unbound BindMode.unbound = true
is_unbound _ = false

-- The callbacks are there or not: `auth` and `bind_allowed` as they answer now, the others as flags,
-- since their calls are effects.
pub record SessionConfig : Type 0 where
  pub own_system_id : Text
  pub auth : Option (Text → Text → Bool)
  pub bind_allowed : Option (Text → Bool)
  pub on_submit : Bool
  pub on_receiver_bound : Bool
  pub window_size : ℤ

-- `inflight` is the bit pattern of an `int32`. A channel of `deliver_resp` holds one status.
pub record Session : Type 0 where
  pub bind_mode : BindMode
  pub inflight : ℕ
  pub next_seq : ℕ
  pub system_id : Text
  pub deliver_resp : Dict ℕ (Option ℕ)

-- `NewSession`.
unfoldable pub new_session : Session
new_session = record {
  bind_mode = BindMode.unbound;
  inflight = 0;
  next_seq = 0;
  system_id = [];
  deliver_resp = [];
}

-- What a step does to the outside: a unit goes to the writer, a message to OnSubmit, a system id to
-- OnReceiverBound, and the read deadline of an unbound session is lifted.
pub data Effect : Type 0 where
  sends : Pdu → Effect
  hands : SubmitSm → Effect
  tells_receiver_bound : Text → Effect
  lifts_deadline : Effect

-- `NextSeq`.
unfoldable pub take_seq : Session → Session × ℕ
take_seq s = (record s { next_seq = (s.next_seq + 1) % 2 ^ 32 }, (s.next_seq + 1) % 2 ^ 32)

-- The cases of the switch in `dispatch`.
pub data Command : Type 0 where
  bind_receiver bind_transmitter bind_transceiver submit_sm deliver_sm_resp enquire_link unbind
        enquire_link_resp unbind_resp other_command :
      Command

unfoldable pub command_of : ℕ → Command
command_of id =
    if nat_eqb id 1
    then Command.bind_receiver
    else if nat_eqb id 2
    then Command.bind_transmitter
    else if nat_eqb id 9
    then Command.bind_transceiver
    else if nat_eqb id 4
    then Command.submit_sm
    else if nat_eqb id (2 ^ 31 + 5)
    then Command.deliver_sm_resp
    else if nat_eqb id 21
    then Command.enquire_link
    else if nat_eqb id 6
    then Command.unbind
    else if nat_eqb id (2 ^ 31 + 21)
    then Command.enquire_link_resp
    else if nat_eqb id (2 ^ 31 + 6)
    then Command.unbind_resp
    else Command.other_command

-- `s.Send(PDU{…})` for the unit that is answered.
abbrev pub reply : Pdu → ℕ → ℕ → List ℕ → Effect
reply pdu command status body = sends (record {
  len = 0;
  command_id = command;
  status = status;
  sequence_id = pdu.sequence_id;
  body = body;
})

-- `bindRespID`.
unfoldable pub bind_resp_id : ℕ → ℕ
bind_resp_id command =
    if nat_eqb command 1 then 2 ^ 31 + 1 else if nat_eqb command 2 then 2 ^ 31 + 2 else 2 ^ 31 + 9

-- The strings of a bind, or the status for the first that cannot be read.
pub data BindRequest : Type 0 where
  request : Text → Text → BindRequest
  malformed : ℕ → BindRequest

with_system_type : Text → Text → Option (Text × List ℕ) → BindRequest
with_system_type id password none = malformed 13
with_system_type id password (some (system_type, rest)) = request id password

with_password : Text → Option (Text × List ℕ) → BindRequest
with_password id none = malformed 14
with_password id (some (password, rest)) = with_system_type id password (read_c_string_max 12 rest)

with_system_id : Option (Text × List ℕ) → BindRequest
with_system_id none = malformed 15
with_system_id (some (id, rest)) = with_password id (read_c_string_max 8 rest)

unfoldable pub read_bind : List ℕ → BindRequest
unfolding with_system_id with_password with_system_type read_c_string_max
read_bind body = with_system_id (read_c_string_max 15 body)

-- A callback that is nil refuses nothing.
abbrev pub auth_ok : Option (Text → Text → Bool) → Text → Text → Bool
auth_ok none id password = true
auth_ok (some auth) id password = auth id password

abbrev pub allowed_ok : Option (Text → Bool) → Text → Bool
allowed_ok none id = true
allowed_ok (some allowed) id = allowed id

unfoldable pub bind_status : SessionConfig → Session → Text → Text → ℕ
bind_status cfg s id password =
    if not (is_unbound s.bind_mode)
    then 5
    else if not (auth_ok cfg.auth id password)
    then 13
    else if not (allowed_ok cfg.bind_allowed id)
    then 13
    else 0

abbrev pub mode_of : ℕ → BindMode
mode_of command =
    if nat_eqb command 1
    then BindMode.receiver
    else if nat_eqb command 2
    then BindMode.transmitter
    else BindMode.transceiver

-- The call of OnReceiverBound at the end of a bind.
abbrev pub bound_effects : SessionConfig → BindMode → Text → List Effect
bound_effects cfg mode id =
    if can_receive mode && cfg.on_receiver_bound then tells_receiver_bound id ∷ [] else []

-- `handleBind` once the status is known.
unfoldable pub finish_bind : SessionConfig → Pdu → Session → Text → ℕ → Session × List Effect
finish_bind cfg pdu s id status =
    let answer = reply pdu (bind_resp_id pdu.command_id) status (c_string cfg.own_system_id) in
    let mode = mode_of pdu.command_id in
    if nat_eqb status 0
    then (
      record s { bind_mode = mode; system_id = id },
      lifts_deadline ∷ answer ∷ bound_effects cfg mode id,
    )
    else (s, answer ∷ [])

abbrev pub bind_read : SessionConfig → Pdu → Session → BindRequest → Session × List Effect
bind_read cfg pdu s (malformed status) =
    (s, reply pdu (bind_resp_id pdu.command_id) status (c_string cfg.own_system_id) ∷ [])
bind_read cfg pdu s (request id password) = finish_bind cfg pdu s id (bind_status cfg s id password)

-- `handleBind`.
unfoldable pub handle_bind : SessionConfig → Pdu → Session → Session × List Effect
handle_bind cfg pdu s = bind_read cfg pdu s (read_bind pdu.body)

-- `CompleteSubmit`, and every other `inflight.Add(-1)`.
unfoldable pub complete_submit : Session → Session
complete_submit s = record s { inflight = (s.inflight + (2 ^ 32 - 1)) % 2 ^ 32 }

-- `inflight > windowSize` of an `int32` and a positive number.
abbrev pub exceeds : ℕ → ℕ → Bool
exceeds inflight window = ltb inflight (2 ^ 31) && ltb window inflight

abbrev pub window : SessionConfig → ℕ
window cfg = positive_or 16 cfg.window_size

unfoldable pub take_submit : SessionConfig → Pdu → Session → Option SubmitSm → Session × List Effect
take_submit cfg pdu s none = (complete_submit s, reply pdu (2 ^ 31 + 4) 3 [] ∷ [])
take_submit cfg pdu s (some msg) =
    if cfg.on_submit then (s, hands msg ∷ []) else (complete_submit s, [])

-- The case of a submit_sm.
unfoldable pub dispatch_submit : SessionConfig → Pdu → Session → Session × List Effect
dispatch_submit cfg pdu s =
    let counted = record s { inflight = (s.inflight + 1) % 2 ^ 32 } in
    if not (can_submit s.bind_mode)
    then (s, reply pdu (2 ^ 31 + 4) 4 [] ∷ [])
    else if exceeds counted.inflight (window cfg)
    then (complete_submit counted, reply pdu (2 ^ 31 + 4) 88 [] ∷ [])
    else take_submit cfg pdu counted (parse_submit_sm pdu)

-- `ch <- status`, or nothing if the channel is full.
abbrev pub put_status : ℕ → Option ℕ → Option ℕ
put_status status none = some status
put_status status (some earlier) = some earlier

-- `completeDeliverResp`.
unfoldable pub complete_deliver_resp : Session → ℕ → ℕ → Session
complete_deliver_resp s seq status = elim (lookup seq s.deliver_resp) [
  | none ↦ s
  | some buffer ↦ record s { deliver_resp = insert seq (put_status status buffer) s.deliver_resp }
]

unfoldable pub dispatch_as : Command → SessionConfig → Pdu → Session → Session × List Effect
dispatch_as Command.bind_receiver cfg pdu s = handle_bind cfg pdu s
dispatch_as Command.bind_transmitter cfg pdu s = handle_bind cfg pdu s
dispatch_as Command.bind_transceiver cfg pdu s = handle_bind cfg pdu s
dispatch_as Command.submit_sm cfg pdu s = dispatch_submit cfg pdu s
dispatch_as Command.deliver_sm_resp cfg pdu s =
    (complete_deliver_resp s pdu.sequence_id pdu.status, [])
dispatch_as Command.enquire_link cfg pdu s = (s, reply pdu (2 ^ 31 + 21) 0 [] ∷ [])
dispatch_as Command.unbind cfg pdu s = (s, reply pdu (2 ^ 31 + 6) 0 [] ∷ [])
dispatch_as Command.enquire_link_resp cfg pdu s = (s, [])
dispatch_as Command.unbind_resp cfg pdu s = (s, [])
dispatch_as Command.other_command cfg pdu s = (s, reply pdu (2 ^ 31) 3 [] ∷ [])

-- `dispatch`.
unfoldable pub dispatch : SessionConfig → Pdu → Session → Session × List Effect
dispatch cfg pdu s = dispatch_as (command_of pdu.command_id) cfg pdu s

-- `readLoop` over the units that it reads.
unfoldable pub read_loop : SessionConfig → List Pdu → Session → Session × List Effect
read_loop cfg [] s = (s, [])
read_loop cfg (pdu ∷ pdus) s =
    let (t, effects) = dispatch cfg pdu s in
    let (u, more) = read_loop cfg pdus t in (u, effects ++ more)

-- `SendDeliverSM` up to its wait, and its end: what the channel holds, if anything.
unfoldable pub begin_deliver_sm : Pdu → Session → Session × List Effect
begin_deliver_sm pdu s =
    (record s { deliver_resp = insert pdu.sequence_id none s.deliver_resp }, sends pdu ∷ [])

abbrev channel_status : Option (Option ℕ) → Option ℕ
channel_status none = none
channel_status (some buffer) = buffer

unfoldable pub end_deliver_sm : Pdu → Session → Session × Option ℕ
end_deliver_sm pdu s = (
  record s { deliver_resp = delete pdu.sequence_id s.deliver_resp },
  channel_status (lookup pdu.sequence_id s.deliver_resp),
)
