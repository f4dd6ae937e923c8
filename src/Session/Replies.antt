-- ===== src/Session/Replies.antt =====
-- How a session of internal/smpp/session.go answers each unit that it reads.
use mysmpp.Base.{
  ℤ, pos, negsuc, zero, suc, ◌≢◌, ◌≤◌, ◌<◌, ap, ◌∙◌, sym, positive_or, Bool-cases, ℕ, ◌≡◌, ◌⊎◌, ◌+◌,
  ◌^◌, inl, inr, List, [], ◌∷◌, arith, true, false, none, some, Option, refl, Bool, Text, not,
  if◌then◌else◌, ◌%◌,
}
use mysmpp.Wire.Pdu.{Pdu}
use mysmpp.Wire.Submit.{SubmitSm, parse_submit_sm}
use mysmpp.Wire.Bytes.{c_string}
use mysmpp.Session.{
  BindMode, auth_ok, allowed_ok, read_bind, is_unbound, window, exceeds, Session, SessionConfig,
  Effect, Command, dispatch, complete_submit, dispatch_submit, take_submit, dispatch_as,
  handle_bind, bind_read, finish_bind, can_submit, command_of, reply, BindRequest, malformed,
  request, bind_status, bind_resp_id,
}
use mysmpp.Session.Window.{handed}
use mysmpp.Session.Answers.{
  sent, MaySubmit, limit_of, IsBindId, IsUnknownId, BindAnswer, answer_with, Answered, cannot_read,
  bound_already, refused, welcome, ignored, linked, unbinds, binds, not_a_sender, throttled,
  unreadable, handed_on, not_known,
}

-- The numbers of the commands.
CommandId : (id : ℕ) → Command → Type 0
CommandId id Command.bind_receiver = id ≡ 1
CommandId id Command.bind_transmitter = id ≡ 2
CommandId id Command.bind_transceiver = id ≡ 9
CommandId id Command.submit_sm = id ≡ 4
CommandId id Command.enquire_link = id ≡ 21
CommandId id Command.unbind = id ≡ 6
CommandId id Command.deliver_sm_resp = id ≡ 2 ^ 31 + 5
CommandId id Command.enquire_link_resp = id ≡ 2 ^ 31 + 21
CommandId id Command.unbind_resp = id ≡ 2 ^ 31 + 6
CommandId id Command.other_command = IsUnknownId id

command_of_sound : (id : ℕ) → CommandId id (command_of id)
unfolding command_of CommandId
command_of_sound id = ground arith

can_submit-MaySubmit : (mode : BindMode) → can_submit mode ≡ true → MaySubmit mode
can_submit-MaySubmit BindMode.unbound h = absurd (cc)
can_submit-MaySubmit BindMode.receiver h = absurd (cc)
can_submit-MaySubmit BindMode.transmitter h = inl refl
can_submit-MaySubmit BindMode.transceiver h = inr refl

cannot_submit : (mode : BindMode) → can_submit mode ≡ false → ¬ MaySubmit mode
cannot_submit mode h (inl e) = absurd (cc (rw e at h))
cannot_submit mode h (inr e) = absurd (cc (rw e at h))

unbound_lem :
    (mode : BindMode)
    → ((is_unbound mode ≡ true) × (mode ≡ BindMode.unbound))
      ⊎ ((is_unbound mode ≡ false) × (mode ≢ BindMode.unbound))
unbound_lem BindMode.unbound = inl (refl, refl)
unbound_lem BindMode.receiver = inr (refl, λ e. cc)
unbound_lem BindMode.transmitter = inr (refl, λ e. cc)
unbound_lem BindMode.transceiver = inr (refl, λ e. cc)

limit_of_lem : (n : ℤ) → positive_or 16 n ≡ limit_of n
limit_of_lem (pos zero) = refl
limit_of_lem (pos (suc n)) = refl
limit_of_lem (negsuc n) = refl

bind_status-BindAnswer :
    (cfg : SessionConfig) (pdu : Pdu) (s : Session) (id password : Text)
    → read_bind pdu.body ≡ request id password
    → BindAnswer cfg pdu s (bind_status cfg s id password)
unfolding bind_status
bind_status-BindAnswer cfg pdu s id password e = elim (unbound_lem s.bind_mode) [
  | inr (bound, other) ↦ bound_already id password e other (rw bound refl)
  | inl (free, same) ↦ elim (Bool-cases (auth_ok cfg.auth id password)) [
    | inr bad ↦ refused id password e same (inl bad) (rw (free, bad) refl)
    | inl good ↦ elim (Bool-cases (allowed_ok cfg.bind_allowed id)) [
      | inr bad ↦ refused id password e same (inr bad) (rw (free, good, bad) refl)
      | inl fine ↦ welcome id password e same good fine (rw (free, good, fine) refl)
    ]
  ]
]

finish_bind-sent :
    (cfg : SessionConfig) (pdu : Pdu) (s : Session) (id : Text) (status : ℕ)
    → (sent (finish_bind cfg pdu s id status).1
        ≡ answer_with pdu (bind_resp_id pdu.command_id) status (c_string cfg.own_system_id) ∷ [])
      × (handed (finish_bind cfg pdu s id status).1 ≡ 0)
unfolding finish_bind
finish_bind-sent cfg pdu s id status = (ground arith, ground arith)

bind_read-Answered :
    (cfg : SessionConfig) (pdu : Pdu) (s : Session) (asked : BindRequest)
    → read_bind pdu.body ≡ asked
    → IsBindId pdu.command_id
    → bind_resp_id pdu.command_id ≡ pdu.command_id + 2 ^ 31
    → Answered cfg pdu s (bind_read cfg pdu s asked).1
bind_read-Answered cfg pdu s (malformed status) e is_bind fits =
    binds status is_bind (cannot_read e)
      (ap (λ c. answer_with pdu c status (c_string cfg.own_system_id) ∷ []) fits) refl
bind_read-Answered cfg pdu s (request id password) e is_bind fits =
    let status = bind_status cfg s id password in
    let (one, no_message) = finish_bind-sent cfg pdu s id status in
    binds status is_bind (bind_status-BindAnswer cfg pdu s id password e)
      (one ∙ ap (λ c. answer_with pdu c status (c_string cfg.own_system_id) ∷ []) fits) no_message

full_lem :
    (cfg : SessionConfig) (s : Session) (full : Bool)
    → limit_of cfg.window_size + 1 < 2 ^ 31
    → s.inflight ≤ limit_of cfg.window_size
    → exceeds ((s.inflight + 1) % 2 ^ 32) (window cfg) ≡ full
    → if full then limit_of cfg.window_size ≤ s.inflight else s.inflight < limit_of cfg.window_size
full_lem cfg s full small within h =
    let e = limit_of_lem cfg.window_size in
    let w : (s.inflight + 1) % 2 ^ 32 ≡ s.inflight + 1 = omega (arith, small, within) in
    go full (ap (λ n. exceeds n (window cfg)) (sym w) ∙ h)
  where
    go :
        (b : Bool)
        → exceeds (s.inflight + 1) (window cfg) ≡ b
        → if b then limit_of cfg.window_size ≤ s.inflight else s.inflight < limit_of cfg.window_size
    go true k = ground (arith, small, within, limit_of_lem cfg.window_size)
    go false k = ground (arith, small, within, limit_of_lem cfg.window_size)

dispatch_submit-Answered :
    (cfg : SessionConfig) (pdu : Pdu) (s : Session)
    → cfg.on_submit ≡ true
    → limit_of cfg.window_size + 1 < 2 ^ 31
    → s.inflight ≤ limit_of cfg.window_size
    → pdu.command_id ≡ 4
    → Answered cfg pdu s (dispatch_submit cfg pdu s).1
unfolding dispatch_submit take_submit
dispatch_submit-Answered cfg pdu s there small within four =
    go (can_submit s.bind_mode) _ (parse_submit_sm pdu) cfg.on_submit refl
      (λ b e. full_lem cfg s b small within e) refl there
  where
    counted : Session
    counted = record s { inflight = (s.inflight + 1) % 2 ^ 32 }

    result : Bool → Bool → Bool → Option SubmitSm → Session × List Effect
    result can full on msg =
        if not can
        then (s, reply pdu (2 ^ 31 + 4) 4 [] ∷ [])
        else if full
        then (complete_submit counted, reply pdu (2 ^ 31 + 4) 88 [] ∷ [])
        else take_submit (record cfg { on_submit = on }) pdu counted msg

    go :
        (can full : Bool) (msg : Option SubmitSm) (on : Bool)
        → can_submit s.bind_mode ≡ can
        → ((b : Bool)
            → full ≡ b
            → if b
              then limit_of cfg.window_size ≤ s.inflight
              else s.inflight < limit_of cfg.window_size)
        → parse_submit_sm pdu ≡ msg
        → on ≡ true
        → Answered cfg pdu s (result can full on msg).1
    go false full msg on may room parsed e = not_a_sender four (cannot_submit _ may) refl
    go true true msg on may room parsed e =
        throttled four (can_submit-MaySubmit _ may) (room true refl) refl
    go true false none on may room parsed e =
        unreadable four (can_submit-MaySubmit _ may) (room false refl) parsed refl
    go true false (some msg) true may room parsed e =
        handed_on msg four (can_submit-MaySubmit _ may) (room false refl) parsed refl
    go true false (some msg) false may room parsed e = absurd (cc)

-- With an OnSubmit, and no more messages outstanding than the window allows, a session answers each
-- unit in the one way that its conditions name. A response has no effect. A submit_sm goes to OnSubmit,
-- and has no other effect, exactly if the client is bound to send, fewer messages are outstanding than
-- the window, and it can be read; else it gets a submit_sm_resp with status 4, 88 or 3 for the first
-- of these that fails. A bind gets its response with the status of the first test that fails, or 0; an
-- enquire_link and an unbind get their responses with status 0; and only a unit with any other
-- command gets a generic_nack. Every answer has the sequence number of its unit.
pub dispatch-Answered :
    (cfg : SessionConfig) (pdu : Pdu) (s : Session)
    → cfg.on_submit ≡ true
    → limit_of cfg.window_size + 1 < 2 ^ 31
    → s.inflight ≤ limit_of cfg.window_size
    → Answered cfg pdu s (dispatch cfg pdu s).1
unfolding dispatch dispatch_as handle_bind bind_resp_id CommandId
dispatch-Answered cfg pdu s there small within =
    go (command_of pdu.command_id) (command_of_sound pdu.command_id)
  where
    go :
        (command : Command)
        → CommandId pdu.command_id command
        → Answered cfg pdu s (dispatch_as command cfg pdu s).1
    go Command.bind_receiver e =
        bind_read-Answered cfg pdu s _ refl (inl e) (rw (e, bind_resp_id) refl)
    go Command.bind_transmitter e =
        bind_read-Answered cfg pdu s _ refl (inr (inl e)) (rw (e, bind_resp_id) refl)
    go Command.bind_transceiver e =
        bind_read-Answered cfg pdu s _ refl (inr (inr e)) (rw (e, bind_resp_id) refl)
    go Command.submit_sm e = dispatch_submit-Answered cfg pdu s there small within e
    go Command.deliver_sm_resp e = ignored (inl e) refl
    go Command.enquire_link e = linked e refl
    go Command.unbind e = unbinds e refl
    go Command.enquire_link_resp e = ignored (inr (inl e)) refl
    go Command.unbind_resp e = ignored (inr (inr e)) refl
    go Command.other_command e = not_known e refl
