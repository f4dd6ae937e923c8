-- ===== src/Session/Binds.antt =====
-- How a session of internal/smpp/session.go comes to be bound.
use mysmpp.Base.{
  ℕ, ◌≡◌, ◌⊎◌, inl, inr, arith, true, none, some, Option, refl, Text, nat_eqb, ◌%◌, ◌+◌, ◌^◌,
  lookup, nat_eq, Option-cases,
}
use mysmpp.Wire.Pdu.{Pdu}
use mysmpp.Wire.Submit.{SubmitSm, parse_submit_sm}
use mysmpp.Session.{
  BindMode, is_unbound, auth_ok, allowed_ok, Session, SessionConfig, Command, dispatch,
  complete_submit, complete_deliver_resp, dispatch_submit, take_submit, dispatch_as, handle_bind,
  bind_read, finish_bind, command_of, BindRequest, read_bind, malformed, request, bind_status,
  mode_of,
}

-- The session keeps its mode and its system id.
abbrev pub SameBind : Session → Session → Type 0
SameBind s t = (t.bind_mode ≡ s.bind_mode) × (t.system_id ≡ s.system_id)

-- An unbound session takes the system id and the mode of a bind that both callbacks accept.
pub record Bound (cfg : SessionConfig) (pdu : Pdu) (s t : Session) : Type 0 where
  pub id : Text
  pub password : Text
  pub was_unbound : s.bind_mode ≡ BindMode.unbound
  pub asked : read_bind pdu.body ≡ request id password
  pub authentic : auth_ok cfg.auth id password ≡ true
  pub allowed : allowed_ok cfg.bind_allowed id ≡ true
  pub mode : t.bind_mode ≡ mode_of pdu.command_id
  pub taken_id : t.system_id ≡ id

is_unbound_sound : (m : BindMode) → is_unbound m ≡ true → m ≡ BindMode.unbound
is_unbound_sound BindMode.unbound h = refl
is_unbound_sound BindMode.receiver h = absurd (cc)
is_unbound_sound BindMode.transmitter h = absurd (cc)
is_unbound_sound BindMode.transceiver h = absurd (cc)

bind_status-ok :
    (cfg : SessionConfig) (s : Session) (id password : Text)
    → nat_eqb (bind_status cfg s id password) 0 ≡ true
    → (is_unbound s.bind_mode ≡ true)
      × (auth_ok cfg.auth id password ≡ true)
      × (allowed_ok cfg.bind_allowed id ≡ true)
unfolding bind_status
bind_status-ok cfg s id password h = (ground arith, ground arith, ground arith)

finish_bind-cases :
    (cfg : SessionConfig) (pdu : Pdu) (s : Session) (id : Text) (status : ℕ)
    → SameBind s (finish_bind cfg pdu s id status).0
      ⊎ ((nat_eqb status 0 ≡ true)
          × ((finish_bind cfg pdu s id status).0.bind_mode ≡ mode_of pdu.command_id)
          × ((finish_bind cfg pdu s id status).0.system_id ≡ id))
unfolding finish_bind
finish_bind-cases cfg pdu s id status = ground arith

bind_read-cases :
    (cfg : SessionConfig) (pdu : Pdu) (s : Session) (asked : BindRequest)
    → read_bind pdu.body ≡ asked
    → SameBind s (bind_read cfg pdu s asked).0 ⊎ Bound cfg pdu s (bind_read cfg pdu s asked).0
bind_read-cases cfg pdu s (malformed status) e = inl (refl, refl)
bind_read-cases cfg pdu s (request id password) e =
    elim (finish_bind-cases cfg pdu s id (bind_status cfg s id password)) [
      | inl same ↦ inl same
      | inr (fine, mode, taken) ↦
          let (idle, authentic, allowed) = bind_status-ok cfg s id password fine in
          inr (record {
            id = id;
            password = password;
            was_unbound = is_unbound_sound _ idle;
            asked = e;
            authentic = authentic;
            allowed = allowed;
            mode = mode;
            taken_id = taken;
          })
    ]

complete_deliver_resp-SameBind :
    (s : Session) (seq status : ℕ) → SameBind s (complete_deliver_resp s seq status)
unfolding complete_deliver_resp
complete_deliver_resp-SameBind s seq status = elim (Option-cases (lookup seq s.deliver_resp)) [
  | inl miss ↦ (rw (miss, complete_deliver_resp) refl, rw (miss, complete_deliver_resp) refl)
  | inr (buffer, hit) ↦ (rw (hit, complete_deliver_resp) refl, rw (hit, complete_deliver_resp) refl)
]

take_submit-SameBind :
    (cfg : SessionConfig) (pdu : Pdu) (s : Session) (msg : Option SubmitSm)
    → SameBind s (take_submit cfg pdu s msg).0
unfolding take_submit complete_submit
take_submit-SameBind cfg pdu s none = (refl, refl)
take_submit-SameBind cfg pdu s (some msg) = (ground arith, ground arith)

dispatch_submit-SameBind :
    (cfg : SessionConfig) (pdu : Pdu) (s : Session) → SameBind s (dispatch_submit cfg pdu s).0
unfolding dispatch_submit complete_submit
dispatch_submit-SameBind cfg pdu s =
    let same =
      take_submit-SameBind cfg pdu (record s { inflight = (s.inflight + 1) % 2 ^ 32 })
        (parse_submit_sm pdu) in
    (ground (arith, same.0), ground (arith, same.1))

-- A unit leaves the mode and the system id of a session as they are, or binds a session that was not
-- bound: to the mode of the unit's command, and to the system id in its body, which both callbacks
-- accept, the first with the password that follows it.
pub dispatch-Bound :
    (cfg : SessionConfig) (pdu : Pdu) (s : Session)
    → SameBind s (dispatch cfg pdu s).0 ⊎ Bound cfg pdu s (dispatch cfg pdu s).0
unfolding dispatch dispatch_as handle_bind
dispatch-Bound cfg pdu s = go (command_of pdu.command_id)
  where
    go :
        (command : Command)
        → SameBind s (dispatch_as command cfg pdu s).0
          ⊎ Bound cfg pdu s (dispatch_as command cfg pdu s).0
    go Command.bind_receiver = bind_read-cases cfg pdu s _ refl
    go Command.bind_transmitter = bind_read-cases cfg pdu s _ refl
    go Command.bind_transceiver = bind_read-cases cfg pdu s _ refl
    go Command.submit_sm = inl (dispatch_submit-SameBind cfg pdu s)
    go Command.deliver_sm_resp = inl (complete_deliver_resp-SameBind s pdu.sequence_id pdu.status)
    go Command.enquire_link = inl (refl, refl)
    go Command.unbind = inl (refl, refl)
    go Command.enquire_link_resp = inl (refl, refl)
    go Command.unbind_resp = inl (refl, refl)
    go Command.other_command = inl (refl, refl)
