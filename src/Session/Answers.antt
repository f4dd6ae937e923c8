-- ===== src/Session/Answers.antt =====
-- How a session of internal/smpp/session.go is to answer a unit, by what the unit asks for.
use mysmpp.Base.{
  ℤ, pos, negsuc, zero, suc, ◌≢◌, ◌≤◌, ◌<◌, ℕ, ◌≡◌, ◌⊎◌, ◌+◌, ◌^◌, List, [], ◌∷◌, true, false, none,
  some, Text,
}
use mysmpp.Wire.Pdu.{Pdu}
use mysmpp.Wire.Submit.{SubmitSm, parse_submit_sm}
use mysmpp.Wire.Bytes.{c_string}
use mysmpp.Session.{
  BindMode, auth_ok, allowed_ok, read_bind, Session, SessionConfig, Effect, hands, sends, malformed,
  request,
}
use mysmpp.Session.Window.{handed}

-- The units among the effects.
abbrev pub sent : List Effect → List Pdu
sent [] = []
sent (sends pdu ∷ effects) = pdu ∷ sent effects
sent (_ ∷ effects) = sent effects

-- A client that may send messages.
abbrev pub MaySubmit : BindMode → Type 0
MaySubmit mode = (mode ≡ BindMode.transmitter) ⊎ (mode ≡ BindMode.transceiver)

-- The window that is in force.
abbrev pub limit_of : ℤ → ℕ
limit_of (pos zero) = 16
limit_of (pos (suc n)) = suc n
limit_of (negsuc n) = 16

-- The commands that ask for a bind, and those that are answers.
abbrev pub IsBindId : ℕ → Type 0
IsBindId id = (id ≡ 1) ⊎ ((id ≡ 2) ⊎ (id ≡ 9))

abbrev pub IsReplyId : ℕ → Type 0
IsReplyId id = (id ≡ 2 ^ 31 + 5) ⊎ ((id ≡ 2 ^ 31 + 21) ⊎ (id ≡ 2 ^ 31 + 6))

-- None of the commands that a session knows.
abbrev pub IsUnknownId : ℕ → Type 0
IsUnknownId id =
    (id ≢ 1)
    × (id ≢ 2)
    × (id ≢ 9)
    × (id ≢ 4)
    × (id ≢ 21)
    × (id ≢ 6)
    × (id ≢ 2 ^ 31 + 5)
    × (id ≢ 2 ^ 31 + 21)
    × (id ≢ 2 ^ 31 + 6)

-- The status that a bind gets.
pub data BindAnswer (cfg : SessionConfig) (pdu : Pdu) (s : Session) (status : ℕ) : Type 0 where
  cannot_read : read_bind pdu.body ≡ malformed status → BindAnswer cfg pdu s status
  bound_already :
      (id password : Text)
      → read_bind pdu.body ≡ request id password
      → s.bind_mode ≢ BindMode.unbound
      → status ≡ 5
      → BindAnswer cfg pdu s status
  refused :
      (id password : Text)
      → read_bind pdu.body ≡ request id password
      → s.bind_mode ≡ BindMode.unbound
      → (auth_ok cfg.auth id password ≡ false) ⊎ (allowed_ok cfg.bind_allowed id ≡ false)
      → status ≡ 13
      → BindAnswer cfg pdu s status
  welcome :
      (id password : Text)
      → read_bind pdu.body ≡ request id password
      → s.bind_mode ≡ BindMode.unbound
      → auth_ok cfg.auth id password ≡ true
      → allowed_ok cfg.bind_allowed id ≡ true
      → status ≡ 0
      → BindAnswer cfg pdu s status

-- The one unit that answers: a command and a status.
abbrev pub answer_with : Pdu → ℕ → ℕ → List ℕ → Pdu
answer_with pdu command status body = record {
  len = 0;
  command_id = command;
  status = status;
  sequence_id = pdu.sequence_id;
  body = body;
}

-- What a unit brings about. The conditions of any two cases exclude each other.
pub data Answered (cfg : SessionConfig) (pdu : Pdu) (s : Session) (effects : List Effect)
    : Type 0 where
  ignored : IsReplyId pdu.command_id → effects ≡ [] → Answered cfg pdu s effects
  linked :
      pdu.command_id ≡ 21
      → effects ≡ sends (answer_with pdu (2 ^ 31 + 21) 0 []) ∷ []
      → Answered cfg pdu s effects
  unbinds :
      pdu.command_id ≡ 6
      → effects ≡ sends (answer_with pdu (2 ^ 31 + 6) 0 []) ∷ []
      → Answered cfg pdu s effects
  binds :
      (status : ℕ)
      → IsBindId pdu.command_id
      → BindAnswer cfg pdu s status
      → sent effects
        ≡ answer_with pdu (pdu.command_id + 2 ^ 31) status (c_string cfg.own_system_id) ∷ []
      → handed effects ≡ 0
      → Answered cfg pdu s effects
  not_a_sender :
      pdu.command_id ≡ 4
      → ¬ MaySubmit s.bind_mode
      → effects ≡ sends (answer_with pdu (2 ^ 31 + 4) 4 []) ∷ []
      → Answered cfg pdu s effects
  throttled :
      pdu.command_id ≡ 4
      → MaySubmit s.bind_mode
      → limit_of cfg.window_size ≤ s.inflight
      → effects ≡ sends (answer_with pdu (2 ^ 31 + 4) 88 []) ∷ []
      → Answered cfg pdu s effects
  unreadable :
      pdu.command_id ≡ 4
      → MaySubmit s.bind_mode
      → s.inflight < limit_of cfg.window_size
      → parse_submit_sm pdu ≡ none
      → effects ≡ sends (answer_with pdu (2 ^ 31 + 4) 3 []) ∷ []
      → Answered cfg pdu s effects
  handed_on :
      (msg : SubmitSm)
      → pdu.command_id ≡ 4
      → MaySubmit s.bind_mode
      → s.inflight < limit_of cfg.window_size
      → parse_submit_sm pdu ≡ some msg
      → effects ≡ hands msg ∷ []
      → Answered cfg pdu s effects
  not_known :
      IsUnknownId pdu.command_id
      → effects ≡ sends (answer_with pdu (2 ^ 31) 3 []) ∷ []
      → Answered cfg pdu s effects
