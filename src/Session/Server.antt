-- ===== src/Session/Server.antt =====
-- internal/smpp/server.go: the sessions that are open, and their limits.
pub mod Limits
pub mod Counts
use mysmpp.Base.{
  ℕ, List, [], ◌∷◌, true, false, none, some, Option, Bool, Text, ℤ, is_positive, pos_part, ltb, leb,
  not, ◌&&◌, if◌then◌else◌, ◌%◌, ◌+◌, ◌^◌, lookup, insert, delete, text_eq, text_eqb, Dict, length,
  suc,
}
use mysmpp.Wire.Pdu.{Pdu}
use mysmpp.Session.{Session, SessionConfig, Effect, can_receive, dispatch, new_session}

-- The limits of config.SMPPConfig; one that is not positive is none.
pub record ServerConfig : Type 0 where
  pub max_sessions : ℤ
  pub max_sessions_per_system_id : ℤ

-- The sessions by id, and the counter of `nextSessionID`.
pub record Server : Type 0 where
  pub sessions : Dict Text Session
  pub next_id : ℕ

-- The count of `bindAllowed`: the sessions other than the candidate with the system id.
unfoldable pub count_bound : Text → Text → Dict Text Session → ℕ
count_bound candidate system_id [] = 0
count_bound candidate system_id ((id, s) ∷ sessions) =
    let rest = count_bound candidate system_id sessions in
    if not (text_eqb id candidate) && text_eqb s.system_id system_id then suc rest else rest

-- `bindAllowed`.
unfoldable pub bind_allowed : ServerConfig → Server → Text → Text → Bool
bind_allowed cfg server candidate system_id =
    if is_positive cfg.max_sessions_per_system_id
    then ltb (count_bound candidate system_id server.sessions)
        (pos_part cfg.max_sessions_per_system_id)
    else true

unfoldable pub register_unless : Bool → Server → Text → Session → Server × Bool
register_unless true server id s = (server, false)
register_unless false server id s = (record server { sessions = insert id s server.sessions }, true)

-- `s.cfg.MaxSessions > 0 && len(s.sessions) >= s.cfg.MaxSessions`.
unfoldable pub is_full : ServerConfig → Server → Bool
is_full cfg server =
    is_positive cfg.max_sessions && leb (pos_part cfg.max_sessions) (length server.sessions)

-- `register`.
unfoldable pub register : ServerConfig → Server → Text → Session → Server × Bool
register cfg server id s = register_unless (is_full cfg server) server id s

-- `unregister`.
unfoldable pub unregister : Server → Text → Server
unregister server id = record server { sessions = delete id server.sessions }

-- `ReceiversBySystemID`: the ids of the sessions.
unfoldable pub receivers_by_system_id : Text → Dict Text Session → List Text
receivers_by_system_id system_id [] = []
receivers_by_system_id system_id ((id, s) ∷ sessions) =
    let rest = receivers_by_system_id system_id sessions in
    if text_eqb s.system_id system_id && can_receive s.bind_mode then id ∷ rest else rest

unfoldable pub serve_found :
    ServerConfig → SessionConfig → Server → Text → Pdu → Option Session → Server × List Effect
serve_found limits cfg server id pdu none = (server, [])
serve_found limits cfg server id pdu (some s) =
    let asked = record cfg { bind_allowed = some (bind_allowed limits server id) } in
    let (t, effects) = dispatch asked pdu s in
    (record server { sessions = insert id t server.sessions }, effects)

-- A unit for a session of the server, whose bindAllowed is asked.
unfoldable pub serve : ServerConfig → SessionConfig → Server → Text → Pdu → Server × List Effect
serve limits cfg server id pdu = serve_found limits cfg server id pdu (lookup id server.sessions)

-- What happens to the server: a connection comes in, a session reads a unit, or it closes.
pub data ServerEvent : Type 0 where
  accepts : ServerEvent
  reads : SessionConfig → Text → Pdu → ServerEvent
  closes : Text → ServerEvent

module _ (session_id : ℕ → Text) where
  -- The body of the loop of `ListenAndServe`.
  unfoldable pub accept : ServerConfig → Server → Server
  accept limits server =
      let next = (server.next_id + 1) % 2 ^ 64 in
      (register limits (record server { next_id = next }) (session_id next) new_session).0

  unfoldable pub server_step : ServerConfig → Server → ServerEvent → Server
  server_step limits server accepts = accept limits server
  server_step limits server (reads cfg id pdu) = (serve limits cfg server id pdu).0
  server_step limits server (closes id) = unregister server id

  unfoldable pub run_server : ServerConfig → Server → List ServerEvent → Server
  run_server limits server [] = server
  run_server limits server (e ∷ events) = run_server limits (server_step limits server e) events
