-- ===== src/Session/Server/Limits.antt =====
-- The limits of internal/smpp/server.go on sessions.
use mysmpp.Session.Server.{
  is_full, register_unless, serve_found, ServerConfig, Server, ServerEvent, accepts, reads, closes,
  accept, server_step, run_server, serve, register, unregister, bind_allowed, count_bound,
}
use mathlib.Core.Path.{subst, subst⁻¹}
use mysmpp.Base.{
  ltb→lt, leb→lt, ℕ, ◌≡◌, ◌⊎◌, inl, inr, List, [], ◌∷◌, arith, true, false, none, some, Option,
  refl, Bool, Text, ℤ, is_positive, pos_part, ◌%◌, ◌+◌, ◌^◌, ◌≢◌, ◌≤◌, ◌<◌, lookup, insert, text_eq,
  text_eqb, text_eqb_iff, Dict, IsDict, insert-IsDict, delete-IsDict, length, Bool-cases, sym,
}
use mysmpp.Wire.Pdu.{Pdu}
use mysmpp.Session.{Session, SessionConfig, dispatch, new_session}
use mysmpp.Session.Binds.{SameBind, Bound, dispatch-Bound}
use mysmpp.Session.Server.Counts.{
  count_with, count_bound_le, count-insert, count_split, count-delete, length-delete, length-insert,
  length-insert_stored,
}

-- The sessions are within the limits, those of a system id too.
record IsLimited (limits : ServerConfig) (system_id : Text) (server : Server) : Type 0 where
  dict : IsDict server.sessions
  all_fit : length server.sessions ≤ pos_part limits.max_sessions
  id_fits : count_with system_id server.sessions ≤ pos_part limits.max_sessions_per_system_id

-- A session that takes a new system id, of which there is room.
taken_fits :
    (limit : ℕ) (id system_id : Text) (t : Session) (m : Dict Text Session)
    → IsDict m
    → count_bound id t.system_id m < limit
    → count_with system_id m ≤ limit
    → count_with system_id (insert id t m) ≤ limit
taken_fits limit id system_id t m d free low = elim (Bool-cases (text_eqb t.system_id system_id)) [
  | inl same ↦
      let p = (text_eqb_iff t.system_id system_id).0 same in
      let room : count_bound id system_id m < limit =
        subst (λ x. count_bound id x m < limit) p free in
      rw (count-insert id system_id t m d, same) (omega (arith, room))
  | inr other ↦
      rw (count-insert id system_id t m d, other)
        (omega (arith, count_bound_le id system_id m, low))
]

-- A bind is counted before it is accepted.
bind_fits :
    (limits : ServerConfig) (cfg : SessionConfig) (server : Server) (id system_id : Text)
    (pdu : Pdu) (s t : Session)
    → is_positive limits.max_sessions_per_system_id ≡ true
    → IsLimited limits system_id server
    → lookup id server.sessions ≡ some s
    → SameBind s t
      ⊎ Bound (record cfg { bind_allowed = some (bind_allowed limits server id) }) pdu s t
    → count_with system_id (insert id t server.sessions)
      ≤ pos_part limits.max_sessions_per_system_id
unfolding bind_allowed
bind_fits limits cfg server id system_id pdu s t per v hit (inl same) =
    rw
      (
        count-insert id system_id t server.sessions v.dict,
        same.1,
        sym (count_split id system_id s server.sessions v.dict hit),
      )
      v.id_fits
bind_fits limits cfg server id system_id pdu s t per v hit (inr b) =
    taken_fits (pos_part limits.max_sessions_per_system_id) id system_id t server.sessions v.dict
      (subst⁻¹ (λ x. count_bound id x server.sessions < pos_part limits.max_sessions_per_system_id)
        b.taken_id (ltb→lt _ _ (rw per at b.allowed)))
      v.id_fits

serve-IsLimited :
    (limits : ServerConfig) (cfg : SessionConfig) (server : Server) (id system_id : Text)
    (pdu : Pdu)
    → is_positive limits.max_sessions_per_system_id ≡ true
    → IsLimited limits system_id server
    → IsLimited limits system_id (serve limits cfg server id pdu).0
unfolding serve serve_found
serve-IsLimited limits cfg server id system_id pdu per v = go (lookup id server.sessions) refl
  where
    asked : SessionConfig
    asked = record cfg { bind_allowed = some (bind_allowed limits server id) }

    go :
        (found : Option Session)
        → lookup id server.sessions ≡ found
        → IsLimited limits system_id (serve_found limits cfg server id pdu found).0
    go none e = v
    go (some s) e = record {
      dict = insert-IsDict id _ server.sessions v.dict;
      all_fit =
          omega (
            arith,
            length-insert_stored id s (dispatch asked pdu s).0 server.sessions e,
            v.all_fit,
          );
      id_fits =
          bind_fits limits cfg server id system_id pdu s (dispatch asked pdu s).0 per v e
            (dispatch-Bound asked pdu s);
    }

-- A new session has the empty system id.
new_fits :
    (limit : ℤ) (id system_id : Text) (m : Dict Text Session)
    → system_id ≢ []
    → IsDict m
    → count_with system_id m ≤ pos_part limit
    → count_with system_id (insert id new_session m) ≤ pos_part limit
unfolding new_session
new_fits limit id [] m named d low = absurd (named refl)
new_fits limit id (c ∷ cs) m named d low =
    omega (arith, count-insert id (c ∷ cs) new_session m d, count_bound_le id (c ∷ cs) m, low)

module _ (session_id : ℕ → Text) where
  accept-IsLimited :
      (limits : ServerConfig) (server : Server) (system_id : Text)
      → is_positive limits.max_sessions ≡ true
      → system_id ≢ []
      → IsLimited limits system_id server
      → IsLimited limits system_id (accept session_id limits server)
  unfolding accept register is_full new_session register_unless
  accept-IsLimited limits server system_id some_limit named v = go (is_full limits server) refl
    where
      next : ℕ
      next = (server.next_id + 1) % 2 ^ 64

      go :
          (full : Bool)
          → is_full limits server ≡ full
          → IsLimited limits system_id
              (register_unless full
                (record server { next_id = next })
                (session_id next)
                new_session).0
      go true e = record { dict = v.dict; all_fit = v.all_fit; id_fits = v.id_fits }
      go false e =
          let low = leb→lt _ _ (rw some_limit at e) in
          let grown = length-insert (session_id next) new_session server.sessions in
          record {
            dict = insert-IsDict (session_id next) new_session server.sessions v.dict;
            all_fit = omega (arith, low, grown);
            id_fits =
                new_fits limits.max_sessions_per_system_id (session_id next) system_id
                  server.sessions named v.dict v.id_fits;
          }

  step-IsLimited :
      (limits : ServerConfig) (server : Server) (e : ServerEvent) (system_id : Text)
      → is_positive limits.max_sessions ≡ true
      → is_positive limits.max_sessions_per_system_id ≡ true
      → system_id ≢ []
      → IsLimited limits system_id server
      → IsLimited limits system_id (server_step session_id limits server e)
  unfolding server_step unregister
  step-IsLimited limits server accepts system_id all per named v =
      accept-IsLimited limits server system_id all named v
  step-IsLimited limits server (reads cfg id pdu) system_id all per named v =
      serve-IsLimited limits cfg server id system_id pdu per v
  step-IsLimited limits server (closes id) system_id all per named v = record {
    dict = delete-IsDict id server.sessions v.dict;
    all_fit = omega (arith, length-delete id server.sessions, v.all_fit);
    id_fits = omega (arith, count-delete id system_id server.sessions, v.id_fits);
  }

  run-IsLimited :
      (limits : ServerConfig) (server : Server) (events : List ServerEvent) (system_id : Text)
      → is_positive limits.max_sessions ≡ true
      → is_positive limits.max_sessions_per_system_id ≡ true
      → system_id ≢ []
      → IsLimited limits system_id server
      → IsLimited limits system_id (run_server session_id limits server events)
  unfolding run_server
  run-IsLimited limits server [] system_id all per named v = v
  run-IsLimited limits server (e ∷ events) system_id all per named v =
      run-IsLimited limits (server_step session_id limits server e) events system_id all per named
        (step-IsLimited limits server e system_id all per named v)

  -- When each unit is dispatched in one step, a server that starts without sessions never has more
  -- sessions than its limit, nor more with one system id than the limit for a system id, if both
  -- limits are positive and the system id is not empty.
  pub run_server_limits :
      (limits : ServerConfig) (events : List ServerEvent) (system_id : Text)
      → is_positive limits.max_sessions ≡ true
      → is_positive limits.max_sessions_per_system_id ≡ true
      → system_id ≢ []
      → (length
            (run_server session_id limits (record { sessions = []; next_id = 0 }) events).sessions
          ≤ pos_part limits.max_sessions)
        × (count_with system_id
              (run_server session_id limits (record { sessions = []; next_id = 0 }) events).sessions
            ≤ pos_part limits.max_sessions_per_system_id)
  unfolding count_with
  run_server_limits limits events system_id all per named =
      let v =
        run-IsLimited limits (record { sessions = []; next_id = 0 }) events system_id all per named
          (record { dict = tt; all_fit = omega arith; id_fits = omega arith }) in
      (v.all_fit, v.id_fits)
