-- ===== src/Http/Sessions/Cleanup.antt =====
-- http/server.rs: one tick of the task that expires inactive sessions.
use tmcp.Http.Sessions.{HttpSession, HttpServerState, session_timeout, remove_session}
use tmcp.Base.{ℕ, ◌-◌, Bool, ◌&&◌, not, List, [], ◌∷◌, ltb, if◌then◌else◌, nat_eq, Text, text_eq}
use tmcp.Base.Map.{map_values}
use tmcp.Requests.{request_id_eq}
use tmcp.Http.Streams.{stream_alive}

-- A session without a live stream that was idle for longer than the timeout.
abbrev pub is_expired : ℕ → HttpSession → Bool
is_expired now session =
    not (stream_alive session.stream).0 && ltb session_timeout (now - session.last_activity)

abbrev pub clear_stream : HttpSession → HttpSession
clear_stream session = record session { stream = (stream_alive session.stream).1 }

unfoldable pub expired_sessions : ℕ → List (Text × HttpSession) → List Text
expired_sessions now [] = []
expired_sessions now ((session_id, session) ∷ rest) =
    let later = expired_sessions now rest in
    if is_expired now session then session_id ∷ later else later

unfoldable pub remove_sessions : List Text → HttpServerState → HttpServerState
unfolding remove_session
remove_sessions [] state = state
remove_sessions (session_id ∷ rest) state = remove_sessions rest (remove_session state session_id)

-- One tick of the cleanup task; looking at a stream clears the slot of one that is dead.
unfoldable pub cleanup_sessions : ℕ → HttpServerState → HttpServerState
unfolding expired_sessions remove_sessions
cleanup_sessions now state =
    remove_sessions (expired_sessions now state.sessions)
      (record state { sessions = map_values clear_stream state.sessions })
