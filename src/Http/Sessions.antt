-- ===== src/Http/Sessions.antt =====
-- http/server.rs: sessions and the handlers of POST, GET and DELETE. A handler runs up to the point
-- where it waits for a response; what happens then is a function of its own. The connection loop
-- of a session is seen through the messages that it was given and whether it still takes any.
-- Reading the body, `serde_json`, the clock and the fresh session ids are parameters.
pub mod Posts
pub mod Streaming
pub mod Cleanup
pub mod Isolation
pub mod Lifetime
pub mod Tests
use tmcp.Base.{
  ℕ, zero, suc, ◌+◌, ◌-◌, Bool, true, false, not, Option, none, some, List, [], ◌∷◌, ◌++◌, arith,
  if◌then◌else◌, Eq, ◌==◌, nat_eq, Text, text, text_eq, Result, ok, err, ◌>>=◌, ◌>>◌, ok_or,
}
use tmcp.Base.Map.{get, contains_key, insert, remove, map_values}
use tmcp.Toolset.Listing.{parse_usize}
use tmcp.Requests.{request_id_eq, RequestId}
use tmcp.Versions.{valid_release_date}
use tmcp.Http.Validation.{
  Headers, HeaderValue, visible, opaque, Rejection, reject, reject_if, CorsPolicy, UrlParsers,
  validate_origin, validate_protocol_version, validate_json_content_type,
}
use tmcp.Http.Streams.{StreamState, default_stream, attach_stream, stream_alive}

-- What the handlers read of a message; `content` stands for the rest. A notification has the
-- request id that its parameters name, if it is one of cancellation and has one.

pub data Message : Type 0 where
  request : (id : RequestId) (method content : Text) → Message
  notification : (cancelled : Option RequestId) (content : Text) → Message
  response : (error : Bool) (version : Option Text) (content : Text) → Message

pub record HttpSession : Type 0 where
  pub last_activity : ℕ
  pub incoming : List Message
  pub incoming_open : Bool
  pub pending : List (RequestId × Unit {0})
  pub stream : StreamState Message
  pub protocol_version : Option Text
  pub auth_subject : Option Text

-- `stopped` lists the sessions whose connection loop was told to stop.
pub record HttpServerState : Type 0 where
  pub sessions : List (Text × HttpSession)
  pub stopped : List Text
  pub cors : CorsPolicy

pub record Request : Type 0 where
  pub headers : Headers
  pub subject : Option Text
  -- The body, or whether it was over the size limit with the text of the error.
  pub body : Result (Bool × Text) Text

abbrev pub session_timeout : ℕ
session_timeout = 3600

abbrev pub max_sessions : ℕ
max_sessions = 1024

-- What a handler answers, or what it waits for.
pub data Answer : Type 0 where
  rejected : Rejection → Answer
  accepted no_content : Answer
  event_stream : Answer
  json : Message → (session_id protocol_version : Option Text) → Answer
  awaits : (session_id : Text) (id : RequestId) → Answer
  awaits_initialize : (session_id : Text) → Answer

unfoldable pub remove_session : HttpServerState → Text → HttpServerState
remove_session state session_id = elim (get session_id state.sessions) [
  | none ↦ state
  | some session ↦ record state {
    sessions = remove session_id state.sessions;
    stopped = state.stopped ++ session_id ∷ [];
  }
]

abbrev pub touch : ℕ → HttpSession → HttpSession
touch now session = record session { last_activity = now }

-- `forward`: a loop that has ended takes no message.
abbrev pub forward_message : Message → HttpSession → HttpSession
forward_message message session =
    if session.incoming_open
    then record session { incoming = session.incoming ++ message ∷ [] }
    else session

abbrev pub session_id_header : Headers → Option Text
session_id_header headers = visible_text (get (text "mcp-session-id") headers)
  where
    visible_text : Option HeaderValue → Option Text
    visible_text (some (visible s)) = some s
    visible_text _ = none

abbrev pub subject_matches : Option Text → Text → Bool
subject_matches none expected = false
subject_matches (some actual) expected = actual == expected

abbrev pub check_subject : Option Text → Option Text → Result Rejection (Unit {0})
check_subject none actual = ok tt
check_subject (some expected) actual =
    if subject_matches actual expected
    then ok tt
    else err (reject 403 (text "Session is bound to a different subject"))

-- `check_session_subject`
unfoldable pub check_session_subject : HttpSession → Option Text → Result Rejection (Unit {0})
check_session_subject session subject = check_subject session.auth_subject subject

-- The part that the handlers share: the session that the header names, its version, its subject.
unfoldable pub find_session :
    HttpServerState → Headers → Option Text → Result Rejection (Text × HttpSession)
unfolding check_session_subject
find_session state headers subject = do
  session_id ← ok_or (session_id_header headers) (reject 400 (text "Missing session ID"))
  session ← ok_or (get session_id state.sessions) (reject 404 (text "Session not found"))
  validate_protocol_version headers session.protocol_version
  check_session_subject session subject
  ok (session_id, session)

-- A rejection changes nothing.
abbrev pub reply_or :
    Result Rejection (HttpServerState × Answer) → HttpServerState → HttpServerState × Answer
reply_or (ok done) state = done
reply_or (err rejection) state = (state, rejected rejection)

abbrev pub with_session : HttpServerState → Text → HttpSession → HttpServerState
with_session state session_id session = record state {
  sessions = insert session_id session state.sessions;
}
