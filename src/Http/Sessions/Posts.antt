-- ===== src/Http/Sessions/Posts.antt =====
-- http/server.rs: `handle_post` and `handle_initialize_post`, each up to where it waits, and the rest.
use tmcp.Http.Sessions.{
  Message, HttpSession, HttpServerState, Request, max_sessions, Answer, remove_session, touch,
  forward_message, find_session, reply_or, with_session, request, notification, response, rejected,
  accepted, json, awaits, awaits_initialize,
}
use tmcp.Base.{
  ℕ, Bool, true, false, Option, none, some, [], ◌∷◌, ◌++◌, leb, if◌then◌else◌, length, ◌==◌, nat_eq,
  Text, text, text_eq, Result, ok, err, ◌>>=◌, ◌>>◌,
}
use tmcp.Base.Map.{get, insert, remove}
use tmcp.Requests.{request_id_eq, RequestId}
use tmcp.Versions.{valid_release_date}
use tmcp.Http.Validation.{
  Rejection, reject, UrlParsers, validate_origin, validate_protocol_version,
  validate_json_content_type,
}
use tmcp.Http.Streams.{default_stream}

-- `read_json_body`
abbrev read_json_body : Result (Bool × Text) Text → Result Rejection Text
read_json_body (ok body) = ok body
read_json_body (err (over_limit, message)) =
    err (reject (if over_limit then 413 else 400) (text "Failed to read request body: " ++ message))

-- `parse_jsonrpc_body`
abbrev parse_jsonrpc_body : Result Text Message → Result Rejection Message
parse_jsonrpc_body (ok message) = ok message
parse_jsonrpc_body (err message) = err (reject 400 (text "Invalid JSON body: " ++ message))

abbrev pub is_initialize : Message → Bool
is_initialize (request id method content) = method == text "initialize"
is_initialize _ = false

-- The message of a POST that passes the checks on its headers and its body.
unfoldable pub post_message :
    UrlParsers → (Text → Result Text Message) → HttpServerState → Request → Result Rejection Message
post_message urls parse state req = do
  validate_origin urls req.headers state.cors
  validate_json_content_type req.headers
  validate_protocol_version req.headers none
  body ← read_json_body req.body
  parse_jsonrpc_body (parse body)

-- The `match` on the message at the end of `handle_post`.
unfoldable pub post_to_session :
    HttpServerState → Text → HttpSession → Message → HttpServerState × Answer
unfolding remove_session
post_to_session state session_id session (request id method content) =
    let waiting = record session { pending = insert id tt session.pending } in
    let forwarded =
      with_session state session_id (forward_message (request id method content) waiting) in
    let removed = remove_session (with_session state session_id waiting) session_id in
    if session.incoming_open
    then (forwarded, awaits session_id id)
    else (removed, rejected (reject 404 (text "Session terminated")))
post_to_session state session_id session (notification (some id) content) =
    let released = record session { pending = remove id session.pending } in
    (
      with_session state session_id (forward_message (notification (some id) content) released),
      accepted,
    )
post_to_session state session_id session message =
    (with_session state session_id (forward_message message session), accepted)

abbrev pub new_session : ℕ → RequestId → Message → Option Text → HttpSession
new_session now id message subject = record {
  last_activity = now;
  incoming = message ∷ [];
  incoming_open = true;
  pending = (id, tt) ∷ [];
  stream = default_stream;
  protocol_version = none;
  auth_subject = subject;
}

-- `started` says whether the connection loop could be started.
unfoldable pub handle_initialize_post :
    HttpServerState → Message → Option Text → ℕ → Text → Bool → HttpServerState × Answer
handle_initialize_post state (request id method content) subject now session_id started =
    if leb max_sessions (length state.sessions)
    then (state, rejected (reject 503 (text "Too many sessions")))
    else if started
    then (
      with_session state session_id (new_session now id (request id method content) subject),
      awaits_initialize session_id,
    )
    else (state, rejected (reject 500 (text "Failed to start session")))
handle_initialize_post state message subject now session_id started =
    (state, rejected (reject 400 (text "Invalid initialize message")))

abbrev initialize_response_version : Message → Option Text
initialize_response_version (response false (some version) content) =
    if valid_release_date version then some version else none
initialize_response_version _ = none

abbrev pub is_error_response : Message → Bool
is_error_response (response error version content) = error
is_error_response _ = false

abbrev set_version : Option Text → Option HttpSession → HttpServerState → Text → HttpServerState
set_version version none state session_id = state
set_version version (some session) state session_id =
    with_session state session_id (record session { protocol_version = version })

-- The rest of `handle_initialize_post`, once the response is there or cannot come any more.
unfoldable pub finish_initialize :
    HttpServerState → Text → Option Message → HttpServerState × Answer
unfolding remove_session
finish_initialize state session_id none =
    (remove_session state session_id, rejected (reject 500 (text "No response from server")))
finish_initialize state session_id (some message) =
    if is_error_response message
    then (remove_session state session_id, json message none none)
    else (
      set_version (initialize_response_version message) (get session_id state.sessions) state
          session_id,
      json message (some session_id) (initialize_response_version message),
    )

-- What a POST that waits is answered: a response that cannot come any more was suppressed.
unfoldable pub finish_post : Option Message → Answer
finish_post none = accepted
finish_post (some message) = json message none none

module _ (urls : UrlParsers) (parse : Text → Result Text Message) (now : ℕ) where
  abbrev pub post_checked :
      HttpServerState
      → Request
      → Text
      → Bool
      → Message
      → Result Rejection (HttpServerState × Answer)
  post_checked state req fresh started message =
      if is_initialize message
      then ok (handle_initialize_post state message req.subject now fresh started)
      else do
        found ← find_session state req.headers req.subject
        ok (post_to_session state found.0 (touch now found.1) message)

  unfoldable pub handle_post : HttpServerState → Request → Text → Bool → HttpServerState × Answer
  handle_post state req fresh started =
      reply_or (post_message urls parse state req >>= post_checked state req fresh started) state
