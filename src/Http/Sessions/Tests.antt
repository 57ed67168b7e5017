-- ===== src/Http/Sessions/Tests.antt =====
-- The theorems on sessions at a concrete server.
use tmcp.Base.{
  ◌≡◌, refl, true, false, none, some, [], ◌∷◌, nat_eq, mem, Text, text, text_beq, text_eq,
  starts_with, Result, ok,
}
use tmcp.Base.Map.{get, insert, remove}
use tmcp.Requests.{request_id_eq, string}
use tmcp.Versions.{valid_release_date, parse_unsigned, all_digits}
use tmcp.Http.Validation.{
  visible, Rejection, permissive, UrlParsers, validate_origin, validate_protocol_version,
  validate_json_content_type, to_ascii_lowercase,
}
use tmcp.Http.Streams.{default_stream, stream_alive}
use tmcp.Http.Sessions.{
  with_session, Message, request, response, HttpSession, HttpServerState, Request, rejected,
  awaits_initialize,
}
use tmcp.Http.Sessions.Posts.{
  post_message, handle_post, is_initialize, handle_initialize_post, finish_initialize, new_session,
}
use tmcp.Http.Sessions.Cleanup.{is_expired}
use tmcp.Http.Sessions.Lifetime.{finish_initialize-failed}
use tmcp.Http.Sessions.Isolation.{IsForeign, handle_post-IsForeign}

runs : Unit {0}
unfolding get insert remove mem text_beq starts_with to_ascii_lowercase valid_release_date
    parse_unsigned all_digits validate_origin validate_protocol_version validate_json_content_type
    post_message handle_initialize_post
runs = tt

abbrev session : HttpSession
session = record {
  last_activity = 0;
  incoming = [];
  incoming_open = true;
  pending = [];
  stream = default_stream;
  protocol_version = some (text "2025-11-25");
  auth_subject = some (text "alice");
}

abbrev state : HttpServerState
state = record { sessions = (text "s1", session) ∷ []; stopped = []; cors = permissive }

-- Bob names the session of Alice.
abbrev intruder : Request
intruder = record {
  headers =
      (text "mcp-session-id", visible (text "s1"))
      ∷ (text "content-type", visible (text "Application/JSON"))
      ∷ (text "mcp-protocol-version", visible (text "2025-11-25"))
      ∷ [];
  subject = some (text "bob");
  body = ok (text "{}");
}

intruder-IsForeign : IsForeign state intruder
unfolding runs
intruder-IsForeign = record {
  session_id = text "s1";
  session = session;
  owner = text "alice";
  names = refl;
  there = refl;
  bound = refl;
  other = refl;
}

abbrev no_urls : UrlParsers
no_urls = record { parse_url = λ s. none; parse_authority = λ s. none }

abbrev call : Message
call = request (string (text "1")) (text "tools/list") []

abbrev parse : Text → Result Text Message
parse s = ok call

reads : post_message no_urls parse state intruder ≡ ok call
unfolding runs
reads = refl

calls : is_initialize call ≡ false
unfolding runs
calls = refl

handle_post-IsForeign_example :
    (e : Rejection) × (handle_post no_urls parse 5 state intruder (text "s2") true
      ≡ (state, rejected e))
handle_post-IsForeign_example =
    handle_post-IsForeign no_urls parse 5 state intruder (text "s2") true call intruder-IsForeign
      reads calls

abbrev hello : Message
hello = request (string (text "0")) (text "initialize") []

abbrev started_state : HttpServerState
started_state = with_session state (text "s2") (new_session 5 (string (text "0")) hello none)

starts :
    handle_initialize_post state hello none 5 (text "s2") true
    ≡ (started_state, awaits_initialize (text "s2"))
unfolding runs
starts = refl

unused : get (text "s2") state.sessions ≡ none
unfolding runs
unused = refl

finish_initialize-failed_example :
    (finish_initialize started_state (text "s2") (some (response true none []))).0.sessions
    ≡ state.sessions
finish_initialize-failed_example =
    finish_initialize-failed state started_state hello none 5 (text "s2") true
      (some (response true none [])) unused starts refl

-- The session was idle for too long.
expires : is_expired 3601 session ≡ true
unfolding stream_alive
expires = refl

accepts_date : valid_release_date (text "2024-02-29") ≡ true
unfolding runs
accepts_date = refl

rejects_date : valid_release_date (text "2025-02-29") ≡ false
unfolding runs
rejects_date = refl
