-- ===== src/Http/Sessions/Streaming.antt =====
-- http/server.rs: `handle_get`, which opens an SSE stream, and `handle_delete`.
use tmcp.Http.Sessions.{
  HttpSession, HttpServerState, Request, Answer, remove_session, touch, find_session, reply_or,
  with_session, no_content, event_stream,
}
use tmcp.Base.{
  ℕ, Bool, false, ◌||◌, not, Option, none, some, [], ◌∷◌, nat_eq, Text, text, text_eq, starts_with,
  Result, ok, ◌>>=◌, ◌>>◌,
}
use tmcp.Base.Map.{get}
use tmcp.Toolset.Listing.{parse_usize}
use tmcp.Requests.{request_id_eq}
use tmcp.Http.Validation.{
  HeaderValue, visible, Rejection, reject, reject_if, UrlParsers, validate_origin,
  validate_protocol_version,
}
use tmcp.Http.Streams.{attach_stream}

-- `str::contains`
unfoldable pub contains_text : Text → Text → Bool
contains_text [] t = starts_with t []
contains_text (c ∷ s) t = starts_with t (c ∷ s) || contains_text s t

abbrev pub accepts_sse : Option HeaderValue → Bool
accepts_sse (some (visible s)) =
    contains_text s (text "text/event-stream") || contains_text s (text "*/*")
accepts_sse _ = false

-- `last_event_id` reads the header as a 64-bit number.
abbrev last_event_id : Option HeaderValue → Option ℕ
last_event_id (some (visible s)) = parse_usize s
last_event_id _ = none

module _ (urls : UrlParsers) where
  -- The checks of a GET.
  unfoldable pub get_session : HttpServerState → Request → Result Rejection (Text × HttpSession)
  get_session state req = do
    validate_origin urls req.headers state.cors
    validate_protocol_version req.headers none
    reject_if (not (accepts_sse (get (text "accept") req.headers)))
        (reject 406 (text "Accept must include text/event-stream"))
    find_session state req.headers req.subject

module _ (slots : ℕ → ℕ) (now : ℕ) where
  abbrev pub attached : HttpServerState → Request → Text × HttpSession → HttpServerState × Answer
  attached state req (session_id, session) =
      let last = last_event_id (get (text "last-event-id") req.headers) in
      (
        with_session state session_id
            (record (touch now session) { stream = attach_stream slots last session.stream }),
        event_stream,
      )

module _ (urls : UrlParsers) (slots : ℕ → ℕ) (now : ℕ) where
  unfoldable pub handle_get : HttpServerState → Request → HttpServerState × Answer
  handle_get state req =
      reply_or (get_session urls state req >>= λ found. ok (attached slots now state req found))
        state

module _ (urls : UrlParsers) where
  -- The checks of a DELETE.
  unfoldable pub delete_session : HttpServerState → Request → Result Rejection (Text × HttpSession)
  delete_session state req = do
    validate_origin urls req.headers state.cors
    find_session state req.headers req.subject

  unfoldable pub handle_delete : HttpServerState → Request → HttpServerState × Answer
  handle_delete state req =
      reply_or (delete_session state req >>= λ found. ok (remove_session state found.0, no_content))
        state
