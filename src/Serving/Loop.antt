-- ===== src/Serving/Loop.antt =====
-- server.rs: the connection loop, and the tasks that it spawns. `serve` is one event: an arm of the
-- `select!` with the test at the end of the round, or one step of a task or of a handler. An event
-- that cannot happen leaves the state as it is, so each list of events is an interleaving. What the
-- transport and the handler answer is part of the event.
use tmcp.Base.{
  ℕ, zero, suc, ◌-◌, Bool, true, false, ◌&&◌, Option, none, some, List, [], ◌∷◌, ◌++◌, ltb, nat_beq,
  if◌then◌else◌, length, is_empty, nat_eq, Text, text, text_beq, text_eq, Result, ok, err, ℤ,
}
use tmcp.Errors.{Error, json_parse}
use tmcp.Requests.{RequestId, request_id_eq}
use tmcp.JsonRpc.{
  JsonrpcMessage, JsonrpcResponse, request, notification, response, error, Request, RequestParams,
  parse_error, invalid_request_code, parse_typed_notification,
}
use tmcp.Serving.{
  ServerNotification, cancelled, ClientNotification, cancels, ServerCapabilities,
  default_capabilities, InitializeRequest, InitializeResult, Serde, notification_permitted,
  create_jsonrpc_notification, InFlight, no_requests, begin, is_cancelled, finish, cancel,
}
use tmcp.Serving.Dispatch.{ServerHandler, for_request, dispatch_request}
use tmcp.Serving.Handshake.{SupportedProtocolVersions, handle_initialize_request}
use tmcp.Base.Map.{get}

abbrev pub server_notification_buffer : ℕ
server_notification_buffer = 64

abbrev pub server_response_buffer : ℕ
server_response_buffer = 64

-- A spawned task that runs the handler.
pub record Task (V : Type 0) : Type 0 where
  pub id : RequestId
  pub method : Text
  pub params : Option (RequestParams V)

-- `running` has the tasks in their handler; `finished` the payloads of those that have left
-- `in_flight` and not counted down yet; `sending` of those that wait for room in `outbound`.
-- `responses` are those that were handed to the request handler. `wire` is what was sent.
pub record Serving (V : Type 0) : Type 0 where
  pub initialized : Bool
  pub client_disconnected : Bool
  pub stopped : Bool
  pub connection_closed : Bool
  pub capabilities : ServerCapabilities V
  pub in_flight : InFlight
  pub in_flight_requests : ℕ
  pub running : List (Task V)
  pub finished : List (Option (JsonrpcMessage V))
  pub sending : List (Option (JsonrpcMessage V))
  pub notifications : List (ServerNotification V)
  pub outbound : List (Option (JsonrpcMessage V))
  pub notices : List RequestId
  pub responses : List (JsonrpcResponse V)
  pub wire : List (JsonrpcMessage V)

abbrev pub new_serving : {V : Type 0} → Serving V
new_serving = record {
  initialized = false;
  client_disconnected = false;
  stopped = false;
  connection_closed = false;
  capabilities = default_capabilities;
  in_flight = no_requests;
  in_flight_requests = 0;
  running = [];
  finished = [];
  sending = [];
  notifications = [];
  outbound = [];
  notices = [];
  responses = [];
  wire = [];
}

-- What the handler and the transport answer while the loop is in one round.
pub record Answers (V : Type 0) : Type 0 where
  pub sink : Result Error (Unit {0})
  pub on_initialize : Text → InitializeRequest V → Result Error (InitializeResult V)
  pub on_connect : Result Error (Unit {0})

-- `incoming` is an item of the stream, `none` its end. A position names a task in its list.
pub data Event (V R : Type 0) : Type 0 where
  signal_stop : Event V R
  incoming : Option (Result Error (JsonrpcMessage V)) → Answers V → Event V R
  receive_notification : Event V R
  transmit : Result Error (Unit {0}) → Event V R
  transmit_notice : Result Error (Unit {0}) → Event V R
  complete_task : ℕ → ServerHandler V R → Event V R
  count_down : ℕ → Event V R
  queue_payload : ℕ → Event V R
  notify : ServerNotification V → Event V R
  abandon : RequestId → Event V R

-- The element at a position with the rest.
unfoldable pub take_out {ℓ} : {A : Type ℓ} → ℕ → List A → Option (A × List A)
take_out n [] = none
take_out zero (x ∷ xs) = some (x, xs)
take_out (suc n) (x ∷ xs) = elim (take_out n xs) [ none ↦ none | some (y, ys) ↦ some (y, x ∷ ys) ]

abbrev pub is_json_parse : Error → Bool
is_json_parse (json_parse m) = true
is_json_parse e = false

module _ {V : Type 0} where
  -- `break`, with `shutdown_requests` behind the loop.
  abbrev pub stop : Serving V → Serving V
  stop s = record s { stopped = true; connection_closed = true }

  -- The test at the end of a round.
  abbrev pub end_round : Serving V → Serving V
  end_round s =
      if s.client_disconnected
        && nat_beq s.in_flight_requests 0
        && is_empty s.outbound
        && is_empty s.notices
      then stop s
      else s

  -- `sink.send`
  abbrev pub write : Result Error (Unit {0}) → JsonrpcMessage V → Serving V → Serving V
  write (ok u) message s = end_round (record s { wire = s.wire ++ message ∷ [] })
  write (err e) message s = stop s

  abbrev pub error_response : Option RequestId → ℤ → Text → JsonrpcMessage V
  error_response id code message =
      response (error id (record { code = code; message = message; details = none }))

  abbrev pub reinitialize_error_response : RequestId → JsonrpcMessage V
  reinitialize_error_response id =
      error_response (some id) invalid_request_code
        (text "initialize may only be sent once per connection")

  abbrev pub parse_error_response : JsonrpcMessage V
  parse_error_response = error_response none parse_error (text "Parse error")

  -- An initialize request that was answered with capabilities.
  abbrev pub connect :
      Answers V → JsonrpcResponse V → Option (ServerCapabilities V) → Serving V → Serving V
  connect answers r none s = write answers.sink (response r) s
  connect answers r (some caps) s = elim answers.on_connect [
    | err e ↦ stop (record s { capabilities = caps })
    | ok u ↦ write answers.sink (response r) (record s { capabilities = caps; initialized = true })
  ]

  -- A panic ends the task of the loop, without its shutdown.
  abbrev pub connect_or_panic :
      Answers V → Option (JsonrpcResponse V × Option (ServerCapabilities V)) → Serving V → Serving V
  connect_or_panic answers none s = record s { stopped = true }
  connect_or_panic answers (some (r, caps)) s = connect answers r caps s

  -- `handle_message_with_connection` of a request.
  abbrev pub spawn : RequestId → Request V → Serving V → Serving V
  spawn id body s = record s {
    in_flight_requests = suc s.in_flight_requests;
    in_flight = begin id s.in_flight;
    running = s.running ++ (record { id = id; method = body.method; params = body.params }) ∷ [];
  }

  abbrev pub without_response : Bool → JsonrpcResponse V → Option (JsonrpcMessage V)
  without_response true r = none
  without_response false r = some (response r)

  abbrev pub mark_cancelled : Option RequestId → Serving V → Serving V
  mark_cancelled none s = s
  mark_cancelled (some id) s = record s { in_flight = cancel id s.in_flight }

  -- The handler of the notification comes after the mark; its result is only logged.
  abbrev pub notified : Result Error (ClientNotification V) → Serving V → Serving V
  notified (ok (cancels id)) s = mark_cancelled id s
  notified _ s = s

  abbrev pub cancels_of : Result Error (ClientNotification V) → Option RequestId
  cancels_of (ok (cancels id)) = id
  cancels_of n = none

  abbrev pub room : List (Option (JsonrpcMessage V)) → Bool
  room queue = ltb (length queue) server_response_buffer

  abbrev pub is_initialize : Request V → Bool
  is_initialize body = text_beq body.method (text "initialize")

  unfoldable pub transmit_item :
      Result Error (Unit {0}) → List (Option (JsonrpcMessage V)) → Serving V → Serving V
  transmit_item answer [] s = s
  transmit_item answer (none ∷ rest) s = end_round (record s { outbound = rest })
  transmit_item answer (some message ∷ rest) s = write answer message (record s { outbound = rest })

  unfoldable pub count_down_of :
      Option (Option (JsonrpcMessage V) × List (Option (JsonrpcMessage V))) → Serving V → Serving V
  count_down_of none s = s
  count_down_of (some (payload, rest)) s = record s {
    in_flight_requests = s.in_flight_requests - 1;
    finished = rest;
    sending = s.sending ++ payload ∷ [];
  }

  -- Without a receiver the payload is lost.
  unfoldable pub queue_of :
      Option (Option (JsonrpcMessage V) × List (Option (JsonrpcMessage V))) → Serving V → Serving V
  queue_of none s = s
  queue_of (some (payload, rest)) s =
      if s.stopped
      then record s { sending = rest }
      else if room s.outbound
      then record s { sending = rest; outbound = s.outbound ++ payload ∷ [] }
      else s

  abbrev pub unless_stopped : Serving V → Serving V → Serving V
  unless_stopped s s' = if s.stopped then s else s'

module _ {V R : Type 0} (serde : Serde V R) where
  -- The request that the event cancels.
  abbrev pub cancelled_by : Event V R → Option RequestId
  cancelled_by (incoming (some (ok (notification n))) answers) =
      cancels_of
        (parse_typed_notification serde.string_value serde.parse_notification serde.object_value n)
  cancelled_by e = none

  abbrev pub gated : ServerNotification V → Serving V → Serving V
  gated n s =
      if notification_permitted s.capabilities n && room s.outbound
      then record s {
        outbound = s.outbound ++ some (notification (create_jsonrpc_notification serde n)) ∷ [];
      }
      else s

  unfoldable pub gate_notification : List (ServerNotification V) → Serving V → Serving V
  gate_notification [] s = s
  gate_notification (n ∷ rest) s = end_round (gated n (record s { notifications = rest }))

  abbrev pub cancellation_notice : RequestId → JsonrpcMessage V
  cancellation_notice id = notification (
      create_jsonrpc_notification serde
        (cancelled (some id) (some (text "the server stopped waiting for the response"))))

  unfoldable pub send_notice : Result Error (Unit {0}) → List RequestId → Serving V → Serving V
  send_notice answer [] s = s
  send_notice answer (id ∷ rest) s =
      write answer (cancellation_notice id) (record s { notices = rest })

  -- The handler has answered: `finish_request`.
  unfoldable pub complete_of :
      ServerHandler V R → Option (Task V × List (Task V)) → Serving V → Serving V
  complete_of handler none s = s
  complete_of handler (some (task, rest)) s = record s {
    running = rest;
    in_flight = finish task.id s.in_flight;
    finished =
        s.finished
        ++ without_response
            (is_cancelled (get task.id s.in_flight.requests) s.in_flight.cancelled_tokens)
            (dispatch_request serde handler (for_request task.id) task.id task.method task.params)
          ∷ [];
  }

module _ {V R : Type 0} (serde : Serde V R) (versions : SupportedProtocolVersions) where
  abbrev pub receive_initialize :
      Answers V → RequestId → Option (RequestParams V) → Serving V → Serving V
  receive_initialize answers id params s =
      if s.initialized
      then write answers.sink (reinitialize_error_response id) s
      else connect_or_panic answers
          (handle_initialize_request serde answers.on_initialize versions id params) s

  unfoldable pub receive_message : Answers V → JsonrpcMessage V → Serving V → Serving V
  receive_message answers (request id body) s =
      if is_initialize body
      then receive_initialize answers id body.params s
      else end_round (spawn id body s)
  receive_message answers (response r) s =
      end_round (record s { responses = s.responses ++ r ∷ [] })
  receive_message answers (notification n) s = end_round (
      notified
        (parse_typed_notification serde.string_value serde.parse_notification serde.object_value n)
        s)

  unfoldable pub receive_item :
      Answers V → Option (Result Error (JsonrpcMessage V)) → Serving V → Serving V
  unfolding receive_message
  receive_item answers (some (ok message)) s = receive_message answers message s
  receive_item answers (some (err e)) s =
      if is_json_parse e then write answers.sink parse_error_response s else stop s
  receive_item answers none s =
      end_round (record s { client_disconnected = true; connection_closed = true })

  unfoldable pub serve : Serving V → Event V R → Serving V
  unfolding receive_item gate_notification transmit_item send_notice complete_of count_down_of
      queue_of
  serve s signal_stop = unless_stopped s (stop s)
  serve s (incoming item answers) =
      unless_stopped s (if s.client_disconnected then s else receive_item answers item s)
  serve s receive_notification = unless_stopped s (gate_notification serde s.notifications s)
  serve s (transmit answer) = unless_stopped s (transmit_item answer s.outbound s)
  serve s (transmit_notice answer) = unless_stopped s (send_notice serde answer s.notices s)
  serve s (complete_task position handler) =
      complete_of serde handler (take_out position s.running) s
  serve s (count_down position) = count_down_of (take_out position s.finished) s
  serve s (queue_payload position) = queue_of (take_out position s.sending) s
  serve s (notify n) = unless_stopped s (
      if ltb (length s.notifications) server_notification_buffer
      then record s { notifications = s.notifications ++ n ∷ [] }
      else s)
  serve s (abandon id) = unless_stopped s (record s { notices = s.notices ++ id ∷ [] })

  unfoldable pub run : Serving V → List (Event V R) → Serving V
  run s [] = s
  run s (e ∷ es) = run (serve s e) es
