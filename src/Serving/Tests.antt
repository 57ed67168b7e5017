-- ===== src/Serving/Tests.antt =====
-- Runs of a connection whose client sends pings; values are texts.
use tmcp.Base.{
  ◌≤◌, ◌≡◌, refl, true, Option, none, some, List, [], ◌∷◌, if◌then◌else◌, length, All, nat_eq, mem,
  Text, text, text_beq, text_eq, Result, ok, err,
}
use tmcp.Base.Map.{get, insert, remove}
use tmcp.Errors.{invalid_params}
use tmcp.Requests.{RequestId, string, request_id_eq, request_id_beq}
use tmcp.JsonRpc.{
  Request, Notification, JsonrpcMessage, request, notification, response, result, method_key,
  extend, parse_typed_request, notification_object, parse_typed_notification,
}
use tmcp.JsonRpc.Errors.{jsonrpc_response}
use tmcp.Serving.{
  ClientRequest, initialize, ping, ClientNotification, initialized, cancels, Serde, progress,
  default_capabilities, notification_permitted, create_jsonrpc_notification,
}
use tmcp.Serving.Dispatch.{ServerHandler, dispatch_request}
use tmcp.Serving.Handshake.{SupportedProtocolVersions, handle_initialize_request}
use tmcp.Serving.Loop.{
  Serving, Event, Answers, incoming, receive_notification, transmit, complete_task, count_down,
  queue_payload, notify, take_out, serve, run, new_serving,
}
use tmcp.Serving.Counts.{names, total, answers}
use tmcp.Serving.Answers.{asked_by, run-sent_once, run-answered}
use tmcp.Serving.Stopping.{run-drains, IsOwn}
use tmcp.Serving.Draining.{work}
use tmcp.Serving.Ordering.{run-loses, run-overtakes}
use tmcp.Serving.Cancellation.{run-cancelled}

abbrev request_of : Text → Result Text (ClientRequest Text)
request_of method =
    if text_beq method (text "ping")
    then ok ping
    else if text_beq method (text "initialize")
    then ok (
        initialize (record {
          protocol_version = text "2025-06-18";
          capabilities = text "{}";
          client_info = text "c";
        }))
    else err (text "unknown variant")

abbrev notification_of : Text → Option Text → Result Text (ClientNotification Text)
notification_of method none = ok (initialized [])
notification_of method (some id) = ok (cancels (some (string id)))

abbrev or_empty : Option Text → Text
or_empty none = []
or_empty (some t) = t

abbrev pub texts : Serde Text Text
texts = record {
  string_value = λ t. t;
  object_value = λ o. text "{}";
  as_object = λ v. some ((text "value", v) ∷ []);
  meta_value = λ m. ok (text "meta");
  parse_request = λ o. request_of (or_empty (get method_key o));
  parse_notification =
      λ o. notification_of (or_empty (get method_key o)) (get (text "requestId") o);
  value_of = λ r. ok r;
  initialize_value = λ r. some r.protocol_version;
  notification_value = λ n. none;
  tool_error = λ m. m;
}

abbrev quiet_handler : ServerHandler Text Text
quiet_handler = record {
  pong = λ c. ok tt;
  list_tools_of = λ c cursor. ok [];
  call_tool_of = λ c name arguments task. err (invalid_params (text "no"));
  list_resources_of = λ c cursor. ok [];
  list_resource_templates_of = λ c cursor. ok [];
  read_resource_of = λ c uri. ok [];
  subscribe_resource = λ c uri. ok tt;
  unsubscribe_resource = λ c uri. ok tt;
  list_prompts_of = λ c cursor. ok [];
  get_prompt_of = λ c name arguments. ok [];
  complete_of = λ c reference argument context. ok [];
  set_level_of = λ c level. ok tt;
  get_task_of = λ c id. ok [];
  get_task_payload_of = λ c id. ok [];
  list_tasks_of = λ c cursor. ok [];
  cancel_task_of = λ c id. ok [];
}

abbrev two_versions : SupportedProtocolVersions
two_versions = record { versions = text "2025-11-25" ∷ text "2025-06-18" ∷ [] }

abbrev willing : Answers Text
willing = record {
  sink = ok tt;
  on_initialize = λ version r. ok (record {
    protocol_version = text "ignored";
    capabilities = default_capabilities;
    rest = [];
  });
  on_connect = ok tt;
}

abbrev seven : RequestId
seven = string (text "7")

abbrev eight : RequestId
eight = string (text "8")

abbrev plain_request : Text → Request Text
plain_request method = record { method = method; params = none }

abbrev reads_ping : RequestId → Event Text Text
reads_ping id = incoming (some (ok (request id (plain_request (text "ping"))))) willing

abbrev cancellation : Notification Text
cancellation = record {
  method = text "notifications/cancelled";
  params = some (record { meta = none; other = (text "requestId", text "7") ∷ [] });
}

abbrev reads_cancellation : Event Text Text
reads_cancellation = incoming (some (ok (notification cancellation))) willing

abbrev answer_one : List (Event Text Text)
answer_one = complete_task 0 quiet_handler ∷ count_down 0 ∷ queue_payload 0 ∷ transmit (ok tt) ∷ []

abbrev one_ping : List (Event Text Text)
one_ping = reads_ping seven ∷ answer_one

run-sent_once_example :
    total (names seven) (run texts two_versions new_serving one_ping).wire
    ≤ asked_by texts two_versions seven new_serving one_ping
run-sent_once_example = run-sent_once texts two_versions seven one_ping

run-answered_example :
    answers seven (run texts two_versions new_serving one_ping)
    ≡ asked_by texts two_versions seven new_serving one_ping
unfolding run serve take_out dispatch_request jsonrpc_response parse_typed_request text_beq get
    insert request_id_beq mem
run-answered_example =
    run-answered texts two_versions seven one_ping refl (refl, (refl, (refl, (refl, (refl, tt)))))

run-cancelled_example :
    total
      (names seven)
      (run texts two_versions
        (run texts two_versions new_serving (reads_ping seven ∷ []))
        (reads_cancellation ∷ answer_one)).wire
    ≡ 0
unfolding run serve take_out asked_by parse_typed_notification get insert text_beq request_id_beq
    extend notification_object
run-cancelled_example =
    run-cancelled texts two_versions seven (reads_ping seven ∷ []) answer_one cancellation willing
      refl refl refl refl refl refl

abbrev end_of_input : Event Text Text
end_of_input = incoming none willing

run-drains_example :
    (more : List (Event Text Text)) × All (IsOwn texts two_versions) more
    × (length more
        ≤ work (run texts two_versions new_serving (reads_ping seven ∷ end_of_input ∷ [])))
    × ((run texts two_versions
          (run texts two_versions new_serving (reads_ping seven ∷ end_of_input ∷ []))
          more).stopped
        ≡ true)
unfolding run serve text_beq
run-drains_example =
    run-drains texts two_versions quiet_handler (reads_ping seven ∷ end_of_input ∷ []) refl

abbrev pong : RequestId → JsonrpcMessage Text
pong id = response (result id none ((text "value", text "{}") ∷ []))

-- Both tasks have counted down, and one of them has queued its response.
abbrev half_sent : Serving Text
half_sent = run texts two_versions new_serving (
    reads_ping seven
    ∷ reads_ping eight
    ∷ end_of_input
    ∷ complete_task 0 quiet_handler
    ∷ complete_task 0 quiet_handler
    ∷ count_down 0
    ∷ count_down 0
    ∷ queue_payload 0
    ∷ [])

run-loses_example :
    (run texts two_versions half_sent
      (transmit (ok tt) ∷ queue_payload 0 ∷ transmit (ok tt) ∷ [])).wire
    ≡ pong seven ∷ []
unfolding run serve take_out dispatch_request jsonrpc_response parse_typed_request text_beq get
    insert request_id_beq mem remove
run-loses_example =
    run-loses texts two_versions half_sent (some (pong seven)) (pong eight) []
      (queue_payload 0 ∷ transmit (ok tt) ∷ []) refl refl refl refl refl refl

-- The handler has reported progress and answered; the loop has not looked at its channel yet.
abbrev reported : Serving Text
reported =
    run texts two_versions new_serving
      (reads_ping seven ∷ notify (progress []) ∷ complete_task 0 quiet_handler ∷ count_down 0 ∷ [])

run-overtakes_example :
    (run texts two_versions reported
      (queue_payload 0 ∷ receive_notification ∷ transmit (ok tt) ∷ transmit (ok tt) ∷ [])).wire
    ≡ pong seven ∷ notification (create_jsonrpc_notification texts (progress [])) ∷ []
unfolding run serve take_out dispatch_request jsonrpc_response parse_typed_request text_beq get
    insert request_id_beq mem notification_permitted
run-overtakes_example =
    run-overtakes texts two_versions reported (progress []) (pong seven) [] refl refl refl refl refl
      refl

-- An initialize request whose params have an entry `method` ends the connection by a panic.
initialize_panics :
    (run texts two_versions new_serving (
      incoming
        (some (
          ok (
            request seven (record {
              method = text "initialize";
              params = some (record { meta = none; other = (text "method", text "ping") ∷ [] });
            }))))
        willing
      ∷ [])).stopped
    ≡ true
unfolding run serve parse_typed_request text_beq get insert handle_initialize_request mem
initialize_panics = refl
