-- ===== src/Custom/Client.antt =====
-- client.rs and connection.rs: how a client answers a request of its server.
use tmcp.Base.{
  ℕ, Option, none, some, List, if◌then◌else◌, nat_eq, Text, text, text_eq, Result, ok, err, ◌>>=◌,
  ◌>>◌,
}
use tmcp.Errors.{Error}
use tmcp.Requests.{RequestId}
use tmcp.JsonRpc.{
  Object, JsonrpcResponse, Request, RequestParams, params_object, parse_typed_request,
}
use tmcp.Serving.{Serde}
use tmcp.Serving.Dispatch.{serialize_result, empty_result, respond}
use tmcp.Custom.{is_server_request_method, check_payload}

-- The metadata is not read.
pub data ServerRequest (V : Type 0) : Type 0 where
  ping list_roots : ServerRequest V
  create_message elicit : (params : V) → ServerRequest V
  get_task get_task_payload cancel_task : (task_id : Text) → ServerRequest V
  list_tasks : (cursor : Option Text) → ServerRequest V

-- `ServerRequest::method`
abbrev pub method_of : {V : Type 0} → ServerRequest V → Text
method_of ping = text "ping"
method_of (create_message params) = text "sampling/createMessage"
method_of list_roots = text "roots/list"
method_of (elicit params) = text "elicitation/create"
method_of (get_task task_id) = text "tasks/get"
method_of (get_task_payload task_id) = text "tasks/result"
method_of (list_tasks cursor) = text "tasks/list"
method_of (cancel_task task_id) = text "tasks/cancel"

-- Each method takes the context of the request, which names it.
pub record ClientHandler (V R : Type 0) : Type 0 where
  pub pong : RequestId → Result Error (Unit {0})
  pub create_message_of : RequestId → Text → V → Result Error R
  pub list_roots_of : RequestId → Result Error R
  pub elicit_of : RequestId → V → Result Error R
  pub get_task_of : RequestId → Text → Result Error R
  pub get_task_payload_of : RequestId → Text → Result Error R
  pub list_tasks_of : RequestId → Option Text → Result Error R
  pub cancel_task_of : RequestId → Text → Result Error R
  pub custom_request : RequestId → Text → Option V → Result Error V
  pub custom_request_limit : ℕ

module _ {V R : Type 0} (serde : Serde V R)
    (parse_server_request : Object V → Result Text (ServerRequest V))
    (to_writer : Object V → Result Error (List Text)) (handler : ClientHandler V R) where
  unfoldable pub handle_request : RequestId → Text → ServerRequest V → Result Error V
  unfolding serialize_result empty_result
  handle_request id method ping = empty_result serde (handler.pong id)
  handle_request id method (create_message params) =
      serialize_result serde (handler.create_message_of id method params)
  handle_request id method list_roots = serialize_result serde (handler.list_roots_of id)
  handle_request id method (elicit params) = serialize_result serde (handler.elicit_of id params)
  handle_request id method (get_task task_id) =
      serialize_result serde (handler.get_task_of id task_id)
  handle_request id method (get_task_payload task_id) =
      serialize_result serde (handler.get_task_payload_of id task_id)
  handle_request id method (list_tasks cursor) =
      serialize_result serde (handler.list_tasks_of id cursor)
  handle_request id method (cancel_task task_id) =
      serialize_result serde (handler.cancel_task_of id task_id)

  -- `params.map(params_object).transpose()`
  abbrev pub object_of : Option (RequestParams V) → Result Error (Option (Object V))
  object_of none = ok none
  object_of (some params) = do fields ← params_object serde.meta_value params; ok (some fields)

  abbrev pub custom_with : RequestId → Text → Option (Object V) → Result Error V
  custom_with id method none = handler.custom_request id method none
  custom_with id method (some fields) = do
    check_payload to_writer method fields handler.custom_request_limit
    handler.custom_request id method (some (serde.object_value fields))

  unfoldable pub handle_custom_request :
      RequestId → Text → Option (RequestParams V) → Result Error V
  unfolding params_object check_payload
  handle_custom_request id method params = do
    fields ← object_of params
    custom_with id method fields

  abbrev pub handled : RequestId → Text → Result Error (ServerRequest V) → Result Error V
  handled id method (ok request) = handle_request id method request
  handled id method (err e) = err e

  unfoldable pub handle_server_request : RequestId → Request V → JsonrpcResponse V
  unfolding handle_request handle_custom_request is_server_request_method
  handle_server_request id request = respond serde id (
      if is_server_request_method request.method
      then handled id request.method (
          parse_typed_request serde.string_value parse_server_request serde.meta_value
            request.method request.params)
      else handle_custom_request id request.method request.params)
