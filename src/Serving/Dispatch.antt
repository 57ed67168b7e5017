-- ===== src/Serving/Dispatch.antt =====
-- connection.rs: `ServerHandler::handle_request`. The methods of a handler are its fields.
use tmcp.Base.{
  ℕ, Option, none, some, List, [], ◌∷◌, if◌then◌else◌, is_empty, nat_eq, Text, text, text_eq,
  Result, ok, err,
}
use tmcp.Errors.{Error, invalid_params, invalid_request}
use tmcp.Requests.{RequestId}
use tmcp.JsonRpc.{
  Object, ProgressToken, RequestMeta, JsonrpcResponse, RequestParams, parse_typed_request,
}
use tmcp.JsonRpc.Errors.{jsonrpc_response}
use tmcp.Serving.{
  ClientRequest, Serde, initialize, ping, list_tools, call_tool, list_resources,
  list_resource_templates, read_resource, subscribe, unsubscribe, list_prompts, get_prompt,
  complete, set_level, get_task, get_task_payload, list_tasks, cancel_task,
}

-- What a request adds to the context of its connection.
pub record RequestContext (V : Type 0) : Type 0 where
  pub request_id : RequestId
  pub progress_token : Option ProgressToken
  pub progress_counter : Option ℕ
  pub request_meta : Option (Object V)

-- `for_request`
abbrev pub for_request : {V : Type 0} → RequestId → RequestContext V
for_request id = record {
  request_id = id;
  progress_token = none;
  progress_counter = none;
  request_meta = none;
}

pub record ServerHandler (V R : Type 0) : Type 0 where
  pub pong : RequestContext V → Result Error (Unit {0})
  pub list_tools_of : RequestContext V → Option Text → Result Error R
  pub call_tool_of : RequestContext V → Text → Option (Object V) → Option V → Result Error R
  pub list_resources_of : RequestContext V → Option Text → Result Error R
  pub list_resource_templates_of : RequestContext V → Option Text → Result Error R
  pub read_resource_of : RequestContext V → Text → Result Error R
  pub subscribe_resource : RequestContext V → Text → Result Error (Unit {0})
  pub unsubscribe_resource : RequestContext V → Text → Result Error (Unit {0})
  pub list_prompts_of : RequestContext V → Option Text → Result Error R
  pub get_prompt_of : RequestContext V → Text → Option (List (Text × Text)) → Result Error R
  pub complete_of : RequestContext V → V → V → Option V → Result Error R
  pub set_level_of : RequestContext V → V → Result Error (Unit {0})
  pub get_task_of : RequestContext V → Text → Result Error R
  pub get_task_payload_of : RequestContext V → Text → Result Error R
  pub list_tasks_of : RequestContext V → Option Text → Result Error R
  pub cancel_task_of : RequestContext V → Text → Result Error R

module _ {V R : Type 0} (serde : Serde V R) where
  unfoldable pub serialize_result : Result Error R → Result Error V
  serialize_result (ok value) = serde.value_of value
  serialize_result (err e) = err e

  unfoldable pub empty_result : Result Error (Unit {0}) → Result Error V
  empty_result (ok u) = ok (serde.object_value [])
  empty_result (err e) = err e

  abbrev pub with_progress_token : Option ProgressToken → RequestContext V → RequestContext V
  with_progress_token none c = c
  with_progress_token (some token) c = record c {
    progress_token = some token;
    progress_counter = some 0;
  }

  abbrev pub call_context : Option (RequestMeta V) → RequestContext V → RequestContext V
  call_context none c = c
  call_context (some meta) c =
      let c' = with_progress_token meta.progress_token c in
      if is_empty meta.other then c' else record c' { request_meta = some meta.other }

  -- Invalid params of a tool become a result of the call.
  unfoldable pub tool_result : Result Error R → Result Error V
  unfolding serialize_result
  tool_result (ok value) = serialize_result (ok value)
  tool_result (err (invalid_params message)) = serialize_result (ok (serde.tool_error message))
  tool_result (err e) = err e

  unfoldable pub handle_request :
      ServerHandler V R → RequestContext V → ClientRequest V → Result Error V
  unfolding serialize_result empty_result tool_result
  handle_request h c (initialize r) =
      err (invalid_request (text "initialize is handled by the connection"))
  handle_request h c ping = empty_result (h.pong c)
  handle_request h c (list_tools cursor) = serialize_result (h.list_tools_of c cursor)
  handle_request h c (call_tool name arguments task meta) =
      tool_result (h.call_tool_of (call_context meta c) name arguments task)
  handle_request h c (list_resources cursor) = serialize_result (h.list_resources_of c cursor)
  handle_request h c (list_resource_templates cursor) =
      serialize_result (h.list_resource_templates_of c cursor)
  handle_request h c (read_resource uri) = serialize_result (h.read_resource_of c uri)
  handle_request h c (subscribe uri) = empty_result (h.subscribe_resource c uri)
  handle_request h c (unsubscribe uri) = empty_result (h.unsubscribe_resource c uri)
  handle_request h c (list_prompts cursor) = serialize_result (h.list_prompts_of c cursor)
  handle_request h c (get_prompt name arguments) =
      serialize_result (h.get_prompt_of c name arguments)
  handle_request h c (complete reference argument context) =
      serialize_result (h.complete_of c reference argument context)
  handle_request h c (set_level level) = empty_result (h.set_level_of c level)
  handle_request h c (get_task task_id) = serialize_result (h.get_task_of c task_id)
  handle_request h c (get_task_payload task_id) = serialize_result (h.get_task_payload_of c task_id)
  handle_request h c (list_tasks cursor) = serialize_result (h.list_tasks_of c cursor)
  handle_request h c (cancel_task task_id) = serialize_result (h.cancel_task_of c task_id)

  abbrev pub uri_value : Text → V
  uri_value uri = serde.object_value ((text "uri", serde.string_value uri) ∷ [])

  -- A response to an error or a value of the handler.
  abbrev pub respond : RequestId → Result Error V → JsonrpcResponse V
  respond id r = jsonrpc_response uri_value some serde.as_object id r

  abbrev handled :
      ServerHandler V R → RequestContext V → Result Error (ClientRequest V) → Result Error V
  handled h c (ok request) = handle_request h c request
  handled h c (err e) = err e

  unfoldable pub dispatch_request :
      ServerHandler V R
      → RequestContext V
      → RequestId
      → Text
      → Option (RequestParams V)
      → JsonrpcResponse V
  unfolding handle_request
  dispatch_request h c id method params = respond id (
      handled h c
        (parse_typed_request serde.string_value serde.parse_request serde.meta_value method params))
