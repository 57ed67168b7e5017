-- ===== src/JsonRpc/Errors.antt =====
-- error.rs and jsonrpc.rs: the text of an error, its JSON-RPC error object, and the response that
-- carries a result or an error to the peer, and what the peer makes of it (request_handler.rs).
use tmcp.Base.{
  suc, Option, none, some, [], ◌∷◌, ◌++◌, if◌then◌else◌, nat_eq, Text, text, text_eq, Result, ok,
  err, decimal, ℤ, pos, negsuc, int_beq,
}
use tmcp.Base.Map.{insert}
use tmcp.Requests.{RequestId}
use tmcp.Errors.{
  Error, io, json_parse, transport, transport_disconnected, connection_closed, protocol,
  invalid_request, method_not_found, invalid_params, internal_error, resource_not_found,
  invalid_message_format, tool_not_found, prompt_not_found, tool_execution_failed, group_not_found,
  group_inactive, invalid_configuration, authorization_failed, timeout, cancelled,
  payload_too_large,
}
use tmcp.JsonRpc.{
  Object, ErrorObject, JsonrpcResponse, result, error, parse_error, invalid_request_code,
  method_not_found_code, invalid_params_code, internal_error_code, resource_not_found_code,
  authorization_failed_code, meta_key,
}

-- `Display`
unfoldable pub to_string : Error → Text
to_string (io message) = text "IO error: " ++ message
to_string (json_parse message) = text "JSON serialization error: " ++ message
to_string (transport message) = text "Transport error: " ++ message
to_string transport_disconnected = text "Transport disconnected unexpectedly"
to_string connection_closed = text "Connection closed"
to_string (protocol message) = text "Protocol error: " ++ message
to_string (invalid_request message) = text "Invalid request: " ++ message
to_string (method_not_found name) = text "Method not found: " ++ name
to_string (invalid_params message) = text "Invalid parameters: " ++ message
to_string (internal_error message) = text "Internal error: " ++ message
to_string (resource_not_found uri) = text "Resource not found: " ++ uri
to_string (invalid_message_format message) = text "Invalid message format: " ++ message
to_string (tool_not_found name) = text "Tool not found: " ++ name
to_string (prompt_not_found name) = text "Prompt not found: " ++ name
to_string (tool_execution_failed tool message) =
    text "Tool execution failed for '" ++ tool ++ text "': " ++ message
to_string (group_not_found group) = text "Tool group not found: " ++ group
to_string (group_inactive group parent) =
    text "Tool group '" ++ group ++ text "' requires active parent '" ++ parent ++ text "'"
to_string (invalid_configuration message) = text "Invalid configuration: " ++ message
to_string (authorization_failed message) = text "Authorization failed: " ++ message
to_string (timeout request_id timeout_ms) =
    text "Request timed out after " ++ decimal timeout_ms ++ text "ms: " ++ request_id
to_string (cancelled request_id) = text "Request cancelled: " ++ request_id
to_string (payload_too_large method size limit) =
    text "Payload of "
    ++ method
    ++ text " is "
    ++ decimal size
    ++ text " bytes, over the limit of "
    ++ decimal limit
    ++ text " bytes"

abbrev pub signed_decimal : ℤ → Text
signed_decimal (pos n) = decimal n
signed_decimal (negsuc n) = text "-" ++ decimal (suc n)

module _ {V : Type 0} (uri_value : Text → V) where
  abbrev plain : ℤ → Text → ErrorObject V
  plain code message = record { code = code; message = message; details = none }

  unfoldable pub error_object : Error → ErrorObject V
  unfolding to_string
  error_object (tool_not_found name) = plain invalid_params_code (text "Unknown tool: " ++ name)
  error_object (prompt_not_found name) = plain invalid_params_code (text "Unknown prompt: " ++ name)
  error_object (resource_not_found uri) = record {
    code = resource_not_found_code;
    message = text "Resource not found";
    details = some (uri_value uri);
  }
  error_object (method_not_found name) =
      plain method_not_found_code (text "Method not found: " ++ name)
  error_object (invalid_params message) =
      plain invalid_params_code (text "Invalid parameters: " ++ message)
  error_object (payload_too_large method size limit) =
      plain invalid_params_code (to_string (payload_too_large method size limit))
  error_object (invalid_request message) =
      plain invalid_request_code (text "Invalid request: " ++ message)
  error_object (group_not_found group) =
      plain invalid_params_code (text "Group not found: " ++ group)
  error_object (group_inactive group parent) =
      plain invalid_params_code
        (text "Group '" ++ group ++ text "' requires active parent '" ++ parent ++ text "'")
  error_object (json_parse message) =
      plain parse_error (text "JSON serialization error: " ++ message)
  error_object (invalid_message_format message) =
      plain parse_error (text "Invalid message format: " ++ message)
  error_object other = plain internal_error_code (to_string other)

  module _ {T : Type 0} (to_value : T → Option V) (as_object : V → Option (Object V)) where
    abbrev pub result_key : Text
    result_key = text "result"

    -- The entries of a result; a value that does not serialize is sent as `{}`.
    abbrev pub result_entries : Option V → Object V
    result_entries none = []
    result_entries (some value) = elim (as_object value) [
      | some object ↦ object
      | none ↦ (result_key, value) ∷ []
    ]

    unfoldable pub jsonrpc_response : RequestId → Result Error T → JsonrpcResponse V
    unfolding error_object
    jsonrpc_response id (ok value) = result id none (result_entries (to_value value))
    jsonrpc_response id (err e) = error (some id) (error_object e)

module _ {V T : Type 0} (object_value : Object V → V) (from_value : Object V → Result Text T) where
  abbrev decode_error : Text → ErrorObject V → Error
  decode_error method e =
      if int_beq e.code method_not_found_code
      then method_not_found e.message
      else if int_beq e.code invalid_params_code
      then invalid_params (method ++ text ": " ++ e.message)
      else if int_beq e.code authorization_failed_code
      then authorization_failed e.message
      else protocol (text "JSON-RPC error " ++ signed_decimal e.code ++ text ": " ++ e.message)

  abbrev joined : Option (Object V) → Object V → Object V
  joined none other = other
  joined (some meta) other = insert meta_key (object_value meta) other

  abbrev pub decoded : Result Text T → Result Error T
  decoded (ok value) = ok value
  decoded (err message) = err (protocol (text "Failed to deserialize response: " ++ message))

  unfoldable pub decode_response : Text → JsonrpcResponse V → Result Error T
  decode_response method (result id meta other) = decoded (from_value (joined meta other))
  decode_response method (error id e) = err (decode_error method e)

unfoldable pub response_id : {V : Type 0} → JsonrpcResponse V → Option RequestId
response_id (result id meta other) = some id
response_id (error id e) = id
