-- ===== src/JsonRpc/Responses.antt =====
-- What a peer makes of a response: results come back, errors by their class.
use tmcp.Base.{
  ℕ, ◌≡◌, refl, ◌≢◌, Option, some, ◌++◌, nat_eq, Text, text, text_eq, Result, ok, err, int_beq,
}
use tmcp.Requests.{RequestId}
use tmcp.Errors.{
  Error, method_not_found, invalid_params, tool_not_found, prompt_not_found, group_not_found,
  group_inactive, payload_too_large, protocol, io, json_parse, transport, transport_disconnected,
  connection_closed, invalid_request, internal_error, resource_not_found, invalid_message_format,
  tool_execution_failed, invalid_configuration, authorization_failed, timeout, cancelled,
}
use tmcp.JsonRpc.{Object}
use tmcp.JsonRpc.Errors.{jsonrpc_response, decode_response, response_id, result_entries, decoded}

-- The errors that blame the params of the request.
pub data BlamesParams : Error → Type 0 where
  tool : (name : Text) → BlamesParams (tool_not_found name)
  prompt : (name : Text) → BlamesParams (prompt_not_found name)
  params : (message : Text) → BlamesParams (invalid_params message)
  payload : (method : Text) (size limit : ℕ) → BlamesParams (payload_too_large method size limit)
  group : (name : Text) → BlamesParams (group_not_found name)
  inactive : (name parent : Text) → BlamesParams (group_inactive name parent)

-- How a peer sees an error: as a missing method, as bad params, or as a protocol error.
pub data Seen (method : Text) : Error → Error → Type 0 where
  missing :
      (name : Text)
      → Seen method (method_not_found name) (method_not_found (text "Method not found: " ++ name))
  blamed :
      {e : Error} (message : Text)
      → BlamesParams e
      → Seen method e (invalid_params (method ++ text ": " ++ message))
  other :
      {e : Error} (message : Text)
      → ((name : Text) → e ≢ method_not_found name)
      → (BlamesParams e → ⊥)
      → Seen method e (protocol (text "JSON-RPC error " ++ message))

module _ {V T : Type 0} (uri_value : Text → V) (to_value : T → Option V)
    (as_object : V → Option (Object V)) where
  -- A response names its request, also an error.
  pub response_id-jsonrpc_response :
      (id : RequestId) (r : Result Error T)
      → response_id (jsonrpc_response uri_value to_value as_object id r) ≡ some id
  unfolding response_id jsonrpc_response
  response_id-jsonrpc_response id (ok value) = refl
  response_id-jsonrpc_response id (err e) = refl

module _ {V T : Type 0} (uri_value : Text → V) (to_value : T → Option V)
    (as_object : V → Option (Object V)) (object_value : Object V → V)
    (from_value : Object V → Result Text T) where
  abbrev pub answered : Text → RequestId → Result Error T → Result Error T
  answered method id r =
      decode_response object_value from_value method
        (jsonrpc_response uri_value to_value as_object id r)

  -- A result whose serialization is an object, from which it is deserialized again, arrives.
  decode_response-jsonrpc_response :
      (method : Text) (id : RequestId) (value : T) (json : V) (object : Object V)
      → to_value value ≡ some json
      → as_object json ≡ some object
      → from_value object ≡ ok value
      → answered method id (ok value) ≡ ok value
  unfolding decode_response jsonrpc_response
  decode_response-jsonrpc_response method id value json object s o d =
      rw s (rw (o, result_entries) (rw (d, decoded)))

  -- The peer gets an error for an error: `MethodNotFound` for this one alone, `InvalidParams` exactly
  -- for those that blame the params, and a protocol error for each other, `AuthorizationFailed` too.
  pub decode_response-Seen :
      (method : Text) (id : RequestId) (e : Error)
      → (e' : Error) × (answered method id (err e) ≡ err e') × Seen method e e'
  unfolding decode_response jsonrpc_response int_beq
  decode_response-Seen method id (method_not_found name) = (_, refl, missing name)
  decode_response-Seen method id (tool_not_found a) = (_, refl, blamed _ (tool a))
  decode_response-Seen method id (prompt_not_found a) = (_, refl, blamed _ (prompt a))
  decode_response-Seen method id (invalid_params a) = (_, refl, blamed _ (params a))
  decode_response-Seen method id (payload_too_large a b c) = (_, refl, blamed _ (payload a b c))
  decode_response-Seen method id (group_not_found a) = (_, refl, blamed _ (group a))
  decode_response-Seen method id (group_inactive a b) = (_, refl, blamed _ (inactive a b))
  decode_response-Seen method id (io a) = (_, refl, other _ (λ name. cc) (λ b. elim b [ ]))
  decode_response-Seen method id (json_parse a) = (_, refl, other _ (λ name. cc) (λ b. elim b [ ]))
  decode_response-Seen method id (transport a) = (_, refl, other _ (λ name. cc) (λ b. elim b [ ]))
  decode_response-Seen method id transport_disconnected =
      (_, refl, other _ (λ name. cc) (λ b. elim b [ ]))
  decode_response-Seen method id connection_closed =
      (_, refl, other _ (λ name. cc) (λ b. elim b [ ]))
  decode_response-Seen method id (protocol a) = (_, refl, other _ (λ name. cc) (λ b. elim b [ ]))
  decode_response-Seen method id (invalid_request a) =
      (_, refl, other _ (λ name. cc) (λ b. elim b [ ]))
  decode_response-Seen method id (internal_error a) =
      (_, refl, other _ (λ name. cc) (λ b. elim b [ ]))
  decode_response-Seen method id (resource_not_found a) =
      (_, refl, other _ (λ name. cc) (λ b. elim b [ ]))
  decode_response-Seen method id (invalid_message_format a) =
      (_, refl, other _ (λ name. cc) (λ b. elim b [ ]))
  decode_response-Seen method id (tool_execution_failed a b) =
      (_, refl, other _ (λ name. cc) (λ b. elim b [ ]))
  decode_response-Seen method id (invalid_configuration a) =
      (_, refl, other _ (λ name. cc) (λ b. elim b [ ]))
  decode_response-Seen method id (authorization_failed a) =
      (_, refl, other _ (λ name. cc) (λ b. elim b [ ]))
  decode_response-Seen method id (timeout a b) = (_, refl, other _ (λ name. cc) (λ b. elim b [ ]))
  decode_response-Seen method id (cancelled a) = (_, refl, other _ (λ name. cc) (λ b. elim b [ ]))
