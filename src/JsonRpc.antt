-- ===== src/JsonRpc.antt =====
-- schema/jsonrpc.rs and jsonrpc.rs: messages, error objects, and the params of a request as one
-- object. A `serde_json::Value` is a parameter `V`; an object is its entries. The derived
-- serializers are parameters of the functions that call them.
pub mod Errors
pub mod Objects
pub mod Responses
pub mod Tests
use tmcp.Base.{
  zero, suc, ◌+◌, Bool, true, false, ◌&&◌, ◌||◌, Option, none, some, List, [], ◌∷◌, ◌++◌, arith,
  if◌then◌else◌, is_none, is_empty, Eq, ◌==◌, nat_eq, Text, text, text_eq, starts_with, Result, ok,
  err, ◌>>=◌, ◌>>◌, ℤ, negsuc,
}
use mathlib.Core.Option
use tmcp.Base.Map.{get, insert, remove, contains_key}
use tmcp.Errors.{Error, method_not_found, invalid_params, protocol, json_parse}
use tmcp.Requests.{request_id_eq, RequestId}

abbrev pub Object : Type 0 → Type 0
Object V = List (Text × V)

pub data ProgressToken : Type 0 where
  string : Text → ProgressToken
  number : ℤ → ProgressToken

pub record RequestMeta (V : Type 0) : Type 0 where
  pub progress_token : Option ProgressToken
  pub other : Object V

pub record RequestParams (V : Type 0) : Type 0 where
  pub meta : Option (RequestMeta V)
  pub other : Object V

pub record Request (V : Type 0) : Type 0 where
  pub method : Text
  pub params : Option (RequestParams V)

pub record NotificationParams (V : Type 0) : Type 0 where
  pub meta : Option (Object V)
  pub other : Object V

pub record Notification (V : Type 0) : Type 0 where
  pub method : Text
  pub params : Option (NotificationParams V)

-- `details` is the member `data`.
pub record ErrorObject (V : Type 0) : Type 0 where
  pub code : ℤ
  pub message : Text
  pub details : Option V

pub data JsonrpcResponse (V : Type 0) : Type 0 where
  result : (id : RequestId) (meta : Option (Object V)) (other : Object V) → JsonrpcResponse V
  error : (id : Option RequestId) (object : ErrorObject V) → JsonrpcResponse V

pub data JsonrpcMessage (V : Type 0) : Type 0 where
  request : (id : RequestId) (body : Request V) → JsonrpcMessage V
  notification : Notification V → JsonrpcMessage V
  response : JsonrpcResponse V → JsonrpcMessage V

-- The error codes; `negsuc n` is -(n + 1).
abbrev pub parse_error : ℤ
parse_error = negsuc 32699

abbrev pub invalid_request_code : ℤ
invalid_request_code = negsuc 32599

abbrev pub method_not_found_code : ℤ
method_not_found_code = negsuc 32600

abbrev pub invalid_params_code : ℤ
invalid_params_code = negsuc 32601

abbrev pub internal_error_code : ℤ
internal_error_code = negsuc 32602

abbrev pub resource_not_found_code : ℤ
resource_not_found_code = negsuc 32001

abbrev pub authorization_failed_code : ℤ
authorization_failed_code = negsuc 32040

abbrev pub meta_key : Text
meta_key = text "_meta"

abbrev pub method_key : Text
method_key = text "method"

-- `extend`: each entry is inserted in turn.
unfoldable pub extend : {V : Type 0} → Object V → Object V → Object V
extend object [] = object
extend object ((key, value) ∷ rest) = extend (insert key value object) rest

module _ {V : Type 0} (meta_value : RequestMeta V → Result Error V) where
  unfoldable pub params_object : RequestParams V → Result Error (Object V)
  params_object params = elim params.meta [
    | none ↦ ok params.other
    | some meta ↦ elim (meta_value meta) [
      | ok value ↦ ok (insert meta_key value params.other)
      | err e ↦ err e
    ]
  ]

abbrev pub unless_empty :
    {V : Type 0} → Option (RequestMeta V) → Object V → Option (RequestParams V)
unless_empty meta other =
    if is_empty other && is_none meta then none else some (record { meta = meta; other = other })

module _ {V : Type 0} (parse_meta : V → Option (RequestMeta V)) where
  -- A `_meta` that is no request metadata is dropped.
  abbrev pub meta_of : Object V → Option (RequestMeta V)
  meta_of object = elim (get meta_key object) [ none ↦ none | some value ↦ parse_meta value ]

  unfoldable pub request_params : Object V → Option (RequestParams V)
  request_params object = unless_empty (meta_of object) (remove meta_key object)

-- `str::contains`
unfoldable pub contains : Text → Text → Bool
contains part [] = starts_with part []
contains part (c ∷ s) = starts_with part (c ∷ s) || contains part s

unfoldable pub classify_parse_error : Text → Text → Error
classify_parse_error method message =
    if contains (text "unknown variant `" ++ method ++ text "`") message
    then method_not_found method
    else invalid_params (text "Invalid parameters for " ++ method ++ text ": " ++ message)

module _ {V : Type 0} (string_value : Text → V) where
  abbrev pub tagged : Text → Object V
  tagged method = (method_key, string_value method) ∷ []

  -- The object that `parse_typed_request` hands to the deserializer.
  unfoldable pub request_object :
      (RequestMeta V → Result Error V) → Text → Option (RequestParams V) → Result Error (Object V)
  unfolding extend params_object
  request_object meta_value method none = ok (tagged method)
  request_object meta_value method (some params) = do
    fields ← params_object meta_value params
    ok (extend (tagged method) fields)

  abbrev with_meta : (Object V → V) → Option (Object V) → Object V → Object V
  with_meta object_value none object = object
  with_meta object_value (some meta) object = insert meta_key (object_value meta) object

  unfoldable pub notification_object : (Object V → V) → Notification V → Object V
  unfolding extend
  notification_object object_value n = elim n.params [
    | none ↦ tagged n.method
    | some params ↦ extend (with_meta object_value params.meta (tagged n.method)) params.other
  ]

module _ {V T : Type 0} (string_value : Text → V) (from_value : Object V → Result Text T) where
  abbrev typed : Text → Object V → Result Error T
  typed method object = elim (from_value object) [
    | ok value ↦ ok value
    | err message ↦ err (classify_parse_error method message)
  ]

  unfoldable pub parse_typed_request :
      (RequestMeta V → Result Error V) → Text → Option (RequestParams V) → Result Error T
  unfolding request_object
  parse_typed_request meta_value method params = do
    object ← request_object string_value meta_value method params
    typed method object

  unfoldable pub parse_typed_notification : (Object V → V) → Notification V → Result Error T
  unfolding notification_object
  parse_typed_notification object_value n =
      typed n.method (notification_object string_value object_value n)
