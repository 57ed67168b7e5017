-- ===== src/Custom.antt =====
-- custom.rs: requests of a server with a method outside the schema, and their payload limit.
pub mod Client
pub mod Laws
pub mod Tests
use tmcp.Base.{
  ℕ, zero, suc, ◌+◌, ◌*◌, ◌/◌, Bool, true, false, not, Option, none, some, List, [], ◌∷◌, ◌++◌,
  arith, ltb, if◌then◌else◌, length, Eq, ◌==◌, nat_eq, mem, Text, text, text_eq, Result, ok, err,
  ◌>>=◌, ◌>>◌,
}
use tmcp.Errors.{Error, invalid_request, invalid_params, payload_too_large}
use tmcp.JsonRpc.{Object, RequestMeta, RequestParams, Request, request_params}

abbrev pub custom_payload_limit : ℕ
custom_payload_limit = 1024 * 1024

-- The timeout is in nanoseconds.
pub record CustomRequest (V : Type 0) : Type 0 where
  pub method : Text
  pub params : Option (Object V)
  pub timeout : Option ℕ
  pub payload_limit : ℕ

abbrev pub server_request_methods : List Text
server_request_methods =
    text "ping"
    ∷ text "sampling/createMessage"
    ∷ text "roots/list"
    ∷ text "elicitation/create"
    ∷ text "tasks/get"
    ∷ text "tasks/result"
    ∷ text "tasks/list"
    ∷ text "tasks/cancel"
    ∷ []

unfoldable pub is_server_request_method : Text → Bool
is_server_request_method method = mem method server_request_methods

-- `Counter`: the pieces that the serializer writes are counted one after the other.
unfoldable pub count_written : ℕ → List Text → ℕ
count_written counter [] = counter
count_written counter (buf ∷ bufs) = count_written (counter + length buf) bufs

module _ {P : Type 0} (to_writer : P → Result Error (List Text)) where
  unfoldable pub encoded_len : P → Result Error ℕ
  unfolding count_written
  encoded_len payload = do written ← to_writer payload; ok (count_written 0 written)

  abbrev pub within : Text → ℕ → ℕ → Result Error (Unit {0})
  within method limit size =
      if ltb limit size then err (payload_too_large method size limit) else ok tt

  unfoldable pub check_payload : Text → P → ℕ → Result Error (Unit {0})
  unfolding encoded_len
  check_payload method payload limit = do size ← encoded_len payload; within method limit size

-- What a serialized value is to `CustomRequest::new`.
pub data ParamsValue (V : Type 0) : Type 0 where
  object : Object V → ParamsValue V
  null other : ParamsValue V

module _ {V : Type 0} where
  abbrev params_of : Text → ParamsValue V → Result Error (Option (Object V))
  params_of method (object fields) = ok (some fields)
  params_of method null = ok none
  params_of method other =
      err (invalid_params (text "the params of " ++ method ++ text " must be a JSON object"))

  unfoldable pub new_request : Text → Result Error (ParamsValue V) → Result Error (CustomRequest V)
  unfolding is_server_request_method
  new_request method value =
      if is_server_request_method method
      then err (
          invalid_request
            (text "`" ++ method ++ text "` is a standard MCP request, not a custom request"))
      else do
        v ← value
        params ← params_of method v
        ok (record {
          method = method;
          params = params;
          timeout = none;
          payload_limit = custom_payload_limit;
        })

  abbrev pub with_timeout : ℕ → CustomRequest V → CustomRequest V
  with_timeout timeout r = record r { timeout = some timeout }

  abbrev pub without_timeout : CustomRequest V → CustomRequest V
  without_timeout r = with_timeout 0 r

  abbrev pub with_payload_limit : ℕ → CustomRequest V → CustomRequest V
  with_payload_limit limit r = record r { payload_limit = limit }

  module _ (to_writer : Object V → Result Error (List Text))
      (parse_meta : V → Option (RequestMeta V)) where
    abbrev pub check_params : CustomRequest V → Result Error (Unit {0})
    check_params r = elim r.params [
      | none ↦ ok tt
      | some params ↦ check_payload to_writer r.method params r.payload_limit
    ]

    abbrev pub split_params : Option (Object V) → Option (RequestParams V)
    split_params none = none
    split_params (some params) = request_params parse_meta params

    unfoldable pub prepare : CustomRequest V → Result Error (Request V × Option ℕ × ℕ)
    unfolding check_payload request_params
    prepare r = do
      check_params r
      ok (record { method = r.method; params = split_params r.params }, r.timeout, r.payload_limit)
