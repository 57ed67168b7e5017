-- ===== src/JsonRpc/Tests.antt =====
-- Runs of the JSON-RPC helpers. Values are texts, and an object has one of the serialized forms.
use tmcp.Base.{
  ◌≡◌, refl, Option, none, some, [], ◌∷◌, nat_eq, Text, text, text_beq, text_eq, starts_with,
  Result, ok, err,
}
use tmcp.Base.Map.{get, insert}
use tmcp.Errors.{Error, authorization_failed, method_not_found, invalid_params}
use tmcp.Requests.{string}
use tmcp.JsonRpc.{
  Object, RequestMeta, RequestParams, method_key, params_object, request_object,
  classify_parse_error, contains,
}
use tmcp.JsonRpc.Objects.{request_object-overridden}
use tmcp.JsonRpc.Responses.{answered, decode_response-Seen, Seen}

abbrev value_of_meta : RequestMeta Text → Result Error Text
value_of_meta meta = ok (text "meta")

abbrev call_params : RequestParams Text
call_params = record { meta = none; other = (text "name", text "add") ∷ [] }

abbrev smuggling_params : RequestParams Text
smuggling_params = record { meta = none; other = (text "method", text "ping") ∷ [] }

request_object-overridden_example :
    get method_key ((method_key, text "ping") ∷ []) ≡ some (text "ping")
unfolding params_object request_object get text_beq insert
request_object-overridden_example =
    request_object-overridden (λ t. t) value_of_meta (text "initialize") smuggling_params
      smuggling_params.other ((method_key, text "ping") ∷ []) (text "ping") refl (refl, tt) refl
      refl

abbrev entries : Text → Option (Object Text)
entries value = some ((text "sum", value) ∷ [])

abbrev read_sum : Object Text → Result Text Text
read_sum [] = err (text "missing field `sum`")
read_sum ((key, value) ∷ rest) = ok value

-- The server's own refusal of a token is a protocol error to the peer.
decode_response-Seen_example :
    (e' : Error) × (answered
        (λ t. t)
        (λ (t : Text). some t)
        entries
        (λ o. text "{}")
        read_sum
        (text "tools/call")
        (string (text "7"))
        (err (authorization_failed (text "no token")))
      ≡ err e')
    × Seen (text "tools/call") (authorization_failed (text "no token")) e'
decode_response-Seen_example =
    decode_response-Seen (λ t. t) (λ t. some t) entries (λ o. text "{}") read_sum
      (text "tools/call") (string (text "7")) (authorization_failed (text "no token"))

unknown_method :
    classify_parse_error (text "a/b") (text "unknown variant `a/b`, expected `ping`")
    ≡ method_not_found (text "a/b")
unfolding classify_parse_error contains starts_with
unknown_method = refl

-- An unknown variant inside the params of a known method is not a missing method.
nested_variant :
    classify_parse_error (text "a/b") (text "unknown variant `c`")
    ≡ invalid_params (text "Invalid parameters for a/b: unknown variant `c`")
unfolding classify_parse_error contains starts_with
nested_variant = refl
