-- ===== src/Serving/Handshake.antt =====
-- server.rs: the initialize request, and the choice of a protocol version (schema/jsonrpc.rs).
use tmcp.Base.{
  ◌≡◌, subst, inl, inr, Bool, Option, none, some, List, [], ◌∷◌, arith, if◌then◌else◌, Option-cases,
  nat_eq, mem, Text, text, text_eq, Result, ok, err,
}
use tmcp.Errors.{Error}
use tmcp.Requests.{RequestId}
use tmcp.JsonRpc.{JsonrpcResponse, RequestParams, parse_typed_request}
use tmcp.JsonRpc.Responses.{response_id-jsonrpc_response}
use tmcp.JsonRpc.Errors.{response_id, jsonrpc_response}
use tmcp.Serving.{
  ClientRequest, Serde, initialize, InitializeRequest, InitializeResult, ServerCapabilities,
}
use tmcp.Serving.Dispatch.{uri_value}

pub record SupportedProtocolVersions : Type 0 where
  pub versions : List Text

pub data SupportedProtocolVersionsError : Type 0 where
  empty : SupportedProtocolVersionsError
  duplicate : Text → SupportedProtocolVersionsError

-- The first version that was seen before.
unfoldable pub first_duplicate : List Text → List Text → Option Text
first_duplicate unique [] = none
first_duplicate unique (version ∷ rest) =
    let later = first_duplicate (version ∷ unique) rest in
    if mem version unique then some version else later

unfoldable pub new_versions :
    List Text → Result SupportedProtocolVersionsError SupportedProtocolVersions
unfolding first_duplicate
new_versions [] = err empty
new_versions (version ∷ rest) = elim (first_duplicate [] (version ∷ rest)) [
  | none ↦ ok (record { versions = version ∷ rest })
  | some twice ↦ err (duplicate twice)
]

-- `latest` and `preferred`; an index out of bounds does not happen to a set that `new` made.
abbrev pub latest : SupportedProtocolVersions → Option Text
latest v = elim v.versions [ [] ↦ none | version ∷ rest ↦ some version ]

abbrev pub contains : SupportedProtocolVersions → Text → Bool
contains v version = mem version v.versions

-- `none` is a panic.
unfoldable pub negotiated : SupportedProtocolVersions → Text → Option Text
negotiated v requested = if contains v requested then some requested else latest v

module _ {V : Type 0} where
  abbrev stamped : Text → Result Error (InitializeResult V) → Result Error (InitializeResult V)
  stamped version (ok r) = ok (record r { protocol_version = version })
  stamped version (err e) = err e

  -- The handler is asked with the negotiated version, which also goes into its answer.
  unfoldable pub initialize_with :
      (Text → InitializeRequest V → Result Error (InitializeResult V))
      → SupportedProtocolVersions
      → InitializeRequest V
      → Option (Result Error (InitializeResult V))
  initialize_with handler v request = elim (negotiated v request.protocol_version) [
    | none ↦ none
    | some version ↦ some (stamped version (handler version request))
  ]

  abbrev pub capabilities_of : Result Error (InitializeResult V) → Option (ServerCapabilities V)
  capabilities_of (ok r) = some r.capabilities
  capabilities_of (err e) = none

  abbrev pub initialize_of : ClientRequest V → Option (InitializeRequest V)
  initialize_of (initialize r) = some r
  initialize_of other = none

  module _ {R : Type 0} (serde : Serde V R) where
    abbrev pub respond_initialize :
        RequestId → Result Error (InitializeResult V) → JsonrpcResponse V
    respond_initialize id r =
        jsonrpc_response (uri_value serde) serde.initialize_value serde.as_object id r

    abbrev answer_initialize :
        RequestId
        → Option (Result Error (InitializeResult V))
        → Option (JsonrpcResponse V × Option (ServerCapabilities V))
    answer_initialize id none = none
    answer_initialize id (some r) = some (respond_initialize id r, capabilities_of r)

    -- `none` is the panic of `unreachable!`.
    abbrev answer_request :
        (Text → InitializeRequest V → Result Error (InitializeResult V))
        → SupportedProtocolVersions
        → RequestId
        → Option (InitializeRequest V)
        → Option (JsonrpcResponse V × Option (ServerCapabilities V))
    answer_request handler v id none = none
    answer_request handler v id (some r) = answer_initialize id (initialize_with handler v r)

    abbrev answer_parsed :
        (Text → InitializeRequest V → Result Error (InitializeResult V))
        → SupportedProtocolVersions
        → RequestId
        → Result Error (ClientRequest V)
        → Option (JsonrpcResponse V × Option (ServerCapabilities V))
    answer_parsed handler v id (err e) = some (respond_initialize id (err e), none)
    answer_parsed handler v id (ok request) = answer_request handler v id (initialize_of request)

    unfoldable pub handle_initialize_request :
        (Text → InitializeRequest V → Result Error (InitializeResult V))
        → SupportedProtocolVersions
        → RequestId
        → Option (RequestParams V)
        → Option (JsonrpcResponse V × Option (ServerCapabilities V))
    unfolding initialize_with negotiated
    handle_initialize_request handler v id params = answer_parsed handler v id (
        parse_typed_request serde.string_value serde.parse_request serde.meta_value
          (text "initialize") params)

    module _ (id : RequestId) (r : JsonrpcResponse V) (caps : Option (ServerCapabilities V)) where
      answered-id :
          (o : Option (Result Error (InitializeResult V)))
          → answer_initialize id o ≡ some (r, caps)
          → response_id r ≡ some id
      answered-id none e = absurd (cc)
      answered-id (some o) e =
          subst (λ x. response_id x ≡ some id) (ground (arith, e))
            (response_id-jsonrpc_response (uri_value serde) serde.initialize_value serde.as_object
              id o)

      parsed-id :
          (handler : Text → InitializeRequest V → Result Error (InitializeResult V))
          (v : SupportedProtocolVersions) (o : Result Error (ClientRequest V))
          → answer_parsed handler v id o ≡ some (r, caps)
          → response_id r ≡ some id
      parsed-id handler v (err failure) e =
          subst (λ x. response_id x ≡ some id) (ground (arith, e))
            (response_id-jsonrpc_response (uri_value serde) serde.initialize_value serde.as_object
              id (err failure))
      parsed-id handler v (ok request) e = elim (Option-cases (initialize_of request)) [
        | inl other ↦ absurd (let h = rw (other, answer_request) at e in cc)
        | inr (q, found) ↦
            answered-id (initialize_with handler v q) (rw (found, answer_request) at e)
      ]

      -- The answer to an initialize request names it.
      pub response_id-handle_initialize_request :
          (handler : Text → InitializeRequest V → Result Error (InitializeResult V))
          (v : SupportedProtocolVersions) (params : Option (RequestParams V))
          → handle_initialize_request handler v id params ≡ some (r, caps)
          → response_id r ≡ some id
      unfolding handle_initialize_request
      response_id-handle_initialize_request handler v params e = parsed-id handler v _ e
