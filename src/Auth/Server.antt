-- ===== src/Auth/Server.antt =====
-- auth/server: challenges of a server that wants a bearer token, the origin that they name, and the
-- middleware that asks for the token. Names of headers are in lower case.
use tmcp.Base.{
  ℕ, Bool, false, ◌&&◌, ◌||◌, not, Option, none, some, List, [], ◌∷◌, ◌++◌, nat_beq, if◌then◌else◌,
  is_none, all, is_empty, ◌==◌, nat_eq, mem, Text, text, text_beq, text_eq, starts_with, Result, ok,
  err,
}
use tmcp.Base.Map.{get}
use tmcp.Http.Validation.{HeaderValue, Headers, to_str, eq_ignore_ascii_case}
use tmcp.Auth.{
  quote, backslash, trim_start, trim_end, trim, or_else, trim_end_matches, split_where, split_once,
}

-- A validated token; the other claims are not read.
pub record AuthInfo : Type 0 where
  pub subject : Text
  pub scopes : List Text
  pub audiences : List Text

abbrev pub has_scope : AuthInfo → Text → Bool
has_scope info scope = mem scope info.scopes

unfoldable pub has_all_scopes : AuthInfo → List Text → Bool
has_all_scopes info scopes = all (has_scope info) scopes

pub data AuthError : Type 0 where
  invalid expired : AuthError
  unavailable : Text → AuthError

pub record WwwAuthenticate : Type 0 where
  pub params : List (Text × Text)

abbrev push : Text → Text → WwwAuthenticate → WwwAuthenticate
push key value challenge = record { params = challenge.params ++ (key, value) ∷ [] }

abbrev pub bearer : Text → WwwAuthenticate
bearer resource_metadata =
    push (text "resource_metadata") resource_metadata (record { params = [] })

abbrev pub with_error : Text → WwwAuthenticate → WwwAuthenticate
with_error code challenge = push (text "error") code challenge

abbrev pub with_description : Text → WwwAuthenticate → WwwAuthenticate
with_description description challenge = push (text "error_description") description challenge

abbrev pub with_scope : Text → WwwAuthenticate → WwwAuthenticate
with_scope required_scope challenge = push (text "scope") required_scope challenge

-- `str::replace` of a character.
unfoldable pub replace : ℕ → Text → Text → Text
replace c by [] = []
replace c by (d ∷ s) = let rest = replace c by s in if nat_beq d c then by ++ rest else d ∷ rest

unfoldable pub escape_header_value : Text → Text
unfolding replace
escape_header_value value =
    replace quote (backslash ∷ quote ∷ []) (replace backslash (backslash ∷ backslash ∷ []) value)

abbrev pub param_text : Text × Text → Text
param_text (key, value) = key ++ (b'=' ∷ quote ∷ (escape_header_value value ++ quote ∷ []))

-- `join(", ")`
unfoldable pub joined_params : List (Text × Text) → Text
unfolding escape_header_value
joined_params [] = []
joined_params (param ∷ params) = elim params [
  | [] ↦ param_text param
  | next ∷ more ↦ param_text param ++ b',' ∷ 32 ∷ joined_params params
]

-- The text that becomes the header.
unfoldable pub header_text : WwwAuthenticate → Text
unfolding joined_params
header_text challenge =
    if is_empty challenge.params
    then text "Bearer"
    else text "Bearer" ++ 32 ∷ joined_params challenge.params

abbrev pub bearer_challenge : Text → WwwAuthenticate
bearer_challenge resource_metadata = bearer resource_metadata

abbrev pub invalid_token_challenge : Text → Text → WwwAuthenticate
invalid_token_challenge resource_metadata description =
    with_description description (with_error (text "invalid_token") (bearer resource_metadata))

abbrev pub insufficient_scope_challenge : Text → Text → WwwAuthenticate
insufficient_scope_challenge resource_metadata required_scope =
    with_scope required_scope (with_error (text "insufficient_scope") (bearer resource_metadata))

abbrev pub first_part : List Text → Text
first_part [] = []
first_part (part ∷ parts) = part

abbrev pub unless_blank : Text → Option Text
unless_blank s = if is_empty s then none else some s

unfoldable pub first_forwarded_value : Headers → Text → Option Text
unfolding get text_beq trim_start trim_end split_where
first_forwarded_value headers name = elim (to_str (get name headers)) [
  | none ↦ none
  | some value ↦ unless_blank (trim (first_part (split_where (nat_beq b',') value)))
]

-- `split_once("://")`
unfoldable pub scheme_of : Text → Option Text
unfolding starts_with
scheme_of [] = none
scheme_of (c ∷ s) =
    let rest = scheme_of s in
    if starts_with (text "://") (c ∷ s)
    then some []
    else elim rest [ none ↦ none | some front ↦ some (c ∷ front) ]

abbrev pub origin_of : Text → Option Text → Option Text → Text
origin_of fallback (some scheme) (some host) = scheme ++ text "://" ++ host
origin_of fallback _ _ = trim_end_matches b'/' fallback

unfoldable pub resolve_base_url : Headers → Text → Bool → Text
unfolding first_forwarded_value scheme_of trim_end_matches
resolve_base_url headers fallback trust_forwarded_headers =
    let forwarded_host = first_forwarded_value headers (text "x-forwarded-host") in
    let forwarded_proto = first_forwarded_value headers (text "x-forwarded-proto") in
    if not trust_forwarded_headers || (is_none forwarded_host && is_none forwarded_proto)
    then trim_end_matches b'/' fallback
    else origin_of fallback (or_else forwarded_proto (scheme_of fallback))
        (or_else forwarded_host (first_forwarded_value headers (text "host")))

unfoldable pub resolve_resource_metadata : Headers → Text → Text → Bool → Text
unfolding resolve_base_url
resolve_resource_metadata headers fallback_base relative_path trust_forwarded_headers =
    let base = resolve_base_url headers fallback_base trust_forwarded_headers in
    if is_empty base then relative_path else base ++ relative_path

abbrev pub token_of : Option (Text × Text) → Option Text
token_of none = none
token_of (some (scheme, token)) =
    if eq_ignore_ascii_case scheme (text "bearer") && not (is_empty token) then some token else none

unfoldable pub bearer_token : Headers → Option Text
unfolding get text_beq split_once
bearer_token headers = elim (to_str (get (text "authorization") headers)) [
  | none ↦ none
  | some authorization ↦ token_of (split_once 32 authorization)
]

-- What the middleware does with a request: it hands it on with the identity, or it answers itself.
pub data Reply : Type 0 where
  handed_on : AuthInfo → Reply
  unauthorized : (challenge : HeaderValue) → Reply
  service_unavailable : Reply

pub record BearerAuth : Type 0 where
  pub resource_metadata_path : Text
  pub base_url : Text
  pub trust_forwarded_headers : Bool

unfoldable pub normalize_endpoint_path : Text → Text
unfolding trim_start trim_end trim_end_matches starts_with
normalize_endpoint_path endpoint_path =
    let trimmed = trim endpoint_path in
    let path = trim_end_matches b'/' trimmed in
    if is_empty trimmed || trimmed == text "/"
    then text "/"
    else if starts_with (text "/") path
    then path
    else text "/" ++ path

abbrev pub well_known_path : Text
well_known_path = text "/.well-known/oauth-protected-resource"

unfoldable pub resource_metadata_relative_uri : Text → Text
unfolding normalize_endpoint_path
resource_metadata_relative_uri endpoint_path =
    let path = normalize_endpoint_path endpoint_path in
    if path == text "/" then well_known_path else well_known_path ++ path

abbrev pub new_layer : Text → BearerAuth
new_layer endpoint_path = record {
  resource_metadata_path = resource_metadata_relative_uri endpoint_path;
  base_url = [];
  trust_forwarded_headers = false;
}

abbrev pub with_base_url : Text → BearerAuth → BearerAuth
with_base_url base_url layer = record layer { base_url = trim_end_matches b'/' base_url }

abbrev pub with_trusted_forwarded_headers : Bool → BearerAuth → BearerAuth
with_trusted_forwarded_headers trusted layer = record layer { trust_forwarded_headers = trusted }

abbrev pub metadata_for : BearerAuth → Headers → Text
metadata_for layer headers =
    resolve_resource_metadata headers layer.base_url layer.resource_metadata_path
      layer.trust_forwarded_headers

module _ (from_str : Text → Option HeaderValue) where
  abbrev pub header_value : WwwAuthenticate → Option HeaderValue
  header_value challenge = from_str (header_text challenge)

  -- `none` is the panic of `expect` on a challenge that is no header value.
  abbrev pub unauthorized_response : WwwAuthenticate → Option Reply
  unauthorized_response challenge = elim (header_value challenge) [
    | none ↦ none
    | some value ↦ some (unauthorized value)
  ]

  abbrev pub validated : Text → Result AuthError AuthInfo → Option Reply
  validated metadata (ok info) = some (handed_on info)
  validated metadata (err invalid) =
      unauthorized_response (invalid_token_challenge metadata (text "Invalid access token"))
  validated metadata (err expired) =
      unauthorized_response (invalid_token_challenge metadata (text "Expired access token"))
  validated metadata (err (unavailable message)) = some service_unavailable

  unfoldable pub call : (Text → Result AuthError AuthInfo) → BearerAuth → Headers → Option Reply
  unfolding bearer_token resolve_resource_metadata header_text
  call validate layer headers = elim (bearer_token headers) [
    | none ↦ unauthorized_response (bearer_challenge (metadata_for layer headers))
    | some token ↦ validated (metadata_for layer headers) (validate token)
  ]
