-- ===== src/Auth/Tests.antt =====
-- The challenges and the middleware at concrete headers.
use tmcp.Base.{
  ◌≡◌, refl, Option, some, [], ◌∷◌, if◌then◌else◌, nat_eq, Text, text, text_beq, text_eq, Result,
  ok, err,
}
use tmcp.Base.Map.{get}
use tmcp.JsonRpc.{extend}
use tmcp.Http.Validation.{HeaderValue, visible, Headers, to_ascii_lowercase}
use tmcp.Auth.{split_once, split_where, split_whitespace}
use tmcp.Auth.Challenges.{parse_www_authenticate, parse_scopes}
use tmcp.Auth.Server.{
  new_layer, with_base_url, resource_metadata_relative_uri, AuthInfo, AuthError, invalid,
  BearerAuth, unauthorized, header_text, bearer_token, call,
}
use tmcp.Auth.Segments.{is_key-IsKey}
use tmcp.Auth.RoundTrip.{bearer_with, parse_www_authenticate-header_text}

abbrev odd : Text
odd = text "a\", b=\\"

parse_www_authenticate-header_text_example :
    parse_www_authenticate
      (header_text (record { params = (text "error", odd) ∷ (text "scope", text "read") ∷ [] }))
    ≡ bearer_with (extend [] ((text "error", odd) ∷ (text "scope", text "read") ∷ [])) ∷ []
parse_www_authenticate-header_text_example =
    parse_www_authenticate-header_text (text "error", odd) ((text "scope", text "read") ∷ [])
      (is_key-IsKey (text "error") refl, (is_key-IsKey (text "scope") refl, tt))

two_words : parse_scopes (text " read  write") ≡ text "read" ∷ text "write" ∷ []
unfolding parse_scopes split_whitespace split_where
two_words = refl

abbrev alice : AuthInfo
alice = record { subject = text "alice"; scopes = []; audiences = [] }

abbrev accepts : Text → Result AuthError AuthInfo
accepts token = if text_beq token (text "t1") then ok alice else err invalid

abbrev layer : BearerAuth
layer = with_base_url (text "https://a/") (new_layer (text "m/"))

abbrev with_token : Headers
with_token = (text "authorization", visible (text "bearer t1")) ∷ []

abbrev from_text : Text → Option HeaderValue
from_text s = some (visible s)

accepted : bearer_token with_token ≡ some (text "t1")
unfolding bearer_token get text_beq split_once to_ascii_lowercase
accepted = refl

-- Without trust in the forwarded headers the configured origin is named.
refused :
    call from_text accepts layer ((text "x-forwarded-host", visible (text "evil")) ∷ [])
    ≡ some (
        unauthorized (
          visible
            (text "Bearer resource_metadata=\"https://a/.well-known/oauth-protected-resource/m\"")))
unfolding call resource_metadata_relative_uri text_beq
refused = refl
