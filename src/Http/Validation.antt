-- ===== src/Http/Validation.antt =====
-- http/validation.rs: the checks on the headers of a request. The URL parsers are parameters. The
-- names of headers are in lower case; `get` gives the first value under a name, as `HeaderMap` does.
use tmcp.Base.{
  ℕ, ◌+◌, Bool, true, false, ◌&&◌, ◌||◌, not, Option, none, some, List, [], ◌∷◌, leb, nat_beq,
  if◌then◌else◌, is_some, any, ◌==◌, nat_eq, Text, text, text_eq, starts_with, Result, ok, err,
  ◌>>=◌, ◌>>◌, ok_or,
}
use tmcp.Base.Map.{get}
use tmcp.Versions.{valid_release_date}

-- A header value, which may not be visible ASCII (`to_str` fails).
pub data HeaderValue : Type 0 where
  visible : Text → HeaderValue
  opaque : HeaderValue

abbrev pub Headers : Type 0
Headers = List (Text × HeaderValue)

-- A status code with a body of text.
pub record Rejection : Type 0 where
  pub status : ℕ
  pub body : Text

pub data CorsPolicy : Type 0 where
  same_origin permissive : CorsPolicy
  allow_list : List Text → CorsPolicy

-- The parts of a URL and of an authority that the code reads.
pub record Url : Type 0 where
  pub scheme : Text
  pub host_str : Option Text
  pub port : Option ℕ
  pub port_or_known_default : Option ℕ

pub record Authority : Type 0 where
  pub host : Text
  pub port_u16 : Option ℕ

pub record UrlParsers : Type 0 where
  pub parse_url : Text → Option Url
  pub parse_authority : Text → Option Authority

abbrev pub to_lower : ℕ → ℕ
to_lower c = if leb b'A' c && leb c b'Z' then c + 32 else c

unfoldable pub to_ascii_lowercase : Text → Text
to_ascii_lowercase [] = []
to_ascii_lowercase (c ∷ s) = to_lower c ∷ to_ascii_lowercase s

abbrev pub eq_ignore_ascii_case : Text → Text → Bool
eq_ignore_ascii_case s t = to_ascii_lowercase s == to_ascii_lowercase t

abbrev pub reject : ℕ → Text → Rejection
reject status body = record { status = status; body = body }

abbrev forbidden_origin : Rejection
forbidden_origin = reject 403 (text "Invalid Origin")

-- `if b { return Err(e) }`
abbrev pub reject_if : Bool → Rejection → Result Rejection (Unit {0})
reject_if true e = err e
reject_if false e = ok tt

abbrev pub to_str : Option HeaderValue → Option Text
to_str (some (visible s)) = some s
to_str _ = none

abbrev check_port : Option ℕ → Url → Result Rejection (Unit {0})
check_port none url = reject_if (is_some url.port) forbidden_origin
check_port (some expected) url =
    reject_if (not (option_beq url.port_or_known_default expected)) forbidden_origin
  where
    option_beq : Option ℕ → ℕ → Bool
    option_beq none n = false
    option_beq (some m) n = nat_beq m n

abbrev check_host : Authority → Url → Result Rejection (Unit {0})
check_host authority url = do
  origin_host ← ok_or url.host_str forbidden_origin
  reject_if (not (eq_ignore_ascii_case origin_host authority.host)) forbidden_origin
  check_port authority.port_u16 url

abbrev check_origin : UrlParsers → Text → Headers → Result Rejection (Unit {0})
check_origin urls origin headers = do
  reject_if (origin == text "null") forbidden_origin
  url ← ok_or (urls.parse_url origin) forbidden_origin
  reject_if (not (url.scheme == text "http" || url.scheme == text "https")) forbidden_origin
  host ← ok_or (to_str (get (text "host") headers)) forbidden_origin
  authority ← ok_or (urls.parse_authority host) forbidden_origin
  check_host authority url

unfoldable pub validate_same_origin : UrlParsers → Headers → Result Rejection (Unit {0})
validate_same_origin urls headers = elim (get (text "origin") headers) [
  | none ↦ ok tt
  | some value ↦
      ok_or (to_str (some value)) forbidden_origin >>= λ origin. check_origin urls origin headers
]

abbrev check_listed : List Text → HeaderValue → Result Rejection (Unit {0})
check_listed origins opaque = err forbidden_origin
check_listed origins (visible origin) =
    reject_if (not (any (λ allowed. eq_ignore_ascii_case allowed origin) origins)) forbidden_origin

unfoldable pub validate_origin : UrlParsers → Headers → CorsPolicy → Result Rejection (Unit {0})
unfolding validate_same_origin
validate_origin urls headers permissive = ok tt
validate_origin urls headers same_origin = validate_same_origin urls headers
validate_origin urls headers (allow_list origins) = elim (get (text "origin") headers) [
  | none ↦ ok tt
  | some value ↦ check_listed origins value
]

abbrev invalid_version : Rejection
invalid_version = reject 400 (text "Invalid protocol version")

abbrev check_expected : Option Text → Text → Result Rejection (Unit {0})
check_expected none version = ok tt
check_expected (some expected) version =
    reject_if (not (expected == version))
      (reject 400 (text "Protocol version does not match session"))

abbrev check_version : Option Text → HeaderValue → Result Rejection (Unit {0})
check_version expected opaque = err invalid_version
check_version expected (visible version) =
    if valid_release_date version then check_expected expected version else err invalid_version

unfoldable pub validate_protocol_version : Headers → Option Text → Result Rejection (Unit {0})
validate_protocol_version headers expected = elim (get (text "mcp-protocol-version") headers) [
  | none ↦ ok tt
  | some value ↦ check_version expected value
]

abbrev not_json : Rejection
not_json = reject 415 (text "Content-Type must be application/json")

abbrev check_json : Option HeaderValue → Result Rejection (Unit {0})
check_json none = err not_json
check_json (some opaque) = err (reject 415 (text "Invalid Content-Type"))
check_json (some (visible s)) =
    reject_if (not (starts_with (text "application/json") (to_ascii_lowercase s))) not_json

unfoldable pub validate_json_content_type : Headers → Result Rejection (Unit {0})
validate_json_content_type headers = check_json (get (text "content-type") headers)
