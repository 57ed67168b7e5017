-- ===== src/Auth/RoundTrip.antt =====
-- auth: a client reads from a challenge what the server has written into it.
use tmcp.Base.{
  ◌≡◌, refl, sym, ap, ◌∙◌, false, Option, none, some, List, [], ◌∷◌, ◌++◌, map, if◌then◌else◌,
  is_empty, All, nat_eq, Text, text, text_beq, text_eq, Result, ok,
}
use mathlib.Core.List.{append_assoc, append-nil}
use tmcp.Base.Map.{get, insert}
use tmcp.JsonRpc.{extend}
use tmcp.Auth.{or_else, quote, trim_start, trim, extend_first}
use tmcp.Http.Validation.{visible, to_ascii_lowercase}
use tmcp.Auth.Challenges.{
  parse_scopes, metadata_of, or_later, first_metadata, parse_resource_metadata_challenge,
  AuthChallenge, split_from, split_scheme_segment, take_segment, take_part, insert_param,
  parse_segments, all_challenges, parse_www_authenticate,
}
use tmcp.Auth.Server.{
  insufficient_scope_challenge, escape_header_value, param_text, joined_params, header_text,
}
use tmcp.Auth.Segments.{
  is_key-IsKey, IsKey, IsPlain, key-IsPlain, prepend, prepend-first, plain-then, split_from-closed,
  trim-param_text, parse_param-param_text, split_scheme_segment-param_text, first_segment,
  trim-first_segment, split_scheme_segment-first_segment,
}

abbrev pub HasKeys : List (Text × Text) → Type 0
HasKeys params = All (λ (p : Text × Text). IsKey p.0) params

-- A param, with a plain text before it, is one segment.
split_from-param_text :
    (front : Text) (param : Text × Text) (t : Text)
    → All IsPlain front
    → IsKey param.0
    → split_from false false ((front ++ param_text param) ++ t)
      ≡ prepend (front ++ param_text param) (split_from false false t)
unfolding split_from
split_from-param_text front (key, value) t plain valid =
    plain-then front (param_text (key, value)) t plain (
      plain-then key (b'=' ∷ quote ∷ (escape_header_value value ++ quote ∷ [])) t
        (key-IsPlain key valid.chars)
        (ap (λ parts. extend_first b'=' (extend_first quote parts)) (split_from-closed value t)))

abbrev spaced : Text × Text → Text
spaced param = 32 ∷ param_text param

segments :
    (front : Text) (param : Text × Text) (params : List (Text × Text))
    → All IsPlain front
    → HasKeys (param ∷ params)
    → split_from false false (front ++ joined_params (param ∷ params))
      ≡ (front ++ param_text param) ∷ map spaced params
unfolding joined_params split_from
segments front param [] plain valid =
    ap (split_from false false) (sym (append-nil (front ++ param_text param)))
    ∙ split_from-param_text front param [] plain valid.0
    ∙ prepend-first (front ++ param_text param) []
segments front param (next ∷ params) plain valid =
    let rest = b',' ∷ 32 ∷ joined_params (next ∷ params) in
    ap (split_from false false) (sym (append_assoc front (param_text param) rest))
    ∙ split_from-param_text front param rest plain valid.0
    ∙ prepend-first (front ++ param_text param)
        (split_from false false (32 ∷ joined_params (next ∷ params)))
    ∙ ap (◌∷◌ (front ++ param_text param))
        (segments (32 ∷ []) next params ((refl, refl), tt) valid.1)

full : (param : Text × Text) → IsKey param.0 → is_empty (param_text param) ≡ false
full ([], value) valid = absurd (let h = valid.full in cc)
full (c ∷ key, value) valid = refl

take_part-trimmed :
    (part segment : Text) (state : List AuthChallenge × Option AuthChallenge)
    → trim part ≡ segment
    → is_empty segment ≡ false
    → take_part part state ≡ take_segment (split_scheme_segment segment) segment state
unfolding take_part
take_part-trimmed part segment state e full' =
    ap (λ s. if is_empty s then state else take_segment (split_scheme_segment s) s state) e
    ∙ (rw full' refl)

abbrev with_params : List (Text × Text) → AuthChallenge → AuthChallenge
with_params params challenge = record challenge { params = params }

take_part-spaced :
    (param : Text × Text) (challenges : List AuthChallenge) (challenge : AuthChallenge)
    → IsKey param.0
    → take_part (spaced param) (challenges, some challenge)
      ≡ (challenges, some (with_params (insert param.0 param.1 challenge.params) challenge))
unfolding trim_start
take_part-spaced (key, value) challenges challenge valid =
    take_part-trimmed (spaced (key, value)) (param_text (key, value)) (challenges, some challenge)
      (trim-param_text key value valid) (full (key, value) valid)
    ∙ ap (λ o. take_segment o (param_text (key, value)) (challenges, some challenge))
        (split_scheme_segment-param_text key value valid)
    ∙ ap (λ o. (challenges, some (with_params (insert_param o challenge.params) challenge)))
        (parse_param-param_text key value valid)

parse_segments-spaced :
    (params : List (Text × Text)) (challenges : List AuthChallenge) (challenge : AuthChallenge)
    → HasKeys params
    → parse_segments (map spaced params) (challenges, some challenge)
      ≡ (challenges, some (with_params (extend challenge.params params) challenge))
unfolding parse_segments extend
parse_segments-spaced [] challenges challenge valid = refl
parse_segments-spaced ((key, value) ∷ params) challenges challenge valid =
    ap (parse_segments (map spaced params))
      (take_part-spaced (key, value) challenges challenge valid.0)
    ∙ parse_segments-spaced params challenges
        (with_params (insert key value challenge.params) challenge) valid.1

abbrev pub bearer_with : List (Text × Text) → AuthChallenge
bearer_with params = record { scheme = text "Bearer"; params = params }

take_part-first_segment :
    (key value : Text)
    → IsKey key
    → take_part (first_segment key value) ([], none) ≡ ([], some (bearer_with ((key, value) ∷ [])))
unfolding insert
take_part-first_segment key value valid =
    take_part-trimmed (first_segment key value) (first_segment key value) ([], none)
      (trim-first_segment key value valid) refl
    ∙ ap (λ o. take_segment o (first_segment key value) ([], none))
        (split_scheme_segment-first_segment key value valid)
    ∙ ap (λ o. ([], some (bearer_with (insert_param o []))))
        (parse_param-param_text key value valid)

bearer-IsPlain : All IsPlain (text "Bearer" ++ 32 ∷ [])
bearer-IsPlain = (
  (refl, refl),
  (
    (refl, refl),
    ((refl, refl), ((refl, refl), ((refl, refl), ((refl, refl), ((refl, refl), tt))))),
  ),
)

-- A client that parses the challenge which the server has printed gets one challenge, for bearer
-- tokens, with the params of the server, whatever characters their values have; of two params with
-- the same key the later one counts. There is at least one param, and the keys are words in lower
-- case.
pub parse_www_authenticate-header_text :
    (param : Text × Text) (params : List (Text × Text))
    → HasKeys (param ∷ params)
    → parse_www_authenticate (header_text (record { params = param ∷ params }))
      ≡ bearer_with (extend [] (param ∷ params)) ∷ []
unfolding parse_www_authenticate header_text parse_segments extend insert
parse_www_authenticate-header_text (key, value) params valid =
    ap (λ parts. all_challenges (parse_segments parts ([], none)))
      (segments (text "Bearer" ++ 32 ∷ []) (key, value) params bearer-IsPlain valid)
    ∙ ap (λ state. all_challenges (parse_segments (map spaced params) state))
        (take_part-first_segment key value valid.0)
    ∙ ap all_challenges (parse_segments-spaced params [] (bearer_with ((key, value) ∷ [])) valid.1)

abbrev scope_params : Text → Text → List (Text × Text)
scope_params url scope =
    (text "resource_metadata", url)
    ∷ (text "error", text "insufficient_scope")
    ∷ (text "scope", scope)
    ∷ []

url-scope_params :
    (url scope : Text)
    → get (text "resource_metadata") (extend [] (scope_params url scope)) ≡ some url
unfolding extend insert get text_beq
url-scope_params url scope = refl

scope-scope_params :
    (url scope : Text) → get (text "scope") (extend [] (scope_params url scope)) ≡ some scope
unfolding extend insert get text_beq
scope-scope_params url scope = refl

module _ {E U : Type 0} (resolve_relative_url : Text → Result E U) where
  metadata_of-bearer :
      (params : List (Text × Text)) (url scope : Text) (u : U)
      → get (text "resource_metadata") params ≡ some url
      → get (text "scope") params ≡ some scope
      → resolve_relative_url url ≡ ok u
      → metadata_of resolve_relative_url (bearer_with params)
        ≡ some (ok (record { metadata_url = u; scopes = some (parse_scopes scope) }))
  unfolding to_ascii_lowercase text_beq
  metadata_of-bearer params url scope u at_url at_scope resolves =
      rw at_url (rw (resolves, at_scope) refl)

  -- A request that lacks a scope: the client finds the metadata of the resource, and the scopes
  -- that it has to ask for, in the challenge of the server, if the metadata URL resolves.
  parse_resource_metadata_challenge-insufficient_scope :
      (url scope : Text) (u : U)
      → resolve_relative_url url ≡ ok u
      → parse_resource_metadata_challenge resolve_relative_url
          (visible (header_text (insufficient_scope_challenge url scope)) ∷ [])
        ≡ ok (some (record { metadata_url = u; scopes = some (parse_scopes scope) }))
  unfolding parse_resource_metadata_challenge first_metadata
  parse_resource_metadata_challenge-insufficient_scope url scope u resolves =
      ap
        (λ challenges.
          or_later resolve_relative_url (ok none) (first_metadata resolve_relative_url challenges))
        (parse_www_authenticate-header_text (text "resource_metadata", url)
          ((text "error", text "insufficient_scope") ∷ (text "scope", scope) ∷ [])
          (
            is_key-IsKey (text "resource_metadata") refl,
            (is_key-IsKey (text "error") refl, (is_key-IsKey (text "scope") refl, tt)),
          ))
      ∙ ap (λ o. or_later resolve_relative_url (ok none) (or_else o none))
          (metadata_of-bearer (extend [] (scope_params url scope)) url scope u
            (url-scope_params url scope) (scope-scope_params url scope) resolves)
