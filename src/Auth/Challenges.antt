-- ===== src/Auth/Challenges.antt =====
-- auth/discovery.rs: the challenges of a `WWW-Authenticate` header, and the metadata URL in them.
use tmcp.Base.{
  ℕ, Bool, false, ◌&&◌, ◌||◌, not, Option, none, some, List, [], ◌∷◌, ◌++◌, nat_beq, if◌then◌else◌,
  is_empty, nat_eq, Text, text, text_beq, text_eq, starts_with, Result, ok, err,
}
use tmcp.Base.Map.{get, insert}
use tmcp.Http.Validation.{HeaderValue, visible, opaque, to_ascii_lowercase, eq_ignore_ascii_case}
use tmcp.Auth.{
  is_whitespace, quote, backslash, trim_start, trim_end, trim, or_else, extend_first,
  split_whitespace, split_once,
}

pub record AuthChallenge : Type 0 where
  pub scheme : Text
  pub params : List (Text × Text)

pub record ResourceMetadataChallenge (U : Type 0) : Type 0 where
  pub metadata_url : U
  pub scopes : Option (List Text)

-- The states behind a character: whether it is escaped, and whether it is in quotes.
abbrev pub next_escape : Bool → Bool → ℕ → Bool
next_escape in_quotes escape c = not escape && in_quotes && nat_beq c backslash

abbrev pub next_quotes : Bool → Bool → ℕ → Bool
next_quotes in_quotes escape c = if not escape && nat_beq c quote then not in_quotes else in_quotes

abbrev pub is_separator : Bool → Bool → ℕ → Bool
is_separator in_quotes escape c = not escape && not in_quotes && nat_beq c b','

unfoldable pub split_from : Bool → Bool → Text → List Text
split_from in_quotes escape [] = [] ∷ []
split_from in_quotes escape (c ∷ s) =
    let rest = split_from (next_quotes in_quotes escape c) (next_escape in_quotes escape c) s in
    if is_separator in_quotes escape c then [] ∷ rest else extend_first c rest

abbrev pub split_authenticate_segments : Text → List Text
split_authenticate_segments value = split_from false false value

-- The text before and from the first whitespace, unless `=` comes first.
unfoldable pub scheme_end : Text → Option (Text × Text)
scheme_end [] = none
scheme_end (c ∷ s) =
    let rest = scheme_end s in
    if is_whitespace c
    then some ([], c ∷ s)
    else if nat_beq c b'='
    then none
    else elim rest [ none ↦ none | some (front, back) ↦ some (c ∷ front, back) ]

abbrev pub scheme_parts : Option (Text × Text) → Option (Text × Text)
scheme_parts none = none
scheme_parts (some (front, back)) =
    let scheme = trim front in
    let rest = trim_start back in
    if starts_with (b'=' ∷ []) rest || is_empty scheme then none else some (scheme, rest)

unfoldable pub split_scheme_segment : Text → Option (Text × Text)
unfolding trim_start trim_end scheme_end starts_with
split_scheme_segment segment = scheme_parts (scheme_end (trim_start segment))

-- What is behind the opening quote.
unfoldable pub unquote : Bool → Text → Text
unquote escape [] = []
unquote escape (c ∷ s) =
    let rest = unquote (not escape && nat_beq c backslash) s in
    if escape
    then c ∷ rest
    else if nat_beq c backslash
    then rest
    else if nat_beq c quote
    then []
    else c ∷ rest

abbrev pub first_word : List Text → Text
first_word [] = []
first_word (word ∷ words) = word

abbrev pub value_of : Text → Text
value_of [] = []
value_of (c ∷ s) =
    if nat_beq c quote then unquote false s else first_word (split_whitespace (c ∷ s))

unfoldable pub parse_param_value : Text → Text
unfolding trim_start trim_end unquote split_whitespace
parse_param_value value = value_of (trim value)

abbrev pub param_of : Option (Text × Text) → Option (Text × Text)
param_of none = none
param_of (some (front, back)) =
    let key = trim front in
    let value = trim back in
    if is_empty key || is_empty value
    then none
    else some (to_ascii_lowercase key, parse_param_value value)

unfoldable pub parse_param : Text → Option (Text × Text)
unfolding trim_start trim_end split_once parse_param_value to_ascii_lowercase
parse_param segment = param_of (split_once b'=' (trim segment))

abbrev pub insert_param : Option (Text × Text) → List (Text × Text) → List (Text × Text)
insert_param none params = params
insert_param (some (key, value)) params = insert key value params

abbrev pub push_current : Option AuthChallenge → List AuthChallenge
push_current none = []
push_current (some challenge) = challenge ∷ []

abbrev pub add_param : Option AuthChallenge → Text → Option AuthChallenge
add_param none segment = none
add_param (some challenge) segment =
    some (record challenge { params = insert_param (parse_param segment) challenge.params })

-- One segment that is trimmed and not empty: the challenges that are complete, and the current one.
abbrev pub take_segment :
    Option (Text × Text)
    → Text
    → List AuthChallenge × Option AuthChallenge
    → List AuthChallenge × Option AuthChallenge
take_segment (some (scheme, rest)) segment (challenges, current) = (
  challenges ++ push_current current,
  some (record { scheme = scheme; params = insert_param (parse_param rest) [] }),
)
take_segment none segment (challenges, current) = (challenges, add_param current segment)

-- One round of the loop.
unfoldable pub take_part :
    Text → List AuthChallenge × Option AuthChallenge → List AuthChallenge × Option AuthChallenge
unfolding split_scheme_segment parse_param insert trim_start trim_end
take_part part state =
    let segment = trim part in
    if is_empty segment then state else take_segment (split_scheme_segment segment) segment state

unfoldable pub parse_segments :
    List Text
    → List AuthChallenge × Option AuthChallenge
    → List AuthChallenge × Option AuthChallenge
unfolding take_part
parse_segments [] state = state
parse_segments (part ∷ parts) state = parse_segments parts (take_part part state)

abbrev pub all_challenges : List AuthChallenge × Option AuthChallenge → List AuthChallenge
all_challenges (challenges, current) = challenges ++ push_current current

unfoldable pub parse_www_authenticate : Text → List AuthChallenge
unfolding split_from parse_segments
parse_www_authenticate value =
    all_challenges (parse_segments (split_authenticate_segments value) ([], none))

unfoldable pub parse_scopes : Text → List Text
unfolding split_whitespace
parse_scopes scopes = split_whitespace scopes

module _ {E U : Type 0} (resolve_relative_url : Text → Result E U) where
  abbrev pub scopes_of : Option Text → Option (List Text)
  scopes_of none = none
  scopes_of (some scope) = some (parse_scopes scope)

  -- A bearer challenge with a metadata URL ends the search, also if the URL does not parse.
  abbrev pub metadata_of : AuthChallenge → Option (Result E (ResourceMetadataChallenge U))
  metadata_of challenge =
      if eq_ignore_ascii_case challenge.scheme (text "bearer")
      then elim (get (text "resource_metadata") challenge.params) [
        | none ↦ none
        | some value ↦ elim (resolve_relative_url value) [
          | err e ↦ some (err e)
          | ok url ↦ some (
              ok (record {
                metadata_url = url;
                scopes = scopes_of (get (text "scope") challenge.params);
              }))
        ]
      ]
      else none

  unfoldable pub first_metadata :
      List AuthChallenge → Option (Result E (ResourceMetadataChallenge U))
  unfolding parse_scopes get text_beq to_ascii_lowercase
  first_metadata [] = none
  first_metadata (challenge ∷ challenges) =
      let later = first_metadata challenges in or_else (metadata_of challenge) later

  abbrev pub metadata_in : HeaderValue → Option (Result E (ResourceMetadataChallenge U))
  metadata_in opaque = none
  metadata_in (visible value) = first_metadata (parse_www_authenticate value)

  abbrev pub or_later :
      Result E (Option (ResourceMetadataChallenge U))
      → Option (Result E (ResourceMetadataChallenge U))
      → Result E (Option (ResourceMetadataChallenge U))
  or_later later none = later
  or_later later (some (ok found)) = ok (some found)
  or_later later (some (err e)) = err e

  -- The values are those of the headers `WWW-Authenticate`, in their order.
  unfoldable pub parse_resource_metadata_challenge :
      List HeaderValue → Result E (Option (ResourceMetadataChallenge U))
  unfolding first_metadata parse_www_authenticate
  parse_resource_metadata_challenge [] = ok none
  parse_resource_metadata_challenge (value ∷ values) =
      let later = parse_resource_metadata_challenge values in or_later later (metadata_in value)
