-- ===== src/Auth/Segments.antt =====
-- auth: the segments and params of a challenge that the server has written.
use tmcp.Base.{
  ℕ, ◌≡◌, refl, sym, ap, ◌∙◌, subst, ◌⊎◌, inl, inr, Bool, true, false, ◌&&◌, ◌||◌, not, Option,
  none, some, List, [], ◌∷◌, ◌++◌, arith, nat_beq, if◌then◌else◌, nat_beq_iff, Bool-cases, and-true,
  all, is_empty, All, nat_eq, Text, text, text_eq, starts_with,
}
use mathlib.Core.List.{append_assoc}
use tmcp.Http.Validation.{to_lower, to_ascii_lowercase}
use tmcp.Auth.{
  is_whitespace, quote, backslash, trim_start, trim_end, trim, extend_first, split_once,
}
use tmcp.Auth.Challenges.{
  split_from, scheme_end, scheme_parts, split_scheme_segment, unquote, parse_param_value, param_of,
  parse_param,
}
use tmcp.Auth.Server.{replace, escape_header_value, param_text}

abbrev pub escaped : ℕ → Text
escaped c = if nat_beq c backslash || nat_beq c quote then backslash ∷ c ∷ [] else c ∷ []

escape-cases :
    (c : ℕ)
    → (c ≡ backslash) ⊎ ((c ≡ quote) ⊎ ((nat_beq c backslash ≡ false) × (nat_beq c quote ≡ false)))
escape-cases c = elim (Bool-cases (nat_beq c backslash)) [
  | inl first ↦ inl ((nat_beq_iff c backslash).0 first)
  | inr no_backslash ↦ elim (Bool-cases (nat_beq c quote)) [
    | inl second ↦ inr (inl ((nat_beq_iff c quote).0 second))
    | inr no_quote ↦ inr (inr (no_backslash, no_quote))
  ]
]

-- `replace` twice, in one pass.
pub escape_header_value-cons :
    (c : ℕ) (s : Text) → escape_header_value (c ∷ s) ≡ escaped c ++ escape_header_value s
unfolding escape_header_value replace
escape_header_value-cons c s = elim (escape-cases c) [
  | inl first ↦
      subst (λ x. escape_header_value (x ∷ s) ≡ escaped x ++ escape_header_value s) (sym first) refl
  | inr (inl second) ↦
      subst (λ x. escape_header_value (x ∷ s) ≡ escaped x ++ escape_header_value s) (sym second)
        refl
  | inr (inr (no_backslash, no_quote)) ↦ rw (no_backslash, no_quote) refl
]

-- A key: what it has is in lower case, and nothing of it ends a word or a param.
abbrev pub IsKeyChar : ℕ → Type 0
IsKeyChar c =
    (is_whitespace c ≡ false)
    × (nat_beq c b'=' ≡ false)
    × (nat_beq c quote ≡ false)
    × (nat_beq c b',' ≡ false)
    × (to_lower c ≡ c)

pub record IsKey (key : Text) : Type 0 where
  pub full : is_empty key ≡ false
  pub chars : All IsKeyChar key

abbrev is_key_char : ℕ → Bool
is_key_char c =
    not (is_whitespace c || nat_beq c b'=' || nat_beq c quote || nat_beq c b',')
    && nat_beq (to_lower c) c

is_key_char-IsKeyChar : (c : ℕ) → is_key_char c ≡ true → IsKeyChar c
is_key_char-IsKeyChar c h = ground (arith, h, nat_beq_iff (to_lower c) c)

keys_all : (s : Text) → all is_key_char s ≡ true → All IsKeyChar s
keys_all [] h = tt
keys_all (c ∷ s) h =
    let both = and-true (is_key_char c) (all is_key_char s) h in
    (is_key_char-IsKeyChar c both.0, keys_all s both.1)

-- The test for concrete keys.
abbrev pub is_key : Text → Bool
is_key key = not (is_empty key) && all is_key_char key

pub is_key-IsKey : (key : Text) → is_key key ≡ true → IsKey key
is_key-IsKey key h =
    let both = and-true (not (is_empty key)) (all is_key_char key) h in
    record { full = ground (arith, both.0); chars = keys_all key both.1 }

abbrev pub prepend : Text → List Text → List Text
prepend [] parts = parts
prepend (c ∷ s) parts = extend_first c (prepend s parts)

pub prepend-first : (s : Text) (parts : List Text) → prepend s ([] ∷ parts) ≡ s ∷ parts
prepend-first [] parts = refl
prepend-first (c ∷ s) parts = rw (prepend-first s parts) refl

pub prepend-append :
    (s t : Text) (parts : List Text) → prepend (s ++ t) parts ≡ prepend s (prepend t parts)
prepend-append [] t parts = refl
prepend-append (c ∷ s) t parts = rw (prepend-append s t parts) refl

-- Outside of quotes, and without a quote or a comma.
abbrev pub IsPlain : ℕ → Type 0
IsPlain c = (nat_beq c quote ≡ false) × (nat_beq c b',' ≡ false)

pub split_from-plain :
    (s t : Text)
    → All IsPlain s
    → split_from false false (s ++ t) ≡ prepend s (split_from false false t)
unfolding split_from
split_from-plain [] t plain = refl
split_from-plain (c ∷ s) t plain =
    rw (plain.0.0, plain.0.1) (ap (extend_first c) (split_from-plain s t plain.1))

abbrev SplitsLater : Text → Text → Type 0
SplitsLater written t =
    split_from true false (written ++ t) ≡ prepend written (split_from true false t)

split_from-escape :
    (c : ℕ) (written t : Text) → SplitsLater written t → SplitsLater (escaped c ++ written) t
unfolding split_from
split_from-escape c written t later = elim (escape-cases c) [
  | inl first ↦
      subst (λ x. SplitsLater (escaped x ++ written) t) (sym first)
        (ap (λ parts. extend_first backslash (extend_first backslash parts)) later)
  | inr (inl second) ↦
      subst (λ x. SplitsLater (escaped x ++ written) t) (sym second)
        (ap (λ parts. extend_first backslash (extend_first quote parts)) later)
  | inr (inr (no_backslash, no_quote)) ↦
      rw (no_backslash, no_quote) (rw (no_backslash, no_quote) (ap (extend_first c) later))
]

split_from-escaped : (value t : Text) → SplitsLater (escape_header_value value) t
unfolding escape_header_value replace
split_from-escaped [] t = refl
split_from-escaped (c ∷ value) t =
    subst (λ written. SplitsLater written t) (sym (escape_header_value-cons c value))
      (split_from-escape c (escape_header_value value) t (split_from-escaped value t))

-- A plain text before a part that is split as a whole.
pub plain-then :
    (front body t : Text)
    → All IsPlain front
    → split_from false false (body ++ t) ≡ prepend body (split_from false false t)
    → split_from false false ((front ++ body) ++ t)
      ≡ prepend (front ++ body) (split_from false false t)
plain-then front body t plain later =
    ap (split_from false false) (append_assoc front body t)
    ∙ split_from-plain front (body ++ t) plain
    ∙ ap (prepend front) later
    ∙ sym (prepend-append front body (split_from false false t))

pub split_from-closed :
    (value t : Text)
    → split_from true false ((escape_header_value value ++ quote ∷ []) ++ t)
      ≡ prepend (escape_header_value value ++ quote ∷ []) (split_from false false t)
unfolding split_from
split_from-closed value t =
    ap (split_from true false) (append_assoc (escape_header_value value) (quote ∷ []) t)
    ∙ split_from-escaped value (quote ∷ t)
    ∙ sym (prepend-append (escape_header_value value) (quote ∷ []) (split_from false false t))

-- What the closing quote leaves.
unquote-escape :
    (c : ℕ) (written back : Text)
    → unquote false (written ++ quote ∷ []) ≡ back
    → unquote false ((escaped c ++ written) ++ quote ∷ []) ≡ c ∷ back
unfolding unquote
unquote-escape c written back later = elim (escape-cases c) [
  | inl first ↦
      subst (λ x. unquote false ((escaped x ++ written) ++ quote ∷ []) ≡ x ∷ back) (sym first)
        (ap (◌∷◌ backslash) later)
  | inr (inl second) ↦
      subst (λ x. unquote false ((escaped x ++ written) ++ quote ∷ []) ≡ x ∷ back) (sym second)
        (ap (◌∷◌ quote) later)
  | inr (inr (no_backslash, no_quote)) ↦
      rw (no_backslash, no_quote) (rw (no_backslash, no_quote) (ap (◌∷◌ c) later))
]

unquote-escaped : (value : Text) → unquote false (escape_header_value value ++ quote ∷ []) ≡ value
unfolding escape_header_value replace unquote
unquote-escaped [] = refl
unquote-escaped (c ∷ value) =
    subst (λ written. unquote false (written ++ quote ∷ []) ≡ c ∷ value)
      (sym (escape_header_value-cons c value))
      (unquote-escape c (escape_header_value value) value (unquote-escaped value))

is_empty-append : (s : Text) (c : ℕ) → is_empty (s ++ c ∷ []) ≡ false
is_empty-append [] c = refl
is_empty-append (d ∷ s) c = refl

-- Trimming stops at a quote, and at each end of a key.
trim_end-quoted : (s : Text) → trim_end (s ++ quote ∷ []) ≡ s ++ quote ∷ []
unfolding trim_end
trim_end-quoted [] = refl
trim_end-quoted (c ∷ s) = rw (trim_end-quoted s, is_empty-append s quote) refl

trim_end-key : (key : Text) → All IsKeyChar key → trim_end key ≡ key
unfolding trim_end
trim_end-key [] chars = refl
trim_end-key (c ∷ key) chars = rw (trim_end-key key chars.1, chars.0.0) (ground arith)

trim_start-key : (c : ℕ) (s : Text) → is_whitespace c ≡ false → trim_start (c ∷ s) ≡ c ∷ s
unfolding trim_start
trim_start-key c s dark = rw dark refl

to_ascii_lowercase-key : (key : Text) → All IsKeyChar key → to_ascii_lowercase key ≡ key
unfolding to_ascii_lowercase
to_ascii_lowercase-key [] chars = refl
to_ascii_lowercase-key (c ∷ key) chars = rw (to_ascii_lowercase-key key chars.1, chars.0.4) refl

split_once-key :
    (key t : Text) → All IsKeyChar key → split_once b'=' (key ++ b'=' ∷ t) ≡ some (key, t)
unfolding split_once
split_once-key [] t chars = refl
split_once-key (c ∷ key) t chars = rw (chars.0.1, split_once-key key t chars.1) refl

scheme_end-key : (key t : Text) → All IsKeyChar key → scheme_end (key ++ b'=' ∷ t) ≡ none
unfolding scheme_end
scheme_end-key [] t chars = refl
scheme_end-key (c ∷ key) t chars = rw (chars.0.0, chars.0.1, scheme_end-key key t chars.1) refl

pub key-IsPlain : (key : Text) → All IsKeyChar key → All IsPlain key
key-IsPlain [] chars = tt
key-IsPlain (c ∷ key) chars = ((chars.0.2, chars.0.3), key-IsPlain key chars.1)

pub trim_end-closed : (s t : Text) → trim_end (s ++ (t ++ quote ∷ [])) ≡ s ++ (t ++ quote ∷ [])
trim_end-closed s t =
    subst (λ x. trim_end x ≡ x) (append_assoc s t (quote ∷ [])) (trim_end-quoted (s ++ t))

starts-key : (key t : Text) → IsKey key → trim_start (key ++ t) ≡ key ++ t
starts-key [] t valid = absurd (let h = valid.full in cc)
starts-key (c ∷ key) t valid = trim_start-key c (key ++ t) valid.chars.0.0

trim-key : (key : Text) → IsKey key → trim key ≡ key
trim-key [] valid = absurd (let h = valid.full in cc)
trim-key (c ∷ key) valid =
    rw (trim_start-key c key valid.chars.0.0) (trim_end-key (c ∷ key) valid.chars)

-- A value in quotes.
abbrev quoted : Text → Text
quoted value = quote ∷ (escape_header_value value ++ quote ∷ [])

trim-quoted : (value : Text) → trim (quoted value) ≡ quoted value
unfolding trim_start
trim-quoted value = trim_end-quoted (quote ∷ escape_header_value value)

parse_param_value-quoted : (value : Text) → parse_param_value (quoted value) ≡ value
unfolding parse_param_value
parse_param_value-quoted value = rw (trim-quoted value) (unquote-escaped value)

starts_with-key : (key t : Text) → IsKey key → starts_with (b'=' ∷ []) (key ++ t) ≡ false
unfolding starts_with
starts_with-key [] t valid = absurd (let h = valid.full in cc)
starts_with-key (c ∷ key) t valid =
    ground (arith, valid.chars.0.1, nat_beq_iff c b'=', nat_beq_iff b'=' c)

-- What follows the name of a scheme.
abbrev scheme_then : Text → Option (Text × Text)
scheme_then rest =
    if starts_with (b'=' ∷ []) rest || false then none else some (text "Bearer", rest)

-- The first param, behind the name of the scheme.
abbrev pub first_segment : Text → Text → Text
first_segment key value = text "Bearer" ++ 32 ∷ param_text (key, value)

module _ (key value : Text) (valid : IsKey key) where
  pub trim-param_text : trim (param_text (key, value)) ≡ param_text (key, value)
  trim-param_text =
      ap trim_end (starts-key key (b'=' ∷ quoted value) valid)
      ∙ (trim_end-closed key (b'=' ∷ quote ∷ escape_header_value value))

  param_of-quoted : param_of (some (key, quoted value)) ≡ some (key, value)
  param_of-quoted =
      rw
        (
          trim-key key valid,
          valid.full,
          trim-quoted value,
          parse_param_value-quoted value,
          to_ascii_lowercase-key key valid.chars,
        )
        refl

  -- A param comes back as it was written.
  pub parse_param-param_text : parse_param (param_text (key, value)) ≡ some (key, value)
  unfolding parse_param
  parse_param-param_text =
      ap (λ s. param_of (split_once b'=' s)) trim-param_text
      ∙ ap param_of (split_once-key key (quoted value) valid.chars)
      ∙ param_of-quoted

  -- A param opens no challenge, alone or behind the name of a scheme.
  pub split_scheme_segment-param_text : split_scheme_segment (param_text (key, value)) ≡ none
  unfolding split_scheme_segment
  split_scheme_segment-param_text =
      ap (λ s. scheme_parts (scheme_end s)) (starts-key key (b'=' ∷ quoted value) valid)
      ∙ ap scheme_parts (scheme_end-key key (quoted value) valid.chars)

  pub trim-first_segment : trim (first_segment key value) ≡ first_segment key value
  unfolding trim_start
  trim-first_segment =
      trim_end-closed (text "Bearer" ++ 32 ∷ key) (b'=' ∷ quote ∷ escape_header_value value)

  pub split_scheme_segment-first_segment :
      split_scheme_segment (first_segment key value) ≡ some (text "Bearer", param_text (key, value))
  unfolding split_scheme_segment scheme_end trim_start trim_end
  split_scheme_segment-first_segment =
      ap scheme_then (starts-key key (b'=' ∷ quoted value) valid)
      ∙ (rw (starts_with-key key (b'=' ∷ quoted value) valid) refl)
