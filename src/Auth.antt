-- ===== src/Auth.antt =====
-- auth: how the server asks for a bearer token and how a client reads the challenge. A header
-- value that `to_str` accepts is ASCII, so its characters are its bytes.
pub mod Challenges
pub mod Server
pub mod Segments
pub mod RoundTrip
pub mod Access
pub mod Tests
use tmcp.Base.{
  ℕ, zero, suc, Bool, true, false, ◌&&◌, ◌||◌, not, Option, none, some, List, [], ◌∷◌, arith, leb,
  nat_beq, if◌then◌else◌, filter, is_empty, Eq, ◌==◌, nat_eq, Text, text_eq, ◌>>=◌, ◌>>◌,
}

-- `char::is_whitespace` of an ASCII character.
abbrev pub is_whitespace : ℕ → Bool
is_whitespace c = nat_beq c 32 || (leb 9 c && leb c 13)

abbrev pub quote : ℕ
quote = b'"'

abbrev pub backslash : ℕ
backslash = b'\\'

unfoldable pub trim_start : Text → Text
trim_start [] = []
trim_start (c ∷ s) = let rest = trim_start s in if is_whitespace c then rest else c ∷ s

unfoldable pub trim_end : Text → Text
trim_end [] = []
trim_end (c ∷ s) =
    let rest = trim_end s in if is_empty rest && is_whitespace c then [] else c ∷ rest

abbrev pub trim : Text → Text
trim s = trim_end (trim_start s)

-- `trim_end_matches`
unfoldable pub trim_end_matches : ℕ → Text → Text
trim_end_matches c [] = []
trim_end_matches c (d ∷ s) =
    let rest = trim_end_matches c s in if is_empty rest && nat_beq d c then [] else d ∷ rest

abbrev pub extend_first : ℕ → List Text → List Text
extend_first c [] = (c ∷ []) ∷ []
extend_first c (part ∷ parts) = (c ∷ part) ∷ parts

-- `split` at the characters of a class; the result has at least one part.
unfoldable pub split_where : (ℕ → Bool) → Text → List Text
split_where p [] = [] ∷ []
split_where p (c ∷ s) = let rest = split_where p s in if p c then [] ∷ rest else extend_first c rest

unfoldable pub split_whitespace : Text → List Text
unfolding split_where
split_whitespace s = filter (λ part. not (is_empty part)) (split_where is_whitespace s)

-- `split_once`, or the two parts of `splitn(2, _)`.
unfoldable pub split_once : ℕ → Text → Option (Text × Text)
split_once c [] = none
split_once c (d ∷ s) =
    let rest = split_once c s in
    if nat_beq d c
    then some ([], s)
    else elim rest [ none ↦ none | some (front, back) ↦ some (d ∷ front, back) ]

abbrev pub or_else {ℓ} : {A : Type ℓ} → Option A → Option A → Option A
or_else none other = other
or_else (some a) other = some a
