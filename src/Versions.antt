-- ===== src/Versions.antt =====
-- schema/jsonrpc.rs: protocol versions, which are release dates, and sets of them.
pub mod Dates
pub mod Tests
use tmcp.Base.{
  ℕ, zero, suc, ◌+◌, ◌-◌, ◌*◌, ◌%◌, ◌^◌, Bool, true, false, ◌&&◌, ◌||◌, not, Option, none, some, [],
  ◌∷◌, ltb, leb, nat_beq, if◌then◌else◌, length, take, drop, nat_eq, Text, text_eq, arith, Eq, ◌==◌,
  ◌>>=◌, ◌>>◌,
}

-- `str::parse` of an unsigned integer below `limit`, for a text of digits.
unfoldable pub parse_unsigned : ℕ → ℕ → Text → Option ℕ
parse_unsigned limit n [] = some n
parse_unsigned limit n (c ∷ s) =
    let n' = n * 10 + (c - b'0') in
    let rest = parse_unsigned limit n' s in if ltb n' limit then rest else none

abbrev pub is_ascii_digit : ℕ → Bool
is_ascii_digit c = leb b'0' c && leb c b'9'

abbrev pub byte_at : ℕ → Text → ℕ
byte_at n [] = 0
byte_at zero (c ∷ s) = c
byte_at (suc n) (c ∷ s) = byte_at n s

-- `all` over the bytes with their indices.
unfoldable pub all_digits : ℕ → Text → Bool
all_digits index [] = true
all_digits index (c ∷ s) =
    (nat_beq index 4 || nat_beq index 7 || is_ascii_digit c) && all_digits (index + 1) s

abbrev pub has_date_form : Text → Bool
has_date_form value =
    nat_beq (length value) 10
    && nat_beq (byte_at 4 value) b'-'
    && nat_beq (byte_at 7 value) b'-'
    && all_digits 0 value

abbrev pub is_leap : ℕ → Bool
is_leap year = nat_beq (year % 400) 0 || (nat_beq (year % 4) 0 && not (nat_beq (year % 100) 0))

abbrev pub days_of : ℕ → ℕ → ℕ
days_of year month =
    if nat_beq month 2
    then (if is_leap year then 29 else 28)
    else if nat_beq month 4 || nat_beq month 6 || nat_beq month 9 || nat_beq month 11
    then 30
    else 31

-- The parts are there, and make a date.
abbrev pub valid_parts : Option ℕ → Option ℕ → Option ℕ → Bool
valid_parts (some year) (some month) (some day) =
    not (nat_beq year 0) && leb 1 month && leb month 12 && leb 1 day && leb day (days_of year month)
valid_parts _ _ _ = false

unfoldable pub valid_release_date : Text → Bool
unfolding parse_unsigned all_digits
valid_release_date value =
    if has_date_form value
    then valid_parts (parse_unsigned (2 ^ 16) 0 (take 4 value))
        (parse_unsigned (2 ^ 8) 0 (take 2 (drop 5 value))) (parse_unsigned (2 ^ 8) 0 (drop 8 value))
    else false
