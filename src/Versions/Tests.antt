-- ===== src/Versions/Tests.antt =====
-- Release dates at concrete texts.
use tmcp.Base.{ℕ, ◌≡◌, refl, ◌↔◌, true, false, nat_eq, text, text_eq}
use tmcp.Versions.{valid_release_date, parse_unsigned, all_digits}
use tmcp.Versions.Dates.{date_text, IsDate, valid_release_date_iff}

valid_release_date_iff_example : (valid_release_date (text "2024-02-29") ≡ true) ↔ (
    (year : ℕ) × (month : ℕ) × (day : ℕ) × IsDate year month day
    × (text "2024-02-29" ≡ date_text year month day))
valid_release_date_iff_example = valid_release_date_iff (text "2024-02-29")

leap_day : valid_release_date (text "2024-02-29") ≡ true
unfolding valid_release_date parse_unsigned all_digits
leap_day = refl

no_leap_day : valid_release_date (text "1900-02-29") ≡ false
unfolding valid_release_date parse_unsigned all_digits
no_leap_day = refl
