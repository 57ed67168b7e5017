-- ===== src/Versions/Dates.antt =====
-- schema/jsonrpc.rs: the release dates that are accepted are those of the calendar.
use tmcp.Base.{
  ℕ, zero, suc, ◌+◌, ◌-◌, ◌*◌, ◌/◌, ◌%◌, ◌^◌, ◌≤◌, ◌<◌, ◌≡◌, refl, sym, ◌∙◌, subst, ◌≢◌, ◌↔◌, ◌⊎◌,
  inl, inr, true, false, ◌&&◌, not, some, [], ◌∷◌, arith, leb, nat_beq, lt→ltb, nat_beq_iff,
  Bool-cases, and-true, length, nat_eq, Text, text_eq,
}
use tmcp.Versions.{
  parse_unsigned, is_ascii_digit, byte_at, all_digits, has_date_form, is_leap, days_of, valid_parts,
  valid_release_date,
}

-- A decimal digit of a number.
abbrev digit : ℕ → ℕ
digit n = b'0' + n % 10

-- Year, month and day in four, two and two digits.
abbrev pub date_text : ℕ → ℕ → ℕ → Text
date_text year month day =
    digit (year / 1000)
    ∷ digit (year / 100)
    ∷ digit (year / 10)
    ∷ digit year
    ∷ b'-'
    ∷ digit (month / 10)
    ∷ digit month
    ∷ b'-'
    ∷ digit (day / 10)
    ∷ digit day
    ∷ []

-- The Gregorian calendar.
abbrev IsLeap : ℕ → Type 0
IsLeap year = (year % 400 ≡ 0) ⊎ ((year % 4 ≡ 0) × (year % 100 ≢ 0))

pub data HasDays (year : ℕ) : ℕ → ℕ → Type 0 where
  january : HasDays year 1 31
  february_leap : IsLeap year → HasDays year 2 29
  february : ¬ IsLeap year → HasDays year 2 28
  march : HasDays year 3 31
  april : HasDays year 4 30
  may : HasDays year 5 31
  june : HasDays year 6 30
  july : HasDays year 7 31
  august : HasDays year 8 31
  september : HasDays year 9 30
  october : HasDays year 10 31
  november : HasDays year 11 30
  december : HasDays year 12 31

-- A day of a month of a year from 1 to 9999.
abbrev pub IsDate : ℕ → ℕ → ℕ → Type 0
IsDate year month day =
    (1 ≤ year) × (year < 10000) × (1 ≤ day) × ((last : ℕ) × HasDays year month last × (day ≤ last))

is_leap_iff : (year : ℕ) → (is_leap year ≡ true) ↔ IsLeap year
is_leap_iff year = ground arith

is_leap-false : (year : ℕ) → ¬ IsLeap year → is_leap year ≡ false
is_leap-false year common = elim (Bool-cases (is_leap year)) [
  | inl leap ↦ absurd (common ((is_leap_iff year).0 leap))
  | inr other ↦ other
]

-- The days that the code counts are those of the calendar.
HasDays-days_of :
    (year month last : ℕ)
    → HasDays year month last
    → (days_of year month ≡ last) × (1 ≤ month) × (month ≤ 12)
HasDays-days_of year _ _ january = (refl, omega arith, omega arith)
HasDays-days_of year _ _ (february_leap leap) =
    (rw ((is_leap_iff year).1 leap) refl, omega arith, omega arith)
HasDays-days_of year _ _ (february common) =
    (rw (is_leap-false year common) refl, omega arith, omega arith)
HasDays-days_of year _ _ march = (refl, omega arith, omega arith)
HasDays-days_of year _ _ april = (refl, omega arith, omega arith)
HasDays-days_of year _ _ may = (refl, omega arith, omega arith)
HasDays-days_of year _ _ june = (refl, omega arith, omega arith)
HasDays-days_of year _ _ july = (refl, omega arith, omega arith)
HasDays-days_of year _ _ august = (refl, omega arith, omega arith)
HasDays-days_of year _ _ september = (refl, omega arith, omega arith)
HasDays-days_of year _ _ october = (refl, omega arith, omega arith)
HasDays-days_of year _ _ november = (refl, omega arith, omega arith)
HasDays-days_of year _ _ december = (refl, omega arith, omega arith)

february-HasDays : (year : ℕ) → HasDays year 2 (days_of year 2)
february-HasDays year = elim (Bool-cases (is_leap year)) [
  | inl leap ↦ rw leap (february_leap ((is_leap_iff year).0 leap))
  | inr common ↦
      rw common (february (λ h. absurd (let k = sym common ∙ (is_leap_iff year).1 h in cc)))
]

days_of-HasDays :
    (year month : ℕ) → 1 ≤ month → month ≤ 12 → HasDays year month (days_of year month)
days_of-HasDays year zero low high = absurd (omega (arith, low))
days_of-HasDays year (suc zero) low high = january
days_of-HasDays year (suc (suc zero)) low high = february-HasDays year
days_of-HasDays year (suc (suc (suc zero))) low high = march
days_of-HasDays year (suc (suc (suc (suc zero)))) low high = april
days_of-HasDays year (suc (suc (suc (suc (suc zero))))) low high = may
days_of-HasDays year (suc (suc (suc (suc (suc (suc zero)))))) low high = june
days_of-HasDays year (suc (suc (suc (suc (suc (suc (suc zero))))))) low high = july
days_of-HasDays year (suc (suc (suc (suc (suc (suc (suc (suc zero)))))))) low high = august
days_of-HasDays year (suc (suc (suc (suc (suc (suc (suc (suc (suc zero))))))))) low high = september
days_of-HasDays year (suc (suc (suc (suc (suc (suc (suc (suc (suc (suc zero)))))))))) low high =
    october
days_of-HasDays year (suc (suc (suc (suc (suc (suc (suc (suc (suc (suc (suc zero))))))))))) low
      high =
    november
days_of-HasDays year (suc (suc (suc (suc (suc (suc (suc (suc (suc (suc (suc (suc zero))))))))))))
      low high =
    december
days_of-HasDays year
      (suc (suc (suc (suc (suc (suc (suc (suc (suc (suc (suc (suc (suc month))))))))))))) low high =
    absurd (omega (arith, high))

parse_unsigned-step :
    (limit n c : ℕ) (s : Text)
    → n * 10 + (c - b'0') < limit
    → parse_unsigned limit n (c ∷ s) ≡ parse_unsigned limit (n * 10 + (c - b'0')) s
unfolding parse_unsigned
parse_unsigned-step limit n c s small = rw (lt→ltb (n * 10 + (c - b'0')) limit small) refl

digit_of : (c : ℕ) → is_ascii_digit c ≡ true → (b'0' ≤ c) × (c ≤ b'9')
digit_of c h = ground (arith, h)

-- The number that two digits make.
abbrev two : ℕ → ℕ → ℕ
two a b = (0 * 10 + (a - b'0')) * 10 + (b - b'0')

abbrev four : ℕ → ℕ → ℕ → ℕ → ℕ
four a b c d = (two a b * 10 + (c - b'0')) * 10 + (d - b'0')

abbrev IsDigit : ℕ → Type 0
IsDigit c = (b'0' ≤ c) × (c ≤ b'9')

parse-two :
    (a b : ℕ) → IsDigit a → IsDigit b → parse_unsigned (2 ^ 8) 0 (a ∷ b ∷ []) ≡ some (two a b)
unfolding parse_unsigned
parse-two a b da db =
    parse_unsigned-step (2 ^ 8) 0 a (b ∷ []) (omega (arith, da.1))
    ∙ parse_unsigned-step (2 ^ 8) (0 * 10 + (a - b'0')) b [] (omega (arith, da.1, db.1))

parse-four :
    (a b c d : ℕ)
    → IsDigit a
    → IsDigit b
    → IsDigit c
    → IsDigit d
    → parse_unsigned (2 ^ 16) 0 (a ∷ b ∷ c ∷ d ∷ []) ≡ some (four a b c d)
unfolding parse_unsigned
parse-four a b c d da db dc dd =
    parse_unsigned-step (2 ^ 16) 0 a (b ∷ c ∷ d ∷ []) (omega (arith, da.1))
    ∙ parse_unsigned-step (2 ^ 16) (0 * 10 + (a - b'0')) b (c ∷ d ∷ []) (omega (arith, da.1, db.1))
    ∙ parse_unsigned-step (2 ^ 16) (two a b) c (d ∷ []) (omega (arith, da.1, db.1, dc.1))
    ∙ parse_unsigned-step (2 ^ 16) (two a b * 10 + (c - b'0')) d []
        (omega (arith, da.1, db.1, dc.1, dd.1))

digit-IsDigit : (n : ℕ) → IsDigit (digit n)
digit-IsDigit n = (omega arith, omega arith)

two-digits : (n : ℕ) → n < 100 → two (digit (n / 10)) (digit n) ≡ n
two-digits n h = omega (arith, h)

four-digits :
    (n : ℕ) → n < 10000 → four (digit (n / 1000)) (digit (n / 100)) (digit (n / 10)) (digit n) ≡ n
four-digits n h = omega (arith, h)

digits-two : (a b : ℕ) → IsDigit a → IsDigit b → (digit (two a b / 10) ≡ a) × (digit (two a b) ≡ b)
digits-two a b da db =
    (omega (arith, da.0, da.1, db.0, db.1), omega (arith, da.0, da.1, db.0, db.1))

digits-four :
    (a b c d : ℕ)
    → IsDigit a
    → IsDigit b
    → IsDigit c
    → IsDigit d
    → (digit (four a b c d / 1000) ≡ a)
      × (digit (four a b c d / 100) ≡ b)
      × (digit (four a b c d / 10) ≡ c)
      × (digit (four a b c d) ≡ d)
digits-four a b c d da db dc dd = (
  omega (arith, da.0, da.1, db.0, db.1, dc.0, dc.1, dd.0, dd.1),
  omega (arith, da.0, da.1, db.0, db.1, dc.0, dc.1, dd.0, dd.1),
  omega (arith, da.0, da.1, db.0, db.1, dc.0, dc.1, dd.0, dd.1),
  omega (arith, da.0, da.1, db.0, db.1, dc.0, dc.1, dd.0, dd.1),
)

abbrev written : (a b c d e f g h : ℕ) → Text
written a b c d e f g h = a ∷ b ∷ c ∷ d ∷ b'-' ∷ e ∷ f ∷ b'-' ∷ g ∷ h ∷ []

test_of : (c : ℕ) → IsDigit c → is_ascii_digit c ≡ true
test_of c d = ground (arith, d.0, d.1)

-- What is read from eight digits.
read-written :
    (a b c d e f g h : ℕ)
    → IsDigit a
    → IsDigit b
    → IsDigit c
    → IsDigit d
    → IsDigit e
    → IsDigit f
    → IsDigit g
    → IsDigit h
    → valid_release_date (written a b c d e f g h)
      ≡ valid_parts (some (four a b c d)) (some (two e f)) (some (two g h))
unfolding valid_release_date all_digits
read-written a b c d e f g h da db dc dd de df dg dh =
    let parts : valid_parts (parse_unsigned (2 ^ 16) 0 (a ∷ b ∷ c ∷ d ∷ []))
          (parse_unsigned (2 ^ 8) 0 (e ∷ f ∷ [])) (parse_unsigned (2 ^ 8) 0 (g ∷ h ∷ []))
        ≡ valid_parts (some (four a b c d)) (some (two e f)) (some (two g h)) =
      (λ i.
        valid_parts (parse-four a b c d da db dc dd i) (parse-two e f de df i)
          (parse-two g h dg dh i)) in
    rw
      (
        test_of a da,
        test_of b db,
        test_of c dc,
        test_of d dd,
        test_of e de,
        test_of f df,
        test_of g dg,
        test_of h dh,
      )
      parts

bounds_iff :
    (year month day last : ℕ)
    → ((not (nat_beq year 0) && leb 1 month && leb month 12 && leb 1 day && leb day last) ≡ true)
      ↔ ((1 ≤ year) × (1 ≤ month) × (month ≤ 12) × (1 ≤ day) × (day ≤ last))
bounds_iff year month day last = ground arith

valid_parts_iff :
    (year month day : ℕ)
    → (valid_parts (some year) (some month) (some day) ≡ true)
      ↔ ((1 ≤ year) × (1 ≤ month) × (month ≤ 12) × (1 ≤ day) × (day ≤ days_of year month))
valid_parts_iff year month day = bounds_iff year month day (days_of year month)

-- Eight digits and two dashes.
data Shape : Text → Type 0 where
  shaped :
      (a b c d e f g h : ℕ)
      → IsDigit a
      → IsDigit b
      → IsDigit c
      → IsDigit d
      → IsDigit e
      → IsDigit f
      → IsDigit g
      → IsDigit h
      → Shape (written a b c d e f g h)

form-parts :
    (value : Text)
    → has_date_form value ≡ true
    → (length value ≡ 10)
      × (byte_at 4 value ≡ b'-')
      × (byte_at 7 value ≡ b'-')
      × (all_digits 0 value ≡ true)
form-parts value t =
    let outer =
      and-true
        (nat_beq (length value) 10
          && nat_beq (byte_at 4 value) b'-'
          && nat_beq (byte_at 7 value) b'-')
        (all_digits 0 value) t in
    let middle =
      and-true (nat_beq (length value) 10 && nat_beq (byte_at 4 value) b'-')
        (nat_beq (byte_at 7 value) b'-') outer.0 in
    let inner = and-true (nat_beq (length value) 10) (nat_beq (byte_at 4 value) b'-') middle.0 in
    (
      (nat_beq_iff (length value) 10).0 inner.0,
      (nat_beq_iff (byte_at 4 value) b'-').0 inner.1,
      (nat_beq_iff (byte_at 7 value) b'-').0 middle.1,
      outer.1,
    )

has_date_form-Shape : (value : Text) → has_date_form value ≡ true → Shape value
unfolding all_digits
has_date_form-Shape [] t = cc
has_date_form-Shape (a ∷ []) t = cc
has_date_form-Shape (a ∷ b ∷ []) t = cc
has_date_form-Shape (a ∷ b ∷ c ∷ []) t = cc
has_date_form-Shape (a ∷ b ∷ c ∷ d ∷ []) t = cc
has_date_form-Shape (a ∷ b ∷ c ∷ d ∷ x ∷ []) t = cc
has_date_form-Shape (a ∷ b ∷ c ∷ d ∷ x ∷ e ∷ []) t = cc
has_date_form-Shape (a ∷ b ∷ c ∷ d ∷ x ∷ e ∷ f ∷ []) t = cc
has_date_form-Shape (a ∷ b ∷ c ∷ d ∷ x ∷ e ∷ f ∷ y ∷ []) t = cc
has_date_form-Shape (a ∷ b ∷ c ∷ d ∷ x ∷ e ∷ f ∷ y ∷ g ∷ []) t = cc
has_date_form-Shape (a ∷ b ∷ c ∷ d ∷ x ∷ e ∷ f ∷ y ∷ g ∷ h ∷ z ∷ more) t =
    absurd (omega (arith, (form-parts (a ∷ b ∷ c ∷ d ∷ x ∷ e ∷ f ∷ y ∷ g ∷ h ∷ z ∷ more) t).0))
has_date_form-Shape (a ∷ b ∷ c ∷ d ∷ x ∷ e ∷ f ∷ y ∷ g ∷ h ∷ []) t =
    let form = form-parts (a ∷ b ∷ c ∷ d ∷ x ∷ e ∷ f ∷ y ∷ g ∷ h ∷ []) t in
    let ta = and-true _ _ form.3 in
    let tb = and-true _ _ ta.1 in
    let tc = and-true _ _ tb.1 in
    let td = and-true _ _ tc.1 in
    let te = and-true _ _ td.1 in
    let tf = and-true _ _ te.1 in
    let tg = and-true _ _ tf.1 in
    let th = and-true _ _ tg.1 in
    subst Shape (λ i. a ∷ b ∷ c ∷ d ∷ sym form.1 i ∷ e ∷ f ∷ sym form.2 i ∷ g ∷ h ∷ [])
      (shaped a b c d e f g h (digit_of a ta.0) (digit_of b tb.0) (digit_of c tc.0)
        (digit_of d td.0) (digit_of e te.0) (digit_of f tf.0) (digit_of g tg.0) (digit_of h th.0))

abbrev Dated : Text → Type 0
Dated value =
    (year : ℕ) × (month : ℕ) × (day : ℕ) × IsDate year month day
    × (value ≡ date_text year month day)

Shape-Dated : (value : Text) → Shape value → valid_release_date value ≡ true → Dated value
Shape-Dated _ (shaped a b c d e f g h da db dc dd de df dg dh) t =
    let parts = sym (read-written a b c d e f g h da db dc dd de df dg dh) ∙ t in
    let bounds = (valid_parts_iff (four a b c d) (two e f) (two g h)).0 parts in
    let year = digits-four a b c d da db dc dd in
    let month = digits-two e f de df in
    let day = digits-two g h dg dh in
    (
      four a b c d,
      two e f,
      two g h,
      (
        bounds.0,
        omega (arith, da.1, db.1, dc.1, dd.1),
        bounds.3,
        (
          days_of (four a b c d) (two e f),
          days_of-HasDays (four a b c d) (two e f) bounds.1 bounds.2,
          bounds.4,
        ),
      ),
      λ i.
          sym year.0 i
          ∷ sym year.1 i
          ∷ sym year.2 i
          ∷ sym year.3 i
          ∷ b'-'
          ∷ sym month.0 i
          ∷ sym month.1 i
          ∷ b'-'
          ∷ sym day.0 i
          ∷ sym day.1 i
          ∷ [],
    )

days_of-le : (year month : ℕ) → days_of year month ≤ 31
days_of-le year month = ground arith

valid_release_date-date_text :
    (year month day : ℕ)
    → IsDate year month day
    → valid_release_date (date_text year month day) ≡ true
valid_release_date-date_text year month day date =
    let (last, days, within) = date.3 in
    let (counted, low, high) = HasDays-days_of year month last days in
    let small : day < 100 = omega (arith, within, counted, days_of-le year month) in
    read-written (digit (year / 1000)) (digit (year / 100)) (digit (year / 10)) (digit year)
      (digit (month / 10)) (digit month) (digit (day / 10)) (digit day)
      (digit-IsDigit (year / 1000)) (digit-IsDigit (year / 100)) (digit-IsDigit (year / 10))
      (digit-IsDigit year) (digit-IsDigit (month / 10)) (digit-IsDigit month)
      (digit-IsDigit (day / 10)) (digit-IsDigit day)
    ∙ (λ i.
        valid_parts (some (four-digits year date.1 i))
          (some (two-digits month (omega (arith, high)) i)) (some (two-digits day small i)))
    ∙ (valid_parts_iff year month day).1 (date.0, low, high, date.2, omega (arith, within, counted))

-- Exactly the dates of the calendar from year 1 to year 9999 are accepted, written with four, two
-- and two digits and dashes between them.
pub valid_release_date_iff :
    (value : Text)
    → (valid_release_date value ≡ true) ↔ (
        (year : ℕ) × (month : ℕ) × (day : ℕ) × IsDate year month day
        × (value ≡ date_text year month day))
unfolding valid_release_date
valid_release_date_iff value = (
  λ t. elim (Bool-cases (has_date_form value)) [
    | inl formed ↦ Shape-Dated value (has_date_form-Shape value formed) t
    | inr unformed ↦ absurd (let h = rw (unformed, valid_release_date) at t in cc)
  ],
  λ (year, month, day, date, same).
      subst (λ v. valid_release_date v ≡ true) (sym same)
        (valid_release_date-date_text year month day date),
)
