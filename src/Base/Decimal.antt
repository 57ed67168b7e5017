-- ===== src/Base/Decimal.antt =====
-- `{}` of an unsigned integer.
use Prim.Native.Nat.{ℕ, zero, suc, ◌+◌, ◌-◌, ◌*◌, ◌/◌, ◌%◌, ◌<◌}
use mathlib.Core.Path.{◌≡◌, refl, sym, ap, ◌∙◌}
use mathlib.Core.Logic.{inl, inr}
use mathlib.Core.List.{[], ◌∷◌, ◌++◌}
use native.Mathlib.Omega.{arith}
use tmcp.Base.Tests.{ltb, if◌then◌else◌, Bool-cases, ltb-false→le}
use tmcp.Base.Bytes.{Text}

-- The digits of `n`, the last one split off in each round; `n` rounds are more than enough.
unfoldable pub decimal_digits : ℕ → ℕ → Text
decimal_digits zero n = []
decimal_digits (suc fuel) n =
    let front = decimal_digits fuel (n / 10) in
    if ltb n 10 then (b'0' + n) ∷ [] else front ++ (b'0' + n % 10) ∷ []

unfoldable pub decimal : ℕ → Text
unfolding decimal_digits
decimal n = decimal_digits (suc n) n

-- The value of a text of digits.
abbrev digits_value : ℕ → Text → ℕ
digits_value acc [] = acc
digits_value acc (c ∷ s) = digits_value (acc * 10 + (c - b'0')) s

digits_value-append :
    (acc : ℕ) (s t : Text) → digits_value acc (s ++ t) ≡ digits_value (digits_value acc s) t
digits_value-append acc [] t = refl
digits_value-append acc (c ∷ s) t = digits_value-append (acc * 10 + (c - b'0')) s t

digits_value-decimal_digits : (fuel n : ℕ) → n < fuel → digits_value 0 (decimal_digits fuel n) ≡ n
unfolding decimal_digits
digits_value-decimal_digits zero n h = absurd (omega (arith, h))
digits_value-decimal_digits (suc fuel) n h = elim (Bool-cases (ltb n 10)) [
  | inl small ↦ rw small (omega arith)
  | inr large ↦
      let enough : n / 10 < fuel = omega (arith, h, ltb-false→le n 10 large) in
      rw (large, digits_value-append 0 (decimal_digits fuel (n / 10)) ((b'0' + n % 10) ∷ []))
        (rw (digits_value-decimal_digits fuel (n / 10) enough) (omega arith))
]

-- Different numbers are written differently.
pub decimal-inj : (m n : ℕ) → decimal m ≡ decimal n → m ≡ n
unfolding decimal
decimal-inj m n e =
    sym (digits_value-decimal_digits (suc m) m (omega arith))
    ∙ ap (digits_value 0) e
    ∙ digits_value-decimal_digits (suc n) n (omega arith)
