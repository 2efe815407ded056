-- ===== src/Text/Decimal.antt =====
-- `strconv.Itoa` (also `%d`) and `strconv.Atoi`.
use my_demo_app.Prelude.{
  ℕ, zero, suc, ◌+◌, ◌-◌, ◌*◌, ◌/◌, ◌%◌, ◌^◌, ◌≤◌, ◌<◌, ◌≡◌, sym, ap, ◌∙◌, inl, inr, ◌&&◌, Option,
  none, some, [], ◌∷◌, arith, ltb, leb, ◌==◌, if◌then◌else◌, Bool-cases,
}
use my_demo_app.Prelude.Int.{ℤ, pos, negsuc}
use my_demo_app.Word.{IsInt64}
use mathlib.Core.Option.{some-injective}
use my_demo_app.Text.{Str}

-- The digits of `n` in front of `rest`; `n < fuel` is enough fuel.
decimal_from : ℕ → ℕ → Str → Str
decimal_from zero n rest = rest
decimal_from (suc fuel) n rest =
    let longer = decimal_from fuel (n / 10) ((48 + n % 10) ∷ rest) in
    if n / 10 == 0 then (48 + n % 10) ∷ rest else longer

unfoldable pub decimal : ℕ → Str
unfolding decimal_from
decimal n = decimal_from (suc n) n []

-- `strconv.Itoa`.
unfoldable pub itoa : ℤ → Str
unfolding decimal
itoa (pos n) = decimal n
itoa (negsuc n) = b'-' ∷ decimal (suc n)

-- The number that the digits spell behind `acc`, or `none` at another character.
digits_value : Str → ℕ → Option ℕ
digits_value [] acc = some acc
digits_value (c ∷ s) acc =
    if leb b'0' c && leb c b'9' then digits_value s (acc * 10 + (c - 48)) else none

abbrev digits : Str → Option ℕ
digits [] = none
digits (c ∷ s) = digits_value (c ∷ s) 0

-- Out of the range of an `int` is an error.
abbrev positive : Option ℕ → Option ℤ
positive none = none
positive (some n) = if ltb n (2 ^ 63) then some (pos n) else none

abbrev negative : Option ℕ → Option ℤ
negative none = none
negative (some zero) = some (pos 0)
negative (some (suc n)) = if ltb n (2 ^ 63) then some (negsuc n) else none

-- `strconv.Atoi`; `none` is an error.
unfoldable pub atoi : Str → Option ℤ
unfolding digits_value
atoi [] = none
atoi (c ∷ s) =
    if c == b'-'
    then negative (digits s)
    else if c == b'+'
    then positive (digits s)
    else positive (digits (c ∷ s))

decimal_from-cons :
    (fuel n : ℕ) (rest : Str) → n < fuel → (c : ℕ) × (s : Str) × (decimal_from fuel n rest ≡ c ∷ s)
unfolding decimal_from
decimal_from-cons zero n rest h = absurd (omega arith)
decimal_from-cons (suc fuel) n rest h = elim (Bool-cases (n / 10 == 0)) [
  | inl done ↦ (48 + n % 10, rest, rw done)
  | inr more ↦ rw more (decimal_from-cons fuel (n / 10) ((48 + n % 10) ∷ rest) (ground arith))
]

digits_value-decimal_from :
    (fuel n : ℕ) (rest : Str)
    → n < fuel
    → digits_value (decimal_from fuel n rest) 0 ≡ digits_value rest n
unfolding digits_value decimal_from
digits_value-decimal_from zero n rest h = absurd (omega arith)
digits_value-decimal_from (suc fuel) n rest h = elim (Bool-cases (n / 10 == 0)) [
  | inl done ↦ rw done (ground arith)
  | inr more ↦
      rw (more, digits_value-decimal_from fuel (n / 10) ((48 + n % 10) ∷ rest) (ground arith))
        (ground arith)
]

-- The first character of a number's digits is a digit.
digits_value-first :
    (c : ℕ) (s : Str) (acc n : ℕ) → digits_value (c ∷ s) acc ≡ some n → (b'0' ≤ c) × (c ≤ b'9')
unfolding digits_value
digits_value-first c s acc n h = ground arith

digits-decimal : (n : ℕ) → digits (decimal n) ≡ some n
unfolding decimal digits_value
digits-decimal n =
    let (c, s, e) = decimal_from-cons (suc n) n [] (omega arith) in
    let value = digits_value-decimal_from (suc n) n [] (omega arith) in rw e (rw e at value)

atoi_of_digits : (s : Str) (n : ℕ) → digits s ≡ some n → n < 2 ^ 63 → atoi s ≡ some (pos n)
unfolding atoi
atoi_of_digits [] n e h = cc
atoi_of_digits (c ∷ s) n e h = ground (arith, digits_value-first c s 0 n e)

-- Reading back what `Itoa` wrote gives the number.
pub atoi-itoa : (z : ℤ) → IsInt64 z → atoi (itoa z) ≡ some z
unfolding itoa
atoi-itoa (pos n) h = atoi_of_digits (decimal n) n (digits-decimal n) h.below
atoi-itoa (negsuc n) h = unfold atoi in rw (digits-decimal (suc n)) (ground arith)

-- Different numbers are written differently.
pub itoa-injective : (y z : ℤ) → IsInt64 y → IsInt64 z → itoa y ≡ itoa z → y ≡ z
itoa-injective y z hy hz e = some-injective _ _ (sym (atoi-itoa y hy) ∙ ap atoi e ∙ atoi-itoa z hz)
