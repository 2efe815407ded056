-- ===== src/Float.antt =====
-- Go's `float64` on the non-negative values that the billing code computes: IEEE 754 doubles with
-- 53 bits of precision, rounded to nearest, ties to even. The values stay far from the smallest and
-- the largest exponents, which are not modelled.
pub mod Exact
use my_demo_app.Prelude.{
  ℕ, zero, suc, ◌+◌, ◌-◌, ◌*◌, ◌/◌, ◌%◌, ◌^◌, ◌≤◌, ◌<◌, ◌≡◌, refl, sym, ap, ap₂, ◌∙◌, ◌≡⟨◌⟩◌, ◌∎,
  ◌≢◌, ◌↔◌, ◌⊎◌, inl, inr, Bool, true, false, not, ◌&&◌, ◌||◌, Option, none, some, List, [], ◌∷◌,
  ◌++◌, map, arith, ltb, leb, ◌==◌, if◌then◌else◌, ltb→lt, lt→ltb, leb→le, ==_iff, tests,
  Bool-cases, Option-cases, length, get_elem?, set, length-append, length-set, get_elem?-set_self,
  get_elem?-set_ne, get_or, take, drop, replicate, take-append-drop, length-take, length-drop,
  length-replicate, length-map,
}

-- The value `num / den`; `den` is a power of two.
pub record Float64 : Type 0 where
  pub num : ℕ
  pub den : ℕ

-- The power of two by which `m` has to grow until `x / m` is below 2 ^ 53.
unfoldable pub grow : ℕ → ℕ → ℕ → ℕ
grow zero x m = 1
grow (suc fuel) x m = elim (leb (2 ^ 53 * m) x) [ true ↦ 2 * grow fuel x (2 * m) | false ↦ 1 ]

-- The power of two by which `x` has to grow until `x / m` is at least 2 ^ 52.
unfoldable pub shrink : ℕ → ℕ → ℕ → ℕ
shrink zero x m = 1
shrink (suc fuel) x m = elim (ltb x (2 ^ 52 * m)) [ true ↦ 2 * shrink fuel (2 * x) m | false ↦ 1 ]

-- `x / m` rounded to the nearest integer, a tie to the even one.
unfoldable pub nearest : ℕ → ℕ → ℕ
nearest x m =
    let q = x / m in
    let r = x % m in if ltb (2 * r) m then q else if ltb m (2 * r) then q + 1 else q + q % 2

-- An integral value has the denominator 1.
unfoldable pub reduce : ℕ → ℕ → Float64
reduce n d = if n % d == 0 then record { num = n / d; den = 1 } else record { num = n; den = d }

-- The fuel covers quotients between 2 ^ -200 and 2 ^ 250.
abbrev pub steps : ℕ
steps = 256

-- The double nearest to `x / m`, for `m` at least 1.
unfoldable pub round53 : ℕ → ℕ → Float64
round53 zero m = record { num = 0; den = 1 }
round53 (suc n) m =
    let x = suc n in
    let up = grow steps x m in
    let down = shrink steps x (m * up) in reduce (nearest (x * down) (m * up) * up) down

-- `float64(n)`
unfoldable pub of_nat : ℕ → Float64
of_nat n = round53 n 1

unfoldable pub add : Float64 → Float64 → Float64
add a b = round53 (a.num * b.den + b.num * a.den) (a.den * b.den)

unfoldable pub mul : Float64 → Float64 → Float64
mul a b = round53 (a.num * b.num) (a.den * b.den)

unfoldable pub div : Float64 → Float64 → Float64
div a b = round53 (a.num * b.den) (a.den * b.num)

-- The conversion to an integer type cuts the fraction off.
unfoldable pub trunc : Float64 → ℕ
trunc a = a.num / a.den
