-- ===== src/Float/Exact.antt =====
-- Where the double arithmetic of the billing code is exact.
use native.Mathlib.Nat.{
  pow-suc, div-eq_of_lt-le, div-mul-le_self, lt-div-mul-add, le-div_iff_mul-le, mul-div_cancel,
  div-add-mod, div-one,
}
use native.Mathlib.Decide.{dec_lt}
use native.Mathlib.Nat.{mul-le-mul_right}
use native.Mathlib.Nat.{div-lt_iff_lt-mul}
use native.Mathlib.Nat.{mul-one, zero-div, mul-mod_left}
use my_demo_app.Prelude.{
  ◌-◌, ℕ, zero, suc, ◌+◌, ◌-◌, ◌*◌, ◌/◌, ◌%◌, ◌^◌, ◌≤◌, ◌<◌, ◌≡◌, refl, sym, ◌⊎◌, inl, inr, arith,
  ltb, ◌==◌, Bool-cases,
}
use my_demo_app.Float.{Float64, grow, shrink, nearest, reduce, steps, round53, trunc}

grow_none : (fuel x m : ℕ) → x < 2 ^ 53 * m → grow fuel x m ≡ 1
unfolding grow
grow_none zero x m h = refl
grow_none (suc fuel) x m h = ground arith

shrink_pos : (fuel x m : ℕ) → 0 < shrink fuel x m
unfolding shrink
shrink_pos zero x m = omega arith
shrink_pos (suc fuel) x m = ground (arith, shrink_pos fuel (2 * x) m)

-- With enough fuel the scaled quotient has all its 53 bits.
shrink_enough : (fuel x m : ℕ) → 2 ^ 52 * m ≤ x * 2 ^ fuel → 2 ^ 52 * m ≤ x * shrink fuel x m
unfolding shrink
shrink_enough zero x m h = omega arith
shrink_enough (suc fuel) x m h =
    let doubled : x * 2 ^ suc fuel ≡ 2 * x * 2 ^ fuel = rw (pow-suc 2 fuel) (grind arith) in
    let more = shrink_enough fuel (2 * x) m (omega arith) in
    elim (Bool-cases (ltb x (2 ^ 52 * m))) [
      | inl short ↦ rw (short, shrink) (omega arith)
      | inr long ↦ rw (long, shrink) (ground arith)
    ]

nearest_cases : (y m : ℕ) → (nearest y m ≡ y / m) ⊎ ((nearest y m ≡ y / m + 1) × (m ≤ 2 * (y % m)))
unfolding nearest
nearest_cases y m = ground arith

-- What rounding up would need to reach the next whole number.
round_up_short :
    (x m scale q r b : ℕ)
    → x < 2 ^ 53
    → 0 < scale
    → 2 ^ 52 * m ≤ x * scale
    → x < (q + 1) * m
    → x * scale ≡ b * m + r
    → m ≤ 2 * r
    → b + 1 < (q + 1) * scale
round_up_short x m scale q r b hx hs full hq e up = elim (dec_lt (b + 1) ((q + 1) * scale)) [
  | yes short ↦ short
  | no long ↦
      let past : (q + 1) * scale ≤ b + 1 = omega arith in
      let bits : 2 ^ 53 * scale ≤ x * scale =
        omega (arith, mul-le-mul_right m past, mul-le-mul_right scale hq) in
      let small : x ≤ 2 ^ 53 - 1 = omega arith in
      absurd (omega (arith, mul-le-mul_right scale small))
]

-- The whole part survives the rounding when the numerator is exact and `scale` gives 53 bits.
nearest_floor :
    (x m scale : ℕ)
    → 0 < m
    → x < 2 ^ 53
    → 0 < scale
    → 2 ^ 52 * m ≤ x * scale
    → nearest (x * scale) m / scale ≡ x / m
nearest_floor x m scale hm hx hs h =
    let whole : x / m * m ≤ x = div-mul-le_self x m in
    let next : x < (x / m + 1) * m = omega (arith, lt-div-mul-add {a = x} hm) in
    let low : x / m * scale ≤ x * scale / m =
      (le-div_iff_mul-le hm).1 (omega (arith, mul-le-mul_right scale whole)) in
    let high : x * scale < (x / m + 1) * scale * m = omega (arith, mul-le-mul_right scale next) in
    let below : x * scale / m < (x / m + 1) * scale = (div-lt_iff_lt-mul hm).1 high in
    let split : x * scale ≡ x * scale / m * m + x * scale % m =
      omega (arith, div-add-mod (x * scale) m) in
    elim (nearest_cases (x * scale) m) [
      | inl e ↦ div-eq_of_lt-le scale (rw e low) (rw e below)
      | inr (e, up) ↦ div-eq_of_lt-le scale (rw e (omega (arith, low))) (
          rw e (
            round_up_short x m scale (x / m) (x * scale % m) (x * scale / m) hx hs h next split up))
    ]

-- A double that is a whole number.
abbrev pub whole : ℕ → Float64
whole n = record { num = n; den = 1 }

trunc-reduce : (n d : ℕ) → trunc (reduce n d) ≡ n / d
unfolding trunc reduce
trunc-reduce n d = elim (Bool-cases (n % d == 0)) [
  | inl even ↦ rw even (div-one (n / d))
  | inr odd ↦ rw odd
]

reduce-mul : (n d : ℕ) → 0 < d → reduce (n * d) d ≡ whole n
unfolding reduce
reduce-mul n d h = rw (mul-mod_left n d, mul-div_cancel n h) refl

nearest_whole : (n : ℕ) → nearest n 1 ≡ n
unfolding nearest
nearest_whole n = ground arith

-- The scaling of a quotient below 2 ^ 53 grows the numerator only.
round53-suc :
    (n m : ℕ)
    → suc n < 2 ^ 53 * m
    → round53 (suc n) m
      ≡ reduce (nearest (suc n * shrink steps (suc n) m) m) (shrink steps (suc n) m)
unfolding round53
round53-suc n m h = rw (grow_none steps (suc n) m h) (rw (mul-one m, mul-one) refl)

-- Integers below 2 ^ 53 are doubles.
pub round53-whole : (n : ℕ) → n < 2 ^ 53 → round53 n 1 ≡ whole n
round53-whole zero h = unfold round53 in refl
round53-whole (suc n) h =
    let s = shrink steps (suc n) 1 in
    rw (round53-suc n 1 (omega arith), nearest_whole (suc n * s))
      (reduce-mul (suc n) s (shrink_pos steps (suc n) 1))

-- The whole part of a quotient is exact when the numerator is: rounding never carries it over.
pub trunc-round53 : (x m : ℕ) → x < 2 ^ 53 → 0 < m → m < 2 ^ 64 → trunc (round53 x m) ≡ x / m
trunc-round53 zero m h hm hb = unfold round53 trunc in sym (zero-div m)
trunc-round53 (suc n) m h hm hb =
    let s = shrink steps (suc n) m in
    rw (round53-suc n m (omega arith), trunc-reduce)
      (nearest_floor (suc n) m s hm h (shrink_pos steps (suc n) m)
        (shrink_enough steps (suc n) m (omega arith)))
