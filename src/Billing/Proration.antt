-- ===== src/Billing/Proration.antt =====
-- Day counts and proration: where the `float64` arithmetic is exact, the base price is the whole part
-- of the exact quotient.
use native.Mathlib.Nat.{mul-one, one-mul, div-lt_iff_lt-mul}
use native.Mathlib.Nat.{mul-le-mul_left}
use my_demo_app.Prelude.{
  ℕ, ◌+◌, ◌*◌, ◌/◌, ◌%◌, ◌^◌, ◌≤◌, ◌<◌, ◌≡◌, refl, ap, ◌∙◌, inl, inr, Bool, false, arith, ltb,
  if◌then◌else◌, ltb→lt, Bool-cases,
}
use my_demo_app.Prelude.Int.{ltb_ℤ, pos}
use my_demo_app.Float
use my_demo_app.Float.{Float64, of_nat, trunc, round53}
use my_demo_app.Float.Exact.{whole, round53-whole, trunc-round53}
use my_demo_app.Time.{Location, hour_ns, within, sub}
use my_demo_app.Time.Calendar.{is_leap, month_days, day_ns, civil}
use my_demo_app.Time.Utc.{utc_at, first_of_month-bounds, month_start}
use my_demo_app.Subscriber.{Plan}
use my_demo_app.Billing.{
  hours, whole_days, duration_days, days_in_month, prorated, span_days, base_cents,
}

of_nat-whole : (n : ℕ) → n < 2 ^ 53 → of_nat n ≡ whole n
unfolding of_nat
of_nat-whole n h = round53-whole n h

trunc-div :
    (a b : ℕ) → a < 2 ^ 53 → 0 < b → b < 2 ^ 64 → trunc (Float.div (whole a) (whole b)) ≡ a / b
unfolding Float.div
trunc-div a b ha hb small = rw (mul-one a, one-mul b) (trunc-round53 a b ha hb small)

round53_zero : (m : ℕ) → round53 0 m ≡ whole 0
unfolding round53
round53_zero m = refl

-- A duration of whole hours.
hours-whole : (h : ℕ) → h < 2 ^ 53 → hours (h * hour_ns) ≡ whole h
unfolding hours Float.add Float.div
hours-whole h small =
    let count : h * hour_ns / hour_ns ≡ h = omega arith in
    let rest : h * hour_ns % hour_ns ≡ 0 = omega arith in
    let sum : h * 1 + 0 * 1 ≡ h = omega arith in
    rw
      (
        count,
        rest,
        of_nat-whole h small,
        of_nat-whole 0 (omega arith),
        of_nat-whole hour_ns (omega arith),
        round53_zero hour_ns,
        sum,
      )
      (round53-whole h small)

-- A duration of whole hours has the days that it should.
pub whole_days_exact : (h : ℕ) → h < 2 ^ 53 → whole_days (h * hour_ns) ≡ h / 24
unfolding whole_days
whole_days_exact h small =
    rw (hours-whole h small, of_nat-whole 24 (omega arith))
      (trunc-div h 24 small (omega arith) (omega arith))

-- The proration is the whole part of the exact quotient while the product stays below 2 ^ 53.
pub prorated_exact :
    (n span month : ℕ)
    → n < 2 ^ 53
    → span < 2 ^ 53
    → n * span < 2 ^ 53
    → 0 < month
    → month < 2 ^ 53
    → prorated (pos n) span month ≡ pos (n * span / month)
unfolding prorated Float.mul
prorated_exact n span month hn hs hp hm small =
    let positive : ltb_ℤ (pos n) (pos 0) ≡ false = ground arith in
    rw
      (
        positive,
        of_nat-whole n hn,
        of_nat-whole span hs,
        of_nat-whole month small,
        round53-whole (n * span) hp,
      )
      (ap pos (trunc-div (n * span) month hp hm (omega arith)))

pub month_days_small : (leap : Bool) (m : ℕ) → (0 < month_days leap m) × (month_days leap m ≤ 31)
unfolding month_days
month_days_small leap m = ground arith

-- In UTC the computed length of a month is its number of days.
pub days_in_month-utc :
    (i : ℕ)
    → let c = civil (utc_at i) in
      days_in_month (utc_at i) ≡ pos (month_days (is_leap c.year) c.month)
unfolding days_in_month duration_days sub
days_in_month-utc i =
    let c = civil (utc_at i) in
    let m = month_days (is_leap c.year) c.month in
    let start = month_start c.year c.month * day_ns in
    let (first, next, _, _) = first_of_month-bounds i in
    let gap : sub (utc_at (start + m * day_ns)) (utc_at start) ≡ pos (m * 24 * hour_ns) =
      ground (arith, month_days_small (is_leap c.year) c.month) in
    rw (first, next)
      (ap duration_days gap
        ∙ ap pos (
            whole_days_exact (m * 24) (omega (arith, month_days_small (is_leap c.year) c.month))
            ∙ omega arith))

sub-hours :
    (local : Location) (i h : ℕ)
    → h < 2_000_000
    → sub (within local (utc_at (i + h * hour_ns))) (within local (utc_at i)) ≡ pos (h * hour_ns)
unfolding sub
sub-hours local i h small = ground arith

-- The span of two instants that are whole hours apart, in any local time.
pub span_days_exact :
    (local : Location) (i h : ℕ)
    → h < 2_000_000
    → span_days local (utc_at i) (utc_at (i + h * hour_ns)) ≡ pos (h / 24)
unfolding span_days duration_days
span_days_exact local i h small =
    let positive : ltb_ℤ (pos (h / 24)) (pos 0) ≡ false = ground arith in
    rw (sub-hours local i h small, whole_days_exact h (omega arith), positive)

-- For a price from 0 to below 2 ^ 48 cents and a period in UTC of whole hours, fewer than 2,000,000
-- of them, the base line is the price times the period's whole days over the days of its first
-- month, rounded down, or the price from a month's days on; it never exceeds the price.
pub base_cents_exact :
    (local : Location) (plan : Plan) (n i h : ℕ)
    → plan.monthly_price_cents ≡ pos n
    → n < 2 ^ 48
    → h < 2_000_000
    → let c = civil (utc_at i) in
      let month = month_days (is_leap c.year) c.month in
      let base = (if ltb (h / 24) month then n * (h / 24) / month else n) in
      (base_cents local plan (utc_at i) (utc_at (i + h * hour_ns)) ≡ pos base) × (base ≤ n)
unfolding base_cents
base_cents_exact local plan n i h price small hours_small =
    let c = civil (utc_at i) in
    let month = month_days (is_leap c.year) c.month in
    let (some_days, most_days) = month_days_small (is_leap c.year) c.month in
    rw (span_days_exact local i h hours_small, days_in_month-utc i, price)
      (elim (Bool-cases (ltb (h / 24) month)) [
        | inl part ↦
            let short : h / 24 < month = ltb→lt _ _ part in
            let product : n * (h / 24) ≤ n * 31 = mul-le-mul_left n (omega arith) in
            let whole_price : n * (h / 24) ≤ n * month = mul-le-mul_left n (omega arith) in
            let above : n * month < (n + 1) * month = omega arith in
            let at_most : n * (h / 24) / month < n + 1 =
              (div-lt_iff_lt-mul some_days).1 (omega arith) in
            let value : prorated (pos n) (h / 24) month ≡ pos (n * (h / 24) / month) =
              prorated_exact n (h / 24) month (omega arith) (omega arith) (omega arith) some_days
                (omega arith) in
            (ground (arith, value), ground (arith, at_most))
        | inr all ↦ ground arith
      ])
