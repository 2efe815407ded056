-- ===== src/Time/Utc.antt =====
-- Dates in UTC: `civil` and `date` undo each other, and the months tile the time line.
use native.Mathlib.Nat.{add-sub_cancel}
use native.Mathlib.Decide.{dec_lt}
use my_demo_app.Prelude.{ℕ, ◌+◌, ◌-◌, ◌*◌, ◌/◌, ◌%◌, ◌≤◌, ◌<◌, ◌≡◌, sym, ap, ◌∙◌, Bool, arith}
use my_demo_app.Time.{Time, utc, second_ns}
use my_demo_app.Time.Calendar.{
  is_leap, days_before_year, month_days, days_before_month, year_day, month_from, Civil, day_ns,
  civil, resolve, date, next_month, first_of_month,
}
use my_demo_app.Time.Bounds.{
  year_day_bounds, days_before_year-next, year_day_unique, IsMonthDay, IsMonthDay-in_year,
  IsMonthDay-bounds, month_day_unique, days_before_month-next, days_before_month_13,
}

abbrev pub utc_at : ℕ → Time
utc_at i = record { instant = i; location = utc }

-- The calendar date of a number of days since 0001-01-01.
abbrev pub day_date : ℕ → ℕ → Civil
day_date d clock =
    let yd = year_day d in
    let md = month_from 11 (is_leap yd.year) 1 yd.yday in
    record { year = yd.year; month = md.month; day = md.mday + 1; clock = clock }

civil-utc : (i : ℕ) → civil (utc_at i) ≡ day_date (i / day_ns) (i % day_ns)
unfolding civil
civil-utc i =
    let days : (i / second_ns + 0 - 0) / 86_400 ≡ i / day_ns = omega arith in
    let clock : (i / second_ns + 0 - 0) % 86_400 * second_ns + i % second_ns ≡ i % day_ns =
      omega arith in
    λ k. day_date (days k) (clock k)

-- The wall clocks that there are.
pub record IsCivil (c : Civil) : Type 0 where
  pub year : 0 < c.year
  pub day : IsMonthDay (is_leap c.year) c.month (c.day - 1)
  pub first : 0 < c.day
  pub clock : c.clock < day_ns

abbrev days_of : Civil → ℕ
days_of c = days_before_year c.year + (days_before_month (is_leap c.year) c.month + (c.day - 1))

date-utc :
    (c : Civil) → 0 < c.month → c.month ≤ 12 → date utc c ≡ utc_at (days_of c * day_ns + c.clock)
unfolding date resolve
date-utc c l h =
    let year : c.year + (c.month - 1) / 12 ≡ c.year = omega arith in
    let month : (c.month - 1) % 12 + 1 ≡ c.month = omega arith in
    rw (year, month) (ap utc_at (omega arith))

-- In UTC the wall clock of a date is that date.
pub civil-date : (c : Civil) → IsCivil c → civil (date utc c) ≡ c
civil-date c h =
    let days : (days_of c * day_ns + c.clock) / day_ns ≡ days_of c = omega (arith, h.clock) in
    let clock : (days_of c * day_ns + c.clock) % day_ns ≡ c.clock = omega (arith, h.clock) in
    let in_year = IsMonthDay-in_year (is_leap c.year) c.month (c.day - 1) h.day in
    let (y, yd) =
      year_day_unique c.year (days_before_month (is_leap c.year) c.month + (c.day - 1)) h.year
        in_year in
    let (m, md) = month_day_unique (is_leap c.year) c.month (c.day - 1) h.day in
    rw (date-utc c h.day.at_least h.day.at_most, civil-utc, days, clock)
      (rw (y, yd, m, md)
        (let day : c.day - 1 + 1 ≡ c.day = omega (arith, h.first) in λ k. record c { day = day k }))

-- The date that is computed for an instant is a date.
pub civil-IsCivil : (i : ℕ) → IsCivil (civil (utc_at i))
civil-IsCivil i =
    let (e, below, later) = year_day_bounds (i / day_ns) in
    let yd = year_day (i / day_ns) in
    let (_, month) =
      IsMonthDay-bounds (is_leap yd.year) yd.yday
        (omega (arith, days_before_year-next yd.year later)) in
    rw civil-utc (record {
      year = later;
      day = rw (add-sub_cancel (month_from 11 (is_leap yd.year) 1 yd.yday).mday) month;
      first = omega arith;
      clock = omega arith;
    })

-- In UTC the date of a wall clock is its instant.
pub date-civil : (i : ℕ) → date utc (civil (utc_at i)) ≡ utc_at i
date-civil i =
    let (e, below, later) = year_day_bounds (i / day_ns) in
    let yd = year_day (i / day_ns) in
    let (sum, month) =
      IsMonthDay-bounds (is_leap yd.year) yd.yday
        (omega (arith, days_before_year-next yd.year later)) in
    rw (civil-utc, date-utc (day_date (i / day_ns) (i % day_ns)) month.at_least month.at_most)
      (ap utc_at (omega (arith, sum, e)))

-- The first instant of a month in UTC, in days since 0001-01-01.
abbrev pub month_start : ℕ → ℕ → ℕ
month_start year month = days_before_year year + days_before_month (is_leap year) month

first_of_month-utc :
    (i : ℕ)
    → let c = civil (utc_at i) in
      first_of_month (utc_at i) ≡ utc_at (month_start c.year c.month * day_ns)
unfolding first_of_month
first_of_month-utc i =
    let c = civil (utc_at i) in
    let h = civil-IsCivil i in
    date-utc (record { year = c.year; month = c.month; day = 1; clock = 0 }) h.day.at_least
      h.day.at_most
    ∙ ap utc_at (omega arith)

date-utc_13 :
    (year : ℕ)
    → date utc (record { year = year; month = 13; day = 1; clock = 0 })
      ≡ utc_at (days_before_year (year + 1) * day_ns)
unfolding date resolve days_before_month
date-utc_13 year = ap utc_at (omega arith)

month_days_pos : (leap : Bool) (m : ℕ) → 0 < month_days leap m
unfolding month_days
month_days_pos leap m = ground arith

-- The date of the first instant of a month.
pub civil-month_start :
    (year m : ℕ)
    → 0 < year
    → 0 < m
    → m ≤ 12
    → civil (utc_at (month_start year m * day_ns))
      ≡ record { year = year; month = m; day = 1; clock = 0 }
civil-month_start year m hy low high =
    let c : Civil = record { year = year; month = m; day = 1; clock = 0 } in
    let at : utc_at (month_start year m * day_ns) ≡ date utc c =
      ap utc_at (omega arith) ∙ sym (date-utc c low high) in
    let valid : IsCivil c = record {
      year = hy;
      day = record { at_least = low; at_most = high; day = month_days_pos (is_leap year) m };
      first = omega arith;
      clock = omega arith;
    } in
    ap civil at ∙ civil-date c valid

next_month_of_first :
    (year m : ℕ)
    → 0 < year
    → 0 < m
    → m ≤ 12
    → next_month (utc_at (month_start year m * day_ns))
      ≡ utc_at ((month_start year m + month_days (is_leap year) m) * day_ns)
unfolding next_month
next_month_of_first year m hy low high =
    let c : Civil = record { year = year; month = m; day = 1; clock = 0 } in
    let back = civil-month_start year m hy low high in
    let following = days_before_month-next (is_leap year) m low in
    rw back (elim (dec_lt m 12) [
      | yes p ↦
          date-utc (record c { month = m + 1 }) (omega arith) (omega arith)
          ∙ ap utc_at (omega (arith, following))
      | no p ↦
          let last : m ≡ 12 = omega arith in
          ap (λ (n : ℕ). date utc (record c { month = n })) (omega arith)
          ∙ date-utc_13 year
          ∙ ap utc_at (
              omega (
                arith,
                following,
                days_before_year-next year hy,
                days_before_month_13 (is_leap year),
                ap (λ (n : ℕ). days_before_month (is_leap year) (n + 1)) last,
              ))
    ])

-- The month of a date begins before it and the next month behind it, `month_days` later.
pub first_of_month-bounds :
    (i : ℕ)
    → let c = civil (utc_at i) in
      let start = month_start c.year c.month * day_ns in
      (first_of_month (utc_at i) ≡ utc_at start)
      × (next_month (utc_at start) ≡ utc_at (start + month_days (is_leap c.year) c.month * day_ns))
      × (start ≤ i)
      × (i < start + month_days (is_leap c.year) c.month * day_ns)
first_of_month-bounds i =
    let c = civil (utc_at i) in
    let h = civil-IsCivil i in
    let same : days_of c * day_ns + c.clock ≡ i =
      ap (λ (t : Time). t.instant) (sym (date-utc c h.day.at_least h.day.at_most) ∙ date-civil i) in
    let next = next_month_of_first c.year c.month h.year h.day.at_least h.day.at_most in
    (
      first_of_month-utc i,
      next ∙ ap utc_at (omega arith),
      omega arith,
      omega (arith, h.day.day, h.clock),
    )
