-- ===== src/Time/Calendar.antt =====
-- The proleptic Gregorian calendar of Go's `time`: `Year`, `Month`, `Day`, `time.Date`, `AddDate`.
use my_demo_app.Prelude.{
  ℕ, zero, suc, ◌+◌, ◌-◌, ◌*◌, ◌/◌, ◌%◌, Bool, not, ◌&&◌, ◌||◌, ltb, ◌==◌, if◌then◌else◌,
}
use my_demo_app.Prelude.Int.{ℤ, pos_part, neg_part}
use Prim.Native.Nat.{min}
use my_demo_app.Time.{Time, Location, second_ns}

unfoldable pub is_leap : ℕ → Bool
is_leap year = (year % 4 == 0) && (not (year % 100 == 0) || (year % 400 == 0))

-- Days from 0001-01-01 to the first of January of `year`, which is at least 1.
unfoldable pub days_before_year : ℕ → ℕ
days_before_year year = let k = year - 1 in 365 * k + k / 4 + k / 400 - k / 100

-- The days of month 1 to 12.
unfoldable pub month_days : Bool → ℕ → ℕ
month_days leap month =
    if month == 2
    then (if leap then 29 else 28)
    else if (month == 4) || (month == 6) || (month == 9) || (month == 11)
    then 30
    else 31

-- The days of the year before `month`.
unfoldable pub days_before_month : Bool → ℕ → ℕ
unfolding month_days
days_before_month leap zero = 0
days_before_month leap (suc zero) = 0
days_before_month leap (suc (suc m)) = days_before_month leap (suc m) + month_days leap (suc m)

-- Whole cycles of 400, 100, 4 and 1 years, the last of each being the longest.
pub record YearDay : Type 0 where
  pub year : ℕ
  pub yday : ℕ

unfoldable pub year_day : ℕ → YearDay
year_day d =
    let n400 = d / 146_097 in
    let d400 = d % 146_097 in
    let n100 = min (d400 / 36_524) 3 in
    let d100 = d400 - 36_524 * n100 in
    let n4 = d100 / 1461 in
    let d4 = d100 % 1461 in
    let n1 = min (d4 / 365) 3 in
    record { year = 400 * n400 + 100 * n100 + 4 * n4 + n1 + 1; yday = d4 - 365 * n1 }

pub record MonthDay : Type 0 where
  pub month : ℕ
  pub mday : ℕ

-- The month of a day of the year, `left` months from the last one.
unfoldable pub month_from : ℕ → Bool → ℕ → ℕ → MonthDay
month_from zero leap month yday = record { month = month; mday = yday }
month_from (suc left) leap month yday =
    let rest = month_from left leap (month + 1) (yday - month_days leap month) in
    if ltb yday (month_days leap month) then record { month = month; mday = yday } else rest

-- The wall clock of an instant; `day` counts from 1, `clock` in nanoseconds from midnight.
pub record Civil : Type 0 where
  pub year : ℕ
  pub month : ℕ
  pub day : ℕ
  pub clock : ℕ

abbrev pub day_ns : ℕ
day_ns = 86_400_000_000_000

-- `s + o` and `s - o` seconds; the first year is left out of account.
abbrev forward : ℕ → ℤ → ℕ
forward s o = s + pos_part o - neg_part o

abbrev backward : ℕ → ℤ → ℕ
backward s o = s + neg_part o - pos_part o

-- `t.Date()` and `t.Clock()` together.
unfoldable pub civil : Time → Civil
civil t =
    let second = t.instant / second_ns in
    let wall = forward second (t.location second) in
    let yd = year_day (wall / 86_400) in
    let md = month_from 11 (is_leap yd.year) 1 yd.yday in
    record {
      year = yd.year;
      month = md.month;
      day = md.mday + 1;
      clock = wall % 86_400 * second_ns + t.instant % second_ns;
    }

-- The second of a wall clock: the offset is looked up once as if in UTC, and again behind it.
unfoldable pub resolve : Location → ℕ → ℕ
resolve loc wall =
    let o = loc wall in
    if (pos_part o == 0) && (neg_part o == 0) then wall else backward wall (loc (backward wall o))

-- `time.Date`: months past December run into the next years.
unfoldable pub date : Location → Civil → Time
date loc c =
    let year = c.year + (c.month - 1) / 12 in
    let month = (c.month - 1) % 12 + 1 in
    let day = days_before_year year + days_before_month (is_leap year) month + (c.day - 1) in
    let wall = day * 86_400 + c.clock / second_ns in
    record { instant = resolve loc wall * second_ns + c.clock % second_ns; location = loc }

-- `t.AddDate(0, 1, 0)`
unfoldable pub next_month : Time → Time
next_month t = let c = civil t in date t.location (record c { month = c.month + 1 })

-- `time.Date(t.Year(), t.Month(), 1, 0, 0, 0, 0, t.Location())`
unfoldable pub first_of_month : Time → Time
first_of_month t =
    let c = civil t in
    date t.location (record { year = c.year; month = c.month; day = 1; clock = 0 })
