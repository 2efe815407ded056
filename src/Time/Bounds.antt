-- ===== src/Time/Bounds.antt =====
-- The calendar inverts: the date that is computed for an instant in UTC names that instant.
use native.Mathlib.Numerals.{add-one}
use native.Mathlib.Nat.{add-zero}
use native.Mathlib.Decide.{dec_lt}
use my_demo_app.Prelude.{
  ℕ, zero, suc, ◌+◌, ◌-◌, ◌≤◌, ◌<◌, ◌≡◌, refl, ap, Bool, true, false, arith, if◌then◌else◌,
}
use my_demo_app.Time.Calendar.{
  is_leap, days_before_year, month_days, days_before_month, year_day, month_from,
}

-- A day lies in its year.
pub year_day_bounds :
    (d : ℕ)
    → (days_before_year (year_day d).year + (year_day d).yday ≡ d)
      × (d < days_before_year ((year_day d).year + 1))
      × (0 < (year_day d).year)
unfolding year_day days_before_year
year_day_bounds d = omega arith

days_before_year_mono : (y z : ℕ) → y ≤ z → days_before_year y ≤ days_before_year z
unfolding days_before_year
days_before_year_mono y z h = omega arith

abbrev pub year_days : Bool → ℕ
year_days leap = if leap then 366 else 365

pub days_before_year-next :
    (y : ℕ) → 0 < y → days_before_year (y + 1) ≡ days_before_year y + year_days (is_leap y)
unfolding days_before_year is_leap
days_before_year-next y h = ground arith

-- The year of a day is the only one that it lies in.
pub year_day_unique :
    (y yd : ℕ)
    → 0 < y
    → yd < year_days (is_leap y)
    → ((year_day (days_before_year y + yd)).year ≡ y)
      × ((year_day (days_before_year y + yd)).yday ≡ yd)
year_day_unique y yd hy h =
    let d = days_before_year y + yd in
    let z = (year_day d).year in
    let (e, below, pos) = year_day_bounds d in
    let up : z < y + 1 = elim (dec_lt z (y + 1)) [
      | yes p ↦ p
      | no n ↦
          absurd (
            omega
              (arith, days_before_year-next y hy, days_before_year_mono (y + 1) z (omega arith)))
    ] in
    let down : y < z + 1 = elim (dec_lt y (z + 1)) [
      | yes p ↦ p
      | no n ↦ absurd (omega (arith, days_before_year_mono (z + 1) y (omega arith)))
    ] in
    let same : z ≡ y = omega arith in (same, omega (arith, ap days_before_year same))

pub days_before_month-next :
    (leap : Bool) (m : ℕ)
    → 0 < m
    → days_before_month leap (m + 1) ≡ days_before_month leap m + month_days leap m
days_before_month-next leap zero h = absurd (omega arith)
days_before_month-next leap (suc m) h = rw (add-one (suc m)) (unfold days_before_month in refl)

pub days_before_month_13 : (leap : Bool) → days_before_month leap 13 ≡ year_days leap
unfolding days_before_month month_days
days_before_month_13 true = refl
days_before_month_13 false = refl

-- A day of the year lies in its month.
month_from_bounds :
    (left : ℕ) (leap : Bool) (month yday : ℕ)
    → 0 < month
    → left + month ≡ 12
    → days_before_month leap month + yday < days_before_month leap 13
    → let md = month_from left leap month yday in
      (days_before_month leap md.month + md.mday ≡ days_before_month leap month + yday)
      × (md.mday < month_days leap md.month)
      × (0 < md.month)
      × (md.month ≤ 12)
unfolding month_from
month_from_bounds zero leap month yday hm e h =
    let last : month ≡ 12 = omega arith in
    (
      refl,
      omega (
        arith,
        days_before_month-next leap month hm,
        ap (λ (m : ℕ). days_before_month leap (m + 1)) last,
      ),
      hm,
      omega arith,
    )
month_from_bounds (suc left) leap month yday hm e h = ground (
  arith,
  days_before_month-next leap month hm,
  month_from_bounds left leap (month + 1) (yday - month_days leap month),
)

days_before_month_mono :
    (leap : Bool) (m k : ℕ) → 0 < m → days_before_month leap m ≤ days_before_month leap (m + k)
days_before_month_mono leap m zero h =
    omega (arith, ap (λ (n : ℕ). days_before_month leap n) (add-zero m))
days_before_month_mono leap m (suc k) h =
    let same : m + suc k ≡ m + k + 1 = omega arith in
    rw same (
      omega (
        arith,
        days_before_month_mono leap m k h,
        days_before_month-next leap (m + k) (omega arith),
      ))

days_before_month-le :
    (leap : Bool) (m n : ℕ) → 0 < m → m ≤ n → days_before_month leap m ≤ days_before_month leap n
days_before_month-le leap m n h le =
    let same : m + (n - m) ≡ n = omega arith in rw same at (days_before_month_mono leap m (n - m) h)

pub record IsMonthDay (leap : Bool) (m d : ℕ) : Type 0 where
  pub at_least : 0 < m
  pub at_most : m ≤ 12
  pub day : d < month_days leap m

-- A day of a month is before the end of the year.
pub IsMonthDay-in_year :
    (leap : Bool) (m d : ℕ) → IsMonthDay leap m d → days_before_month leap m + d < year_days leap
IsMonthDay-in_year leap m d h = omega (
  arith,
  days_before_month-next leap m h.at_least,
  days_before_month-le leap (m + 1) 13 (omega arith) (omega (arith, h.at_most)),
  days_before_month_13 leap,
  h.day,
)

-- The month and day of a day of the year, which are in range.
pub IsMonthDay-bounds :
    (leap : Bool) (yday : ℕ)
    → yday < year_days leap
    → let md = month_from 11 leap 1 yday in
      (days_before_month leap md.month + md.mday ≡ yday) × IsMonthDay leap md.month md.mday
IsMonthDay-bounds leap yday h =
    let first : days_before_month leap 1 ≡ 0 = unfold days_before_month in refl in
    let (e, d, low, high) =
      month_from_bounds 11 leap 1 yday (omega arith) (omega arith)
        (omega (arith, days_before_month_13 leap, first)) in
    (omega (arith, e, first), record { at_least = low; at_most = high; day = d })

-- The month of a day of the year is the only one that it lies in.
pub month_day_unique :
    (leap : Bool) (m d : ℕ)
    → IsMonthDay leap m d
    → let md = month_from 11 leap 1 (days_before_month leap m + d) in (md.month ≡ m) × (md.mday ≡ d)
month_day_unique leap m d h =
    let y = days_before_month leap m + d in
    let (e, md) = IsMonthDay-bounds leap y (IsMonthDay-in_year leap m d h) in
    let n = (month_from 11 leap 1 y).month in
    let up : n < m + 1 = elim (dec_lt n (m + 1)) [
      | yes p ↦ p
      | no p ↦ absurd (
          omega (
            arith,
            h.day,
            days_before_month-next leap m h.at_least,
            days_before_month-le leap (m + 1) n (omega arith) (omega arith),
          ))
    ] in
    let down : m < n + 1 = elim (dec_lt m (n + 1)) [
      | yes p ↦ p
      | no p ↦ absurd (
          omega (
            arith,
            md.day,
            days_before_month-next leap n md.at_least,
            days_before_month-le leap (n + 1) m (omega arith) (omega arith),
          ))
    ] in
    let same : n ≡ m = omega arith in
    (same, omega (arith, ap (λ (k : ℕ). days_before_month leap k) same))
