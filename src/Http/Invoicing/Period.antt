-- ===== src/Http/Invoicing/Period.antt =====
-- internal/httpapi/invoice.go: the period of an invoice, and its base price.
use my_demo_app.Prelude.{◌+◌, ◌*◌, ◌≤◌, ◌<◌, ◌≡◌, refl, ap, ◌∙◌, arith}
use my_demo_app.Prelude.Int.{pos}
use my_demo_app.Billing.Proration.{month_days_small, days_in_month-utc, span_days_exact}
use my_demo_app.Time.Calendar.{is_leap, month_days, Civil, day_ns, civil}
use my_demo_app.Time.Utc.{
  utc_at, civil-IsCivil, month_start, civil-month_start, first_of_month-bounds,
}
use my_demo_app.Billing.{base_cents, span_days, days_in_month}
use my_demo_app.Time.{Time, Location, hour_ns}
use my_demo_app.Subscriber.{Plan}
use my_demo_app.Http.Invoicing.{current_billing_period}

-- The current billing period is the UTC calendar month that contains the clock's time: it starts at
-- or before it, ends behind it, and has the days of that month.
pub current_billing_period-month :
    (now : Time)
    → let c = civil (utc_at now.instant) in
      let days = month_days (is_leap c.year) c.month in
      let (start, end) = current_billing_period now in
      (start ≡ utc_at (month_start c.year c.month * day_ns))
      × (end ≡ utc_at (start.instant + days * day_ns))
      × (start.instant ≤ now.instant)
      × (now.instant < end.instant)
unfolding current_billing_period
current_billing_period-month now =
    let (first, next, low, high) = first_of_month-bounds now.instant in
    rw (first, next) (refl, refl, low, high)

-- For the current billing period the base line is the plan's price, in every local time of the
-- server.
pub base_cents-current :
    (local : Location) (plan : Plan) (now : Time)
    → let (start, end) = current_billing_period now in
      base_cents local plan start end ≡ plan.monthly_price_cents
unfolding current_billing_period base_cents
base_cents-current local plan now =
    let c = civil (utc_at now.instant) in
    let m = month_days (is_leap c.year) c.month in
    let start = month_start c.year c.month * day_ns in
    let (first, next, _, _) = first_of_month-bounds now.instant in
    let h = civil-IsCivil now.instant in
    let back = civil-month_start c.year c.month h.year h.day.at_least h.day.at_most in
    let (some_days, most_days) = month_days_small (is_leap c.year) c.month in
    let to_end : start + m * day_ns ≡ start + m * 24 * hour_ns = omega arith in
    let span : span_days local (utc_at start) (utc_at (start + m * 24 * hour_ns)) ≡ pos m =
      span_days_exact local start (m * 24) (omega arith) ∙ ap pos (omega arith) in
    let month : days_in_month (utc_at start) ≡ pos m =
      days_in_month-utc start
      ∙ ap (λ (x : Civil). pos (month_days (is_leap x.year) x.month)) back in
    rw (first, next, to_end, span, month) (ground arith)
