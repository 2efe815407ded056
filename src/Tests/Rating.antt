-- ===== src/Tests/Rating.antt =====
-- The rating of internal/billing/billing.go and the invoices of internal/httpapi/invoice.go.
use mathlib.Core.List.{Permᴰ}
use my_demo_app.Prelude.{
  ◌+◌, ◌*◌, ◌/◌, ◌≤◌, ◌<◌, ◌≡◌, refl, List, [], ◌∷◌, arith, ltb, if◌then◌else◌,
}
use my_demo_app.Prelude.Int.{◌+ℤ◌, ◌*ℤ◌, ◌-ℤ◌, pos, ℤ}
use my_demo_app.Text.{lit, Str}
use my_demo_app.Exec.{ok, err, failed}
use my_demo_app.Time.{utc, hour_ns, before}
use my_demo_app.Time.Calendar.{is_leap, month_days, day_ns, civil, date}
use my_demo_app.Time.Utc.{utc_at, date-civil, month_start}
use my_demo_app.Subscriber.{InvoiceLine, UsageRecord}
use my_demo_app.Billing.{no_usage, aggregate, base_cents, rate}
use my_demo_app.Billing.Usage.{totals, aggregate-totals}
use my_demo_app.Billing.Order.{rate-perm}
use my_demo_app.Billing.Total.{invoice_lines, total_of, rate_lem}
use my_demo_app.Billing.Proration.{base_cents_exact}
use my_demo_app.Http.Invoicing.{current_billing_period}
use my_demo_app.Http.Invoicing.Period.{current_billing_period-month}
use my_demo_app.Tests.Fixtures.{january, february, now, basic, usage_of}

abbrev calls : List UsageRecord
calls = usage_of (lit "voice") (pos 120) now ∷ usage_of (lit "sms") (pos 60) now ∷ []

abbrev swapped : List UsageRecord
swapped = usage_of (lit "sms") (pos 60) now ∷ usage_of (lit "voice") (pos 120) now ∷ []

rate_lem_example : rate utc basic calls january february ≡ (
    if before february january
    then err (failed (lit "billing: period end before period start"))
    else (let lines = invoice_lines utc basic calls january february in
        ok (record {
          subscriber_id = [];
          period_start = january;
          period_end = february;
          lines = lines;
          total_cents = total_of lines;
        })))
rate_lem_example = rate_lem utc basic calls january february

aggregate-totals_example : aggregate january february calls no_usage ≡ totals january february calls
aggregate-totals_example = aggregate-totals january february calls

rate-perm_example : rate utc basic calls january february ≡ rate utc basic swapped january february
rate-perm_example = rate-perm utc basic january february (Permᴰ.swap refl refl)

-- The first half of January, 15 days and 12 hours, at 31 euros a month.
base_cents_exact_example :
    let c = civil january in
    let month = month_days (is_leap c.year) c.month in
    let base = (if ltb (372 / 24) month then 3100 * (372 / 24) / month else 3100) in
    (base_cents utc basic january (utc_at (739_251 * day_ns + 372 * hour_ns)) ≡ pos base)
    × (base ≤ 3100)
base_cents_exact_example =
    base_cents_exact utc basic 3100 (739_251 * day_ns) 372 refl (omega arith) (omega arith)

current_billing_period-month_example :
    let c = civil now in
    let days = month_days (is_leap c.year) c.month in
    let (start, end) = current_billing_period now in
    (start ≡ utc_at (month_start c.year c.month * day_ns))
    × (end ≡ utc_at (start.instant + days * day_ns))
    × (start.instant ≤ now.instant)
    × (now.instant < end.instant)
current_billing_period-month_example = current_billing_period-month now

date-civil_example : date utc (civil now) ≡ now
date-civil_example = date-civil (739_260 * day_ns)

abbrev line : Str → ℤ → InvoiceLine
line description amount = record { description = description; amount_cents = amount }

-- 20 minutes at 10 cents and 10 messages at 5 cents beyond the allowances.
rate_calls :
    rate utc basic calls january february
    ≡ ok (record {
      subscriber_id = [];
      period_start = january;
      period_end = february;
      lines =
          line (lit "Base plan (Basic)") (pos 3100)
          ∷ line (lit "Voice overage (20 min)") (pos 200)
          ∷ line (lit "SMS overage (10 msgs)") (pos 50)
          ∷ [];
      total_cents = pos 3350;
    })
unfolding rate my_demo_app.Billing.add_overages my_demo_app.Billing.add_overage aggregate
    my_demo_app.Billing.tally my_demo_app.Text.str_eq my_demo_app.Billing.tally_sms
    my_demo_app.Word.add64 my_demo_app.Word.wrap64 ◌+ℤ◌ my_demo_app.Billing.tally_voice
    my_demo_app.Billing.add_line my_demo_app.Billing.base_invoice base_cents
    my_demo_app.Billing.span_days my_demo_app.Billing.duration_days my_demo_app.Time.sub
    my_demo_app.Billing.days_in_month my_demo_app.Billing.hours my_demo_app.Billing.prorated
    my_demo_app.Billing.tally_data my_demo_app.Billing.whole_days my_demo_app.Float.add
    my_demo_app.Float.div my_demo_app.Float.grow my_demo_app.Float.mul my_demo_app.Float.nearest
    my_demo_app.Float.of_nat my_demo_app.Float.reduce my_demo_app.Float.round53
    my_demo_app.Float.shrink my_demo_app.Float.trunc ◌*ℤ◌ ◌-ℤ◌ my_demo_app.Text.Decimal.decimal
    my_demo_app.Text.Decimal.itoa civil date my_demo_app.Time.Calendar.days_before_month
    my_demo_app.Time.Calendar.days_before_year my_demo_app.Time.Calendar.first_of_month is_leap
    month_days my_demo_app.Time.Calendar.month_from my_demo_app.Time.Calendar.next_month
    my_demo_app.Time.Calendar.resolve my_demo_app.Time.Calendar.year_day my_demo_app.Word.mul64
    my_demo_app.Word.sub64 my_demo_app.Word.wrap32
rate_calls = refl
