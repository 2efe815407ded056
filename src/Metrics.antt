-- ===== src/Metrics.antt =====
-- internal/observability/metrics.go: the collectors. A vector of counters is a function of its labels;
-- of the histogram of durations only the number of observations is kept.
use my_demo_app.Prelude.{ℕ, ◌+◌, ◌&&◌, leb, if◌then◌else◌}
use my_demo_app.Prelude.Int.{ℤ, ◌+ℤ◌, ◌-ℤ◌, pos}
use my_demo_app.Text.{Str, lit, str_eq}

pub record Metrics : Type 0 where
  pub http_requests_total : Str → Str → Str → ℕ
  pub http_request_duration : Str → ℕ
  pub http_in_flight : ℤ
  pub subscribers_created : ℕ
  pub usage_ingested : ℕ
  pub billing_runs : ℕ
  pub billing_errors : ℕ
  pub billing_amount_cents : Str → ℤ

-- `NewMetrics`: every collector at zero.
unfoldable pub new_metrics : Metrics
new_metrics = record {
  http_requests_total = λ method route status. 0;
  http_request_duration = λ route. 0;
  http_in_flight = pos 0;
  subscribers_created = 0;
  usage_ingested = 0;
  billing_runs = 0;
  billing_errors = 0;
  billing_amount_cents = λ msisdn. pos 0;
}

unfoldable pub status_label : ℕ → Str
status_label status =
    if leb 500 status
    then lit "5xx"
    else if leb 400 status
    then lit "4xx"
    else if leb 300 status
    then lit "3xx"
    else if leb 200 status
    then lit "2xx"
    else lit "1xx"

unfoldable pub observe_request : Str → Str → ℕ → Metrics → Metrics
observe_request route method status m = record m {
  http_requests_total = λ method' route' label.
      m.http_requests_total method' route' label
      + (if str_eq method' method && str_eq route' route && str_eq label (status_label status)
          then 1
          else 0);
  http_request_duration =
      λ route'. m.http_request_duration route' + (if str_eq route' route then 1 else 0);
}

abbrev pub inc_in_flight : Metrics → Metrics
inc_in_flight m = record m { http_in_flight = m.http_in_flight +ℤ pos 1 }

abbrev pub dec_in_flight : Metrics → Metrics
dec_in_flight m = record m { http_in_flight = m.http_in_flight -ℤ pos 1 }

abbrev pub inc_subscribers_created : Metrics → Metrics
inc_subscribers_created m = record m { subscribers_created = m.subscribers_created + 1 }

abbrev pub inc_usage_ingested : Metrics → Metrics
inc_usage_ingested m = record m { usage_ingested = m.usage_ingested + 1 }

abbrev pub inc_billing_run : Metrics → Metrics
inc_billing_run m = record m { billing_runs = m.billing_runs + 1 }

abbrev pub inc_billing_error : Metrics → Metrics
inc_billing_error m = record m { billing_errors = m.billing_errors + 1 }

-- The gauge's `float64(cents)` is exact for amounts below 2 ^ 53; the amount itself is kept.
abbrev pub set_billing_amount : Str → ℤ → Metrics → Metrics
set_billing_amount msisdn cents m = record m {
  billing_amount_cents =
      λ msisdn'. if str_eq msisdn' msisdn then cents else m.billing_amount_cents msisdn';
}
