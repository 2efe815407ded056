-- ===== src/Billing.antt =====
-- internal/billing/billing.go: rating a period's usage into an invoice.
pub mod Usage
pub mod Order
pub mod Total
pub mod Proration
use my_demo_app.Prelude.{
  ℕ, zero, suc, ◌+◌, ◌-◌, ◌*◌, ◌/◌, ◌%◌, ◌^◌, ◌≤◌, ◌<◌, ◌≡◌, refl, sym, ap, ap₂, ◌∙◌, ◌≡⟨◌⟩◌, ◌∎,
  ◌≢◌, ◌↔◌, ◌⊎◌, inl, inr, Bool, true, false, not, ◌&&◌, ◌||◌, Option, none, some, List, [], ◌∷◌,
  ◌++◌, map, arith, ltb, leb, ◌==◌, if◌then◌else◌, ltb→lt, lt→ltb, leb→le, ==_iff, tests,
  Bool-cases, Option-cases, length, get_elem?, set, length-append, length-set, get_elem?-set_self,
  get_elem?-set_ne, get_or, take, drop, replicate, take-append-drop, length-take, length-drop,
  length-replicate, length-map,
}
use my_demo_app.Prelude.Int.{
  ℤ, pos_part, neg_part, sub_ℕ, ◌+ℤ◌, ◌-ℤ◌, ◌*ℤ◌, ◌≤ℤ◌, ltb_ℤ, +ℤ_comm, +ℤ_assoc, +ℤ_cancel,
  ≤ℤ_total, +ℤ_parts, -ℤ_parts, eq_of_parts, int_laws, +ℤ_mono, pos, negsuc,
}
use my_demo_app.Word.{add64, sub64, mul64, wrap32}
use my_demo_app.Float
use my_demo_app.Float.{Float64, of_nat, trunc}
use my_demo_app.Text.{Str, lit, str_eq}
use my_demo_app.Text.Decimal.{itoa}
use my_demo_app.Time.{Time, Location, hour_ns, within, before, sub}
use my_demo_app.Time.Calendar.{first_of_month, next_month}
use my_demo_app.Exec.{Result, ok, err, failed}
use my_demo_app.Subscriber.{Plan, UsageRecord, InvoiceLine, Invoice}

-- `d.Hours()` of a duration of `d` nanoseconds.
unfoldable pub hours : ℕ → Float64
hours d = Float.add (of_nat (d / hour_ns)) (Float.div (of_nat (d % hour_ns)) (of_nat hour_ns))

-- `int(d.Hours() / 24)`
unfoldable pub whole_days : ℕ → ℕ
whole_days d = trunc (Float.div (hours d) (of_nat 24))

-- The same of a duration of either sign.
unfoldable pub duration_days : ℤ → ℤ
duration_days (pos d) = pos (whole_days d)
duration_days (negsuc k) = sub_ℕ 0 (whole_days (suc k))

unfoldable pub days_in_month : Time → ℤ
days_in_month t = let first = first_of_month t in duration_days (sub (next_month first) first)

-- `int64(float64(price) * float64(span) / float64(month))`
unfoldable pub prorated : ℤ → ℕ → ℕ → ℤ
prorated price span month =
    let amount = λ (n : ℕ). trunc (Float.div (Float.mul (of_nat n) (of_nat span)) (of_nat month)) in
    if ltb_ℤ price (pos 0) then sub_ℕ 0 (amount (neg_part price)) else pos (amount (pos_part price))

-- The minutes, megabytes and messages used in a period.
pub record Totals : Type 0 where
  pub voice_min : ℤ
  pub data_mb : ℤ
  pub sms_count : ℤ

abbrev pub no_usage : Totals
no_usage = record { voice_min = pos 0; data_mb = pos 0; sms_count = pos 0 }

abbrev pub voice_limit : ℤ
voice_limit = pos 1_000_000_000

unfoldable pub tally_voice : ℤ → Totals → Totals
tally_voice q t =
    if ltb_ℤ (pos 0) q
    then (if ltb_ℤ q voice_limit
        then record t { voice_min = add64 t.voice_min q }
        else record t { voice_min = add64 t.voice_min voice_limit })
    else t

-- Both branches of the test on the number of bytes add the quantity.
unfoldable pub tally_data : ℤ → Totals → Totals
tally_data q t =
    if ltb_ℤ (pos 0) q
    then (let bytes = wrap32 (mul64 (mul64 q (pos 1024)) (pos 1024)) in
        if ltb_ℤ bytes (pos 0)
        then record t { data_mb = add64 t.data_mb q }
        else record t { data_mb = add64 t.data_mb q })
    else t

unfoldable pub tally_sms : ℤ → Totals → Totals
tally_sms q t = if ltb_ℤ (pos 0) q then record t { sms_count = add64 t.sms_count q } else t

-- One round of the loop over the usage.
module _ (start end : Time) where
  abbrev pub in_period : Time → Bool
  in_period ts = not (before ts start || not (before ts end))

  unfoldable pub tally : UsageRecord → Totals → Totals
  tally u t =
      if before u.timestamp start || not (before u.timestamp end)
      then t
      else if str_eq u.kind (lit "voice")
      then tally_voice u.quantity t
      else if str_eq u.kind (lit "data")
      then tally_data u.quantity t
      else if str_eq u.kind (lit "sms")
      then tally_sms u.quantity t
      else t

  unfoldable pub aggregate : List UsageRecord → Totals → Totals
  aggregate [] t = t
  aggregate (u ∷ us) t = aggregate us (tally u t)

unfoldable pub add_line : Str → ℤ → Invoice → Invoice
add_line description amount inv = record inv {
  lines = inv.lines ++ record { description = description; amount_cents = amount } ∷ [];
  total_cents = add64 inv.total_cents amount;
}

-- A line for what was used beyond the allowance.
unfoldable pub add_overage : Str → Str → ℤ → ℤ → ℤ → Invoice → Invoice
add_overage before_n behind_n used included rate_cents inv =
    if ltb_ℤ included used
    then (let over = sub64 used included in
        add_line (before_n ++ itoa over ++ behind_n) (mul64 over rate_cents) inv)
    else inv

-- The days of the period, in local time.
unfoldable pub span_days : Location → Time → Time → ℤ
span_days local start end =
    let days = duration_days (sub (within local end) (within local start)) in
    if ltb_ℤ days (pos 0) then pos 0 else days

unfoldable pub base_cents : Location → Plan → Time → Time → ℤ
base_cents local plan start end =
    let span = span_days local start end in
    let month = days_in_month start in
    if ltb_ℤ span month
    then prorated plan.monthly_price_cents (pos_part span) (pos_part month)
    else plan.monthly_price_cents

unfoldable pub base_invoice : Location → Plan → Time → Time → Invoice
base_invoice local plan start end =
    let base = base_cents local plan start end in
    record {
      subscriber_id = [];
      period_start = start;
      period_end = end;
      lines =
          record { description = lit "Base plan (" ++ plan.name ++ lit ")"; amount_cents = base }
          ∷ [];
      total_cents = base;
    }

unfoldable pub add_overages : Plan → Totals → Invoice → Invoice
add_overages plan t inv =
    add_overage (lit "SMS overage (") (lit " msgs)") t.sms_count plan.included_sms
      plan.overage_sms_cents
      (add_overage (lit "Data overage (") (lit " MB)") t.data_mb plan.included_data_mb
        plan.overage_data_cents_per_mb
        (add_overage (lit "Voice overage (") (lit " min)") t.voice_min plan.included_voice_minutes
          plan.overage_voice_cents inv))

-- `local` is the location of the server's local time.
unfoldable pub rate : Location → Plan → List UsageRecord → Time → Time → Result Invoice
rate local plan usage start end =
    if before end start
    then err (failed (lit "billing: period end before period start"))
    else (let t = aggregate (within local start) (within local end) usage no_usage in
        ok (add_overages plan t (base_invoice local plan start end)))
