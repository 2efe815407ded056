-- ===== src/Http/Invoicing/Outcome.antt =====
-- internal/httpapi/invoice.go: what `GET /v1/subscribers/{id}/invoice` bills.
use my_demo_app.Prelude.{ℕ, ◌+◌, ◌≡◌, refl, ◌∙◌, inl, inr, false, List, [], ◌∷◌, ◌++◌, arith}
use my_demo_app.Text.{str_eq_refl, Str, lit}
use my_demo_app.Time.{Time, Location, within, before}
use my_demo_app.Exec.{Result-cases, Result, ok, err}
use my_demo_app.Subscriber.{Store, UsageRecord, Plan, Subscriber, Invoice}
use my_demo_app.Subscriber.Service.{get_subscriber, get_plan}
use my_demo_app.Billing.{rate}
use my_demo_app.Billing.Usage.{totals}
use my_demo_app.Billing.Order.{by_kind, aggregate-by_kind}
use my_demo_app.Billing.Total.{total_of, all_overages, rate_lem}
use my_demo_app.Http.{Request, write_json, Server, invoice_json}
use my_demo_app.Http.Invoicing.{current_billing_period, bill, handle_get_invoice}
use my_demo_app.Http.Invoicing.Gather.{gather-by_kind}
use my_demo_app.Http.Invoicing.Period.{current_billing_period-month, base_cents-current}

-- The invoice of a period from all the records of it, at the plan's full price.
abbrev pub full_invoice : Str → Plan → List UsageRecord → Time × Time → Invoice
full_invoice subscriber_id plan us period =
    let lines =
      record {
        description = lit "Base plan (" ++ plan.name ++ lit ")";
        amount_cents = plan.monthly_price_cents;
      }
      ∷ all_overages plan (totals (period.0) (period.1) us) in
    record {
      subscriber_id = subscriber_id;
      period_start = period.0;
      period_end = period.1;
      lines = lines;
      total_cents = total_of lines;
    }

abbrev failures : Result (Unit {0}) → ℕ
failures (ok u) = 0
failures (err e) = 1

-- Rating the records kind by kind is rating them as they are.
rate-by_kind :
    (local : Location) (plan : Plan) (us : List UsageRecord) (start end : Time)
    → rate local plan (by_kind us) start end ≡ rate local plan us start end
unfolding rate
rate-by_kind local plan us start end =
    rw (aggregate-by_kind (within local start) (within local end) us) refl

rate-current :
    (local : Location) (plan : Plan) (us : List UsageRecord) (now : Time)
    → let period = current_billing_period now in
      rate local plan (by_kind us) (period.0) (period.1) ≡ ok (full_invoice [] plan us period)
rate-current local plan us now =
    let (start, end) = current_billing_period now in
    let (_, _, low, high) = current_billing_period-month now in
    let forward : before end start ≡ false = ground arith in
    rate-by_kind local plan us start end
    ∙ rate_lem local plan us start end
    ∙ rw (forward, base_cents-current local plan now) refl

module _ {S : Type 0} (store : Store S) (quote : Str → Str) where
  -- For a subscriber with a plan whose usage the store lists, the invoice handler replies 200 with
  -- the invoice of the current UTC month (the plan's full price, the overages of all listed
  -- records, their total), changes nothing in the process, counts one billing run, and one billing
  -- error exactly where the carrier's lookup fails.
  pub handle_get_invoice-full_invoice :
      (now : Time) (local : Location) (lookup : Str → Result Unit) (id : Str) (r : Request)
      (sv : Server S) (sub : Subscriber) (plan : Plan) (us : List UsageRecord)
      → store.get_subscriber id sv.world.store ≡ ok sub
      → store.get_plan sub.plan_id sv.world.store ≡ ok plan
      → store.list_usage sub.id
          ((current_billing_period now).0)
          ((current_billing_period now).1)
          sv.world.store
        ≡ ok us
      → let invoice = full_invoice sub.id plan us (current_billing_period now) in
        let out = handle_get_invoice store quote now local lookup id r sv in
        (out.0 ≡ write_json 200 (invoice_json invoice))
        × (out.1.world ≡ sv.world)
        × (out.1.metrics.billing_runs ≡ sv.metrics.billing_runs + 1)
        × (out.1.metrics.billing_errors ≡ sv.metrics.billing_errors + failures (lookup sub.msisdn))
        × (out.1.metrics.billing_amount_cents sub.msisdn ≡ invoice.total_cents)
  unfolding handle_get_invoice get_subscriber get_plan bill
  handle_get_invoice-full_invoice now local lookup id r sv sub plan us hs hp hu =
      let (start, end) = current_billing_period now in
      let gathered = gather-by_kind store quote sub.id start end sv.world.store us hu in
      rw (hs, hp, gathered, rate-current local plan us now)
        (elim (Result-cases (lookup sub.msisdn)) [
          | inl (u, fine) ↦ rw (fine, str_eq_refl sub.msisdn) (refl, refl, refl, omega arith, refl)
          | inr (e, down) ↦ rw (down, str_eq_refl sub.msisdn) (refl, refl, refl, refl, refl)
        ])
