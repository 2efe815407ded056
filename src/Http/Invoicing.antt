-- ===== src/Http/Invoicing.antt =====
-- internal/httpapi/invoice.go and carrier.go: the invoice of the current calendar month.
pub mod Gather
pub mod Carrier
pub mod Outcome
pub mod Period
use my_demo_app.Prelude.{
  ℕ, zero, suc, ◌+◌, ◌-◌, ◌*◌, ◌/◌, ◌%◌, ◌^◌, ◌≤◌, ◌<◌, ◌≡◌, refl, sym, ap, ap₂, ◌∙◌, ◌≡⟨◌⟩◌, ◌∎,
  ◌≢◌, ◌↔◌, ◌⊎◌, inl, inr, Bool, true, false, not, ◌&&◌, ◌||◌, Option, none, some, List, [], ◌∷◌,
  ◌++◌, map, arith, ltb, leb, ◌==◌, if◌then◌else◌, ltb→lt, lt→ltb, leb→le, ==_iff, tests,
  Bool-cases, Option-cases, length, get_elem?, set, length-append, length-set, get_elem?-set_self,
  get_elem?-set_ne, get_or, take, drop, replicate, take-append-drop, length-take, length-drop,
  length-replicate, length-map,
}
use my_demo_app.Store.Filter.{keep_if}
use my_demo_app.Prelude.Int.{ℤ, pos, ltb_ℤ, ◌*ℤ◌}
use my_demo_app.Text.{Str, lit, str_eq}
use my_demo_app.Time.{Time, Location, utc, within}
use my_demo_app.Time.Calendar.{first_of_month, next_month}
use my_demo_app.Exec.{Result, ok, err, failed, Error}
use my_demo_app.Subscriber.{Plan, Store, Subscriber, UsageRecord, Invoice}
use my_demo_app.Subscriber.Service.{World, get_plan, get_subscriber, from_store}
use my_demo_app.Billing.{rate}
use my_demo_app.Metrics.{
  Metrics, new_metrics, status_label, observe_request, inc_in_flight, dec_in_flight,
  inc_subscribers_created, inc_usage_ingested, inc_billing_run, inc_billing_error,
  set_billing_amount,
}
use my_demo_app.Http.{
  Request, get, Payload, Call, json_type, write_json, write_error, Response, bodies, deliver,
  problem_text, error_text, http_status_for_error, default_page_limit, max_page_limit, accept,
  parse_pagination, Server, Handler, answer, settle, serve, count, reply_error, decoded, fields,
  plan_json, plans_json, subscriber_json, subscribers_json, usage_json, invoice_json, text,
  set_header, write_header, write, log_line, carrier_failed,
}

abbrev pub usage_kinds : List Str
usage_kinds = lit "voice" ∷ lit "data" ∷ lit "sms" ∷ []

-- The start and the end of the UTC calendar month that contains `now`.
unfoldable pub current_billing_period : Time → Time × Time
current_billing_period now =
    let start = first_of_month (within utc now) in (start, next_month start)

-- A failure rate `num / den`.
pub record CarrierClient : Type 0 where
  pub num : ℤ
  pub den : ℕ

-- `draw` is what `rand.Float64()` returns, in units of 2 ^ -53.
unfoldable pub carrier_lookup : CarrierClient → ℕ → Str → Result (Unit {0})
carrier_lookup c draw msisdn =
    if not (ltb_ℤ (pos 0) c.num)
    then ok tt
    else if ltb_ℤ (pos (draw * c.den)) (c.num *ℤ pos (2 ^ 53))
    then err (failed (lit "carrier: lookup failed for " ++ msisdn))
    else ok tt

-- One round of the loop: the records of a kind, before those of the later rounds; the first error ends
-- it.
abbrev pub collect :
    Str → Result (List UsageRecord) → Result (List UsageRecord) → Result (List UsageRecord)
collect kind (err e) later = err e
collect kind (ok records) (err e) = err e
collect kind (ok records) (ok us) = ok (keep_if (λ rec. str_eq rec.kind kind) records ++ us)

module _ {S : Type 0} (store : Store S) (quote : Str → Str) where
  -- The loop over the kinds, one call of the store for each.
  unfoldable pub gather : Str → Time → Time → List Str → S → Result (List UsageRecord)
  gather id start end [] s = ok []
  gather id start end (kind ∷ kinds) s =
      collect kind (store.list_usage id start end s) (gather id start end kinds s)

  abbrev note_failure : Str → Result (Unit {0}) → Server S → Server S
  note_failure id (ok u) sv = sv
  note_failure id (err e) sv =
      log_line (carrier_failed id (error_text quote e)) (count inc_billing_error sv)

  -- From the rating on. `lookup` is the carrier's answer for an MSISDN.
  unfoldable pub bill :
      Location
      → (Str → Result (Unit {0}))
      → Time
      → Time
      → Subscriber
      → Plan
      → List UsageRecord
      → Server S
      → List Call × Server S
  bill local lookup start end sub plan usage sv =
      settle (rate local plan usage start end)
        (λ e sv'. answer (write_error 500 (error_text quote e)) (count inc_billing_error sv'))
        (λ inv sv'.
          let invoice = record inv { subscriber_id = sub.id } in
          answer (write_json 200 (invoice_json invoice)) (
            note_failure sub.id (lookup sub.msisdn)
              (count (set_billing_amount sub.msisdn invoice.total_cents) sv')))
        (count inc_billing_run sv)

  unfoldable pub handle_get_invoice : Time → Location → (Str → Result (Unit {0})) → Str → Handler S
  handle_get_invoice now local lookup id r =
      let period = current_billing_period now in
      serve (get_subscriber store id) (reply_error quote) (λ sub.
        serve (get_plan store sub.plan_id) (reply_error quote) (λ plan.
          serve (from_store (gather sub.id period.0 period.1 usage_kinds)) (reply_error quote)
            (λ usage. bill local lookup period.0 period.1 sub plan usage)))
