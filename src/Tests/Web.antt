-- ===== src/Tests/Web.antt =====
-- The handlers, the middleware and the key of internal/httpapi and internal/auth.
use my_demo_app.Prelude.{◌≡◌, refl, Option, some, [], ◌∷◌, ◌++◌, arith, take, drop}
use my_demo_app.Prelude.Int.{◌+ℤ◌, ◌+ℤ◌, pos}
use my_demo_app.Word.{IsInt64}
use my_demo_app.Text.{Str, lit, str_eq, is_empty, has_prefix}
use my_demo_app.Text.Decimal.{itoa}
use my_demo_app.Text.Trim.{IsTrimmed}
use my_demo_app.Time.{Time, utc}
use my_demo_app.Exec.{Result, err, failed}
use my_demo_app.Subscriber.{Plan, Subscriber, UsageRecord, Store}
use my_demo_app.Subscriber.Service.{World}
use my_demo_app.Subscriber.Service.Create.{new_subscriber}
use my_demo_app.Subscriber.Service.Issued.{IsIssued, sub_id, put_plan-IsIssued, IsIssued-up}
use my_demo_app.Store.Assoc.{lookup}
use my_demo_app.Subscriber.Service.Pages.{sorted_plans, found_subscribers}
use my_demo_app.Store.Memory.{MemoryStore, memory_store, new_memory_store}
use my_demo_app.Store.Memory.Laws.{view, memory_store-IsStore}
use my_demo_app.Metrics.{new_metrics}
use my_demo_app.Http.{
  Request, get, write_json, Server, plans_json, subscriber_json, subscribers_json, invoice_json,
  set_header,
}
use my_demo_app.Http.Plans.{handle_list_plans}
use my_demo_app.Http.Subscribers.{
  CreateSubscriberRequest, normalise_msisdn, input_of, provision, handle_create_subscriber,
  handle_get_subscriber, handle_list_subscribers,
}
use my_demo_app.Http.Subscribers.Provision.{handle_get_subscriber-handle_create_subscriber}
use my_demo_app.Http.{parse_pagination}
use my_demo_app.Http.Pagination.{parse_pagination-itoa, handle_list-page}
use my_demo_app.Http.Invoicing.{current_billing_period, handle_get_invoice}
use my_demo_app.Http.Invoicing.Outcome.{full_invoice, handle_get_invoice-full_invoice}
use my_demo_app.Http.Auth.{bearer, verdict, admitted}
use my_demo_app.Http.Auth.Tokens.{verdict-bearer}
use my_demo_app.Http.Middleware.{Layered, recover}
use my_demo_app.Http.Middleware.Recover.{RecoverOutcome, recover-RecoverOutcome}
use my_demo_app.Webhook.{new_client}
use my_demo_app.Http.Misc.{handle_register_webhook}
use my_demo_app.Http.Misc.Registration.{WebhookOutcome, handle_register_webhook-WebhookOutcome}
use my_demo_app.Tests.Fixtures.{open_network, same_case, now, basic, fresh-IsIssued, usage_of, ada}

abbrev as_is : Str → Str
as_is s = s

abbrev empty_request : Request
empty_request = record {
  method = lit "GET";
  path = [];
  query = [];
  headers = [];
  body = [];
  request_id = [];
}

abbrev page_request : Request
page_request = record empty_request {
  query = (lit "limit", lit "20") ∷ (lit "offset", lit "40") ∷ [];
}

-- A service with the plan, and with the plan and the subscriber.
abbrev planned : Server MemoryStore
planned = record {
  world = record {
    store = record { plans = (lit "plan_1", basic) ∷ []; subscribers = []; usage = [] };
    id_counter = pos 1;
  };
  metrics = new_metrics;
  log = [];
}

abbrev settled : Server MemoryStore
settled = record {
  world = record {
    store = record {
      plans = (lit "plan_1", basic) ∷ [];
      subscribers = (lit "sub_1", ada) ∷ [];
      usage = (lit "sub_1", usage_of (lit "voice") (pos 120) now ∷ []) ∷ [];
    };
    id_counter = pos 2;
  };
  metrics = new_metrics;
  log = [];
}

handle_list-page_example :
    let search = get (lit "search") page_request.query in
    let plans = take 20 (drop 39 (sorted_plans settled.world.store)) in
    let subs = take 20 (drop 39 (found_subscribers same_case search settled.world.store)) in
    (handle_list_plans (memory_store same_case) as_is page_request settled
      ≡ (write_json 200 (plans_json plans), settled))
    × (handle_list_subscribers (memory_store same_case) as_is page_request settled
        ≡ (write_json 200 (subscribers_json subs), settled))
unfolding itoa get str_eq
handle_list-page_example =
    handle_list-page same_case as_is page_request 20 40 settled (omega arith) (omega arith)
      (omega arith) refl refl

planned-IsIssued : IsIssued 1 (view planned.world.store)
unfolding lookup my_demo_app.Subscriber.Service.id_text itoa
planned-IsIssued =
    put_plan-IsIssued 1 (view new_memory_store) basic refl
      (IsIssued-up 0 1 (view new_memory_store) (omega arith) fresh-IsIssued)

abbrev request_of_ada : CreateSubscriberRequest
request_of_ada = record {
  msisdn = lit "15551234";
  imsi = lit "001";
  name = lit "Ada";
  plan_id = lit "plan_1";
  owner_account_id = lit "acme";
}

abbrev decode_ada : Str → Option CreateSubscriberRequest
decode_ada body = some request_of_ada

handle_get_subscriber-handle_create_subscriber_example :
    let sub = new_subscriber (sub_id 2) now (input_of request_of_ada) in
    let after =
      (handle_create_subscriber
        (memory_store same_case)
        as_is
        now
        decode_ada
        empty_request
        planned).1 in
    handle_get_subscriber (memory_store same_case) as_is sub.id empty_request after
    ≡ (write_json 200 (subscriber_json sub), after)
unfolding handle_create_subscriber is_empty provision my_demo_app.Subscriber.Service.get_plan
    memory_store my_demo_app.Store.Memory.get_plan lookup str_eq
    my_demo_app.Subscriber.Service.create_subscriber my_demo_app.Text.Trim.trim_space
    normalise_msisdn my_demo_app.Text.byte_len my_demo_app.Subscriber.Service.validate_msisdn
    my_demo_app.Subscriber.Service.next_id my_demo_app.Store.Memory.create_subscriber
    my_demo_app.Word.add64 my_demo_app.Word.wrap64 ◌+ℤ◌
handle_get_subscriber-handle_create_subscriber_example =
    handle_get_subscriber-handle_create_subscriber (memory_store-IsStore same_case) as_is 1 now
      decode_ada empty_request empty_request planned
      (new_subscriber (sub_id 2) now (input_of request_of_ada)) refl (omega arith) planned-IsIssued
      refl

abbrev line_down : Str → Result (Unit {0})
line_down msisdn = err (failed (lit "down"))

handle_get_invoice-full_invoice_example :
    let us = usage_of (lit "voice") (pos 120) now ∷ [] in
    let invoice = full_invoice ada.id basic us (current_billing_period now) in
    let out =
      handle_get_invoice
        (memory_store same_case)
        as_is
        now
        utc
        line_down
        (lit "sub_1")
        empty_request
        settled in
    (out.0 ≡ write_json 200 (invoice_json invoice))
    × (out.1.world ≡ settled.world)
    × (out.1.metrics.billing_runs ≡ 1)
    × (out.1.metrics.billing_errors ≡ 1)
    × (out.1.metrics.billing_amount_cents ada.msisdn ≡ invoice.total_cents)
unfolding memory_store my_demo_app.Store.Memory.get_subscriber lookup str_eq
    my_demo_app.Store.Memory.get_plan my_demo_app.Store.Memory.list_usage
    my_demo_app.Store.Filter.keep_if current_billing_period my_demo_app.Time.Calendar.first_of_month
    my_demo_app.Time.Calendar.date my_demo_app.Time.Calendar.resolve
    my_demo_app.Time.Calendar.days_before_year my_demo_app.Time.Calendar.civil
    my_demo_app.Time.Calendar.year_day my_demo_app.Time.Calendar.month_from
    my_demo_app.Time.Calendar.month_days my_demo_app.Time.Calendar.days_before_month
    my_demo_app.Time.Calendar.is_leap my_demo_app.Time.Calendar.next_month new_metrics
handle_get_invoice-full_invoice_example =
    handle_get_invoice-full_invoice (memory_store same_case) as_is now utc line_down (lit "sub_1")
      empty_request settled ada basic (usage_of (lit "voice") (pos 120) now ∷ []) refl refl refl

key-IsTrimmed : IsTrimmed (lit "secret")
unfolding my_demo_app.Text.Trim.is_space
key-IsTrimmed = record { front = refl; back = refl }

verdict-bearer_example : verdict as_is (lit "secret") (bearer ++ lit "secret") ≡ admitted
unfolding is_empty str_eq
verdict-bearer_example = verdict-bearer as_is (lit "secret") (lit "secret") key-IsTrimmed refl

-- `TrimSpace` takes a leading no-break space away, so the key is admitted without `Bearer`.
verdict_padded : verdict as_is (lit "secret") (0xA0 ∷ lit "secret") ≡ admitted
unfolding verdict is_empty my_demo_app.Text.Trim.trim_space has_prefix str_eq
verdict_padded = refl

abbrev crash : Layered MemoryStore
crash r sv =
    (record { calls = set_header (lit "A") (lit "B") ∷ []; panic = some (lit "nil map") }, sv)

recover-RecoverOutcome_example :
    RecoverOutcome ((crash empty_request settled).0) ((recover crash empty_request settled).0)
recover-RecoverOutcome_example = recover-RecoverOutcome crash empty_request settled

abbrev register_request : Request
register_request = record empty_request { body = lit "http://example.com/hook" }

handle_register_webhook-WebhookOutcome_example :
    let (calls, after) =
      handle_register_webhook open_network new_client some register_request settled in
    WebhookOutcome open_network new_client (some (lit "http://example.com/hook")) calls
    × (after ≡ settled)
handle_register_webhook-WebhookOutcome_example =
    handle_register_webhook-WebhookOutcome open_network new_client some register_request settled

parse_pagination-itoa_example : parse_pagination page_request ≡ (pos 20, pos 40)
unfolding itoa get str_eq
parse_pagination-itoa_example =
    parse_pagination-itoa page_request (pos 20) (pos 40)
      (record { below = omega arith; above = omega arith })
      (record { below = omega arith; above = omega arith }) refl refl
