-- ===== src/Http/Router/Handlers.antt =====
-- internal/httpapi: the handlers of plans, subscribers, usage and invoices send one status each and
-- leave the layers' collectors alone.
use my_demo_app.Prelude.{
  ℕ, ◌<◌, refl, inl, inr, not, List, [], ◌∷◌, ◌++◌, arith, if◌then◌else◌, Bool-cases,
}
use my_demo_app.Subscriber.{Plan, Subscriber, UsageRecord, status_of}
use my_demo_app.Http.Subscribers.{
  CreateSubscriberRequest, input_of, is_usage_kind, or_now, provision, handle_create_subscriber,
  handle_get_subscriber, handle_list_subscribers, handle_change_status, handle_add_usage,
}
use my_demo_app.Http.{
  Request, get, Payload, Call, write_json, write_error, http_status_for_error, parse_pagination,
  Server, answer, serve, count, reply_error, fields, plan_json, plans_json, subscriber_json,
  subscribers_json, usage_json,
}
use my_demo_app.Metrics.{Metrics, inc_subscribers_created, inc_usage_ingested}
use my_demo_app.Time.{Time}
use my_demo_app.Text.{Str, lit, is_empty}
use my_demo_app.Exec.{Result-cases, Result, Error}
use my_demo_app.Subscriber.Service.{
  World, create_subscriber, get_plan, add_usage, create_plan, list_plans, get_subscriber,
  list_subscribers, change_status, from_store,
}
use my_demo_app.Http.Plans.{plan_of, handle_create_plan, handle_list_plans, handle_get_plan}
use my_demo_app.Http.Invoicing.{
  usage_kinds, current_billing_period, gather, bill, handle_get_invoice,
}
use my_demo_app.Http.Router.{Deps}
use my_demo_app.Billing.{rate}
use my_demo_app.Http.Router.Quiet.{
  IsSame, IsQuiet, json, error_json, serve-IsQuiet, decoded-IsQuiet, positive_status,
}

module _ {S : Type 0} (d : Deps S) (m : Metrics) where
  -- A handler that replies with what a method returns.
  pub shown-IsQuiet :
      {A : Type 0} (method : World S → Result A × World S) (status : ℕ) (show : A → Payload)
      (sv : Server S)
      → 0 < status
      → IsSame m sv
      → IsQuiet m (serve method (reply_error d.quote) (λ a. answer (write_json status (show a))) sv)
  shown-IsQuiet method status show sv positive same =
      serve-IsQuiet m (reply_error d.quote) (λ a. answer (write_json status (show a)))
        (error_json m d.quote) (λ a sv' h. json m status (show a) sv' positive h) method sv same

  provision-IsQuiet :
      (req : CreateSubscriberRequest) (sv : Server S)
      → IsSame m sv
      → IsQuiet m (provision d.store d.quote d.now req sv)
  unfolding provision
  provision-IsQuiet req sv same =
      let missing : Error → Server S → List Call × Server S = λ perr.
        answer (write_error (http_status_for_error perr) (lit "plan not found: " ++ req.plan_id)) in
      let done : Subscriber → Server S → List Call × Server S = λ created sv'.
        answer (write_json 201 (subscriber_json created)) (count inc_subscribers_created sv') in
      let create = create_subscriber d.store d.now (input_of req) in
      serve-IsQuiet m missing (λ plan. serve create (reply_error d.quote) done)
        (λ e sv' h.
          json m (http_status_for_error e)
            (fields ((lit "error", lit "plan not found: " ++ req.plan_id) ∷ [])) sv'
            (positive_status e) h)
        (λ plan sv' h.
          serve-IsQuiet m (reply_error d.quote) done (error_json m d.quote)
            (λ created sv'' h'.
              json m 201 (subscriber_json created) (count inc_subscribers_created sv'')
                (omega arith) (record { in_flight = h'.in_flight; requests = h'.requests }))
            create sv' h)
        (get_plan d.store req.plan_id) sv same

  pub create_subscriber-IsQuiet :
      (r : Request) (sv : Server S)
      → IsSame m sv
      → IsQuiet m (handle_create_subscriber d.store d.quote d.now d.decode_subscriber r sv)
  unfolding handle_create_subscriber
  create_subscriber-IsQuiet r sv same =
      decoded-IsQuiet m (d.decode_subscriber r.body) _ sv
        (λ req. elim (Bool-cases (is_empty req.msisdn)) [
          | inl bad ↦ rw bad (json m _ _ sv (omega arith) same)
          | inr a ↦ rw a (elim (Bool-cases (is_empty req.name)) [
            | inl bad ↦ rw bad (json m _ _ sv (omega arith) same)
            | inr b ↦ rw b (elim (Bool-cases (is_empty req.plan_id)) [
              | inl bad ↦ rw bad (json m _ _ sv (omega arith) same)
              | inr c ↦ rw c (elim (Bool-cases (is_empty req.owner_account_id)) [
                | inl bad ↦ rw bad (json m _ _ sv (omega arith) same)
                | inr e ↦ rw e (provision-IsQuiet req sv same)
              ])
            ])
          ])
        ])
        same

  pub add_usage-IsQuiet :
      (id : Str) (r : Request) (sv : Server S)
      → IsSame m sv
      → IsQuiet m (handle_add_usage d.store d.quote d.now d.parse_time id d.decode_usage r sv)
  unfolding handle_add_usage
  add_usage-IsQuiet id r sv same =
      decoded-IsQuiet m (d.decode_usage r.body) _ sv
        (λ req. elim (Bool-cases (is_usage_kind req.kind)) [
          | inl good ↦
              let ts =
                (if not (is_empty req.timestamp)
                  then or_now (d.parse_time req.timestamp) d.now
                  else d.now) in
              let done : UsageRecord → Server S → List Call × Server S = λ rec sv'.
                answer (write_json 201 (usage_json rec)) (count inc_usage_ingested sv') in
              rw good (
                serve-IsQuiet m (reply_error d.quote) done (error_json m d.quote)
                  (λ rec sv' h.
                    json m 201 (usage_json rec) (count inc_usage_ingested sv') (omega arith)
                      (record { in_flight = h.in_flight; requests = h.requests }))
                  (add_usage d.store d.now id req.kind req.quantity ts) sv same)
          | inr bad ↦ rw bad (record { once = refl; codes = refl; same = same })
        ])
        same

  bill-IsQuiet :
      (lookup : Str → Result Unit) (start end : Time) (sub : Subscriber) (plan : Plan)
      (usage : List UsageRecord) (sv : Server S)
      → IsSame m sv
      → IsQuiet m (bill d.store d.quote d.local lookup start end sub plan usage sv)
  unfolding bill
  bill-IsQuiet lookup start end sub plan usage sv same =
      elim (Result-cases (rate d.local plan usage start end)) [
        | inl (inv, e) ↦ rw e (elim (Result-cases (lookup sub.msisdn)) [
          | inl (u, got) ↦ rw got (record {
            once = refl;
            codes = refl;
            same = record { in_flight = same.in_flight; requests = same.requests };
          })
          | inr (u, got) ↦ rw got (record {
            once = refl;
            codes = refl;
            same = record { in_flight = same.in_flight; requests = same.requests };
          })
        ])
        | inr (x, e) ↦ rw e (record {
          once = refl;
          codes = refl;
          same = record { in_flight = same.in_flight; requests = same.requests };
        })
      ]

  pub invoice-IsQuiet :
      (lookup : Str → Result Unit) (id : Str) (r : Request) (sv : Server S)
      → IsSame m sv
      → IsQuiet m (handle_get_invoice d.store d.quote d.now d.local lookup id r sv)
  unfolding handle_get_invoice
  invoice-IsQuiet lookup id r sv same =
      let (start, end) = current_billing_period d.now in
      let fail = reply_error d.quote in
      let rated : Subscriber → Plan → Server S → List Call × Server S = λ sub plan.
        serve (from_store (gather d.store d.quote sub.id start end usage_kinds)) fail
          (bill d.store d.quote d.local lookup start end sub plan) in
      let planned : Subscriber → Server S → List Call × Server S =
        λ sub. serve (get_plan d.store sub.plan_id) fail (rated sub) in
      serve-IsQuiet m fail planned (error_json m d.quote)
        (λ sub sv' h.
          serve-IsQuiet m fail (rated sub) (error_json m d.quote)
            (λ plan sv'' h'.
              serve-IsQuiet m fail (bill d.store d.quote d.local lookup start end sub plan)
                (error_json m d.quote) (bill-IsQuiet lookup start end sub plan)
                (from_store (gather d.store d.quote sub.id start end usage_kinds)) sv'' h')
            (get_plan d.store sub.plan_id) sv' h)
        (get_subscriber d.store id) sv same

  pub plans-IsQuiet :
      (id : Str) (r : Request) (sv : Server S)
      → IsSame m sv
      → IsQuiet m (handle_create_plan d.store d.quote d.decode_plan r sv)
        × IsQuiet m (handle_list_plans d.store d.quote r sv)
        × IsQuiet m (handle_get_plan d.store d.quote id r sv)
  unfolding handle_create_plan handle_list_plans handle_get_plan
  plans-IsQuiet id r sv same =
      let (limit, offset) = parse_pagination r in
      (
        decoded-IsQuiet m (d.decode_plan r.body) _ sv
            (λ req.
              shown-IsQuiet (create_plan d.store (plan_of req)) 201 plan_json sv (omega arith) same)
            same,
        shown-IsQuiet (list_plans d.store limit offset) 200 plans_json sv (omega arith) same,
        shown-IsQuiet (get_plan d.store id) 200 plan_json sv (omega arith) same,
      )

  pub subscribers-IsQuiet :
      (id : Str) (r : Request) (sv : Server S)
      → IsSame m sv
      → IsQuiet m (handle_get_subscriber d.store d.quote id r sv)
        × IsQuiet m (handle_list_subscribers d.store d.quote r sv)
        × IsQuiet m (handle_change_status d.store d.quote id d.decode_status r sv)
  unfolding handle_get_subscriber handle_list_subscribers handle_change_status
  subscribers-IsQuiet id r sv same =
      let (limit, offset) = parse_pagination r in
      let search = get (lit "search") r.query in
      (
        shown-IsQuiet (get_subscriber d.store id) 200 subscriber_json sv (omega arith) same,
        shown-IsQuiet (list_subscribers d.store search limit offset) 200 subscribers_json sv
            (omega arith) same,
        decoded-IsQuiet m (d.decode_status r.body) _ sv
            (λ req.
              shown-IsQuiet (change_status d.store id (status_of req.status)) 200 subscriber_json sv
                (omega arith) same)
            same,
      )
