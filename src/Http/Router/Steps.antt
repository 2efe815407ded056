-- ===== src/Http/Router/Steps.antt =====
-- internal/httpapi: what a request does to the process is at most one operation of the service.
use my_demo_app.Prelude.{
  ℕ, ◌≡◌, refl, inl, inr, not, Option, List, if◌then◌else◌, Bool-cases, Option-cases,
}
use my_demo_app.Prelude.Int.{ℤ}
use my_demo_app.Http.{
  Request, get, Payload, Call, write_json, write_error, error_text, parse_pagination, Server,
  answer, settle, serve, count, reply_error, plan_json, plans_json, subscriber_json,
  subscribers_json, usage_json,
}
use my_demo_app.Http.Plans.{
  CreatePlanRequest, plan_of, handle_create_plan, handle_list_plans, handle_get_plan,
}
use my_demo_app.Http.Subscribers.{
  CreateSubscriberRequest, ChangeStatusRequest, AddUsageRequest, input_of, is_usage_kind, or_now,
  provision, handle_create_subscriber, handle_get_subscriber, handle_list_subscribers,
  handle_change_status, handle_add_usage,
}
use my_demo_app.Http.Ops.{status_fields, handle_readyz, handle_admin_reset}
use my_demo_app.Http.Invoicing.{
  usage_kinds, current_billing_period, gather, bill, handle_get_invoice,
}
use my_demo_app.Metrics.{inc_subscribers_created, inc_usage_ingested}
use my_demo_app.Time.{Location, Time}
use my_demo_app.Text.{Str, lit, is_empty}
use my_demo_app.Exec.{Result-cases, Result, ok, err, Error}
use my_demo_app.Billing.{rate}
use my_demo_app.Subscriber.{Plan, Subscriber, UsageRecord, Store, Status, status_of}
use my_demo_app.Subscriber.Service.{
  World, CreateSubscriberInput, create_subscriber, get_plan, add_usage, create_plan, list_plans,
  get_subscriber, list_subscribers, change_status, from_store, on_store,
}

-- One operation of the service, or none.
pub data IsStep {S : Type 0} (store : Store S) (w : World S) : World S → Type 0 where
  unchanged : IsStep store w w
  plan_created : (p : Plan) → IsStep store w (create_plan store p w).1
  subscriber_created :
      (now : Time) (input : CreateSubscriberInput)
      → IsStep store w (create_subscriber store now input w).1
  status_changed : (id : Str) (to : Status) → IsStep store w (change_status store id to w).1
  usage_added :
      (now : Time) (id kind : Str) (qty : ℤ) (ts : Time)
      → IsStep store w (add_usage store now id kind qty ts w).1
  emptied : IsStep store w (on_store store.reset w).1

module _ {S A : Type 0} (on_error : Error → Server S → List Call × Server S)
    (next : A → Server S → List Call × Server S)
    (error_keeps : (e : Error) (sv : Server S) → (on_error e sv).1.world ≡ sv.world)
    (next_keeps : (a : A) (sv : Server S) → (next a sv).1.world ≡ sv.world) where
  settle-world : (r : Result A) (sv : Server S) → (settle r on_error next sv).1.world ≡ sv.world
  settle-world (ok a) sv = next_keeps a sv
  settle-world (err e) sv = error_keeps e sv

  -- Where nothing else writes, a handler leaves the process as the method leaves it.
  serve-world :
      (method : World S → Result A × World S) (sv : Server S)
      → (serve method on_error next sv).1.world ≡ (method sv.world).1
  serve-world method sv = let (r, w) = method sv.world in settle-world r (record sv { world = w })

module _ {S : Type 0} (store : Store S) (quote : Str → Str) where
  shown-world :
      {A : Type 0} (method : World S → Result A × World S) (status : ℕ) (show : A → Payload)
      (sv : Server S)
      → (serve method (reply_error quote) (λ a. answer (write_json status (show a))) sv).1.world
        ≡ (method sv.world).1
  shown-world method status show sv =
      serve-world (reply_error quote) (λ a. answer (write_json status (show a))) (λ e sv'. refl)
        (λ a sv'. refl) method sv

  pub create_plan-IsStep :
      (decode : Str → Option CreatePlanRequest) (r : Request) (sv : Server S)
      → IsStep store sv.world ((handle_create_plan store quote decode r sv).1.world)
  unfolding handle_create_plan
  create_plan-IsStep decode r sv = elim (Option-cases (decode r.body)) [
    | inl bad ↦ rw bad unchanged
    | inr (req, given) ↦
        rw (given, shown-world (create_plan store (plan_of req)) 201 plan_json sv)
          (plan_created (plan_of req))
  ]

  pub readers-IsStep :
      (id : Str) (r : Request) (sv : Server S)
      → IsStep store sv.world ((handle_list_plans store quote r sv).1.world)
        × IsStep store sv.world ((handle_get_plan store quote id r sv).1.world)
        × IsStep store sv.world ((handle_get_subscriber store quote id r sv).1.world)
        × IsStep store sv.world ((handle_list_subscribers store quote r sv).1.world)
  unfolding handle_list_plans handle_get_plan handle_get_subscriber handle_list_subscribers
      list_plans get_plan get_subscriber list_subscribers
  readers-IsStep id r sv =
      let (limit, offset) = parse_pagination r in
      let search = get (lit "search") r.query in
      (
        rw (shown-world (list_plans store limit offset) 200 plans_json sv) unchanged,
        rw (shown-world (get_plan store id) 200 plan_json sv) unchanged,
        rw (shown-world (get_subscriber store id) 200 subscriber_json sv) unchanged,
        rw (shown-world (list_subscribers store search limit offset) 200 subscribers_json sv)
            unchanged,
      )

  pub change_status-IsStep :
      (id : Str) (decode : Str → Option ChangeStatusRequest) (r : Request) (sv : Server S)
      → IsStep store sv.world ((handle_change_status store quote id decode r sv).1.world)
  unfolding handle_change_status
  change_status-IsStep id decode r sv = elim (Option-cases (decode r.body)) [
    | inl bad ↦ rw bad unchanged
    | inr (req, given) ↦
        rw
          (
            given,
            shown-world (change_status store id (status_of req.status)) 200 subscriber_json sv,
          )
          (status_changed id (status_of req.status))
  ]

  pub add_usage-IsStep :
      (now : Time) (parse_time : Str → Option Time) (id : Str)
      (decode : Str → Option AddUsageRequest) (r : Request) (sv : Server S)
      → IsStep store sv.world ((handle_add_usage store quote now parse_time id decode r sv).1.world)
  unfolding handle_add_usage
  add_usage-IsStep now parse_time id decode r sv = elim (Option-cases (decode r.body)) [
    | inl bad ↦ rw bad unchanged
    | inr (req, given) ↦ elim (Bool-cases (is_usage_kind req.kind)) [
      | inr other ↦ rw (given, other) unchanged
      | inl kind ↦
          let ts =
            (if not (is_empty req.timestamp) then or_now (parse_time req.timestamp) now else now) in
          let done : UsageRecord → Server S → List Call × Server S =
            λ rec sv'. answer (write_json 201 (usage_json rec)) (count inc_usage_ingested sv') in
          let world =
            serve-world (reply_error quote) done (λ e sv'. refl) (λ rec sv'. refl)
              (add_usage store now id req.kind req.quantity ts) sv in
          rw (given, kind, world) (usage_added now id req.kind req.quantity ts)
    ]
  ]

  provision-IsStep :
      (now : Time) (req : CreateSubscriberRequest) (sv : Server S)
      → IsStep store sv.world ((provision store quote now req sv).1.world)
  unfolding provision get_plan
  provision-IsStep now req sv =
      let done : Subscriber → Server S → List Call × Server S = λ created sv'.
        answer (write_json 201 (subscriber_json created)) (count inc_subscribers_created sv') in
      let world =
        serve-world (reply_error quote) done (λ e sv'. refl) (λ rec sv'. refl)
          (create_subscriber store now (input_of req)) sv in
      elim (Result-cases (store.get_plan req.plan_id sv.world.store)) [
        | inr (e, lost) ↦ rw lost unchanged
        | inl (plan, there) ↦ rw (there, world) (subscriber_created now (input_of req))
      ]

  pub create_subscriber-IsStep :
      (now : Time) (decode : Str → Option CreateSubscriberRequest) (r : Request) (sv : Server S)
      → IsStep store sv.world ((handle_create_subscriber store quote now decode r sv).1.world)
  unfolding handle_create_subscriber
  create_subscriber-IsStep now decode r sv = elim (Option-cases (decode r.body)) [
    | inl bad ↦ rw bad unchanged
    | inr (req, given) ↦ elim (Bool-cases (is_empty req.msisdn)) [
      | inl bad ↦ rw (given, bad) unchanged
      | inr a ↦ elim (Bool-cases (is_empty req.name)) [
        | inl bad ↦ rw (given, a, bad) unchanged
        | inr b ↦ elim (Bool-cases (is_empty req.plan_id)) [
          | inl bad ↦ rw (given, a, b, bad) unchanged
          | inr c ↦ elim (Bool-cases (is_empty req.owner_account_id)) [
            | inl bad ↦ rw (given, a, b, c, bad) unchanged
            | inr e ↦ rw (given, a, b, c, e) (provision-IsStep now req sv)
          ]
        ]
      ]
    ]
  ]

  bill-world :
      (local : Location) (lookup : Str → Result Unit) (start end : Time) (sub : Subscriber)
      (plan : Plan) (usage : List UsageRecord) (sv : Server S)
      → (bill store quote local lookup start end sub plan usage sv).1.world ≡ sv.world
  unfolding bill
  bill-world local lookup start end sub plan usage sv =
      elim (Result-cases (rate local plan usage start end)) [
        | inr (e, bad) ↦ rw bad refl
        | inl (inv, good) ↦ rw good (elim (Result-cases (lookup sub.msisdn)) [
          | inl (u, fine) ↦ rw fine refl
          | inr (e, down) ↦ rw down refl
        ])
      ]

  pub invoice-IsStep :
      (now : Time) (local : Location) (lookup : Str → Result Unit) (id : Str) (r : Request)
      (sv : Server S)
      → IsStep store sv.world ((handle_get_invoice store quote now local lookup id r sv).1.world)
  unfolding handle_get_invoice get_subscriber get_plan
  invoice-IsStep now local lookup id r sv =
      let (start, end) = current_billing_period now in
      elim (Result-cases (store.get_subscriber id sv.world.store)) [
        | inr (e, lost) ↦ rw lost unchanged
        | inl (sub, there) ↦ elim (Result-cases (store.get_plan sub.plan_id sv.world.store)) [
          | inr (e, lost) ↦ rw (there, lost) unchanged
          | inl (plan, on) ↦
              elim (Result-cases (gather store quote sub.id start end usage_kinds sv.world.store)) [
                | inr (e, lost) ↦ rw (there, on, lost) unchanged
                | inl (us, got) ↦
                    rw (there, on, got, bill-world local lookup start end sub plan us sv) unchanged
              ]
        ]
      ]

  pub ops-IsStep :
      (r : Request) (sv : Server S)
      → IsStep store sv.world ((handle_readyz store quote r sv).1.world)
        × IsStep store sv.world ((handle_admin_reset store quote r sv).1.world)
  unfolding handle_readyz handle_admin_reset
  ops-IsStep r sv =
      let ready : Unit {0} → Server S → List Call × Server S =
        λ u. answer (write_json 200 (status_fields (lit "ready"))) in
      let unready : Error → Server S → List Call × Server S =
        λ e. answer (write_error 503 (lit "store not ready")) in
      let done : Unit {0} → Server S → List Call × Server S =
        λ u. answer (write_json 200 (status_fields (lit "reset"))) in
      let bad : Error → Server S → List Call × Server S =
        λ e. answer (write_error 500 (error_text quote e)) in
      (
        rw (serve-world unready ready (λ e sv'. refl) (λ u sv'. refl) (from_store store.ping) sv)
            unchanged,
        rw (serve-world bad done (λ e sv'. refl) (λ u sv'. refl) (on_store store.reset) sv) emptied,
      )
