-- ===== src/Http/Router/Operations.antt =====
-- internal/httpapi/router.go: a request changes the process by at most one operation of the service.
use my_demo_app.Prelude.{◌≡◌, refl, inl, inr, ◌++◌, Bool-cases, Option-cases}
use my_demo_app.Text.{Str, lit, str_eq, is_empty}
use my_demo_app.Exec.{Result-cases}
use my_demo_app.Subscriber.Service.{World}
use my_demo_app.Metrics.{inc_in_flight}
use my_demo_app.Http.{Request, get, Server, Handler, count}
use my_demo_app.Http.Ops.{handle_healthz}
use my_demo_app.Webhook.{notify}
use my_demo_app.Http.Misc.{
  registered_event, handle_register_webhook, handle_ping, handle_invoice_export, handle_redirect,
  handle_delete_subscriber, handle_change_plan,
}
use my_demo_app.Http.Auth.{
  Verdict, enforce, verdict, api_key_middleware, no_token, wrong_key, admitted,
}
use my_demo_app.Http.Router.{
  Deps, Route, Endpoint, find_handler, handler_of, new_router, healthz, readyz, exposition,
  plan_create, plan_list, plan_get, subscriber_create, subscriber_list, subscriber_get,
  status_change, usage_add, invoice_get, invoice_export, subscriber_delete, plan_change,
  webhook_register, ping, redirect, admin_reset,
}
use my_demo_app.Http.Router.Layers.{
  tagged, guarded, new_router-routed, new_router-moved, new_router-no_path, new_router-wrong_method,
  new_router-preflight,
}
use my_demo_app.Http.Router.Guard.{Found-cases}
use my_demo_app.Http.Router.Steps.{
  IsStep, unchanged, create_plan-IsStep, readers-IsStep, change_status-IsStep, add_usage-IsStep,
  create_subscriber-IsStep, invoice-IsStep, ops-IsStep,
}

module _ {S : Type 0} (d : Deps S) where
  misc-world :
      (id : Str) (r : Request) (sv : Server S)
      → ((handle_register_webhook d.network d.webhook d.decode_url r sv).1.world ≡ sv.world)
        × ((handle_ping d.shell r sv).1.world ≡ sv.world)
        × ((handle_invoice_export d.join d.write_file id r sv).1.world ≡ sv.world)
        × ((handle_redirect d.clean r sv).1.world ≡ sv.world)
  unfolding handle_register_webhook handle_ping handle_invoice_export handle_redirect
  misc-world id r sv =
      let path = d.join (get (lit "filename") r.query) in
      (
        elim (Option-cases (d.decode_url r.body)) [
          | inl bad ↦ rw bad refl
          | inr (url, given) ↦ elim (Bool-cases (is_empty url)) [
            | inl bad ↦ rw (given, bad) refl
            | inr good ↦
                elim (Result-cases ((notify d.network d.webhook url registered_event).result)) [
                  | inl (u, sent) ↦ rw (given, good, sent) refl
                  | inr (e, down) ↦ rw (given, good, down) refl
                ]
          ]
        ],
        elim (Bool-cases (is_empty (get (lit "host") r.query))) [
          | inl bad ↦ rw bad refl
          | inr good ↦ rw good refl
        ],
        elim (Bool-cases (is_empty (get (lit "filename") r.query))) [
          | inl bad ↦ rw bad refl
          | inr good ↦
              elim (Bool-cases (
                d.write_file path
                  (lit "{\"subscriber_id\":\"" ++ id ++ lit "\",\"status\":\"exported\"}"))) [
                    | inl done ↦ rw (good, done) refl
                    | inr not_written ↦ rw (good, not_written) refl
                  ]
        ],
        elim (Bool-cases (is_empty (get (lit "url") r.query))) [
          | inl bad ↦ rw bad refl
          | inr good ↦ rw good refl
        ],
      )

  same-IsStep : {w w' : World S} → w' ≡ w → IsStep d.store w w'
  same-IsStep e = rw e unchanged

  handler_of-IsStep :
      (endpoint : Endpoint) (id : Str) (r : Request) (sv : Server S)
      → IsStep d.store sv.world ((handler_of d endpoint id r sv).1.world)
  unfolding handler_of
  handler_of-IsStep healthz id r sv = unfold handle_healthz in unchanged
  handler_of-IsStep readyz id r sv = (ops-IsStep d.store d.quote r sv).0
  handler_of-IsStep exposition id r sv = unchanged
  handler_of-IsStep plan_create id r sv = create_plan-IsStep d.store d.quote d.decode_plan r sv
  handler_of-IsStep plan_list id r sv =
      let (p, _, _, _) = readers-IsStep d.store d.quote id r sv in p
  handler_of-IsStep plan_get id r sv =
      let (_, p, _, _) = readers-IsStep d.store d.quote id r sv in p
  handler_of-IsStep subscriber_create id r sv =
      create_subscriber-IsStep d.store d.quote d.now d.decode_subscriber r sv
  handler_of-IsStep subscriber_list id r sv =
      let (_, _, _, p) = readers-IsStep d.store d.quote id r sv in p
  handler_of-IsStep subscriber_get id r sv =
      let (_, _, p, _) = readers-IsStep d.store d.quote id r sv in p
  handler_of-IsStep status_change id r sv =
      change_status-IsStep d.store d.quote id d.decode_status r sv
  handler_of-IsStep usage_add id r sv =
      add_usage-IsStep d.store d.quote d.now d.parse_time id d.decode_usage r sv
  handler_of-IsStep invoice_get id r sv = invoice-IsStep d.store d.quote d.now d.local _ id r sv
  handler_of-IsStep invoice_export id r sv = let (_, _, p, _) = misc-world id r sv in same-IsStep p
  handler_of-IsStep subscriber_delete id r sv = unfold handle_delete_subscriber in unchanged
  handler_of-IsStep plan_change id r sv = unfold handle_change_plan in unchanged
  handler_of-IsStep webhook_register id r sv =
      let (p, _, _, _) = misc-world id r sv in same-IsStep p
  handler_of-IsStep ping id r sv = let (_, p, _, _) = misc-world id r sv in same-IsStep p
  handler_of-IsStep redirect id r sv = let (_, _, _, p) = misc-world id r sv in same-IsStep p
  handler_of-IsStep admin_reset id r sv = (ops-IsStep d.store d.quote r sv).1

  enforce-IsStep :
      (v : Verdict) (next : Handler S) (r : Request) (sv : Server S)
      → IsStep d.store sv.world ((next r sv).1.world)
      → IsStep d.store sv.world ((enforce v next r sv).1.world)
  enforce-IsStep no_token next r sv h = unchanged
  enforce-IsStep wrong_key next r sv h = unchanged
  enforce-IsStep admitted next r sv h = h

  guarded-IsStep :
      (route : Route) (id : Str) (r : Request) (sv : Server S)
      → IsStep d.store sv.world ((guarded d route id r sv).1.world)
  unfolding api_key_middleware
  guarded-IsStep route id r sv =
      let h = handler_of-IsStep route.endpoint id r sv in
      elim (Bool-cases route.needs_key) [
        | inl guard ↦ rw guard (
            enforce-IsStep (verdict d.md5_hex d.api_key (get (lit "Authorization") r.headers))
              (handler_of d route.endpoint id) r sv h)
        | inr free ↦ rw free h
      ]

  -- Any request, whatever its method, path, headers and body, changes the process by at most one
  -- operation of the service: it creates a plan or a subscriber, changes a status, records usage,
  -- empties the store, or changes nothing.
  pub new_router-IsStep :
      (r : Request) (sv : Server S) → IsStep d.store sv.world ((new_router d r sv).1.world)
  new_router-IsStep r sv = elim (Bool-cases (str_eq r.method (lit "OPTIONS"))) [
    | inl options ↦ let (_, _, world, _) = new_router-preflight d r sv options in same-IsStep world
    | inr simple ↦ elim (Found-cases (find_handler r)) [
      | inl lost ↦ same-IsStep (new_router-no_path d r sv simple lost).1
      | inr (inl lost) ↦ same-IsStep (new_router-wrong_method d r sv simple lost).1
      | inr (inr (inl moves)) ↦ same-IsStep (new_router-moved d r sv simple moves).1
      | inr (inr (inr (route, id, at))) ↦
          let (_, _, world, _) = new_router-routed d r route id sv simple at in
          rw world (guarded-IsStep route id (tagged d r) (count inc_in_flight sv))
    ]
  ]
