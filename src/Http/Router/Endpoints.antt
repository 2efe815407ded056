-- ===== src/Http/Router/Endpoints.antt =====
-- internal/httpapi: every registered handler sends one status and leaves the layers' collectors alone.
use my_demo_app.Http.Ops.{status_fields, handle_healthz, handle_readyz, handle_admin_reset}
use my_demo_app.Webhook.{notify}
use my_demo_app.Http.Misc.{
  registered_event, handle_register_webhook, handle_ping, handle_invoice_export, handle_redirect,
  handle_delete_subscriber, handle_change_plan,
}
use my_demo_app.Http.Router.{
  Deps, Endpoint, handler_of, healthz, readyz, exposition, plan_create, plan_list, plan_get,
  subscriber_create, subscriber_list, subscriber_get, status_change, usage_add, invoice_get,
  invoice_export, subscriber_delete, plan_change, webhook_register, ping, redirect, admin_reset,
}
use my_demo_app.Http.{
  Request, get, Call, write_json, write_error, error_text, Server, answer, fields,
}
use my_demo_app.Prelude.{refl, inl, inr, List, [], ◌∷◌, ◌++◌, arith, Bool-cases}
use my_demo_app.Metrics.{Metrics}
use my_demo_app.Text.{Str, lit, is_empty}
use my_demo_app.Exec.{Error}
use my_demo_app.Subscriber.Service.{from_store, on_store}
use my_demo_app.Http.Router.Quiet.{
  redirected-IsQuiet, IsSame, IsQuiet, json, settle-IsQuiet, serve-IsQuiet, decoded-IsQuiet,
}
use my_demo_app.Http.Router.Handlers.{
  create_subscriber-IsQuiet, add_usage-IsQuiet, invoice-IsQuiet, plans-IsQuiet, subscribers-IsQuiet,
}

module _ {S : Type 0} (d : Deps S) (m : Metrics) where
  ops-IsQuiet :
      (r : Request) (sv : Server S)
      → IsSame m sv
      → IsQuiet m (handle_readyz d.store d.quote r sv)
        × IsQuiet m (handle_admin_reset d.store d.quote r sv)
  unfolding handle_readyz handle_admin_reset
  ops-IsQuiet r sv same =
      let ready : Unit {0} → Server S → List Call × Server S =
        λ u. answer (write_json 200 (status_fields (lit "ready"))) in
      let unready : Error → Server S → List Call × Server S =
        λ e. answer (write_error 503 (lit "store not ready")) in
      let done : Unit {0} → Server S → List Call × Server S =
        λ u. answer (write_json 200 (status_fields (lit "reset"))) in
      let bad : Error → Server S → List Call × Server S =
        λ e. answer (write_error 500 (error_text d.quote e)) in
      (
        serve-IsQuiet m unready ready (λ e sv' h. json m _ _ sv' (omega arith) h)
            (λ u sv' h. json m _ _ sv' (omega arith) h) (from_store d.store.ping) sv same,
        serve-IsQuiet m bad done (λ e sv' h. json m _ _ sv' (omega arith) h)
            (λ u sv' h. json m _ _ sv' (omega arith) h) (on_store d.store.reset) sv same,
      )

  misc-IsQuiet :
      (id : Str) (r : Request) (sv : Server S)
      → IsSame m sv
      → IsQuiet m (handle_register_webhook d.network d.webhook d.decode_url r sv)
        × IsQuiet m (handle_ping d.shell r sv)
        × IsQuiet m (handle_invoice_export d.join d.write_file id r sv)
        × IsQuiet m (handle_redirect d.clean r sv)
  unfolding handle_register_webhook handle_ping handle_invoice_export handle_redirect
  misc-IsQuiet id r sv same =
      let path = d.join (get (lit "filename") r.query) in
      (
        decoded-IsQuiet m (d.decode_url r.body) _ sv
            (λ url. elim (Bool-cases (is_empty url)) [
              | inl bad ↦ rw bad (json m _ _ sv (omega arith) same)
              | inr good ↦ rw good (
                  settle-IsQuiet m
                    (λ e. answer (write_error 502 (lit "webhook verification failed")))
                    (λ u. answer (
                      write_json 201
                        (fields ((lit "status", lit "registered") ∷ (lit "url", url) ∷ []))))
                    (λ e sv' h. json m _ _ sv' (omega arith) h)
                    (λ u sv' h. json m _ _ sv' (omega arith) h)
                    ((notify d.network d.webhook url registered_event).result) sv same)
            ])
            same,
        elim (Bool-cases (is_empty (get (lit "host") r.query))) [
          | inl bad ↦ rw bad (record { once = refl; codes = refl; same = same })
          | inr good ↦ rw good (record { once = refl; codes = refl; same = same })
        ],
        elim (Bool-cases (is_empty (get (lit "filename") r.query))) [
          | inl bad ↦ rw bad (record { once = refl; codes = refl; same = same })
          | inr good ↦
              rw good
                (elim (Bool-cases (
                  d.write_file path
                    (lit "{\"subscriber_id\":\"" ++ id ++ lit "\",\"status\":\"exported\"}"))) [
                      | inl done ↦ rw done (record { once = refl; codes = refl; same = same })
                      | inr not_written ↦
                          rw not_written (record { once = refl; codes = refl; same = same })
                    ])
        ],
        elim (Bool-cases (is_empty (get (lit "url") r.query))) [
          | inl bad ↦ rw bad (record { once = refl; codes = refl; same = same })
          | inr good ↦
              rw good (
                redirected-IsQuiet m 302 r (d.clean (get (lit "url") r.query)) sv (omega arith)
                  same)
        ],
      )

  -- Each registered handler sends one positive status and leaves the request counter and the gauge of
  -- requests in flight as they are.
  pub handler_of-IsQuiet :
      (endpoint : Endpoint) (id : Str) (r : Request) (sv : Server S)
      → IsSame m sv
      → IsQuiet m (handler_of d endpoint id r sv)
  unfolding handler_of
  handler_of-IsQuiet healthz id r sv same =
      unfold handle_healthz in json m _ _ sv (omega arith) same
  handler_of-IsQuiet readyz id r sv same = (ops-IsQuiet r sv same).0
  handler_of-IsQuiet exposition id r sv same = record { once = refl; codes = refl; same = same }
  handler_of-IsQuiet plan_create id r sv same = let (p, _, _) = plans-IsQuiet d m id r sv same in p
  handler_of-IsQuiet plan_list id r sv same = let (_, p, _) = plans-IsQuiet d m id r sv same in p
  handler_of-IsQuiet plan_get id r sv same = let (_, _, p) = plans-IsQuiet d m id r sv same in p
  handler_of-IsQuiet subscriber_create id r sv same = create_subscriber-IsQuiet d m r sv same
  handler_of-IsQuiet subscriber_list id r sv same =
      let (_, p, _) = subscribers-IsQuiet d m id r sv same in p
  handler_of-IsQuiet subscriber_get id r sv same =
      let (p, _, _) = subscribers-IsQuiet d m id r sv same in p
  handler_of-IsQuiet status_change id r sv same =
      let (_, _, p) = subscribers-IsQuiet d m id r sv same in p
  handler_of-IsQuiet usage_add id r sv same = add_usage-IsQuiet d m id r sv same
  handler_of-IsQuiet invoice_get id r sv same = invoice-IsQuiet d m _ id r sv same
  handler_of-IsQuiet invoice_export id r sv same = let (_, _, p, _) = misc-IsQuiet id r sv same in p
  handler_of-IsQuiet subscriber_delete id r sv same =
      unfold handle_delete_subscriber in json m _ _ sv (omega arith) same
  handler_of-IsQuiet plan_change id r sv same =
      unfold handle_change_plan in json m _ _ sv (omega arith) same
  handler_of-IsQuiet webhook_register id r sv same =
      let (p, _, _, _) = misc-IsQuiet id r sv same in p
  handler_of-IsQuiet ping id r sv same = let (_, p, _, _) = misc-IsQuiet id r sv same in p
  handler_of-IsQuiet redirect id r sv same = let (_, _, _, p) = misc-IsQuiet id r sv same in p
  handler_of-IsQuiet admin_reset id r sv same = (ops-IsQuiet r sv same).1
