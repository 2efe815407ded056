-- ===== src/Http/Ops.antt =====
-- internal/httpapi/handlers_ops.go: liveness, readiness and the administrator's reset.
use my_demo_app.Prelude.{[], ◌∷◌}
use my_demo_app.Text.{Str, lit}
use my_demo_app.Subscriber.{Store}
use my_demo_app.Subscriber.Service.{on_store, from_store}
use my_demo_app.Http.{Payload, write_json, write_error, error_text, Handler, answer, serve, fields}

abbrev pub status_fields : Str → Payload
status_fields s = fields ((lit "status", s) ∷ [])

module _ {S : Type 0} where
  unfoldable pub handle_healthz : Handler S
  handle_healthz r = answer (write_json 200 (status_fields (lit "ok")))

module _ {S : Type 0} (store : Store S) (quote : Str → Str) where
  unfoldable pub handle_readyz : Handler S
  handle_readyz r =
      serve (from_store store.ping) (λ e. answer (write_error 503 (lit "store not ready")))
        (λ u. answer (write_json 200 (status_fields (lit "ready"))))

  unfoldable pub handle_admin_reset : Handler S
  handle_admin_reset r =
      serve (on_store store.reset) (λ e. answer (write_error 500 (error_text quote e)))
        (λ u. answer (write_json 200 (status_fields (lit "reset"))))
