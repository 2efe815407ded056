-- ===== src/Http/Misc/Registration.antt =====
-- internal/httpapi/handlers_misc.go: the answers to the registration of a webhook.
use my_demo_app.Prelude.{◌≡◌, refl, inl, inr, Option, none, some, List, [], ◌∷◌}
use my_demo_app.Text.{Str, lit, is_empty}
use my_demo_app.Webhook.{Client, Network}
use my_demo_app.Webhook.Outcome.{IsNotified, notify-cases}
use my_demo_app.Http.{Request, Call, write_json, write_error, Server, fields, false}
use my_demo_app.Http.Misc.{registered_event, handle_register_webhook}

abbrev pub registered_fields : Str → List (Str × Str)
registered_fields url = (lit "status", lit "registered") ∷ (lit "url", url) ∷ []

-- What the client of a registration receives.
pub data WebhookOutcome (net : Network) (webhook : Client) : Option Str → List Call → Type 0 where
  unreadable : WebhookOutcome net webhook none (write_error 400 (lit "invalid JSON body"))
  no_url : WebhookOutcome net webhook (some []) (write_error 400 (lit "url is required"))
  unverified :
      (url : Str)
      → is_empty url ≡ false
      → ¬ IsNotified net webhook url registered_event
      → WebhookOutcome net webhook (some url) (write_error 502 (lit "webhook verification failed"))
  verified :
      (url : Str)
      → is_empty url ≡ false
      → IsNotified net webhook url registered_event
      → WebhookOutcome net webhook (some url) (write_json 201 (fields (registered_fields url)))

module _ {S : Type 0} where
  outcome :
      (net : Network) (webhook : Client) (url : Option Str) (r : Request) (sv : Server S)
      → let (calls, after) = handle_register_webhook net webhook (λ body. url) r sv in
        WebhookOutcome net webhook url calls × (after ≡ sv)
  unfolding handle_register_webhook is_empty
  outcome net webhook none r sv = (unreadable, refl)
  outcome net webhook (some []) r sv = (no_url, refl)
  outcome net webhook (some (c ∷ url)) r sv =
      elim (notify-cases net webhook (c ∷ url) registered_event) [
        | inl (sent, good) ↦ (rw sent (verified (c ∷ url) refl good), rw sent refl)
        | inr (e, unsent, bad) ↦ (rw unsent (unverified (c ∷ url) refl bad), rw unsent refl)
      ]

  -- For any network, the registration of a webhook answers 201 with the URL exactly where the body
  -- gives a URL that is not empty and whose endpoint received the event as JSON in a POST and
  -- answered with a status below 400; 502 where any step of that failed, 400 without a URL or a
  -- readable body; the state of the server stays as it was.
  pub handle_register_webhook-WebhookOutcome :
      (net : Network) (webhook : Client) (decode : Str → Option Str) (r : Request) (sv : Server S)
      → let (calls, after) = handle_register_webhook net webhook decode r sv in
        WebhookOutcome net webhook (decode r.body) calls × (after ≡ sv)
  unfolding handle_register_webhook
  handle_register_webhook-WebhookOutcome net webhook decode r sv =
      outcome net webhook (decode r.body) r sv
