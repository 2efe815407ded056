-- ===== src/Http/Subscribers.antt =====
-- internal/httpapi/handlers_subscribers.go. The decoders of `encoding/json` and `time.Parse` are
-- parameters; a body that cannot be read is one that does not decode.
pub mod Provision
use my_demo_app.Prelude.{
  Bool, not, ◌||◌, Option, none, some, List, [], ◌∷◌, ◌++◌, ◌==◌, if◌then◌else◌,
}
use my_demo_app.Prelude.Int.{ℤ}
use my_demo_app.Text.{Str, lit, str_eq, is_empty}
use my_demo_app.Time.{Time}
use my_demo_app.Subscriber.{Store, status_of}
use my_demo_app.Subscriber.Service.{
  CreateSubscriberInput, get_plan, create_subscriber, get_subscriber, list_subscribers,
  change_status, add_usage,
}
use my_demo_app.Metrics.{inc_subscribers_created, inc_usage_ingested}
use my_demo_app.Http.{
  get, Call, write_json, write_error, http_status_for_error, parse_pagination, Server, Handler,
  answer, serve, count, reply_error, decoded, subscriber_json, subscribers_json, usage_json, text,
  set_header, write_header, write,
}

pub record CreateSubscriberRequest : Type 0 where
  pub msisdn : Str
  pub imsi : Str
  pub name : Str
  pub plan_id : Str
  pub owner_account_id : Str

pub record ChangeStatusRequest : Type 0 where
  pub status : Str

pub record AddUsageRequest : Type 0 where
  pub kind : Str
  pub quantity : ℤ
  pub timestamp : Str

-- `msisdn[0] != '+'` on a text that is not empty.
unfoldable pub normalise_msisdn : Str → Str
normalise_msisdn [] = []
normalise_msisdn (c ∷ s) = if c == b'+' then c ∷ s else b'+' ∷ c ∷ s

abbrev pub input_of : CreateSubscriberRequest → CreateSubscriberInput
input_of req = record {
  msisdn = normalise_msisdn req.msisdn;
  imsi = req.imsi;
  name = req.name;
  plan_id = req.plan_id;
  owner_account_id = req.owner_account_id;
}

-- The kinds that the handler admits.
abbrev pub is_usage_kind : Str → Bool
is_usage_kind kind =
    str_eq kind (lit "voice") || (str_eq kind (lit "data") || str_eq kind (lit "sms"))

abbrev pub plain_kind_error : List Call
plain_kind_error =
    set_header (lit "Content-Type") (lit "text/plain; charset=utf-8")
    ∷ write_header 400
    ∷ write (text (lit "kind must be one of voice, data, sms\n"))
    ∷ []

abbrev pub or_now : Option Time → Time → Time
or_now none now = now
or_now (some t) now = t

module _ {S : Type 0} (store : Store S) (quote : Str → Str) where
  -- Behind the checks of the fields.
  unfoldable pub provision : Time → CreateSubscriberRequest → Server S → List Call × Server S
  provision now req =
      serve (get_plan store req.plan_id)
        (λ perr.
          answer (write_error (http_status_for_error perr) (lit "plan not found: " ++ req.plan_id)))
        (λ plan.
          serve (create_subscriber store now (input_of req)) (reply_error quote) (λ created sv.
            answer (write_json 201 (subscriber_json created)) (count inc_subscribers_created sv)))

  unfoldable pub handle_create_subscriber :
      Time → (Str → Option CreateSubscriberRequest) → Handler S
  handle_create_subscriber now decode r = decoded (decode r.body) (λ req.
      if is_empty req.msisdn
      then answer (write_error 400 (lit "msisdn is required"))
      else if is_empty req.name
      then answer (write_error 400 (lit "name is required"))
      else if is_empty req.plan_id
      then answer (write_error 400 (lit "plan_id is required"))
      else if is_empty req.owner_account_id
      then answer (write_error 400 (lit "owner_account_id is required"))
      else provision now req)

  unfoldable pub handle_get_subscriber : Str → Handler S
  handle_get_subscriber id r =
      serve (get_subscriber store id) (reply_error quote)
        (λ s. answer (write_json 200 (subscriber_json s)))

  unfoldable pub handle_list_subscribers : Handler S
  handle_list_subscribers r =
      let search = get (lit "search") r.query in
      let page = parse_pagination r in
      serve (list_subscribers store search page.0 page.1) (reply_error quote)
        (λ subs. answer (write_json 200 (subscribers_json subs)))

  unfoldable pub handle_change_status : Str → (Str → Option ChangeStatusRequest) → Handler S
  handle_change_status id decode r = decoded (decode r.body) (λ req.
      serve (change_status store id (status_of req.status)) (reply_error quote)
        (λ updated. answer (write_json 200 (subscriber_json updated))))

  unfoldable pub handle_add_usage :
      Time → (Str → Option Time) → Str → (Str → Option AddUsageRequest) → Handler S
  handle_add_usage now parse_time id decode r = decoded (decode r.body) (λ req.
      if not (is_usage_kind req.kind)
      then answer plain_kind_error
      else (let ts =
            if not (is_empty req.timestamp) then or_now (parse_time req.timestamp) now else now in
          serve (add_usage store now id req.kind req.quantity ts) (reply_error quote)
            (λ rec sv. answer (write_json 201 (usage_json rec)) (count inc_usage_ingested sv))))
