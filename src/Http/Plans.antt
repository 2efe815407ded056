-- ===== src/Http/Plans.antt =====
-- internal/httpapi/handlers_plans.go. The decoder of `encoding/json` is a parameter.
use my_demo_app.Prelude.{Option, []}
use my_demo_app.Prelude.Int.{ℤ}
use my_demo_app.Text.{Str}
use my_demo_app.Subscriber.{Plan, Store}
use my_demo_app.Subscriber.Service.{create_plan, list_plans, get_plan}
use my_demo_app.Http.{
  write_json, parse_pagination, Handler, answer, serve, reply_error, decoded, plan_json, plans_json,
}

pub record CreatePlanRequest : Type 0 where
  pub name : Str
  pub monthly_price_cents : ℤ
  pub included_voice_minutes : ℤ
  pub included_data_mb : ℤ
  pub included_sms : ℤ
  pub overage_voice_cents : ℤ
  pub overage_data_cents_per_mb : ℤ
  pub overage_sms_cents : ℤ

abbrev pub plan_of : CreatePlanRequest → Plan
plan_of req = record {
  id = [];
  name = req.name;
  monthly_price_cents = req.monthly_price_cents;
  included_voice_minutes = req.included_voice_minutes;
  included_data_mb = req.included_data_mb;
  included_sms = req.included_sms;
  overage_voice_cents = req.overage_voice_cents;
  overage_data_cents_per_mb = req.overage_data_cents_per_mb;
  overage_sms_cents = req.overage_sms_cents;
}

module _ {S : Type 0} (store : Store S) (quote : Str → Str) where
  unfoldable pub handle_create_plan : (Str → Option CreatePlanRequest) → Handler S
  handle_create_plan decode r = decoded (decode r.body) (λ req.
      serve (create_plan store (plan_of req)) (reply_error quote)
        (λ created. answer (write_json 201 (plan_json created))))

  unfoldable pub handle_list_plans : Handler S
  handle_list_plans r =
      let page = parse_pagination r in
      serve (list_plans store page.0 page.1) (reply_error quote)
        (λ plans. answer (write_json 200 (plans_json plans)))

  unfoldable pub handle_get_plan : Str → Handler S
  handle_get_plan id r =
      serve (get_plan store id) (reply_error quote) (λ p. answer (write_json 200 (plan_json p)))
