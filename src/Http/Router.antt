-- ===== src/Http/Router.antt =====
-- internal/httpapi/router.go and deps.go: the table of routes and the layers around it.
pub mod Quiet
pub mod Handlers
pub mod Endpoints
pub mod Layers
pub mod Requests
pub mod Guard
pub mod Steps
pub mod Operations
pub mod Reached
use my_demo_app.Prelude.{
  ℕ, zero, suc, ◌+◌, ◌-◌, ◌*◌, ◌/◌, ◌%◌, ◌^◌, ◌≤◌, ◌<◌, ◌≡◌, refl, sym, ap, ap₂, ◌∙◌, ◌≡⟨◌⟩◌, ◌∎,
  ◌≢◌, ◌↔◌, ◌⊎◌, inl, inr, Bool, true, false, not, ◌&&◌, ◌||◌, Option, none, some, List, [], ◌∷◌,
  ◌++◌, map, arith, ltb, leb, ◌==◌, if◌then◌else◌, ltb→lt, lt→ltb, leb→le, ==_iff, tests,
  Bool-cases, Option-cases, length, get_elem?, set, length-append, length-set, get_elem?-set_self,
  get_elem?-set_ne, get_or, take, drop, replicate, take-append-drop, length-take, length-drop,
  length-replicate, length-map,
}
use my_demo_app.Prelude.Int.{
  ℤ, pos_part, neg_part, sub_ℕ, ◌+ℤ◌, ◌-ℤ◌, ◌*ℤ◌, ◌≤ℤ◌, ltb_ℤ, +ℤ_comm, +ℤ_assoc, +ℤ_cancel,
  ≤ℤ_total, +ℤ_parts, -ℤ_parts, eq_of_parts, int_laws, +ℤ_mono, pos, negsuc,
}
use my_demo_app.Text.{Str, lit, str_eq, is_empty}
use my_demo_app.Time.{Time, Location}
use my_demo_app.Subscriber.{Store}
use my_demo_app.Metrics.{Metrics}
use my_demo_app.Http.{
  redirected, Request, get, has_key, Payload, Call, json_type, write_json, write_error, Response,
  bodies, put_header, deliver, problem_text, error_text, http_status_for_error, default_page_limit,
  max_page_limit, accept, parse_pagination, Entry, Server, Handler, answer, settle, serve, count,
  log_line, reply_error, decoded, fields, plan_json, plans_json, subscriber_json, subscribers_json,
  usage_json, invoice_json, text, set_header, write_header, write, access_full, access,
  panic_recovered, missing_token, invalid_key, carrier_failed,
}
use my_demo_app.Http.Plans.{
  CreatePlanRequest, plan_of, handle_create_plan, handle_list_plans, handle_get_plan,
}
use my_demo_app.Http.Subscribers.{
  CreateSubscriberRequest, ChangeStatusRequest, AddUsageRequest, normalise_msisdn, input_of,
  is_usage_kind, plain_kind_error, or_now, provision, handle_create_subscriber,
  handle_get_subscriber, handle_list_subscribers, handle_change_status, handle_add_usage,
}
use my_demo_app.Http.Ops.{status_fields, handle_healthz, handle_readyz, handle_admin_reset}
use my_demo_app.Http.Paths.{clean_path, same_path}
use my_demo_app.Webhook.{Client, Network}
use my_demo_app.Http.Misc.{
  handle_register_webhook, handle_ping, handle_invoice_export, handle_redirect,
  handle_delete_subscriber, handle_change_plan,
}
use my_demo_app.Http.Invoicing.{
  usage_kinds, current_billing_period, CarrierClient, carrier_lookup, gather, bill,
  handle_get_invoice,
}
use my_demo_app.Http.Auth.{
  trim_prefix, bearer, bearer_token, write_unauthorized, generate_token, Verdict, hash_key, verdict,
  api_key_middleware, no_token, wrong_key, admitted,
}
use my_demo_app.Http.Middleware.{
  Reply, Layered, StatusRecorder, new_recorder, record_call, recorded, access_entry, final_status,
  cors_headers, total, before_calls, chain, request_id, log_access, logging, metrics, recover_reply,
  recover, cors,
}

-- What the handlers read: the store's methods, the configuration, and, fixed for one request, what
-- comes from outside the program. `expose` is the text of `promhttp`, and `clean` and
-- `moved_url` the URL of a redirect to a target, or to a path and a query, with the page that links it.
pub record Deps (S : Type 0) : Type 0 where
  pub store : Store S
  pub api_key : Str
  pub log_pii : Bool
  pub carrier : CarrierClient
  pub carrier_draw : ℕ
  pub now : Time
  pub local : Location
  pub random_id : Str
  pub quote : Str → Str
  pub md5_hex : Str → Str
  pub parse_time : Str → Option Time
  pub decode_plan : Str → Option CreatePlanRequest
  pub decode_subscriber : Str → Option CreateSubscriberRequest
  pub decode_status : Str → Option ChangeStatusRequest
  pub decode_usage : Str → Option AddUsageRequest
  pub decode_url : Str → Option Str
  pub webhook : Client
  pub network : Network
  pub shell : Str → Str × Option Str
  pub join : Str → Str
  pub write_file : Str → Str → Bool
  pub clean : Str → Str × Str
  pub moved_status : ℕ
  pub moved_url : List Str → List (Str × Str) → Str × Str
  pub expose : Metrics → Str

-- The handlers that the router registers.
pub data Endpoint : Type 0 where
  healthz readyz exposition plan_create plan_list plan_get subscriber_create subscriber_list
        subscriber_get status_change usage_add invoice_get invoice_export subscriber_delete
        plan_change webhook_register ping redirect admin_reset :
      Endpoint

pub data Segment : Type 0 where
  fixed : Str → Segment
  id_segment : Segment

pub record Route : Type 0 where
  pub method : Str
  pub segments : List Segment
  pub needs_key : Bool
  pub endpoint : Endpoint

abbrev segment_text : Segment → Str
segment_text (fixed s) = s
segment_text id_segment = lit "{id}"

abbrev path_text : List Segment → Str
path_text [] = []
path_text (p ∷ ps) = lit "/" ++ segment_text p ++ path_text ps

-- The pattern, which is the label `route` of the metrics.
abbrev pub pattern_text : Route → Str
pattern_text route = route.method ++ lit " " ++ path_text route.segments

abbrev authed : Str → List Segment → Endpoint → Route
authed method segments endpoint = record {
  method = method;
  segments = segments;
  needs_key = true;
  endpoint = endpoint;
}

abbrev unauthed : Str → List Segment → Endpoint → Route
unauthed method segments endpoint = record {
  method = method;
  segments = segments;
  needs_key = false;
  endpoint = endpoint;
}

abbrev plans : List Segment
plans = fixed (lit "v1") ∷ fixed (lit "plans") ∷ []

abbrev subscribers : List Segment
subscribers = fixed (lit "v1") ∷ fixed (lit "subscribers") ∷ []

abbrev subscriber_id : List Segment
subscriber_id = subscribers ++ id_segment ∷ []

unfoldable pub routes : List Route
routes =
    unauthed (lit "GET") (fixed (lit "healthz") ∷ []) healthz
    ∷ unauthed (lit "GET") (fixed (lit "readyz") ∷ []) readyz
    ∷ unauthed (lit "GET") (fixed (lit "metrics") ∷ []) exposition
    ∷ authed (lit "POST") plans plan_create
    ∷ authed (lit "GET") plans plan_list
    ∷ authed (lit "GET") (plans ++ id_segment ∷ []) plan_get
    ∷ authed (lit "POST") subscribers subscriber_create
    ∷ authed (lit "GET") subscribers subscriber_list
    ∷ authed (lit "GET") subscriber_id subscriber_get
    ∷ authed (lit "PATCH") (subscriber_id ++ fixed (lit "status") ∷ []) status_change
    ∷ authed (lit "POST") (subscriber_id ++ fixed (lit "usage") ∷ []) usage_add
    ∷ authed (lit "GET") (subscriber_id ++ fixed (lit "invoice") ∷ []) invoice_get
    ∷ authed (lit "GET") (subscriber_id ++ fixed (lit "invoice") ∷ fixed (lit "export") ∷ [])
        invoice_export
    ∷ authed (lit "DELETE") subscriber_id subscriber_delete
    ∷ authed (lit "PATCH") (subscriber_id ++ fixed (lit "plan") ∷ []) plan_change
    ∷ authed (lit "POST") (fixed (lit "v1") ∷ fixed (lit "webhooks") ∷ []) webhook_register
    ∷ authed (lit "GET") (fixed (lit "v1") ∷ fixed (lit "diagnostics") ∷ fixed (lit "ping") ∷ [])
        ping
    ∷ authed (lit "GET") (fixed (lit "v1") ∷ fixed (lit "redirect") ∷ []) redirect
    ∷ unauthed (lit "POST") (fixed (lit "admin") ∷ fixed (lit "reset") ∷ []) admin_reset
    ∷ []

abbrev with_id : Str → Option Str → Option Str
with_id x none = none
with_id x (some rest) = some x

-- The `http.ServeMux`: the value of `{id}` where a pattern matches a path, empty where it has none.
unfoldable pub match_path : List Segment → List Str → Option Str
match_path [] [] = some []
match_path [] (x ∷ xs) = none
match_path (p ∷ ps) [] = none
match_path (fixed s ∷ ps) (x ∷ xs) =
    let rest = match_path ps xs in if str_eq s x then rest else none
match_path (id_segment ∷ ps) (x ∷ xs) =
    let rest = match_path ps xs in if is_empty x then none else with_id x rest

-- A pattern for GET also takes HEAD.
unfoldable pub takes_method : Str → Str → Bool
takes_method wanted method =
    str_eq wanted method || (str_eq wanted (lit "GET") && str_eq method (lit "HEAD"))

-- A path that `findHandler` redirects to the clean one; those of CONNECT stay.
unfoldable pub is_moved : Request → Bool
is_moved r = not (str_eq r.method (lit "CONNECT")) && not (same_path (clean_path r.path) r.path)

pub data Found : Type 0 where
  no_path wrong_method moved : Found
  found : Route → Str → Found

-- A pattern against the later ones: `none` where it does not match the path.
abbrev pub choose : Option Str → Bool → Route → Found → Found
choose none takes route later = later
choose (some id) true route later = found route id
choose (some id) false route no_path = wrong_method
choose (some id) false route later = later

unfoldable pub find_route : Request → List Route → Found
unfolding match_path takes_method
find_route r [] = no_path
find_route r (route ∷ rest) =
    choose (match_path route.segments r.path) (takes_method route.method r.method) route
      (find_route r rest)

-- `findHandler`
unfoldable pub find_handler : Request → Found
find_handler r = let at = find_route r routes in if is_moved r then moved else at

-- `http.Error`, less the header `Allow` of a 405.
abbrev pub plain_error : ℕ → Str → List Call
plain_error status message =
    set_header (lit "Content-Type") (lit "text/plain; charset=utf-8")
    ∷ set_header (lit "X-Content-Type-Options") (lit "nosniff")
    ∷ write_header status
    ∷ write (text message)
    ∷ []

module _ {S : Type 0} (d : Deps S) where
  -- `Metrics.Handler`.
  abbrev handle_exposition : Handler S
  handle_exposition r sv = (write (text (d.expose sv.metrics)) ∷ [], sv)

  unfoldable pub handler_of : Endpoint → Str → Handler S
  handler_of healthz id = handle_healthz
  handler_of readyz id = handle_readyz d.store d.quote
  handler_of exposition id = handle_exposition
  handler_of plan_create id = handle_create_plan d.store d.quote d.decode_plan
  handler_of plan_list id = handle_list_plans d.store d.quote
  handler_of plan_get id = handle_get_plan d.store d.quote id
  handler_of subscriber_create id =
      handle_create_subscriber d.store d.quote d.now d.decode_subscriber
  handler_of subscriber_list id = handle_list_subscribers d.store d.quote
  handler_of subscriber_get id = handle_get_subscriber d.store d.quote id
  handler_of status_change id = handle_change_status d.store d.quote id d.decode_status
  handler_of usage_add id = handle_add_usage d.store d.quote d.now d.parse_time id d.decode_usage
  handler_of invoice_get id =
      handle_get_invoice d.store d.quote d.now d.local (carrier_lookup d.carrier d.carrier_draw) id
  handler_of invoice_export id = handle_invoice_export d.join d.write_file id
  handler_of subscriber_delete id = handle_delete_subscriber
  handler_of plan_change id = handle_change_plan
  handler_of webhook_register id = handle_register_webhook d.network d.webhook d.decode_url
  handler_of ping id = handle_ping d.shell
  handler_of redirect id = handle_redirect d.clean
  handler_of admin_reset id = handle_admin_reset d.store d.quote

  -- `authed` and `unauthed`.
  unfoldable pub registered : Route → Str → Layered S
  registered route id =
      let h = handler_of route.endpoint id in
      metrics (pattern_text route)
        (total (if route.needs_key then api_key_middleware d.md5_hex d.api_key h else h))

  abbrev dispatch : Found → Layered S
  dispatch no_path = total (λ r. answer (plain_error 404 (lit "404 page not found\n")))
  dispatch moved =
      total (λ r. answer (redirected d.moved_status r (d.moved_url (clean_path r.path) r.query)))
  dispatch wrong_method = total (λ r. answer (plain_error 405 (lit "Method Not Allowed\n")))
  dispatch (found route id) = registered route id

  unfoldable pub mux : Layered S
  unfolding registered
  mux r = dispatch (find_handler r) r

  unfoldable pub new_router : Layered S
  new_router = chain mux (request_id d.random_id ∷ logging d.log_pii ∷ recover ∷ cors ∷ [])
