-- ===== src/Tests/Routing.antt =====
-- Requests through the router of internal/httpapi/router.go.
use my_demo_app.Prelude.{◌⊎◌}
use my_demo_app.Text.{is_empty}
use my_demo_app.Prelude.{
  ℕ, ◌+◌, ◌≤◌, ◌<◌, ◌≡◌, refl, ◌≢◌, inr, true, false, ◌&&◌, none, some, List, [], ◌∷◌, arith,
  if◌then◌else◌,
}
use my_demo_app.Prelude.Int.{pos}
use my_demo_app.Tests.Fixtures.{same_case, now, basic, fresh_world, fresh-IsIssued, one_world}
use my_demo_app.Http.{Request, get, deliver, Server, count}
use my_demo_app.Http.Paths.{clean_path, clean_onto, same_path}
use my_demo_app.Http.Router.{
  Deps, Route, pattern_text, routes, find_handler, is_moved, find_route, handler_of, new_router,
  fixed, found, plan_list,
}
use my_demo_app.Http.Router.Steps.{IsStep}
use my_demo_app.Http.Router.Operations.{new_router-IsStep}
use my_demo_app.Http.Router.Reached.{begun, served, Served-IsIssued}
use my_demo_app.Subscriber.Service.Issued.{IsIssued}
use my_demo_app.Store.Memory.Laws.{view, memory_store-IsStore}
use my_demo_app.Text.{Str, lit, str_eq}
use my_demo_app.Time.{utc}
use my_demo_app.Store.Memory.{MemoryStore, memory_store, new_memory_store}
use my_demo_app.Metrics.{new_metrics, status_label, inc_in_flight}
use my_demo_app.Webhook.{new_client}
use my_demo_app.Tests.Fixtures.{open_network}
use my_demo_app.Http.Auth.{verdict, admitted}
use my_demo_app.Http.Router.Layers.{tagged}
use my_demo_app.Http.Router.Requests.{new_router-counted, new_router-admitted}
use my_demo_app.Http.Router.Guard.{new_router-v1, reset-unguarded}

-- A service whose bodies never decode and whose hash is the key itself.
abbrev deps : Deps MemoryStore
deps = record {
  store = memory_store same_case;
  api_key = lit "secret";
  log_pii = false;
  carrier = record { num = pos 0; den = 1 };
  carrier_draw = 0;
  now = now;
  local = utc;
  random_id = lit "0a";
  quote = λ s. s;
  md5_hex = λ s. s;
  parse_time = λ s. none;
  decode_plan = λ s. none;
  decode_subscriber = λ s. none;
  decode_status = λ s. none;
  decode_usage = λ s. none;
  decode_url = λ s. none;
  webhook = new_client;
  network = open_network;
  shell = λ line. ([], none);
  join = λ s. s;
  write_file = λ path contents. true;
  clean = λ s. (s, []);
  moved_status = 301;
  moved_url = λ path query. ([], []);
  expose = λ m. [];
}

abbrev server : Server MemoryStore
server = record { world = one_world; metrics = new_metrics; log = [] }

abbrev request_for : Str → List Str → List (Str × Str) → Request
request_for method path headers = record {
  method = method;
  path = path;
  query = [];
  headers = headers;
  body = [];
  request_id = [];
}

abbrev plans_path : List Str
plans_path = lit "v1" ∷ lit "plans" ∷ []

-- /v1//plans, /v1/./plans and /x/../v1/ are not clean.
clean_paths :
    (clean_path (lit "v1" ∷ [] ∷ lit "plans" ∷ []) ≡ plans_path)
    × (clean_path (lit "v1" ∷ lit "." ∷ lit "plans" ∷ []) ≡ plans_path)
    × (clean_path (lit "x" ∷ lit ".." ∷ lit "v1" ∷ [] ∷ []) ≡ lit "v1" ∷ [] ∷ [])
    × (clean_path (lit ".." ∷ []) ≡ [] ∷ [])
unfolding clean_path clean_onto str_eq is_empty
clean_paths = (refl, refl, refl, refl)

abbrev keyless : Request
keyless = request_for (lit "GET") plans_path []

abbrev keyed : Request
keyed = request_for (lit "GET") plans_path ((lit "Authorization", lit "Bearer secret") ∷ [])

abbrev list_route : Route
list_route = record {
  method = lit "GET";
  segments = fixed (lit "v1") ∷ fixed (lit "plans") ∷ [];
  needs_key = true;
  endpoint = plan_list;
}

get_plans-found :
    (headers : List (Str × Str))
    → find_handler (request_for (lit "GET") plans_path headers) ≡ found list_route []
unfolding find_handler is_moved clean_path clean_onto same_path is_empty find_route routes str_eq
get_plans-found headers = refl

keyless-verdict :
    verdict deps.md5_hex deps.api_key (get (lit "Authorization") keyless.headers) ≢ admitted
unfolding verdict my_demo_app.Text.is_empty my_demo_app.Text.Trim.trim_space
    my_demo_app.Text.has_prefix get str_eq
keyless-verdict h = cc

keyed-verdict :
    verdict deps.md5_hex deps.api_key (get (lit "Authorization") keyed.headers) ≡ admitted
unfolding verdict my_demo_app.Text.is_empty my_demo_app.Text.Trim.trim_space
    my_demo_app.Text.has_prefix get str_eq
keyed-verdict = refl

is_simple : str_eq (lit "GET") (lit "OPTIONS") ≡ false
unfolding str_eq
is_simple = refl

new_router-v1_example :
    let out = new_router deps keyless server in
    let status = (deliver (out.0.calls)).status in
    (((is_moved keyless ≡ true) × (status ≡ 301))
      ⊎ ((is_moved keyless ≡ false) × (400 ≤ status) × (status < 500)))
    × (out.1.world ≡ server.world)
new_router-v1_example =
    new_router-v1 deps keyless (lit "plans" ∷ []) server is_simple refl keyless-verdict

new_router-admitted_example :
    let out = new_router deps keyed server in
    let p = handler_of deps plan_list [] (tagged deps keyed) (count inc_in_flight server) in
    ((deliver (out.0.calls)).status ≡ (deliver (p.0)).status)
    × ((deliver (out.0.calls)).body ≡ (deliver (p.0)).body)
    × (out.1.world ≡ p.1.world)
new_router-admitted_example =
    new_router-admitted deps keyed list_route [] server is_simple
      (get_plans-found ((lit "Authorization", lit "Bearer secret") ∷ [])) (inr keyed-verdict)

new_router-counted_example :
    let out = new_router deps keyed server in
    let status = (deliver (out.0.calls)).status in
    (out.1.metrics.http_in_flight ≡ server.metrics.http_in_flight)
    × ((method pattern label : Str)
        → out.1.metrics.http_requests_total method pattern label
          ≡ server.metrics.http_requests_total method pattern label
            + (if str_eq method (lit "GET")
                  && str_eq pattern (pattern_text list_route)
                  && str_eq label (status_label status)
                then 1
                else 0))
new_router-counted_example =
    new_router-counted deps keyed list_route [] server is_simple
      (get_plans-found ((lit "Authorization", lit "Bearer secret") ∷ []))

reset-unguarded_example :
    let out =
      new_router deps (request_for (lit "POST") (lit "admin" ∷ lit "reset" ∷ []) []) server in
    ((deliver (out.0.calls)).status ≡ 200)
    × (out.1.world ≡ record { store = new_memory_store; id_counter = server.world.id_counter })
reset-unguarded_example =
    reset-unguarded deps same_case (request_for (lit "POST") (lit "admin" ∷ lit "reset" ∷ []) [])
      server refl refl refl

-- A service whose bodies decode as the basic plan.
abbrev planning : Deps MemoryStore
planning = record deps {
  decode_plan = λ s. some (record {
    name = basic.name;
    monthly_price_cents = basic.monthly_price_cents;
    included_voice_minutes = basic.included_voice_minutes;
    included_data_mb = basic.included_data_mb;
    included_sms = basic.included_sms;
    overage_voice_cents = basic.overage_voice_cents;
    overage_data_cents_per_mb = basic.overage_data_cents_per_mb;
    overage_sms_cents = basic.overage_sms_cents;
  });
}

abbrev plan_request : Request
plan_request = request_for (lit "POST") plans_path ((lit "Authorization", lit "Bearer secret") ∷ [])

abbrev fresh_server : Server MemoryStore
fresh_server = record { world = fresh_world; metrics = new_metrics; log = [] }

new_router-IsStep_example :
    IsStep
      (memory_store same_case)
      fresh_world
      ((new_router planning plan_request fresh_server).1.world)
new_router-IsStep_example = new_router-IsStep planning plan_request fresh_server

Served-IsIssued_example :
    (m : ℕ) × (m ≤ 1)
    × ((new_router planning plan_request fresh_server).1.world.id_counter ≡ pos m)
    × IsIssued m (view ((new_router planning plan_request fresh_server).1.world.store))
Served-IsIssued_example =
    Served-IsIssued (memory_store-IsStore same_case) fresh_world 1
      ((new_router planning plan_request fresh_server).1.world) refl fresh-IsIssued (omega arith)
      (served 0 fresh_server begun planning refl plan_request)
