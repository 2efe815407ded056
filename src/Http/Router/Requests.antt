-- ===== src/Http/Router/Requests.antt =====
-- internal/httpapi/router.go: what a routed request does to the collectors, and what the key guards.
use my_demo_app.Prelude.Int.{+ℤ_cancel, pos}
use my_demo_app.Prelude.{
  ◌+◌, ◌≡◌, refl, ◌≢◌, ◌⊎◌, inl, inr, true, false, ◌&&◌, if◌then◌else◌, Bool-cases,
}
use my_demo_app.Http.{Request, get, deliver, Server, Handler, count}
use my_demo_app.Http.Auth.{
  Verdict, enforce, verdict, api_key_middleware, no_token, wrong_key, admitted,
}
use my_demo_app.Http.Router.{find_handler, Deps, Route, pattern_text, handler_of, new_router, found}
use my_demo_app.Text.{Str, lit, str_eq}
use my_demo_app.Metrics.{Metrics, status_label, observe_request, inc_in_flight}
use my_demo_app.Http.Middleware.{final_status}
use my_demo_app.Http.Middleware.Sending.{final_status-deliver}
use my_demo_app.Http.Router.Quiet.{IsSame, IsQuiet}
use my_demo_app.Http.Router.Endpoints.{handler_of-IsQuiet}
use my_demo_app.Http.Router.Layers.{tagged, guarded, new_router-routed}

enforce-refused :
    {S : Type 0} (v : Verdict) (next : Handler S) (r : Request) (sv : Server S)
    → v ≢ admitted
    → let p = enforce v next r sv in ((deliver (p.0)).status ≡ 401) × (p.1.world ≡ sv.world)
unfolding deliver
enforce-refused no_token next r sv h = (refl, refl)
enforce-refused wrong_key next r sv h = (refl, refl)
enforce-refused admitted next r sv h = absurd (h refl)

enforce-IsQuiet :
    {S : Type 0} (m : Metrics) (v : Verdict) (next : Handler S) (r : Request) (sv : Server S)
    → IsSame m sv
    → IsQuiet m (next r sv)
    → IsQuiet m (enforce v next r sv)
enforce-IsQuiet m no_token next r sv same h = record {
  once = refl;
  codes = refl;
  same = record { in_flight = same.in_flight; requests = same.requests };
}
enforce-IsQuiet m wrong_key next r sv same h = record {
  once = refl;
  codes = refl;
  same = record { in_flight = same.in_flight; requests = same.requests };
}
enforce-IsQuiet m admitted next r sv same h = h

module _ {S : Type 0} (d : Deps S) where
  guarded-IsQuiet :
      (m : Metrics) (route : Route) (id : Str) (r : Request) (sv : Server S)
      → IsSame m sv
      → IsQuiet m (guarded d route id r sv)
  unfolding api_key_middleware
  guarded-IsQuiet m route id r sv same =
      let h = handler_of-IsQuiet d m route.endpoint id r sv same in
      elim (Bool-cases route.needs_key) [
        | inl guard ↦ rw guard (
            enforce-IsQuiet m (verdict d.md5_hex d.api_key (get (lit "Authorization") r.headers))
              (handler_of d route.endpoint id) r sv same h)
        | inr free ↦ rw free h
      ]

  -- A request that is no preflight and finds its route leaves the gauge of requests in flight as it
  -- was and adds one to the request counter at its method, the route's pattern and the class of the
  -- status that the client receives, and nothing elsewhere.
  pub new_router-counted :
      (r : Request) (route : Route) (id : Str) (sv : Server S)
      → str_eq r.method (lit "OPTIONS") ≡ false
      → find_handler r ≡ found route id
      → let out = new_router d r sv in
        let status = (deliver (out.0.calls)).status in
        (out.1.metrics.http_in_flight ≡ sv.metrics.http_in_flight)
        × ((method pattern label : Str)
            → out.1.metrics.http_requests_total method pattern label
              ≡ sv.metrics.http_requests_total method pattern label
                + (if str_eq method r.method
                      && str_eq pattern (pattern_text route)
                      && str_eq label (status_label status)
                    then 1
                    else 0))
  unfolding observe_request deliver
  new_router-counted r route id sv simple at =
      let sv' = count inc_in_flight sv in
      let p = guarded d route id (tagged d r) sv' in
      let h =
        guarded-IsQuiet sv'.metrics route id (tagged d r) sv'
          (record { in_flight = refl; requests = refl }) in
      let (calls, _, _, collectors) = new_router-routed d r route id sv simple at in
      let status : final_status (p.0) ≡ (deliver (p.0)).status =
        final_status-deliver (p.0) h.once h.codes in
      rw (calls, collectors)
        (
          rw h.same.in_flight (+ℤ_cancel sv.metrics.http_in_flight (pos 1)),
          λ method pattern label. rw (h.same.requests, status) refl,
        )

  -- Without an admitted key, a request that is no preflight on a route that needs one gets a 401
  -- and leaves the process as it is.
  pub new_router-refused :
      (r : Request) (route : Route) (id : Str) (sv : Server S)
      → str_eq r.method (lit "OPTIONS") ≡ false
      → find_handler r ≡ found route id
      → route.needs_key ≡ true
      → verdict d.md5_hex d.api_key (get (lit "Authorization") r.headers) ≢ admitted
      → let out = new_router d r sv in
        ((deliver (out.0.calls)).status ≡ 401) × (out.1.world ≡ sv.world)
  unfolding api_key_middleware deliver
  new_router-refused r route id sv simple at guard other =
      let (calls, _, world, _) = new_router-routed d r route id sv simple at in
      let v = verdict d.md5_hex d.api_key (get (lit "Authorization") r.headers) in
      let (status, kept) =
        enforce-refused v (handler_of d route.endpoint id) (tagged d r) (count inc_in_flight sv)
          other in
      rw (calls, world, guard) (status, kept)

  -- With an admitted key, or on a route that needs none, a request that is no preflight and finds
  -- its route gets the status and the body of the route's handler, and the process is left as the
  -- handler leaves it.
  pub new_router-admitted :
      (r : Request) (route : Route) (id : Str) (sv : Server S)
      → str_eq r.method (lit "OPTIONS") ≡ false
      → find_handler r ≡ found route id
      → (route.needs_key ≡ false)
        ⊎ (verdict d.md5_hex d.api_key (get (lit "Authorization") r.headers) ≡ admitted)
      → let out = new_router d r sv in
        let p = handler_of d route.endpoint id (tagged d r) (count inc_in_flight sv) in
        ((deliver (out.0.calls)).status ≡ (deliver (p.0)).status)
        × ((deliver (out.0.calls)).body ≡ (deliver (p.0)).body)
        × (out.1.world ≡ p.1.world)
  unfolding api_key_middleware deliver
  new_router-admitted r route id sv simple at allowed =
      let (calls, _, world, _) = new_router-routed d r route id sv simple at in
      elim allowed [
        | inl free ↦ rw (calls, world, free) (refl, refl, refl)
        | inr key ↦ elim (Bool-cases route.needs_key) [
          | inl guard ↦ rw (calls, world, guard, key) (refl, refl, refl)
          | inr free ↦ rw (calls, world, free) (refl, refl, refl)
        ]
      ]
