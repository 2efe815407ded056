-- ===== src/Http/Router/Layers.antt =====
-- internal/httpapi/router.go: a request on its way through all layers.
use my_demo_app.Prelude.{Bool-cases, inl, inr}
use my_demo_app.Http.Router.{
  find_handler, is_moved, moved, Deps, Route, pattern_text, routes, match_path, takes_method,
  choose, find_route, handler_of, registered, mux, new_router, no_path, wrong_method, found,
}
use my_demo_app.Prelude.{◌≡◌, refl, ap, ◌∙◌, true, false, none, List, [], ◌∷◌, ◌++◌, if◌then◌else◌}
use my_demo_app.Text.{Str, lit, str_eq, is_empty}
use my_demo_app.Metrics.{observe_request, inc_in_flight, dec_in_flight}
use my_demo_app.Http.{Request, get, Call, deliver, Server, Handler, count, set_header}
use my_demo_app.Http.Auth.{api_key_middleware}
use my_demo_app.Http.Middleware.{
  final_status, cors_headers, chain, request_id, logging, metrics, recover, cors,
}

module _ {S : Type 0} (d : Deps S) where
  abbrev pub tag : Request → Str
  tag r =
      let given = get (lit "X-Request-ID") r.headers in
      if is_empty given then d.random_id else given

  abbrev pub tagged : Request → Request
  tagged r = record r { request_id = tag r }

  find_route-tagged :
      (id : Str) (r : Request) (rs : List Route)
      → find_route (record r { request_id = id }) rs ≡ find_route r rs
  unfolding find_route
  find_route-tagged id r [] = refl
  find_route-tagged id r (route ∷ rest) =
      ap (choose (match_path route.segments r.path) (takes_method route.method r.method) route)
        (find_route-tagged id r rest)

  find_handler-tagged :
      (id : Str) (r : Request) → find_handler (record r { request_id = id }) ≡ find_handler r
  unfolding find_handler is_moved
  find_handler-tagged id r =
      ap (λ at. if is_moved r then moved else at) (find_route-tagged id r routes)

  -- What the layer of the key lets the handler do.
  abbrev pub guarded : Route → Str → Handler S
  guarded route id =
      let h = handler_of d route.endpoint id in
      if route.needs_key then api_key_middleware d.md5_hex d.api_key h else h

  -- The headers that come before the handler's calls.
  abbrev pub leading : Request → List Call
  leading r = set_header (lit "X-Request-ID") (tag r) ∷ cors_headers

  abbrev pub counted : Route → Request → List Call × Server S → Server S
  counted route r p =
      count dec_in_flight
        (count (observe_request (pattern_text route) r.method (final_status (p.0))) (p.1))

  mux_found :
      (r : Request) (route : Route) (id : Str) (sv : Server S)
      → find_handler r ≡ found route id
      → let p = guarded route id (tagged r) (count inc_in_flight sv) in
        mux d (tagged r) sv ≡ (record { calls = p.0; panic = none }, counted route r p)
  unfolding mux registered metrics
  mux_found r route id sv at =
      let here : find_handler (tagged r) ≡ found route id = find_handler-tagged (tag r) r ∙ at in
      rw here refl

  pub new_router-routed :
      (r : Request) (route : Route) (id : Str) (sv : Server S)
      → str_eq r.method (lit "OPTIONS") ≡ false
      → find_handler r ≡ found route id
      → let p = guarded route id (tagged r) (count inc_in_flight sv) in
        let out = new_router d r sv in
        (out.0.calls ≡ leading r ++ p.0)
        × (out.0.panic ≡ none)
        × (out.1.world ≡ p.1.world)
        × (out.1.metrics ≡ (counted route r p).metrics)
  unfolding new_router chain request_id logging recover cors
  new_router-routed r route id sv simple at =
      rw (simple, mux_found r route id sv at) (refl, refl, refl, refl)

  -- A path that no route has gets a 404.
  pub new_router-no_path :
      (r : Request) (sv : Server S)
      → str_eq r.method (lit "OPTIONS") ≡ false
      → find_handler r ≡ no_path
      → let out = new_router d r sv in
        ((deliver (out.0.calls)).status ≡ 404) × (out.1.world ≡ sv.world)
  unfolding new_router chain request_id logging recover cors mux deliver
  new_router-no_path r sv simple at =
      let here : find_handler (tagged r) ≡ no_path = find_handler-tagged (tag r) r ∙ at in
      rw (simple, here) (refl, refl)

  -- A path that is not clean gets a redirect.
  pub new_router-moved :
      (r : Request) (sv : Server S)
      → str_eq r.method (lit "OPTIONS") ≡ false
      → find_handler r ≡ moved
      → let out = new_router d r sv in
        ((deliver (out.0.calls)).status ≡ d.moved_status) × (out.1.world ≡ sv.world)
  unfolding new_router chain request_id logging recover cors mux deliver
  new_router-moved r sv simple at =
      let here : find_handler (tagged r) ≡ moved = find_handler-tagged (tag r) r ∙ at in
      elim (Bool-cases (str_eq r.method (lit "GET"))) [
        | inl get ↦ rw (simple, here, get) (refl, refl)
        | inr other ↦ elim (Bool-cases (str_eq r.method (lit "HEAD"))) [
          | inl head ↦ rw (simple, here, other, head) (refl, refl)
          | inr neither ↦ rw (simple, here, other, neither) (refl, refl)
        ]
      ]

  -- A path whose routes have other methods gets a 405.
  pub new_router-wrong_method :
      (r : Request) (sv : Server S)
      → str_eq r.method (lit "OPTIONS") ≡ false
      → find_handler r ≡ wrong_method
      → let out = new_router d r sv in
        ((deliver (out.0.calls)).status ≡ 405) × (out.1.world ≡ sv.world)
  unfolding new_router chain request_id logging recover cors mux deliver
  new_router-wrong_method r sv simple at =
      let here : find_handler (tagged r) ≡ wrong_method = find_handler-tagged (tag r) r ∙ at in
      rw (simple, here) (refl, refl)

  -- A request with the method OPTIONS gets a 204, reaches no handler, and leaves the process and
  -- the collectors as they are.
  pub new_router-preflight :
      (r : Request) (sv : Server S)
      → str_eq r.method (lit "OPTIONS") ≡ true
      → let out = new_router d r sv in
        ((deliver (out.0.calls)).status ≡ 204)
        × (out.0.panic ≡ none)
        × (out.1.world ≡ sv.world)
        × (out.1.metrics ≡ sv.metrics)
  unfolding new_router chain request_id logging recover cors deliver
  new_router-preflight r sv options = rw options (refl, refl, refl, refl)
