-- ===== src/Http/Router/Guard.antt =====
-- internal/httpapi/router.go: what of the service the API key guards, and what it leaves open.
use my_demo_app.Prelude.{
  ℕ, ◌≤◌, ◌<◌, ◌≡◌, refl, sym, ap, ◌∙◌, ◌≢◌, ◌⊎◌, inl, inr, Bool, true, false, Option, none, some,
  List, [], ◌∷◌, arith,
}
use my_demo_app.Metrics.{inc_in_flight}
use my_demo_app.Prelude.{Bool-cases}
use my_demo_app.Text.{is_empty}
use my_demo_app.Http.Paths.{clean_path, clean_onto, same_path}
use my_demo_app.Http.Router.{
  is_moved, moved, find_handler, Deps, Route, routes, match_path, takes_method, Found, choose,
  find_route, handler_of, new_router, admin_reset, fixed, no_path, wrong_method, found,
}
use my_demo_app.Http.Router.Layers.{
  tagged, new_router-moved, new_router-no_path, new_router-wrong_method,
}
use my_demo_app.Http.Router.Requests.{new_router-refused, new_router-admitted}
use my_demo_app.Http.{Request, get, deliver, Server, count}
use my_demo_app.Http.Auth.{verdict, admitted}
use my_demo_app.Http.Ops.{handle_admin_reset}
use my_demo_app.Store.Memory.{MemoryStore, memory_store, new_memory_store, reset}
use my_demo_app.Text.{Str, lit, str_eq}
use my_demo_app.Text.{Str, lit, str_eq}
use my_demo_app.Store.Memory.{MemoryStore, new_memory_store, memory_store, reset}
use my_demo_app.Http.Ops.{handle_admin_reset}

-- A route that needs the key, or whose pattern matches no path below /v1.
abbrev IsGuarded : Str × List Str → Route → Type 0
IsGuarded path route =
    (route.needs_key ≡ true) ⊎ (match_path route.segments (path.0 ∷ path.1) ≡ none)

abbrev All : (Route → Type 0) → List Route → Type 0
All P [] = Unit
All P (route ∷ rest) = P route × All P rest

v1-IsGuarded : (rest : List Str) → All (IsGuarded (lit "v1", rest)) routes
unfolding routes match_path str_eq
v1-IsGuarded rest = (
  inr refl,
  (
    inr refl,
    (
      inr refl,
      (
        inl refl,
        (
          inl refl,
          (
            inl refl,
            (
              inl refl,
              (
                inl refl,
                (
                  inl refl,
                  (
                    inl refl,
                    (
                      inl refl,
                      (
                        inl refl,
                        (
                          inl refl,
                          (
                            inl refl,
                            (inl refl, (inl refl, (inl refl, (inl refl, (inr refl, tt))))),
                          ),
                        ),
                      ),
                    ),
                  ),
                ),
              ),
            ),
          ),
        ),
      ),
    ),
  ),
)

pub Found-cases :
    (f : Found)
    → (f ≡ no_path)
      ⊎ (f ≡ wrong_method)
      ⊎ (f ≡ moved)
      ⊎ ((route : Route) × (id : Str) × (f ≡ found route id))
Found-cases no_path = inl refl
Found-cases wrong_method = inr (inl refl)
Found-cases moved = inr (inr (inl refl))
Found-cases (found route id) = inr (inr (inr (route, id, refl)))

choose-found :
    (o : Option Str) (takes : Bool) (q route : Route) (later : Found) (id : Str)
    → choose o takes q later ≡ found route id
    → (later ≡ found route id) ⊎ ((q ≡ route) × (o ≢ none))
choose-found none takes q route later id e = inl e
choose-found (some i) true q route later id e = inr (cc, λ h. cc)
choose-found (some i) false q route no_path id e = cc
choose-found (some i) false q route wrong_method id e = cc
choose-found (some i) false q route moved id e = cc
choose-found (some i) false q route (found p j) id e = inl e

-- What is found is in the table, and matches.
found_guarded :
    (r : Request) (head : Str) (rest : List Str) (rs : List Route) (route : Route) (id : Str)
    → r.path ≡ head ∷ rest
    → All (IsGuarded (head, rest)) rs
    → find_route r rs ≡ found route id
    → route.needs_key ≡ true
unfolding find_route
found_guarded r head rest [] route id path all at = cc
found_guarded r head rest (q ∷ rs) route id path all at =
    elim (choose-found (match_path q.segments r.path) (takes_method q.method r.method) q route
      (find_route r rs) id at) [
        | inl behind ↦ found_guarded r head rest rs route id path (all.1) behind
        | inr (same, hit) ↦ elim (all.0) [
          | inl guard ↦ ap (λ (x : Route). x.needs_key) (sym same) ∙ guard
          | inr off ↦ absurd (hit (ap (match_path q.segments) path ∙ off))
        ]
      ]

choose_not_moved :
    (o : Option Str) (takes : Bool) (q : Route) (later : Found)
    → later ≢ moved
    → choose o takes q later ≢ moved
choose_not_moved none takes q later h e = h e
choose_not_moved (some i) true q later h e = cc
choose_not_moved (some i) false q no_path h e = cc
choose_not_moved (some i) false q wrong_method h e = cc
choose_not_moved (some i) false q moved h e = h e
choose_not_moved (some i) false q (found p j) h e = cc

find_route_not_moved : (r : Request) (rs : List Route) → find_route r rs ≢ moved
unfolding find_route
find_route_not_moved r [] e = cc
find_route_not_moved r (q ∷ rs) e =
    choose_not_moved (match_path q.segments r.path) (takes_method q.method r.method) q
      (find_route r rs) (find_route_not_moved r rs) e

find_handler-find_route : (r : Request) → is_moved r ≡ false → find_handler r ≡ find_route r routes
unfolding find_handler
find_handler-find_route r stays = rw stays refl

find_handler-moved : (r : Request) → is_moved r ≡ true → find_handler r ≡ moved
unfolding find_handler
find_handler-moved r moves = rw moves refl

module _ {S : Type 0} (d : Deps S) where
  -- Without an admitted key, every request below /v1 but a preflight leaves the store and the
  -- counter of IDs as they are: where its path is not clean (an empty segment before the end, . or
  -- ..) and its method is not CONNECT it gets the status of net/http's redirect, and any other gets
  -- a status from 400 to 499.
  pub new_router-v1 :
      (r : Request) (rest : List Str) (sv : Server S)
      → str_eq r.method (lit "OPTIONS") ≡ false
      → r.path ≡ lit "v1" ∷ rest
      → verdict d.md5_hex d.api_key (get (lit "Authorization") r.headers) ≢ admitted
      → let out = new_router d r sv in
        let status = (deliver (out.0.calls)).status in
        (((is_moved r ≡ true) × (status ≡ d.moved_status))
          ⊎ ((is_moved r ≡ false) × (400 ≤ status) × (status < 500)))
        × (out.1.world ≡ sv.world)
  new_router-v1 r rest sv simple path other = elim (Bool-cases (is_moved r)) [
    | inl moves ↦
        let (status, world) = new_router-moved d r sv simple (find_handler-moved r moves) in
        (inl (moves, status), world)
    | inr stays ↦
        let same = find_handler-find_route r stays in
        elim (Found-cases (find_route r routes)) [
          | inl lost ↦
              let (status, world) = new_router-no_path d r sv simple (same ∙ lost) in
              (inr (stays, omega arith, omega arith), world)
          | inr (inl lost) ↦
              let (status, world) = new_router-wrong_method d r sv simple (same ∙ lost) in
              (inr (stays, omega arith, omega arith), world)
          | inr (inr (inl never)) ↦ absurd (find_route_not_moved r routes never)
          | inr (inr (inr (route, id, at))) ↦
              let guard =
                found_guarded r (lit "v1") rest routes route id path (v1-IsGuarded rest) at in
              let (status, world) =
                new_router-refused d r route id sv simple (same ∙ at) guard other in
              (inr (stays, omega arith, omega arith), world)
        ]
  ]

abbrev reset_route : Route
reset_route = record {
  method = lit "POST";
  segments = fixed (lit "admin") ∷ fixed (lit "reset") ∷ [];
  needs_key = false;
  endpoint = admin_reset;
}

reset_found :
    (r : Request)
    → r.method ≡ lit "POST"
    → r.path ≡ lit "admin" ∷ lit "reset" ∷ []
    → find_handler r ≡ found reset_route []
unfolding find_handler is_moved clean_path clean_onto same_path is_empty find_route routes
    match_path takes_method str_eq
reset_found r method path = rw (method, path) refl

reset_reply :
    (d : Deps MemoryStore) (lower : ℕ → ℕ) (r : Request) (sv : Server MemoryStore)
    → d.store ≡ memory_store lower
    → let p = handler_of d admin_reset [] r sv in
      ((deliver (p.0)).status ≡ 200)
      × (p.1.world ≡ record { store = new_memory_store; id_counter = sv.world.id_counter })
unfolding handler_of handle_admin_reset memory_store reset deliver
reset_reply d lower r sv store = rw store (refl, refl)

-- With any headers, so without a key too, POST /admin/reset over the in-memory store gets a 200 and
-- leaves an empty store, with the counter of IDs as it was.
pub reset-unguarded :
    (d : Deps MemoryStore) (lower : ℕ → ℕ) (r : Request) (sv : Server MemoryStore)
    → d.store ≡ memory_store lower
    → r.method ≡ lit "POST"
    → r.path ≡ lit "admin" ∷ lit "reset" ∷ []
    → let out = new_router d r sv in
      ((deliver (out.0.calls)).status ≡ 200)
      × (out.1.world ≡ record { store = new_memory_store; id_counter = sv.world.id_counter })
unfolding str_eq
reset-unguarded d lower r sv store method path =
    let simple : str_eq r.method (lit "OPTIONS") ≡ false = rw method refl in
    let (status, _, world) =
      new_router-admitted d r reset_route [] sv simple (reset_found r method path) (inl refl) in
    let (replied, emptied) = reset_reply d lower (tagged d r) (count inc_in_flight sv) store in
    (status ∙ replied, world ∙ emptied)
