-- ===== src/Loadgen/Running.antt =====
-- cmd/loadgen/main.go: what holds while the workers run, in any order of their ticks.
use mathlib.Core.Path.{subst}
use mathlib.Core.Option.{none-ne-some, some-injective}
use my_demo_app.Prelude.{
  ℕ, ◌<◌, ◌≡◌, refl, ap, inl, inr, Bool, true, false, Option, none, some, List, [], ◌∷◌, ◌++◌, ltb,
  ◌==◌, Bool-cases,
}
use my_demo_app.Text.{Str, is_empty}
use my_demo_app.Exec.{Reply, value, error, Reply-cases}
use my_demo_app.Loadgen.{Config, Body, Answer, Line, Outside, Session, failed_line, status_line}
use my_demo_app.Loadgen.Counters.{IsBalanced, record_outcome-IsBalanced}
use my_demo_app.Loadgen.Client.{
  count, note, received, send_body, perform, ensure_plan, create_subscriber, add_usage,
  read_traffic, scenario_traffic,
}
use my_demo_app.Loadgen.Client.{
  draw_below, draw, kinds, searches, hosts, with_kind, with_search, with_host,
}
use my_demo_app.Loadgen.Run.{keep_pool, Shared, add_id, pick, on_pick, on_plan, act}

-- No ID is empty.
abbrev pub AllFilled : List Str → Type 0
AllFilled [] = Unit
AllFilled (id ∷ ids) = (is_empty id ≡ false) × AllFilled ids

-- What `Intn` promises.
abbrev pub IsSource : {N R : Type 0} → Outside N R → Type 0
IsSource {R = R} o = (n : ℕ) (rnd : R) → 0 < n → (o.intn n rnd).0 < n

pub record IsSound {N : Type 0} (s : Shared N) : Type 0 where
  pub balanced : IsBalanced 0 s.session.stats
  pub filled : AllFilled s.pool

pub append-AllFilled :
    (id : Str) (ids : List Str) → is_empty id ≡ false → AllFilled ids → AllFilled (ids ++ id ∷ [])
append-AllFilled id [] full h = (full, tt)
append-AllFilled id (x ∷ ids) full h = (h.0, append-AllFilled id ids full h.1)

pub add_id-AllFilled : (id : Str) (ids : List Str) → AllFilled ids → AllFilled (add_id id ids)
unfolding add_id
add_id-AllFilled id ids h = elim (Bool-cases (is_empty id)) [
  | inl empty ↦ rw empty h
  | inr full ↦ rw full (append-AllFilled id ids full h)
]

module _ {N R : Type 0} (o : Outside N R) (cfg : Config) where
  note-stats : (b : Bool) (line : Line) (s : Session N) → (note b line s).stats ≡ s.stats
  note-stats true line s = refl
  note-stats false line s = refl

  received-IsBalanced :
      (method path : Str) (wants_out : Bool) (reply : Reply Answer) (s : Session N)
      → IsBalanced 0 s.stats
      → IsBalanced 0 ((received o cfg method path wants_out reply s).1.stats)
  received-IsBalanced method path wants_out (error e) s h =
      rw (note-stats cfg.verbose (failed_line method path e) (count (error e) s))
        (record_outcome-IsBalanced (error e) s.stats h)
  received-IsBalanced method path wants_out (value answer) s h =
      rw
        (note-stats cfg.verbose (status_line method path answer.status)
          (count (value answer.status) s))
        (record_outcome-IsBalanced (value answer.status) s.stats h)

  send_body-IsBalanced :
      (method path : Str) (body : Option Str) (wants_out : Bool) (s : Session N)
      → IsBalanced 0 s.stats
      → IsBalanced 0 ((send_body o cfg method path body wants_out s).1.stats)
  send_body-IsBalanced method path body wants_out s h =
      elim (Reply-cases (o.new_request method (cfg.base_url ++ path))) [
        | inr (e, bad) ↦ rw (send_body, bad) (record_outcome-IsBalanced (error e) s.stats h)
        | inl (u, good) ↦ rw (send_body, good) (received-IsBalanced method path wants_out _ _ h)
      ]

  perform-IsBalanced :
      (method path : Str) (body : Option Body) (wants_out : Bool) (s : Session N)
      → IsBalanced 0 s.stats
      → IsBalanced 0 ((perform o cfg method path body wants_out s).1.stats)
  unfolding perform
  perform-IsBalanced method path none wants_out s h =
      send_body-IsBalanced method path none wants_out s h
  perform-IsBalanced method path (some body) wants_out s h = elim (Reply-cases (o.marshal body)) [
    | inr (e, bad) ↦ rw (perform, bad) (record_outcome-IsBalanced (error e) s.stats h)
    | inl (encoded, good) ↦
        rw (perform, good) (send_body-IsBalanced method path (some encoded) wants_out s h)
  ]

  -- Where the requests of a worker do not panic, they leave the counters in balance.
  abbrev IsKept : Option (R × Session N) → Type 0
  IsKept none = Unit
  IsKept (some (rnd, s)) = IsBalanced 0 s.stats

  with_kind-IsKept :
      (id : Str) (drawn : Option (Str × R)) (s : Session N)
      → IsBalanced 0 s.stats
      → IsKept (with_kind o cfg id drawn s)
  with_kind-IsKept id none s h = tt
  with_kind-IsKept id (some (kind, rnd)) s h = perform-IsBalanced _ _ _ _ s h

  with_search-IsKept :
      (drawn : Option (Str × R)) (s : Session N)
      → IsBalanced 0 s.stats
      → IsKept (with_search o cfg drawn s)
  with_search-IsKept none s h = tt
  with_search-IsKept (some (word, rnd)) s h = perform-IsBalanced _ _ _ _ s h

  with_host-IsKept :
      (drawn : Option (Str × R)) (s : Session N)
      → IsBalanced 0 s.stats
      → IsKept (with_host o cfg drawn s)
  with_host-IsKept none s h = tt
  with_host-IsKept (some (host, rnd)) s h = perform-IsBalanced _ _ _ _ s h

  pub client-IsBalanced :
      (id : Str) (rnd : R) (s : Session N)
      → IsBalanced 0 s.stats
      → IsBalanced 0 ((ensure_plan o cfg rnd s).2.stats)
        × IsBalanced 0 ((create_subscriber o cfg id rnd s).2.stats)
  unfolding ensure_plan create_subscriber
  client-IsBalanced id rnd s h = (perform-IsBalanced _ _ _ _ s h, perform-IsBalanced _ _ _ _ s h)

  traffic-IsKept :
      (id : Str) (rnd : R) (s : Session N)
      → IsBalanced 0 s.stats
      → IsKept (add_usage o cfg id rnd s)
        × IsKept (read_traffic o cfg id rnd s)
        × IsKept (scenario_traffic o cfg rnd s)
  unfolding add_usage read_traffic scenario_traffic
  traffic-IsKept id rnd s h = (
    with_kind-IsKept id (draw o cfg (kinds o cfg) rnd) s h,
    with_search-IsKept (draw_below o cfg 3 (searches o cfg) rnd) _
        (perform-IsBalanced _ _ _ _ _ (perform-IsBalanced _ _ _ _ s h)),
    elim (Bool-cases ((o.intn 2 rnd).0 == 0)) [
      | inl ping ↦
          rw ping (with_host-IsKept (draw_below o cfg 3 (hosts o cfg) (o.intn 2 rnd).1) s h)
      | inr hook ↦ rw hook (perform-IsBalanced _ _ _ _ s h)
    ],
  )

  pub on_plan-IsSound :
      (drawn : Option (Str × R)) (s : Shared N) (rnd' : R) (s' : Shared N)
      → on_plan o cfg drawn s ≡ some (rnd', s')
      → IsSound s
      → IsSound s'
  on_plan-IsSound none s rnd' s' e h = absurd (none-ne-some _ e)
  on_plan-IsSound (some (plan, rnd)) s rnd' s' e h =
      let (id, _, session) = create_subscriber o cfg plan rnd s.session in
      let is : record { session = session; pool = add_id id s.pool } ≡ s' =
        ap (λ (p : R × Shared N). p.1) (some-injective _ _ e) in
      subst IsSound is (record {
        balanced = (client-IsBalanced plan rnd s.session h.balanced).1;
        filled = add_id-AllFilled id s.pool h.filled;
      })

  keep_pool-IsSound :
      (out : Option (R × Session N)) (s : Shared N) (rnd' : R) (s' : Shared N)
      → IsKept out
      → keep_pool o cfg out s ≡ some (rnd', s')
      → IsSound s
      → IsSound s'
  keep_pool-IsSound none s rnd' s' kept e h = absurd (none-ne-some _ e)
  keep_pool-IsSound (some (rnd, session)) s rnd' s' kept e h =
      subst IsSound (ap (λ (p : R × Shared N). p.1) (some-injective _ _ e))
        (record { balanced = kept; filled = h.filled })

  on_pick-IsSound :
      (traffic : Str → R → Session N → Option (R × Session N)) (picked : Option (Option Str × R))
      (s : Shared N) (rnd' : R) (s' : Shared N)
      → ((id : Str) (rnd : R) → IsKept (traffic id rnd s.session))
      → on_pick o cfg traffic picked s ≡ some (rnd', s')
      → IsSound s
      → IsSound s'
  on_pick-IsSound traffic none s rnd' s' kept e h = absurd (none-ne-some _ e)
  on_pick-IsSound traffic (some (none, rnd)) s rnd' s' kept e h =
      subst IsSound (ap (λ (p : R × Shared N). p.1) (some-injective _ _ e)) h
  on_pick-IsSound traffic (some (some id, rnd)) s rnd' s' kept e h =
      keep_pool-IsSound (traffic id rnd s.session) s rnd' s' (kept id rnd) e h

  pub act-IsSound :
      (plan_ids : List Str) (rnd : R) (s : Shared N) (rnd' : R) (s' : Shared N)
      → act o cfg plan_ids rnd s ≡ some (rnd', s')
      → IsSound s
      → IsSound s'
  unfolding act
  act-IsSound plan_ids rnd s rnd' s' e h =
      let (n, rnd1) = o.intn 100 rnd in
      elim (Bool-cases (ltb n 15)) [
        | inl a ↦ on_plan-IsSound (draw o cfg plan_ids rnd1) s rnd' s' (rw a at e) h
        | inr a ↦ elim (Bool-cases (ltb n 55)) [
          | inl b ↦
              on_pick-IsSound (add_usage o cfg) (pick o cfg s.pool rnd1) s rnd' s'
                (λ id r. (traffic-IsKept id r s.session h.balanced).0) (rw (a, b) at e) h
          | inr b ↦ elim (Bool-cases (ltb n 90)) [
            | inl c ↦
                on_pick-IsSound (read_traffic o cfg) (pick o cfg s.pool rnd1) s rnd' s'
                  (λ id r. (traffic-IsKept id r s.session h.balanced).1) (rw (a, b, c) at e) h
            | inr c ↦
                keep_pool-IsSound (scenario_traffic o cfg rnd1 s.session) s rnd' s'
                  ((traffic-IsKept [] rnd1 s.session h.balanced).2) (rw (a, b, c) at e) h
          ]
        ]
      ]
