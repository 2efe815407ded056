-- ===== src/Loadgen/Run.antt =====
-- cmd/loadgen/main.go: the pool of subscribers, the workers, and `run`.
use my_demo_app.Prelude.{
  ℕ, zero, suc, ◌/◌, Option, none, some, List, [], ◌∷◌, ◌++◌, ltb, ◌==◌, if◌then◌else◌,
}
use my_demo_app.Prelude.Int.{ℤ, ltb_ℤ, pos, negsuc}
use my_demo_app.Text.{Str, lit, is_empty}
use my_demo_app.Loadgen.{
  Config, Parsed, no_stats, stats_text, Outside, Session, parsed, help, bad_flag,
}
use my_demo_app.Loadgen.Client.{
  draw, ensure_plan, create_subscriber, add_usage, read_traffic, scenario_traffic,
}

-- What the workers share: the client and the pool of known subscribers.
pub record Shared (N : Type 0) : Type 0 where
  pub session : Session N
  pub pool : List Str

unfoldable pub add_id : Str → List Str → List Str
add_id id ids = if is_empty id then ids else ids ++ id ∷ []

module _ {N R : Type 0} (o : Outside N R) (cfg : Config) where
  -- An ID of the pool, none where it is empty.
  unfoldable pub pick : List Str → R → Option (Option Str × R)
  pick [] rnd = some (none, rnd)
  pick (id ∷ ids) rnd = elim (draw o cfg (id ∷ ids) rnd) [
    | none ↦ none
    | some (word, rnd') ↦ some (some word, rnd')
  ]

  -- After the requests of a worker the pool is as it was.
  abbrev pub keep_pool : Option (R × Session N) → Shared N → Option (R × Shared N)
  keep_pool none s = none
  keep_pool (some (rnd, session)) s = some (rnd, record s { session = session })

  -- The traffic for a picked subscriber.
  abbrev pub on_pick :
      (Str → R → Session N → Option (R × Session N))
      → Option (Option Str × R)
      → Shared N
      → Option (R × Shared N)
  on_pick traffic none s = none
  on_pick traffic (some (none, rnd)) s = some (rnd, s)
  on_pick traffic (some (some id, rnd)) s = keep_pool (traffic id rnd s.session) s

  -- A new subscriber on the plan that was drawn.
  abbrev pub on_plan : Option (Str × R) → Shared N → Option (R × Shared N)
  on_plan none s = none
  on_plan (some (plan, rnd)) s =
      let (id, rnd', session) = create_subscriber o cfg plan rnd s.session in
      some (rnd', record { session = session; pool = add_id id s.pool })

  -- What a worker does on a tick.
  unfoldable pub act : List Str → R → Shared N → Option (R × Shared N)
  act plan_ids rnd s =
      let (n, rnd1) = o.intn 100 rnd in
      if ltb n 15
      then on_plan (draw o cfg plan_ids rnd1) s
      else if ltb n 55
      then on_pick (add_usage o cfg) (pick s.pool rnd1) s
      else if ltb n 90
      then on_pick (read_traffic o cfg) (pick s.pool rnd1) s
      else keep_pool (scenario_traffic o cfg rnd1 s.session) s

  -- The requests for plans before the workers start: the IDs that came.
  unfoldable pub seed_plans : ℕ → R → Session N → List Str × R × Session N
  seed_plans zero rnd s = ([], rnd, s)
  seed_plans (suc n) rnd s =
      let (id, rnd1, s1) = ensure_plan o cfg rnd s in
      let (ids, rnd2, s2) = seed_plans n rnd1 s1 in
      ((if is_empty id then ids else id ∷ ids), rnd2, s2)

  unfoldable pub seed_pool : ℕ → List Str → R → Shared N → Option (R × Shared N)
  seed_pool zero plan_ids rnd s = some (rnd, s)
  seed_pool (suc n) plan_ids rnd s = elim (on_plan (draw o cfg plan_ids rnd) s) [
    | none ↦ none
    | some (rnd', s') ↦ seed_pool n plan_ids rnd' s'
  ]

-- The pace of the ticker in nanoseconds; `none` is the panic of a division by 0.
unfoldable pub interval : ℤ → Option ℕ
interval (pos n) =
    if n == 0
    then none
    else if 1_000_000_000 / n == 0
    then some 1_000_000
    else some (1_000_000_000 / n)
interval (negsuc n) = some 1_000_000

unfoldable pub worker_count : ℤ → ℤ
worker_count rps =
    let most = if ltb_ℤ (pos 32) rps then pos 32 else rps in
    if ltb_ℤ most (pos 1) then pos 1 else most

-- How `run` goes on: it returns an error, panics, or has its workers wait for ticks.
pub data Start (N : Type 0) : Type 0 where
  no_plan : Str → Session N → Start N
  panicked : Start N
  ready : List Str → ℕ → ℤ → Shared N → Start N

module _ {N R : Type 0} (o : Outside N R) (cfg : Config) where
  abbrev pub paced : Option ℕ → List Str → Option (R × Shared N) → Start N
  paced (some pace) plan_ids (some (rnd, s)) = ready plan_ids pace (worker_count cfg.rps) s
  paced _ plan_ids _ = panicked

  abbrev pub seeded : List Str × R × Session N → Start N
  seeded ([], rnd, s) =
      no_plan
        (lit "could not create any plan; is the server up at "
          ++ cfg.base_url
          ++ lit " and is -key correct? ("
          ++ stats_text s.stats
          ++ lit ")")
        s
  seeded (id ∷ ids, rnd, s) =
      paced (interval cfg.rps) (id ∷ ids)
        (seed_pool o cfg 5 (id ∷ ids) rnd (record { session = s; pool = [] }))

  -- `source` is `rand.New(rand.NewSource(seed))`.
  unfoldable pub run : (ℤ → R) → N → Start N
  run source net =
      seeded
        (seed_plans o cfg 3 (source cfg.seed) (record { net = net; stats = no_stats; log = [] }))

-- The exit code of `main`, by what `run` returns for a configuration.
unfoldable pub exit_code : (Config → Option Str) → Parsed → ℕ
exit_code run help = 0
exit_code run (bad_flag e) = 2
exit_code run (parsed cfg) = elim (run cfg) [ none ↦ 0 | some e ↦ 1 ]
