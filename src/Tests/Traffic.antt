-- ===== src/Tests/Traffic.antt =====
-- Runs of cmd/loadgen/main.go against a network that answers every request.
use native.Mathlib.Nat.{mod-lt}
use my_demo_app.Prelude.{ℕ, ◌+◌, ◌%◌, ◌<◌, ◌≡◌, refl, [], ◌∷◌, arith, length}
use my_demo_app.Prelude.Int.{pos}
use my_demo_app.Text.{lit}
use my_demo_app.Exec.{value}
use my_demo_app.Loadgen.{Config, default_config, no_stats, add_total, add_outcome, Outside}
use my_demo_app.Loadgen.Run.{Shared}
use my_demo_app.Loadgen.Counters.{Counted, Counted-exact}
use my_demo_app.Loadgen.Counters
use my_demo_app.Loadgen.Running.{IsSource, IsSound}
use my_demo_app.Loadgen.Reached.{Load, Reaches, Reaches-IsSound}
use my_demo_app.Loadgen.Reached

-- The network counts its requests; the generator counts its draws.
abbrev online : Outside ℕ ℕ
online = record {
  marshal = λ body. value (lit "{}");
  new_request = λ method url. value tt;
  send = λ message sends. (value (record { status = pos 201; body = lit "{}" }), sends + 1);
  decode_id = λ body. lit "id_1";
  now_text = λ sends. lit "2025-01-10T00:00:00Z";
  intn = λ n draws. (draws % n, draws + 1);
}

online-IsSource : IsSource online
online-IsSource n draws positive = mod-lt draws positive

abbrev settings : Config
settings = record (default_config (pos 7)) { rps = pos 20 }

abbrev idle : Shared ℕ
idle = record { session = record { net = 0; stats = no_stats; log = [] }; pool = [] }

Counted-exact_example :
    (fine client server failed : ℕ) × ((add_outcome
        (value (pos 404))
        (add_total (add_total no_stats))).total
      ≡ pos 2)
    × ((add_outcome (value (pos 404)) (add_total (add_total no_stats))).ok_count ≡ pos fine)
    × ((add_outcome (value (pos 404)) (add_total (add_total no_stats))).client_4xx ≡ pos client)
    × ((add_outcome (value (pos 404)) (add_total (add_total no_stats))).server ≡ pos server)
    × ((add_outcome (value (pos 404)) (add_total (add_total no_stats))).errored ≡ pos failed)
    × (fine + client + server + failed + 1 ≡ 2)
Counted-exact_example =
    Counted-exact
      (Counters.ended (value (pos 404)) (Counters.begun (Counters.begun Counters.started)))
      (omega arith)

abbrev two_workers : Load ℕ ℕ
two_workers = record { shared = idle; rnds = 3 ∷ 5 ∷ [] }

Reaches-IsSound_example :
    IsSound two_workers.shared
    × (length two_workers.rnds ≡ length two_workers.rnds)
    × ((i : ℕ)
        → i < length two_workers.rnds
        → (l' : Load ℕ ℕ) × Reaches online settings (lit "id_1" ∷ []) two_workers 1 l')
Reaches-IsSound_example =
    Reaches-IsSound online settings (lit "id_1") [] two_workers two_workers 0 online-IsSource
      (record { balanced = refl; filled = tt }) Reached.begun
