-- ===== src/Tests/Process.antt =====
-- Runs of cmd/server/main.go, and calls of `nextID` at the same time.
use my_demo_app.Prelude.{
  ℕ, ◌≡◌, ◌↔◌, ◌⊎◌, true, false, Option, none, some, [], ◌∷◌, arith, get_elem?,
}
use my_demo_app.Prelude.Int.{ℤ, pos}
use my_demo_app.Text.{Str, lit}
use my_demo_app.Exec.{Reply, value, error, ok}
use my_demo_app.Config.{Config, load}
use my_demo_app.Observability.{Telemetry, Tracing, init_tracer}
use my_demo_app.Command.{Opened, Wake, run, exit_code, served_out, signalled, open_store}
use my_demo_app.Command.Outcome.{IsClean, run-exit_code}
use my_demo_app.Command.Select
use my_demo_app.Command.Select.{
  ListenEnd, Process, started, ProcessStep, ProcessReaches, ProcessReaches-live,
}
use my_demo_app.Subscriber.Service.Interleaved
use my_demo_app.Subscriber.Service.Interleaved.{
  Call, Calls, CallsReach, Within, drawn-Within, CallsReach-same,
}
use my_demo_app.Store.Sqlite.Tables.{Tables}
use my_demo_app.Tests.Fixtures.{same_case}
use my_demo_app.Tests.Driver.{demo}

abbrev defaults : Config
defaults = load (λ s. none) (λ name. none)

abbrev telemetry : Telemetry Str Str
telemetry = record {
  stdout_exporter = value (lit "stdout");
  otlp_exporter = λ endpoint. value endpoint;
  merged_resource = λ name. value name;
}

abbrev no_file : Str → Reply Tables
no_file dsn = error (lit "no such file")

run-exit_code_example :
    let ended = run same_case demo no_file telemetry (value tt) (served_out none) defaults in
    let tracer = init_tracer telemetry defaults.otlp_endpoint in
    ((exit_code ended ≡ 0) ↔ (
      ((t : Tracing Str Str) × (tracer ≡ value t))
      × ((st : Opened Tables) × (open_store demo no_file defaults ≡ ok st))
      × IsClean (served_out none)))
    × ((ended.flushed ≡ true) ↔ ((t : Tracing Str Str) × (tracer ≡ value t)))
run-exit_code_example =
    run-exit_code same_case demo no_file telemetry (value tt) (served_out none) defaults

ProcessReaches-live_example :
    (started.listening ≡ true
      → (e : ListenEnd) → (q : Process) × ProcessStep started q × (q.listening ≡ false))
    × (started.woken ≡ none
        → (started.listening ≡ false) ⊎ (started.signal_came ≡ true)
        → (q : Process) × (w : Wake) × ProcessStep started q × (q.woken ≡ some w))
    × ((e : Option Str) → started.woken ≡ some (served_out e) → started.listening ≡ false)
    × ((r : Reply (Unit {0})) → started.woken ≡ some (signalled r) → started.signal_came ≡ true)
ProcessReaches-live_example = ProcessReaches-live started Select.begun

abbrev three_calls : Calls
three_calls = record {
  id_counter = pos 4;
  calls = Interleaved.entered ∷ Interleaved.entered ∷ Interleaved.entered ∷ [];
}

drawn-Within_example :
    Within 4 7 three_calls.id_counter
    × ((i : ℕ) (z : ℤ) → get_elem? three_calls.calls i ≡ some (Interleaved.drawn z) → Within 5 7 z)
drawn-Within_example = drawn-Within 4 3 three_calls (omega arith) Interleaved.all_entered

CallsReach-same_example :
    (c : Calls) × CallsReach 4 2 c
    × (c.calls ≡ Interleaved.drawn (pos 5) ∷ Interleaved.drawn (pos 5) ∷ [])
CallsReach-same_example = CallsReach-same 4 (omega arith)
