-- ===== src/Command/Outcome.antt =====
-- cmd/server/main.go: how the server ends, by what happens to it.
use my_demo_app.Prelude.{ℕ, ◌≡◌, refl, ◌↔◌, true, none, some, List, [], ◌∷◌, arith}
use my_demo_app.Text.{Str}
use my_demo_app.Exec.{Reply, value, error, Error, Result, ok, err}
use my_demo_app.Config.{Config}
use my_demo_app.Observability.{Telemetry, Tracing, init_tracer, Level, init_logger}
use my_demo_app.Store.Driver.{Driver}
use my_demo_app.Command.{
  deferred, waken, with_tracer, Entry, starting_line, Wake, served_out, signalled, exit_code, run,
  Opened, open_store,
}

-- The listener was closed, or the shutdown behind a signal went well.
abbrev pub IsClean : Wake → Type 0
IsClean (served_out none) = Unit
IsClean (signalled (value u)) = Unit
IsClean _ = ⊥

waken-IsClean :
    (level : Level) (cfg : Config) (flush : Reply (Unit {0})) (wake : Wake)
    → ((exit_code (waken level cfg flush wake) ≡ 0) ↔ IsClean wake)
      × ((waken level cfg flush wake).flushed ≡ true)
unfolding exit_code
waken-IsClean level cfg (value u) (served_out none) = ((λ e. tt, λ c. refl), refl)
waken-IsClean level cfg (error f) (served_out none) = ((λ e. tt, λ c. refl), refl)
waken-IsClean level cfg (value u) (served_out (some e)) = ((λ h. ground arith, λ c. absurd c), refl)
waken-IsClean level cfg (error f) (served_out (some e)) = ((λ h. ground arith, λ c. absurd c), refl)
waken-IsClean level cfg (value u) (signalled (value v)) = ((λ e. tt, λ c. refl), refl)
waken-IsClean level cfg (error f) (signalled (value v)) = ((λ e. tt, λ c. refl), refl)
waken-IsClean level cfg (value u) (signalled (error e)) = ((λ h. ground arith, λ c. absurd c), refl)
waken-IsClean level cfg (error f) (signalled (error e)) = ((λ h. ground arith, λ c. absurd c), refl)

deferred-fails :
    (level : Level) (flush : Reply (Unit {0})) (e : Error) (log : List Entry)
    → (exit_code (deferred level flush (some e) log) ≡ 1)
      × ((deferred level flush (some e) log).flushed ≡ true)
unfolding exit_code
deferred-fails level (value u) e log = (refl, refl)
deferred-fails level (error f) e log = (refl, refl)

with_tracer-exit_code :
    {D T : Type 0} (level : Level) (cfg : Config) (flush : Reply (Unit {0})) (wake : Wake)
    (store : Result (Opened D)) (tracer : Reply T)
    → let ended = with_tracer level cfg flush wake store tracer in
      ((exit_code ended ≡ 0)
        ↔ (((t : T) × (tracer ≡ value t)) × ((st : Opened D) × (store ≡ ok st)) × IsClean wake))
      × ((ended.flushed ≡ true) ↔ ((t : T) × (tracer ≡ value t)))
unfolding exit_code
with_tracer-exit_code level cfg flush wake store (error e) =
    ((λ h. ground arith, λ ((t, is), opened, clean). cc), (λ h. ground arith, λ (t, is). cc))
with_tracer-exit_code level cfg flush wake (err e) (value t) =
    let (one, flushed) = deferred-fails level flush e (starting_line cfg ∷ []) in
    ((λ h. ground arith, λ (made, (st, is), clean). cc), (λ h. (t, refl), λ h. flushed))
with_tracer-exit_code level cfg flush wake (ok st) (value t) =
    let (clean, flushed) = waken-IsClean level cfg flush wake in
    (
      (λ h. ((t, refl), (st, refl), clean.0 h), λ (made, store, c). clean.1 c),
      (λ h. (t, refl), λ h. flushed),
    )

-- The server exits with 0 exactly where the tracer and the store could be set up and the listener
-- was closed or the shutdown behind a signal went well, and the tracer is shut down exactly where
-- it was set up, on every path.
pub run-exit_code :
    {D E Res : Type 0} (lower : ℕ → ℕ) (driver : Driver D) (open_db : Str → Reply D)
    (telemetry : Telemetry E Res) (flush : Reply (Unit {0})) (wake : Wake) (cfg : Config)
    → let ended = run lower driver open_db telemetry flush wake cfg in
      let tracer = init_tracer telemetry cfg.otlp_endpoint in
      ((exit_code ended ≡ 0) ↔ (
        ((t : Tracing E Res) × (tracer ≡ value t))
        × ((st : Opened D) × (open_store driver open_db cfg ≡ ok st))
        × IsClean wake))
      × ((ended.flushed ≡ true) ↔ ((t : Tracing E Res) × (tracer ≡ value t)))
unfolding run
run-exit_code lower driver open_db telemetry flush wake cfg =
    with_tracer-exit_code (init_logger lower cfg.log_level) cfg flush wake
      (open_store driver open_db cfg) (init_tracer telemetry cfg.otlp_endpoint)
