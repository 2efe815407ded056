-- ===== src/Command.antt =====
-- cmd/server/main.go: the start of the server and its end.
pub mod Select
pub mod Outcome
use my_demo_app.Prelude.{
  ℕ, zero, suc, ◌+◌, ◌-◌, ◌*◌, ◌/◌, ◌%◌, ◌^◌, ◌≤◌, ◌<◌, ◌≡◌, refl, sym, ap, ap₂, ◌∙◌, ◌≡⟨◌⟩◌, ◌∎,
  ◌≢◌, ◌↔◌, ◌⊎◌, inl, inr, Bool, true, false, not, ◌&&◌, ◌||◌, Option, none, some, List, [], ◌∷◌,
  ◌++◌, map, arith, ltb, leb, ◌==◌, if◌then◌else◌, ltb→lt, lt→ltb, leb→le, ==_iff, tests,
  Bool-cases, Option-cases, length, get_elem?, set, length-append, length-set, get_elem?-set_self,
  get_elem?-set_ne, get_or, take, drop, replicate, take-append-drop, length-take, length-drop,
  length-replicate, length-map,
}
use my_demo_app.Text.{Str, lit}
use my_demo_app.Exec.{Reply, value, error, Error, Result, ok, err, failed}
use my_demo_app.Config.{Config, StoreKind, sqlite, memory, new_store}
use my_demo_app.Observability.{
  init_logger, Level, Level, init_logger, Tracing, Telemetry, init_tracer,
}
use my_demo_app.Store.Memory.{MemoryStore, new_memory_store}
use my_demo_app.Store.Driver.{Driver}
use my_demo_app.Store.Sqlite.{new_sqlite_store}

-- The store that `newStore` returns.
pub data Opened (D : Type 0) : Type 0 where
  in_memory : MemoryStore → Opened D
  in_sqlite : D → Opened D

module _ {D : Type 0} (driver : Driver D) (open_db : Str → Reply D) where
  abbrev opened : Result D → Result (Opened D)
  opened (ok d) = ok (in_sqlite d)
  opened (err e) = err e

  abbrev of_kind : Result StoreKind → Result (Opened D)
  of_kind (err e) = err e
  of_kind (ok memory) = ok (in_memory new_memory_store)
  of_kind (ok (sqlite dsn)) = opened (new_sqlite_store driver open_db dsn)

  unfoldable pub open_store : Config → Result (Opened D)
  open_store cfg = of_kind (new_store cfg)

-- What wakes `run` from its `select`: the end of `ListenAndServe`, with its error where that is not
-- `ErrServerClosed`, or a signal, and then the outcome of `srv.Shutdown`.
pub data Wake : Type 0 where
  served_out : Option Str → Wake
  signalled : Reply (Unit {0}) → Wake

-- The lines of the log.
pub data Entry : Type 0 where
  starting : Str → Str → Str → Entry
  draining stopped_cleanly : Entry
  shutdown_failed tracer_shutdown_failed exited : Str → Entry

-- The logger's level, what `run` returns, an error or none, the lines it logged, and whether the
-- tracer was shut down.
pub record Ended : Type 0 where
  pub level : Level
  pub failure : Option Error
  pub log : List Entry
  pub flushed : Bool

abbrev pub starting_line : Config → Entry
starting_line cfg = starting cfg.addr cfg.store cfg.otlp_endpoint

-- The deferred shutdown of the tracer, which runs on every return behind it.
abbrev pub deferred : Level → Reply (Unit {0}) → Option Error → List Entry → Ended
deferred level (value u) failure log = record {
  level = level;
  failure = failure;
  log = log;
  flushed = true;
}
deferred level (error e) failure log = record {
  level = level;
  failure = failure;
  log = log ++ tracer_shutdown_failed e ∷ [];
  flushed = true;
}

abbrev of_text : Option Str → Option Error
of_text none = none
of_text (some e) = some (failed e)

abbrev pub waken : Level → Config → Reply (Unit {0}) → Wake → Ended
waken level cfg flush (served_out e) = deferred level flush (of_text e) (starting_line cfg ∷ [])
waken level cfg flush (signalled (value u)) =
    deferred level flush none (starting_line cfg ∷ draining ∷ stopped_cleanly ∷ [])
waken level cfg flush (signalled (error e)) =
    deferred level flush (some (failed e)) (starting_line cfg ∷ draining ∷ shutdown_failed e ∷ [])

abbrev pub with_store :
    {D : Type 0} → Level → Config → Reply (Unit {0}) → Wake → Result (Opened D) → Ended
with_store level cfg flush wake (err e) = deferred level flush (some e) (starting_line cfg ∷ [])
with_store level cfg flush wake (ok store) = waken level cfg flush wake

-- `flush` is what the tracer's shutdown returns, `wake` what wakes the `select`.
abbrev pub with_tracer :
    {D T : Type 0} → Level → Config → Reply (Unit {0}) → Wake → Result (Opened D) → Reply T → Ended
with_tracer level cfg flush wake store (error e) = record {
  level = level;
  failure = some (failed e);
  log = starting_line cfg ∷ [];
  flushed = false;
}
with_tracer level cfg flush wake store (value tracer) = with_store level cfg flush wake store

-- `lower` is `unicode.ToLower`.
unfoldable pub run :
    {D E Res : Type 0}
    → (ℕ → ℕ)
    → Driver D
    → (Str → Reply D)
    → Telemetry E Res
    → Reply (Unit {0})
    → Wake
    → Config
    → Ended
run lower driver open_db telemetry flush wake cfg =
    with_tracer (init_logger lower cfg.log_level) cfg flush wake (open_store driver open_db cfg)
      (init_tracer telemetry cfg.otlp_endpoint)

-- The exit code of `main`.
unfoldable pub exit_code : Ended → ℕ
exit_code ended = elim ended.failure [ none ↦ 0 | some e ↦ 1 ]
