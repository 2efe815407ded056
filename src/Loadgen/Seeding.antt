-- ===== src/Loadgen/Seeding.antt =====
-- cmd/loadgen/main.go: `run` up to the start of the workers.
use my_demo_app.Prelude.{
  ◌/◌, ◌*◌, ◌+◌, ◌<◌, sym, ap, ◌∙◌, ==_iff, length-append, ℕ, ◌+◌, ◌*◌, ◌/◌, ◌≤◌, ◌<◌, sym, ap, ◌∙◌,
  List, ◌∷◌, ==_iff, length, length-append,
}
use my_demo_app.Prelude.Int.{ℤ, pos_part, ◌≤ℤ◌, pos}
use my_demo_app.Text.{Str}
use my_demo_app.Loadgen.{no_stats, Config, no_stats, Session}
use my_demo_app.Loadgen.Counters.{IsBalanced}
use my_demo_app.Loadgen.Run.{Start, no_plan, ready, Shared}
use my_demo_app.Loadgen.Running.{AllFilled, IsSound}

-- The ticker's pace and the number of workers for a rate that passed the checks.
pub record IsPaced (rps : ℤ) (pace : ℕ) (workers : ℤ) : Type 0 where
  pub some_pace : 1 ≤ pace
  -- Up to the rounding, `rps` ticks in a second.
  pub close :
      pos_part rps ≤ 1_000_000_000
      → (pace * pos_part rps ≤ 1_000_000_000) × (1_000_000_000 < pace * pos_part rps + pos_part rps)
  pub at_least_one : pos 1 ≤ℤ workers
  pub at_most : workers ≤ℤ pos 32
  pub no_more_than : workers ≤ℤ rps

-- How `run` may begin: no request for a plan gave an ID, or the workers start, with one to three
-- plans and up to five subscribers.
pub data Beginning {N : Type 0} (cfg : Config) : Start N → Type 0 where
  without_plan :
      (message : Str) (s : Session N) → IsBalanced 0 s.stats → Beginning cfg (no_plan message s)
  with_workers :
      (plan : Str) (plan_ids : List Str) (pace : ℕ) (workers : ℤ) (s : Shared N)
      → AllFilled (plan ∷ plan_ids)
      → length (plan ∷ plan_ids) ≤ 3
      → IsSound s
      → length s.pool ≤ 5
      → IsPaced cfg.rps pace workers
      → Beginning cfg (ready (plan ∷ plan_ids) pace workers s)
