-- ===== src/Loadgen.antt =====
-- cmd/loadgen/main.go: the flags, the counters, and the client's state.
pub mod Client
pub mod Counters
pub mod Run
pub mod Running
pub mod Panics
pub mod Reached
pub mod Seeding
use my_demo_app.Prelude.{
  ℕ, zero, suc, ◌+◌, ◌-◌, ◌*◌, ◌/◌, ◌%◌, ◌^◌, ◌≤◌, ◌<◌, ◌≡◌, refl, sym, ap, ap₂, ◌∙◌, ◌≡⟨◌⟩◌, ◌∎,
  ◌≢◌, ◌↔◌, ◌⊎◌, inl, inr, Bool, true, false, not, ◌&&◌, ◌||◌, Option, none, some, List, [], ◌∷◌,
  ◌++◌, map, arith, ltb, leb, ◌==◌, if◌then◌else◌, ltb→lt, lt→ltb, leb→le, ==_iff, tests,
  Bool-cases, Option-cases, length, get_elem?, set, length-append, length-set, get_elem?-set_self,
  get_elem?-set_ne, get_or, take, drop, replicate, take-append-drop, length-take, length-drop,
  length-replicate, length-map,
}
use my_demo_app.Prelude.Int.{
  ℤ, pos_part, neg_part, sub_ℕ, ◌+ℤ◌, ◌-ℤ◌, ◌*ℤ◌, ◌≤ℤ◌, ltb_ℤ, equal_ℤ, +ℤ_comm, +ℤ_assoc,
  +ℤ_cancel, ≤ℤ_total, +ℤ_parts, -ℤ_parts, eq_of_parts, int_laws, +ℤ_mono, pos, negsuc,
}
use my_demo_app.Word.{add64}
use my_demo_app.Text.{Str, lit, is_empty}
use my_demo_app.Text.Decimal.{itoa}
use my_demo_app.Exec.{Result, Reply, failed, ok, err, value, error}

-- Durations are in nanoseconds.
pub record Config : Type 0 where
  pub base_url : Str
  pub api_key : Str
  pub rps : ℤ
  pub duration : ℤ
  pub timeout : ℤ
  pub seed : ℤ
  pub verbose : Bool

-- The values of the flags that are not given; `now` is `time.Now().UnixNano()`.
abbrev pub default_config : ℤ → Config
default_config now = record {
  base_url = lit "http://localhost:8080";
  api_key = lit "vois-demo-secret-key";
  rps = pos 10;
  duration = pos 30_000_000_000;
  timeout = pos 10_000_000_000;
  seed = now;
  verbose = false;
}

-- What may come of the flags: a configuration, or what keeps the program from running.
pub data Parsed : Type 0 where
  parsed : Config → Parsed
  help : Parsed
  bad_flag : Str → Parsed

-- The checks behind `fs.Parse`. `show` is the `%s` of a duration.
unfoldable pub check_flags : (ℤ → Str) → Config → Parsed
check_flags show c =
    if not (ltb_ℤ (pos 0) c.rps)
    then bad_flag (lit "-rps must be > 0, got " ++ itoa c.rps)
    else if not (ltb_ℤ (pos 0) c.duration)
    then bad_flag (lit "-duration must be > 0, got " ++ show c.duration)
    else if is_empty c.base_url
    then bad_flag (lit "-url must not be empty")
    else parsed c

abbrev checked : (ℤ → Str) → Parsed → Parsed
checked show (parsed c) = check_flags show c
checked show help = help
checked show (bad_flag e) = bad_flag e

-- `parse` is `fs.Parse` on a flag set with the given defaults.
unfoldable pub parse_flags : (Config → List Str → Parsed) → (ℤ → Str) → ℤ → List Str → Parsed
parse_flags parse show now args = checked show (parse (default_config now) args)

pub record Stats : Type 0 where
  pub total : ℤ
  pub ok_count : ℤ
  pub client_4xx : ℤ
  pub server : ℤ
  pub errored : ℤ

abbrev pub no_stats : Stats
no_stats = record {
  total = pos 0;
  ok_count = pos 0;
  client_4xx = pos 0;
  server = pos 0;
  errored = pos 0;
}

abbrev pub between : ℤ → ℤ → ℤ → Bool
between low status high = not (ltb_ℤ status low) && ltb_ℤ status high

-- The two increments of `record`: the total, then the counter of the outcome, the status or an error.
unfoldable pub add_total : Stats → Stats
add_total s = record s { total = add64 s.total (pos 1) }

unfoldable pub add_outcome : Reply ℤ → Stats → Stats
add_outcome (error e) s = record s { errored = add64 s.errored (pos 1) }
add_outcome (value status) s =
    if between (pos 200) status (pos 300)
    then record s { ok_count = add64 s.ok_count (pos 1) }
    else if between (pos 400) status (pos 500)
    then record s { client_4xx = add64 s.client_4xx (pos 1) }
    else record s { server = add64 s.server (pos 1) }

abbrev pub record_outcome : Reply ℤ → Stats → Stats
record_outcome outcome s = add_outcome outcome (add_total s)

unfoldable pub stats_text : Stats → Str
stats_text s =
    lit "total="
    ++ itoa s.total
    ++ lit " ok="
    ++ itoa s.ok_count
    ++ lit " 4xx="
    ++ itoa s.client_4xx
    ++ lit " 5xx="
    ++ itoa s.server
    ++ lit " errors="
    ++ itoa s.errored

-- A value in a body that the client sends.
pub data Json : Type 0 where
  text : Str → Json
  number : ℤ → Json

abbrev pub Body : Type 0
Body = List (Str × Json)

-- A request on the wire.
pub record Message : Type 0 where
  pub method : Str
  pub url : Str
  pub headers : List (Str × Str)
  pub body : Option Str

pub record Answer : Type 0 where
  pub status : ℤ
  pub body : Str

-- A line of the verbose log.
pub data Line : Type 0 where
  failed_line : Str → Str → Str → Line
  status_line : Str → Str → ℤ → Line

-- What the client stands on, over a network in a state `N` and a generator of random numbers in a
-- state `R`: encoding/json, the check of a URL, the delivery, the clock and math/rand.
pub record Outside (N R : Type 0) : Type 0 where
  pub marshal : Body → Reply Str
  -- `http.NewRequestWithContext`, by the method and the URL.
  pub new_request : Str → Str → Reply (Unit {0})
  pub send : Message → N → Reply Answer × N
  -- The field `id` of a body, empty where there is none or the body is not JSON.
  pub decode_id : Str → Str
  -- `time.Now().UTC().Format(time.RFC3339)`
  pub now_text : N → Str
  -- `Intn`, `Int63n`: a number below the bound.
  pub intn : ℕ → R → ℕ × R

-- The client's counters and log, with the network.
pub record Session (N : Type 0) : Type 0 where
  pub net : N
  pub stats : Stats
  pub log : List Line
