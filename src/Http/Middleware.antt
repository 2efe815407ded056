-- ===== src/Http/Middleware.antt =====
-- internal/httpapi/middleware.go: the layers around a handler that may panic.
pub mod Recover
pub mod Sending
use my_demo_app.Prelude.{
  ℕ, Bool, true, false, Option, none, some, List, [], ◌∷◌, ◌++◌, ◌==◌, if◌then◌else◌,
}
use my_demo_app.Text.{Str, lit, str_eq, is_empty}
use my_demo_app.Metrics.{observe_request, inc_in_flight, dec_in_flight}
use my_demo_app.Http.{
  Request, get, Call, write_error, Entry, Server, Handler, count, log_line, set_header,
  write_header, write, access_full, access, panic_recovered,
}

-- The calls that were made, and the value of the panic that ended them.
pub record Reply : Type 0 where
  pub calls : List Call
  pub panic : Option Str

abbrev pub Layered : Type 0 → Type 0
Layered S = Request → Server S → Reply × Server S

-- `statusRecorder`, which passes each call on.
pub record StatusRecorder : Type 0 where
  pub status : ℕ
  pub wrote_header : Bool

abbrev pub new_recorder : StatusRecorder
new_recorder = record { status = 0; wrote_header = false }

unfoldable pub record_call : Call → StatusRecorder → StatusRecorder
record_call (set_header key value) sr = sr
record_call (write_header code) sr = record { status = code; wrote_header = true }
record_call (write payload) sr = record {
  status = (if sr.status == 0 then 200 else sr.status);
  wrote_header = true;
}

unfoldable pub recorded : List Call → StatusRecorder → StatusRecorder
unfolding record_call
recorded [] sr = sr
recorded (call ∷ calls) sr = recorded calls (record_call call sr)

abbrev pub access_entry : Bool → Request → ℕ → Entry
access_entry log_pii r status =
    if log_pii
    then access_full r.request_id r.method r.path r.query (get (lit "Authorization") r.headers)
        status
    else access r.request_id r.method r.path status

unfoldable pub final_status : List Call → ℕ
unfolding recorded
final_status calls =
    let status = (recorded calls new_recorder).status in if status == 0 then 200 else status

abbrev pub cors_headers : List Call
cors_headers =
    set_header (lit "Access-Control-Allow-Origin") (lit "*")
    ∷ set_header (lit "Access-Control-Allow-Methods") (lit "GET, POST, PATCH, DELETE, OPTIONS")
    ∷ set_header (lit "Access-Control-Allow-Headers") (lit "Authorization, Content-Type")
    ∷ []

module _ {S : Type 0} where
  -- A handler that does not panic.
  abbrev pub total : Handler S → Layered S
  total h r sv = let (calls, sv') = h r sv in (record { calls = calls; panic = none }, sv')

  abbrev pub before_calls : List Call → Reply × Server S → Reply × Server S
  before_calls calls p = (record (p.0) { calls = calls ++ p.0.calls }, p.1)

  -- The first layer is the outermost.
  unfoldable pub chain : Layered S → List (Layered S → Layered S) → Layered S
  chain h [] = h
  chain h (mw ∷ mws) = mw (chain h mws)

  -- `random` is what `hex.EncodeToString` gives of 16 random bytes.
  unfoldable pub request_id : Str → Layered S → Layered S
  request_id random next r sv =
      let given = get (lit "X-Request-ID") r.headers in
      let id = if is_empty given then random else given in
      before_calls (set_header (lit "X-Request-ID") id ∷ [])
        (next (record r { request_id = id }) sv)

  abbrev pub log_access : Bool → Request → Reply × Server S → Reply × Server S
  log_access log_pii r p = elim (p.0.panic) [
    | none ↦ (p.0, log_line (access_entry log_pii r (recorded (p.0.calls) new_recorder).status) p.1)
    | some e ↦ p
  ]

  -- A panic of the next layer passes the line by.
  unfoldable pub logging : Bool → Layered S → Layered S
  logging log_pii next r sv = log_access log_pii r (next r sv)

  abbrev observe : Str → Request → Reply × Server S → Reply × Server S
  observe route r p = elim (p.0.panic) [
    | none ↦ (p.0, count (observe_request route r.method (final_status p.0.calls)) p.1)
    | some e ↦ p
  ]

  -- The deferred decrement also follows a panic.
  unfoldable pub metrics : Str → Layered S → Layered S
  metrics route next r sv =
      let (reply, sv') = observe route r (next r (count inc_in_flight sv)) in
      (reply, count dec_in_flight sv')

  abbrev pub recover_reply : Request → Reply × Server S → Reply × Server S
  recover_reply r p = elim (p.0.panic) [
    | none ↦ p
    | some e ↦ (
      record {
        calls =
            (if (recorded (p.0.calls) new_recorder).wrote_header
              then p.0.calls
              else p.0.calls ++ write_error 500 (lit "internal error: " ++ e));
        panic = none;
      },
      log_line (panic_recovered e r.path) p.1,
    )
  ]

  unfoldable pub recover : Layered S → Layered S
  recover next r sv = recover_reply r (next r sv)

  unfoldable pub cors : Layered S → Layered S
  cors next r sv = before_calls cors_headers (
      if str_eq r.method (lit "OPTIONS")
      then (record { calls = write_header 204 ∷ []; panic = none }, sv)
      else next r sv)
