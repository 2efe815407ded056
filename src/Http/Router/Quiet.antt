-- ===== src/Http/Router/Quiet.antt =====
-- internal/httpapi: a reply that sends one status and leaves the counter of requests and the gauge of
-- those in flight alone, and how the helpers of the handlers keep it.
use my_demo_app.Prelude.{ℕ, ◌<◌, ◌≡◌, refl, true, Option, none, some, List, arith}
use my_demo_app.Prelude.{Bool-cases, inl, inr}
use my_demo_app.Text.{str_eq, lit}
use my_demo_app.Http.{
  redirected, Request, Payload, Call, write_json, http_status_for_error, Server, answer, settle,
  serve, reply_error, decoded,
}
use my_demo_app.Metrics.{Metrics}
use my_demo_app.Text.{Str}
use my_demo_app.Exec.{
  Result, ok, err, Error, not_found, validation, invalid_status_transition, failed,
}
use my_demo_app.Subscriber.Service.{World}
use my_demo_app.Http.Middleware.Sending.{sends_once, has_codes}

pub positive_status : (e : Error) → 0 < http_status_for_error e
unfolding http_status_for_error
positive_status not_found = omega arith
positive_status (validation p) = omega arith
positive_status invalid_status_transition = omega arith
positive_status (failed message) = omega arith

module _ {S : Type 0} (m : Metrics) where
  pub record IsSame (sv : Server S) : Type 0 where
    pub in_flight : sv.metrics.http_in_flight ≡ m.http_in_flight
    pub requests : sv.metrics.http_requests_total ≡ m.http_requests_total

  pub record IsQuiet (p : List Call × Server S) : Type 0 where
    pub once : sends_once (p.0) ≡ true
    pub codes : has_codes (p.0) ≡ true
    pub same : IsSame (p.1)

  pub json :
      (status : ℕ) (payload : Payload) (sv : Server S)
      → 0 < status
      → IsSame sv
      → IsQuiet (answer (write_json status payload) sv)
  json status payload sv positive same = record { once = refl; codes = ground arith; same = same }

  pub redirected-IsQuiet :
      (status : ℕ) (r : Request) (target : Str × Str) (sv : Server S)
      → 0 < status
      → IsSame sv
      → IsQuiet (answer (redirected status r target) sv)
  redirected-IsQuiet status r target sv positive same =
      elim (Bool-cases (str_eq r.method (lit "GET"))) [
        | inl get ↦ rw get (record { once = refl; codes = ground arith; same = same })
        | inr other ↦ elim (Bool-cases (str_eq r.method (lit "HEAD"))) [
          | inl head ↦ rw (other, head) (record { once = refl; codes = ground arith; same = same })
          | inr none_of ↦
              rw (other, none_of) (record { once = refl; codes = ground arith; same = same })
        ]
      ]

  pub error_json :
      (quote : Str → Str) (e : Error) (sv : Server S) → IsSame sv → IsQuiet (reply_error quote e sv)
  unfolding http_status_for_error
  error_json quote not_found sv same = json _ _ sv (omega arith) same
  error_json quote (validation p) sv same = json _ _ sv (omega arith) same
  error_json quote invalid_status_transition sv same = json _ _ sv (omega arith) same
  error_json quote (failed message) sv same = json _ _ sv (omega arith) same

  module _ {A : Type 0} (on_error : Error → Server S → List Call × Server S)
      (next : A → Server S → List Call × Server S)
      (error_quiet : (e : Error) (sv : Server S) → IsSame sv → IsQuiet (on_error e sv))
      (next_quiet : (a : A) (sv : Server S) → IsSame sv → IsQuiet (next a sv)) where
    pub settle-IsQuiet :
        (r : Result A) (sv : Server S) → IsSame sv → IsQuiet (settle r on_error next sv)
    settle-IsQuiet (ok a) sv same = next_quiet a sv same
    settle-IsQuiet (err e) sv same = error_quiet e sv same

    pub serve-IsQuiet :
        (method : World S → Result A × World S) (sv : Server S)
        → IsSame sv
        → IsQuiet (serve method on_error next sv)
    serve-IsQuiet method sv same =
        let (r, w) = method sv.world in
        settle-IsQuiet r (record sv { world = w })
          (record { in_flight = same.in_flight; requests = same.requests })

  pub decoded-IsQuiet :
      {A : Type 0} (o : Option A) (next : A → Server S → List Call × Server S) (sv : Server S)
      → ((a : A) → IsQuiet (next a sv))
      → IsSame sv
      → IsQuiet (decoded o next sv)
  decoded-IsQuiet none next sv h same = json _ _ sv (omega arith) same
  decoded-IsQuiet (some a) next sv h same = h a
