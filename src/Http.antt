-- ===== src/Http.antt =====
-- internal/httpapi: requests, replies as the calls on the `http.ResponseWriter`, the state behind the
-- handlers, and the helpers of httperror.go.
pub mod Plans
pub mod Subscribers
pub mod Invoicing
pub mod Ops
pub mod Misc
pub mod Auth
pub mod Middleware
pub mod Paths
pub mod Router
pub mod Pagination
use my_demo_app.Prelude.{
  ℕ, zero, suc, ◌+◌, ◌-◌, ◌*◌, ◌/◌, ◌%◌, ◌^◌, ◌≤◌, ◌<◌, ◌≡◌, refl, sym, ap, ap₂, ◌∙◌, ◌≡⟨◌⟩◌, ◌∎,
  ◌≢◌, ◌↔◌, ◌⊎◌, inl, inr, Bool, true, false, not, ◌&&◌, ◌||◌, Option, none, some, List, [], ◌∷◌,
  ◌++◌, map, arith, ltb, leb, ◌==◌, if◌then◌else◌, ltb→lt, lt→ltb, leb→le, ==_iff, tests,
  Bool-cases, Option-cases, length, get_elem?, set, length-append, length-set, get_elem?-set_self,
  get_elem?-set_ne, get_or, take, drop, replicate, take-append-drop, length-take, length-drop,
  length-replicate, length-map,
}
use my_demo_app.Prelude.Int.{
  ℤ, pos_part, neg_part, sub_ℕ, ◌+ℤ◌, ◌-ℤ◌, ◌*ℤ◌, ◌≤ℤ◌, ltb_ℤ, +ℤ_comm, +ℤ_assoc, +ℤ_cancel,
  ≤ℤ_total, +ℤ_parts, -ℤ_parts, eq_of_parts, int_laws, +ℤ_mono, pos, negsuc,
}
use my_demo_app.Text.{Str, lit, str_eq, is_empty}
use my_demo_app.Text.Decimal.{atoi}
use my_demo_app.Time.{Time, Location}
use my_demo_app.Exec.{
  Problem, Error, Result, msisdn_required, msisdn_length, plan_name_required, negative_price,
  plan_id_required, owner_required, unknown_status, unknown_kind, not_found, validation,
  invalid_status_transition, failed, ok, err,
}
use my_demo_app.Subscriber.{Plan, Subscriber, UsageRecord, Invoice}
use my_demo_app.Subscriber.Service.{World}
use my_demo_app.Metrics.{Metrics}

-- A parsed request. The path is its segments; the fields of the URL's query and the headers, by their
-- canonical names, are pairs; `request_id` is the value in the request's context, empty where there is
-- none.
pub record Request : Type 0 where
  pub method : Str
  pub path : List Str
  pub query : List (Str × Str)
  pub headers : List (Str × Str)
  pub body : Str
  pub request_id : Str

-- `Get` of a query and of the headers: the first value, or the empty string.
unfoldable pub get : Str → List (Str × Str) → Str
get key [] = []
get key (entry ∷ fields) = if str_eq key entry.0 then entry.1 else get key fields

unfoldable pub has_key : Str → List (Str × Str) → Bool
has_key key [] = false
has_key key (entry ∷ fields) = str_eq key entry.0 || has_key key fields

-- What is encoded as a reply's body.
pub data Payload : Type 0 where
  fields : List (Str × Str) → Payload
  plan_json : Plan → Payload
  plans_json : List Plan → Payload
  subscriber_json : Subscriber → Payload
  subscribers_json : List Subscriber → Payload
  usage_json : UsageRecord → Payload
  invoice_json : Invoice → Payload
  text : Str → Payload

-- The calls of a handler on its `http.ResponseWriter`, in their order.
pub data Call : Type 0 where
  set_header : Str → Str → Call
  write_header : ℕ → Call
  write : Payload → Call

abbrev pub json_type : Call
json_type = set_header (lit "Content-Type") (lit "application/json")

-- `writeJSON` and `writeError`.
abbrev pub write_json : ℕ → Payload → List Call
write_json status payload = json_type ∷ write_header status ∷ write payload ∷ []

abbrev pub write_error : ℕ → Str → List Call
write_error status message = write_json status (fields ((lit "error", message) ∷ []))

-- `http.Redirect`: a GET gets a page with the link, which `anchor` gives.
abbrev pub redirected : ℕ → Request → Str × Str → List Call
redirected status r (url, anchor) =
    set_header (lit "Location") url
      ∷ (if str_eq r.method (lit "GET") || str_eq r.method (lit "HEAD")
          then set_header (lit "Content-Type") (lit "text/html; charset=utf-8") ∷ []
          else [])
    ++ write_header status ∷ (if str_eq r.method (lit "GET") then write (text anchor) ∷ [] else [])

-- What the client receives: the first status counts, `Write` without one sends 200, and so does the
-- server behind a handler that sent nothing. Headers that are set behind the status are not sent.
pub record Response : Type 0 where
  pub status : ℕ
  pub headers : List (Str × Str)
  pub body : List Payload

unfoldable pub bodies : List Call → List Payload
bodies [] = []
bodies (write payload ∷ calls) = payload ∷ bodies calls
bodies (_ ∷ calls) = bodies calls

-- A later `Set` of the same header replaces an earlier one.
unfoldable pub put_header : Str → Str → List (Str × Str) → List (Str × Str)
unfolding has_key
put_header key value later = if has_key key later then later else (key, value) ∷ later

unfoldable pub deliver : List Call → Response
unfolding bodies put_header
deliver [] = record { status = 200; headers = []; body = [] }
deliver (set_header key value ∷ calls) =
    let r = deliver calls in record r { headers = put_header key value r.headers }
deliver (write_header status ∷ calls) = record {
  status = status;
  headers = [];
  body = bodies calls;
}
deliver (write payload ∷ calls) = record {
  status = 200;
  headers = [];
  body = payload ∷ bodies calls;
}

-- The errors' texts. `quote` is the `%q` of `fmt`.
unfoldable pub problem_text : (Str → Str) → Problem → Str
problem_text quote msisdn_required = lit "msisdn is required"
problem_text quote msisdn_length = lit "msisdn has invalid length"
problem_text quote plan_name_required = lit "plan name is required"
problem_text quote negative_price = lit "monthly price must not be negative"
problem_text quote plan_id_required = lit "planID is required"
problem_text quote owner_required = lit "ownerAccountID is required"
problem_text quote (unknown_status s) = lit "unknown status " ++ quote s
problem_text quote (unknown_kind s) = lit "unknown usage kind " ++ quote s

unfoldable pub error_text : (Str → Str) → Error → Str
error_text quote not_found = lit "subscriber: not found"
error_text quote (validation p) = lit "subscriber: validation failed: " ++ problem_text quote p
error_text quote invalid_status_transition = lit "subscriber: invalid status transition"
error_text quote (failed message) = message

unfoldable pub http_status_for_error : Error → ℕ
http_status_for_error not_found = 404
http_status_for_error (validation p) = 400
http_status_for_error invalid_status_transition = 409
http_status_for_error (failed message) = 500

abbrev pub default_page_limit : ℤ
default_page_limit = pos 50

abbrev pub max_page_limit : ℤ
max_page_limit = pos 200

unfoldable pub accept : (ℤ → Bool) → Option ℤ → ℤ → ℤ
accept test none fallback = fallback
accept test (some n) fallback = if test n then n else fallback

-- The limit and the offset.
unfoldable pub parse_pagination : Request → ℤ × ℤ
unfolding accept
parse_pagination r =
    let v = get (lit "limit") r.query in
    let u = get (lit "offset") r.query in
    let limit =
      (if not (is_empty v)
        then accept (ltb_ℤ (pos 0)) (atoi v) default_page_limit
        else default_page_limit) in
    let offset =
      (if not (is_empty u) then accept (λ n. not (ltb_ℤ n (pos 0))) (atoi u) (pos 0) else pos 0) in
    (if ltb_ℤ max_page_limit limit then max_page_limit else limit, offset)

-- The lines of the log, less their times and the address of the client.
pub data Entry : Type 0 where
  access_full : Str → Str → List Str → List (Str × Str) → Str → ℕ → Entry
  access : Str → Str → List Str → ℕ → Entry
  panic_recovered : Str → List Str → Entry
  missing_token invalid_key : List Str → Entry
  carrier_failed : Str → Str → Entry

-- The service's state: the process behind `Deps.Svc` and `Deps.Store`, the collectors, and the log, the
-- last line first.
pub record Server (S : Type 0) : Type 0 where
  pub world : World S
  pub metrics : Metrics
  pub log : List Entry

-- A handler: the calls that it makes on the `http.ResponseWriter`, and the state behind it.
abbrev pub Handler : Type 0 → Type 0
Handler S = Request → Server S → List Call × Server S

module _ {S : Type 0} where
  abbrev pub answer : List Call → Server S → List Call × Server S
  answer calls sv = (calls, sv)

  -- `result, err := d.Svc.Method(...)`, with the caller's handling of `err`.
  abbrev pub settle :
      {A : Type 0}
      → Result A
      → (Error → Server S → List Call × Server S)
      → (A → Server S → List Call × Server S)
      → Server S
      → List Call × Server S
  settle (ok a) on_error next sv = next a sv
  settle (err e) on_error next sv = on_error e sv

  abbrev pub serve :
      {A : Type 0}
      → (World S → Result A × World S)
      → (Error → Server S → List Call × Server S)
      → (A → Server S → List Call × Server S)
      → Server S
      → List Call × Server S
  serve method on_error next sv =
      let (r, w) = method sv.world in settle r on_error next (record sv { world = w })

  abbrev pub count : (Metrics → Metrics) → Server S → Server S
  count f sv = record sv { metrics = f sv.metrics }

  abbrev pub log_line : Entry → Server S → Server S
  log_line e sv = record sv { log = e ∷ sv.log }

  -- `writeError(w, httpStatusForError(err), err.Error())`
  abbrev pub reply_error : (Str → Str) → Error → Server S → List Call × Server S
  reply_error quote e = answer (write_error (http_status_for_error e) (error_text quote e))

  -- `json.Unmarshal` or `Decode`: `none` is an error.
  abbrev pub decoded :
      {A : Type 0}
      → Option A
      → (A → Server S → List Call × Server S)
      → Server S
      → List Call × Server S
  decoded none next = answer (write_error 400 (lit "invalid JSON body"))
  decoded (some a) next = next a
