-- ===== src/Webhook.antt =====
-- internal/webhook/client.go: `Client` and `Notify`. The encoder, the parser of URLs and the network are
-- parameters.
pub mod Outcome
use my_demo_app.Prelude.{ℕ, Bool, true, false, List, [], ◌∷◌, ◌++◌, leb, if◌then◌else◌}
use my_demo_app.Prelude.Int.{pos}
use my_demo_app.Text.{Str, lit}
use my_demo_app.Text.Decimal.{itoa}
use my_demo_app.Exec.{Reply, value, error, Result, ok, err, failed}

-- The settings of the `http.Client`: its timeout in nanoseconds, and whether the certificates of the
-- endpoints go unchecked.
pub record Client : Type 0 where
  pub timeout : ℕ
  pub insecure_skip_verify : Bool

abbrev pub new_client : Client
new_client = record { timeout = 10_000_000_000; insecure_skip_verify = true }

-- A request that leaves the process.
pub record Outgoing : Type 0 where
  pub method : Str
  pub url : Str
  pub headers : List (Str × Str)
  pub body : Str

-- `marshal` is `json.Marshal` of a map of strings, `new_request` the check of a method and a URL by
-- `http.NewRequest`, and `send` the status that `Do` gets with a client's settings.
pub record Network : Type 0 where
  pub marshal : List (Str × Str) → Reply Str
  pub new_request : Str → Str → Reply (Unit {0})
  pub send : Client → Outgoing → Reply ℕ

abbrev pub post_of : Str → Str → Outgoing
post_of url body = record {
  method = lit "POST";
  url = url;
  headers = (lit "Content-Type", lit "application/json") ∷ [];
  body = body;
}

-- What `Notify` returns, and whether it leaves the body of a response open.
pub record Notified : Type 0 where
  pub result : Result (Unit {0})
  pub body_open : Bool

abbrev gave_up : Str → Notified
gave_up e = record { result = err (failed e); body_open = false }

abbrev delivered : Reply ℕ → Notified
delivered (error e) = gave_up (lit "webhook: deliver: " ++ e)
delivered (value status) = record {
  result =
      if leb 400 status
      then err (failed (lit "webhook: endpoint returned status " ++ itoa (pos status)))
      else ok tt;
  body_open = true;
}

unfoldable pub notify : Network → Client → Str → List (Str × Str) → Notified
notify net client url payload = elim (net.marshal payload) [
  | error e ↦ gave_up (lit "webhook: marshal payload: " ++ e)
  | value body ↦ elim (net.new_request (lit "POST") url) [
    | error e ↦ gave_up (lit "webhook: build request: " ++ e)
    | value u ↦ delivered (net.send client (post_of url body))
  ]
]
