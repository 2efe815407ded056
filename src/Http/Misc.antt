-- ===== src/Http/Misc.antt =====
-- internal/httpapi/handlers_misc.go. What a request does outside the process (the shell's `ping`, the file
-- that is written, the network of a webhook) is a parameter: its result for what it is given.
pub mod Registration
use my_demo_app.Prelude.{Bool, not, Option, none, some, List, [], ◌∷◌, ◌++◌, if◌then◌else◌}
use my_demo_app.Text.{Str, lit, is_empty}
use my_demo_app.Webhook.{Client, Network, notify}
use my_demo_app.Http.{
  redirected, get, write_json, write_error, Handler, answer, settle, decoded, fields, set_header,
  write_header,
}

-- `payload` of the notification.
abbrev pub registered_event : List (Str × Str)
registered_event = (lit "event", lit "webhook.registered") ∷ []

abbrev ping_fields : Str → Str → Option Str → List (Str × Str)
ping_fields host output none = (lit "host", host) ∷ (lit "output", output) ∷ []
ping_fields host output (some e) =
    (lit "host", host) ∷ (lit "output", output) ∷ (lit "error", e) ∷ []

module _ {S : Type 0} where
  -- `decode` gives the field `url` of the body.
  unfoldable pub handle_register_webhook : Network → Client → (Str → Option Str) → Handler S
  handle_register_webhook net webhook decode r = decoded (decode r.body) (λ url.
      if is_empty url
      then answer (write_error 400 (lit "url is required"))
      else settle (notify net webhook url registered_event).result
          (λ e. answer (write_error 502 (lit "webhook verification failed")))
          (λ u.
            answer
              (write_json 201 (fields ((lit "status", lit "registered") ∷ (lit "url", url) ∷ [])))))

  -- `shell` is the output of a command line, and its error.
  unfoldable pub handle_ping : (Str → Str × Option Str) → Handler S
  handle_ping shell r =
      let host = get (lit "host") r.query in
      let (out, e) = shell (lit "ping -c 1 " ++ host) in
      if is_empty host
      then answer (write_error 400 (lit "host is required"))
      else answer (write_json 200 (fields (ping_fields host out e)))

  -- `join` is `filepath.Join(os.TempDir(), filename)`, and `write_file` says whether the contents were
  -- written to a path.
  unfoldable pub handle_invoice_export : (Str → Str) → (Str → Str → Bool) → Str → Handler S
  handle_invoice_export join write_file id r =
      let filename = get (lit "filename") r.query in
      let path = join filename in
      let contents = lit "{\"subscriber_id\":\"" ++ id ++ lit "\",\"status\":\"exported\"}" in
      if is_empty filename
      then answer (write_error 400 (lit "filename is required"))
      else if not (write_file path contents)
      then answer (write_error 500 (lit "failed to write export"))
      else answer (write_json 200 (fields ((lit "subscriber_id", id) ∷ (lit "path", path) ∷ [])))

  -- `clean` is what `http.Redirect` makes of the target, with the page that links it.
  unfoldable pub handle_redirect : (Str → Str × Str) → Handler S
  handle_redirect clean r =
      let target = get (lit "url") r.query in
      if is_empty target
      then answer (write_error 400 (lit "url is required"))
      else answer (redirected 302 r (clean target))

  unfoldable pub handle_delete_subscriber : Handler S
  handle_delete_subscriber r = answer (write_error 501 (lit "delete subscriber not implemented"))

  unfoldable pub handle_change_plan : Handler S
  handle_change_plan r = answer (write_error 501 (lit "plan change not implemented"))
