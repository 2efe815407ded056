-- ===== src/Loadgen/Client.antt =====
-- cmd/loadgen/main.go: `httpClient` and its requests.
use my_demo_app.Prelude.{
  get_elem?, ℕ, ◌+◌, ◌-◌, Bool, true, false, not, ◌&&◌, Option, none, some, List, [], ◌∷◌, ◌++◌,
  ◌==◌, if◌then◌else◌, length, replicate,
}
use my_demo_app.Prelude.Int.{ℤ, ltb_ℤ, pos}
use my_demo_app.Text.{Str, lit}
use my_demo_app.Text.Decimal.{itoa}
use my_demo_app.Exec.{Reply, value, error}
use my_demo_app.Loadgen.{
  Config, record_outcome, Body, Message, Answer, Line, Outside, Session, text, number, failed_line,
  status_line,
}

-- `%09d` of a number that is not negative.
abbrev pub pad9 : ℕ → Str
pad9 n = let digits = itoa (pos n) in replicate (9 - length digits) 48 ++ digits

abbrev pub count : {N : Type 0} → Reply ℤ → Session N → Session N
count outcome s = record s { stats = record_outcome outcome s.stats }

abbrev pub note : {N : Type 0} → Bool → Line → Session N → Session N
note true line s = record s { log = s.log ++ line ∷ [] }
note false line s = s

module _ {N R : Type 0} (o : Outside N R) (cfg : Config) where
  abbrev headers_of : Option Str → List (Str × Str)
  headers_of none = (lit "Authorization", lit "Bearer " ++ cfg.api_key) ∷ []
  headers_of (some body) =
      (lit "Authorization", lit "Bearer " ++ cfg.api_key)
      ∷ (lit "Content-Type", lit "application/json")
      ∷ []

  abbrev is_success : ℤ → Bool
  is_success status = not (ltb_ℤ status (pos 200)) && ltb_ℤ status (pos 300)

  abbrev pub received : Str → Str → Bool → Reply Answer → Session N → (ℤ × Str) × Session N
  received method path wants_out (error e) s =
      ((pos 0, []), note cfg.verbose (failed_line method path e) (count (error e) s))
  received method path wants_out (value answer) s =
      let out = if wants_out && is_success answer.status then o.decode_id answer.body else [] in
      (
        (answer.status, out),
        note cfg.verbose (status_line method path answer.status) (count (value answer.status) s),
      )

  abbrev pub send_body : Str → Str → Option Str → Bool → Session N → (ℤ × Str) × Session N
  send_body method path body wants_out s = elim (o.new_request method (cfg.base_url ++ path)) [
    | error e ↦ ((pos 0, []), count (error e) s)
    | value u ↦
        let message : Message = record {
          method = method;
          url = cfg.base_url ++ path;
          headers = headers_of body;
          body = body;
        } in
        let (reply, net) = o.send message s.net in
        received method path wants_out reply (record s { net = net })
  ]

  -- The status, 0 where none came, and the ID in `out` where the caller passes one.
  unfoldable pub perform : Str → Str → Option Body → Bool → Session N → (ℤ × Str) × Session N
  perform method path none wants_out s = send_body method path none wants_out s
  perform method path (some body) wants_out s = elim (o.marshal body) [
    | error e ↦ ((pos 0, []), count (error e) s)
    | value encoded ↦ send_body method path (some encoded) wants_out s
  ]

  -- `if cl.do(...) >= 300 { return "" }; return out.ID`
  abbrev pub created_id : Str → Body → Session N → Str × Session N
  created_id path body s =
      let (reply, s') = perform (lit "POST") path (some body) true s in
      ((if ltb_ℤ reply.0 (pos 300) then reply.1 else []), s')

  unfoldable pub ensure_plan : R → Session N → Str × R × Session N
  ensure_plan rnd s =
      let (name, rnd1) = o.intn 1_000_000 rnd in
      let (price, rnd2) = o.intn 9000 rnd1 in
      let (minutes, rnd3) = o.intn 900 rnd2 in
      let (mb, rnd4) = o.intn 9000 rnd3 in
      let (sms, rnd5) = o.intn 450 rnd4 in
      let (over_minutes, rnd6) = o.intn 20 rnd5 in
      let (over_mb, rnd7) = o.intn 10 rnd6 in
      let (over_sms, rnd8) = o.intn 8 rnd7 in
      let body =
        (lit "name", text (lit "LoadGen Plan " ++ itoa (pos name)))
        ∷ (lit "monthlyPriceCents", number (pos (1000 + price)))
        ∷ (lit "includedVoiceMinutes", number (pos (100 + minutes)))
        ∷ (lit "includedDataMB", number (pos (1000 + mb)))
        ∷ (lit "includedSMS", number (pos (50 + sms)))
        ∷ (lit "overageVoiceCents", number (pos (5 + over_minutes)))
        ∷ (lit "overageDataCentsPerMB", number (pos (1 + over_mb)))
        ∷ (lit "overageSMSCents", number (pos (2 + over_sms)))
        ∷ [] in
      let (id, s') = created_id (lit "/v1/plans") body s in (id, rnd8, s')

  unfoldable pub create_subscriber : Str → R → Session N → Str × R × Session N
  create_subscriber plan_id rnd s =
      let (n, rnd1) = o.intn 1_000_000_000 rnd in
      let (account, rnd2) = o.intn 100 rnd1 in
      let body =
        (lit "msisdn", text (lit "+447" ++ pad9 n))
        ∷ (lit "imsi", text (lit "234150" ++ pad9 n))
        ∷ (lit "name", text (lit "Subscriber " ++ itoa (pos n)))
        ∷ (lit "plan_id", text plan_id)
        ∷ (lit "owner_account_id", text (lit "acct-" ++ itoa (pos account)))
        ∷ [] in
      let (id, s') = created_id (lit "/v1/subscribers") body s in (id, rnd2, s')

  -- `words[rnd.Intn(n)]`; `none` stands for the panic of an index out of range.
  abbrev pub draw_below : ℕ → List Str → R → Option (Str × R)
  draw_below n words rnd =
      let (i, rnd') = o.intn n rnd in
      elim (get_elem? words i) [ none ↦ none | some word ↦ some (word, rnd') ]

  -- `words[rnd.Intn(len(words))]`
  abbrev pub draw : List Str → R → Option (Str × R)
  draw words rnd = draw_below (length words) words rnd

  abbrev pub kinds : List Str
  kinds = lit "voice" ∷ lit "data" ∷ lit "sms" ∷ []

  abbrev pub searches : List Str
  searches = [] ∷ lit "Subscriber" ∷ lit "447" ∷ []

  abbrev pub hosts : List Str
  hosts = lit "localhost" ∷ lit "127.0.0.1" ∷ lit "example.com" ∷ []

  abbrev pub with_kind : Str → Option (Str × R) → Session N → Option (R × Session N)
  with_kind sub_id none s = none
  with_kind sub_id (some (kind, rnd1)) s =
      let (quantity, rnd2) = o.intn 500 rnd1 in
      let body =
        (lit "kind", text kind)
        ∷ (lit "quantity", number (pos (1 + quantity)))
        ∷ (lit "timestamp", text (o.now_text s.net))
        ∷ [] in
      let path = lit "/v1/subscribers/" ++ sub_id ++ lit "/usage" in
      some (rnd2, (perform (lit "POST") path (some body) false s).1)

  unfoldable pub add_usage : Str → R → Session N → Option (R × Session N)
  add_usage sub_id rnd s = with_kind sub_id (draw kinds rnd) s

  -- The query is encoded by key; its values have no character to escape.
  abbrev pub with_search : Option (Str × R) → Session N → Option (R × Session N)
  with_search none s = none
  with_search (some (search, rnd1)) s =
      let (limit, rnd2) = o.intn 40 rnd1 in
      let (offset, rnd3) = o.intn 20 rnd2 in
      let query =
        lit "limit="
        ++ itoa (pos (10 + limit))
        ++ lit "&offset="
        ++ itoa (pos offset)
        ++ lit "&search="
        ++ search in
      some (rnd3, (perform (lit "GET") (lit "/v1/subscribers?" ++ query) none false s).1)

  unfoldable pub read_traffic : Str → R → Session N → Option (R × Session N)
  read_traffic sub_id rnd s =
      let s1 = (perform (lit "GET") (lit "/v1/subscribers/" ++ sub_id) none false s).1 in
      let invoice = lit "/v1/subscribers/" ++ sub_id ++ lit "/invoice" in
      let s2 = (perform (lit "GET") invoice none false s1).1 in
      with_search (draw_below 3 searches rnd) s2

  abbrev pub with_host : Option (Str × R) → Session N → Option (R × Session N)
  with_host none s = none
  with_host (some (host, rnd)) s =
      some (rnd, (perform (lit "GET") (lit "/v1/diagnostics/ping?host=" ++ host) none false s).1)

  abbrev pub with_hook : R → Session N → Option (R × Session N)
  with_hook rnd s =
      let (port, rnd') = o.intn 100 rnd in
      let url = lit "http://localhost:" ++ itoa (pos (9000 + port)) ++ lit "/hook" in
      let body = (lit "url", text url) ∷ [] in
      some (rnd', (perform (lit "POST") (lit "/v1/webhooks") (some body) false s).1)

  unfoldable pub scenario_traffic : R → Session N → Option (R × Session N)
  scenario_traffic rnd s =
      let (which, rnd1) = o.intn 2 rnd in
      if which == 0 then with_host (draw_below 3 hosts rnd1) s else with_hook rnd1 s
