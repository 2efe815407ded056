-- ===== src/Store/Sqlite.antt =====
-- internal/store/sqlite.go: the SQLite store, over a driver.
pub mod Tables
pub mod Keys
pub mod Laws
pub mod Like
pub mod Errors
pub mod Lists
pub mod Search
pub mod Reset
pub mod Restart
pub mod Complete
use my_demo_app.Prelude.{
  ℕ, zero, suc, ◌+◌, ◌-◌, ◌*◌, ◌/◌, ◌%◌, ◌^◌, ◌≤◌, ◌<◌, ◌≡◌, refl, sym, ap, ap₂, ◌∙◌, ◌≡⟨◌⟩◌, ◌∎,
  ◌≢◌, ◌↔◌, ◌⊎◌, inl, inr, Bool, true, false, not, ◌&&◌, ◌||◌, Option, none, some, List, [], ◌∷◌,
  ◌++◌, map, arith, ltb, leb, ◌==◌, if◌then◌else◌, ltb→lt, lt→ltb, leb→le, ==_iff, tests,
  Bool-cases, Option-cases, length, get_elem?, set, length-append, length-set, get_elem?-set_self,
  get_elem?-set_ne, get_or, take, drop, replicate, take-append-drop, length-take, length-drop,
  length-replicate, length-map,
}
use my_demo_app.Prelude.Int.{
  ℤ, pos_part, neg_part, sub_ℕ, ◌+ℤ◌, ◌-ℤ◌, ◌*ℤ◌, ◌≤ℤ◌, ltb_ℤ, equal_ℤ, +ℤ_comm, +ℤ_assoc,
  +ℤ_cancel, ≤ℤ_total, +ℤ_parts, -ℤ_parts, eq_of_parts, int_laws, +ℤ_mono, pos, negsuc,
}
use my_demo_app.Text.{Str, lit, is_empty}
use my_demo_app.Text.Decimal.{itoa}
use my_demo_app.Time.{Time}
use my_demo_app.Exec.{Reply, value, error, Error, Result, not_found, failed, ok, err}
use my_demo_app.Subscriber.{Status, status_of, status_text, Plan, Subscriber, UsageRecord, Store}
use my_demo_app.Store.Driver.{
  Value, Row, Rows, Driver, FirstRow, first_row, text, integer, timestamp, row, no_rows, broken,
}
use my_demo_app.Store.Statements.{
  schema, insert_plan, select_plan, select_plans, insert_subscriber, select_subscriber,
  select_subscribers, update_row, insert_usage, select_usage,
}

-- `fmt.Errorf("store: ...: %w", err)`
abbrev pub store_error : Str → Str → Error
store_error what e = failed (lit "store: " ++ what ++ lit ": " ++ e)

-- `Scan` of the columns, in the order of the `SELECT`, into the fields.
abbrev pub scan_plan : Row → Option Plan
scan_plan
      (text id
        ∷ text name
        ∷ integer price
        ∷ integer minutes
        ∷ integer mb
        ∷ integer sms
        ∷ integer over_minutes
        ∷ integer over_mb
        ∷ integer over_sms
        ∷ []) =
    some (record {
      id = id;
      name = name;
      monthly_price_cents = price;
      included_voice_minutes = minutes;
      included_data_mb = mb;
      included_sms = sms;
      overage_voice_cents = over_minutes;
      overage_data_cents_per_mb = over_mb;
      overage_sms_cents = over_sms;
    })
scan_plan _ = none

abbrev pub scan_subscriber : Row → Option Subscriber
scan_subscriber
      (text id
        ∷ text msisdn
        ∷ text imsi
        ∷ text name
        ∷ text plan_id
        ∷ text owner
        ∷ text status
        ∷ timestamp created_at
        ∷ []) =
    some (record {
      id = id;
      msisdn = msisdn;
      imsi = imsi;
      name = name;
      plan_id = plan_id;
      owner_account_id = owner;
      status = status_of status;
      created_at = created_at;
    })
scan_subscriber _ = none

abbrev pub scan_usage : Row → Option UsageRecord
scan_usage (text id ∷ text sub ∷ text kind ∷ integer quantity ∷ timestamp ts ∷ []) =
    some (record { id = id; subscriber_id = sub; kind = kind; quantity = quantity; timestamp = ts })
scan_usage _ = none

abbrev pub done : {A : Type 0} → Str → Reply A → Result (Unit {0})
done what (value a) = ok tt
done what (error e) = err (store_error what e)

-- A row that was scanned, or the text with which `Scan` refused it.
abbrev pub scanned : {A : Type 0} → Str → Str → Option A → Result A
scanned what misfit none = err (store_error what misfit)
scanned what misfit (some a) = ok a

abbrev pub and_more : {A : Type 0} → Result A → Result (List A) → Result (List A)
and_more (err e) more = err e
and_more (ok a) (err e) = err e
and_more (ok a) (ok more) = ok (a ∷ more)

-- The loop over `rows.Next()`, and `rows.Err()` behind it.
unfoldable pub collect :
    {A : Type 0}
    → (Row → Str)
    → (Row → Option A)
    → Str
    → Str
    → List Row
    → Option Str
    → Result (List A)
collect misfit scan what list [] none = ok []
collect misfit scan what list [] (some e) = err (store_error (list ++ lit " rows") e)
collect misfit scan what list (r ∷ rs) failure =
    and_more (scanned what (misfit r) (scan r)) (collect misfit scan what list rs failure)

-- The text of the query of `ListSubscribers`: the search stands in it as it came.
unfoldable pub search_query : Str → ℤ → ℤ → Str
search_query search limit offset =
    select_subscribers
    ++ (if is_empty search
        then []
        else lit " WHERE name LIKE '%"
          ++ search
          ++ lit "%' OR msisdn LIKE '%"
          ++ search
          ++ lit "%'")
    ++ lit " ORDER BY id LIMIT "
    ++ itoa limit
    ++ lit " OFFSET "
    ++ itoa offset

-- The key comes last, as in the statement.
abbrev pub update_args : Subscriber → List Value
update_args s =
    text s.msisdn
    ∷ text s.imsi
    ∷ text s.name
    ∷ text s.plan_id
    ∷ text s.owner_account_id
    ∷ text (status_text s.status)
    ∷ timestamp s.created_at
    ∷ text s.id
    ∷ []

module _ {D : Type 0} (driver : Driver D) where
  -- A statement whose answer is not looked at.
  abbrev pub run : Str → Str → List Value → D → Result (Unit {0}) × D
  run what statement args d =
      let (reply, d') = driver.exec statement args d in (done what reply, d')

  abbrev pub one : {A : Type 0} → (Row → Option A) → Str → FirstRow → Result A
  one scan what no_rows = err not_found
  one scan what (broken e) = err (store_error what e)
  one scan what (row r) = elim (scan r) [
    | none ↦ err (store_error what (driver.misfit r))
    | some a ↦ ok a
  ]

  abbrev pub all : {A : Type 0} → (Row → Option A) → Str → Str → Reply Rows → Result (List A)
  all scan what list (error e) = err (store_error list e)
  all scan what list (value answer) =
      collect driver.misfit scan what list answer.rows answer.failure

  unfoldable pub create_plan : Plan → D → Result (Unit {0}) × D
  create_plan p = run (lit "create plan") insert_plan (
      text p.id
      ∷ text p.name
      ∷ integer p.monthly_price_cents
      ∷ integer p.included_voice_minutes
      ∷ integer p.included_data_mb
      ∷ integer p.included_sms
      ∷ integer p.overage_voice_cents
      ∷ integer p.overage_data_cents_per_mb
      ∷ integer p.overage_sms_cents
      ∷ [])

  unfoldable pub get_plan : Str → D → Result Plan
  get_plan id d =
      one scan_plan (lit "get plan") (first_row (driver.query select_plan (text id ∷ []) d))

  unfoldable pub list_plans : ℤ → ℤ → D → Result (List Plan)
  list_plans limit offset d =
      all scan_plan (lit "scan plan") (lit "list plans")
        (driver.query select_plans (integer limit ∷ integer offset ∷ []) d)

  unfoldable pub create_subscriber : Subscriber → D → Result (Unit {0}) × D
  create_subscriber s = run (lit "create subscriber") insert_subscriber (
      text s.id
      ∷ text s.msisdn
      ∷ text s.imsi
      ∷ text s.name
      ∷ text s.plan_id
      ∷ text s.owner_account_id
      ∷ text (status_text s.status)
      ∷ timestamp s.created_at
      ∷ [])

  unfoldable pub get_subscriber : Str → D → Result Subscriber
  get_subscriber id d =
      one scan_subscriber (lit "get subscriber")
        (first_row (driver.query select_subscriber (text id ∷ []) d))

  unfoldable pub list_subscribers : Str → ℤ → ℤ → D → Result (List Subscriber)
  list_subscribers search limit offset d =
      all scan_subscriber (lit "scan subscriber") (lit "list subscribers")
        (driver.query (search_query search limit offset) [] d)

  abbrev pub updated : Reply (Reply ℤ) → Result (Unit {0})
  updated (error e) = err (store_error (lit "update subscriber") e)
  updated (value (error e)) = err (store_error (lit "update subscriber rows") e)
  updated (value (value n)) = if equal_ℤ n (pos 0) then err not_found else ok tt

  unfoldable pub update_subscriber : Subscriber → D → Result (Unit {0}) × D
  update_subscriber s d =
      let (reply, d') = driver.exec update_row (update_args s) d in (updated reply, d')

  unfoldable pub add_usage : UsageRecord → D → Result (Unit {0}) × D
  add_usage u = run (lit "add usage") insert_usage (
      text u.id
      ∷ text u.subscriber_id
      ∷ text u.kind
      ∷ integer u.quantity
      ∷ timestamp u.timestamp
      ∷ [])

  unfoldable pub list_usage : Str → Time → Time → D → Result (List UsageRecord)
  list_usage id from to d =
      all scan_usage (lit "scan usage") (lit "list usage")
        (driver.query select_usage (text id ∷ timestamp from ∷ timestamp to ∷ []) d)

  unfoldable pub ping : D → Result (Unit {0})
  ping d = done (lit "ping") (driver.ping d)

  -- The loop over the tables stops at the first failure.
  unfoldable pub delete_all : List Str → D → Result (Unit {0}) × D
  delete_all [] d = (ok tt, d)
  delete_all (table ∷ tables) d =
      let (reply, d') = driver.exec (lit "DELETE FROM " ++ table) [] d in
      elim reply [
        | value n ↦ delete_all tables d'
        | error e ↦ (err (store_error (lit "reset " ++ table) e), d')
      ]

  unfoldable pub reset : D → Result (Unit {0}) × D
  reset = delete_all (lit "usage" ∷ lit "subscribers" ∷ lit "plans" ∷ [])

  unfoldable pub sqlite_store : Store D
  sqlite_store = record {
    create_plan = create_plan;
    get_plan = get_plan;
    list_plans = list_plans;
    create_subscriber = create_subscriber;
    get_subscriber = get_subscriber;
    list_subscribers = list_subscribers;
    update_subscriber = update_subscriber;
    add_usage = add_usage;
    list_usage = list_usage;
    ping = ping;
    reset = reset;
  }

  -- `open` is `sql.Open` with the name of the driver.
  unfoldable pub new_sqlite_store : (Str → Reply D) → Str → Result D
  new_sqlite_store open_db dsn = elim (open_db dsn) [
    | error e ↦ err (store_error (lit "open sqlite") e)
    | value d ↦ elim (driver.ping d) [
      | error e ↦ err (store_error (lit "ping sqlite") e)
      | value u ↦
          let (reply, d') = driver.exec schema [] d in
          elim reply [ error e ↦ err (store_error (lit "apply schema") e) | value n ↦ ok d' ]
    ]
  ]
