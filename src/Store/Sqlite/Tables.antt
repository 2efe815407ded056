-- ===== src/Store/Sqlite/Tables.antt =====
-- What a driver over a SQLite database answers to the statements of internal/store/sqlite.go, by the
-- documentation of SQL, as laws on its tables.
use my_demo_app.Prelude.{◌≡◌, Option, none, some, List, [], ◌∷◌, ◌++◌, map, if◌then◌else◌, length}
use my_demo_app.Prelude.Int.{pos}
use my_demo_app.Text.{Str, lit, str_eq}
use my_demo_app.Subscriber.{status_of, status_text, Plan, Subscriber, UsageRecord}
use my_demo_app.Store.Filter.{keep_if}
use my_demo_app.Store.Driver.{Row, Rows, Driver, text, integer, timestamp}
use my_demo_app.Exec.{Reply, value}
use my_demo_app.Store.Statements.{
  insert_plan, select_plan, insert_subscriber, select_subscriber, update_row, insert_usage,
}

-- The rows of the tables in the order of their insertion, each with the columns of the schema.
pub record Tables : Type 0 where
  pub plans : List Plan
  pub subscribers : List Subscriber
  pub usage : List UsageRecord

abbrev pub plan_row : Plan → Row
plan_row p =
    text p.id
    ∷ text p.name
    ∷ integer p.monthly_price_cents
    ∷ integer p.included_voice_minutes
    ∷ integer p.included_data_mb
    ∷ integer p.included_sms
    ∷ integer p.overage_voice_cents
    ∷ integer p.overage_data_cents_per_mb
    ∷ integer p.overage_sms_cents
    ∷ []

abbrev pub subscriber_row : Subscriber → Row
subscriber_row s =
    text s.id
    ∷ text s.msisdn
    ∷ text s.imsi
    ∷ text s.name
    ∷ text s.plan_id
    ∷ text s.owner_account_id
    ∷ text (status_text s.status)
    ∷ timestamp s.created_at
    ∷ []

abbrev pub usage_row : UsageRecord → Row
usage_row u =
    text u.id ∷ text u.subscriber_id ∷ text u.kind ∷ integer u.quantity ∷ timestamp u.timestamp ∷ []

-- A subscriber with the status that its text stands for, as the column holds it.
abbrev pub as_read : Subscriber → Subscriber
as_read s = record s { status = status_of (status_text s.status) }

module _ {A : Type 0} (key : A → Str) where
  -- `WHERE key = k`
  abbrev pub having : Str → List A → List A
  having k = keep_if (λ a. str_eq (key a) k)

  -- The first such row.
  unfoldable pub find_by : Str → List A → Option A
  find_by k [] = none
  find_by k (a ∷ rows) = if str_eq (key a) k then some a else find_by k rows

  -- `UPDATE ... WHERE key = k`, of every other column.
  unfoldable pub replace_by : A → List A → List A
  replace_by new [] = []
  replace_by new (a ∷ rows) = (if str_eq (key a) (key new) then new else a) ∷ replace_by new rows

-- A query that runs to its end.
abbrev pub complete : List Row → Reply Rows
complete rows = value (record { rows = rows; failure = none })

-- The driver fails no statement but an `INSERT` whose primary key is in use. A column gives back
-- the value that was put in.
pub record IsHealthy {D : Type 0} (driver : Driver D) (tables : D → Tables) : Type 0 where
  pub insert_plan_lem :
      (p : Plan) (d : D)
      → find_by (λ (x : Plan). x.id) p.id (tables d).plans ≡ none
      → ((driver.exec insert_plan (plan_row p) d).0 ≡ value (value (pos 1)))
        × (tables (driver.exec insert_plan (plan_row p) d).1
            ≡ record (tables d) { plans = (tables d).plans ++ p ∷ [] })
  pub insert_subscriber_lem :
      (s : Subscriber) (d : D)
      → find_by (λ (x : Subscriber). x.id) s.id (tables d).subscribers ≡ none
      → ((driver.exec insert_subscriber (subscriber_row s) d).0 ≡ value (value (pos 1)))
        × (tables (driver.exec insert_subscriber (subscriber_row s) d).1
            ≡ record (tables d) { subscribers = (tables d).subscribers ++ as_read s ∷ [] })
  pub insert_usage_lem :
      (u : UsageRecord) (d : D)
      → find_by (λ (x : UsageRecord). x.id) u.id (tables d).usage ≡ none
      → ((driver.exec insert_usage (usage_row u) d).0 ≡ value (value (pos 1)))
        × (tables (driver.exec insert_usage (usage_row u) d).1
            ≡ record (tables d) { usage = (tables d).usage ++ u ∷ [] })
  pub select_plan_lem :
      (id : Str) (d : D)
      → driver.query select_plan (text id ∷ []) d
        ≡ complete (map plan_row (having (λ (x : Plan). x.id) id (tables d).plans))
  pub select_subscriber_lem :
      (id : Str) (d : D)
      → driver.query select_subscriber (text id ∷ []) d
        ≡ complete
            (map subscriber_row (having (λ (x : Subscriber). x.id) id (tables d).subscribers))
  -- The number of rows affected is the number of rows that match.
  pub update_row_lem :
      (s : Subscriber) (d : D)
      → let args =
          text s.msisdn
          ∷ text s.imsi
          ∷ text s.name
          ∷ text s.plan_id
          ∷ text s.owner_account_id
          ∷ text (status_text s.status)
          ∷ timestamp s.created_at
          ∷ text s.id
          ∷ [] in
        let rows = (tables d).subscribers in
        ((driver.exec update_row args d).0
          ≡ value (value (pos (length (having (λ (x : Subscriber). x.id) s.id rows)))))
        × (tables (driver.exec update_row args d).1 ≡ record (tables d) {
          subscribers = replace_by (λ (x : Subscriber). x.id) (as_read s) rows;
        })
  pub delete_usage_lem :
      (d : D)
      → let (reply, d') = driver.exec (lit "DELETE FROM usage") [] d in
        (reply ≡ value (value (pos (length (tables d).usage))))
        × (tables d' ≡ record (tables d) { usage = [] })
  pub delete_subscribers_lem :
      (d : D)
      → let (reply, d') = driver.exec (lit "DELETE FROM subscribers") [] d in
        (reply ≡ value (value (pos (length (tables d).subscribers))))
        × (tables d' ≡ record (tables d) { subscribers = [] })
  pub delete_plans_lem :
      (d : D)
      → let (reply, d') = driver.exec (lit "DELETE FROM plans") [] d in
        (reply ≡ value (value (pos (length (tables d).plans))))
        × (tables d' ≡ record (tables d) { plans = [] })
