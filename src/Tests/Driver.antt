-- ===== src/Tests/Driver.antt =====
-- A driver that executes the statements of internal/store/sqlite.go on tables, and keeps the laws.
use my_demo_app.Prelude.{
  ℕ, ◌≡◌, refl, Option, none, some, List, [], ◌∷◌, ◌++◌, map, if◌then◌else◌, length,
}
use my_demo_app.Prelude.Int.{ℤ, pos}
use my_demo_app.Text.{Str, lit, str_eq}
use my_demo_app.Exec.{Reply, value, error}
use my_demo_app.Subscriber.{Plan, Subscriber, UsageRecord}
use my_demo_app.Store.Driver.{Value, Row, Rows, Driver, text, integer}
use my_demo_app.Store.Statements.{
  insert_plan, select_plan, select_plans, insert_subscriber, select_subscriber, update_row,
  insert_usage,
}
use my_demo_app.Store.Filter.{keep_if}
use my_demo_app.Store.Sort.{sort_by}
use my_demo_app.Store.Sqlite.{search_query, scan_plan, scan_subscriber, scan_usage, search_query}
use my_demo_app.Store.Sqlite.Tables.{
  Tables, plan_row, subscriber_row, having, find_by, replace_by, complete, as_read, IsHealthy,
}
use my_demo_app.Store.Sqlite.Lists.{sql_page}
use my_demo_app.Store.Sqlite.Search.{like_test}
use my_demo_app.Store.Sqlite.Restart.{IsStrict}

abbrev refused : Tables → Reply (Reply ℤ) × Tables
refused t = (error (lit "constraint failed"), t)

abbrev affects : ℕ → Tables → Reply (Reply ℤ) × Tables
affects n t = (value (value (pos n)), t)

abbrev store_plan : Option Plan → Tables → Reply (Reply ℤ) × Tables
store_plan none t = refused t
store_plan (some p) t = elim (find_by (λ (x : Plan). x.id) p.id t.plans) [
  | none ↦ affects 1 (record t { plans = t.plans ++ p ∷ [] })
  | some q ↦ refused t
]

abbrev store_subscriber : Option Subscriber → Tables → Reply (Reply ℤ) × Tables
store_subscriber none t = refused t
store_subscriber (some s) t = elim (find_by (λ (x : Subscriber). x.id) s.id t.subscribers) [
  | none ↦ affects 1 (record t { subscribers = t.subscribers ++ s ∷ [] })
  | some q ↦ refused t
]

abbrev store_usage : Option UsageRecord → Tables → Reply (Reply ℤ) × Tables
store_usage none t = refused t
store_usage (some u) t = elim (find_by (λ (x : UsageRecord). x.id) u.id t.usage) [
  | none ↦ affects 1 (record t { usage = t.usage ++ u ∷ [] })
  | some q ↦ refused t
]

abbrev overwrite : Option Subscriber → Tables → Reply (Reply ℤ) × Tables
overwrite none t = refused t
overwrite (some s) t =
    affects (length (having (λ (x : Subscriber). x.id) s.id t.subscribers))
      (record t { subscribers = replace_by (λ (x : Subscriber). x.id) s t.subscribers })

plan_stored :
    (p : Plan) (t : Tables)
    → find_by (λ (x : Plan). x.id) p.id t.plans ≡ none
    → store_plan (some p) t ≡ affects 1 (record t { plans = t.plans ++ p ∷ [] })
plan_stored p t fresh = rw (store_plan, fresh) refl

subscriber_stored :
    (s : Subscriber) (t : Tables)
    → find_by (λ (x : Subscriber). x.id) s.id t.subscribers ≡ none
    → store_subscriber (some s) t ≡ affects 1 (record t { subscribers = t.subscribers ++ s ∷ [] })
subscriber_stored s t fresh = rw (store_subscriber, fresh) refl

usage_stored :
    (u : UsageRecord) (t : Tables)
    → find_by (λ (x : UsageRecord). x.id) u.id t.usage ≡ none
    → store_usage (some u) t ≡ affects 1 (record t { usage = t.usage ++ u ∷ [] })
usage_stored u t fresh = rw (store_usage, fresh) refl

-- The key comes last among the arguments of an UPDATE.
abbrev update_args : List Value → Row
update_args (a ∷ b ∷ c ∷ d ∷ e ∷ f ∷ g ∷ id ∷ []) = id ∷ a ∷ b ∷ c ∷ d ∷ e ∷ f ∷ g ∷ []
update_args _ = []

abbrev of_id : {A : Type 0} → (A → Str) → (A → Row) → List A → List Value → Reply Rows
of_id key show rows (text id ∷ []) = complete (map show (having key id rows))
of_id key show rows _ = error (lit "bad arguments")

abbrev demo_exec : Str → List Value → Tables → Reply (Reply ℤ) × Tables
demo_exec statement args t =
    if str_eq statement insert_plan
    then store_plan (scan_plan args) t
    else if str_eq statement insert_subscriber
    then store_subscriber (scan_subscriber args) t
    else if str_eq statement insert_usage
    then store_usage (scan_usage args) t
    else if str_eq statement update_row
    then overwrite (scan_subscriber (update_args args)) t
    else if str_eq statement (lit "DELETE FROM usage")
    then affects (length t.usage) (record t { usage = [] })
    else if str_eq statement (lit "DELETE FROM subscribers")
    then affects (length t.subscribers) (record t { subscribers = [] })
    else if str_eq statement (lit "DELETE FROM plans")
    then affects (length t.plans) (record t { plans = [] })
    else refused t

abbrev page_of : List Plan → List Value → Reply Rows
page_of rows (integer limit ∷ integer offset ∷ []) =
    complete (map plan_row (sql_page limit offset (sort_by (λ (p : Plan). p.id) rows)))
page_of rows _ = error (lit "bad arguments")

abbrev demo_search : Str
demo_search = search_query (lit "ada") (pos 10) (pos 0)

abbrev demo_query : Str → List Value → Tables → Reply Rows
demo_query statement args t =
    if str_eq statement select_plan
    then of_id (λ (x : Plan). x.id) plan_row t.plans args
    else if str_eq statement select_subscriber
    then of_id (λ (x : Subscriber). x.id) subscriber_row t.subscribers args
    else if str_eq statement select_plans
    then page_of t.plans args
    else if str_eq statement demo_search
    then complete (
        map subscriber_row (
          sql_page (pos 10) (pos 0)
            (sort_by (λ (x : Subscriber). x.id) (keep_if (like_test (lit "ada")) t.subscribers))))
    else error (lit "unknown statement")

abbrev pub demo : Driver Tables
demo = record {
  exec = demo_exec;
  query = demo_query;
  ping = λ t. value tt;
  misfit = λ r. lit "sql: Scan error";
}

pub demo-IsHealthy : IsHealthy demo (λ t. t)
unfolding str_eq
demo-IsHealthy = record {
  insert_plan_lem =
      λ p t fresh. (λ i. (plan_stored p t fresh i).0, λ i. (plan_stored p t fresh i).1);
  insert_subscriber_lem = λ s t fresh. (
    λ i. (subscriber_stored (as_read s) t fresh i).0,
    λ i. (subscriber_stored (as_read s) t fresh i).1,
  );
  insert_usage_lem =
      λ u t fresh. (λ i. (usage_stored u t fresh i).0, λ i. (usage_stored u t fresh i).1);
  select_plan_lem = λ id t. refl;
  select_subscriber_lem = λ id t. refl;
  update_row_lem = λ s t. (refl, refl);
  delete_usage_lem = λ t. (refl, refl);
  delete_subscribers_lem = λ t. (refl, refl);
  delete_plans_lem = λ t. (refl, refl);
}

plan_refused :
    (p q : Plan) (t : Tables)
    → find_by (λ (x : Plan). x.id) p.id t.plans ≡ some q
    → store_plan (some p) t ≡ refused t
plan_refused p q t taken = rw (store_plan, taken) refl

pub demo-IsStrict : IsStrict demo (λ t. t)
unfolding str_eq
demo-IsStrict = record {
  taken_lem = λ p q t taken. (
    lit "constraint failed",
    λ i. (plan_refused p q t taken i).0,
    λ i. (plan_refused p q t taken i).1,
  );
}
