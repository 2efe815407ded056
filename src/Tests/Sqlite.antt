-- ===== src/Tests/Sqlite.antt =====
-- Runs of the SQLite store of internal/store/sqlite.go over a driver on tables.
use mathlib.Core.List.{Permᴰ}
use mathlib.Core.List.Permᴰ
use my_demo_app.Prelude.{ℕ, ◌≡◌, refl, List, [], ◌∷◌, map, arith}
use my_demo_app.Prelude.Int.{pos}
use my_demo_app.Text.{is_empty, lit, str_eq}
use my_demo_app.Text.Decimal.{itoa}
use my_demo_app.Text.Trim.{trim_space}
use my_demo_app.Exec.{ok}
use my_demo_app.Subscriber.{Plan, Subscriber}
use my_demo_app.Store.Keyed.{values-HasDistinct}
use my_demo_app.Store.Assoc.{lookup, values}
use my_demo_app.Store.Filter.{keep_if}
use my_demo_app.Store.Sort.{HasDistinct}
use my_demo_app.Store.Db.{IsStore}
use my_demo_app.Store.Memory.{MemoryStore, in_range}
use my_demo_app.Store.Memory
use my_demo_app.Text.Trim.{trim_space}
use my_demo_app.Store.Sqlite.{
  search_query, search_query, create_plan, get_plan, list_plans, create_subscriber, get_subscriber,
  list_subscribers, update_subscriber, add_usage, list_usage, ping, reset, sqlite_store,
}
use my_demo_app.Store.Sqlite.Tables.{Tables, find_by, as_read}
use my_demo_app.Store.Sqlite.Laws.{db_of, sqlite_store-IsStore}
use my_demo_app.Store.Sqlite.Errors.{IsWrapped, IsWrappedOrMissing, OnError, sqlite_store-errors}
use my_demo_app.Store.Sqlite.Reset.{ResetOutcome, reset-ResetOutcome}
use my_demo_app.Store.Sqlite.Lists.{list_plans-sqlite}
use my_demo_app.Store.Sqlite.Search.{list_subscribers-sqlite}
use my_demo_app.Store.Sqlite.Like.{fold_case}
use my_demo_app.Store.Memory.{memory_store}
use my_demo_app.Store.Memory.Laws.{view, memory_store-IsStore}
use my_demo_app.Subscriber.{suspended}
use my_demo_app.Subscriber.Service.{World}
use my_demo_app.Subscriber.Service.Agree.{
  Every, Operation, plan_created, subscriber_created, status_changed, subscriber_read, emptied,
  plan_read, apply_all, IsAlike,
}
use my_demo_app.Subscriber.Service.Agree.Sequences.{apply_all-same}
use my_demo_app.Subscriber.Service.Plans.{IsSellable}
use my_demo_app.Store.Sqlite.Restart.{IsMade, IsRefused, apply_all-IsRefused}
use my_demo_app.Store.Sqlite.Complete.{IsComplete, lists-IsComplete}
use my_demo_app.Prelude.{◌↔◌}
use my_demo_app.Store.Driver.{text, integer, timestamp}
use my_demo_app.Store.Statements.{select_plans, select_usage}
use my_demo_app.Store.Sqlite.{scan_plan, scan_subscriber, scan_usage, search_query}
use my_demo_app.Tests.Fixtures.{
  same_case, input, fresh_world, fresh-IsIssued, basic, ada, usage_of, now, january, february,
}
use my_demo_app.Tests.Driver.{demo, demo-IsHealthy, demo-IsStrict}

sqlite_store-IsStore_example : IsStore (sqlite_store demo) db_of
sqlite_store-IsStore_example = sqlite_store-IsStore demo (λ t. t) demo-IsHealthy

abbrev gold : Plan
gold = record basic { id = lit "plan_2" }

abbrev filled : Tables
filled = record {
  plans = gold ∷ basic ∷ [];
  subscribers = ada ∷ [];
  usage = usage_of (lit "sms") (pos 1) now ∷ usage_of (lit "voice") (pos 7) january ∷ [];
}

abbrev same_data : MemoryStore
same_data = record {
  plans = (lit "plan_1", basic) ∷ (lit "plan_2", gold) ∷ [];
  subscribers = (lit "sub_1", ada) ∷ [];
  usage = (lit "sub_1", filled.usage) ∷ [];
}

sqlite_store-errors_example :
    OnError IsWrapped (create_plan demo basic filled).0
    × OnError IsWrappedOrMissing (get_plan demo (lit "plan_9") filled)
    × OnError IsWrapped (list_plans demo (pos 10) (pos 0) filled)
    × OnError IsWrapped (create_subscriber demo ada filled).0
    × OnError IsWrappedOrMissing (get_subscriber demo (lit "plan_9") filled)
    × OnError IsWrapped (list_subscribers demo (lit "o'") (pos 10) (pos 0) filled)
    × OnError IsWrappedOrMissing (update_subscriber demo ada filled).0
    × OnError IsWrapped (add_usage demo (usage_of (lit "sms") (pos 1) now) filled).0
    × OnError IsWrapped (list_usage demo (lit "plan_9") january february filled)
    × OnError IsWrapped (ping demo filled)
    × OnError IsWrapped (reset demo filled).0
sqlite_store-errors_example =
    sqlite_store-errors demo basic ada (usage_of (lit "sms") (pos 1) now) (lit "plan_9") (lit "o'")
      (pos 10) (pos 0) january february filled

reset-ResetOutcome_example : ResetOutcome demo filled (reset demo filled)
reset-ResetOutcome_example = reset-ResetOutcome demo filled

distinct_plans : HasDistinct (λ (p : Plan). p.id) (values same_data.plans)
unfolding str_eq
distinct_plans =
    values-HasDistinct (λ (p : Plan). p.id) same_data.plans ((refl, tt), (tt, tt))
      (refl, (refl, tt))

distinct_subscribers : HasDistinct (λ (s : Subscriber). s.id) (values same_data.subscribers)
distinct_subscribers =
    values-HasDistinct (λ (s : Subscriber). s.id) same_data.subscribers (tt, tt) (refl, tt)

list_plans-sqlite_example :
    list_plans demo (pos 10) (pos 0) filled ≡ Memory.list_plans (pos 10) (pos 0) same_data
unfolding str_eq
list_plans-sqlite_example =
    list_plans-sqlite demo (λ t. t) same_data (pos 10) (pos 0) filled refl (omega arith)
      distinct_plans (Permᴰ.swap refl refl)

list_subscribers-sqlite_example :
    (page : List Subscriber) × (Memory.list_subscribers fold_case
        (lit "ada")
        (pos 10)
        (pos 0)
        same_data
      ≡ ok page)
    × (list_subscribers demo (lit "ada") (pos 10) (pos 0) filled ≡ ok (map as_read page))
unfolding str_eq itoa search_query is_empty trim_space
list_subscribers-sqlite_example =
    list_subscribers-sqlite demo (λ t. t) fold_case same_data (lit "ada") (pos 10) (pos 0) filled
      refl (omega arith)
      (
        omega arith,
        omega arith,
        omega arith,
        (omega arith, omega arith, omega arith, (omega arith, omega arith, omega arith, tt)),
      )
      refl refl (λ s there. (refl, refl)) distinct_subscribers (Permᴰ.refl (ada ∷ []))

abbrev empty_tables : Tables
empty_tables = record { plans = []; subscribers = []; usage = [] }

abbrev table_world : World Tables
table_world = record { store = empty_tables; id_counter = pos 0 }

alike : IsAlike view db_of 0 fresh_world table_world
unfolding lookup keep_if find_by
alike = record { counter_v = refl; counter_w = refl; same = refl; issued = fresh-IsIssued }

abbrev operations : List Operation
operations =
    plan_created basic
    ∷ subscriber_created now input
    ∷ status_changed (lit "sub_2") suspended
    ∷ subscriber_read (lit "sub_2")
    ∷ emptied
    ∷ plan_read (lit "plan_1")
    ∷ []

apply_all-same_example :
    ((apply_all (memory_store same_case) operations fresh_world).0
      ≡ (apply_all (sqlite_store demo) operations table_world).0)
    × ((m : ℕ) × IsAlike view db_of m
          (apply_all (memory_store same_case) operations fresh_world).1
          (apply_all (sqlite_store demo) operations table_world).1)
apply_all-same_example =
    apply_all-same (memory_store-IsStore same_case)
      (sqlite_store-IsStore demo (λ t. t) demo-IsHealthy) 0 operations fresh_world table_world
      (omega arith) alike

basic-IsSellable : IsSellable basic
unfolding trim_space is_empty
basic-IsSellable = record { name = refl; price = omega arith }

apply_all-IsRefused_example :
    let (made, filled) =
      apply_all (sqlite_store demo) (plan_created basic ∷ plan_created basic ∷ []) table_world in
    let (again, after) =
      apply_all
        (sqlite_store demo)
        (plan_created basic ∷ [])
        (record filled { id_counter = pos 0 }) in
    Every IsMade made × Every IsRefused again × (after.store ≡ filled.store)
unfolding keep_if find_by
apply_all-IsRefused_example =
    apply_all-IsRefused demo (λ t. t) demo-IsStrict demo-IsHealthy (basic ∷ basic ∷ []) (basic ∷ [])
      empty_tables refl (basic-IsSellable, (basic-IsSellable, tt)) (basic-IsSellable, tt)
      (omega arith) (omega arith)

lists-IsComplete_example :
    ((list_plans demo (pos 10) (pos 0) filled ≡ ok (basic ∷ gold ∷ []))
      ↔ IsComplete scan_plan
          (demo.query select_plans (integer (pos 10) ∷ integer (pos 0) ∷ []) filled)
          (basic ∷ gold ∷ []))
    × ((list_subscribers demo (lit "ada") (pos 10) (pos 0) filled ≡ ok (ada ∷ []))
        ↔ IsComplete scan_subscriber
            (demo.query (search_query (lit "ada") (pos 10) (pos 0)) [] filled)
            (ada ∷ []))
    × ((list_usage demo (lit "sub_1") january february filled ≡ ok [])
        ↔ IsComplete scan_usage
            (demo.query select_usage
              (text (lit "sub_1") ∷ timestamp january ∷ timestamp february ∷ [])
              filled)
            [])
lists-IsComplete_example =
    lists-IsComplete demo (lit "ada") (lit "sub_1") (pos 10) (pos 0) january february filled
      (basic ∷ gold ∷ []) (ada ∷ []) []
