-- ===== src/Store/Sqlite/Lists.antt =====
-- internal/store/sqlite.go: what the queries list, and that the in-memory store lists the same.
use mathlib.Core.List.{Permᴰ}
use my_demo_app.Prelude.{
  ◌≡◌, refl, Option, none, some, List, [], ◌∷◌, map, arith, if◌then◌else◌, take, drop,
}
use my_demo_app.Prelude.Int.{ℤ, pos_part, ◌≤ℤ◌, ltb_ℤ, pos}
use my_demo_app.Text.{Str}
use my_demo_app.Exec.{ok}
use my_demo_app.Subscriber.{Plan}
use my_demo_app.Store.Sort.{sort_by, HasDistinct, sort_by-perm}
use my_demo_app.Store.Assoc.{values}
use my_demo_app.Store.Page.{paginate_lem, paginate}
use my_demo_app.Store.Memory.{MemoryStore, in_range, records, matches}
use my_demo_app.Store.Memory
use my_demo_app.Store.Driver.{Row, Driver, integer}
use my_demo_app.Store.Statements.{select_plans}
use my_demo_app.Store.Sqlite.{scan_plan, collect, list_plans}
use my_demo_app.Store.Sqlite.Tables.{Tables, plan_row, complete}

-- `LIMIT` and `OFFSET`: a negative limit is none, a negative offset is 0.
abbrev pub sql_page : {A : Type 0} → ℤ → ℤ → List A → List A
sql_page limit offset rows =
    let rest = drop (pos_part offset) rows in
    if ltb_ℤ limit (pos 0) then rest else take (pos_part limit) rest

-- Rows that fit are all scanned.
collect-map :
    {A : Type 0} (misfit : Row → Str) (scan : Row → Option A) (show : A → Row) (what list : Str)
    (rows : List A)
    → ((a : A) → scan (show a) ≡ some a)
    → collect misfit scan what list (map show rows) none ≡ ok rows
unfolding collect
collect-map misfit scan show what list [] fits = refl
collect-map misfit scan show what list (a ∷ rows) fits =
    rw (fits a, collect-map misfit scan show what list rows fits) refl

-- With a positive limit the page is that of the in-memory store.
pub paginate-sql_page :
    {A : Type 0} (limit offset : ℤ) (rows : List A)
    → pos 1 ≤ℤ limit
    → paginate rows limit offset ≡ sql_page limit offset rows
paginate-sql_page limit offset rows positive = rw (paginate_lem rows limit offset) (ground arith)

module _ {D : Type 0} (driver : Driver D) (tables : D → Tables) where
  -- Where the driver answers the query of ListPlans as documented, with a positive limit and the
  -- same plans, their IDs distinct, the SQLite store and the in-memory store list the same page.
  pub list_plans-sqlite :
      (m : MemoryStore) (limit offset : ℤ) (d : D)
      → driver.query select_plans (integer limit ∷ integer offset ∷ []) d
        ≡ complete
            (map plan_row (sql_page limit offset (sort_by (λ (p : Plan). p.id) (tables d).plans)))
      → pos 1 ≤ℤ limit
      → HasDistinct (λ (p : Plan). p.id) (values m.plans)
      → Permᴰ (values m.plans) (tables d).plans
      → list_plans driver limit offset d ≡ Memory.list_plans limit offset m
  unfolding list_plans Memory.list_plans
  list_plans-sqlite m limit offset d answers positive distinct same =
      let key : Plan → Str = λ p. p.id in
      rw
        (
          answers,
          paginate-sql_page limit offset (sort_by key (values m.plans)) positive,
          sort_by-perm key same distinct,
        )
        (collect-map driver.misfit scan_plan plan_row _ _ _ (λ p. refl))
