-- ===== src/Store/Sqlite/Complete.antt =====
-- internal/store/sqlite.go: when a listing has no error.
use my_demo_app.Prelude.{◌≡◌, refl, ap, ap₂, ◌∙◌, ◌↔◌, Option, none, some, List, [], ◌∷◌, map}
use my_demo_app.Prelude.Int.{ℤ}
use my_demo_app.Text.{Str}
use my_demo_app.Time.{Time}
use my_demo_app.Exec.{Reply, value, error, Result, ok, err}
use my_demo_app.Subscriber.{Plan, Subscriber, UsageRecord}
use my_demo_app.Store.Driver.{Row, Rows, Driver, text, integer, timestamp}
use my_demo_app.Store.Statements.{select_plans, select_usage}
use my_demo_app.Store.Sqlite.{
  scan_plan, scan_subscriber, scan_usage, search_query, scanned, and_more, collect, all, list_plans,
  list_subscribers, list_usage,
}

-- The query came to its end, and its rows are those that scan as `found`.
pub record IsComplete {A : Type 0} (scan : Row → Option A) (reply : Reply Rows) (found : List A)
    : Type 0 where
  pub answer : Rows
  pub replied : reply ≡ value answer
  pub unbroken : answer.failure ≡ none
  pub fits : map scan answer.rows ≡ map some found

and_more-ok :
    {A : Type 0} (r : Result A) (more : Result (List A)) (a : A) (found : List A)
    → and_more r more ≡ ok (a ∷ found)
    → (r ≡ ok a) × (more ≡ ok found)
and_more-ok (err e) more a found h = cc
and_more-ok (ok b) (err e) a found h = cc
and_more-ok (ok b) (ok rest) a found h = (cc, cc)

and_more_not_empty :
    {A : Type 0} (r : Result A) (more : Result (List A)) → ¬ (and_more r more ≡ ok [])
and_more_not_empty (err e) more h = cc
and_more_not_empty (ok b) (err e) h = cc
and_more_not_empty (ok b) (ok rest) h = cc

scanned-ok :
    {A : Type 0} (what misfit : Str) (o : Option A) (a : A)
    → scanned what misfit o ≡ ok a
    → o ≡ some a
scanned-ok what misfit none a h = cc
scanned-ok what misfit (some b) a h = cc

collect-ok :
    {A : Type 0} (misfit : Row → Str) (scan : Row → Option A) (what list : Str) (rows : List Row)
    (failure : Option Str) (found : List A)
    → collect misfit scan what list rows failure ≡ ok found
    → (failure ≡ none) × (map scan rows ≡ map some found)
unfolding collect
collect-ok misfit scan what list [] none [] h = (refl, refl)
collect-ok misfit scan what list [] none (a ∷ found) h = cc
collect-ok misfit scan what list [] (some e) found h = cc
collect-ok misfit scan what list (r ∷ rows) failure [] h =
    absurd (and_more_not_empty _ (collect misfit scan what list rows failure) h)
collect-ok misfit scan what list (r ∷ rows) failure (a ∷ found) h =
    let (first, later) =
      and_more-ok (scanned what (misfit r) (scan r)) (collect misfit scan what list rows failure) a
        found h in
    let (unbroken, fits) = collect-ok misfit scan what list rows failure found later in
    (unbroken, ap₂ (λ x xs. x ∷ xs) (scanned-ok what (misfit r) (scan r) a first) fits)

collect_complete :
    {A : Type 0} (misfit : Row → Str) (scan : Row → Option A) (what list : Str) (rows : List Row)
    (found : List A)
    → map scan rows ≡ map some found
    → collect misfit scan what list rows none ≡ ok found
unfolding collect
collect_complete misfit scan what list [] [] h = refl
collect_complete misfit scan what list [] (a ∷ found) h = cc
collect_complete misfit scan what list (r ∷ rows) [] h = cc
collect_complete misfit scan what list (r ∷ rows) (a ∷ found) h =
    let first : scan r ≡ some a = cc in
    let rest : map scan rows ≡ map some found = cc in
    rw (first, collect_complete misfit scan what list rows found rest) refl

module _ {D : Type 0} (driver : Driver D) where
  all_iff :
      {A : Type 0} (scan : Row → Option A) (what list : Str) (reply : Reply Rows) (found : List A)
      → (all driver scan what list reply ≡ ok found) ↔ IsComplete scan reply found
  all_iff scan what list (error e) found = (λ h. cc, λ h. let bad = h.replied in cc)
  all_iff scan what list (value answer) found = (
    λ h.
        let (unbroken, fits) =
          collect-ok driver.misfit scan what list answer.rows answer.failure found h in
        record { answer = answer; replied = refl; unbroken = unbroken; fits = fits },
    λ h.
        let same : answer ≡ h.answer =
          ap (λ r. elim r [ value x ↦ x | error e ↦ answer ]) h.replied in
        let unbroken : answer.failure ≡ none = ap (λ (x : Rows). x.failure) same ∙ h.unbroken in
        let fits : map scan answer.rows ≡ map some found =
          ap (λ (x : Rows). map scan x.rows) same ∙ h.fits in
        rw unbroken (collect_complete driver.misfit scan what list answer.rows found fits),
  )

  -- Whatever the driver answers, each of the three listings of the SQLite store returns given
  -- values without an error exactly where its query was answered, came to its end without a
  -- failure, and its rows scan as just these values in their order.
  pub lists-IsComplete :
      (search id : Str) (limit offset : ℤ) (from to : Time) (d : D) (ps : List Plan)
      (ss : List Subscriber) (us : List UsageRecord)
      → ((list_plans driver limit offset d ≡ ok ps)
          ↔ IsComplete scan_plan
              (driver.query select_plans (integer limit ∷ integer offset ∷ []) d)
              ps)
        × ((list_subscribers driver search limit offset d ≡ ok ss)
            ↔ IsComplete scan_subscriber (driver.query (search_query search limit offset) [] d) ss)
        × ((list_usage driver id from to d ≡ ok us)
            ↔ IsComplete scan_usage
                (driver.query select_usage (text id ∷ timestamp from ∷ timestamp to ∷ []) d)
                us)
  unfolding list_plans list_subscribers list_usage
  lists-IsComplete search id limit offset from to d ps ss us =
      (all_iff scan_plan _ _ _ ps, all_iff scan_subscriber _ _ _ ss, all_iff scan_usage _ _ _ us)
